-- ===== src/Base/Texts.antt =====
-- Concatenation of texts.
use Prim.Native.String.{String}

-- `a + b`
unfoldable pub text_append : String → String → String
text_append String.[] t = t
text_append (String.◌∷◌ c s) t = String.◌∷◌ c (text_append s t)
