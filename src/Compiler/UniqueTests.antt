-- ===== src/Compiler/UniqueTests.antt =====
-- The uniqueness check on texts that are their own identities.
use doxajs.Base.{String, none, some, List, [], ◌∷◌, ◌≡◌, ◌↔◌, refl, Distinct, map}
use doxajs.Compiler.Unique.{assert_unique, assert_unique-none_iff}

abbrev names : List String
names = "a" ∷ "b" ∷ "a" ∷ []

repeated : assert_unique (λ (n : String). n) names ≡ some "a"
unfolding assert_unique
repeated = refl

assert_unique-none_iff_example :
    (assert_unique (λ (n : String). n) names ≡ none) ↔ Distinct (map (λ (n : String). n) names)
assert_unique-none_iff_example = assert_unique-none_iff (λ (n : String). n) names
