-- ===== src/Logging.antt =====
-- What packages/core/src/logging.ts makes of the attributes of a log record.
pub mod Redaction
pub mod Secrecy
mod Tests
use doxajs.Base.{
  ℕ, zero, suc, String, Bool, true, false, Option, none, some, List, [], ◌∷◌, ◌||◌, ◌>>=?◌, nat_eq,
  if◌then◌else◌,
}

-- A value of unknown type; arrays and other objects are references into a heap. `opaque` is a bigint, a
-- symbol or a function, by its text; a date that is not valid has no text.
pub data Datum (N : Type 0) : Type 0 where
  undefined null : Datum N
  bool : Bool → Datum N
  number : N → Datum N
  string opaque secret : String → Datum N
  date : Option String → Datum N
  error : String → String → Datum N
  reference : ℕ → Datum N

-- What a reference leads to; an access to an `unreadable` object throws, as one to a revoked proxy does.
pub data Body (N : Type 0) : Type 0 where
  array_of : List (Datum N) → Body N
  object_of : List (String × Datum N) → Body N
  unreadable : Body N

mutual
  pub data Json (N : Type 0) : Type 0 where
    json_null : Json N
    json_bool : Bool → Json N
    json_number : N → Json N
    text : String → Json N
    items : Items N → Json N
    members : Members N → Json N

  pub data Items (N : Type 0) : Type 0 where
    nil : Items N
    cons : Json N → Items N → Items N

  pub data Members (N : Type 0) : Type 0 where
    end : Members N
    member : String → Json N → Members N → Members N

-- `String(number)`, `Number.isFinite`, `${name}: ${message}`, and the test of `isSensitiveKey`.
pub record Rules (N : Type 0) : Type 0 where
  pub shown : N → String
  pub is_finite : N → Bool
  pub described : String → String → String
  pub is_sensitive : String → Bool

abbrev pub seen_before : ℕ → List ℕ → Bool
seen_before n [] = false
seen_before n (m ∷ ms) = nat_eq m n || seen_before n ms

module _ {N : Type 0} (rules : Rules N) where
  abbrev pub sanitize_number : N → Json N
  sanitize_number n = if rules.is_finite n then json_number n else text (rules.shown n)

  -- `value.map(…)`, with the recursive call passed in; `none` is an error that was thrown.
  unfoldable pub sanitize_items : (Datum N → Option (Json N)) → List (Datum N) → Option (Items N)
  sanitize_items call [] = some nil
  sanitize_items call (v ∷ vs) = call v >>=? λ j. sanitize_items call vs >>=? λ js. some (cons j js)

  abbrev pub redact : (Datum N → Option (Json N)) → String → Datum N → Option (Json N)
  redact call key v = if rules.is_sensitive key then some (text "[REDACTED]") else call v

  unfoldable pub sanitize_members :
      (Datum N → Option (Json N)) → List (String × Datum N) → Option (Members N)
  sanitize_members call [] = some end
  sanitize_members call ((key, v) ∷ vs) =
      redact call key v >>=? λ j. sanitize_members call vs >>=? λ js. some (member key j js)

  -- An object, when `depth` is 8 and when it is less.
  abbrev pub sanitize_deep : Body N → Option (Json N)
  sanitize_deep (array_of vs) = some (text "[MAX_DEPTH]")
  sanitize_deep (object_of vs) = some (text "[MAX_DEPTH]")
  sanitize_deep unreadable = none

  abbrev pub sanitize_body : (Datum N → Option (Json N)) → Bool → Body N → Option (Json N)
  sanitize_body call seen unreadable = none
  sanitize_body call true b = some (text "[CIRCULAR]")
  sanitize_body call false (array_of vs) = sanitize_items call vs >>=? λ js. some (items js)
  sanitize_body call false (object_of vs) = sanitize_members call vs >>=? λ js. some (members js)

  abbrev pub sanitize_date : Option String → Option (Json N)
  sanitize_date none = none
  sanitize_date (some s) = some (text s)

  -- `sanitizeValue`, where `room` is 8 less the depth. The set of objects on the way is passed down.
  unfoldable pub sanitize_value : (ℕ → Body N) → ℕ → List ℕ → Datum N → Option (Json N)
  sanitize_value heap room seen undefined = some (text "[undefined]")
  sanitize_value heap room seen null = some json_null
  sanitize_value heap room seen (bool b) = some (json_bool b)
  sanitize_value heap room seen (number n) = some (sanitize_number n)
  sanitize_value heap room seen (string s) = some (text s)
  sanitize_value heap room seen (opaque s) = some (text s)
  sanitize_value heap room seen (secret s) = some (text "[REDACTED]")
  sanitize_value heap room seen (date d) = sanitize_date d
  sanitize_value heap room seen (error name message) = some (text (rules.described name message))
  sanitize_value heap zero seen (reference n) = sanitize_deep (heap n)
  sanitize_value heap (suc room) seen (reference n) =
      sanitize_body (λ v. sanitize_value heap room (n ∷ seen) v) (seen_before n seen) (heap n)

  unfoldable pub sanitize_attributes : (ℕ → Body N) → List (String × Datum N) → Option (Members N)
  unfolding sanitize_members sanitize_items sanitize_value
  sanitize_attributes heap vs = sanitize_members (λ v. sanitize_value heap 8 [] v) vs

  abbrev pub or_unavailable : Option (Members N) → Members N
  or_unavailable none = member "loggingError" (text "attributes_unavailable") end
  or_unavailable (some js) = js

  unfoldable pub safe_sanitize_attributes : (ℕ → Body N) → List (String × Datum N) → Members N
  unfolding sanitize_attributes
  safe_sanitize_attributes heap vs = or_unavailable (sanitize_attributes heap vs)
