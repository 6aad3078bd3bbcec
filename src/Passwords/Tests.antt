-- ===== src/Passwords/Tests.antt =====
-- Toy ciphers: bytes are one number, base64url changes nothing, and JSON has one record.
use doxajs.Base.{
  ℕ, zero, suc, String, true, false, Bool, Option, none, some, List, [], ◌∷◌, ◌≡◌, refl, ltb,
  nat_eq, str_eq, text_append, if◌then◌else◌,
}
use doxajs.Js.{Value, undefined, number, string, object, field, end, property}
use doxajs.Js.Samples.{naturals}
use doxajs.Passwords.{
  Platform, record_of, create_password_record, needs_rehash, verify_password, is_invalid_record,
  decode_password_record, encode_password_record,
}
use doxajs.Passwords.Laws.{create_password_record-verify, decode_password_record-encode}

abbrev is_less : Value ℕ ⊥ → Value ℕ ⊥ → Bool
is_less (number a) (number b) = ltb a b
is_less v w = false

abbrev text_rest : ℕ → String → String
text_rest zero s = s
text_rest (suc n) String.[] = String.[]
text_rest (suc n) (String.◌∷◌ c s) = text_rest n s

abbrev shown_bytes : List ℕ → String
shown_bytes [] = ""
shown_bytes (b ∷ bs) = if nat_eq b 1 then "s" else "h"

abbrev read_bytes : Value ℕ ⊥ → Option (List ℕ)
read_bytes (string s) = if str_eq s "s" then some (1 ∷ []) else some (7 ∷ [])
read_bytes v = none

-- The first key of an object.
abbrev first_key : Value ℕ ⊥ → String
first_key (object (field k v fs)) = k
first_key v = ""

abbrev sample_parameters : Value ℕ ⊥
sample_parameters = object (
    field "algorithm" (string "argon2id") (
      field "memory" (number 19456) (
        field "passes" (number 2)
          (field "parallelism" (number 2) (field "tagLength" (number 32) end)))))

abbrev sample : Value ℕ ⊥
sample = object (
    field "version" (number 1) (
      field "salt" (string "s")
        (field "hash" (string "h") (field "parameters" sample_parameters end))))

abbrev is_nullish : Value ℕ ⊥ → Bool
is_nullish undefined = true
is_nullish v = false

abbrev is_one : Value ℕ ⊥ → Bool
is_one (number n) = nat_eq n 1
is_one v = false

abbrev equals_text : Value ℕ ⊥ → String → Bool
equals_text (string s) t = str_eq s t
equals_text v t = false

abbrev platform : Platform ℕ
platform = record {
  numbers = naturals;
  less = is_less;
  eightfold = λ v. number 16;
  nullish = is_nullish;
  is_text = equals_text;
  is_version = is_one;
  starts_with = λ s p. true;
  slice = λ n s. text_rest n s;
  text_of_base64url = λ s. s;
  base64url_of_text = λ s. s;
  base64url_of_bytes = shown_bytes;
  bytes_of_base64url = read_bytes;
  json_parse = λ s. some sample;
  json_stringify = first_key;
  derive = λ password salt parameters. some (7 ∷ []);
  timing_safe_equal = λ a b. true;
  has_bcrypt_form = λ s. true;
  cost = λ s. some 12;
  compare_bcrypt = λ password s. true;
  phc_parts = λ s. none;
  has_hex_form = λ s. false;
  bytes_of_hex = λ s. [];
  sha256 = λ s. [];
}

-- The parameters as a jsonb column gives them back, the shorter keys first.
abbrev stored_parameters : Value ℕ ⊥
stored_parameters = object (
    field "memory" (number 19456) (
      field "passes" (number 2) (
        field "algorithm" (string "argon2id")
          (field "tagLength" (number 32) (field "parallelism" (number 2) end)))))

abbrev stored : Value ℕ ⊥
stored = object (field "version" (number 1) (field "parameters" stored_parameters end))

stored_record_is_rehashed : needs_rehash platform stored ≡ true
unfolding needs_rehash property
stored_record_is_rehashed = refl

create_password_record-verify_example :
    (create_password_record platform "p" (1 ∷ []) ≡ some (record_of platform (1 ∷ []) (7 ∷ [])))
    × (verify_password platform "p" (record_of platform (1 ∷ []) (7 ∷ [])) ≡ true)
    × (needs_rehash platform (record_of platform (1 ∷ []) (7 ∷ [])) ≡ false)
create_password_record-verify_example =
    create_password_record-verify platform "p" (1 ∷ []) (7 ∷ []) refl refl refl refl refl

decode_password_record-encode_example :
    decode_password_record platform (encode_password_record platform sample) ≡ some sample
unfolding is_invalid_record property text_append
decode_password_record-encode_example =
    decode_password_record-encode platform sample refl (λ t. refl) (λ t. refl) (λ t. refl) refl
