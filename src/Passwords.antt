-- ===== src/Passwords.antt =====
-- packages/auth-postgres/src/passwords.ts: password records, and the formats of other applications.
pub mod Limits
pub mod Laws
mod Tests
use doxajs.Base.{
  ℕ, String, Bool, true, false, not, ◌&&◌, ◌||◌, ◌*◌, Option, none, some, List, [], ◌∷◌, ltb,
  nat_eq, length, str_eq, text_append, if◌then◌else◌,
}
use doxajs.Js.{Value, number, string, object, field, end, get, truthy, Numbers}

pub data Preset : Type 0 where
  doxa_argon2id bcrypt argon2id_phc sha256_hex : Preset

pub record Verification : Type 0 where
  pub valid : Bool
  pub weak : Bool
  pub needs_upgrade : Bool

-- The groups of the pattern of a PHC text: three numbers and two sequences of bytes.
pub record Phc : Type 0 where
  pub memory : ℕ
  pub passes : ℕ
  pub parallelism : ℕ
  pub salt : List ℕ
  pub expected : List ℕ

-- What the language, node:crypto and bcryptjs give. `less` is `<`, `nullish` what no property can be
-- read of, `is_version` what `=== 1` is true of, `derive` argon2id, and `cost` the number in a bcrypt text, if it is an integer.
pub record Platform (N : Type 0) : Type 0 where
  pub numbers : Numbers N
  pub less : Value N ⊥ → Value N ⊥ → Bool
  pub eightfold : Value N ⊥ → Value N ⊥
  pub nullish : Value N ⊥ → Bool
  pub is_text : Value N ⊥ → String → Bool
  pub is_version : Value N ⊥ → Bool
  pub starts_with : String → String → Bool
  pub slice : ℕ → String → String
  pub text_of_base64url : String → String
  pub base64url_of_text : String → String
  pub base64url_of_bytes : List ℕ → String
  pub bytes_of_base64url : Value N ⊥ → Option (List ℕ)
  pub json_parse : String → Option (Value N ⊥)
  pub json_stringify : Value N ⊥ → String
  pub derive : String → List ℕ → Value N ⊥ → Option (List ℕ)
  pub timing_safe_equal : List ℕ → List ℕ → Bool
  pub has_bcrypt_form : String → Bool
  pub cost : String → Option ℕ
  pub compare_bcrypt : String → String → Bool
  pub phc_parts : String → Option Phc
  pub has_hex_form : String → Bool
  pub bytes_of_hex : String → List ℕ
  pub sha256 : String → List ℕ

abbrev pub is_preset : Preset → Preset → Bool
is_preset doxa_argon2id doxa_argon2id = true
is_preset bcrypt bcrypt = true
is_preset argon2id_phc argon2id_phc = true
is_preset sha256_hex sha256_hex = true
is_preset p q = false

-- `presets.has(preset)`
unfoldable pub has_preset : Preset → List Preset → Bool
has_preset p [] = false
has_preset p (q ∷ qs) = is_preset p q || has_preset p qs

abbrev pub rejected : Verification
rejected = record { valid = false; weak = false; needs_upgrade = false }

abbrev pub verified : Bool → Bool → Bool → Verification
verified valid weak upgrade = record { valid = valid; weak = weak; needs_upgrade = upgrade }

abbrev pub prefix : String
prefix = "doxa-argon2id:"

module _ {N : Type 0} (env : Platform N) where
  abbrev pub literal : ℕ → Value N ⊥
  literal n = number (env.numbers.natural n)

  abbrev pub password_version : Value N ⊥
  password_version = literal 1

  abbrev pub password_parameters : Value N ⊥
  password_parameters = object (
      field "algorithm" (string "argon2id") (
        field "memory" (literal 19456) (
          field "passes" (literal 2)
            (field "parallelism" (literal 2) (field "tagLength" (literal 32) end)))))

  abbrev pub record_of : List ℕ → List ℕ → Value N ⊥
  record_of salt hash = object (
      field "version" password_version (
        field "salt" (string (env.base64url_of_bytes salt)) (
          field "hash" (string (env.base64url_of_bytes hash))
            (field "parameters" password_parameters end))))

  abbrev pub recorded : List ℕ → Option (List ℕ) → Option (Value N ⊥)
  recorded salt none = none
  recorded salt (some hash) = some (record_of salt hash)

  -- `createPasswordRecord`, with the random salt.
  abbrev pub create_password_record : String → List ℕ → Option (Value N ⊥)
  create_password_record password salt =
      recorded salt (env.derive password salt password_parameters)

  unfoldable pub needs_rehash : Value N ⊥ → Bool
  needs_rehash record_value =
      not (env.is_version (get "version" record_value))
      || not (
          str_eq (env.json_stringify (get "parameters" record_value))
            (env.json_stringify password_parameters))

  -- `candidate.length === expected.length && timingSafeEqual(candidate, expected)`
  abbrev pub same_bytes : List ℕ → List ℕ → Bool
  same_bytes candidate expected =
      nat_eq (length candidate) (length expected) && env.timing_safe_equal candidate expected

  abbrev pub matches : Option (List ℕ) → List ℕ → Bool
  matches none expected = false
  matches (some candidate) expected = same_bytes candidate expected

  abbrev pub derived : String → Option (List ℕ) → Value N ⊥ → Option (List ℕ)
  derived password none parameters = none
  derived password (some salt) parameters = env.derive password salt parameters

  abbrev pub verify_hash : String → Value N ⊥ → Option (List ℕ) → Bool
  verify_hash password record_value none = false
  verify_hash password record_value (some expected) =
      matches
        (derived password (env.bytes_of_base64url (get "salt" record_value))
          (get "parameters" record_value))
        expected

  unfoldable pub verify_password : String → Value N ⊥ → Bool
  verify_password password record_value =
      verify_hash password record_value (env.bytes_of_base64url (get "hash" record_value))

  -- The limits on the parameters, which are not nullish.
  abbrev pub has_bad_parameters : Value N ⊥ → Bool
  has_bad_parameters p =
      not (env.is_text (get "algorithm" p) "argon2id")
      || (env.less (get "memory" p) (env.eightfold (get "parallelism" p))
          || (env.less (literal 262144) (get "memory" p)
              || (env.less (get "passes" p) (literal 1)
                  || (env.less (literal 10) (get "passes" p)
                      || (env.less (get "parallelism" p) (literal 1)
                          || (env.less (literal 8) (get "parallelism" p)
                              || (env.less (get "tagLength" p) (literal 16)
                                  || env.less (literal 64) (get "tagLength" p))))))))

  -- Whether the record is refused; of a nullish value a property cannot be read.
  unfoldable pub is_invalid_record : Value N ⊥ → Bool
  is_invalid_record v =
      env.nullish v
      || (env.less (get "version" v) (literal 1)
          || (env.nullish (get "parameters" v)
              || (has_bad_parameters (get "parameters" v)
                  || (not (truthy env.numbers (get "salt" v))
                      || not (truthy env.numbers (get "hash" v))))))

  abbrev pub checked : Option (Value N ⊥) → Option (Value N ⊥)
  checked none = none
  checked (some v) = if is_invalid_record v then none else some v

  unfoldable pub decode_password_record : String → Option (Value N ⊥)
  decode_password_record value =
      if not (env.starts_with value prefix)
      then none
      else checked (env.json_parse (env.text_of_base64url (env.slice 14 value)))

  abbrev pub encode_password_record : Value N ⊥ → String
  encode_password_record r = text_append prefix (env.base64url_of_text (env.json_stringify r))

  -- The limits on the parts of a PHC text.
  abbrev pub is_invalid_phc : Phc → Bool
  is_invalid_phc m =
      ltb m.memory (8 * m.parallelism)
      || (ltb 262144 m.memory
          || (ltb m.passes 1
              || (ltb 10 m.passes
                  || (ltb m.parallelism 1
                      || (ltb 8 m.parallelism
                          || (ltb (length m.salt) 8
                              || (ltb (length m.expected) 16 || ltb 64 (length m.expected))))))))

  abbrev pub phc_parameters : Phc → Value N ⊥
  phc_parameters m = object (
      field "algorithm" (string "argon2id") (
        field "memory" (literal m.memory) (
          field "passes" (literal m.passes) (
            field "parallelism" (literal m.parallelism)
              (field "tagLength" (literal (length m.expected)) end)))))

  abbrev pub verify_phc_parts : String → Option Phc → Bool
  verify_phc_parts password none = false
  verify_phc_parts password (some m) =
      if is_invalid_phc m
      then false
      else matches (env.derive password m.salt (phc_parameters m)) m.expected

  unfoldable pub verify_argon2_phc : String → String → Bool
  verify_argon2_phc password encoded = verify_phc_parts password (env.phc_parts encoded)

  abbrev pub verify_decoded : String → Option (Value N ⊥) → Verification
  verify_decoded password none = rejected
  verify_decoded password (some r) = verified (verify_password password r) false (needs_rehash r)

  abbrev pub verify_bcrypt : String → String → Option ℕ → Verification
  verify_bcrypt password encoded none = rejected
  verify_bcrypt password encoded (some cost) =
      if ltb cost 4 || ltb 16 cost
      then rejected
      else verified (env.compare_bcrypt password encoded) false true

  unfoldable pub verify_encoded_password : String → String → List Preset → Verification
  verify_encoded_password password encoded presets =
      if env.starts_with encoded prefix && has_preset doxa_argon2id presets
      then verify_decoded password (decode_password_record encoded)
      else if env.has_bcrypt_form encoded && has_preset bcrypt presets
      then verify_bcrypt password encoded (env.cost encoded)
      else if env.starts_with encoded "$argon2id$" && has_preset argon2id_phc presets
      then verified (verify_argon2_phc password encoded) false true
      else if env.has_hex_form encoded && has_preset sha256_hex presets
      then verified (same_bytes (env.sha256 password) (env.bytes_of_hex encoded)) true true
      else rejected
