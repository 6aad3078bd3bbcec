-- ===== src/Passwords/Laws.antt =====
-- What is created is verified, what is encoded is decoded, and what is verified was allowed to be.
use doxajs.Base.{
  ℕ, String, Bool, true, false, ◌≤◌, ◌≡◌, refl, ap, ◌∙◌, some, List, nat_eq_refl, length, eq_refl,
  text_append,
}
use doxajs.Js.{Value, string, property}
use doxajs.Passwords.{
  Preset, doxa_argon2id, bcrypt, argon2id_phc, sha256_hex, Verification, Phc, Platform, has_preset,
  verified, literal, password_parameters, record_of, create_password_record, recorded, needs_rehash,
  matches, verify_hash, derived, verify_password, is_invalid_record, prefix, decode_password_record,
  encode_password_record, phc_parameters,
}
use doxajs.Passwords.Limits.{RecordLimits, Derives, PhcLimits}

module _ {N : Type 0} (env : Platform N) where
  -- If the salt and the derived hash come back from base64url, the record that is created for a
  -- password verifies it, and needs no rehash.
  pub create_password_record-verify :
      (password : String) (salt hash : List ℕ)
      → env.derive password salt (password_parameters env) ≡ some hash
      → env.bytes_of_base64url (string (env.base64url_of_bytes salt)) ≡ some salt
      → env.bytes_of_base64url (string (env.base64url_of_bytes hash)) ≡ some hash
      → env.timing_safe_equal hash hash ≡ true
      → env.is_version (literal env 1) ≡ true
      → (create_password_record env password salt ≡ some (record_of env salt hash))
        × (verify_password env password (record_of env salt hash) ≡ true)
        × (needs_rehash env (record_of env salt hash) ≡ false)
  unfolding verify_password needs_rehash property
  create_password_record-verify password salt hash e salt_back hash_back safe one = (
    ap (recorded env salt) e,
    ap (verify_hash env password (record_of env salt hash)) hash_back
        ∙ ap (λ o. matches env (derived env password o (password_parameters env)) hash) salt_back
        ∙ ap (λ o. matches env o hash) e
        ∙ rw (nat_eq_refl (length hash), safe) refl,
    rw (one, eq_refl (env.json_stringify (password_parameters env))) refl,
  )

  -- If texts come back from base64url, the record from JSON and the rest from behind the prefix, a
  -- record within the limits is decoded from what it is encoded to.
  pub decode_password_record-encode :
      (r : Value N ⊥)
      → is_invalid_record env r ≡ false
      → ((text : String) → env.starts_with (text_append prefix text) prefix ≡ true)
      → ((text : String) → env.slice 14 (text_append prefix text) ≡ text)
      → ((text : String) → env.text_of_base64url (env.base64url_of_text text) ≡ text)
      → env.json_parse (env.json_stringify r) ≡ some r
      → decode_password_record env (encode_password_record env r) ≡ some r
  unfolding decode_password_record
  decode_password_record-encode r fine starts sliced back parsed =
      rw
        (
          starts (env.base64url_of_text (env.json_stringify r)),
          sliced (env.base64url_of_text (env.json_stringify r)),
          back (env.json_stringify r),
          parsed,
          fine,
        )
        refl

  -- Why a password is accepted: by a record within the limits, by bcrypt at a cost from 4 to 16, by a
  -- derivation within the limits, or by a hash, which is weak.
  pub data Grounds (password encoded : String) (presets : List Preset) : Verification → Type 0 where
    by_record :
        (r : Value N ⊥) (upgrade : Bool)
        → has_preset doxa_argon2id presets ≡ true
        → env.starts_with encoded prefix ≡ true
        → env.json_parse (env.text_of_base64url (env.slice 14 encoded)) ≡ some r
        → RecordLimits env r
        → Derives env password r
        → Grounds password encoded presets (verified true false upgrade)
    by_bcrypt :
        (cost : ℕ)
        → has_preset bcrypt presets ≡ true
        → env.has_bcrypt_form encoded ≡ true
        → env.cost encoded ≡ some cost
        → 4 ≤ cost
        → cost ≤ 16
        → env.compare_bcrypt password encoded ≡ true
        → Grounds password encoded presets (verified true false true)
    by_phc :
        (m : Phc) (derived_hash : List ℕ)
        → has_preset argon2id_phc presets ≡ true
        → env.starts_with encoded "$argon2id$" ≡ true
        → env.phc_parts encoded ≡ some m
        → PhcLimits env m
        → env.derive password m.salt (phc_parameters env m) ≡ some derived_hash
        → length derived_hash ≡ length m.expected
        → env.timing_safe_equal derived_hash m.expected ≡ true
        → Grounds password encoded presets (verified true false true)
    by_hash :
        has_preset sha256_hex presets ≡ true
        → env.has_hex_form encoded ≡ true
        → length (env.sha256 password) ≡ length (env.bytes_of_hex encoded)
        → env.timing_safe_equal (env.sha256 password) (env.bytes_of_hex encoded) ≡ true
        → Grounds password encoded presets (verified true true true)

  module _ (password encoded : String) (presets : List Preset) where
    abbrev Grounded : Verification → Type 0
    Grounded v = v.valid ≡ true → Grounds password encoded presets v
