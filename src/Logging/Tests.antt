-- ===== src/Logging/Tests.antt =====
-- A record with a password, a token and an object that holds itself.
use doxajs.Base.{ℕ, zero, suc, String, true, List, [], ◌∷◌, ◌≡◌, refl, str_eq, inl, inr}
use doxajs.Logging.{
  Datum, string, secret, reference, number, Body, array_of, object_of, unreadable, end, member,
  text, members, items, nil, cons, json_number, Rules, safe_sanitize_attributes,
}
use doxajs.Logging.Redaction.{CleanMembers, safe_sanitize_attributes-Clean}
use doxajs.Logging.Secrecy.{
  same, secrets, finished, entry, BodiesAlike, arrays, objects, closed, empty, item,
  safe_sanitize_attributes-Matching,
}

abbrev rules : Rules ℕ
rules = record {
  shown = λ n. "number";
  is_finite = λ n. true;
  described = λ name message. message;
  is_sensitive = λ k. str_eq k "password";
}

-- The object 0 holds itself, a list with a token, and a password.
abbrev heap : String → String → ℕ → Body ℕ
heap token password zero =
    object_of (("self", reference 0) ∷ ("list", reference 1) ∷ ("password", string password) ∷ [])
heap token password (suc zero) = array_of (secret token ∷ number 7 ∷ [])
heap token password (suc (suc n)) = unreadable

abbrev attributes : List (String × Datum ℕ)
attributes = ("user", reference 0) ∷ []

cycle_and_secrets :
    safe_sanitize_attributes rules (heap "t" "p") attributes
    ≡ member "user"
        (members (
          member "self" (text "[CIRCULAR]") (
            member "list"
              (items (cons (text "[REDACTED]") (cons (json_number 7) nil)))
              (member "password" (text "[REDACTED]") end))))
        end
unfolding safe_sanitize_attributes
cycle_and_secrets = refl

broken_attributes :
    safe_sanitize_attributes rules (heap "t" "p") (("gone", reference 2) ∷ [])
    ≡ member "loggingError" (text "attributes_unavailable") end
unfolding safe_sanitize_attributes
broken_attributes = refl

safe_sanitize_attributes-Clean_example :
    CleanMembers rules 8 (safe_sanitize_attributes rules (heap "t" "p") attributes)
safe_sanitize_attributes-Clean_example =
    safe_sanitize_attributes-Clean rules (heap "t" "p") attributes refl

heaps_alike : (n : ℕ) → BodiesAlike rules (heap "t" "p" n) (heap "u" "q" n)
heaps_alike zero =
    objects
      (entry "self" (inr same) (entry "list" (inr same) (entry "password" (inl refl) finished)))
heaps_alike (suc zero) = arrays (item secrets (item same empty))
heaps_alike (suc (suc n)) = closed

safe_sanitize_attributes-Matching_example :
    safe_sanitize_attributes rules (heap "t" "p") attributes
    ≡ safe_sanitize_attributes rules (heap "u" "q") attributes
safe_sanitize_attributes-Matching_example =
    safe_sanitize_attributes-Matching rules (heap "t" "p") (heap "u" "q") heaps_alike attributes
      attributes (entry "user" (inr same) finished)
