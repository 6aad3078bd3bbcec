-- ===== src/Runtime/Settings/Values.antt =====
-- A resolved value is of its property's kind.
use doxajs.Base.{
  String, true, Option, none, some, List, [], ◌∷◌, ◌≡◌, inl, inr, refl, Among, str_eq, if-cases,
  Bool-cases, of_some,
}
use doxajs.Js.{Value, bool, number, string, is_undefined}
use doxajs.Runtime.Settings.{
  Kind, text_kind, number_kind, boolean_kind, literal_union, secret_kind, Default, text, numeric,
  flag, Property, Setting, absent, plain, secret, Outcome, resolved, refused, Platform,
  find_allowed, find_listed, matched, finite, resolve_kind, resolve_text, resolve_secret,
  resolve_number, resolve_boolean, resolve_configuration_value, value_of,
}

module _ {N : Type 0} (env : Platform N) where
  -- The value is one of those allowed.
  abbrev Allowed : Default N → Option (List (Default N)) → Type 0
  Allowed d none = ⊥
  Allowed d (some ds) = Among d ds

  abbrev FitsKind : Property N → Kind → Default N → Type 0
  FitsKind p text_kind (text s) = Unit
  FitsKind p number_kind (numeric n) = env.numbers.is_finite n ≡ true
  FitsKind p boolean_kind (flag b) = Unit
  FitsKind p literal_union d = Allowed d p.allowed_values
  FitsKind p k d = ⊥

  -- The value is of the kind; only an optional property has none, and a secret is never a plain
  -- text.
  abbrev pub FitsAs : Property N → Kind → Setting N → Type 0
  FitsAs p k absent = p.optional ≡ true
  FitsAs p k (plain d) = FitsKind p k d
  FitsAs p k (secret s) = k ≡ secret_kind

  abbrev pub Settled : Property N → Kind → Outcome N → Type 0
  Settled p k (resolved r) = FitsAs p k r
  Settled p k (refused e) = Unit

  find_allowed-Listed :
      (s : String) (ds : List (Default N)) (d : Default N)
      → find_allowed env.texts s ds ≡ some d
      → Among d ds
  unfolding find_allowed
  find_allowed-Listed s [] d h = absurd (cc)
  find_allowed-Listed s (e ∷ es) d h =
      elim (Bool-cases (str_eq (env.texts.to_string (value_of e)) s)) [
        | inl same ↦ inl (of_some (rw same at h))
        | inr other ↦ inr (find_allowed-Listed s es d (rw other at h))
      ]

  matched-Settled :
      (p : Property N) (o : Option (Default N))
      → ((d : Default N) → o ≡ some d → Allowed d p.allowed_values)
      → Settled p literal_union (matched o)
  matched-Settled p none f = tt
  matched-Settled p (some d) f = f d refl

  finite-Settled : (p : Property N) (n : N) → Settled p number_kind (finite env n)
  finite-Settled p n =
      if-cases (Settled p number_kind) (env.numbers.is_finite n) _ _ (λ h. h) (λ h. tt)

  find_listed-Allowed :
      (s : String) (o : Option (List (Default N))) (d : Default N)
      → find_listed env.texts s o ≡ some d
      → Allowed d o
  find_listed-Allowed s none d h = absurd (cc)
  find_listed-Allowed s (some ds) d h = find_allowed-Listed s ds d h

  resolve_text-Settled : (p : Property N) (v : Value N ⊥) → Settled p text_kind (resolve_text v)
  resolve_text-Settled p (string s) = tt
  resolve_text-Settled p _ = tt

  resolve_secret-Settled :
      (p : Property N) (v : Value N ⊥) → Settled p secret_kind (resolve_secret v)
  resolve_secret-Settled p (string s) = refl
  resolve_secret-Settled p _ = tt

  resolve_number-Settled :
      (p : Property N) (v : Value N ⊥) → Settled p number_kind (resolve_number env v)
  resolve_number-Settled p (number n) = finite-Settled p n
  resolve_number-Settled p (string s) =
      if-cases (Settled p number_kind) (env.is_blank s) _ _ (λ h. tt)
        (λ h. finite-Settled p (env.to_number s))
  resolve_number-Settled p _ = tt

  resolve_boolean-Settled :
      (p : Property N) (v : Value N ⊥) → Settled p boolean_kind (resolve_boolean v)
  resolve_boolean-Settled p (bool b) = tt
  resolve_boolean-Settled p (string s) =
      if-cases (Settled p boolean_kind) (str_eq s "true") _ _ (λ h. tt)
        (λ h. if-cases (Settled p boolean_kind) (str_eq s "false") _ _ (λ h'. tt) (λ h'. tt))
  resolve_boolean-Settled p _ = tt

  resolve_kind-Settled :
      (p : Property N) (k : Kind) (v : Value N ⊥) → Settled p k (resolve_kind env p k v)
  resolve_kind-Settled p literal_union v =
      matched-Settled p _ (λ d h. find_listed-Allowed (env.texts.to_string v) p.allowed_values d h)
  resolve_kind-Settled p text_kind v = resolve_text-Settled p v
  resolve_kind-Settled p secret_kind v = resolve_secret-Settled p v
  resolve_kind-Settled p number_kind v = resolve_number-Settled p v
  resolve_kind-Settled p boolean_kind v = resolve_boolean-Settled p v

  pub resolve-Settled :
      (p : Property N) (v : Value N ⊥) → Settled p p.kind (resolve_configuration_value env p v)
  unfolding resolve_configuration_value
  resolve-Settled p v =
      if-cases (Settled p p.kind) (is_undefined v) _ _
        (λ h. if-cases (Settled p p.kind) p.optional _ _ (λ o. o) (λ o. tt))
        (λ h. resolve_kind-Settled p p.kind v)
