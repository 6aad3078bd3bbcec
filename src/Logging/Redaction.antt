-- ===== src/Logging/Redaction.antt =====
-- What stands under a sensitive key is redacted, and the record is not deep.
use doxajs.Base.{
  ℕ, zero, suc, String, Bool, true, false, Option, none, some, List, [], ◌∷◌, ◌≡◌, refl, subst,
  bind-eq-some, of_some, if-cases,
}
use doxajs.Logging.{
  Datum, undefined, null, bool, number, string, opaque, secret, date, error, reference, Body,
  array_of, object_of, unreadable, Json, text, items, members, Items, nil, cons, Members, end,
  member, Rules, seen_before, sanitize_number, sanitize_items, redact, sanitize_members,
  sanitize_deep, sanitize_body, sanitize_value, sanitize_attributes, or_unavailable,
  safe_sanitize_attributes,
}

-- There is a level left, and what is asked for holds with one less.
abbrev Below : ℕ → (ℕ → Type 0) → Type 0
Below zero P = ⊥
Below (suc room) P = P room

module _ {N : Type 0} (rules : Rules N) where
  -- The value has at most so many levels of arrays and objects, and under a sensitive key there is
  -- the text of a redaction only.
  mutual
    Clean : ℕ → Json N → Type 0
    Clean room (items js) = Below room (λ r. CleanItems r js)
    Clean room (members js) = Below room (λ r. CleanMembers r js)
    Clean room j = Unit

    CleanItems : ℕ → Items N → Type 0
    CleanItems room nil = Unit
    CleanItems room (cons j js) = Clean room j × CleanItems room js

    pub CleanMembers : ℕ → Members N → Type 0
    CleanMembers room end = Unit
    CleanMembers room (member key j js) =
        (rules.is_sensitive key ≡ true → j ≡ text "[REDACTED]")
        × Clean room j
        × CleanMembers room js

  module _ (room : ℕ) (call : Datum N → Option (Json N))
      (clean : (v : Datum N) (j : Json N) → call v ≡ some j → Clean room j) where
    sanitize_items-Clean :
        (vs : List (Datum N)) (js : Items N)
        → sanitize_items rules call vs ≡ some js
        → CleanItems room js
    unfolding sanitize_items Clean
    sanitize_items-Clean [] js h = subst (CleanItems room) (of_some h) tt
    sanitize_items-Clean (v ∷ vs) js h =
        let (j, e, h') = bind-eq-some (call v) _ h in
        let (ks, e', h'') = bind-eq-some (sanitize_items rules call vs) _ h' in
        subst (CleanItems room) (of_some h'') (clean v j e, sanitize_items-Clean vs ks e')

    abbrev Redacted : String → Json N → Type 0
    Redacted key j = (rules.is_sensitive key ≡ true → j ≡ text "[REDACTED]") × Clean room j

    redact-Redacted :
        (key : String) (v : Datum N) (j : Json N)
        → redact rules call key v ≡ some j
        → Redacted key j
    unfolding Clean
    redact-Redacted key v j =
        if-cases (λ o. o ≡ some j → Redacted key j) (rules.is_sensitive key) _ _
          (λ y h. subst (Redacted key) (of_some h) (λ e. refl, tt))
          (λ n h. (λ e. absurd (cc), clean v j h))

    sanitize_members-Clean :
        (vs : List (String × Datum N)) (js : Members N)
        → sanitize_members rules call vs ≡ some js
        → CleanMembers room js
    unfolding sanitize_members Clean
    sanitize_members-Clean [] js h = subst (CleanMembers room) (of_some h) tt
    sanitize_members-Clean ((key, v) ∷ vs) js h =
        let (j, e, h') = bind-eq-some (redact rules call key v) _ h in
        let (ks, e', h'') = bind-eq-some (sanitize_members rules call vs) _ h' in
        let (r, c) = redact-Redacted key v j e in
        subst (CleanMembers room) (of_some h'') (r, c, sanitize_members-Clean vs ks e')

    sanitize_body-Clean :
        (seen : Bool) (b : Body N) (j : Json N)
        → sanitize_body rules call seen b ≡ some j
        → Clean (suc room) j
    unfolding Clean
    sanitize_body-Clean seen unreadable j h = absurd (cc)
    sanitize_body-Clean true (array_of vs) j h = subst (Clean (suc room)) (of_some h) tt
    sanitize_body-Clean true (object_of vs) j h = subst (Clean (suc room)) (of_some h) tt
    sanitize_body-Clean false (array_of vs) j h =
        let (js, e, h') = bind-eq-some (sanitize_items rules call vs) _ h in
        subst (Clean (suc room)) (of_some h') (sanitize_items-Clean vs js e)
    sanitize_body-Clean false (object_of vs) j h =
        let (js, e, h') = bind-eq-some (sanitize_members rules call vs) _ h in
        subst (Clean (suc room)) (of_some h') (sanitize_members-Clean vs js e)

  sanitize_deep-Clean : (b : Body N) (j : Json N) → sanitize_deep rules b ≡ some j → Clean zero j
  unfolding Clean
  sanitize_deep-Clean (array_of vs) j h = subst (Clean zero) (of_some h) tt
  sanitize_deep-Clean (object_of vs) j h = subst (Clean zero) (of_some h) tt
  sanitize_deep-Clean unreadable j h = absurd (cc)

  number-Clean : (room : ℕ) (n : N) → Clean room (sanitize_number rules n)
  unfolding Clean
  number-Clean room n = if-cases (Clean room) (rules.is_finite n) _ _ (λ h. tt) (λ h. tt)

  sanitize_value-Clean :
      (heap : ℕ → Body N) (room : ℕ) (seen : List ℕ) (v : Datum N) (j : Json N)
      → sanitize_value rules heap room seen v ≡ some j
      → Clean room j
  unfolding sanitize_value Clean
  sanitize_value-Clean heap room seen undefined j h = subst (Clean room) (of_some h) tt
  sanitize_value-Clean heap room seen null j h = subst (Clean room) (of_some h) tt
  sanitize_value-Clean heap room seen (bool b) j h = subst (Clean room) (of_some h) tt
  sanitize_value-Clean heap room seen (number n) j h =
      subst (Clean room) (of_some h) (number-Clean room n)
  sanitize_value-Clean heap room seen (string s) j h = subst (Clean room) (of_some h) tt
  sanitize_value-Clean heap room seen (opaque s) j h = subst (Clean room) (of_some h) tt
  sanitize_value-Clean heap room seen (secret s) j h = subst (Clean room) (of_some h) tt
  sanitize_value-Clean heap room seen (date none) j h = absurd (cc)
  sanitize_value-Clean heap room seen (date (some s)) j h = subst (Clean room) (of_some h) tt
  sanitize_value-Clean heap room seen (error name message) j h = subst (Clean room) (of_some h) tt
  sanitize_value-Clean heap zero seen (reference n) j h = sanitize_deep-Clean (heap n) j h
  sanitize_value-Clean heap (suc room) seen (reference n) j h =
      sanitize_body-Clean room _ (λ v k e. sanitize_value-Clean heap room (n ∷ seen) v k e)
        (seen_before n seen) (heap n) j h

  or_unavailable-Clean :
      (o : Option (Members N))
      → rules.is_sensitive "loggingError" ≡ false
      → ((js : Members N) → o ≡ some js → CleanMembers 8 js)
      → CleanMembers 8 (or_unavailable rules o)
  unfolding Clean
  or_unavailable-Clean none plain f = (λ e. absurd (cc), tt, tt)
  or_unavailable-Clean (some js) plain f = f js refl

  -- If `loggingError` is not a sensitive key, whatever the attributes are, cycles included, the
  -- attributes of a record are at most eight levels of arrays and objects deep, and in each object,
  -- and at the top, a sensitive key has the text of a redaction.
  pub safe_sanitize_attributes-Clean :
      (heap : ℕ → Body N) (vs : List (String × Datum N))
      → rules.is_sensitive "loggingError" ≡ false
      → CleanMembers 8 (safe_sanitize_attributes rules heap vs)
  unfolding safe_sanitize_attributes sanitize_attributes
  safe_sanitize_attributes-Clean heap vs plain =
      or_unavailable-Clean _ plain
        (λ js h. sanitize_members-Clean 8 _ (λ v j e. sanitize_value-Clean heap 8 [] v j e) vs js h)
