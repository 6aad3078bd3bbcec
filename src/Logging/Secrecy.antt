-- ===== src/Logging/Secrecy.antt =====
-- The attributes of a record tell nothing of secrets.
use doxajs.Base.{
  ℕ, zero, suc, String, Bool, true, false, Option, List, [], ◌∷◌, ◌≡◌, refl, ap, ◌⊎◌, inl, inr,
}
use doxajs.Logging.{
  Datum, undefined, null, bool, number, string, opaque, secret, date, error, reference, Body,
  array_of, object_of, unreadable, Json, Rules, seen_before, sanitize_items, redact,
  sanitize_members, sanitize_deep, sanitize_body, sanitize_value, sanitize_attributes,
  or_unavailable, safe_sanitize_attributes,
}

-- The same value, or two secrets.
pub data Alike {N : Type 0} : Datum N → Datum N → Type 0 where
  same : {v : Datum N} → Alike v v
  secrets : {s t : String} → Alike (secret s) (secret t)

pub data AllAlike {N : Type 0} : List (Datum N) → List (Datum N) → Type 0 where
  empty : AllAlike [] []
  item :
      {v w : Datum N} {vs ws : List (Datum N)}
      → Alike v w
      → AllAlike vs ws
      → AllAlike (v ∷ vs) (w ∷ ws)

module _ {N : Type 0} (rules : Rules N) where
  -- The same keys; under a key that is not sensitive, values that are alike.
  pub data Matching : List (String × Datum N) → List (String × Datum N) → Type 0 where
    finished : Matching [] []
    entry :
        {v w : Datum N} {vs ws : List (String × Datum N)}
        → (key : String) → (rules.is_sensitive key ≡ true) ⊎ Alike v w
        → Matching vs ws
        → Matching ((key, v) ∷ vs) ((key, w) ∷ ws)

  pub data BodiesAlike : Body N → Body N → Type 0 where
    arrays : {vs ws : List (Datum N)} → AllAlike vs ws → BodiesAlike (array_of vs) (array_of ws)
    objects :
        {vs ws : List (String × Datum N)}
        → Matching vs ws
        → BodiesAlike (object_of vs) (object_of ws)
    closed : BodiesAlike unreadable unreadable

  module _ (call answer : Datum N → Option (Json N))
      (agree : (v w : Datum N) → Alike v w → call v ≡ answer w) where
    sanitize_items-Alike :
        (vs ws : List (Datum N))
        → AllAlike vs ws
        → sanitize_items rules call vs ≡ sanitize_items rules answer ws
    unfolding sanitize_items
    sanitize_items-Alike vs ws empty = refl
    sanitize_items-Alike vs ws (item {v} {w} {vs = vs'} {ws = ws'} a rest) =
        rw (agree v w a, sanitize_items-Alike vs' ws' rest) refl

    redact-Matching :
        (key : String) (v w : Datum N)
        → (rules.is_sensitive key ≡ true) ⊎ Alike v w
        → redact rules call key v ≡ redact rules answer key w
    redact-Matching key v w (inl y) = rw y refl
    redact-Matching key v w (inr a) = rw (agree v w a) refl

    sanitize_members-Matching :
        (vs ws : List (String × Datum N))
        → Matching vs ws
        → sanitize_members rules call vs ≡ sanitize_members rules answer ws
    unfolding sanitize_members
    sanitize_members-Matching vs ws finished = refl
    sanitize_members-Matching vs ws (entry {v} {w} {vs = vs'} {ws = ws'} key a rest) =
        rw (redact-Matching key v w a, sanitize_members-Matching vs' ws' rest) refl

    sanitize_body-Alike :
        (seen : Bool) (b c : Body N)
        → BodiesAlike b c
        → sanitize_body rules call seen b ≡ sanitize_body rules answer seen c
    sanitize_body-Alike true b c (arrays a) = refl
    sanitize_body-Alike true b c (objects m) = refl
    sanitize_body-Alike seen b c closed = refl
    sanitize_body-Alike false b c (arrays {vs} {ws} a) = rw (sanitize_items-Alike vs ws a) refl
    sanitize_body-Alike false b c (objects {vs} {ws} m) =
        rw (sanitize_members-Matching vs ws m) refl

  agreeing :
      (call answer : Datum N → Option (Json N))
      → ((v : Datum N) → call v ≡ answer v)
      → ((s t : String) → call (secret s) ≡ answer (secret t))
      → (v w : Datum N) → Alike v w
      → call v ≡ answer w
  agreeing call answer f g v w same = f v
  agreeing call answer f g v w (secrets {s} {t}) = g s t

  sanitize_deep-Alike :
      (b c : Body N) → BodiesAlike b c → sanitize_deep rules b ≡ sanitize_deep rules c
  sanitize_deep-Alike b c (arrays a) = refl
  sanitize_deep-Alike b c (objects m) = refl
  sanitize_deep-Alike b c closed = refl

  module _ (heap other : ℕ → Body N) (alike : (n : ℕ) → BodiesAlike (heap n) (other n)) where
    same_value :
        (room : ℕ) (seen : List ℕ) (v : Datum N)
        → sanitize_value rules heap room seen v ≡ sanitize_value rules other room seen v
    unfolding sanitize_value
    same_value room seen undefined = refl
    same_value room seen null = refl
    same_value room seen (bool b) = refl
    same_value room seen (number n) = refl
    same_value room seen (string s) = refl
    same_value room seen (opaque s) = refl
    same_value room seen (secret s) = refl
    same_value room seen (date d) = refl
    same_value room seen (error name message) = refl
    same_value zero seen (reference n) = sanitize_deep-Alike (heap n) (other n) (alike n)
    same_value (suc room) seen (reference n) =
        sanitize_body-Alike _ _ (agreeing _ _ (λ v. same_value room (n ∷ seen) v) (λ s t. refl))
          (seen_before n seen) (heap n) (other n) (alike n)

    sanitize_value-Alike :
        (room : ℕ) (seen : List ℕ) (v w : Datum N)
        → Alike v w
        → sanitize_value rules heap room seen v ≡ sanitize_value rules other room seen w
    unfolding sanitize_value
    sanitize_value-Alike room seen =
        agreeing (λ v. sanitize_value rules heap room seen v)
          (λ v. sanitize_value rules other room seen v) (λ v. same_value room seen v) (λ s t. refl)

    -- Two groups of attributes, with their heaps, that differ only in the texts of secrets and in what
    -- stands under sensitive keys, give the same record.
    pub safe_sanitize_attributes-Matching :
        (vs ws : List (String × Datum N))
        → Matching vs ws
        → safe_sanitize_attributes rules heap vs ≡ safe_sanitize_attributes rules other ws
    unfolding safe_sanitize_attributes sanitize_attributes
    safe_sanitize_attributes-Matching vs ws m =
        ap (or_unavailable rules)
          (sanitize_members-Matching _ _ (sanitize_value-Alike 8 []) vs ws m)
