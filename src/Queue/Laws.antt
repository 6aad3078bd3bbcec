-- ===== src/Queue/Laws.antt =====
-- A delivery that passes the checks is seeded, and the seed keeps what the checks ensured.
use doxajs.Base.{
  ℕ, suc, Bool, true, false, not, Option, none, some, List, [], ◌∷◌, ◌≡◌, refl, inl, inr, ap, ◌≤◌,
  leb, str_eq, length, Bool-cases, arith,
}
use doxajs.Js.{
  Value, undefined, null, bool, number, string, array, object, instance_of, Items, nil, cons,
  Numbers, Texts, get, is_array, elements, count,
}
use doxajs.Queue.Checks.{
  ◌also◌, Invalid, refuse, and_then, Patterns, valid_iso_date, optional, is_parsed, valid_trace,
  valid_links,
}
use doxajs.Queue.Validation.{assert_hop, assert_hops, valid_authentication, valid_constraints}
use doxajs.Queue.Seed.{
  Hop, Authentication, Prior, kept, iterate, parse_kept, iterate_kept, seed_hop, seed_hops,
  seed_authentication, seed_trace, or_else,
}

pub refuse-none :
    (b : Bool) (m : Invalid) (rest : Option Invalid)
    → refuse b m rest ≡ none
    → (b ≡ false) × (rest ≡ none)
unfolding refuse
refuse-none true m rest h = absurd (cc)
refuse-none false m rest h = (refl, h)

pub and_then-none : (a rest : Option Invalid) → and_then a rest ≡ none → (a ≡ none) × (rest ≡ none)
unfolding and_then
and_then-none none rest h = (refl, h)
and_then-none (some m) rest h = absurd (cc)

pub not-false : (b : Bool) → not b ≡ false → b ≡ true
not-false true h = refl
not-false false h = absurd (cc)

pub also-true : (a b : Bool) → (a also b) ≡ true → (a ≡ true) × (b ≡ true)
unfolding ◌also◌
also-true true b h = (refl, h)
also-true false b h = absurd (cc)

pub leb-true : (a b : ℕ) → leb a b ≡ true → a ≤ b
leb-true a b h = ground arith

-- The element of a test that succeeded.
abbrev pub Given {ℓ} : {A : Type ℓ} → Option A → Type ℓ
Given {A} o = (a : A) × (o ≡ some a)

module _ {N I : Type 0} (ns : Numbers N) (ts : Texts N) (ps : Patterns I) where
  is_parsed-Given : (o : Option I) → is_parsed ns ts ps o ≡ true → Given o
  is_parsed-Given none h = absurd (cc)
  is_parsed-Given (some i) h = (i, refl)

  parse_kept-Given :
      (v : Value N ⊥)
      → optional ns ts ps (valid_iso_date ns ts ps) v ≡ true
      → Given (parse_kept ns ps v)
  parse_kept-Given undefined h = (none, refl)
  parse_kept-Given null h = absurd (cc)
  parse_kept-Given (bool b) h = absurd (cc)
  parse_kept-Given (number n) h = absurd (cc)
  parse_kept-Given (array xs) h = absurd (cc)
  parse_kept-Given (object fs) h = absurd (cc)
  parse_kept-Given (instance_of d) h = elim d [ ]
  parse_kept-Given (string s) h = elim (Bool-cases (str_eq s "")) [
    | inl e ↦ rw e (none, refl)
    | inr e ↦
        let (i, found) = is_parsed-Given (ps.parse_instant s) h in rw (e, found) (some i, refl)
  ]

  iterate_kept-Given :
      (v : Value N ⊥)
      → optional ns ts ps (valid_constraints ns ts ps) v ≡ true
      → Given (iterate_kept ns ps v)
  iterate_kept-Given undefined h = (none, refl)
  iterate_kept-Given (array xs) h = (some xs, refl)
  iterate_kept-Given null h = absurd (cc)
  iterate_kept-Given (bool b) h = absurd (cc)
  iterate_kept-Given (number n) h = absurd (cc)
  iterate_kept-Given (string s) h = absurd (cc)
  iterate_kept-Given (object fs) h = absurd (cc)
  iterate_kept-Given (instance_of d) h = elim d [ ]

  pub iterate-array : (v : Value N ⊥) → is_array v ≡ true → iterate ns ps v ≡ some (elements v)
  iterate-array (array xs) h = refl
  iterate-array undefined h = absurd (cc)
  iterate-array null h = absurd (cc)
  iterate-array (bool b) h = absurd (cc)
  iterate-array (number n) h = absurd (cc)
  iterate-array (string s) h = absurd (cc)
  iterate-array (object fs) h = absurd (cc)
  iterate-array (instance_of d) h = elim d [ ]

  -- A hop that passes is seeded.
  seed_hop-Given :
      (index : ℕ) (hop : Value N ⊥)
      → assert_hop ns ts ps index hop ≡ none
      → Given (seed_hop ns ps hop)
  unfolding assert_hop seed_hop
  seed_hop-Given index hop ok =
      let (_, a) = refuse-none _ _ _ ok in
      let (_, b) = refuse-none _ _ _ a in
      let (_, c) = and_then-none _ _ b in
      let (_, d) = and_then-none _ _ c in
      let (_, e) = refuse-none _ _ _ d in
      let (f, _) = refuse-none _ _ _ e in
      let (expires, found) = parse_kept-Given (get "expiresAt" hop) (not-false _ f) in
      rw found (_, refl)

  -- The hops that pass are seeded, one by one.
  pub seed_hops-Given :
      (index : ℕ) (hops : Items N ⊥)
      → assert_hops ns ts ps index hops ≡ none
      → (hs : List (Hop N I)) × (seed_hops ns ps hops ≡ some hs) × (length hs ≡ count hops)
  unfolding assert_hops seed_hops count
  seed_hops-Given index nil ok = ([], refl, refl)
  seed_hops-Given index (cons hop hops) ok =
      let (first, rest) = and_then-none _ _ ok in
      let (h, found) = seed_hop-Given index hop first in
      let (hs, others, counted) = seed_hops-Given (suc index) hops rest in
      rw (found, others) (h ∷ hs, refl, ap suc counted)

  pub seed_authentication-Given :
      (a : Value N ⊥)
      → valid_authentication ns ts ps a ≡ true
      → (r : Authentication N I) × (seed_authentication ns ps a ≡ some r)
        × (r.state ≡ get "state" a)
        × (r.identity_id ≡ kept ns ps (get "identityId" a))
  unfolding valid_authentication seed_authentication
  seed_authentication-Given a ok =
      let (_, b) = also-true _ _ ok in
      let (_, c) = also-true _ _ b in
      let (_, d) = also-true _ _ c in
      let (_, e) = also-true _ _ d in
      let (_, f) = also-true _ _ e in
      let (_, g) = also-true _ _ f in
      let (_, h) = also-true _ _ g in
      let (date, constraints) = also-true _ _ h in
      let (at, parsed) = parse_kept-Given (get "authenticatedAt" a) date in
      let (held, listed) = iterate_kept-Given (get "constraints" a) constraints in
      rw (parsed, listed) (_, refl, refl, refl)

  links-Given :
      (v : Value N ⊥)
      → optional ns ts ps (valid_links ns ts ps) v ≡ true
      → Given (iterate ns ps (or_else ns ps v (array nil)))
  links-Given undefined h = (nil, refl)
  links-Given (array xs) h = (xs, refl)
  links-Given null h = absurd (cc)
  links-Given (bool b) h = absurd (cc)
  links-Given (number n) h = absurd (cc)
  links-Given (string s) h = absurd (cc)
  links-Given (object fs) h = absurd (cc)
  links-Given (instance_of d) h = elim d [ ]

  valid_trace-links :
      (t : Value N ⊥)
      → valid_trace ns ts ps t ≡ true
      → optional ns ts ps (valid_links ns ts ps) (get "links" t) ≡ true
  unfolding valid_trace
  valid_trace-links t ok =
      let (_, b) = also-true _ _ ok in
      let (_, c) = also-true _ _ b in
      let (_, d) = also-true _ _ c in
      let (_, e) = also-true _ _ d in
      let (_, f) = also-true _ _ e in let (_, g) = also-true _ _ f in (also-true _ _ g).1

  pub seed_trace-Given :
      (t : Value N ⊥) (attempt : N) (prior : Option Prior)
      → valid_trace ns ts ps t ≡ true
      → Given (seed_trace ns ps t attempt prior)
  unfolding seed_trace
  seed_trace-Given t attempt none ok = (_, refl)
  seed_trace-Given t attempt (some p) ok = elim (Bool-cases (ns.at_most attempt (ns.natural 1))) [
    | inl first ↦ rw first (_, refl)
    | inr retry ↦
        let (links, found) = links-Given (get "links" t) (valid_trace-links t ok) in
        rw (retry, found) (_, refl)
  ]
