-- ===== src/Keryx/Publish/Replay.antt =====
-- A request that was accepted is not accepted a second time.
use doxajs.Base.{
  ℕ, String, true, false, ◌/◌, ◌≤◌, ◌<◌, ◌≡◌, ap, ◌∙◌, ◌≢◌, ◌⊎◌, inl, inr, refl, sym, Option, none,
  some, List, [], ◌∷◌, str_eq, eq_iff, ltb, leb, Bool-cases, Option-cases, of_some, subst, arith,
}
use doxajs.Keryx.Publish.{
  Seconds, after_epoch, before_epoch, Credentials, Request, Entry, accepted, After, sent, knows,
  prune_nonces, distance, expiry, check_key, verify,
}

-- The nonce is kept until the given second.
abbrev pub Kept : String → ℕ → List Entry → Type 0
Kept n t [] = ⊥
Kept n t (e ∷ es) = ((e.nonce ≡ n) × (e.expires_at ≡ t)) ⊎ Kept n t es

knows_of_Kept : (n : String) (t : ℕ) (es : List Entry) → Kept n t es → knows n es ≡ true
unfolding knows
knows_of_Kept n t [] m = elim m [ ]
knows_of_Kept n t (e ∷ es) (inl (same, _)) = rw ((eq_iff e.nonce n).1 same) refl
knows_of_Kept n t (e ∷ es) (inr m) = elim (Bool-cases (str_eq e.nonce n)) [
  | inl same ↦ rw same refl
  | inr other ↦ rw other (knows_of_Kept n t es m)
]

-- Pruning keeps a nonce whose second has not passed.
Kept-prune :
    (n : String) (t now : ℕ) (es : List Entry)
    → now ≤ t
    → Kept n t es
    → Kept n t (prune_nonces now es)
unfolding prune_nonces
Kept-prune n t now [] le m = m
Kept-prune n t now (e ∷ es) le m = elim (Bool-cases (ltb e.expires_at now)) [
  | inl old ↦ rw old (elim m [
    | inl (_, at) ↦ absurd (cc (subst (λ k. ltb k now ≡ true) at old, not-later t now le))
    | inr later ↦ Kept-prune n t now es le later
  ])
  | inr fresh ↦
      rw fresh (elim m [ inl first ↦ inl first | inr later ↦ inr (Kept-prune n t now es le later) ])
]
  where
    not-later : (t now : ℕ) → now ≤ t → ltb t now ≡ false
    not-later t now le = ground arith

-- The second until which a timestamp in the window is kept has not passed, or the timestamp is out of it.
window-closed :
    (t : Seconds) (skew now : ℕ) → expiry t skew < now → ltb skew (distance now t) ≡ true
window-closed (after_epoch s) skew now h = ground arith
window-closed (before_epoch s) skew now h = ground arith

leb-true : (a b : ℕ) → leb a b ≡ true → a ≤ b
leb-true a b h = ground arith

leb-false : (a b : ℕ) → leb a b ≡ false → b < a
leb-false a b h = ground arith

module _ (read : String → Option Seconds)
    (sign : String → String → String → String → String → String → String)
    (credentials : Credentials) (skew : ℕ) where
  -- What an accepted request had, and what it leaves.
  record Admitted (now : ℕ) (ns : List Entry) (ts n : Option String) (after : After) : Type 0 where
    stamp : String
    nonce : String
    at : Seconds
    stamped : ts ≡ some stamp
    numbered : n ≡ some nonce
    timed : read stamp ≡ some at
    inside : ltb skew (distance now at) ≡ false
    unknown : knows nonce (prune_nonces now ns) ≡ false
    kept : Kept nonce (expiry at skew) after.nonces

  check_key-Admitted :
      (ns : List Entry) (now : ℕ) (r : Request) (k ts n p : Option String) (body : String)
      → (check_key read sign credentials skew ns now r k ts n p body).verdict ≡ accepted
      → Admitted now ns ts n (check_key read sign credentials skew ns now r k ts n p body)
  check_key-Admitted ns now r none ts n p body h = absurd (cc)
  check_key-Admitted ns now r (some k) none n p body h = absurd (cc)
  check_key-Admitted ns now r (some k) (some ts) none p body h = absurd (cc)
  check_key-Admitted ns now r (some k) (some ts) (some n) none body h = absurd (cc)
  check_key-Admitted ns now r (some k) (some ts) (some n) (some p) body h =
      elim (Bool-cases (str_eq k credentials.key)) [
        | inr other ↦ absurd (cc (rw other at h))
        | inl key ↦ elim (Option-cases (read ts)) [
          | inl unread ↦ absurd (cc (rw (key, unread) at h))
          | inr (s, seconds) ↦ elim (Bool-cases (ltb skew (distance now s))) [
            | inl late ↦ absurd (cc (rw (key, seconds, late) at h))
            | inr near ↦ elim (Bool-cases (knows n (prune_nonces now ns))) [
              | inl replayed ↦ absurd (cc (rw (key, seconds, near, replayed) at h))
              | inr new ↦
                  elim (Bool-cases (str_eq p (sign credentials.secret r.method r.path ts n body))) [
                    | inr forged ↦ absurd (cc (rw (key, seconds, near, new, forged) at h))
                    | inl signed ↦ record {
                      stamp = ts;
                      nonce = n;
                      at = s;
                      stamped = refl;
                      numbered = refl;
                      timed = seconds;
                      inside = near;
                      unknown = new;
                      kept = rw (key, seconds, near, new, signed) (inl (refl, refl));
                    }
                  ]
            ]
          ]
        ]
      ]

  -- Every outcome keeps the nonces whose second has not passed.
  check_key-Kept :
      (n : String) (t : ℕ) (ns : List Entry) (now : ℕ) (r : Request) (k ts m p : Option String)
      (body : String)
      → now ≤ t
      → Kept n t ns
      → Kept n t (check_key read sign credentials skew ns now r k ts m p body).nonces
  check_key-Kept n t ns now r none ts m p body le kept = kept
  check_key-Kept n t ns now r (some k) none m p body le kept = kept
  check_key-Kept n t ns now r (some k) (some ts) none p body le kept = kept
  check_key-Kept n t ns now r (some k) (some ts) (some m) none body le kept = kept
  check_key-Kept n t ns now r (some k) (some ts) (some m) (some p) body le kept =
      elim (Bool-cases (str_eq k credentials.key)) [
        | inr other ↦ rw other kept
        | inl key ↦ elim (Option-cases (read ts)) [
          | inl unread ↦ rw (key, unread) kept
          | inr (s, seconds) ↦ elim (Bool-cases (ltb skew (distance now s))) [
            | inl late ↦ rw (key, seconds, late) kept
            | inr near ↦ elim (Bool-cases (knows m (prune_nonces now ns))) [
              | inl replayed ↦ rw (key, seconds, near, replayed) (Kept-prune n t now ns le kept)
              | inr new ↦
                  elim (Bool-cases (str_eq p (sign credentials.secret r.method r.path ts m body))) [
                    | inr forged ↦
                        rw (key, seconds, near, new, forged) (Kept-prune n t now ns le kept)
                    | inl signed ↦
                        rw (key, seconds, near, new, signed) (inr (Kept-prune n t now ns le kept))
                  ]
            ]
          ]
        ]
      ]

  -- Requests that come in between, each with its reading of the clock and its body.
  pub record Event : Type 0 where
    pub clock : ℕ
    pub request : Request
    pub body : String

  unfoldable pub run : List Entry → List Event → List Entry
  run ns [] = ns
  run ns (e ∷ es) = run (verify read sign credentials skew ns e.clock e.request e.body).nonces es

  abbrev pub Until : ℕ → List Event → Type 0
  Until c [] = Unit
  Until c (e ∷ es) = (e.clock ≤ c) × Until c es

  run-Kept :
      (n : String) (t c : ℕ) (es : List Event) (ns : List Entry)
      → c / 1000 ≤ t
      → Until c es
      → Kept n t ns
      → Kept n t (run ns es)
  unfolding run verify
  run-Kept n t c [] ns le until kept = kept
  run-Kept n t c (e ∷ es) ns le (before, until) kept = run-Kept n t c es _ le until (
      check_key-Kept n t ns (e.clock / 1000) e.request (sent e.request.key)
        (sent e.request.timestamp) (sent e.request.nonce) (sent e.request.provided) e.body
        (omega (arith, before, le)) kept)

  -- A request that is let in at a second that a kept nonce outlasts, or not, is not the same again.
  again :
      (t1 n1 : String) (s1 : Seconds) (now : ℕ) (ns : List Entry) (ts n : Option String)
      (after : After)
      → ts ≡ some t1
      → n ≡ some n1
      → read t1 ≡ some s1
      → (now ≤ expiry s1 skew → Kept n1 (expiry s1 skew) ns)
      → Admitted now ns ts n after
      → ⊥
  again t1 n1 s1 now ns ts n after time number seconds kept b =
      let same_nonce : b.nonce ≡ n1 = of_some (sym b.numbered ∙ number) in
      let same_stamp : b.stamp ≡ t1 = of_some (sym b.stamped ∙ time) in
      let same_time : b.at ≡ s1 = of_some (sym b.timed ∙ (ap read same_stamp ∙ seconds)) in
      elim (Bool-cases (leb now (expiry s1 skew))) [
        | inl held ↦
            let le : now ≤ expiry s1 skew = leb-true now (expiry s1 skew) held in
            cc (
              subst (λ m. knows m (prune_nonces now ns) ≡ false) same_nonce b.unknown,
              knows_of_Kept n1 (expiry s1 skew) (prune_nonces now ns)
                  (Kept-prune n1 (expiry s1 skew) now ns le (kept le)),
            )
        | inr gone ↦ cc (
          subst (λ s. ltb skew (distance now s) ≡ false) same_time b.inside,
          window-closed s1 skew now (leb-false now (expiry s1 skew) gone),
        )
      ]

  -- After a request was accepted, and whatever other requests came since, no request with the same
  -- nonce and timestamp headers is accepted, if no clock reading in between was later than the one
  -- at which it is checked.
  pub verify-once :
      (ns : List Entry) (clock1 clock2 : ℕ) (r1 r2 : Request) (body1 body2 : String)
      (events : List Event)
      → (verify read sign credentials skew ns clock1 r1 body1).verdict ≡ accepted
      → Until clock2 events
      → r2.timestamp ≡ r1.timestamp
      → r2.nonce ≡ r1.nonce
      → (verify read sign credentials skew
          (run (verify read sign credentials skew ns clock1 r1 body1).nonces events)
          clock2
          r2
          body2).verdict
        ≢ accepted
  unfolding verify
  verify-once ns clock1 clock2 r1 r2 body1 body2 events first until same_time same_nonce second =
      let a : Admitted (clock1 / 1000) ns (sent r1.timestamp) (sent r1.nonce)
          (verify read sign credentials skew ns clock1 r1 body1) =
        check_key-Admitted ns (clock1 / 1000) r1 (sent r1.key) (sent r1.timestamp) (sent r1.nonce)
          (sent r1.provided) body1 first in
      let later : List Entry =
        run (verify read sign credentials skew ns clock1 r1 body1).nonces events in
      again a.stamp a.nonce a.at (clock2 / 1000) later (sent r2.timestamp) (sent r2.nonce) _
        (ap sent same_time ∙ a.stamped) (ap sent same_nonce ∙ a.numbered) a.timed
        (λ le. run-Kept a.nonce (expiry a.at skew) clock2 events _ le until a.kept)
        (check_key-Admitted later (clock2 / 1000) r2 (sent r2.key) (sent r2.timestamp)
          (sent r2.nonce) (sent r2.provided) body2 second)
