-- ===== src/Keryx/Publish/Headers.antt =====
-- The headers that a publisher sends are accepted.
use doxajs.Base.{
  ℕ, String, false, ◌/◌, ◌≡◌, refl, Option, some, List, [], ◌∷◌, str_eq, eq_refl, ltb, Bool-cases,
  inl, inr,
}
use doxajs.Keryx.Publish.{
  Seconds, after_epoch, Credentials, Entry, accepted, knows, prune_nonces, distance, verify,
  headers,
}

knows-prune_nonces :
    (n : String) (now : ℕ) (es : List Entry)
    → knows n es ≡ false
    → knows n (prune_nonces now es) ≡ false
unfolding knows prune_nonces
knows-prune_nonces n now [] h = refl
knows-prune_nonces n now (e ∷ es) h = elim (Bool-cases (str_eq e.nonce n)) [
  | inl same ↦ absurd (cc (rw same at h))
  | inr other ↦ elim (Bool-cases (ltb e.expires_at now)) [
    | inl old ↦ rw old (knows-prune_nonces n now es (rw other at h))
    | inr fresh ↦ rw (fresh, other) (knows-prune_nonces n now es (rw other at h))
  ]
]

module _ (read : String → Option Seconds)
    (sign : String → String → String → String → String → String → String)
    (credentials : Credentials) (skew : ℕ) where
  -- A request with the headers of the same credentials is accepted if its nonce is not known and the
  -- two clocks are at most the skew apart, when no header is empty and the printed second is read
  -- back.
  pub verify-headers :
      (ns : List Entry) (clock1 clock2 : ℕ) (print : ℕ → String) (nonce m p body : String)
      → str_eq credentials.key "" ≡ false
      → str_eq (print (clock1 / 1000)) "" ≡ false
      → str_eq nonce "" ≡ false
      → str_eq (sign credentials.secret m p (print (clock1 / 1000)) nonce body) "" ≡ false
      → read (print (clock1 / 1000)) ≡ some (after_epoch (clock1 / 1000))
      → ltb skew (distance (clock2 / 1000) (after_epoch (clock1 / 1000))) ≡ false
      → knows nonce ns ≡ false
      → (verify read sign credentials skew ns clock2
          (headers read sign credentials skew clock1 print nonce m p body)
          body).verdict
        ≡ accepted
  unfolding verify headers
  verify-headers ns clock1 clock2 print nonce m p body key time number signed seconds near new =
      rw
        (
          key,
          time,
          number,
          signed,
          eq_refl credentials.key,
          seconds,
          near,
          knows-prune_nonces nonce (clock2 / 1000) ns new,
          eq_refl (sign credentials.secret m p (print (clock1 / 1000)) nonce body),
        )
        refl
