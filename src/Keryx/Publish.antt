-- ===== src/Keryx/Publish.antt =====
-- `KeryxPublishAuthenticator` of packages/keryx/src/security.ts.
pub mod Replay
pub mod Headers
mod Tests
use doxajs.Base.{
  ℕ, String, Bool, true, false, not, ◌||◌, ◌+◌, ◌-◌, ◌/◌, Option, none, some, List, [], ◌∷◌, str_eq,
  ltb, leb, if◌then◌else◌,
}

-- `Number(timestamp)` where it is a safe integer.
pub data Seconds : Type 0 where
  after_epoch before_epoch : ℕ → Seconds

pub record Credentials : Type 0 where
  pub key : String
  pub secret : String

pub record Request : Type 0 where
  pub method : String
  pub path : String
  pub key : Option String
  pub timestamp : Option String
  pub nonce : Option String
  pub provided : Option String

-- A nonce with the second until which it is kept.
pub record Entry : Type 0 where
  pub nonce : String
  pub expires_at : ℕ

-- `KeryxAuthenticationError` with its code and status.
pub data Verdict : Type 0 where
  accepted : Verdict
  rejected : String → ℕ → Verdict

pub record After : Type 0 where
  pub nonces : List Entry
  pub verdict : Verdict

abbrev pub named : String → ℕ → Entry
named n e = record { nonce = n; expires_at = e }

-- The value of a header that is there and not empty.
abbrev pub sent : Option String → Option String
sent none = none
sent (some s) = if str_eq s "" then none else some s

-- `nonces.has(nonce)`
unfoldable pub knows : String → List Entry → Bool
knows n [] = false
knows n (e ∷ es) = let rest = knows n es in if str_eq e.nonce n then true else rest

-- `#pruneNonces`
unfoldable pub prune_nonces : ℕ → List Entry → List Entry
prune_nonces now [] = []
prune_nonces now (e ∷ es) =
    let rest = prune_nonces now es in if ltb e.expires_at now then rest else e ∷ rest

-- `Math.abs(nowSeconds - timestampSeconds)`
abbrev pub distance : ℕ → Seconds → ℕ
distance now (after_epoch t) = (now - t) + (t - now)
distance now (before_epoch t) = now + t

-- `timestampSeconds + clockSkewSeconds`, which is not negative for a timestamp in the window.
abbrev pub expiry : Seconds → ℕ → ℕ
expiry (after_epoch t) skew = t + skew
expiry (before_epoch t) skew = skew - t

abbrev pub deny : List Entry → String → ℕ → After
deny ns code status = record { nonces = ns; verdict = rejected code status }

-- `read` is `Number`, where `none` is no safe integer; `sign` is `signature`, the HMAC.
module _ (read : String → Option Seconds)
    (sign : String → String → String → String → String → String → String)
    (credentials : Credentials) (skew : ℕ) where
  abbrev pub check_signature :
      List Entry → Seconds → Request → String → String → String → String → After
  check_signature ns t request timestamp nonce provided body =
      if not
        (str_eq provided (sign credentials.secret request.method request.path timestamp nonce body))
      then deny ns "publish_signature_invalid" 401
      else record { nonces = named nonce (expiry t skew) ∷ ns; verdict = accepted }

  abbrev pub check_replay :
      List Entry → Seconds → Request → String → String → String → String → After
  check_replay ns t request timestamp nonce provided body =
      if knows nonce ns
      then deny ns "publish_replay_detected" 409
      else check_signature ns t request timestamp nonce provided body

  abbrev pub check_window :
      List Entry → ℕ → Option Seconds → Request → String → String → String → String → After
  check_window ns now none request timestamp nonce provided body =
      deny ns "publish_timestamp_invalid" 401
  check_window ns now (some t) request timestamp nonce provided body =
      if ltb skew (distance now t)
      then deny ns "publish_timestamp_invalid" 401
      else check_replay (prune_nonces now ns) t request timestamp nonce provided body

  abbrev pub check_key :
      List Entry
      → ℕ
      → Request
      → Option String
      → Option String
      → Option String
      → Option String
      → String
      → After
  check_key ns now request (some key) (some timestamp) (some nonce) (some provided) body =
      if not (str_eq key credentials.key)
      then deny ns "publish_key_invalid" 401
      else check_window ns now (read timestamp) request timestamp nonce provided body
  check_key ns now request _ _ _ _ body = deny ns "publish_authentication_required" 401

  -- The clock is read in milliseconds.
  unfoldable pub verify : List Entry → ℕ → Request → String → After
  verify ns clock request body =
      check_key ns (clock / 1000) request (sent request.key) (sent request.timestamp)
        (sent request.nonce) (sent request.provided) body

  -- The headers that a publisher sends at a time, with a nonce.
  unfoldable pub headers : ℕ → (ℕ → String) → String → String → String → String → Request
  headers clock print nonce m p body = record {
    method = m;
    path = p;
    key = some credentials.key;
    timestamp = some (print (clock / 1000));
    nonce = some nonce;
    provided = some (sign credentials.secret m p (print (clock / 1000)) nonce body);
  }
