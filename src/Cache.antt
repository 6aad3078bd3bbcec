-- ===== src/Cache.antt =====
-- `MemoryCache` of packages/core/src/cache.ts.
pub mod Views
pub mod Operations
mod Tests
use doxajs.Base.{
  ℕ, String, Bool, true, false, Option, none, some, List, [], ◌∷◌, ◌+◌, str_eq, leb, if◌then◌else◌,
}
use doxajs.Js.{undefined, Value, number}

-- Whole milliseconds stand for `ttlSeconds * 1_000`; `improper` is a `ttlSeconds` that is not a
-- positive finite number.
pub data Ttl : Type 0 where
  unset improper : Ttl
  milliseconds : ℕ → Ttl

pub record Entry (N : Type 0) : Type 0 where
  pub value : Value N ⊥
  pub expires_at : Option ℕ

pub record Slot (N : Type 0) : Type 0 where
  pub key : String
  pub entry : Entry N

-- A result with the entries after it; `none` is a throw, which changes nothing but what
-- `live_entry` deletes.
pub record Reply (N A : Type 0) : Type 0 where
  pub entries : List (Slot N)
  pub result : Option A

abbrev pub found : {A : Type 0} → Option A → Bool
found none = false
found (some a) = true

-- `expiry`, where `none` is a throw.
abbrev pub expiry : Ttl → ℕ → Option (Option ℕ)
expiry unset now = some none
expiry improper now = none
expiry (milliseconds t) now = some (some (now + t))

-- `entry.expiresAt !== undefined && entry.expiresAt <= this.now()`
abbrev pub expired_at : ℕ → Option ℕ → Bool
expired_at now none = false
expired_at now (some t) = leb t now

module _ {N : Type 0} where
  abbrev pub slot : String → Entry N → Slot N
  slot k e = record { key = k; entry = e }

  abbrev pub holding : Value N ⊥ → Option ℕ → Entry N
  holding v t = record { value = v; expires_at = t }

  unfoldable pub lookup : String → List (Slot N) → Option (Entry N)
  lookup k [] = none
  lookup k (s ∷ ss) = if str_eq s.key k then some s.entry else lookup k ss

  -- `entries.set(key, entry)`
  unfoldable pub set : String → Entry N → List (Slot N) → List (Slot N)
  set k e [] = slot k e ∷ []
  set k e (s ∷ ss) = let rest = set k e ss in if str_eq s.key k then slot k e ∷ ss else s ∷ rest

  -- `entries.delete(key)`
  unfoldable pub remove : String → List (Slot N) → List (Slot N)
  remove k [] = []
  remove k (s ∷ ss) = let rest = remove k ss in if str_eq s.key k then rest else s ∷ rest

  abbrev pub expired : ℕ → Entry N → Bool
  expired now e = expired_at now e.expires_at

  abbrev pub live_of : ℕ → Option (Entry N) → Option (Entry N)
  live_of now none = none
  live_of now (some e) = if expired now e then none else some e

  abbrev pub kept_entries : ℕ → String → Option (Entry N) → List (Slot N) → List (Slot N)
  kept_entries now k none ss = ss
  kept_entries now k (some e) ss = if expired now e then remove k ss else ss

  -- `#liveEntry`
  unfoldable pub live_entry : ℕ → String → List (Slot N) → Reply N (Option (Entry N))
  live_entry now k ss = record {
    entries = kept_entries now k (lookup k ss) ss;
    result = some (live_of now (lookup k ss));
  }

  abbrev pub value_of : Option (Entry N) → Option (Value N ⊥)
  value_of none = none
  value_of (some e) = some e.value

  -- The clone of a JSON value is the value.
  unfoldable pub get : ℕ → String → List (Slot N) → Reply N (Option (Value N ⊥))
  get now k ss = record {
    entries = kept_entries now k (lookup k ss) ss;
    result = some (value_of (live_of now (lookup k ss)));
  }

  abbrev pub store :
      {A : Type 0} → String → Value N ⊥ → A → Option (Option ℕ) → List (Slot N) → Reply N A
  store k v a none ss = record { entries = ss; result = none }
  store k v a (some t) ss = record { entries = set k (holding v t) ss; result = some a }

  unfoldable pub put : ℕ → String → Value N ⊥ → Ttl → List (Slot N) → Reply N Unit
  put now k v ttl ss = store k v tt (expiry ttl now) ss

  unfoldable pub add : ℕ → String → Value N ⊥ → Ttl → List (Slot N) → Reply N Bool
  add now k v ttl ss =
      if found (live_of now (lookup k ss))
      then record { entries = kept_entries now k (lookup k ss) ss; result = some false }
      else store k v true (expiry ttl now) (kept_entries now k (lookup k ss) ss)

  unfoldable pub forget : String → List (Slot N) → Reply N Bool
  forget k ss = record { entries = remove k ss; result = some (found (lookup k ss)) }

  module _ (plus : N → N → N) (nought : N) where
    abbrev pub increase_value : String → N → Value N ⊥ → Option ℕ → List (Slot N) → Reply N N
    increase_value k amount (number n) t ss =
        store k (number (plus n amount)) (plus n amount) (some t) ss
    increase_value k amount undefined t ss =
        store k (number (plus nought amount)) (plus nought amount) (some t) ss
    increase_value k amount v t ss = record { entries = ss; result = none }

    -- The sum under the old expiry, or under a new one.
    abbrev pub increase : ℕ → String → N → Ttl → Option (Entry N) → List (Slot N) → Reply N N
    increase now k amount ttl none ss =
        store k (number (plus nought amount)) (plus nought amount) (expiry ttl now) ss
    increase now k amount ttl (some e) ss = increase_value k amount e.value e.expires_at ss

    unfoldable pub increment : ℕ → String → N → Ttl → List (Slot N) → Reply N N
    increment now k amount ttl ss =
        increase now k amount ttl (live_of now (lookup k ss)) (kept_entries now k (lookup k ss) ss)

  -- `remember`, which reads the clock once to look and once to put, after the value is produced.
  abbrev pub remembered :
      ℕ → String → Value N ⊥ → Ttl → Option (Value N ⊥) → List (Slot N) → Reply N (Value N ⊥)
  remembered now k produced ttl none ss = store k produced produced (expiry ttl now) ss
  remembered now k produced ttl (some v) ss = record { entries = ss; result = some v }

  unfoldable pub remember : ℕ → ℕ → String → Value N ⊥ → Ttl → List (Slot N) → Reply N (Value N ⊥)
  remember now later k produced ttl ss =
      remembered later k produced ttl (value_of (live_of now (lookup k ss)))
        (kept_entries now k (lookup k ss) ss)
