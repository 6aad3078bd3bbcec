-- ===== src/Cache/Operations.antt =====
-- Each operation of the cache, on every branch, by what the cache shows from then on.
use doxajs.Base.{
  Bool-cases, leb, arith, ◌+◌, ◌≤◌, ◌<◌, ◌≢◌, ℕ, String, Bool, true, false, Option, none, some,
  List, ◌≡◌, refl, eq_refl, Option-cases, inl, inr,
}
use doxajs.Js.{Value, undefined, null, bool, number, string, array, object, instance_of}
use doxajs.Cache.{
  Ttl, unset, improper, milliseconds, Entry, Slot, Reply, holding, lookup, kept_entries, expiry,
  get, put, add, increase_value, increment,
}
use doxajs.Cache.Views.{lookup-set, view, Unchanged, Updated, kept_entries-Unchanged, set-Updated}

module _ {N : Type 0} where
  -- The branches of `add`: the key is taken, it is added, or the ttl is refused.
  pub data AddRun (now : ℕ) (k : String) (v : Value N ⊥) (ttl : Ttl) (ss : List (Slot N))
      (r : Reply N Bool) : Type 0 where
    taken :
        (e : Entry N)
        → view now k ss ≡ some e
        → r.result ≡ some false
        → Unchanged now ss r.entries
        → AddRun now k v ttl ss r
    added :
        (t : Option ℕ)
        → view now k ss ≡ none
        → expiry ttl now ≡ some t
        → r.result ≡ some true
        → Updated now k (holding v t) ss r.entries
        → AddRun now k v ttl ss r
    refused_ttl :
        view now k ss ≡ none
        → expiry ttl now ≡ none
        → r.result ≡ none
        → Unchanged now ss r.entries
        → AddRun now k v ttl ss r

  -- `add` sets the entry and returns true exactly if the key has no live entry and the ttl is proper,
  -- returns false if there is one, and throws for an improper ttl; the other keys show what they did.
  pub add-AddRun :
      (now : ℕ) (k : String) (v : Value N ⊥) (ttl : Ttl) (ss : List (Slot N))
      → AddRun now k v ttl ss (add now k v ttl ss)
  unfolding add
  add-AddRun now k v ttl ss = elim (Option-cases (view now k ss)) [
    | inr (e, live) ↦ taken e live (rw live refl) (rw live (kept_entries-Unchanged now k ss))
    | inl absent ↦ elim (Option-cases (expiry ttl now)) [
      | inl bad ↦
          refused_ttl absent bad (rw (absent, bad) refl)
            (rw (absent, bad) (kept_entries-Unchanged now k ss))
      | inr (t, good) ↦ added t absent good (rw (absent, good) refl) (
          rw (absent, good)
            (set-Updated now k (holding v t) ss (kept_entries now k (lookup k ss) ss)
              (kept_entries-Unchanged now k ss)))
    ]
  ]

  module _ (plus : N → N → N) (nought : N) where
    -- The branches of `increment`.
    pub data IncrementRun (now : ℕ) (k : String) (amount : N) (ttl : Ttl) (ss : List (Slot N))
        (r : Reply N N) : Type 0 where
      grown :
          (n : N) (t : Option ℕ)
          → view now k ss ≡ some (holding (number n) t)
          → r.result ≡ some (plus n amount)
          → Updated now k (holding (number (plus n amount)) t) ss r.entries
          → IncrementRun now k amount ttl ss r
      undefined_grown :
          (t : Option ℕ)
          → view now k ss ≡ some (holding undefined t)
          → r.result ≡ some (plus nought amount)
          → Updated now k (holding (number (plus nought amount)) t) ss r.entries
          → IncrementRun now k amount ttl ss r
      begun :
          (t : Option ℕ)
          → view now k ss ≡ none
          → expiry ttl now ≡ some t
          → r.result ≡ some (plus nought amount)
          → Updated now k (holding (number (plus nought amount)) t) ss r.entries
          → IncrementRun now k amount ttl ss r
      not_numeric :
          (e : Entry N)
          → view now k ss ≡ some e
          → ((n : N) → e.value ≢ number n)
          → e.value ≢ undefined
          → r.result ≡ none
          → Unchanged now ss r.entries
          → IncrementRun now k amount ttl ss r
      bad_ttl :
          view now k ss ≡ none
          → expiry ttl now ≡ none
          → r.result ≡ none
          → Unchanged now ss r.entries
          → IncrementRun now k amount ttl ss r

    increase_value-IncrementRun :
        (now : ℕ) (k : String) (amount : N) (ttl : Ttl) (ss : List (Slot N)) (v : Value N ⊥)
        (t : Option ℕ)
        → view now k ss ≡ some (holding v t)
        → IncrementRun now k amount ttl ss
            (increase_value plus nought k amount v t (kept_entries now k (lookup k ss) ss))
    increase_value-IncrementRun now k amount ttl ss (number n) t live = grown n t live refl (
        set-Updated now k (holding (number (plus n amount)) t) ss
          (kept_entries now k (lookup k ss) ss) (kept_entries-Unchanged now k ss))
    increase_value-IncrementRun now k amount ttl ss (instance_of d) t live = elim d [ ]
    increase_value-IncrementRun now k amount ttl ss undefined t live = undefined_grown t live refl (
        set-Updated now k (holding (number (plus nought amount)) t) ss
          (kept_entries now k (lookup k ss) ss) (kept_entries-Unchanged now k ss))
    increase_value-IncrementRun now k amount ttl ss null t live =
        not_numeric _ live (λ n e. cc) (λ e. cc) refl (kept_entries-Unchanged now k ss)
    increase_value-IncrementRun now k amount ttl ss (bool b) t live =
        not_numeric _ live (λ n e. cc) (λ e. cc) refl (kept_entries-Unchanged now k ss)
    increase_value-IncrementRun now k amount ttl ss (string s) t live =
        not_numeric _ live (λ n e. cc) (λ e. cc) refl (kept_entries-Unchanged now k ss)
    increase_value-IncrementRun now k amount ttl ss (array xs) t live =
        not_numeric _ live (λ n e. cc) (λ e. cc) refl (kept_entries-Unchanged now k ss)
    increase_value-IncrementRun now k amount ttl ss (object fs) t live =
        not_numeric _ live (λ n e. cc) (λ e. cc) refl (kept_entries-Unchanged now k ss)

    -- On every state, `increment` adds to a live number, or to a live undefined as to nothing, under its
    -- old expiry; it throws on any other live value; with no live entry it starts from nothing under a
    -- new expiry, or throws if the ttl is improper. No other key shows a change.
    pub increment-IncrementRun :
        (now : ℕ) (k : String) (amount : N) (ttl : Ttl) (ss : List (Slot N))
        → IncrementRun now k amount ttl ss (increment plus nought now k amount ttl ss)
    unfolding increment
    increment-IncrementRun now k amount ttl ss = elim (Option-cases (view now k ss)) [
      | inr (e, live) ↦
          rw live (increase_value-IncrementRun now k amount ttl ss e.value e.expires_at live)
      | inl absent ↦ elim (Option-cases (expiry ttl now)) [
        | inl bad ↦
            bad_ttl absent bad (rw (absent, bad) refl)
              (rw (absent, bad) (kept_entries-Unchanged now k ss))
        | inr (t, good) ↦ begun t absent good (rw (absent, good) refl) (
            rw (absent, good)
              (set-Updated now k (holding (number (plus nought amount)) t) ss
                (kept_entries now k (lookup k ss) ss) (kept_entries-Unchanged now k ss)))
      ]
    ]

  -- What `get` returns at the time `later`, after a `put` at the time `now`.
  pub data PutRun (now later : ℕ) (k : String) (v : Value N ⊥) (ss : List (Slot N))
      (put_reply : Reply N Unit) (got : Reply N (Option (Value N ⊥))) : Ttl → Type 0 where
    kept :
        put_reply.result ≡ some tt
        → got.result ≡ some (some v)
        → PutRun now later k v ss put_reply got unset
    alive :
        (t : ℕ)
        → later < now + t
        → put_reply.result ≡ some tt
        → got.result ≡ some (some v)
        → PutRun now later k v ss put_reply got (milliseconds t)
    gone :
        (t : ℕ)
        → now + t ≤ later
        → put_reply.result ≡ some tt
        → got.result ≡ some none
        → PutRun now later k v ss put_reply got (milliseconds t)
    refused :
        put_reply.result ≡ none
        → put_reply.entries ≡ ss
        → PutRun now later k v ss put_reply got improper

  -- After a `put` with no ttl, `get` of the key returns the value; with a ttl it returns the value
  -- before the time of the `put` and the ttl together, and nothing from then on; an improper ttl throws
  -- and changes nothing.
  pub get-put :
      (now later : ℕ) (k : String) (v : Value N ⊥) (ttl : Ttl) (ss : List (Slot N))
      → PutRun now later k v ss (put now k v ttl ss) (get later k (put now k v ttl ss).entries) ttl
  unfolding get put
  get-put now later k v unset ss =
      kept refl (rw (lookup-set k k (holding v none) ss, eq_refl k) refl)
  get-put now later k v improper ss = refused refl refl
  get-put now later k v (milliseconds t) ss = elim (Bool-cases (leb (now + t) later)) [
    | inl over ↦
        gone t (ground arith) refl
          (rw (lookup-set k k (holding v (some (now + t))) ss, eq_refl k, over) refl)
    | inr early ↦
        alive t (ground arith) refl
          (rw (lookup-set k k (holding v (some (now + t))) ss, eq_refl k, early) refl)
  ]
