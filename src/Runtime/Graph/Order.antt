-- ===== src/Runtime/Graph/Order.antt =====
-- In what order singletons are to be constructed, and what a call of `resolve` leaves behind.
use doxajs.Base.{
  String, true, false, Option, List, [], ◌∷◌, ◌≡◌, ◌⊎◌, inl, inr, refl, subst, ◌∙◌, map, has, Elem,
  Within, Distinct, if◌then◌else◌,
}
use doxajs.Compiler.Manifest.{Provider, Dependency, by_id}
use doxajs.Compiler.Cycles.Graph.{Targets}
use doxajs.Compiler.Scopes.{is_singleton}
use doxajs.Runtime.Graph.{
  Parts, Participant, State, Result, done, failed, out_of_fuel, ◌>>=◌, provided, unknown, lookup,
  constructor_dependencies, Failure, undeclared_override, missing_constructor, constructor_throws,
  cyclic, unavailable, Instance, declares_singleton,
}

abbrev pub ids_of : List Participant → List String
ids_of ps = map (λ p. p.id) ps

module _ (parts : Parts) where
  -- The dependencies that are resolved for a provider.
  abbrev pub used : String → Provider → List Dependency
  used id p =
      if has id parts.overrides then p.dependencies else constructor_dependencies p.dependencies

  -- From the first id the second, of a singleton, is reached through providers that are none.
  pub data Leads : String → String → Type 0 where
    itself :
        {id : String} (p : Provider)
        → lookup parts id ≡ provided p
        → is_singleton p.scope ≡ true
        → Leads id id
    through :
        {id k : String} (p : Provider) (t : String)
        → lookup parts id ≡ provided p
        → is_singleton p.scope ≡ false
        → Targets t (used id p)
        → Leads t k
        → Leads id k

  -- What the dependencies lead to is in the set.
  abbrev pub Covers : List Dependency → List String → Type 0
  Covers ds set = (t k : String) → Targets t ds → Leads t k → Elem k set

  -- Newest first: everything that a singleton needs stands behind it.
  abbrev pub Ordered : List String → Type 0
  Ordered [] = Unit
  Ordered (id ∷ rest) =
      ((p : Provider) → lookup parts id ≡ provided p → Covers (used id p) rest) × Ordered rest

  abbrev pub IsOrdered : State → Type 0
  IsOrdered s = Ordered (ids_of s.participants) × Distinct (ids_of s.participants)

  -- The second state follows the first in a call: the same stack, in a good order, and with no new
  -- participant that is under construction.
  pub record Follows (s s' : State) : Type 0 where
    pub ordered : IsOrdered s'
    pub grows : Within (ids_of s.participants) (ids_of s'.participants)
    pub same_stack : s'.stack ≡ s.stack
    pub waits :
        (k : String)
        → Elem k (ids_of s'.participants)
        → Elem k (ids_of s.participants) ⊎ (¬ Elem k s.stack)

  pub Follows-refl : (s : State) → IsOrdered s → Follows s s
  Follows-refl s o = record {
    ordered = o;
    grows = λ k m. m;
    same_stack = refl;
    waits = λ k m. inl m;
  }

  pub Follows-trans : (s t u : State) → Follows s t → Follows t u → Follows s u
  Follows-trans s t u f g = record {
    ordered = g.ordered;
    grows = λ k m. g.grows k (f.grows k m);
    same_stack = g.same_stack ∙ f.same_stack;
    waits = λ k m. elim (g.waits k m) [
      | inl old ↦ f.waits k old
      | inr new ↦ inr (subst (λ st. ¬ Elem k st) f.same_stack new)
    ];
  }

  -- The first id's provider uses the second, directly or through others.
  pub data Depends : String → String → Type 0 where
    uses :
        {a b : String} (p : Provider)
        → lookup parts a ≡ provided p
        → Targets b (used a p)
        → Depends a b
    then_uses :
        {a b : String} (c : String) (p : Provider)
        → Depends a c
        → lookup parts c ≡ provided p
        → Targets b (used c p)
        → Depends a b

  -- Everything under construction depends on the id.
  abbrev pub Pending : List String → String → Type 0
  Pending st t = (k : String) → Elem k st → Depends k t

  -- What an error tells.
  abbrev pub Why : Failure → Type 0
  Why (undeclared_override id) =
      Elem id parts.overrides × (declares_singleton (by_id parts.providers id) ≡ false)
  Why (missing_constructor id) =
      ((p : Provider) × (lookup parts id ≡ provided p)) × (parts.has_constructor id ≡ false)
  Why (constructor_throws id) = (args : List (Option Instance)) × (parts.throws id args ≡ true)
  Why (cyclic id) = Depends id id
  Why (unavailable t id) =
      (lookup parts t ≡ unknown)
      × ((p : Provider) × (lookup parts id ≡ provided p) × Targets t (used id p))

  -- A call ends in an error, or in a state that follows and has what was asked for.
  abbrev pub Ends : {A : Type 0} → State → (List String → Type 0) → Result A → Type 0
  Ends s P (done a s') = Follows s s' × P (ids_of s'.participants)
  Ends s P (failed e) = Why e
  Ends s P out_of_fuel = ⊥

  pub bind-Ends :
      {A B : Type 0} (s : State) (P Q R : List String → Type 0) (r : Result A)
      (k : A → State → Result B)
      → Ends s P r
      → ((a : A) (t : State) → Follows s t → P (ids_of t.participants) → Ends t Q (k a t))
      → ((xs ys : List String) → P xs → Within xs ys → Q ys → R ys)
      → Ends s R (r >>= k)
  bind-Ends {B = B} s P Q R (done a t) k (f, p) next join = extend (k a t) (next a t f p)
    where
      extend : (r : Result B) → Ends t Q r → Ends s R r
      extend (done b u) (g, q) = (
        Follows-trans s t u f g,
        join (ids_of t.participants) (ids_of u.participants) p g.grows q,
      )
      extend (failed e) h = h
      extend out_of_fuel h = elim h [ ]
  bind-Ends s P Q R (failed e) k h next join = h
  bind-Ends s P Q R out_of_fuel k h next join = elim h [ ]

  -- All that the id leads to is there.
  abbrev pub Reached : String → List String → Type 0
  Reached t set = (k : String) → Leads t k → Elem k set
