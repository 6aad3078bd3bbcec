-- ===== src/Runtime/Graph/Construct.antt =====
-- A provider joins the participants behind everything that it needs.
use doxajs.Base.{
  String, true, false, Option, List, ◌∷◌, ◌≡◌, ◌⊎◌, inl, inr, refl, sym, subst, ◌∙◌, Elem, Within,
}
use doxajs.Compiler.Manifest.{Provider}
use doxajs.Compiler.Scopes.{is_singleton}
use doxajs.Runtime.Graph.{
  Instance, Parts, State, Result, done, failed, out_of_fuel, ◌>>=◌, provided, lookup,
  add_participant,
}
use doxajs.Runtime.Graph.Order.{
  ids_of, used, itself, through, Covers, IsOrdered, Follows, Ends, Reached, Why,
}

module _ (parts : Parts) where
  -- What the construction of an id leaves behind: the id may have joined, although it is on the stack.
  pub record Joined (s : State) (id : String) (s' : State) : Type 0 where
    pub ordered : IsOrdered parts s'
    pub grows : Within (ids_of s.participants) (ids_of s'.participants)
    pub same_stack : s'.stack ≡ s.stack
    pub waits :
        (k : String)
        → Elem k (ids_of s'.participants)
        → Elem k (ids_of s.participants) ⊎ ((k ≡ id) ⊎ (¬ Elem k s.stack))
    pub reached : Reached parts id (ids_of s'.participants)

  abbrev pub Builds : State → String → Result (Option Instance) → Type 0
  Builds s id (done o s') = Joined s id s'
  Builds s id (failed e) = Why parts e
  Builds s id out_of_fuel = ⊥

  Joined-after : (s t u : State) (id : String) → Follows parts s t → Joined t id u → Joined s id u
  Joined-after s t u id f j = record {
    ordered = j.ordered;
    grows = λ k m. j.grows k (f.grows k m);
    same_stack = j.same_stack ∙ f.same_stack;
    waits = λ k m. elim (j.waits k m) [
      | inl old ↦ elim (f.waits k old) [ inl older ↦ inl older | inr new ↦ inr (inr new) ]
      | inr same_or_new ↦ inr (elim same_or_new [
        | inl same ↦ inl same
        | inr new ↦ inr (subst (λ st. ¬ Elem k st) f.same_stack new)
      ])
    ];
    reached = j.reached;
  }

  pub bind-Builds :
      {A : Type 0} (s : State) (id : String) (P : List String → Type 0) (r : Result A)
      (k : A → State → Result (Option Instance))
      → Ends parts s P r
      → ((a : A) (t : State) → Follows parts s t → P (ids_of t.participants) → Builds t id (k a t))
      → Builds s id (r >>= k)
  bind-Builds s id P (done a t) k (f, p) next = extend (k a t) (next a t f p)
    where
      extend : (r : Result (Option Instance)) → Builds t id r → Builds s id r
      extend (done b u) j = Joined-after s t u id f j
      extend (failed e) h = h
      extend out_of_fuel h = elim h [ ]
  bind-Builds s id P (failed e) k h next = h
  bind-Builds s id P out_of_fuel k h next = elim h [ ]

  module _ (id : String) (p : Provider) (e : lookup parts id ≡ provided p) where
    same_provider : (q : Provider) → lookup parts id ≡ provided q → p ≡ q
    same_provider q e' = cc

    Covers-used :
        (set : List String)
        → Covers parts (used parts id p) set
        → (q : Provider) → lookup parts id ≡ provided q
        → Covers parts (used parts id q) set
    Covers-used set c q e' =
        subst (λ (r : Provider). Covers parts (used parts id r) set) (same_provider q e') c

    pub singleton-Reached :
        (set : List String) → is_singleton p.scope ≡ true → Elem id set → Reached parts id set
    singleton-Reached set single m k (itself q e' y) = m
    singleton-Reached set single m k (through q t e' n u l) =
        absurd
          (cc (subst (λ (r : Provider). is_singleton r.scope ≡ true) (same_provider q e') single))

    transient-Reached :
        (set : List String)
        → is_singleton p.scope ≡ false
        → Covers parts (used parts id p) set
        → Reached parts id set
    transient-Reached set plain c k (itself q e' y) =
        absurd
          (cc (subst (λ (r : Provider). is_singleton r.scope ≡ false) (same_provider q e') plain))
    transient-Reached set plain c k (through q t e' n u l) = Covers-used set c q e' t k u l

    -- A singleton that joins.
    pub join-Joined :
        (t : State) (i : Instance)
        → is_singleton p.scope ≡ true
        → IsOrdered parts t
        → Covers parts (used parts id p) (ids_of t.participants)
        → ¬ Elem id (ids_of t.participants)
        → Joined t id (add_participant id i t)
    join-Joined t i single (o, d) c fresh = record {
      ordered = ((Covers-used (ids_of t.participants) c, o), (fresh, d));
      grows = λ k m. inr m;
      same_stack = refl;
      waits = λ k m. elim m [ inl same ↦ inr (inl (sym same)) | inr old ↦ inl old ];
      reached = singleton-Reached (id ∷ ids_of t.participants) single (inl refl);
    }

    -- Another provider does not.
    pub pass-Joined :
        (t : State)
        → is_singleton p.scope ≡ false
        → IsOrdered parts t
        → Covers parts (used parts id p) (ids_of t.participants)
        → Joined t id t
    pass-Joined t plain o c = record {
      ordered = o;
      grows = λ k m. m;
      same_stack = refl;
      waits = λ k m. inl m;
      reached = transient-Reached (ids_of t.participants) plain c;
    }
