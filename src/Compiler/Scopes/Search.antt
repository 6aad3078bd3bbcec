-- ===== src/Compiler/Scopes/Search.antt =====
-- The search of `assertScopeSafety` finds an execution-scoped provider exactly where one is reached.
use doxajs.Base.{
  String, ℕ, zero, suc, ◌<◌, true, false, none, some, List, [], ◌∷◌, ◌≡◌, ◌⊎◌, inl, inr, refl, sym,
  ap, subst, ◌∙◌, has, Elem, Within, length, missing, missing_mono, missing-cons, missing-nil,
  arith, Elem-of_has, not-Elem-of_has, Bool-cases, Option-cases,
}
use doxajs.Compiler.Manifest.{Provider, Dependency, target, by_id}
use doxajs.Compiler.Cycles.Graph.{Targets, ids, length-ids, Elem-of_Provided}
use doxajs.Compiler.Scopes.{
  Found, hit, clear, out_of_fuel, ◌>>=◌, is_execution, any_dependency, reaches_execution_scope,
}

-- A provider of execution scope is reached from the id by zero or more dependencies.
pub data Leads (ps : List Provider) : String → Type 0 where
  here :
      {id : String} (p : Provider)
      → by_id ps id ≡ some p
      → is_execution p.scope ≡ true
      → Leads ps id
  through :
      {id : String} (p : Provider) (t : String)
      → by_id ps id ≡ some p
      → Targets t p.dependencies
      → Leads ps t
      → Leads ps id

-- The provider of the id, if any, is not of execution scope, and its targets are in the set.
record IsClosed (ps : List Provider) (set : List String) (id : String) : Type 0 where
  clean : (p : Provider) → by_id ps id ≡ some p → is_execution p.scope ≡ false
  inside :
      (p : Provider) (t : String) → by_id ps id ≡ some p → Targets t p.dependencies → Elem t set

IsClosed-mono :
    (ps : List Provider) (xs ys : List String) (id : String)
    → Within xs ys
    → IsClosed ps xs id
    → IsClosed ps ys id
IsClosed-mono ps xs ys id w c = record {
  clean = c.clean;
  inside = λ p t e m. w t (c.inside p t e m);
}

-- The answer of a search that starts with the set `xs` and is to cover the ids in `Wanted`.
data Answer (ps : List Provider) (xs : List String) (Wanted : String → Type 0)
    : Found → Type 0 where
  reached : (t : String) → Wanted t → Leads ps t → Answer ps xs Wanted hit
  covered :
      (ys : List String)
      → Within xs ys
      → ((t : String) → Wanted t → Elem t ys)
      → ((v : String) → Elem v ys → Elem v xs ⊎ IsClosed ps ys v)
      → Answer ps xs Wanted (clear ys)

bind-Answer :
    (ps : List Provider) (xs : List String) (P Q R : String → Type 0) (o : Found)
    (k : List String → Found)
    → Answer ps xs P o
    → ((ys : List String) → Within xs ys → Answer ps ys Q (k ys))
    → ((t : String) → R t → P t ⊎ Q t)
    → ((t : String) → P t ⊎ Q t → R t)
    → Answer ps xs R (o >>= k)
bind-Answer ps xs P Q R o k (reached t p l) next split join = reached t (join t (inl p)) l
bind-Answer ps xs P Q R o k (covered ys w g c) next split join = extend (k ys) (next ys w)
  where
    extend : (r : Found) → Answer ps ys Q r → Answer ps xs R r
    extend r (reached t q l) = reached t (join t (inr q)) l
    extend r (covered zs w' g' c') =
        covered zs (λ t m. w' t (w t m))
          (λ t r'. elim (split t r') [ inl p ↦ w' t (g t p) | inr q ↦ g' t q ])
          (λ v m. elim (c' v m) [
            | inl old ↦ elim (c v old) [
              | inl older ↦ inl older
              | inr closed ↦ inr (IsClosed-mono ps ys zs v w' closed)
            ]
            | inr closed ↦ inr closed
          ])

widen :
    (ps : List Provider) (xs : List String) (P R : String → Type 0) (o : Found)
    → Answer ps xs P o
    → ((t : String) → R t → P t)
    → ((t : String) → P t → R t)
    → Answer ps xs R o
widen ps xs P R o (reached t p l) f g = reached t (g t p) l
widen ps xs P R o (covered ys w h c) f g = covered ys w (λ t r. h t (f t r)) c

module _ (ps : List Provider) (fuel : ℕ) (search : String → List String → Found) where
  any_dependency-none :
      (d : Dependency) (ds : List Dependency) (xs : List String)
      → target d ≡ none
      → any_dependency search (d ∷ ds) xs ≡ any_dependency search ds xs
  unfolding any_dependency
  any_dependency-none d ds xs e = rw (e, any_dependency)

  any_dependency-some :
      (d : Dependency) (ds : List Dependency) (xs : List String) (t : String)
      → target d ≡ some t
      → any_dependency search (d ∷ ds) xs ≡ (search t xs >>= λ v. any_dependency search ds v)
  unfolding any_dependency
  any_dependency-some d ds xs t e = rw (e, any_dependency)

  any_dependency-Answer :
      (ds : List Dependency) (xs : List String)
      → missing (ids ps) xs < fuel
      → ((t : String) (ys : List String)
          → missing (ids ps) ys < fuel
          → Answer ps ys (λ k. t ≡ k) (search t ys))
      → Answer ps xs (λ t. Targets t ds) (any_dependency search ds xs)
  unfolding any_dependency
  any_dependency-Answer [] xs enough call = covered xs (λ t m. m) (λ t m. elim m [ ]) (λ v m. inl m)
  any_dependency-Answer (d ∷ ds) xs enough call = elim (Option-cases (target d)) [
    | inl none_named ↦
        subst (Answer ps xs (λ t. Targets t (d ∷ ds)))
          (sym (any_dependency-none d ds xs none_named))
          (widen ps xs (λ t. Targets t ds) (λ t. Targets t (d ∷ ds)) (any_dependency search ds xs)
            (any_dependency-Answer ds xs enough call)
            (λ t m. elim m [ inl e ↦ absurd (cc) | inr later ↦ later ]) (λ t m. inr m))
    | inr (t, e) ↦
        subst (Answer ps xs (λ k. Targets k (d ∷ ds))) (sym (any_dependency-some d ds xs t e)) (
          bind-Answer ps xs (λ k. t ≡ k) (λ k. Targets k ds) (λ k. Targets k (d ∷ ds)) (search t xs)
            (λ v. any_dependency search ds v) (call t xs enough)
            (λ ys w.
              any_dependency-Answer ds ys (omega (arith, missing_mono (ids ps) xs ys w)) call)
            (λ k m. elim m [ inl named ↦ inl (cc) | inr later ↦ inr later ])
            (λ k m. elim m [ inl same ↦ inl (e ∙ ap some same) | inr later ↦ inr later ]))
  ]

-- A visited id whose provider is not of execution scope, once its dependencies are searched.
mark-Answer :
    (ps : List Provider) (xs : List String) (id : String) (p : Provider) (o : Found)
    → by_id ps id ≡ some p
    → is_execution p.scope ≡ false
    → Answer ps (id ∷ xs) (λ t. Targets t p.dependencies) o
    → Answer ps xs (λ k. id ≡ k) o
mark-Answer ps xs id p o e plain (reached t m l) = reached id refl (through p t e m l)
mark-Answer ps xs id p o e plain (covered ys w g c) =
    covered ys (λ t m. w t (inr m)) (λ t same. w t (inl same))
      (λ v m. elim (c v m) [
        | inr closed ↦ inr closed
        | inl old ↦ elim old [
          | inr older ↦ inl older
          | inl same ↦ inr (
              subst (IsClosed ps ys) same (record {
                clean = λ q e'.
                    subst (λ (r : Provider). is_execution r.scope ≡ false) {x = p} {y = q} (cc)
                      plain;
                inside = λ q t e' m'.
                    g t
                      (subst (λ (r : Provider). Targets t r.dependencies) {x = q} {y = p} (cc) m');
              }))
        ]
      ])

unknown-IsClosed :
    (ps : List Provider) (set : List String) (id : String) → by_id ps id ≡ none → IsClosed ps set id
unknown-IsClosed ps set id e = record {
  clean = λ p e'. absurd (cc);
  inside = λ p t e' m. absurd (cc);
}

search-Answer :
    (ps : List Provider) (fuel : ℕ) (id : String) (xs : List String)
    → missing (ids ps) xs < fuel
    → Answer ps xs (λ k. id ≡ k) (reaches_execution_scope ps fuel id xs)
unfolding reaches_execution_scope
search-Answer ps zero id xs enough = absurd (omega arith)
search-Answer ps (suc fuel) id xs enough = elim (Bool-cases (has id xs)) [
  | inl old ↦ rw old (
      covered xs (λ t m. m) (λ t same. subst (λ k. Elem k xs) same (Elem-of_has id xs old))
        (λ v m. inl m))
  | inr new ↦ elim (Option-cases (by_id ps id)) [
    | inl unknown ↦
        rw (new, unknown)
          (covered (id ∷ xs) (λ t m. inr m) (λ t same. inl same)
            (λ v m. elim m [
              | inl same ↦
                  inr
                    (subst (IsClosed ps (id ∷ xs)) same (unknown-IsClosed ps (id ∷ xs) id unknown))
              | inr old ↦ inl old
            ]))
    | inr (p, e) ↦ elim (Bool-cases (is_execution p.scope)) [
      | inl scoped ↦ rw (new, e, scoped) (reached id refl (here p e scoped))
      | inr plain ↦
          rw (new, e, plain)
            (mark-Answer ps xs id p _ e plain (
              any_dependency-Answer ps fuel (λ t v. reaches_execution_scope ps fuel t v)
                p.dependencies (id ∷ xs)
                (omega (
                  arith,
                  missing-cons (ids ps) xs id (Elem-of_Provided ps id (p, e))
                      (not-Elem-of_has id xs new),
                ))
                (λ t ys fits. search-Answer ps fuel t ys fits)))
    ]
  ]
]

-- Nothing outside a closed set is reached from inside it, and no provider in it is of execution scope.
closed-not-Leads :
    (ps : List Provider) (ys : List String) (t : String)
    → ((v : String) → Elem v ys → IsClosed ps ys v)
    → Elem t ys
    → ¬ Leads ps t
closed-not-Leads ps ys t c m (here p e scoped) = cc ((c t m).clean p e)
closed-not-Leads ps ys t c m (through p u e named l) =
    closed-not-Leads ps ys u c ((c t m).inside p u e named) l

-- What a search from an empty set tells of the id it starts from.
abbrev pub Tells : List Provider → String → Found → Type 0
Tells ps t hit = Leads ps t
Tells ps t (clear _) = ¬ Leads ps t
Tells ps t out_of_fuel = ⊥

Tells-of_Answer :
    (ps : List Provider) (t : String) (o : Found) → Answer ps [] (λ k. t ≡ k) o → Tells ps t o
Tells-of_Answer ps t o (reached u same l) = subst (Leads ps) (sym same) l
Tells-of_Answer ps t o (covered ys w g c) =
    closed-not-Leads ps ys t
      (λ v m. elim (c v m) [ inl none_old ↦ absurd none_old | inr closed ↦ closed ]) (g t refl)

pub search-Tells :
    (ps : List Provider) (t : String)
    → Tells ps t (reaches_execution_scope ps (suc (length ps)) t [])
search-Tells ps t =
    Tells-of_Answer ps t _
      (search-Answer ps (suc (length ps)) t [] (omega (arith, missing-nil (ids ps), length-ids ps)))
