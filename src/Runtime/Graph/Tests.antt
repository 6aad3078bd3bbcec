-- ===== src/Runtime/Graph/Tests.antt =====
-- A database that needs a pool and the logger, and two providers that need each other.
use doxajs.Base.{
  String, true, false, none, some, List, [], ◌∷◌, ◌≡◌, inl, inr, refl, sym, ap, ◌∙◌, str_eq, eq_iff,
  Among, of_some, subst, if-cases, Option-cases, has, if◌then◌else◌,
}
use doxajs.Compiler.Manifest.{
  Provider, Dependency, by_constructor, service, singleton, by_id, target,
}
use doxajs.Compiler.Cycles.Graph.{Targets}
use doxajs.Runtime.Graph.{
  Parts, State, done, failed, cyclic, participant, constructed, lookup, provided, unknown,
  constructor_dependencies, construct_singleton_graph,
}
use doxajs.Runtime.Graph.Order.{Depends, uses, then_uses, IsOrdered, ids_of, used}
use doxajs.Runtime.Graph.Lookups.{by_id-lookup}
use doxajs.Runtime.Graph.Laws.{
  Verdict, Complete, construct_singleton_graph-Verdict, construct_singleton_graph-done,
}

abbrev on : String → Dependency
on id = record { kind = by_constructor; token = id; target_id = some id; optional = false }

abbrev provides : String → List Dependency → Provider
provides id ds = record {
  id = id;
  name = id;
  role = service;
  scope = singleton;
  capabilities = [];
  dependencies = ds;
}

abbrev database : Provider
database = provides "database" (on "pool" ∷ [])

abbrev pool : Provider
pool = provides "pool" []

abbrev parts_of : List Provider → Parts
parts_of ps = record {
  providers = ps;
  overrides = [];
  configurations = [];
  included = none;
  has_constructor = λ id. true;
  throws = λ id args. false;
}

abbrev parts : Parts
parts = parts_of (database ∷ pool ∷ [])

abbrev built : State
built = record {
  participants = participant "database" (constructed 1) ∷ participant "pool" (constructed 0) ∷ [];
  calls =
      record { id = "database"; arguments = some (constructed 0) ∷ [] }
      ∷ record { id = "pool"; arguments = [] }
      ∷ [];
  stack = [];
}

pool_comes_first : construct_singleton_graph parts (database ∷ pool ∷ []) ≡ done tt built
unfolding construct_singleton_graph
pool_comes_first = refl

abbrev ring : List Provider
ring = provides "a" (on "b" ∷ []) ∷ provides "b" (on "a" ∷ []) ∷ []

ring_is_refused : construct_singleton_graph (parts_of ring) ring ≡ failed (cyclic "a")
unfolding construct_singleton_graph
ring_is_refused = refl

construct_singleton_graph-Verdict_example :
    Verdict parts (database ∷ pool ∷ []) (construct_singleton_graph parts (database ∷ pool ∷ []))
construct_singleton_graph-Verdict_example =
    construct_singleton_graph-Verdict parts (database ∷ pool ∷ [])

by_id-Among :
    (ps : List Provider) (id : String) (q : Provider)
    → by_id ps id ≡ some q
    → Among q ps × (q.id ≡ id)
unfolding by_id
by_id-Among [] id q e = absurd (cc)
by_id-Among (p ∷ ps) id q e = elim (Option-cases (by_id ps id)) [
  | inr (r, found) ↦ let (m, n) = by_id-Among ps id q (found ∙ (rw found at e)) in (inr m, n)
  | inl missing ↦ at_first (rw missing at e)
]
  where
    at_first : (if str_eq p.id id then some p else none) ≡ some q → Among q (p ∷ ps) × (q.id ≡ id)
    at_first =
        if-cases (λ o. o ≡ some q → Among q (p ∷ ps) × (q.id ≡ id)) (str_eq p.id id) _ _
          (λ same h.
            let p_is_q : p ≡ q = of_some h in
            (inl p_is_q, subst (λ (r : Provider). r.id ≡ id) p_is_q ((eq_iff p.id id).0 same)))
          (λ _ h. absurd (cc))

-- The only dependency is that of the database on the pool.
edge :
    (a b : String) (p : Provider)
    → lookup parts a ≡ provided p
    → Targets b (used parts a p)
    → (a ≡ "database") × (b ≡ "pool")
unfolding constructor_dependencies target has
edge a b p e m =
    let (among, named) = by_id-Among parts.providers a p (by_id-lookup parts a p e) in
    elim among [
      | inl is_database ↦
          (sym named ∙ ap (λ (r : Provider). r.id) (sym is_database), target_of is_database)
      | inr (inl is_pool) ↦
          absurd (subst (λ (r : Provider). Targets b (used parts a r)) (sym is_pool) m)
      | inr (inr nothing) ↦ absurd nothing
    ]
  where
    target_of : database ≡ p → b ≡ "pool"
    target_of same = elim (subst (λ (r : Provider). Targets b (used parts a r)) (sym same) m) [
      | inl t ↦ sym (of_some t)
      | inr nothing ↦ absurd nothing
    ]

database_to_pool : (a b : String) → Depends parts a b → (a ≡ "database") × (b ≡ "pool")
database_to_pool a b (uses p e m) = edge a b p e m
database_to_pool a b (then_uses c p d e m) = ((database_to_pool a c d).0, (edge c b p e m).1)

construct_singleton_graph-done_example :
    (s : State) × (construct_singleton_graph parts (database ∷ pool ∷ []) ≡ done tt s)
    × IsOrdered parts s
    × Complete parts (database ∷ pool ∷ []) (ids_of s.participants)
unfolding lookup by_id has
construct_singleton_graph-done_example =
    construct_singleton_graph-done parts (database ∷ pool ∷ []) (λ id m. absurd m) (λ id p e. refl)
      (λ id args. refl)
      (λ id d.
        let (a, b) = database_to_pool id id d in
        absurd (cc ((eq_iff "database" "pool").1 (sym a ∙ b))))
      (λ id t p e m n. cc (subst (λ k. lookup parts k ≡ unknown) (edge id t p e m).1 n))
