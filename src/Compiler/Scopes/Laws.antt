-- ===== src/Compiler/Scopes/Laws.antt =====
-- `assertScopeSafety` against reachability.
use doxajs.Base.{
  String, suc, true, false, none, some, List, [], ◌∷◌, ◌≡◌, ◌⊎◌, inl, inr, refl, sym, subst, length,
  Bool-cases, Option-cases,
}
use doxajs.Compiler.Manifest.{Provider, Dependency, target}
use doxajs.Compiler.Cycles.Graph.{Targets}
use doxajs.Compiler.Scopes.{
  Found, hit, clear, out_of_fuel, is_singleton, reaches_execution_scope, Safety, safe, unsafe,
  unfinished, and_then, after_search, check_dependencies, check_each, assert_scope_safety,
}
use doxajs.Compiler.Scopes.Search.{Leads, Tells, search-Tells}

abbrev pub Listed : Provider → List Provider → Type 0
Listed p [] = ⊥
Listed p (q ∷ qs) = (q ≡ p) ⊎ Listed p qs

-- Some listed singleton with the first id names the second, which leads to an execution scope.
pub record Offends (ps rest : List Provider) (id t : String) : Type 0 where
  pub owner : Provider
  pub listed : Listed owner rest
  pub identity : owner.id ≡ id
  pub single : is_singleton owner.scope ≡ true
  pub names : Targets t owner.dependencies
  pub leads : Leads ps t

abbrev pub Verdict : List Provider → List Provider → Safety → Type 0
Verdict ps rest safe =
    (p : Provider) (t : String)
    → Listed p rest
    → is_singleton p.scope ≡ true
    → Targets t p.dependencies
    → ¬ Leads ps t
Verdict ps rest (unsafe id t) = Offends ps rest id t
Verdict ps rest unfinished = ⊥

abbrev DependencyVerdict : List Provider → String → List Dependency → Safety → Type 0
DependencyVerdict ps id ds safe = (t : String) → Targets t ds → ¬ Leads ps t
DependencyVerdict ps id ds (unsafe i t) = (i ≡ id) × Targets t ds × Leads ps t
DependencyVerdict ps id ds unfinished = ⊥

after_search-Verdict :
    (ps : List Provider) (id : String) (d : Dependency) (ds : List Dependency) (t : String)
    (f : Found) (next : Safety)
    → target d ≡ some t
    → Tells ps t f
    → DependencyVerdict ps id ds next
    → DependencyVerdict ps id (d ∷ ds) (after_search id t f next)
after_search-Verdict ps id d ds t hit next e l v = (refl, inl e, l)
after_search-Verdict ps id d ds t (clear _) safe e clean v = λ u m. elim m [
  | inl named ↦ subst (λ k. ¬ Leads ps k) {x = t} {y = u} (cc) clean
  | inr later ↦ v u later
]
after_search-Verdict ps id d ds t (clear _) (unsafe i u) e clean (same, m, l) = (same, inr m, l)
after_search-Verdict ps id d ds t (clear _) unfinished e clean v = v
after_search-Verdict ps id d ds t out_of_fuel next e l v = absurd l

skip-Verdict :
    (ps : List Provider) (id : String) (d : Dependency) (ds : List Dependency) (next : Safety)
    → target d ≡ none
    → DependencyVerdict ps id ds next
    → DependencyVerdict ps id (d ∷ ds) next
skip-Verdict ps id d ds safe e v = λ u m. elim m [ inl named ↦ absurd (cc) | inr later ↦ v u later ]
skip-Verdict ps id d ds (unsafe i u) e (same, m, l) = (same, inr m, l)
skip-Verdict ps id d ds unfinished e v = v

check_dependencies-Verdict :
    (ps : List Provider) (id : String) (ds : List Dependency)
    → DependencyVerdict ps id ds (check_dependencies ps id ds)
unfolding check_dependencies
check_dependencies-Verdict ps id [] = λ t m. absurd m
check_dependencies-Verdict ps id (d ∷ ds) = elim (Option-cases (target d)) [
  | inl e ↦
      subst (DependencyVerdict ps id (d ∷ ds)) {x = check_dependencies ps id ds}
        (sym (rw (e, check_dependencies)))
        (skip-Verdict ps id d ds (check_dependencies ps id ds) e
          (check_dependencies-Verdict ps id ds))
  | inr (t, e) ↦
      subst (DependencyVerdict ps id (d ∷ ds))
        {x = after_search id t (reaches_execution_scope ps (suc (length ps)) t [])
          (check_dependencies ps id ds)}
        (sym (rw (e, check_dependencies)))
        (after_search-Verdict ps id d ds t _ (check_dependencies ps id ds) e (search-Tells ps t)
          (check_dependencies-Verdict ps id ds))
]

-- The verdict on one more provider, a singleton or not.
and_then-Verdict :
    (ps : List Provider) (p : Provider) (rest : List Provider) (own later : Safety)
    → is_singleton p.scope ≡ true
    → DependencyVerdict ps p.id p.dependencies own
    → Verdict ps rest later
    → Verdict ps (p ∷ rest) (and_then own later)
and_then-Verdict ps p rest safe safe single v w = λ q t l s m. elim l [
  | inl same ↦ v t (subst (λ (r : Provider). Targets t r.dependencies) (sym same) m)
  | inr behind ↦ w q t behind s m
]
and_then-Verdict ps p rest safe (unsafe i t) single v w = record {
  owner = w.owner;
  listed = inr w.listed;
  identity = w.identity;
  single = w.single;
  names = w.names;
  leads = w.leads;
}
and_then-Verdict ps p rest safe unfinished single v w = w
and_then-Verdict ps p rest (unsafe i t) later single (same, m, l) w = record {
  owner = p;
  listed = inl refl;
  identity = sym same;
  single = single;
  names = m;
  leads = l;
}
and_then-Verdict ps p rest unfinished later single v w = absurd v

pass-Verdict :
    (ps : List Provider) (p : Provider) (rest : List Provider) (later : Safety)
    → is_singleton p.scope ≡ false
    → Verdict ps rest later
    → Verdict ps (p ∷ rest) later
pass-Verdict ps p rest safe plain w = λ q t l s m. elim l [
  | inl same ↦ cc (subst (λ (r : Provider). is_singleton r.scope ≡ false) same plain)
  | inr behind ↦ w q t behind s m
]
pass-Verdict ps p rest (unsafe i t) plain w = record {
  owner = w.owner;
  listed = inr w.listed;
  identity = w.identity;
  single = w.single;
  names = w.names;
  leads = w.leads;
}
pass-Verdict ps p rest unfinished plain w = w

check_each-Verdict : (ps rest : List Provider) → Verdict ps rest (check_each ps rest)
unfolding check_each
check_each-Verdict ps [] = λ p t l s m. absurd l
check_each-Verdict ps (p ∷ rest) = elim (Bool-cases (is_singleton p.scope)) [
  | inl single ↦ rw single (
      and_then-Verdict ps p rest _ _ single (check_dependencies-Verdict ps p.id p.dependencies)
        (check_each-Verdict ps rest))
  | inr plain ↦ rw plain (pass-Verdict ps p rest _ plain (check_each-Verdict ps rest))
]

-- For every list of providers the check has a verdict: if it is `safe`, no dependency of a listed
-- singleton leads to a provider of execution scope; if it is `unsafe id t`, some listed singleton
-- has the identity `id`, names `t` as a dependency, and `t` leads to a provider of execution scope.
pub assert_scope_safety-Verdict : (ps : List Provider) → Verdict ps ps (assert_scope_safety ps)
unfolding assert_scope_safety
assert_scope_safety-Verdict ps = check_each-Verdict ps ps
