-- ===== src/Compiler/Cycles/Laws.antt =====
-- The walk accepts exactly the acyclic graphs, and its error names a cycle.
use doxajs.Base.{String, List, [], ◌∷◌, inl, inr, sym, subst, Elem}
use doxajs.Compiler.Manifest.{Provider}
use doxajs.Compiler.Cycles.{Outcome, done, cycle, out_of_fuel, assert_acyclic_provider_graph}
use doxajs.Compiler.Cycles.Graph.{Provided, Edge, Reaches, one, more, ids, Elem-of_Provided}
use doxajs.Compiler.Cycles.Walks.{IsCycle}
use doxajs.Compiler.Cycles.Invariant.{IsOrdered, Result, finished, found}
use doxajs.Compiler.Cycles.Calls.{unmarked, assert-Result}

-- In an ordered list every edge leads to a later id.
ordered-Edge :
    (ps : List Provider) (vs : List String) (a b : String)
    → IsOrdered ps vs
    → Elem a vs
    → Edge ps a b
    → Elem b vs
ordered-Edge ps [] a b o m e = elim m [ ]
ordered-Edge ps (v ∷ vs) a b o (inl same) e = inr (o.1 b (subst (λ k. Edge ps k b) (sym same) e))
ordered-Edge ps (v ∷ vs) a b o (inr m) e = inr (ordered-Edge ps vs a b o.2 m e)

ordered-Reaches :
    (ps : List Provider) (vs : List String) (a b : String)
    → IsOrdered ps vs
    → Elem a vs
    → Reaches ps a b
    → Elem b vs
ordered-Reaches ps vs a b o m (one e) = ordered-Edge ps vs a b o m e
ordered-Reaches ps vs a b o m (more c e r) =
    ordered-Reaches ps vs c b o (ordered-Edge ps vs a c o m e) r

behind_head :
    (ps : List Provider) (v b : String) (vs : List String)
    → IsOrdered ps (v ∷ vs)
    → Reaches ps v b
    → Elem b vs
behind_head ps v b vs o (one e) = o.1 b e
behind_head ps v b vs o (more c e r) = ordered-Reaches ps vs c b o.2 (o.1 c e) r

ordered-acyclic :
    (ps : List Provider) (vs : List String) (a : String)
    → IsOrdered ps vs
    → Elem a vs
    → ¬ Reaches ps a a
ordered-acyclic ps [] a o m r = elim m [ ]
ordered-acyclic ps (v ∷ vs) a o (inl same) r =
    o.0 (behind_head ps v v vs o (subst (λ k. Reaches ps k k) (sym same) r))
ordered-acyclic ps (v ∷ vs) a o (inr m) r = ordered-acyclic ps vs a o.2 m r

Reaches-Provided : (ps : List Provider) (a b : String) → Reaches ps a b → Provided ps a
Reaches-Provided ps a b (one e) = (e.owner, e.found)
Reaches-Provided ps a b (more c e r) = (e.owner, e.found)

-- The walk ends, and it is accepted with no id that reaches itself, or refused with a path along
-- dependencies that comes back to an id which it has met.
abbrev pub Verdict : List Provider → Outcome → Type 0
Verdict ps (done m) = (a : String) → ¬ Reaches ps a a
Verdict ps (cycle path) = IsCycle ps path
Verdict ps out_of_fuel = ⊥

Verdict-of_Result :
    (ps : List Provider) (o : Outcome) → Result ps unmarked (λ k. Elem k (ids ps)) o → Verdict ps o
Verdict-of_Result ps o (found path c) = c
Verdict-of_Result ps o (finished n v s w g) = λ a r.
    ordered-acyclic ps n.visited a s.ordered
      (g a (Elem-of_Provided ps a (Reaches-Provided ps a a r))) r

-- For every list of providers, `assert_acyclic_provider_graph` has a verdict within its fuel:
-- if it accepts, no provider depends on itself by one or more known dependencies; if it refuses,
-- the path of its error follows known dependencies and ends at an id that it has met before.
pub assert_acyclic-Verdict : (ps : List Provider) → Verdict ps (assert_acyclic_provider_graph ps)
assert_acyclic-Verdict ps = Verdict-of_Result ps _ (assert-Result ps)
