-- ===== src/Compiler/Cycles/Walks.antt =====
-- Paths through the provider graph, as the walk carries them.
use doxajs.Base.{String, List, [], ◌∷◌, ◌++◌, ◌≡◌, refl, Elem, inl, inr, subst, sym}
use doxajs.Compiler.Manifest.{Provider}
use doxajs.Compiler.Cycles.Graph.{Edge, Reaches, one, more}

abbrev pub first : List String → String → String
first [] x = x
first (a ∷ cs) x = a

-- Each id of the list has an edge to the one behind it, and the last one to `x`.
abbrev pub Walk : List Provider → List String → String → Type 0
Walk ps [] x = Unit
Walk ps (a ∷ cs) x = Edge ps a (first cs x) × Walk ps cs x

first-append : (cs : List String) (x t : String) → first (cs ++ x ∷ []) t ≡ first cs x
first-append [] x t = refl
first-append (a ∷ cs) x t = refl

pub Walk-append :
    (ps : List Provider) (cs : List String) (x t : String)
    → Walk ps cs x
    → Edge ps x t
    → Walk ps (cs ++ x ∷ []) t
Walk-append ps [] x t w e = (e, tt)
Walk-append ps (a ∷ cs) x t (step, w) e =
    (subst (Edge ps a) (sym (first-append cs x t)) step, Walk-append ps cs x t w e)

Reaches-of_head :
    (ps : List Provider) (a : String) (cs : List String) (x : String)
    → Walk ps (a ∷ cs) x
    → Reaches ps a x
Reaches-of_head ps a [] x (step, w) = one step
Reaches-of_head ps a (b ∷ bs) x (step, w) = more b step (Reaches-of_head ps b bs x w)

pub Reaches-of_Walk :
    (ps : List Provider) (cs : List String) (x v : String)
    → Walk ps cs x
    → Elem v cs
    → Reaches ps v x
Reaches-of_Walk ps [] x v w m = elim m [ ]
Reaches-of_Walk ps (a ∷ cs) x v w (inl e) =
    subst (λ k. Reaches ps k x) e (Reaches-of_head ps a cs x w)
Reaches-of_Walk ps (a ∷ cs) x v (step, w) (inr m) = Reaches-of_Walk ps cs x v w m

pub Elem-append : (k : String) (cs : List String) (x : String) → Elem k cs → Elem k (cs ++ x ∷ [])
Elem-append k [] x m = elim m [ ]
Elem-append k (a ∷ cs) x (inl e) = inl e
Elem-append k (a ∷ cs) x (inr m) = inr (Elem-append k cs x m)

pub Elem-append_self : (cs : List String) (x : String) → Elem x (cs ++ x ∷ [])
Elem-append_self [] x = inl refl
Elem-append_self (a ∷ cs) x = inr (Elem-append_self cs x)

-- A path that the error prints: a walk that ends in an id which it has met.
pub record IsCycle (ps : List Provider) (path : List String) : Type 0 where
  pub before : List String
  pub last : String
  pub split : path ≡ before ++ last ∷ []
  pub walk : Walk ps before last
  pub met : Elem last before
