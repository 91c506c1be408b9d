-- ===== src/Graph/Order/Spec.antt =====
-- What an order of the nodes is to satisfy, independently of how it is found.
use mathlib.Core.List.{append_assoc, append-nil}
use zerochain.Prelude.{◌≡◌, refl, true, false, List, [], ◌∷◌, ◌++◌, All, arith, nat_eq_instance}
use zerochain.HashMap.{contains, contains-append}
use zerochain.Graph.{WorkflowGraph, NodeId, deps_of}

-- No member occurs twice.
abbrev pub Distinct : List NodeId → Type 0
Distinct [] = Unit
Distinct (x ∷ xs) = (contains x xs ≡ false) × Distinct xs

-- Every dependency of a member is in `seen` or stands before the member.
abbrev pub IsOrdered : WorkflowGraph → List NodeId → List NodeId → Type 0
IsOrdered g seen [] = Unit
IsOrdered g seen (x ∷ xs) =
    All (λ d. contains d seen ≡ true) (deps_of g x) × IsOrdered g (seen ++ x ∷ []) xs

-- A path of one or more dependency edges.
pub data Leads (g : WorkflowGraph) : NodeId → NodeId → Type 0 where
  edge : {a b : NodeId} → contains b (deps_of g a) ≡ true → Leads g a b
  next : {a b c : NodeId} → Leads g a b → contains c (deps_of g b) ≡ true → Leads g a c

pub Distinct-snoc :
    (xs : List NodeId) (x : NodeId) → Distinct xs → contains x xs ≡ false → Distinct (xs ++ x ∷ [])
Distinct-snoc [] x d h = (refl, tt)
Distinct-snoc (y ∷ ys) x d h =
    (ground (arith, contains-append y ys (x ∷ []), d.0), Distinct-snoc ys x d.1 (ground arith))

pub IsOrdered-snoc :
    (g : WorkflowGraph) (seen xs : List NodeId) (x : NodeId)
    → IsOrdered g seen xs
    → All (λ d. contains d (seen ++ xs) ≡ true) (deps_of g x)
    → IsOrdered g seen (xs ++ x ∷ [])
IsOrdered-snoc g seen [] x o h = (rw append-nil at h, tt)
IsOrdered-snoc g seen (y ∷ ys) x o h =
    (o.0, IsOrdered-snoc g (seen ++ y ∷ []) ys x o.1 (rw append_assoc h))
