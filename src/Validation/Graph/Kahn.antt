-- ===== src/Validation/Graph/Kahn.antt =====
-- The traversal of the parent graph in `validate_metadata`: a queue of versions whose parents have
-- all been visited.
pub mod Termination
pub mod Counting
pub mod Queue
pub mod Soundness
use infra_artifact_ledger.Prelude.{
  ℕ, zero, suc, ◌+◌, ◌-◌, ◌≡◌, Bool, true, false, List, [], ◌∷◌, ◌++◌, map, Option, some, none, eqb,
  ◌==◌, if◌then◌else◌, length,
}
use infra_artifact_ledger.Text.{Text, text_eq}
use infra_artifact_ledger.Records.{Version}

-- `children[identity]`: a version appears once for each time that it lists the parent.
abbrev pub children_in : Text → Text → List Text → List Text
children_in p child [] = []
children_in p child (q ∷ qs) =
    let rest = children_in p child qs in if q == p then child ∷ rest else rest

unfoldable pub children : List Version → Text → List Text
children [] p = []
children (v ∷ vs) p = children_in p v.version_id v.parent_version_refs ++ children vs p

-- `indegree`
abbrev pub Degrees : Type 0
Degrees = List (Text × ℕ)

abbrev pub initial : List Version → Degrees
initial [] = []
initial (v ∷ vs) = (v.version_id, length v.parent_version_refs) ∷ initial vs

unfoldable pub degree : Text → Degrees → ℕ
degree i [] = 0
degree i ((j, n) ∷ d) = if j == i then n else degree i d

-- `indegree[child] -= 1`
unfoldable pub decrement : Text → Degrees → Degrees
decrement i [] = []
decrement i ((j, n) ∷ d) = if j == i then (j, n - 1) ∷ d else (j, n) ∷ decrement i d

-- The identities of degree 0, in order.
abbrev pub roots : Degrees → List Text
roots [] = []
roots ((j, n) ∷ d) = let rest = roots d in if eqb n 0 then j ∷ rest else rest

-- The inner loop, over the children of one version. A degree gets to 0 from 1: at 0 the source
-- would go on below it, and never come back to 0.
unfoldable pub relax : List Text → Degrees → List Text → Degrees × List Text
unfolding degree decrement
relax [] d queue = (d, queue)
relax (c ∷ cs) d queue =
    relax cs (decrement c d) (if eqb (degree c d) 1 then queue ++ c ∷ [] else queue)

-- The outer loop; `none` means that the fuel ran out.
unfoldable pub visit : List Version → ℕ → Degrees → List Text → ℕ → Option ℕ
unfolding relax children
visit vs fuel d [] visited = some visited
visit vs zero d (i ∷ queue) visited = none
visit vs (suc fuel) d (i ∷ queue) visited =
    let (d', queue') = relax (children vs i) d queue in visit vs fuel d' queue' (visited + 1)

unfoldable pub visited_count : List Version → Option ℕ
unfolding visit
visited_count vs = visit vs (length vs) (initial vs) (roots (initial vs)) 0
