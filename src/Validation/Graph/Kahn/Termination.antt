-- ===== src/Validation/Graph/Kahn/Termination.antt =====
-- The traversal ends within its fuel: what was ever queued is what has degree 0.
use infra_artifact_ledger.Prelude.{
  ℕ, zero, suc, ◌+◌, ◌≤◌, ◌≡◌, refl, List, [], ◌∷◌, ◌++◌, some, arith, eqb, length, length-append,
  if◌then◌else◌,
}
use infra_artifact_ledger.Text.{Text, text_eq}
use infra_artifact_ledger.Records.{Version}
use infra_artifact_ledger.Validation.Graph.Kahn.{
  Degrees, children, initial, degree, decrement, roots, relax, visit, visited_count,
}

-- The number of entries of degree 0.
abbrev pub zeros : Degrees → ℕ
zeros [] = 0
zeros ((j, zero) ∷ d) = suc (zeros d)
zeros ((j, suc n) ∷ d) = zeros d

pub zeros-le-length : (d : Degrees) → zeros d ≤ length d
zeros-le-length [] = omega arith
zeros-le-length ((j, zero) ∷ d) = omega (arith, zeros-le-length d)
zeros-le-length ((j, suc n) ∷ d) = omega (arith, zeros-le-length d)

-- A decrement makes one more entry 0 exactly when the degree was 1.
zeros-decrement :
    (c : Text) (d : Degrees)
    → zeros (decrement c d) ≡ (if eqb (degree c d) 1 then suc (zeros d) else zeros d)
unfolding decrement degree
zeros-decrement c [] = refl
zeros-decrement c ((j, zero) ∷ d) = ground (arith, zeros-decrement c d)
zeros-decrement c ((j, suc zero) ∷ d) = ground (arith, zeros-decrement c d)
zeros-decrement c ((j, suc (suc n)) ∷ d) = ground (arith, zeros-decrement c d)

pub length-decrement : (c : Text) (d : Degrees) → length (decrement c d) ≡ length d
unfolding decrement
length-decrement c [] = refl
length-decrement c ((j, n) ∷ d) = ground (arith, length-decrement c d)

pub length-relax :
    (cs : List Text) (d : Degrees) (q : List Text) → length (relax cs d q).0 ≡ length d
unfolding relax
length-relax [] d q = refl
length-relax (c ∷ cs) d q = omega (arith, length-relax cs (decrement c d) _, length-decrement c d)

-- The queue grows by the entries that have become 0.
pub zeros-relax :
    (cs : List Text) (d : Degrees) (q : List Text)
    → length (relax cs d q).1 + zeros d ≡ zeros (relax cs d q).0 + length q
unfolding relax
zeros-relax [] d q = omega arith
zeros-relax (c ∷ cs) d q = ground (
  arith,
  zeros-relax cs (decrement c d) q,
  zeros-relax cs (decrement c d) (q ++ c ∷ []),
  zeros-decrement c d,
  length-append q (c ∷ []),
)

visit-some :
    (vs : List Version) (fuel : ℕ) (d : Degrees) (q : List Text) (visited : ℕ)
    → visited + length q ≡ zeros d
    → visited + fuel ≡ length d
    → (n : ℕ) × (visit vs fuel d q visited ≡ some n) × (n ≤ length d)
unfolding visit
visit-some vs fuel d [] visited z f = (visited, refl, omega arith)
visit-some vs zero d (i ∷ q) visited z f = absurd (omega (arith, zeros-le-length d))
visit-some vs (suc fuel) d (i ∷ q) visited z f =
    let (n, e, b) =
      visit-some vs fuel (relax (children vs i) d q).0 (relax (children vs i) d q).1 (visited + 1)
        (omega (arith, zeros-relax (children vs i) d q))
        (omega (arith, length-relax (children vs i) d q)) in
    (n, e, omega (arith, length-relax (children vs i) d q))

length-initial : (vs : List Version) → length (initial vs) ≡ length vs
length-initial [] = refl
length-initial (v ∷ vs) = omega (arith, length-initial vs)

pub length-roots : (d : Degrees) → length (roots d) ≡ zeros d
length-roots [] = refl
length-roots ((j, zero) ∷ d) = omega (arith, length-roots d)
length-roots ((j, suc n) ∷ d) = ground (arith, length-roots d)

-- For every list of versions, whatever its parents, the traversal ends, and it visits no more than
-- all of them.
pub visited_count-some :
    (vs : List Version) → (n : ℕ) × (visited_count vs ≡ some n) × (n ≤ length vs)
unfolding visited_count
visited_count-some vs =
    let (n, e, b) =
      visit-some vs (length vs) (initial vs) (roots (initial vs)) 0
        (omega (arith, length-roots (initial vs))) (omega (arith, length-initial vs)) in
    (n, e, omega (arith, length-initial vs))
