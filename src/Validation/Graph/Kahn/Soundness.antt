-- ===== src/Validation/Graph/Kahn/Soundness.antt =====
-- A traversal that visits every version shows that the parent relation is well founded.
use mathlib.Core.WellFounded.{Acc}
use infra_artifact_ledger.Prelude.{
  ℕ, zero, suc, ◌+◌, ◌≡◌, refl, sym, subst, ◌⊎◌, inl, inr, true, false, List, [], ◌∷◌, ◌++◌, some,
  arith, eqb, ◌==◌, ==-sound, ==-refl, length, contains, contains-append, All, append_assoc,
  Bool-cases,
}
use infra_artifact_ledger.Text.{Text, text_eq}
use infra_artifact_ledger.Records.{Version}
use infra_artifact_ledger.Validation.Graph.Kahn.{
  Degrees, children, initial, degree, roots, relax, visit, visited_count,
}
use infra_artifact_ledger.Validation.Graph.Kahn.Termination.{
  zeros, zeros-le-length, zeros-relax, length-relax, length-roots,
}
use infra_artifact_ledger.Validation.Graph.Kahn.Counting.{
  IsDistinct, version_ids, unseen, children-count,
}
use infra_artifact_ledger.Validation.Graph.Kahn.Queue.{
  Finished, Queued, Queued-relax, Counted, Counted-visit,
}

abbrev pub In : Text → List Text → Type 0
In p [] = ⊥
In p (q ∷ qs) = (q ≡ p) ⊎ In p qs

-- `p` is a parent of a version with the identity `i`.
abbrev pub Parent : List Version → Text → Text → Type 0
Parent [] p i = ⊥
Parent (v ∷ vs) p i = ((v.version_id ≡ i) × In p v.parent_version_refs) ⊎ Parent vs p i

seen :
    (p : Text) (ps visited : List Text)
    → unseen ps visited ≡ 0
    → In p ps
    → contains p visited ≡ true
seen p (q ∷ ps) visited h (inl e) = rw (← e) (ground arith)
seen p (q ∷ ps) visited h (inr m) = seen p ps visited (ground arith) m
seen p [] visited h m = absurd m

module _ (vs : List Version) where
  abbrev Grounded : List Text → Type 0
  Grounded xs = All (Acc (Parent vs)) xs

  Grounded-mem :
      (p : Text) (xs : List Text) → Grounded xs → contains p xs ≡ true → Acc (Parent vs) p
  Grounded-mem p [] g h = cc
  Grounded-mem p (x ∷ xs) g h = elim (Bool-cases (p == x)) [
    | inl same ↦ subst (Acc (Parent vs)) (sym (==-sound p x same)) g.0
    | inr other ↦ Grounded-mem p xs g.1 (ground arith)
  ]

  -- The parents of a version of degree 0 have been visited.
  Parent-seen :
      (p i : Text) (visited : List Text) (d : Degrees) (us : List Version)
      → degree i d ≡ 0
      → Counted d visited us
      → Parent us p i
      → contains p visited ≡ true
  Parent-seen p i visited d (u ∷ us) z k (inl (e, m)) =
      seen p u.parent_version_refs visited
        (omega (arith, k.0, subst (λ j. degree j d ≡ 0) (sym e) z)) m
  Parent-seen p i visited d (u ∷ us) z k (inr m) = Parent-seen p i visited d us z k.1 m
  Parent-seen p i visited d [] z k m = absurd m

  grounded :
      (i : Text) (visited : List Text) (d : Degrees)
      → degree i d ≡ 0
      → Counted d visited vs
      → Grounded visited
      → Acc (Parent vs) i
  grounded i visited d z k g =
      Acc.intro i λ p m. Grounded-mem p visited g (Parent-seen p i visited d vs z k m)

distinct_head :
    (visited q : List Text) (i : Text) → IsDistinct (visited ++ i ∷ q) → contains i visited ≡ false
distinct_head [] q i h = refl
distinct_head (x ∷ xs) q i h = elim (Bool-cases (i == x)) [
  | inl same ↦ absurd (subst (λ b. elim b [ true ↦ ⊥ | false ↦ Unit {0} ]) (sym (listed same)) tt)
  | inr other ↦ rw other (distinct_head xs q i h.1)
]
  where
    listed : (i == x) ≡ true → true ≡ false
    listed same = ground (arith, h.0, contains-append x xs (i ∷ q), ==-sound i x same)

Finished-last :
    (d : Degrees) (visited q : List Text) (i : Text)
    → Finished d (visited ++ i ∷ q)
    → degree i d ≡ 0
Finished-last d [] q i h = h.0
Finished-last d (x ∷ xs) q i h = Finished-last d xs q i h.1

Grounded-snoc :
    (vs : List Version) (xs : List Text) (i : Text)
    → All (Acc (Parent vs)) xs
    → Acc (Parent vs) i
    → All (Acc (Parent vs)) (xs ++ i ∷ [])
Grounded-snoc vs [] i g a = (a, tt)
Grounded-snoc vs (x ∷ xs) i g a = (g.0, Grounded-snoc vs xs i g.1 a)

-- What is known when the queue is empty.
record Done (vs : List Version) (size n : ℕ) : Type 0 where
  degrees : Degrees
  visited : List Text
  counted : Counted degrees visited vs
  known : Grounded vs visited
  all_counted : n ≡ zeros degrees
  whole : length degrees ≡ size

visit-Done :
    (vs : List Version) (fuel : ℕ) (d : Degrees) (q visited : List Text) (k n : ℕ)
    → IsDistinct (version_ids vs)
    → Queued visited d q
    → Counted d visited vs
    → Grounded vs visited
    → k + length q ≡ zeros d
    → visit vs fuel d q k ≡ some n
    → Done vs (length d) n
unfolding visit
visit-Done vs fuel d [] visited k n ids h c g z e = record {
  degrees = d;
  visited = visited;
  counted = c;
  known = g;
  all_counted = ground arith;
  whole = refl;
}
visit-Done vs zero d (i ∷ q) visited k n ids h c g z e = cc
visit-Done vs (suc fuel) d (i ∷ q) visited k n ids h c g z e =
    let after = relax (children vs i) d q in
    let rest : Done vs (length after.0) n =
      visit-Done vs fuel after.0 after.1 (visited ++ i ∷ []) (k + 1) n ids
        (Queued-relax (visited ++ i ∷ []) (children vs i) d q
          (record { distinct = rw append_assoc h.distinct; finished = rw append_assoc h.finished }))
        (Counted-visit vs vs i visited d q (distinct_head visited q i h.distinct)
          (children-count i vs ids) c)
        (Grounded-snoc vs visited i g
          (grounded vs i visited d (Finished-last d visited q i h.finished) c g))
        (omega (arith, zeros-relax (children vs i) d q)) e in
    subst (λ size. Done vs size n) (length-relax (children vs i) d q) rest

degree-zeros : (i : Text) (d : Degrees) → zeros d ≡ length d → degree i d ≡ 0
unfolding degree
degree-zeros i [] h = refl
degree-zeros i ((j, zero) ∷ d) h = ground (arith, degree-zeros i d)
degree-zeros i ((j, suc n) ∷ d) h = absurd (omega (arith, zeros-le-length d))

contains-roots :
    (x : Text) (vs : List Version)
    → contains x (version_ids vs) ≡ false
    → contains x (roots (initial vs)) ≡ false
contains-roots x [] h = refl
contains-roots x (v ∷ vs) h = ground (arith, contains-roots x vs)

Finished-cons :
    (j : Text) (n : ℕ) (d : Degrees) (xs : List Text)
    → contains j xs ≡ false
    → Finished d xs
    → Finished ((j, n) ∷ d) xs
unfolding degree
Finished-cons j n d [] h f = tt
Finished-cons j n d (x ∷ xs) h f = (ground (arith, f.0), Finished-cons j n d xs (ground arith) f.1)

Queued-initial :
    (vs : List Version) → IsDistinct (version_ids vs) → Queued [] (initial vs) (roots (initial vs))
unfolding degree
Queued-initial [] h = record { distinct = tt; finished = tt }
Queued-initial (v ∷ vs) h = at_degree (length v.parent_version_refs) (Queued-initial vs h.1)
  where
    new : contains v.version_id (roots (initial vs)) ≡ false
    new = contains-roots v.version_id vs h.0

    at_degree :
        (n : ℕ)
        → Queued [] (initial vs) (roots (initial vs))
        → Queued [] ((v.version_id, n) ∷ initial vs) (roots ((v.version_id, n) ∷ initial vs))
    at_degree zero q = record {
      distinct = (new, q.distinct);
      finished = (
        ground (arith, ==-refl v.version_id),
        Finished-cons v.version_id zero (initial vs) (roots (initial vs)) new q.finished,
      );
    }
    at_degree (suc n) q =
        let busy : eqb (suc n) 0 ≡ false = ground arith in
        record {
          distinct = rw busy q.distinct;
          finished =
              rw busy (
                Finished-cons v.version_id (suc n) (initial vs) (roots (initial vs)) new
                  q.finished);
        }

unseen_none : (ps : List Text) → unseen ps [] ≡ length ps
unseen_none [] = refl
unseen_none (p ∷ ps) = omega (arith, unseen_none ps)

Counted-cons :
    (w : Version) (d : Degrees) (n : ℕ) (us : List Version)
    → contains w.version_id (version_ids us) ≡ false
    → Counted d [] us
    → Counted ((w.version_id, n) ∷ d) [] us
unfolding degree
Counted-cons w d n [] h c = tt
Counted-cons w d n (u ∷ us) h c = (ground (arith, c.0), Counted-cons w d n us (ground arith) c.1)

Counted-initial : (vs : List Version) → IsDistinct (version_ids vs) → Counted (initial vs) [] vs
unfolding degree
Counted-initial [] h = tt
Counted-initial (v ∷ vs) h = (
  ground (arith, unseen_none v.parent_version_refs, ==-refl v.version_id),
  Counted-cons v (initial vs) (length v.parent_version_refs) vs h.0 (Counted-initial vs h.1),
)

length-initial : (vs : List Version) → length (initial vs) ≡ length vs
length-initial [] = refl
length-initial (v ∷ vs) = omega (arith, length-initial vs)

-- If the traversal counts every version, and no two versions have one identity, the parent relation
-- is well founded: no chain of parents goes on for ever, and so there is no cycle.
pub visited_count-Acc :
    (vs : List Version)
    → IsDistinct (version_ids vs)
    → visited_count vs ≡ some (length vs)
    → (i : Text) → Acc (Parent vs) i
unfolding visited_count
visited_count-Acc vs ids e i =
    let done : Done vs (length (initial vs)) (length vs) =
      visit-Done vs (length vs) (initial vs) (roots (initial vs)) [] 0 (length vs) ids
        (Queued-initial vs ids) (Counted-initial vs ids) tt
        (omega (arith, length-roots (initial vs))) e in
    grounded vs i done.visited done.degrees
      (degree-zeros i done.degrees (omega (arith, done.all_counted, done.whole, length-initial vs)))
      done.counted done.known
