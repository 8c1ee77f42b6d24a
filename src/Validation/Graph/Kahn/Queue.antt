-- ===== src/Validation/Graph/Kahn/Queue.antt =====
-- What one visit keeps of the traversal: the queue, the degrees and what is still to be counted.
use infra_artifact_ledger.Prelude.{
  ◌≤◌, ◌≡◌, refl, subst, inl, inr, false, List, [], ◌∷◌, ◌++◌, arith, eqb, ◌==◌, ==-sound, contains,
  contains-append, All, append_assoc, Bool-cases,
}
use infra_artifact_ledger.Text.{Text, text_eq}
use infra_artifact_ledger.Records.{Version}
use infra_artifact_ledger.Validation.Graph.Kahn.{Degrees, children, degree, decrement, relax}
use infra_artifact_ledger.Validation.Graph.Kahn.Counting.{
  count, IsDistinct, unseen, queued, degree-decrement, degree-decrement_self, degree-relax,
  unseen-visit,
}

-- Everything in the list has degree 0.
abbrev pub Finished : Degrees → List Text → Type 0
Finished d xs = All (λ i. degree i d ≡ 0) xs

pub Finished-append :
    (d : Degrees) (xs ys : List Text) → Finished d xs → Finished d ys → Finished d (xs ++ ys)
Finished-append d [] ys h k = k
Finished-append d (x ∷ xs) ys h k = (h.0, Finished-append d xs ys h.1 k)

pub Finished-decrement :
    (c : Text) (d : Degrees) (xs : List Text) → Finished d xs → Finished (decrement c d) xs
Finished-decrement c d [] h = tt
Finished-decrement c d (x ∷ xs) h =
    (ground (arith, degree-decrement x c d, h.0), Finished-decrement c d xs h.1)

-- What has a degree other than 0 is not among the finished.
pub not-Finished :
    (c : Text) (d : Degrees) (xs : List Text)
    → Finished d xs
    → degree c d ≡ 1
    → contains c xs ≡ false
not-Finished c d [] h e = refl
not-Finished c d (x ∷ xs) h e = elim (Bool-cases (c == x)) [
  | inl same ↦ absurd (omega (arith, h.0, subst (λ y. degree y d ≡ 1) (==-sound c x same) e))
  | inr other ↦ rw other (not-Finished c d xs h.1 e)
]

pub IsDistinct-snoc :
    (xs : List Text) (c : Text) → IsDistinct xs → contains c xs ≡ false → IsDistinct (xs ++ c ∷ [])
IsDistinct-snoc [] c h n = (refl, tt)
IsDistinct-snoc (x ∷ xs) c h n =
    (ground (arith, contains-append x xs (c ∷ []), h.0), IsDistinct-snoc xs c h.1 (ground arith))

-- The identities that were ever queued are distinct and finished, and stay so under `relax`.
pub record Queued (visited : List Text) (d : Degrees) (q : List Text) : Type 0 where
  pub distinct : IsDistinct (visited ++ q)
  pub finished : Finished d (visited ++ q)

pub Queued-step :
    (visited : List Text) (c : Text) (d : Degrees) (q : List Text)
    → Queued visited d q
    → Queued visited (decrement c d) (queued c d q)
Queued-step visited c d q h = elim (Bool-cases (eqb (degree c d) 1)) [
  | inl last ↦
      let one : degree c d ≡ 1 = ground arith in
      rw last (record {
        distinct = rw (← append_assoc) (
            IsDistinct-snoc (visited ++ q) c h.distinct
              (not-Finished c d (visited ++ q) h.finished one));
        finished = rw (← append_assoc) (
            Finished-append (decrement c d) (visited ++ q) (c ∷ [])
              (Finished-decrement c d (visited ++ q) h.finished)
              (omega (arith, degree-decrement_self c d), tt));
      })
  | inr more ↦ rw more (record {
    distinct = h.distinct;
    finished = Finished-decrement c d (visited ++ q) h.finished;
  })
]

pub Queued-relax :
    (visited cs : List Text) (d : Degrees) (q : List Text)
    → Queued visited d q
    → Queued visited (relax cs d q).0 (relax cs d q).1
unfolding relax
Queued-relax visited [] d q h = h
Queued-relax visited (c ∷ cs) d q h =
    Queued-relax visited cs (decrement c d) (queued c d q) (Queued-step visited c d q h)

-- Every version has at most its degree in parents that were not visited.
abbrev pub Counted : Degrees → List Text → List Version → Type 0
Counted d visited us = All (λ u. unseen u.parent_version_refs visited ≤ degree u.version_id d) us

pub Counted-visit :
    (vs us : List Version) (i : Text) (visited : List Text) (d : Degrees) (q : List Text)
    → contains i visited ≡ false
    → All (λ u. count u.version_id (children vs i) ≡ count i u.parent_version_refs) us
    → Counted d visited us
    → Counted (relax (children vs i) d q).0 (visited ++ i ∷ []) us
Counted-visit vs [] i visited d q new k h = tt
Counted-visit vs (u ∷ us) i visited d q new k h = (
  omega (
    arith,
    k.0,
    h.0,
    degree-relax u.version_id (children vs i) d q,
    unseen-visit i u.parent_version_refs visited new,
  ),
  Counted-visit vs us i visited d q new k.1 h.1,
)
