-- ===== src/Validation/Graph/Kahn/Counting.antt =====
-- Occurrences, distinct identities and the degrees under `relax`.
use infra_artifact_ledger.Prelude.{
  ℕ, suc, ◌+◌, ◌-◌, ◌≡◌, refl, true, false, List, [], ◌∷◌, ◌++◌, map, arith, eqb, ◌==◌,
  if◌then◌else◌, contains, contains-append, All, Bool-cases, inl, inr, ==-sound, subst, ap, ◌∙◌,
}
use infra_artifact_ledger.Text.{Text, text_eq}
use infra_artifact_ledger.Records.{Version}
use infra_artifact_ledger.Validation.Graph.Kahn.{
  Degrees, children_in, children, degree, decrement, relax,
}

abbrev pub count : Text → List Text → ℕ
count x [] = 0
count x (y ∷ ys) = if y == x then suc (count x ys) else count x ys

-- No element occurs twice.
abbrev pub IsDistinct : List Text → Type 0
IsDistinct [] = Unit
IsDistinct (x ∷ xs) = (contains x xs ≡ false) × IsDistinct xs

abbrev pub version_ids : List Version → List Text
version_ids vs = map (λ v. v.version_id) vs

-- The parents that have not been visited.
abbrev pub unseen : List Text → List Text → ℕ
unseen [] visited = 0
unseen (p ∷ ps) visited = if contains p visited then unseen ps visited else suc (unseen ps visited)

pub degree-decrement_self : (c : Text) (d : Degrees) → degree c (decrement c d) ≡ degree c d - 1
unfolding degree decrement
degree-decrement_self c [] = omega arith
degree-decrement_self c ((j, n) ∷ d) = elim (Bool-cases (j == c)) [
  | inl same ↦ rw (same, same) refl
  | inr other ↦ rw (other, other) (degree-decrement_self c d)
]

degree-decrement_ne :
    (x c : Text) (d : Degrees) → (c == x) ≡ false → degree x (decrement c d) ≡ degree x d
unfolding degree decrement
degree-decrement_ne x c [] h = refl
degree-decrement_ne x c ((j, n) ∷ d) h = elim (Bool-cases (j == c)) [
  | inl same ↦ rw (same, ==-sound j c same, h) refl
  | inr other ↦ rw other (ap (λ r. if j == x then n else r) (degree-decrement_ne x c d h))
]

-- The queue after one child.
abbrev pub queued : Text → Degrees → List Text → List Text
queued c d q = if eqb (degree c d) 1 then q ++ c ∷ [] else q

pub degree-decrement :
    (x c : Text) (d : Degrees)
    → degree x (decrement c d) ≡ (if c == x then degree x d - 1 else degree x d)
degree-decrement x c d = elim (Bool-cases (c == x)) [
  | inl same ↦ rw same (
      subst (λ y. degree y (decrement c d) ≡ degree y d - 1) (==-sound c x same)
        (degree-decrement_self c d))
  | inr other ↦ rw other (degree-decrement_ne x c d other)
]

pub degree-relax :
    (x : Text) (cs : List Text) (d : Degrees) (q : List Text)
    → degree x (relax cs d q).0 ≡ degree x d - count x cs
unfolding relax
degree-relax x [] d q = omega arith
degree-relax x (c ∷ cs) d q = elim (Bool-cases (c == x)) [
  | inl same ↦ rw same (
      omega (
        arith,
        degree-relax x cs (decrement c d) (queued c d q),
        degree-decrement x c d,
        here same,
      ))
  | inr other ↦ rw other (
      degree-relax x cs (decrement c d) (queued c d q)
      ∙ ap (λ n. n - count x cs) (degree-decrement_ne x c d other))
]
  where
    here : (c == x) ≡ true → degree x (decrement c d) ≡ degree x d - 1
    here same =
        subst (λ y. degree y (decrement c d) ≡ degree y d - 1) (==-sound c x same)
          (degree-decrement_self c d)

count-append : (x : Text) (xs ys : List Text) → count x (xs ++ ys) ≡ count x xs + count x ys
count-append x [] ys = omega arith
count-append x (y ∷ xs) ys = ground (arith, count-append x xs ys)

count-children_in :
    (x p child : Text) (ps : List Text)
    → count x (children_in p child ps) ≡ (if child == x then count p ps else 0)
count-children_in x p child [] = ground arith
count-children_in x p child (q ∷ ps) = ground (arith, count-children_in x p child ps)

-- An identity that no version has is nobody's child.
count-children_none :
    (x p : Text) (vs : List Version)
    → contains x (version_ids vs) ≡ false
    → count x (children vs p) ≡ 0
unfolding children
count-children_none x p [] h = refl
count-children_none x p (v ∷ vs) h = ground (
  arith,
  count-append x (children_in p v.version_id v.parent_version_refs) (children vs p),
  count-children_in x p v.version_id v.parent_version_refs,
  count-children_none x p vs,
)

child-count :
    (p : Text) (w : Version) (vs us : List Version)
    → contains w.version_id (version_ids us) ≡ false
    → All (λ v. count v.version_id (children vs p) ≡ count p v.parent_version_refs) us
    → All (λ v. count v.version_id (children (w ∷ vs) p) ≡ count p v.parent_version_refs) us
unfolding children
child-count p w vs [] h k = tt
child-count p w vs (u ∷ us) h k = (
  ground (
    arith,
    count-append u.version_id (children_in p w.version_id w.parent_version_refs) (children vs p),
    count-children_in u.version_id p w.version_id w.parent_version_refs,
    k.0,
  ),
  child-count p w vs us (ground arith) k.1,
)

-- A version is a child of a parent as often as it lists the parent.
pub children-count :
    (p : Text) (vs : List Version)
    → IsDistinct (version_ids vs)
    → All (λ v. count v.version_id (children vs p) ≡ count p v.parent_version_refs) vs
unfolding children
children-count p [] h = tt
children-count p (v ∷ vs) h = (
  ground (
    arith,
    count-append v.version_id (children_in p v.version_id v.parent_version_refs) (children vs p),
    count-children_in v.version_id p v.version_id v.parent_version_refs,
    count-children_none v.version_id p vs h.0,
  ),
  child-count p v vs vs h.0 (children-count p vs h.1),
)

-- Visiting a new identity sees each of its occurrences.
pub unseen-visit :
    (i : Text) (ps visited : List Text)
    → contains i visited ≡ false
    → unseen ps (visited ++ i ∷ []) + count i ps ≡ unseen ps visited
unseen-visit i [] visited h = refl
unseen-visit i (p ∷ ps) visited h =
    ground (arith, unseen-visit i ps visited h, contains-append p visited (i ∷ []))
