-- ===== src/Json/Sorted.antt =====
-- `parse_json` at the bytes that `canonical_bytes` gives, whose keys are sorted.
use infra_artifact_ledger.Prelude.{
  ℕ, ◌⊎◌, zero, suc, ◌+◌, ◌≤◌, ◌≡◌, refl, ap, ◌∙◌, sym, ==-sym, subst, inl, inr, Bool, true, ◌&&◌,
  ◌||◌, not, arith, ◌==◌, length, all, contains, distinct,
}
use infra_artifact_ledger.Text.{Text, Bytes, text_eq}
use infra_artifact_ledger.Errors.{Code, Result, ok, err}
use infra_artifact_ledger.Validation.Limits.{max_depth, max_nodes}
use infra_artifact_ledger.Canonical.{
  Value, Items, Fields, str, num, negative, real, boolean, null, arr, obj, nil, cons, end, field,
  keys, check, check_items, check_fields, insert_field, sort_value, sort_items, sort_fields, render,
  encode_utf8, canonical_bytes,
}
use infra_artifact_ledger.Json.Scan.Size.{
  larger, depth, depth_items, depth_fields, nodes, nodes_items, nodes_fields,
}
use infra_artifact_ledger.Json.Read.{parse_json}
use infra_artifact_ledger.Json.Readable.{is_scalar, readable, readable_items, readable_fields}
use infra_artifact_ledger.Json.RoundTrip.{parse_json-render}

-- Inserting a field among others
module _ (k : Text) (v : Value) where
  depth-insert_field :
      (fs : Fields) → depth_fields (insert_field k v fs) ≡ larger (depth v) (depth_fields fs)
  unfolding insert_field depth
  depth-insert_field end = refl
  depth-insert_field (field j w fs) = ground (arith, depth-insert_field fs)

  nodes-insert_field :
      (fs : Fields) → nodes_fields (insert_field k v fs) ≡ nodes v + nodes_fields fs
  unfolding insert_field nodes
  nodes-insert_field end = refl
  nodes-insert_field (field j w fs) = ground (arith, nodes-insert_field fs)

  readable-insert_field :
      (fs : Fields)
      → readable_fields (insert_field k v fs)
        ≡ (all is_scalar k && (readable v && readable_fields fs))
  unfolding insert_field readable
  readable-insert_field end = refl
  readable-insert_field (field j w fs) = ground (arith, readable-insert_field fs)

  contains-insert_field :
      (i : Text) (fs : Fields)
      → contains i (keys (insert_field k v fs)) ≡ (i == k || contains i (keys fs))
  unfolding insert_field
  contains-insert_field i end = refl
  contains-insert_field i (field j w fs) = ground (arith, contains-insert_field i fs)

  distinct-insert_field :
      (fs : Fields)
      → distinct (keys (insert_field k v fs)) ≡ (not (contains k (keys fs)) && distinct (keys fs))
  unfolding insert_field
  distinct-insert_field end = refl
  distinct-insert_field (field j w fs) =
      ground (arith, distinct-insert_field fs, contains-insert_field j fs, ==-sym k j)

contains-sort_fields :
    (i : Text) (fs : Fields) → contains i (keys (sort_fields fs)) ≡ contains i (keys fs)
unfolding sort_value
contains-sort_fields i end = refl
contains-sort_fields i (field k v fs) =
    contains-insert_field k (sort_value v) i (sort_fields fs)
    ∙ ap (λ b. i == k || b) (contains-sort_fields i fs)

distinct-sort_fields : (fs : Fields) → distinct (keys (sort_fields fs)) ≡ distinct (keys fs)
unfolding sort_value
distinct-sort_fields end = refl
distinct-sort_fields (field k v fs) =
    distinct-insert_field k (sort_value v) (sort_fields fs)
    ∙ ground (arith, contains-sort_fields k fs, distinct-sort_fields fs)

-- Sorting keeps the depth, the nodes, and that the value is readable.
mutual
  unfolding sort_value depth

  depth-sort_value : (v : Value) → depth (sort_value v) ≡ depth v
  depth-sort_value (str s) = refl
  depth-sort_value (num n) = refl
  depth-sort_value (negative n) = refl
  depth-sort_value (real t) = refl
  depth-sort_value (boolean b) = refl
  depth-sort_value null = refl
  depth-sort_value (arr xs) = ap (λ n. suc n) (depth-sort_items xs)
  depth-sort_value (obj fs) = ap (λ n. suc n) (depth-sort_fields fs)

  depth-sort_items : (xs : Items) → depth_items (sort_items xs) ≡ depth_items xs
  depth-sort_items nil = refl
  depth-sort_items (cons x xs) = rw (depth-sort_value x, depth-sort_items xs) refl

  depth-sort_fields : (fs : Fields) → depth_fields (sort_fields fs) ≡ depth_fields fs
  depth-sort_fields end = refl
  depth-sort_fields (field k v fs) =
      depth-insert_field k (sort_value v) (sort_fields fs)
      ∙ rw (depth-sort_value v, depth-sort_fields fs) refl

mutual
  unfolding sort_value nodes

  nodes-sort_value : (v : Value) → nodes (sort_value v) ≡ nodes v
  nodes-sort_value (str s) = refl
  nodes-sort_value (num n) = refl
  nodes-sort_value (negative n) = refl
  nodes-sort_value (real t) = refl
  nodes-sort_value (boolean b) = refl
  nodes-sort_value null = refl
  nodes-sort_value (arr xs) = ap (λ n. suc n) (nodes-sort_items xs)
  nodes-sort_value (obj fs) = ap (λ n. suc n) (nodes-sort_fields fs)

  nodes-sort_items : (xs : Items) → nodes_items (sort_items xs) ≡ nodes_items xs
  nodes-sort_items nil = refl
  nodes-sort_items (cons x xs) = rw (nodes-sort_value x, nodes-sort_items xs) refl

  nodes-sort_fields : (fs : Fields) → nodes_fields (sort_fields fs) ≡ nodes_fields fs
  nodes-sort_fields end = refl
  nodes-sort_fields (field k v fs) =
      nodes-insert_field k (sort_value v) (sort_fields fs)
      ∙ rw (nodes-sort_value v, nodes-sort_fields fs) refl

mutual
  unfolding sort_value readable

  readable-sort_value : (v : Value) → readable (sort_value v) ≡ readable v
  readable-sort_value (str s) = refl
  readable-sort_value (num n) = refl
  readable-sort_value (negative n) = refl
  readable-sort_value (real t) = refl
  readable-sort_value (boolean b) = refl
  readable-sort_value null = refl
  readable-sort_value (arr xs) = readable-sort_items xs
  readable-sort_value (obj fs) = rw (distinct-sort_fields fs, readable-sort_fields fs) refl

  readable-sort_items : (xs : Items) → readable_items (sort_items xs) ≡ readable_items xs
  readable-sort_items nil = refl
  readable-sort_items (cons x xs) = rw (readable-sort_value x, readable-sort_items xs) refl

  readable-sort_fields : (fs : Fields) → readable_fields (sort_fields fs) ≡ readable_fields fs
  readable-sort_fields end = refl
  readable-sort_fields (field k v fs) =
      readable-insert_field k (sort_value v) (sort_fields fs)
      ∙ rw (readable-sort_value v, readable-sort_fields fs) refl

-- What `canonical_bytes` accepts is within the depth limit.
mutual
  unfolding check depth

  check-depth : (v : Value) (left : ℕ) → check v left ≡ ok tt → depth v ≤ left
  check-depth (str s) left h = omega arith
  check-depth (num n) left h = omega arith
  check-depth (negative n) left h = omega arith
  check-depth (real t) left h = omega arith
  check-depth (boolean b) left h = omega arith
  check-depth null left h = omega arith
  check-depth (arr xs) zero h = cc
  check-depth (arr xs) (suc left) h = let d = check_items-depth xs left h in omega (arith, d)
  check-depth (obj fs) zero h = cc
  check-depth (obj fs) (suc left) h = ground (arith, h, check_fields-depth fs left)

  check_items-depth : (xs : Items) (left : ℕ) → check_items xs left ≡ ok tt → depth_items xs ≤ left
  check_items-depth nil left h = omega arith
  check_items-depth (cons x xs) left h =
      ground (arith, h, check-depth x left, check_items-depth xs left)

  check_fields-depth :
      (fs : Fields) (left : ℕ) → check_fields fs left ≡ ok tt → depth_fields fs ≤ left
  check_fields-depth end left h = omega arith
  check_fields-depth (field k v fs) left h =
      ground (arith, h, check-depth v left, check_fields-depth fs left)

-- A result of `canonical_bytes` has passed its checks.
canonical_bytes-inverse :
    (v : Value) (raw : Bytes)
    → canonical_bytes v ≡ ok raw
    → (check v max_depth ≡ ok tt) × (encode_utf8 (render (sort_value v)) ≡ raw)
unfolding canonical_bytes
canonical_bytes-inverse v raw h = elim (check-cases (check v max_depth)) [
  | inl good ↦ (good, ground (arith, h, good))
  | inr (c, bad) ↦ absurd (ground (arith, h, bad))
]
  where
    check-cases : (r : Result (Unit {0})) → (r ≡ ok tt) ⊎ ((c : Code) × (r ≡ err c))
    check-cases (ok x) = inl refl
    check-cases (err c) = inr (c, refl)

-- What `canonical_bytes` writes, the reader takes back to the value with its keys sorted.
pub parse_json-canonical_bytes :
    (finite : Text → Bool) (limit : ℕ) (v : Value) (raw : Bytes)
    → canonical_bytes v ≡ ok raw
    → readable v ≡ true
    → nodes v ≤ max_nodes
    → length raw ≤ limit
    → parse_json finite limit raw ≡ ok (sort_value v)
parse_json-canonical_bytes finite limit v raw h r n l =
    let (checked, bytes) = canonical_bytes-inverse v raw h in
    let d = check-depth v max_depth checked in
    ap (parse_json finite limit) (sym bytes)
    ∙ parse_json-render finite limit (sort_value v) (readable-sort_value v ∙ r)
        (subst (λ k. k ≤ max_depth) (sym (depth-sort_value v)) d)
        (subst (λ k. k ≤ max_nodes) (sym (nodes-sort_value v)) n)
        (subst (λ b. length b ≤ limit) (sym bytes) l)
