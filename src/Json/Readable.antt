-- ===== src/Json/Readable.antt =====
-- The values whose text `parse_json` accepts, and the fuel that reading it needs.
use infra_artifact_ledger.Prelude.{
  ℕ, zero, suc, ◌+◌, ◌*◌, ◌/◌, ◌%◌, ◌≤◌, ◌<◌, ◌≡◌, refl, inl, inr, Bool-cases, Bool, true, false,
  ◌&&◌, [], ◌∷◌, some, ◌++◌, arith, leb, ltb, length, all, All, distinct, if◌then◌else◌,
  length-append,
}
use infra_artifact_ledger.Text.{Text, text_eq}
use infra_artifact_ledger.Errors.{ok}
use infra_artifact_ledger.Validation.Limits.{max_integer}
use infra_artifact_ledger.Validation.Scalars.{is_surrogate, unicode}
use infra_artifact_ledger.Canonical.{
  Value, Items, Fields, str, num, negative, real, boolean, null, arr, obj, nil, cons, end, field,
  keys, escape, escape_all, quoted, decimal, render, render_items, render_fields, encode_utf8,
}
use infra_artifact_ledger.Json.Scan.Size.{exact, exact_items, exact_fields}
use infra_artifact_ledger.Json.Utf8.{IsScalar, decode_utf8, decode_utf8-encode_utf8}
use infra_artifact_ledger.Json.Read.{check_unicode, check_unicode_items, check_unicode_fields}

abbrev pub is_scalar : ℕ → Bool
is_scalar c = if is_surrogate c then false else ltb c 0x110000

-- Strings of code points without surrogates, integers within the exact range, no float, and no key
-- twice.
unfoldable mutual
  pub readable : Value → Bool
  readable (str s) = all is_scalar s
  readable (num n) = leb n max_integer
  readable (negative n) = leb 1 n && leb n max_integer
  readable (real t) = false
  readable (boolean b) = true
  readable null = true
  readable (arr xs) = readable_items xs
  readable (obj fs) = distinct (keys fs) && readable_fields fs

  pub readable_items : Items → Bool
  readable_items nil = true
  readable_items (cons x xs) = readable x && readable_items xs

  pub readable_fields : Fields → Bool
  readable_fields end = true
  readable_fields (field k v fs) = all is_scalar k && (readable v && readable_fields fs)

-- The calls in one another that reading the value's text makes.
unfoldable mutual
  pub cost : Value → ℕ
  cost (str s) = 1
  cost (num n) = 1
  cost (negative n) = 1
  cost (real t) = 1
  cost (boolean b) = 1
  cost null = 1
  cost (arr xs) = 2 + cost_items xs
  cost (obj fs) = 2 + cost_fields fs

  pub cost_items : Items → ℕ
  cost_items nil = 0
  cost_items (cons x xs) = suc (cost x + cost_items xs)

  pub cost_fields : Fields → ℕ
  cost_fields end = 0
  cost_fields (field k v fs) = suc (cost v + cost_fields fs)

unicode-scalar : (s : Text) → all is_scalar s ≡ true → unicode s ≡ ok tt
unfolding unicode
unicode-scalar [] h = refl
unicode-scalar (c ∷ cs) h = ground (arith, h, unicode-scalar cs)

mutual
  unfolding readable check_unicode

  pub check_unicode-readable : (v : Value) → readable v ≡ true → check_unicode v ≡ ok tt
  check_unicode-readable (str s) h = unicode-scalar s h
  check_unicode-readable (num n) h = refl
  check_unicode-readable (negative n) h = refl
  check_unicode-readable (real t) h = refl
  check_unicode-readable (boolean b) h = refl
  check_unicode-readable null h = refl
  check_unicode-readable (arr xs) h = check_items-readable xs h
  check_unicode-readable (obj fs) h = check_fields-readable fs (ground (arith, h))

  check_items-readable : (xs : Items) → readable_items xs ≡ true → check_unicode_items xs ≡ ok tt
  check_items-readable nil h = refl
  check_items-readable (cons x xs) h =
      ground (arith, h, check_unicode-readable x, check_items-readable xs)

  check_fields-readable :
      (fs : Fields) → readable_fields fs ≡ true → check_unicode_fields fs ≡ ok tt
  check_fields-readable end h = refl
  check_fields-readable (field k v fs) h =
      ground (arith, h, unicode-scalar k, check_unicode-readable v, check_fields-readable fs)

all-append : (p : ℕ → Bool) (s t : Text) → all p s ≡ true → all p t ≡ true → all p (s ++ t) ≡ true
all-append p [] t h k = k
all-append p (c ∷ cs) t h k = ground (arith, h, all-append p cs t (ground (arith, h)) k)

escape-is_scalar : (c : ℕ) → is_scalar c ≡ true → all is_scalar (escape c) ≡ true
unfolding escape
escape-is_scalar c h = ground (arith, h)

escape_all-is_scalar : (s : Text) → all is_scalar s ≡ true → all is_scalar (escape_all s) ≡ true
escape_all-is_scalar [] h = refl
escape_all-is_scalar (c ∷ cs) h =
    all-append is_scalar (escape c) _ (escape-is_scalar c (ground (arith, h)))
      (escape_all-is_scalar cs (ground (arith, h)))

quoted-is_scalar : (s : Text) → all is_scalar s ≡ true → all is_scalar (quoted s) ≡ true
quoted-is_scalar s h = all-append is_scalar (escape_all s) _ (escape_all-is_scalar s h) refl

small_digit-is_scalar : (n : ℕ) → n < 10 → is_scalar (b'0' + n) ≡ true
small_digit-is_scalar n h = ground (arith, h)

decimal-is_scalar :
    (fuel n : ℕ) (acc : Text) → all is_scalar acc ≡ true → all is_scalar (decimal fuel n acc) ≡ true
unfolding decimal
decimal-is_scalar zero n acc h = h
decimal-is_scalar (suc fuel) n acc h = elim (Bool-cases (ltb n 10)) [
  | inl small ↦ rw small (rw (small_digit-is_scalar n (ground (arith, small))) h)
  | inr large ↦
      rw large
        (decimal-is_scalar fuel (n / 10) _ (rw (small_digit-is_scalar (n % 10) (omega arith)) h))
]

mutual
  unfolding readable render

  render-is_scalar : (v : Value) → readable v ≡ true → all is_scalar (render v) ≡ true
  render-is_scalar (str s) h = quoted-is_scalar s h
  render-is_scalar (num n) h = decimal-is_scalar 20 n [] refl
  render-is_scalar (negative n) h = decimal-is_scalar 20 n [] refl
  render-is_scalar (real t) h = cc
  render-is_scalar (boolean true) h = refl
  render-is_scalar (boolean false) h = refl
  render-is_scalar null h = refl
  render-is_scalar (arr xs) h = items-is_scalar xs h
  render-is_scalar (obj fs) h = fields-is_scalar fs (ground (arith, h))

  items-is_scalar : (xs : Items) → readable_items xs ≡ true → all is_scalar (render_items xs) ≡ true
  items-is_scalar nil h = refl
  items-is_scalar (cons x nil) h =
      all-append is_scalar (render x) _ (render-is_scalar x (ground (arith, h))) refl
  items-is_scalar (cons x (cons y ys)) h =
      all-append is_scalar (render x) _ (render-is_scalar x (ground (arith, h)))
        (items-is_scalar (cons y ys) (ground (arith, h)))

  fields-is_scalar :
      (fs : Fields) → readable_fields fs ≡ true → all is_scalar (render_fields fs) ≡ true
  fields-is_scalar end h = refl
  fields-is_scalar (field k v end) h =
      all-append is_scalar (quoted k) _ (quoted-is_scalar k (ground (arith, h)))
        (all-append is_scalar (render v) _ (render-is_scalar v (ground (arith, h))) refl)
  fields-is_scalar (field k v (field j w fs)) h =
      all-append is_scalar (quoted k) _ (quoted-is_scalar k (ground (arith, h))) (
        all-append is_scalar (render v) _ (render-is_scalar v (ground (arith, h)))
          (fields-is_scalar (field j w fs) (ground (arith, h))))

length-decimal_acc :
    (fuel n : ℕ) (acc : Text) → 1 ≤ fuel → suc (length acc) ≤ length (decimal fuel n acc)
unfolding decimal
length-decimal_acc zero n acc h = absurd (omega (arith, h))
length-decimal_acc (suc zero) n acc h = ground arith
length-decimal_acc (suc (suc fuel)) n acc h = elim (Bool-cases (ltb n 10)) [
  | inl small ↦ rw small (omega arith)
  | inr large ↦ rw large (
      let l = length-decimal_acc (suc fuel) (n / 10) ((b'0' + n % 10) ∷ acc) (omega arith) in
      omega (arith, l))
]

length-decimal_pos : (n : ℕ) → 1 ≤ length (decimal 20 n [])
length-decimal_pos n = length-decimal_acc 20 n [] (omega arith)

mutual
  unfolding readable render cost

  pub cost-render : (v : Value) → readable v ≡ true → cost v ≤ 3 * length (render v)
  cost-render (str s) h = omega arith
  cost-render (num n) h = let l = length-decimal_pos n in omega (arith, l)
  cost-render (negative n) h = omega arith
  cost-render (real t) h = cc
  cost-render (boolean true) h = omega arith
  cost-render (boolean false) h = omega arith
  cost-render null h = omega arith
  cost-render (arr xs) h = let l = cost-items xs h in omega (arith, l)
  cost-render (obj fs) h = let l = cost-fields fs (ground (arith, h)) in omega (arith, l)

  cost-items :
      (xs : Items) → readable_items xs ≡ true → suc (cost_items xs) ≤ 3 * length (render_items xs)
  cost-items nil h = omega arith
  cost-items (cons x nil) h =
      let l = cost-render x (ground (arith, h)) in
      let e = length-append (render x) (b']' ∷ []) in omega (arith, l, e)
  cost-items (cons x (cons y ys)) h =
      let l = cost-render x (ground (arith, h)) in
      let k = cost-items (cons y ys) (ground (arith, h)) in
      let e = length-append (render x) (b',' ∷ render_items (cons y ys)) in omega (arith, l, k, e)

  cost-fields :
      (fs : Fields)
      → readable_fields fs ≡ true
      → suc (cost_fields fs) ≤ 3 * length (render_fields fs)
  cost-fields end h = omega arith
  cost-fields (field k v end) h =
      let l = cost-render v (ground (arith, h)) in
      let e = length-append (render v) (b'}' ∷ []) in
      let f = length-append (quoted k) (b':' ∷ (render v ++ b'}' ∷ [])) in omega (arith, l, e, f)
  cost-fields (field k v (field j w fs)) h =
      let l = cost-render v (ground (arith, h)) in
      let m = cost-fields (field j w fs) (ground (arith, h)) in
      let e = length-append (render v) (b',' ∷ render_fields (field j w fs)) in
      let f = length-append (quoted k) (b':' ∷ (render v ++ b',' ∷ render_fields (field j w fs))) in
      omega (arith, l, m, e, f)

pub All-IsScalar : (s : Text) → all is_scalar s ≡ true → All IsScalar s
All-IsScalar [] h = tt
All-IsScalar (c ∷ cs) h =
    ((ground (arith, h), ground (arith, h)), All-IsScalar cs (ground (arith, h)))

mutual
  unfolding readable exact

  pub readable-exact : (v : Value) → readable v ≡ true → exact v ≡ true
  readable-exact (str s) h = refl
  readable-exact (num n) h = refl
  readable-exact (negative n) h = refl
  readable-exact (real t) h = h
  readable-exact (boolean b) h = refl
  readable-exact null h = refl
  readable-exact (arr xs) h = readable-exact_items xs h
  readable-exact (obj fs) h = readable-exact_fields fs (ground (arith, h))

  readable-exact_items : (xs : Items) → readable_items xs ≡ true → exact_items xs ≡ true
  readable-exact_items nil h = refl
  readable-exact_items (cons x xs) h = ground (arith, h, readable-exact x, readable-exact_items xs)

  readable-exact_fields : (fs : Fields) → readable_fields fs ≡ true → exact_fields fs ≡ true
  readable-exact_fields end h = refl
  readable-exact_fields (field k v fs) h =
      ground (arith, h, readable-exact v, readable-exact_fields fs)

pub encode_utf8-readable :
    (v : Value) → readable v ≡ true → decode_utf8 (encode_utf8 (render v)) ≡ some (render v)
encode_utf8-readable v h =
    decode_utf8-encode_utf8 (render v) (All-IsScalar (render v) (render-is_scalar v h))
