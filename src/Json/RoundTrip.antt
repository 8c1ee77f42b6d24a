-- ===== src/Json/RoundTrip.antt =====
-- `parse_json` reads back the text that `json.dumps` writes for a value.
use infra_artifact_ledger.Prelude.{
  ℕ, zero, suc, ◌+◌, ◌*◌, ◌≤◌, ◌<◌, ◌≡◌, refl, ap, ◌∙◌, sym, Bool, true, false, [], ◌∷◌, ◌++◌,
  arith, leb, ltb, length, append_assoc, append-nil, subst,
}
use infra_artifact_ledger.Text.{Text, Bytes, text, text_eq}
use infra_artifact_ledger.Errors.{ok, ◌>>=◌}
use infra_artifact_ledger.Validation.Limits.{max_integer, max_depth, max_nodes}
use infra_artifact_ledger.Validation.Scalars.{is_digit}
use infra_artifact_ledger.Canonical.{
  Value, Items, Fields, str, num, negative, real, boolean, null, arr, obj, nil, cons, end, field,
  quoted, decimal, render, render_items, render_fields, utf8, encode_utf8,
}
use infra_artifact_ledger.Json.Integers.{decimal-digit, number-decimal, number-minus}
use infra_artifact_ledger.Json.Scan.Size.{ends, depth, nodes}
use infra_artifact_ledger.Json.Scan.Exact.{scan_limits-render}
use infra_artifact_ledger.Json.Numbers.{number}
use infra_artifact_ledger.Json.Read.{
  skip_space, begins, word, object_pairs, value, items, pairs, loads, ended, byte_order_mark,
  parse_json,
}
use infra_artifact_ledger.Json.Readable.{
  cost-render, readable-exact, encode_utf8-readable, check_unicode-readable, readable,
  readable_items, readable_fields, cost, cost_items, cost_fields,
}
use infra_artifact_ledger.Json.Steps.{
  value-string, value-number, value-minus, value-array, value-object, array-items, object-pairs,
  items-last, items-more, pairs-last, pairs-more,
}

digit-ascii : (c : ℕ) → is_digit c ≡ true → c < 128
digit-ascii c h = ground (arith, h)

leb-true : {m n : ℕ} → m ≤ n → leb m n ≡ true
leb-true h = ground (arith, h)

leb_over : {m n : ℕ} → m ≤ n → ltb n m ≡ false
leb_over h = ground (arith, h)

-- The text begins with a character that begins a value.
abbrev Begins : Text → Type 0
Begins s = (skip_space s ≡ s) × (begins b']' s ≡ false)

digit-Begins : (c : ℕ) (cs : Text) → is_digit c ≡ true → Begins (c ∷ cs)
unfolding skip_space
digit-Begins c cs h = (ground (arith, h), ground (arith, h))

-- The text of a value begins with no space and no closing bracket.
render-Begins : (v : Value) (rest : Text) → readable v ≡ true → Begins (render v ++ rest)
unfolding readable render skip_space
render-Begins (str s) rest h = (refl, refl)
render-Begins (num n) rest h =
    let (c, cs, is_cons, digit) = decimal-digit n (ground (arith, h)) in
    subst (λ s. Begins (s ++ rest)) (sym is_cons) (digit-Begins c (cs ++ rest) digit)
render-Begins (negative n) rest h = (refl, refl)
render-Begins (real t) rest h = cc
render-Begins (boolean true) rest h = (refl, refl)
render-Begins (boolean false) rest h = (refl, refl)
render-Begins null rest h = (refl, refl)
render-Begins (arr xs) rest h = (refl, refl)
render-Begins (obj fs) rest h = (refl, refl)

-- So does the text of what is in a list that is not empty.
items-Begins :
    (x : Value) (xs : Items) (rest : Text)
    → readable_items (cons x xs) ≡ true
    → Begins (render_items (cons x xs) ++ rest)
unfolding readable render
items-Begins x nil rest h =
    subst Begins (sym (append_assoc (render x) _ rest)) (render-Begins x _ (ground (arith, h)))
items-Begins x (cons y ys) rest h =
    subst Begins (sym (append_assoc (render x) _ rest)) (render-Begins x _ (ground (arith, h)))

module _ (finite : Text → Bool) where
  value-num :
      (fuel n : ℕ) (rest : Text)
      → n ≤ max_integer
      → ends rest ≡ true
      → value finite (suc fuel) (decimal 20 n [] ++ rest) ≡ ok (num n, rest)
  value-num fuel n rest h e =
      let (c, cs, is_cons, digit) = decimal-digit n h in
      ap (λ s. value finite (suc fuel) (s ++ rest)) is_cons
      ∙ value-number finite fuel c (cs ++ rest) digit
      ∙ ap (λ s. number finite (s ++ rest)) (sym is_cons)
      ∙ number-decimal finite n rest h e

  value-nil :
      (fuel : ℕ) (rest : Text)
      → value finite (suc (suc fuel)) (b'[' ∷ b']' ∷ rest) ≡ ok (arr nil, rest)
  unfolding value skip_space
  value-nil fuel rest = refl

  value-end :
      (fuel : ℕ) (rest : Text)
      → value finite (suc (suc fuel)) (b'{' ∷ b'}' ∷ rest) ≡ ok (obj end, rest)
  unfolding value skip_space object_pairs
  value-end fuel rest = refl

  value-true :
      (fuel : ℕ) (rest : Text)
      → value finite (suc fuel) (text "true" ++ rest) ≡ ok (boolean true, rest)
  unfolding value word
  value-true fuel rest = refl

  value-false :
      (fuel : ℕ) (rest : Text)
      → value finite (suc fuel) (text "false" ++ rest) ≡ ok (boolean false, rest)
  unfolding value word
  value-false fuel rest = refl

  value-null :
      (fuel : ℕ) (rest : Text) → value finite (suc fuel) (text "null" ++ rest) ≡ ok (null, rest)
  unfolding value word
  value-null fuel rest = refl

  fields-Begins :
      (k : Text) (v : Value) (fs : Fields) (rest : Text)
      → (skip_space (render_fields (field k v fs) ++ rest) ≡ render_fields (field k v fs) ++ rest)
        × (begins b'}' (render_fields (field k v fs) ++ rest) ≡ false)
  unfolding render skip_space
  fields-Begins k v end rest = (refl, refl)
  fields-Begins k v (field j w fs) rest = (refl, refl)

  cost-pos : (v : Value) → 1 ≤ cost v
  unfolding cost
  cost-pos (str s) = omega arith
  cost-pos (num n) = omega arith
  cost-pos (negative n) = omega arith
  cost-pos (real t) = omega arith
  cost-pos (boolean b) = omega arith
  cost-pos null = omega arith
  cost-pos (arr xs) = omega arith
  cost-pos (obj fs) = omega arith

  mutual
    unfolding readable render cost

    value-render :
        (v : Value) (fuel : ℕ) (rest : Text)
        → readable v ≡ true
        → ends rest ≡ true
        → cost v ≤ fuel
        → value finite fuel (render v ++ rest) ≡ ok (v, rest)
    value-render v zero rest h e l = absurd (let p = cost-pos v in omega (arith, l, p))
    value-render (str s) (suc fuel) rest h e l = value-string finite fuel s rest
    value-render (num n) (suc fuel) rest h e l = value-num fuel n rest (ground (arith, h)) e
    value-render (negative n) (suc fuel) rest h e l =
        value-minus finite fuel _
        ∙ number-minus finite n rest (ground (arith, h)) (ground (arith, h)) e
    value-render (real t) (suc fuel) rest h e l = cc
    value-render (boolean true) (suc fuel) rest h e l = value-true fuel rest
    value-render (boolean false) (suc fuel) rest h e l = value-false fuel rest
    value-render null (suc fuel) rest h e l = value-null fuel rest
    value-render (arr xs) (suc zero) rest h e l = absurd (omega (arith, l))
    value-render (arr nil) (suc (suc fuel)) rest h e l = value-nil fuel rest
    value-render (arr (cons x xs)) (suc (suc fuel)) rest h e l =
        let (space, bracket) = items-Begins x xs rest h in
        value-array finite (suc fuel) _ _ space
        ∙ array-items finite fuel _ (cons x xs) rest bracket
            (items-render x xs fuel rest h (omega (arith, l)))
    value-render (obj fs) (suc zero) rest h e l = absurd (omega (arith, l))
    value-render (obj end) (suc (suc fuel)) rest h e l = value-end fuel rest
    value-render (obj (field k v fs)) (suc (suc fuel)) rest h e l =
        value-object finite (suc fuel) _ _ (fields-Begins k v fs rest).0
        ∙ object-pairs finite fuel _ (field k v fs) rest (fields-Begins k v fs rest).1
            (ground (arith, h))
            (pairs-render k v fs fuel rest (ground (arith, h)) (omega (arith, l)))

    items-render :
        (x : Value) (xs : Items) (fuel : ℕ) (rest : Text)
        → readable_items (cons x xs) ≡ true
        → cost_items (cons x xs) ≤ fuel
        → items finite fuel (render_items (cons x xs) ++ rest) ≡ ok (cons x xs, rest)
    items-render x xs zero rest h l = absurd (omega (arith, l))
    items-render x nil (suc fuel) rest h l = items-last finite fuel _ x rest (
        ap (value finite fuel) (append_assoc (render x) _ rest)
        ∙ value-render x fuel _ (ground (arith, h)) refl (omega (arith, l)))
    items-render x (cons y ys) (suc fuel) rest h l =
        items-more finite fuel _ _ _ x (cons y ys) rest
          (ap (value finite fuel) (append_assoc (render x) _ rest)
            ∙ value-render x fuel _ (ground (arith, h)) refl (omega (arith, l)))
          ((items-Begins y ys rest (ground (arith, h))).0)
          (items-render y ys fuel rest (ground (arith, h)) (omega (arith, l)))

    pairs-render :
        (k : Text) (v : Value) (fs : Fields) (fuel : ℕ) (rest : Text)
        → readable_fields (field k v fs) ≡ true
        → cost_fields (field k v fs) ≤ fuel
        → pairs finite fuel (render_fields (field k v fs) ++ rest) ≡ ok (field k v fs, rest)
    pairs-render k v fs zero rest h l = absurd (omega (arith, l))
    pairs-render k v end (suc fuel) rest h l =
        ap (pairs finite (suc fuel)) (append_assoc (quoted k) _ rest)
        ∙ pairs-last finite fuel k _ _ v rest
            (ap skip_space (append_assoc (render v) _ rest)
              ∙ (render-Begins v (b'}' ∷ rest) (ground (arith, h))).0)
            (value-render v fuel _ (ground (arith, h)) refl (omega (arith, l)))
    pairs-render k v (field j w fs) (suc fuel) rest h l =
        ap (pairs finite (suc fuel)) (append_assoc (quoted k) _ rest)
        ∙ pairs-more finite fuel k _ _ _ _ v (field j w fs) rest
            (ap skip_space (append_assoc (render v) _ rest)
              ∙ (render-Begins v (b',' ∷ (render_fields (field j w fs) ++ rest))
                  (ground (arith, h))).0)
            (value-render v fuel _ (ground (arith, h)) refl (omega (arith, l)))
            (fields-Begins j w fs rest).0
            (pairs-render j w fs fuel rest (ground (arith, h)) (omega (arith, l)))

  loads-render : (v : Value) → readable v ≡ true → loads finite (render v) ≡ ok v
  unfolding loads skip_space
  loads-render v h =
      let c = cost-render v h in
      let fuel = 3 * length (render v) + 3 in
      let whole = append-nil (render v) in
      ap (λ s. value finite fuel s >>= ended) (ap skip_space (sym whole) ∙ (render-Begins v [] h).0)
      ∙ ap (λ r. r >>= ended) (value-render v fuel [] h refl (omega (arith, c)))

-- The text of a value begins with an ASCII character.
render-first :
    (v : Value) → readable v ≡ true → (c : ℕ) × (cs : Text) × (render v ≡ c ∷ cs) × (c < 128)
unfolding readable render
render-first (str s) h = (34, _, refl, omega arith)
render-first (num n) h =
    let (c, cs, is_cons, digit) = decimal-digit n (ground (arith, h)) in
    (c, cs, is_cons, digit-ascii c digit)
render-first (negative n) h = (b'-', _, refl, omega arith)
render-first (real t) h = cc
render-first (boolean true) h = (b't', _, refl, omega arith)
render-first (boolean false) h = (b'f', _, refl, omega arith)
render-first null h = (b'n', _, refl, omega arith)
render-first (arr xs) h = (b'[', _, refl, omega arith)
render-first (obj fs) h = (b'{', _, refl, omega arith)

mark-ascii : (c : ℕ) (cs : Bytes) → c < 128 → byte_order_mark (c ∷ cs) ≡ false
mark-ascii c [] h = refl
mark-ascii c (b ∷ []) h = refl
mark-ascii c (b ∷ a ∷ cs) h = ground (arith, h)

mark-encode : (c : ℕ) (cs : Text) → c < 128 → byte_order_mark (encode_utf8 (c ∷ cs)) ≡ false
unfolding encode_utf8 utf8
mark-encode c cs h = ground (arith, h, mark-ascii c (encode_utf8 cs) h)

mark-render : (v : Value) → readable v ≡ true → byte_order_mark (encode_utf8 (render v)) ≡ false
mark-render v h =
    let (c, cs, is_cons, ascii) = render-first v h in
    ap (λ s. byte_order_mark (encode_utf8 s)) is_cons ∙ mark-encode c cs ascii

-- The reader takes the UTF-8 text of a value within the limits back to that value, whatever it makes
-- of floats: the value has no float, no key twice, no integer beyond the exact range, and only
-- strings of code points without surrogates.
pub parse_json-render :
    (finite : Text → Bool) (limit : ℕ) (v : Value)
    → readable v ≡ true
    → depth v ≤ max_depth
    → nodes v ≤ max_nodes
    → length (encode_utf8 (render v)) ≤ limit
    → parse_json finite limit (encode_utf8 (render v)) ≡ ok v
unfolding parse_json
parse_json-render finite limit v h d n l =
    rw
      (
        leb_over l,
        mark-render v h,
        encode_utf8-readable v h,
        scan_limits-render v (readable-exact v h),
        leb-true d,
        leb-true n,
        loads-render finite v h,
        check_unicode-readable v h,
      )
      refl
