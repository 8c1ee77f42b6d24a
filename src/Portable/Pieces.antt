-- ===== src/Portable/Pieces.antt =====
-- `_json_bytes`: the pieces of `JSONEncoder.iterencode`, written one by one into a bounded buffer.
use infra_artifact_ledger.Prelude.{
  ℕ, ◌+◌, ◌≤◌, ◌≡◌, refl, ap, ◌∙◌, sym, true, false, List, [], ◌∷◌, ◌++◌, ltb, length, any, arith,
  append_assoc, append-nil, subst, length-append, if◌then◌else◌,
}
use infra_artifact_ledger.Text.{Text, Bytes, text}
use infra_artifact_ledger.Errors.{Code, Result, ok, ◌>>=◌, ◌>>◌}
use infra_artifact_ledger.Validation.Limits.{fail_if}
use infra_artifact_ledger.Validation.Scalars.{is_surrogate}
use infra_artifact_ledger.Canonical.{
  Value, Items, Fields, str, num, negative, real, boolean, null, arr, obj, nil, cons, end, field,
  quoted, decimal, sort_value, render, render_items, render_fields, utf8, encode_utf8,
}

unfoldable mutual
  -- The pieces of a value, in a list behind `lead`, which a leaf takes into its own piece.
  pub pieces : Value → List Text
  pieces (str s) = quoted s ∷ []
  pieces (num n) = decimal 20 n [] ∷ []
  pieces (negative n) = (b'-' ∷ decimal 20 n []) ∷ []
  pieces (real t) = t ∷ []
  pieces (boolean b) = (if b then text "true" else text "false") ∷ []
  pieces null = text "null" ∷ []
  pieces (arr nil) = text "[]" ∷ []
  pieces (arr (cons x xs)) = element_pieces b'[' x ++ more_items xs
  pieces (obj end) = text "{}" ∷ []
  pieces (obj (field k v fs)) = text "{" ∷ quoted k ∷ text ":" ∷ (pieces v ++ more_fields fs)

  -- The bracket or comma before an element stands in the piece of a leaf, and alone before a container.
  pub element_pieces : ℕ → Value → List Text
  element_pieces c (str s) = (c ∷ quoted s) ∷ []
  element_pieces c (num n) = (c ∷ decimal 20 n []) ∷ []
  element_pieces c (negative n) = (c ∷ b'-' ∷ decimal 20 n []) ∷ []
  element_pieces c (real t) = (c ∷ t) ∷ []
  element_pieces c (boolean b) = (c ∷ (if b then text "true" else text "false")) ∷ []
  element_pieces c null = (c ∷ text "null") ∷ []
  element_pieces c (arr nil) = (c ∷ []) ∷ text "[]" ∷ []
  element_pieces c (arr (cons x xs)) = (c ∷ []) ∷ (element_pieces b'[' x ++ more_items xs)
  element_pieces c (obj end) = (c ∷ []) ∷ text "{}" ∷ []
  element_pieces c (obj (field k v fs)) =
      (c ∷ []) ∷ text "{" ∷ quoted k ∷ text ":" ∷ (pieces v ++ more_fields fs)

  pub more_items : Items → List Text
  more_items nil = text "]" ∷ []
  more_items (cons x xs) = element_pieces b',' x ++ more_items xs

  pub more_fields : Fields → List Text
  more_fields end = text "}" ∷ []
  more_fields (field k v fs) = text "," ∷ quoted k ∷ text ":" ∷ (pieces v ++ more_fields fs)

abbrev pub together : List Text → Text
together [] = []
together (p ∷ ps) = p ++ together ps

together-append : (ps qs : List Text) → together (ps ++ qs) ≡ together ps ++ together qs
together-append [] qs = refl
together-append (p ∷ ps) qs =
    ap (λ s. p ++ s) (together-append ps qs) ∙ sym (append_assoc p (together ps) (together qs))

-- `_write`: the buffer holds `size` bytes.
unfoldable pub write : ℕ → ℕ → Bytes → Result (Unit {0})
write limit size chunk = fail_if (ltb limit (size + length chunk)) Code.resource_limit

-- A piece that has a lone surrogate cannot be encoded.
unfoldable pub write_pieces : ℕ → ℕ → List Text → Result Bytes
unfolding write encode_utf8
write_pieces limit size [] = ok []
write_pieces limit size (p ∷ ps) =
    fail_if (any is_surrogate p) Code.invalid_input
    >> (write limit size (encode_utf8 p)
        >> (write_pieces limit (size + length (encode_utf8 p)) ps >>= λ rest.
            ok (encode_utf8 p ++ rest)))

-- `_json_bytes`
unfoldable pub json_bytes : ℕ → Value → Result Bytes
unfolding write_pieces pieces sort_value
json_bytes limit v = write_pieces limit 0 (pieces (sort_value v))

-- What `render` writes behind an element, and behind a field's value.
abbrev after_item : Items → Text
unfolding render
after_item nil = b']' ∷ []
after_item (cons x xs) = b',' ∷ render_items (cons x xs)

abbrev after_field : Fields → Text
unfolding render
after_field end = b'}' ∷ []
after_field (field k v fs) = b',' ∷ render_fields (field k v fs)

glue :
    (ps qs : List Text) (s t : Text)
    → together ps ≡ s
    → together qs ≡ t
    → together (ps ++ qs) ≡ s ++ t
glue ps qs s t h k = together-append ps qs ∙ rw (h, k) refl

items_together :
    (c : ℕ) (x : Value) (xs : Items)
    → together (element_pieces c x) ≡ c ∷ render x
    → together (more_items xs) ≡ after_item xs
    → together (element_pieces c x ++ more_items xs) ≡ c ∷ (render x ++ after_item xs)
items_together c x xs h k =
    glue (element_pieces c x) (more_items xs) (c ∷ render x) (after_item xs) h k

fields_together :
    (k : Text) (v : Value) (fs : Fields)
    → together (pieces v) ≡ render v
    → together (more_fields fs) ≡ after_field fs
    → together (quoted k ∷ text ":" ∷ (pieces v ++ more_fields fs))
      ≡ quoted k ++ b':' ∷ (render v ++ after_field fs)
fields_together k v fs h e =
    ap (λ s. quoted k ++ b':' ∷ s)
      (glue (pieces v) (more_fields fs) (render v) (after_field fs) h e)

mutual
  unfolding pieces render

  together-pieces : (v : Value) → together (pieces v) ≡ render v
  together-pieces (str s) = append-nil (quoted s)
  together-pieces (num n) = append-nil (decimal 20 n [])
  together-pieces (negative n) = append-nil (b'-' ∷ decimal 20 n [])
  together-pieces (real t) = append-nil t
  together-pieces (boolean true) = refl
  together-pieces (boolean false) = refl
  together-pieces null = refl
  together-pieces (arr nil) = refl
  together-pieces (arr (cons x nil)) =
      items_together b'[' x nil (together-element b'[' x) (together-more_items nil)
  together-pieces (arr (cons x (cons y ys))) =
      items_together b'[' x (cons y ys) (together-element b'[' x) (together-more_items (cons y ys))
  together-pieces (obj end) = refl
  together-pieces (obj (field k v end)) =
      ap (λ s. b'{' ∷ s) (fields_together k v end (together-pieces v) (together-more_fields end))
  together-pieces (obj (field k v (field j w fs))) =
      ap (λ s. b'{' ∷ s)
        (fields_together k v (field j w fs) (together-pieces v)
          (together-more_fields (field j w fs)))

  together-element : (c : ℕ) (v : Value) → together (element_pieces c v) ≡ c ∷ render v
  together-element c (str s) = append-nil (c ∷ quoted s)
  together-element c (num n) = append-nil (c ∷ decimal 20 n [])
  together-element c (negative n) = append-nil (c ∷ b'-' ∷ decimal 20 n [])
  together-element c (real t) = append-nil (c ∷ t)
  together-element c (boolean true) = refl
  together-element c (boolean false) = refl
  together-element c null = refl
  together-element c (arr nil) = refl
  together-element c (arr (cons x nil)) =
      ap (λ s. c ∷ s)
        (items_together b'[' x nil (together-element b'[' x) (together-more_items nil))
  together-element c (arr (cons x (cons y ys))) =
      ap (λ s. c ∷ s)
        (items_together b'[' x (cons y ys) (together-element b'[' x)
          (together-more_items (cons y ys)))
  together-element c (obj end) = refl
  together-element c (obj (field k v end)) =
      ap (λ s. c ∷ b'{' ∷ s)
        (fields_together k v end (together-pieces v) (together-more_fields end))
  together-element c (obj (field k v (field j w fs))) =
      ap (λ s. c ∷ b'{' ∷ s)
        (fields_together k v (field j w fs) (together-pieces v)
          (together-more_fields (field j w fs)))

  together-more_items : (xs : Items) → together (more_items xs) ≡ after_item xs
  together-more_items nil = refl
  together-more_items (cons x nil) =
      items_together b',' x nil (together-element b',' x) (together-more_items nil)
  together-more_items (cons x (cons y ys)) =
      items_together b',' x (cons y ys) (together-element b',' x) (together-more_items (cons y ys))

  together-more_fields : (fs : Fields) → together (more_fields fs) ≡ after_field fs
  together-more_fields end = refl
  together-more_fields (field k v end) =
      ap (λ s. b',' ∷ s) (fields_together k v end (together-pieces v) (together-more_fields end))
  together-more_fields (field k v (field j w fs)) =
      ap (λ s. b',' ∷ s)
        (fields_together k v (field j w fs) (together-pieces v)
          (together-more_fields (field j w fs)))

encode_utf8-append : (s t : Text) → encode_utf8 (s ++ t) ≡ encode_utf8 s ++ encode_utf8 t
unfolding encode_utf8
encode_utf8-append [] t = refl
encode_utf8-append (c ∷ cs) t =
    ap (λ bs. utf8 c ++ bs) (encode_utf8-append cs t)
    ∙ sym (append_assoc (utf8 c) (encode_utf8 cs) (encode_utf8 t))

any-append :
    (s t : Text)
    → any is_surrogate (s ++ t) ≡ false
    → (any is_surrogate s ≡ false) × (any is_surrogate t ≡ false)
any-append [] t h = (refl, h)
any-append (c ∷ cs) t h =
    let (l, r) = any-append cs t (ground (arith, h)) in (ground (arith, h, l), r)

fits_lem : {m n : ℕ} → m ≤ n → ltb n m ≡ false
fits_lem h = ground (arith, h)

write_pieces-together :
    (limit size : ℕ) (ps : List Text)
    → any is_surrogate (together ps) ≡ false
    → size + length (encode_utf8 (together ps)) ≤ limit
    → write_pieces limit size ps ≡ ok (encode_utf8 (together ps))
unfolding write_pieces write
write_pieces-together limit size [] h k = refl
write_pieces-together limit size (p ∷ ps) h k =
    let (here, there) = any-append p (together ps) h in
    let bytes = encode_utf8-append p (together ps) in
    let sum = ap length bytes ∙ length-append (encode_utf8 p) (encode_utf8 (together ps)) in
    let rest =
      write_pieces-together limit (size + length (encode_utf8 p)) ps there
        (omega (arith, k, sum)) in
    let fits : ltb limit (size + length (encode_utf8 p)) ≡ false =
      fits_lem (omega (arith, k, sum)) in
    rw (here, fits) (rw rest (ap ok (sym bytes)))

-- A value whose text has no lone surrogate and fits in the limit is written as that text.
pub json_bytes-render :
    (limit : ℕ) (v : Value)
    → any is_surrogate (render (sort_value v)) ≡ false
    → length (encode_utf8 (render (sort_value v))) ≤ limit
    → json_bytes limit v ≡ ok (encode_utf8 (render (sort_value v)))
unfolding json_bytes
json_bytes-render limit v h k =
    let whole = together-pieces (sort_value v) in
    write_pieces-together limit 0 (pieces (sort_value v))
      (subst (λ s. any is_surrogate s ≡ false) (sym whole) h)
      (let fits = subst (λ s. length (encode_utf8 s) ≤ limit) (sym whole) k in omega (arith, fits))
    ∙ ap (λ s. ok (encode_utf8 s)) whole
