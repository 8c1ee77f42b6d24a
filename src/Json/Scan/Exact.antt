-- ===== src/Json/Scan/Exact.antt =====
-- The scanner's verdict on a rendered value, by the depth and the nodes of the value.
use infra_artifact_ledger.Prelude.{
  ℕ, zero, suc, ◌+◌, ◌≤◌, ◌≡◌, refl, ap, ◌∙◌, sym, inl, inr, Bool-cases, true, false, ◌&&◌, [], ◌∷◌,
  ◌++◌, arith, leb, ltb, append_assoc, append-nil, if◌then◌else◌,
}
use infra_artifact_ledger.Text.{Text, text}
use infra_artifact_ledger.Errors.{Code, Result, ok, err, ◌>>◌}
use infra_artifact_ledger.Validation.Limits.{max_nodes, max_depth}
use infra_artifact_ledger.Canonical.{
  Value, Items, Fields, str, num, negative, real, boolean, null, arr, obj, nil, cons, end, field,
  quoted, render, render_items, render_fields,
}
use infra_artifact_ledger.Json.Scan.{
  plain, Action, action, followed_by_colon, counted, scan, scan_limits,
}
use infra_artifact_ledger.Json.Scan.Size.{
  depth, depth_items, depth_fields, nodes, nodes_items, nodes_fields, exact, exact_items,
  exact_fields, ends,
}
use infra_artifact_ledger.Json.Scan.Strings.{scan-quoted, scan-token, scan-decimal, scan-negative}

-- A part of depth `d` and `k` nodes fits, and the scan goes on with the rest, or it is refused.
abbrev goes : ℕ → ℕ → ℕ → ℕ → ℕ → Text → Result (Unit {0})
goes room d n k after rest =
    if leb d room && leb (n + k) max_nodes
    then scan plain after (n + k) rest
    else err Code.resource_limit

followed-ends : (rest : Text) → ends rest ≡ true → followed_by_colon rest ≡ false
unfolding followed_by_colon
followed-ends [] h = refl
followed-ends (c ∷ rest) h = ground arith

leaf :
    (room n : ℕ) (rest : Text)
    → (counted (suc n) >> scan plain room (suc n) rest) ≡ goes room 0 n 1 room rest
leaf room n rest = ground arith

scan-string :
    (s : Text) (room n : ℕ) (rest : Text)
    → ends rest ≡ true
    → scan plain room n (quoted s ++ rest) ≡ goes room 0 n 1 room rest
scan-string s room n rest e =
    scan-quoted room n s rest ∙ ground (arith, followed-ends rest e, leaf room n rest)

scan-key :
    (k : Text) (room n : ℕ) (rest : Text)
    → n ≤ max_nodes
    → scan plain room n (quoted k ++ b':' ∷ rest) ≡ scan plain room n rest
unfolding scan action followed_by_colon
scan-key k room n rest h = scan-quoted room n k (b':' ∷ rest) ∙ ground arith

-- A container's bracket is a node, and opens a level for what is in it.
scan-container :
    (c room n d k : ℕ) (inside rest : Text)
    → action plain c ≡ Action.deeper
    → ((less : ℕ)
        → suc n ≤ max_nodes
        → scan plain less (suc n) (inside ++ rest) ≡ goes less d (suc n) k (suc less) rest)
    → scan plain room n (c ∷ (inside ++ rest)) ≡ goes room (suc d) n (suc k) room rest
unfolding scan
scan-container c zero n d k inside rest a h = ground (arith, a)
scan-container c (suc less) n d k inside rest a h = elim (Bool-cases (ltb max_nodes (suc n))) [
  | inl over ↦ ground (arith, a, over)
  | inr fits ↦ ground (arith, a, fits, h less (ground arith))
]

-- The last part of a container, and a part with more behind it.
scan-last :
    (c room n d k : ℕ) (part rest : Text)
    → action plain c ≡ Action.shallower
    → scan plain room n (part ++ c ∷ rest) ≡ goes room d n k room (c ∷ rest)
    → scan plain room n ((part ++ c ∷ []) ++ rest) ≡ goes room d n k (suc room) rest
unfolding scan
scan-last c room n d k part rest a h =
    ap (scan plain room n) (append_assoc part (c ∷ []) rest) ∙ h ∙ ground (arith, a)

scan-more :
    (room n d k d' k' : ℕ) (part more rest : Text)
    → scan plain room n (part ++ b',' ∷ (more ++ rest))
      ≡ goes room d n k room (b',' ∷ (more ++ rest))
    → (n + k ≤ max_nodes
        → scan plain room (n + k) (more ++ rest) ≡ goes room d' (n + k) k' (suc room) rest)
    → scan plain room n ((part ++ b',' ∷ more) ++ rest)
      ≡ goes room (if ltb d d' then d' else d) n (k + k') (suc room) rest
unfolding scan action
scan-more room n d k d' k' part more rest h m =
    ap (scan plain room n) (append_assoc part (b',' ∷ more) rest)
    ∙ h
    ∙ elim (Bool-cases (leb (n + k) max_nodes)) [
      | inl fits ↦ ground (arith, fits, m (ground arith))
      | inr over ↦ ground (arith, over)
    ]

scan-field :
    (k : Text) (room n d j : ℕ) (after : ℕ) (part rest : Text)
    → n ≤ max_nodes
    → scan plain room n (part ++ rest) ≡ goes room d n j after rest
    → scan plain room n ((quoted k ++ b':' ∷ part) ++ rest) ≡ goes room d n j after rest
scan-field k room n d j after part rest h e =
    ap (scan plain room n) (append_assoc (quoted k) (b':' ∷ part) rest)
    ∙ scan-key k room n (part ++ rest) h
    ∙ e

one_part :
    (room n d k : ℕ) (rest : Text)
    → goes room d n k (suc room) rest
      ≡ goes room (if ltb d 0 then 0 else d) n (k + 0) (suc room) rest
one_part room n d k rest = ground arith

mutual
  unfolding action depth nodes exact render

  scan-render :
      (v : Value) (room n : ℕ) (rest : Text)
      → exact v ≡ true
      → ends rest ≡ true
      → scan plain room n (render v ++ rest) ≡ goes room (depth v) n (nodes v) room rest
  scan-render (str s) room n rest x e = scan-string s room n rest e
  scan-render (num i) room n rest x e = scan-decimal room n i rest e ∙ leaf room n rest
  scan-render (negative i) room n rest x e = scan-negative room n i rest e ∙ leaf room n rest
  scan-render (real t) room n rest x e = cc
  scan-render (boolean true) room n rest x e =
      scan-token room n b't' (text "rue") rest (refl, (λ h. omega (arith, h)), refl)
        (refl, (refl, (refl, tt))) e
      ∙ leaf room n rest
  scan-render (boolean false) room n rest x e =
      scan-token room n b'f' (text "alse") rest (refl, (λ h. omega (arith, h)), refl)
        (refl, (refl, (refl, (refl, tt)))) e
      ∙ leaf room n rest
  scan-render null room n rest x e =
      scan-token room n b'n' (text "ull") rest (refl, (λ h. omega (arith, h)), refl)
        (refl, (refl, (refl, tt))) e
      ∙ leaf room n rest
  scan-render (arr xs) room n rest x e =
      scan-container b'[' room n (depth_items xs) (nodes_items xs) (render_items xs) rest refl
        (λ less h. scan-items xs less (suc n) rest x h)
  scan-render (obj fs) room n rest x e =
      scan-container b'{' room n (depth_fields fs) (nodes_fields fs) (render_fields fs) rest refl
        (λ less h. scan-fields fs less (suc n) rest x h)

  scan-items :
      (xs : Items) (room n : ℕ) (rest : Text)
      → exact_items xs ≡ true
      → n ≤ max_nodes
      → scan plain room n (render_items xs ++ rest)
        ≡ goes room (depth_items xs) n (nodes_items xs) (suc room) rest
  scan-items nil room n rest x h = scan-last b']' room n 0 0 [] rest refl (ground arith)
  scan-items (cons v nil) room n rest x h =
      scan-last b']' room n (depth v) (nodes v) (render v) rest refl
        (scan-render v room n (b']' ∷ rest) (ground arith) refl)
      ∙ one_part room n (depth v) (nodes v) rest
  scan-items (cons v (cons w ws)) room n rest x h =
      scan-more room n (depth v) (nodes v) (depth_items (cons w ws)) (nodes_items (cons w ws))
        (render v) (render_items (cons w ws)) rest (scan-render v room n _ (ground arith) refl)
        (λ fits. scan-items (cons w ws) room (n + nodes v) rest (ground arith) fits)

  scan-fields :
      (fs : Fields) (room n : ℕ) (rest : Text)
      → exact_fields fs ≡ true
      → n ≤ max_nodes
      → scan plain room n (render_fields fs ++ rest)
        ≡ goes room (depth_fields fs) n (nodes_fields fs) (suc room) rest
  scan-fields end room n rest x h = scan-last b'}' room n 0 0 [] rest refl (ground arith)
  scan-fields (field k v end) room n rest x h =
      scan-field k room n _ _ (suc room) (render v ++ b'}' ∷ []) rest h (
        scan-last b'}' room n (depth v) (nodes v) (render v) rest refl
          (scan-render v room n (b'}' ∷ rest) (ground arith) refl)
        ∙ one_part room n (depth v) (nodes v) rest)
  scan-fields (field k v (field j w fs)) room n rest x h =
      scan-field k room n _ _ (suc room) (render v ++ b',' ∷ render_fields (field j w fs)) rest h (
        scan-more room n (depth v) (nodes v) (depth_fields (field j w fs))
          (nodes_fields (field j w fs)) (render v) (render_fields (field j w fs)) rest
          (scan-render v room n _ (ground arith) refl)
          (λ fits. scan-fields (field j w fs) room (n + nodes v) rest (ground arith) fits))

-- On the text of a value without floats the scanner finds exactly the value's depth and nodes: it
-- passes the text if both are within the limits, and refuses it with RESOURCE_LIMIT otherwise.
pub scan_limits-render :
    (v : Value)
    → exact v ≡ true
    → scan_limits (render v) ≡ (
        if leb (depth v) max_depth && leb (nodes v) max_nodes
        then ok tt
        else err Code.resource_limit)
unfolding scan_limits scan
scan_limits-render v x =
    ap (scan plain max_depth 0) (sym (append-nil (render v)))
    ∙ scan-render v max_depth 0 [] x refl
    ∙ ap
        (λ k. if leb (depth v) max_depth && leb k max_nodes then ok tt else err Code.resource_limit)
        (omega arith)
