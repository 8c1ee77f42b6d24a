-- ===== src/Json/Tokens.antt =====
-- The reader at the texts that `json.dumps` writes for strings and integers.
use infra_artifact_ledger.Prelude.{
  ℕ, suc, ◌+◌, ◌*◌, ◌/◌, ◌%◌, ◌≤◌, ◌<◌, ◌≡◌, ◌≢◌, refl, ap, ◌∙◌, [], ◌∷◌, ◌++◌, Option, some, none,
  arith, append_assoc,
}
use infra_artifact_ledger.Text.{Text}
use infra_artifact_ledger.Canonical.{escape, escape_all, hex_digit}
use infra_artifact_ledger.Json.Strings.{
  StringMode, inside, escaped, unit, StringStep, string_step, string_body, given,
}

given-nil : (r : Option (Text × Text)) → given [] r ≡ r
given-nil none = refl
given-nil (some p) = refl

string_body_gives :
    (mode next : StringMode) (c : ℕ) (out cs : Text)
    → string_step mode c ≡ StringStep.gives out next
    → string_body mode (c ∷ cs) ≡ given out (string_body next cs)
unfolding string_body
string_body_gives mode next c out cs h =
    ap
      (λ st. elim st as (λ _. Option (Text × Text)) [
        | StringStep.gives o n ↦ given o (string_body n cs)
        | StringStep.stops o ↦ some (o, cs)
        | StringStep.wrong ↦ none
      ])
      h

-- A step that gives nothing out.
silent :
    (mode next : StringMode) (c : ℕ) (cs : Text)
    → string_step mode c ≡ StringStep.gives [] next
    → string_body mode (c ∷ cs) ≡ string_body next cs
silent mode next c cs h = string_body_gives mode next c [] cs h ∙ given-nil _

hex_step_digit :
    (k acc d : ℕ)
    → d < 16
    → string_step (unit none (suc k) acc) (hex_digit d)
      ≡ StringStep.gives [] (unit none k (acc * 16 + d))
unfolding string_step
hex_step_digit k acc d h = let e : acc * 16 + d ≡ acc * 16 + d = refl in ground (arith, h)

hex_last :
    (acc d : ℕ)
    → d < 16
    → acc * 16 + d < 0xd800
    → string_step (unit none 0 acc) (hex_digit d)
      ≡ StringStep.gives ((acc * 16 + d) ∷ []) (inside none)
unfolding string_step
hex_last acc d h k = ground (arith, h, k)

inside_backslash : string_step (inside none) 92 ≡ StringStep.gives [] (escaped none)
unfolding string_step
inside_backslash = refl

escaped_u : string_step (escaped none) b'u' ≡ StringStep.gives [] (unit none 3 0)
unfolding string_step
escaped_u = refl

plain_step :
    (c : ℕ)
    → 32 ≤ c
    → c ≢ 34
    → c ≢ 92
    → string_step (inside none) c ≡ StringStep.gives (c ∷ []) (inside none)
unfolding string_step
plain_step c h k l = ground (arith, h, k, l)

-- Two characters for one.
string_body-two :
    (e c : ℕ) (tail : Text)
    → string_step (escaped none) e ≡ StringStep.gives (c ∷ []) (inside none)
    → string_body (inside none) (92 ∷ e ∷ tail) ≡ given (c ∷ []) (string_body (inside none) tail)
string_body-two e c tail h =
    silent (inside none) (escaped none) 92 (e ∷ tail) (inside_backslash)
    ∙ string_body_gives (escaped none) (inside none) e (c ∷ []) tail h

unit_of : (c : ℕ) → c < 32 → c / 16 < 16 × c % 16 < 16 × c / 16 * 16 + c % 16 ≡ c
unit_of c h = (omega arith, omega arith, omega arith)

-- The six characters of a control character.
string_body-unit :
    (c : ℕ) (tail : Text)
    → c < 32
    → string_body
        (inside none)
        (92 ∷ b'u' ∷ b'0' ∷ b'0' ∷ hex_digit (c / 16) ∷ hex_digit (c % 16) ∷ tail)
      ≡ given (c ∷ []) (string_body (inside none) tail)
string_body-unit c tail h =
    let (low, high, sum) = unit_of c h in
    silent (inside none) (escaped none) 92 _ inside_backslash
    ∙ silent (escaped none) (unit none 3 0) b'u' _ escaped_u
    ∙ silent (unit none 3 0) (unit none 2 0) b'0' _ (hex_step_digit 2 0 0 (omega arith))
    ∙ silent (unit none 2 0) (unit none 1 0) b'0' _ (hex_step_digit 1 0 0 (omega arith))
    ∙ silent (unit none 1 0) (unit none 0 (c / 16)) _ _ (
        hex_step_digit 0 0 (c / 16) low
        ∙ ap (λ n. StringStep.gives [] (unit none 0 n)) (omega arith))
    ∙ string_body_gives (unit none 0 (c / 16)) (inside none) _ (c ∷ []) tail (
        hex_last (c / 16) (c % 16) high (omega arith)
        ∙ ap (λ n. StringStep.gives (n ∷ []) (inside none)) sum)

string_body-plain :
    (c : ℕ) (tail : Text)
    → 32 ≤ c
    → c ≢ 34
    → c ≢ 92
    → string_body (inside none) (c ∷ tail) ≡ given (c ∷ []) (string_body (inside none) tail)
string_body-plain c tail h k l =
    string_body_gives (inside none) (inside none) c (c ∷ []) tail (plain_step c h k l)

-- The letters of the two-character escapes.
short_steps :
    string_step (escaped none) 34 ≡ StringStep.gives (34 ∷ []) (inside none)
    × string_step (escaped none) 92 ≡ StringStep.gives (92 ∷ []) (inside none)
    × string_step (escaped none) b'n' ≡ StringStep.gives (10 ∷ []) (inside none)
    × string_step (escaped none) b'r' ≡ StringStep.gives (13 ∷ []) (inside none)
    × string_step (escaped none) b't' ≡ StringStep.gives (9 ∷ []) (inside none)
    × string_step (escaped none) b'f' ≡ StringStep.gives (12 ∷ []) (inside none)
    × string_step (escaped none) b'b' ≡ StringStep.gives (8 ∷ []) (inside none)
unfolding string_step
short_steps = (refl, refl, refl, refl, refl, refl, refl)

-- A character between quotes.
string_body-escape :
    (c : ℕ) (tail : Text)
    → string_body (inside none) (escape c ++ tail) ≡ given (c ∷ []) (string_body (inside none) tail)
unfolding escape
string_body-escape c tail =
    let (s34, s92, s10, s13, s9, s12, s8) = short_steps in
    ground (
      arith,
      string_body-two 34 34 tail s34,
      string_body-two 92 92 tail s92,
      string_body-two b'n' 10 tail s10,
      string_body-two b'r' 13 tail s13,
      string_body-two b't' 9 tail s9,
      string_body-two b'f' 12 tail s12,
      string_body-two b'b' 8 tail s8,
      string_body-unit c tail,
      string_body-plain c tail,
    )

pub string_body-escape_all :
    (s rest : Text) → string_body (inside none) (escape_all s ++ 34 ∷ rest) ≡ some (s, rest)
unfolding string_body string_step
string_body-escape_all [] rest = refl
string_body-escape_all (c ∷ cs) rest =
    ap (string_body (inside none)) (append_assoc (escape c) (escape_all cs) (34 ∷ rest))
    ∙ string_body-escape c (escape_all cs ++ 34 ∷ rest)
    ∙ ap (given (c ∷ [])) (string_body-escape_all cs rest)
