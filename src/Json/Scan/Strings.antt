-- ===== src/Json/Scan/Strings.antt =====
-- The scanner at the texts of strings, numbers and words.
use infra_artifact_ledger.Prelude.{
  ℕ, zero, suc, ◌+◌, ◌/◌, ◌%◌, ◌≤◌, ◌≡◌, refl, ap, ◌∙◌, true, false, [], ◌∷◌, ◌++◌, arith, ltb, ◌≢◌,
  inl, inr, Bool-cases, All, append_assoc, if◌then◌else◌,
}
use infra_artifact_ledger.Text.{Text}
use infra_artifact_ledger.Errors.{Result, ◌>>◌}
use infra_artifact_ledger.Canonical.{escape, escape_all, quoted, decimal}
use infra_artifact_ledger.Json.Scan.{
  plain, bare, is_space, in_string, action, is_bare, followed_by_colon, counted, scan,
}
use infra_artifact_ledger.Json.Scan.Size.{ends}

module _ (room n : ℕ) where
  -- A character of a string's text, from an even run of backslashes to an even run.
  scan-escape :
      (c run : ℕ) (rest : Text) (r : Result (Unit {0}))
      → run % 2 ≡ 0
      → ((next : ℕ) → next % 2 ≡ 0 → scan (in_string next) room n rest ≡ r)
      → scan (in_string run) room n (escape c ++ rest) ≡ r
  unfolding scan action escape
  scan-escape c run rest r even k =
      let zero_run : scan (in_string 0) room n rest ≡ r = k 0 refl in
      let two_more : scan (in_string (suc (suc run))) room n rest ≡ r =
        k (suc (suc run)) (omega arith) in
      ground arith

  -- After a string: it counts unless a colon follows.
  abbrev pub ended : Text → Result (Unit {0})
  ended rest =
      let m = if followed_by_colon rest then n else suc n in counted m >> scan plain room m rest

  scan-escape_all :
      (s : Text) (run : ℕ) (rest : Text)
      → run % 2 ≡ 0
      → scan (in_string run) room n (escape_all s ++ 34 ∷ rest) ≡ ended rest
  unfolding scan action
  scan-escape_all [] run rest even = ground arith
  scan-escape_all (c ∷ cs) run rest even =
      rw (append_assoc (escape c) (escape_all cs) (34 ∷ rest)) (
        scan-escape c run (escape_all cs ++ 34 ∷ rest) (ended rest) even
          (λ next e. scan-escape_all cs next rest e))

  pub scan-quoted : (s rest : Text) → scan plain room n (quoted s ++ rest) ≡ ended rest
  unfolding scan action
  scan-quoted s rest =
      ap (scan (in_string 0) room n) (append_assoc (escape_all s) (34 ∷ []) rest)
      ∙ scan-escape_all s 0 rest refl

  scan_bare-append :
      (xs rest : Text)
      → All (λ c. is_bare c ≡ true) xs
      → scan bare room n (xs ++ rest) ≡ scan bare room n rest
  unfolding scan action
  scan_bare-append [] rest h = refl
  scan_bare-append (x ∷ xs) rest h = ground (arith, h.0, scan_bare-append xs rest h.1)

  scan_bare-ends : (rest : Text) → ends rest ≡ true → scan bare room n rest ≡ scan plain room n rest
  unfolding scan action
  scan_bare-ends [] h = refl
  scan_bare-ends (c ∷ rest) h = ground arith

-- A character that may begin a number or a word.
abbrev pub IsTokenChar : ℕ → Type 0
IsTokenChar c = (is_bare c ≡ true) × (c ≢ 34) × (is_space c ≡ false)

-- A token with no quote at its start is one node.
pub scan-token :
    (room n c : ℕ) (xs rest : Text)
    → IsTokenChar c
    → All (λ x. is_bare x ≡ true) xs
    → ends rest ≡ true
    → scan plain room n (c ∷ (xs ++ rest)) ≡ (counted (suc n) >> scan plain room (suc n) rest)
unfolding scan action
scan-token room n c xs rest h k e = ground (
  arith,
  h.0,
  h.1,
  h.2,
  scan_bare-append room (suc n) xs rest k,
  scan_bare-ends room (suc n) rest e,
)

abbrev IsDigit : ℕ → Type 0
IsDigit c = (48 ≤ c) × (c ≤ 57)

digit-IsTokenChar : (c : ℕ) → IsDigit c → IsTokenChar c
digit-IsTokenChar c h =
    (ground (arith, h.0, h.1), λ e. omega (arith, h.0), ground (arith, h.0, h.1))

digits_bare : (xs : Text) → All IsDigit xs → All (λ x. is_bare x ≡ true) xs
digits_bare [] h = tt
digits_bare (x ∷ xs) h = ((digit-IsTokenChar x h.0).0, digits_bare xs h.1)

-- The digits of a number: a first one, and more.
decimal-digits :
    (fuel n c : ℕ) (acc : Text)
    → IsDigit c
    → All IsDigit acc
    → (d : ℕ) × (ds : Text) × (decimal fuel n (c ∷ acc) ≡ d ∷ ds) × IsDigit d × All IsDigit ds
unfolding decimal
decimal-digits zero n c acc h k = (c, acc, refl, h, k)
decimal-digits (suc fuel) n c acc h k = elim (Bool-cases (ltb n 10)) [
  | inl small ↦ (48 + n, c ∷ acc, rw small refl, (omega arith, ground (arith, small)), (h, k))
  | inr large ↦
      let (d, ds, e, first, more) =
        decimal-digits fuel (n / 10) (48 + n % 10) (c ∷ acc) (omega arith, omega arith) (h, k) in
      (d, ds, rw large e, first, more)
]

decimal_token :
    (fuel n : ℕ)
    → (d : ℕ) × (ds : Text) × (decimal (suc fuel) n [] ≡ d ∷ ds) × IsDigit d × All IsDigit ds
unfolding decimal
decimal_token fuel n = elim (Bool-cases (ltb n 10)) [
  | inl small ↦ (48 + n, [], rw small refl, (omega arith, ground (arith, small)), tt)
  | inr large ↦
      let (d, ds, e, first, more) =
        decimal-digits fuel (n / 10) (48 + n % 10) [] (omega arith, omega arith) tt in
      (d, ds, rw large e, first, more)
]

pub scan-decimal :
    (room n i : ℕ) (rest : Text)
    → ends rest ≡ true
    → scan plain room n (decimal 20 i [] ++ rest)
      ≡ (counted (suc n) >> scan plain room (suc n) rest)
scan-decimal room n i rest e =
    let (d, ds, same, first, more) = decimal_token 19 i in
    rw same (scan-token room n d ds rest (digit-IsTokenChar d first) (digits_bare ds more) e)

pub scan-negative :
    (room n i : ℕ) (rest : Text)
    → ends rest ≡ true
    → scan plain room n (b'-' ∷ (decimal 20 i [] ++ rest))
      ≡ (counted (suc n) >> scan plain room (suc n) rest)
scan-negative room n i rest e =
    let (d, ds, same, first, more) = decimal_token 19 i in
    rw same (
      scan-token room n b'-' (d ∷ ds) rest (refl, λ h. omega (arith, h), refl)
        (digits_bare (d ∷ ds) (first, more)) e)
