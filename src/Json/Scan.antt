-- ===== src/Json/Scan.antt =====
-- `_scan_limits` of validation.py: the bounds on depth and nodes, before the decoder runs.
pub mod Size
pub mod Strings
pub mod Exact
use infra_artifact_ledger.Prelude.{
  ℕ, zero, suc, ◌+◌, ◌%◌, Bool, true, false, not, ◌&&◌, ◌||◌, List, [], ◌∷◌, eqb, leb, ltb,
  if◌then◌else◌,
}
use infra_artifact_ledger.Text.{Text}
use infra_artifact_ledger.Errors.{Code, Result, ok, err, ◌>>◌}
use infra_artifact_ledger.Validation.Limits.{fail_if, max_nodes, max_depth}
use infra_artifact_ledger.Validation.Scalars.{within}

-- `" \t\r\n"`
abbrev pub is_space : ℕ → Bool
is_space c = eqb c 32 || eqb c 9 || eqb c 13 || eqb c 10

-- `\s` of a pattern on str
abbrev pub is_unicode_space : ℕ → Bool
is_unicode_space c =
    within 9 13 c
    || within 28 32 c
    || eqb c 0x85
    || eqb c 0xa0
    || eqb c 0x1680
    || within 0x2000 0x200a c
    || eqb c 0x2028
    || eqb c 0x2029
    || eqb c 0x202f
    || eqb c 0x205f
    || eqb c 0x3000

abbrev pub opens : ℕ → Bool
opens c = eqb c b'{' || eqb c b'['

abbrev pub closes : ℕ → Bool
closes c = eqb c b'}' || eqb c b']'

-- A character of `_BARE_TOKEN`
abbrev pub is_bare : ℕ → Bool
is_bare c = not (is_unicode_space c || opens c || closes c || eqb c b',' || eqb c b':')

-- Where the scanner stands: between tokens, in a string after a run of backslashes, in a bare token.
pub data Mode : Type 0 where
  plain bare : Mode
  in_string : ℕ → Mode

-- What a character does there.
pub data Action : Type 0 where
  skip : Mode → Action
  deeper shallower token string_end stop : Action

abbrev plain_action : ℕ → Action
plain_action c =
    if is_space c || eqb c b',' || eqb c b':'
    then skip plain
    else if opens c
    then deeper
    else if closes c
    then shallower
    else if eqb c 34
    then skip (in_string 0)
    else if is_bare c
    then token
    else stop

unfoldable pub action : Mode → ℕ → Action
action plain c = plain_action c
action bare c = if is_bare c then skip bare else plain_action c
action (in_string run) c =
    if eqb c 34
    then (if eqb (run % 2) 0 then string_end else skip (in_string 0))
    else if eqb c 92
    then skip (in_string (suc run))
    else skip (in_string 0)

-- A string that a colon follows is a key.
unfoldable pub followed_by_colon : Text → Bool
followed_by_colon [] = false
followed_by_colon (c ∷ cs) =
    let rest = followed_by_colon cs in if is_space c then rest else eqb c b':'

abbrev pub counted : ℕ → Result (Unit {0})
counted nodes = fail_if (ltb max_nodes nodes) Code.resource_limit

-- The first number is how many levels may still be opened, the second the nodes so far.
unfoldable pub scan : Mode → ℕ → ℕ → Text → Result (Unit {0})
unfolding action followed_by_colon
scan mode room nodes [] = ok tt
scan mode room nodes (c ∷ cs) = elim (action mode c) [
  | skip next ↦ scan next room nodes cs
  | deeper ↦ elim room [
    | zero ↦ err Code.resource_limit
    | suc less ↦ counted (suc nodes) >> scan plain less (suc nodes) cs
  ]
  | shallower ↦ counted nodes >> scan plain (suc room) nodes cs
  | token ↦ counted (suc nodes) >> scan bare room (suc nodes) cs
  | string_end ↦
      let n = if followed_by_colon cs then nodes else suc nodes in counted n >> scan plain room n cs
  | stop ↦ ok tt
]

unfoldable pub scan_limits : Text → Result (Unit {0})
unfolding scan
scan_limits text = scan plain max_depth 0 text
