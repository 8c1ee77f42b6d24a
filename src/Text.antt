-- ===== src/Text.antt =====
-- Python's `str` as a list of code points, lone surrogates included, and `bytes` as a list of
-- numbers below 256.
use Prim.Native.Char.{code}
use Prim.Native.String.{String}
use native.Mathlib.Decide.{ℕ_discrete}
use infra_artifact_ledger.Prelude.{ℕ, Bool, true, false, List, [], ◌∷◌, Eq, ltb, eqb, if◌then◌else◌}

abbrev pub Text : Type 0
Text = List ℕ

abbrev pub Bytes : Type 0
Bytes = List ℕ

-- A literal of the source.
abbrev pub text : String → Text
text String.[] = []
text (String.◌∷◌ c s) = code c ∷ text s

unfoldable pub Text-discrete : Discrete Text
unfolding ℕ_discrete
Text-discrete = hlevel ℕ_discrete

instance abbrev pub text_eq : Eq Text
text_eq = record { dec = Text-discrete }

unfoldable pub Texts-discrete : Discrete (List Text)
unfolding ℕ_discrete
Texts-discrete = hlevel ℕ_discrete

instance abbrev pub texts_eq : Eq (List Text)
texts_eq = record { dec = Texts-discrete }

-- Python's `<=` between strings: by code points, a prefix first.
unfoldable pub text_le : Text → Text → Bool
text_le [] ys = true
text_le (x ∷ xs) [] = false
text_le (x ∷ xs) (y ∷ ys) =
    let rest = text_le xs ys in if ltb x y then true else if eqb x y then rest else false
