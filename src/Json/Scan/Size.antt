-- ===== src/Json/Scan/Size.antt =====
-- The depth and the nodes of a JSON value, and the texts that may follow one.
use infra_artifact_ledger.Prelude.{
  ℕ, suc, ◌+◌, Bool, true, false, ◌&&◌, ◌||◌, [], ◌∷◌, eqb, ltb, if◌then◌else◌,
}
use infra_artifact_ledger.Text.{Text}
use infra_artifact_ledger.Canonical.{
  Value, Items, Fields, str, num, negative, real, boolean, null, arr, obj, nil, cons, end, field,
}

abbrev pub larger : ℕ → ℕ → ℕ
larger a b = if ltb a b then b else a

-- A container counts one level more than what is in it.
unfoldable mutual
  pub depth : Value → ℕ
  depth (arr xs) = suc (depth_items xs)
  depth (obj fs) = suc (depth_fields fs)
  depth (str s) = 0
  depth (num n) = 0
  depth (negative n) = 0
  depth (real t) = 0
  depth (boolean b) = 0
  depth null = 0

  pub depth_items : Items → ℕ
  depth_items nil = 0
  depth_items (cons x xs) = larger (depth x) (depth_items xs)

  pub depth_fields : Fields → ℕ
  depth_fields end = 0
  depth_fields (field k v fs) = larger (depth v) (depth_fields fs)

-- Every value is a node; keys are not.
unfoldable mutual
  pub nodes : Value → ℕ
  nodes (arr xs) = suc (nodes_items xs)
  nodes (obj fs) = suc (nodes_fields fs)
  nodes (str s) = 1
  nodes (num n) = 1
  nodes (negative n) = 1
  nodes (real t) = 1
  nodes (boolean b) = 1
  nodes null = 1

  pub nodes_items : Items → ℕ
  nodes_items nil = 0
  nodes_items (cons x xs) = nodes x + nodes_items xs

  pub nodes_fields : Fields → ℕ
  nodes_fields end = 0
  nodes_fields (field k v fs) = nodes v + nodes_fields fs

-- No float is in the value.
unfoldable mutual
  pub exact : Value → Bool
  exact (arr xs) = exact_items xs
  exact (obj fs) = exact_fields fs
  exact (real t) = false
  exact (str s) = true
  exact (num n) = true
  exact (negative n) = true
  exact (boolean b) = true
  exact null = true

  pub exact_items : Items → Bool
  exact_items nil = true
  exact_items (cons x xs) = exact x && exact_items xs

  pub exact_fields : Fields → Bool
  exact_fields end = true
  exact_fields (field k v fs) = exact v && exact_fields fs

-- What follows a value in a rendered text: nothing, a comma, or the end of a container.
abbrev pub ends : Text → Bool
ends [] = true
ends (c ∷ cs) = eqb c b',' || eqb c b']' || eqb c b'}'
