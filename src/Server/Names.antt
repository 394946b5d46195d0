-- ===== src/Server/Names.antt =====
-- The built-in map from addresses that net/server/server.go keeps its connections in.
use Prim.Native.String.{String}
use text.Mathlib.Text.{◌==◌}
use text.Mathlib.TextEquality.{eq_iff}
use zput_net_golang.Prelude.{◌≡◌, arith, List, [], ◌∷◌, Option, none, some, if◌then◌else◌}

module _ {C : Type 0} where
  unfoldable pub find : String → List (String × C) → Option C
  find name [] = none
  find name ((k, c) ∷ m) = if k == name then some c else find name m

  -- `delete(m, name)`
  unfoldable pub without : String → List (String × C) → List (String × C)
  without name [] = []
  without name ((k, c) ∷ m) = let rest = without name m in if k == name then rest else (k, c) ∷ rest

  -- `m[name] = c`
  unfoldable pub with_name : String → C → List (String × C) → List (String × C)
  unfolding without
  with_name name c m = (name, c) ∷ without name m

  pub find-without :
      (j name : String) (m : List (String × C))
      → find j (without name m) ≡ (if name == j then none else find j m)
  unfolding find without
  find-without j name [] = ground arith
  find-without j name ((k, c) ∷ m) =
      ground (arith, eq_iff name j, eq_iff k j, eq_iff k name, find-without j name m)

  pub find-with_name :
      (j name : String) (c : C) (m : List (String × C))
      → find j (with_name name c m) ≡ (if name == j then some c else find j m)
  unfolding find with_name
  find-with_name j name c m = ground (arith, find-without j name m)
