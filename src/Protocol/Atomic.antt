-- ===== src/Protocol/Atomic.antt =====
-- net/protocol/bool.go: a Boolean and an `int64` behind atomic operations. A call answers and leaves the
-- new value.
use zput_net_golang.Prelude.{
  ℕ, ℤ, ◌+int◌, ◌==◌, if◌then◌else◌, Bool, true, false, List, [], ◌∷◌, ◌++◌, ◌≡◌, refl, ap, ◌∙◌,
}

-- `Bool` is its `int32`.
abbrev pub AtomicBool : Type 0
AtomicBool = ℕ

unfoldable pub set_bool : Bool → AtomicBool → Bool × AtomicBool
set_bool b a = let new_v = if b then 1 else 0 in (a == 1, new_v)

unfoldable pub get_bool : AtomicBool → Bool
get_bool a = a == 1

-- `Int64`
unfoldable pub add : ℤ → ℤ → ℤ × ℤ
unfolding ◌+int◌
add i v = let sum = v +int i in (sum, sum)

unfoldable pub swap : ℤ → ℤ → ℤ × ℤ
swap i v = (v, i)

-- What calls of `Set` answer, one after the other, and the value that they leave.
abbrev pub set_all : List Bool → AtomicBool → List Bool × AtomicBool
set_all [] a = ([], a)
set_all (b ∷ bs) a =
    let (old, a1) = set_bool b a in let (olds, a2) = set_all bs a1 in (old ∷ olds, a2)

get-set : (b : Bool) (a : AtomicBool) → get_bool (set_bool b a).1 ≡ b
unfolding get_bool set_bool
get-set true a = refl
get-set false a = refl

-- Whatever it holds at first, calls of `Set` answer in turn what `Get` would, each the value set before,
-- and `Get` then answers the last.
pub set_all-get :
    (bs : List Bool) (a : AtomicBool)
    → let (olds, a1) = set_all bs a in olds ++ (get_bool a1 ∷ []) ≡ get_bool a ∷ bs
unfolding get_bool set_bool
set_all-get [] a = refl
set_all-get (b ∷ bs) a =
    ap (λ t. get_bool a ∷ t) (set_all-get bs (set_bool b a).1 ∙ ap (λ t. t ∷ bs) (get-set b a))
