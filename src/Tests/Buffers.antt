-- ===== src/Tests/Buffers.antt =====
-- A pool of byte buffers that keeps the laws, for the tests.
use zput_net_golang.Prelude.{
  ℕ, zero, suc, ◌≡◌, ◌≢◌, refl, ap, List, [], ◌∷◌, ◌++◌, Option, none, some, Bool, true, false,
  ◌==◌, if◌then◌else◌, arith,
}
use zput_net_golang.Outside.ByteBuffers.{ByteBuffers, ByteBuffersLaws}

-- Each buffer with whether it is lent; the first that is not is handed out.
abbrev pub Shelf : Type 0
Shelf = List (Bool × List ℕ)

abbrev pub lent : Shelf → ℕ → Bool
lent [] p = false
lent (b ∷ s) zero = b.0
lent (b ∷ s) (suc p) = lent s p

abbrev pub stored : Shelf → ℕ → List ℕ
stored [] p = []
stored (b ∷ s) zero = b.1
stored (b ∷ s) (suc p) = stored s p

abbrev pub take_first : Shelf → ℕ × Shelf
take_first [] = (0, (true, []) ∷ [])
take_first ((false, xs) ∷ s) = (0, (true, []) ∷ s)
take_first ((true, xs) ∷ s) = let (p, t) = take_first s in (suc p, (true, xs) ∷ t)

abbrev pub add_to : Shelf → ℕ → List ℕ → Shelf
add_to [] p xs = []
add_to (b ∷ s) zero xs = (b.0, b.1 ++ xs) ∷ s
add_to (b ∷ s) (suc p) xs = b ∷ add_to s p xs

abbrev pub give_back : Shelf → ℕ → Shelf
give_back [] p = []
give_back (b ∷ s) zero = (false, b.1) ∷ s
give_back (b ∷ s) (suc p) = b ∷ give_back s p

abbrev pub hand_in : Shelf → Option ℕ → Shelf
hand_in s none = s
hand_in s (some p) = give_back s p

abbrev pub shelf : ByteBuffers
shelf = record { Pool = Shelf; get = take_first; write = add_to; put = hand_in; bytes = stored }

first-free : (s : Shelf) → lent s (take_first s).0 ≡ false
first-free [] = refl
first-free ((false, xs) ∷ s) = refl
first-free ((true, xs) ∷ s) = first-free s

first-lent :
    (s : Shelf) (p : ℕ)
    → lent (take_first s).1 p ≡ (if p == (take_first s).0 then true else lent s p)
first-lent [] zero = refl
first-lent [] (suc p) = ground arith
first-lent ((false, xs) ∷ s) zero = ground arith
first-lent ((false, xs) ∷ s) (suc p) = ground arith
first-lent ((true, xs) ∷ s) zero = ground arith
first-lent ((true, xs) ∷ s) (suc p) = ground (arith, first-lent s p)

first-empty : (s : Shelf) → stored (take_first s).1 (take_first s).0 ≡ []
first-empty [] = refl
first-empty ((false, xs) ∷ s) = refl
first-empty ((true, xs) ∷ s) = first-empty s

first-others : (s : Shelf) (p : ℕ) → lent s p ≡ true → stored (take_first s).1 p ≡ stored s p
first-others [] p h = cc h
first-others ((false, xs) ∷ s) zero h = cc h
first-others ((false, xs) ∷ s) (suc p) h = refl
first-others ((true, xs) ∷ s) zero h = refl
first-others ((true, xs) ∷ s) (suc p) h = first-others s p h

add-lent : (s : Shelf) (q p : ℕ) (xs : List ℕ) → lent (add_to s q xs) p ≡ lent s p
add-lent [] q p xs = refl
add-lent (b ∷ s) zero zero xs = refl
add-lent (b ∷ s) zero (suc p) xs = refl
add-lent (b ∷ s) (suc q) zero xs = refl
add-lent (b ∷ s) (suc q) (suc p) xs = add-lent s q p xs

add-stored :
    (s : Shelf) (p : ℕ) (xs : List ℕ)
    → lent s p ≡ true
    → stored (add_to s p xs) p ≡ stored s p ++ xs
add-stored [] p xs h = cc h
add-stored (b ∷ s) zero xs h = refl
add-stored (b ∷ s) (suc p) xs h = add-stored s p xs h

add-others : (s : Shelf) (q p : ℕ) (xs : List ℕ) → p ≢ q → stored (add_to s q xs) p ≡ stored s p
add-others [] q p xs n = refl
add-others (b ∷ s) zero zero xs n = absurd (n refl)
add-others (b ∷ s) zero (suc p) xs n = refl
add-others (b ∷ s) (suc q) zero xs n = refl
add-others (b ∷ s) (suc q) (suc p) xs n = add-others s q p xs (λ e. n (ap suc e))

back-lent : (s : Shelf) (q p : ℕ) → lent (give_back s q) p ≡ (if p == q then false else lent s p)
back-lent [] q p = ground arith
back-lent (b ∷ s) zero zero = ground arith
back-lent (b ∷ s) zero (suc p) = ground arith
back-lent (b ∷ s) (suc q) zero = ground arith
back-lent (b ∷ s) (suc q) (suc p) = ground (arith, back-lent s q p)

-- `put` writes nothing.
back-stored : (s : Shelf) (q p : ℕ) → stored (give_back s q) p ≡ stored s p
back-stored [] q p = refl
back-stored (b ∷ s) zero zero = refl
back-stored (b ∷ s) zero (suc p) = refl
back-stored (b ∷ s) (suc q) zero = refl
back-stored (b ∷ s) (suc q) (suc p) = back-stored s q p

pub hand_in-stored : (s : Shelf) (q : Option ℕ) (p : ℕ) → stored (hand_in s q) p ≡ stored s p
hand_in-stored s none p = refl
hand_in-stored s (some q) p = back-stored s q p

pub shelf-ByteBuffersLaws : ByteBuffersLaws shelf lent
shelf-ByteBuffersLaws = record {
  get_free = first-free;
  get_lent = first-lent;
  get_empty = first-empty;
  get_others = first-others;
  write_lent = add-lent;
  write_bytes = add-stored;
  write_others = λ s q p xs h n. add-others s q p xs n;
  put_lent = back-lent;
  put_others = λ s q p h n. back-stored s q p;
  put_nil = λ s. refl;
}
