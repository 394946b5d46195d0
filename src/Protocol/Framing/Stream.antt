-- ===== src/Protocol/Framing/Stream.antt =====
-- What the framers of net/protocol/codec.go do to a stream that is read until no frame is left, and
-- to a stream that arrives in pieces.
use zput_net_golang.Prelude.{
  ℕ, zero, suc, ◌≤◌, ◌≡◌, refl, sym, ap, ◌∙◌, arith, List, [], ◌∷◌, ◌++◌, append_assoc, append-nil,
  length, drop, length-drop, drop-append_le, inl, inr, ◌⊎◌,
}
use mathlib.Core.List.{flatten}
use zput_net_golang.Protocol.Framing.{
  Verdict, deliver, quiet, fault, crash, Framer, IsProductive, IsStable,
}

-- Where the reading of frames stops: the frames, the bytes left, and the verdict on those.
pub record Drained : Type 0 where
  pub frames : List (List ℕ)
  pub rest : List ℕ
  pub verdict : Verdict

abbrev pub IsOver : Verdict → Type 0
IsOver (deliver f k) = ⊥
IsOver quiet = Unit {0}
IsOver (fault e) = Unit {0}
IsOver (crash k) = Unit {0}

pub Verdict-cases : (v : Verdict) → ((f : List ℕ) × (k : ℕ) × (v ≡ deliver f k)) ⊎ IsOver v
Verdict-cases (deliver f k) = inl (f, k, refl)
Verdict-cases quiet = inr tt
Verdict-cases (fault e) = inr tt
Verdict-cases (crash k) = inr tt

abbrev pub deliver_first : List ℕ → Drained → Drained
deliver_first f d = record d { frames = f ∷ d.frames }

abbrev pub after : List (List ℕ) → Drained → Drained
after fs d = record d { frames = fs ++ d.frames }

abbrev pub stopped : List ℕ → Verdict → Drained
stopped xs v = record { frames = []; rest = xs; verdict = v }

abbrev proceed : Verdict → List ℕ → (List ℕ → Drained) → Drained
proceed (deliver f k) xs continue = deliver_first f (continue (drop k xs))
proceed quiet xs continue = stopped xs quiet
proceed (fault e) xs continue = stopped xs (fault e)
proceed (crash k) xs continue = stopped xs (crash k)

-- The loop of `readEvent` over the stream alone, on fuel.
unfoldable pub drain : Framer → ℕ → List ℕ → Drained
drain F zero xs = stopped xs (F xs)
drain F (suc fuel) xs = proceed (F xs) xs (drain F fuel)

-- A byte for each round is enough.
unfoldable pub drained : Framer → List ℕ → Drained
unfolding drain
drained F xs = drain F (length xs) xs

-- A stream that arrives in pieces: the frames found after each piece, on what was left before it.
unfoldable pub feed : Framer → List ℕ → List (List ℕ) → Drained
feed F rest [] = stopped rest (F rest)
feed F rest (piece ∷ pieces) =
    let d = drained F (rest ++ piece) in after d.frames (feed F d.rest pieces)

proceed_over :
    (v : Verdict) (xs : List ℕ) (c : List ℕ → Drained) → IsOver v → proceed v xs c ≡ stopped xs v
proceed_over (deliver f k) xs c h = absurd h
proceed_over quiet xs c h = refl
proceed_over (fault e) xs c h = refl
proceed_over (crash k) xs c h = refl

pub drain_over :
    (F : Framer) (fuel : ℕ) (xs : List ℕ) → IsOver (F xs) → drain F fuel xs ≡ stopped xs (F xs)
unfolding drain
drain_over F zero xs h = refl
drain_over F (suc fuel) xs h = proceed_over (F xs) xs (drain F fuel) h

pub drain_deliver :
    (F : Framer) (fuel : ℕ) {xs f : List ℕ} {k : ℕ}
    → F xs ≡ deliver f k
    → drain F (suc fuel) xs ≡ deliver_first f (drain F fuel (drop k xs))
unfolding drain
drain_deliver F fuel e = rw e

-- The verdict is that on the bytes left.
pub drain_rest : (F : Framer) (n : ℕ) (xs : List ℕ) → F (drain F n xs).rest ≡ (drain F n xs).verdict
drain_rest F zero xs = unfold drain in refl
drain_rest F (suc n) xs = elim (Verdict-cases (F xs)) [
  | inl (f, k, e) ↦ rw (drain_deliver F n e) (drain_rest F n (drop k xs))
  | inr o ↦ rw (drain_over F (suc n) xs o)
]

module _ (F : Framer) (productive : IsProductive F) where
  pub nil-IsOver : IsOver (F [])
  nil-IsOver = elim (Verdict-cases (F [])) [
    | inl (f, k, e) ↦ absurd (omega (arith, productive [] f k e))
    | inr h ↦ h
  ]

  shorter :
      {xs f : List ℕ} {k : ℕ} (fuel : ℕ)
      → F xs ≡ deliver f k
      → length xs ≤ suc fuel
      → length (drop k xs) ≤ fuel
  shorter {xs} {f} {k} fuel e h = omega (arith, length-drop k xs, productive xs f k e)

  -- More fuel than bytes changes nothing.
  drain_fuel : (n m : ℕ) (xs : List ℕ) → length xs ≤ n → length xs ≤ m → drain F n xs ≡ drain F m xs
  drain_fuel n m [] p q = drain_over F n [] nil-IsOver ∙ sym (drain_over F m [] nil-IsOver)
  drain_fuel zero m (x ∷ xs) p q = absurd (omega arith)
  drain_fuel (suc n) zero (x ∷ xs) p q = absurd (omega arith)
  drain_fuel (suc n) (suc m) (x ∷ xs) p q = elim (Verdict-cases (F (x ∷ xs))) [
    | inl (f, k, e) ↦
        rw (drain_deliver F n e, drain_deliver F m e)
          (ap (deliver_first f) (drain_fuel n m (drop k (x ∷ xs)) (shorter n e p) (shorter m e q)))
    | inr h ↦ drain_over F (suc n) (x ∷ xs) h ∙ sym (drain_over F (suc m) (x ∷ xs) h)
  ]

  pub drain-eq-drained : (n : ℕ) (xs : List ℕ) → length xs ≤ n → drain F n xs ≡ drained F xs
  unfolding drained
  drain-eq-drained n xs h = drain_fuel n (length xs) xs h (omega arith)

  pub drained_deliver :
      {xs f : List ℕ} {k : ℕ}
      → F xs ≡ deliver f k
      → drained F xs ≡ deliver_first f (drained F (drop k xs))
  drained_deliver {xs} {f} {k} e =
      sym (drain-eq-drained (suc (length xs)) xs (omega arith))
      ∙ drain_deliver F (length xs) e
      ∙ ap (deliver_first f)
          (drain-eq-drained (length xs) (drop k xs) (shorter (length xs) e (omega arith)))

  -- Reading ends because no frame is left, never for want of fuel.
  drain-IsOver : (n : ℕ) (xs : List ℕ) → length xs ≤ n → IsOver (drain F n xs).verdict
  drain-IsOver n [] h = rw (drain_over F n [] nil-IsOver) nil-IsOver
  drain-IsOver zero (x ∷ xs) h = absurd (omega arith)
  drain-IsOver (suc n) (x ∷ xs) h = elim (Verdict-cases (F (x ∷ xs))) [
    | inl (f, k, e) ↦ rw (drain_deliver F n e) (drain-IsOver n (drop k (x ∷ xs)) (shorter n e h))
    | inr o ↦ rw (drain_over F (suc n) (x ∷ xs) o) o
  ]

  drained-IsOver : (xs : List ℕ) → IsOver (drained F xs).verdict
  unfolding drained
  drained-IsOver xs = drain-IsOver (length xs) xs (omega arith)

  pub drained_over : (xs : List ℕ) → IsOver (F xs) → drained F xs ≡ stopped xs (F xs)
  unfolding drained
  drained_over xs o = drain_over F (length xs) xs o

  over : (xs : List ℕ) → IsOver (F (drained F xs).rest)
  unfolding drained
  over xs = rw (drain_rest F (length xs) xs) (drain-IsOver (length xs) xs (omega arith))

  module _ (stable : IsStable F) where
    drain-append :
        (n : ℕ) (xs ys : List ℕ)
        → length xs ≤ n
        → drained F (xs ++ ys) ≡ after (drain F n xs).frames (drained F ((drain F n xs).rest ++ ys))
    drain-append n [] ys h = rw (drain_over F n [] nil-IsOver)
    drain-append zero (x ∷ xs) ys h = absurd (omega arith)
    drain-append (suc n) (x ∷ xs) ys h = elim (Verdict-cases (F (x ∷ xs))) [
      | inl (f, k, e) ↦
          rw
            (
              drained_deliver (stable (x ∷ xs) ys f k e),
              drop-append_le k (x ∷ xs) ys (productive (x ∷ xs) f k e).1,
              drain_deliver F n e,
            )
            (ap (deliver_first f) (drain-append n (drop k (x ∷ xs)) ys (shorter n e h)))
      | inr o ↦ rw (drain_over F (suc n) (x ∷ xs) o)
    ]

    drained-append :
        (xs ys : List ℕ)
        → drained F (xs ++ ys) ≡ after (drained F xs).frames (drained F ((drained F xs).rest ++ ys))
    drained-append xs ys =
        drain-append (length xs) xs ys (omega arith)
        ∙ rw (drain-eq-drained (length xs) xs (omega arith))

    -- How a stream is cut into pieces does not show: the frames, the bytes left over and the verdict
    -- on them are those of the whole stream.
    pub feed-eq-drained :
        (rest : List ℕ) (pieces : List (List ℕ))
        → IsOver (F rest)
        → feed F rest pieces ≡ drained F (rest ++ flatten pieces)
    unfolding feed flatten
    feed-eq-drained rest [] o = rw append-nil (sym (drained_over rest o))
    feed-eq-drained rest (p ∷ ps) o =
        rw (feed-eq-drained (drained F (rest ++ p)).rest ps (over (rest ++ p))) (
          sym (drained-append (rest ++ p) (flatten ps))
          ∙ ap (drained F) (append_assoc rest p (flatten ps)))
