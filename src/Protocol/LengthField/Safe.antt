-- ===== src/Protocol/LengthField/Safe.antt =====
-- net/protocol/codec.go: `Decode` of the length-field codec on any bytes that a peer may send.
use zput_net_golang.Prelude.{
  ℕ, zero, suc, ◌+◌, ◌<◌, ◌≡◌, refl, arith, List, [], ◌∷◌, ◌++◌, length, length-append, length-take,
  inl, inr, Bool-cases, true, false, ltb, ℤ, pos, negsuc, pos_part, Bool, if◌then◌else◌, subst,
  ◌+int◌, int_of_u64,
}
use zput_net_golang.Protocol.Errors.{
  Error, Outcome, returned, failed, panicked, ◌>>=◌, or_fail, unexpected_eof,
}
use zput_net_golang.Protocol.ByteOrder.{ByteOrder, big_endian, little_endian, uint}
use zput_net_golang.Protocol.LengthField.{
  DecoderConfig, inner_read_n, first_byte, length_case, read_uint24, unadjusted_frame_length,
  discard_header, full_message, is_int,
}

-- `r` is no panic, and what it returns satisfies `Q`.
abbrev pub Gives : {A : Type 0} → Outcome A → (A → Type 0) → Type 0
Gives (returned a) Q = Q a
Gives (failed e) Q = Unit {0}
Gives panicked Q = ⊥

bind-Gives :
    {A B : Type 0} (r : Outcome A) (f : A → Outcome B) (Q : A → Type 0) (S : B → Type 0)
    → Gives r Q
    → ((a : A) → Q a → Gives (f a) S)
    → Gives (r >>= f) S
bind-Gives (returned a) f Q S h k = k a h
bind-Gives (failed e) f Q S h k = tt
bind-Gives panicked f Q S h k = absurd h

or_fail-Gives :
    {A : Type 0} (e : Error) (r : Outcome A) (Q : A → Type 0) → Gives r Q → Gives (or_fail e r) Q
or_fail-Gives e (returned a) Q h = h
or_fail-Gives e (failed d) Q h = tt
or_fail-Gives e panicked Q h = absurd h

-- The bytes read are as many as asked for, and not none.
abbrev HasRead : ℤ → List ℕ × List ℕ → Type 0
HasRead n r = (0 < length r.0) × (n ≡ pos (length r.0))

read-Gives : (buf : List ℕ) (n : ℤ) → Gives (inner_read_n buf n) (HasRead n)
unfolding inner_read_n
read-Gives buf (pos zero) = tt
read-Gives buf (pos (suc n)) = elim (Bool-cases (ltb (length buf) (suc n))) [
  | inl e ↦ rw e tt
  | inr e ↦ rw e (ground (arith, length-take (suc n) buf), ground (arith, length-take (suc n) buf))
]
read-Gives buf (negsuc n) = tt

case-Gives :
    (k : ℕ) (f : List ℕ → Outcome ℕ) (buf : List ℕ)
    → ((b : List ℕ) → length b ≡ suc k → Gives (f b) (λ v. Unit {0}))
    → Gives (length_case (suc k) f buf) (λ r. length r.0 ≡ suc k)
unfolding length_case
case-Gives k f buf h =
    bind-Gives (or_fail unexpected_eof (inner_read_n buf (pos (suc k)))) _ (HasRead (pos (suc k))) _
      (or_fail-Gives unexpected_eof (inner_read_n buf (pos (suc k))) (HasRead (pos (suc k)))
        (read-Gives buf (pos (suc k))))
      (λ r q.
        bind-Gives (f r.0) _ (λ v. Unit {0}) _ (h r.0 (ground (arith, q)))
          (λ v t. ground (arith, q)))

byte-Gives : (b : List ℕ) → length b ≡ 1 → Gives (first_byte b) (λ v. Unit {0})
unfolding first_byte
byte-Gives [] h = absurd (omega (arith, h))
byte-Gives (x ∷ b) h = tt

uint24-Gives : (o : ByteOrder) (b : List ℕ) → length b ≡ 3 → Gives (read_uint24 o b) (λ v. Unit {0})
unfolding read_uint24
uint24-Gives o [] h = absurd (omega (arith, h))
uint24-Gives o (x ∷ []) h = absurd (omega (arith, h))
uint24-Gives o (x ∷ y ∷ []) h = absurd (omega (arith, h))
uint24-Gives little_endian (x ∷ y ∷ z ∷ b) h = tt
uint24-Gives big_endian (x ∷ y ∷ z ∷ b) h = tt

choose-Gives :
    {A : Type 0} (b : Bool) (r t : Outcome A) (Q : A → Type 0)
    → (b ≡ true → Gives r Q)
    → Gives t Q
    → Gives (if b then r else t) Q
choose-Gives true r t Q h k = h refl
choose-Gives false r t Q h k = k

-- The bytes of the length field are as many as its width says.
abbrev HasWidth : ℤ → List ℕ × ℕ × List ℕ → Type 0
HasWidth w r = length r.0 ≡ pos_part w

width-Gives :
    (w : ℤ) (k : ℕ) (f : List ℕ → Outcome ℕ) (buf : List ℕ)
    → ((b : List ℕ) → length b ≡ suc k → Gives (f b) (λ v. Unit {0}))
    → is_int w (suc k) ≡ true
    → Gives (length_case (suc k) f buf) (HasWidth w)
width-Gives (pos n) k f buf h e =
    subst (λ m. Gives (length_case (suc k) f buf) (HasWidth (pos m))) (ground (arith, e))
      (case-Gives k f buf h)
width-Gives (negsuc n) k f buf h e = absurd (cc e)

field-Gives :
    (dc : DecoderConfig) (buf : List ℕ)
    → Gives (unadjusted_frame_length dc buf) (HasWidth dc.length_field_length)
unfolding unadjusted_frame_length
field-Gives dc buf =
    choose-Gives (is_int w 1) _ _ (HasWidth w) (width-Gives w 0 first_byte buf byte-Gives) (
      choose-Gives (is_int w 2) _ _ (HasWidth w) (width-Gives w 1 number buf sound) (
        choose-Gives (is_int w 3) _ _ (HasWidth w)
          (width-Gives w 2 (read_uint24 dc.byte_order) buf (uint24-Gives dc.byte_order))
          (choose-Gives (is_int w 4) _ _ (HasWidth w) (width-Gives w 3 number buf sound)
            (choose-Gives (is_int w 8) _ _ (HasWidth w) (width-Gives w 7 number buf sound) tt))))
  where
    w : ℤ
    w = dc.length_field_length

    number : List ℕ → Outcome ℕ
    number b = returned (uint dc.byte_order b)

    sound : {k : ℕ} (b : List ℕ) → length b ≡ k → Gives (number b) (λ v. Unit {0})
    sound b h = tt

header-Gives : (n : ℤ) (buf : List ℕ) → Gives (discard_header n buf) (λ r. length r.0 ≡ pos_part n)
unfolding discard_header
header-Gives (pos zero) buf = refl
header-Gives (pos (suc n)) buf =
    or_fail-Gives unexpected_eof (inner_read_n buf (pos (suc n))) (λ r. length r.0 ≡ suc n)
      (weaken (inner_read_n buf (pos (suc n))) (read-Gives buf (pos (suc n))))
  where
    weaken :
        (r : Outcome (List ℕ × List ℕ))
        → Gives r (HasRead (pos (suc n)))
        → Gives r (λ t. length t.0 ≡ suc n)
    weaken (returned a) h = ground (arith, h)
    weaken (failed e) h = tt
    weaken panicked h = absurd h
header-Gives (negsuc n) buf = refl

-- A whole message has its header, its length field and a byte at least.
pub message-Gives :
    (dc : DecoderConfig) (buf : List ℕ)
    → Gives
        (full_message dc buf)
        (λ full. pos_part dc.length_field_offset + pos_part dc.length_field_length < length full)
unfolding full_message
message-Gives dc buf =
    bind-Gives (discard_header dc.length_field_offset buf) _
      (λ r. length r.0 ≡ pos_part dc.length_field_offset) _
      (header-Gives dc.length_field_offset buf)
      (λ h p.
        bind-Gives (unadjusted_frame_length dc h.1) _ (HasWidth dc.length_field_length) _
          (field-Gives dc h.1)
          (λ l q.
            bind-Gives (or_fail unexpected_eof (inner_read_n l.2 (asked l.1))) _
              (HasRead (asked l.1)) _
              (or_fail-Gives unexpected_eof (inner_read_n l.2 (asked l.1)) (HasRead (asked l.1))
                (read-Gives l.2 (asked l.1)))
              (λ m t.
                omega (arith, p, q, t.0, length-append h.0 (l.0 ++ m.0), length-append l.0 m.0))))
  where
    asked : ℕ → ℤ
    asked n = int_of_u64 n +int dc.length_adjustment
