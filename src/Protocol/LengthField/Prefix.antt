-- ===== src/Protocol/LengthField/Prefix.antt =====
-- The length-field decoder of net/protocol/codec.go looks at a front of the buffer: what it finds
-- there is what the message is made of, and bytes behind it do not change the answer.
use zput_net_golang.Prelude.{
  ℕ, zero, suc, ◌<◌, ◌≡◌, refl, arith, List, ◌++◌, append_assoc, length, length-append, length-take,
  take-append-drop, take-append_le, drop-append_le, ℤ, pos, negsuc, ◌+int◌, int_of_u64,
}
use zput_net_golang.Protocol.Errors.{
  Error, Outcome, returned, failed, panicked, ◌>>=◌, or_fail, unexpected_eof,
}
use zput_net_golang.Protocol.ByteOrder.{uint}
use zput_net_golang.Protocol.LengthField.{
  DecoderConfig, inner_read_n, first_byte, read_uint24, length_case, unadjusted_frame_length,
  discard_header, full_message,
}

pub >>=-eq-returned {ℓ κ} :
    {A : Type ℓ} {B : Type κ} (m : Outcome A) (f : A → Outcome B) {b : B}
    → (m >>= f) ≡ returned b
    → (a : A) × (m ≡ returned a) × (f a ≡ returned b)
>>=-eq-returned (returned a) f h = (a, refl, h)
>>=-eq-returned (failed e) f h = cc
>>=-eq-returned panicked f h = cc

or_fail-eq-returned {ℓ} :
    {A : Type ℓ} (e : Error) (m : Outcome A) {a : A} → or_fail e m ≡ returned a → m ≡ returned a
or_fail-eq-returned e (returned b) h = h
or_fail-eq-returned e (failed d) h = cc
or_fail-eq-returned e panicked h = cc

-- What a read of `xs` that answers `a` with `b` behind it says of `xs`, and of `xs` continued.
abbrev Splits : List ℕ → List ℕ → List ℕ → Type 0
Splits xs a b = xs ≡ a ++ b

-- `readN` splits the buffer, after at least one byte, and more bytes join the rest.
inner_read_n-Splits :
    (xs : List ℕ) (n : ℤ) (a b : List ℕ)
    → inner_read_n xs n ≡ returned (a, b)
    → Splits xs a b × (0 < length a)
unfolding inner_read_n
inner_read_n-Splits xs (pos zero) a b h = cc
inner_read_n-Splits xs (pos (suc n)) a b h =
    ground (arith, take-append-drop (suc n) xs, length-take (suc n) xs)
inner_read_n-Splits xs (negsuc n) a b h = cc

inner_read_n-append :
    (xs ys : List ℕ) (n : ℤ) (a b : List ℕ)
    → inner_read_n xs n ≡ returned (a, b)
    → inner_read_n (xs ++ ys) n ≡ returned (a, b ++ ys)
unfolding inner_read_n
inner_read_n-append xs ys (pos zero) a b h = cc
inner_read_n-append xs ys (pos (suc n)) a b h =
    ground (arith, length-append xs ys, take-append_le (suc n) xs ys, drop-append_le (suc n) xs ys)
inner_read_n-append xs ys (negsuc n) a b h = cc

-- The same of a step that also answers a length.
length_case-Splits :
    (w : ℕ) (f : List ℕ → Outcome ℕ) (xs a : List ℕ) (v : ℕ) (b : List ℕ)
    → length_case w f xs ≡ returned (a, v, b)
    → Splits xs a b × (0 < length a)
unfolding length_case
length_case-Splits w f xs a v b h =
    let (r, e, k) = >>=-eq-returned (or_fail unexpected_eof (inner_read_n xs (pos w))) _ h in
    let (u, _, q) = >>=-eq-returned (f r.0) _ k in
    ground (arith, q, inner_read_n-Splits xs (pos w) r.0 r.1 (or_fail-eq-returned _ _ e))

length_case-append :
    (w : ℕ) (f : List ℕ → Outcome ℕ) (xs ys a : List ℕ) (v : ℕ) (b : List ℕ)
    → length_case w f xs ≡ returned (a, v, b)
    → length_case w f (xs ++ ys) ≡ returned (a, v, b ++ ys)
unfolding length_case
length_case-append w f xs ys a v b h =
    let (r, e, k) = >>=-eq-returned (or_fail unexpected_eof (inner_read_n xs (pos w))) _ h in
    let (u, p, q) = >>=-eq-returned (f r.0) _ k in
    rw (inner_read_n-append xs ys (pos w) r.0 r.1 (or_fail-eq-returned _ _ e), p)
      (ground (arith, q))

unadjusted-Splits :
    (dc : DecoderConfig) (xs a : List ℕ) (v : ℕ) (b : List ℕ)
    → unadjusted_frame_length dc xs ≡ returned (a, v, b)
    → Splits xs a b × (0 < length a)
unfolding unadjusted_frame_length
unadjusted-Splits dc xs a v b h = ground (
  arith,
  length_case-Splits 1 first_byte xs a v b,
  length_case-Splits 2 (λ t. returned (uint dc.byte_order t)) xs a v b,
  length_case-Splits 3 (read_uint24 dc.byte_order) xs a v b,
  length_case-Splits 4 (λ t. returned (uint dc.byte_order t)) xs a v b,
  length_case-Splits 8 (λ t. returned (uint dc.byte_order t)) xs a v b,
)

unadjusted-append :
    (dc : DecoderConfig) (xs ys a : List ℕ) (v : ℕ) (b : List ℕ)
    → unadjusted_frame_length dc xs ≡ returned (a, v, b)
    → unadjusted_frame_length dc (xs ++ ys) ≡ returned (a, v, b ++ ys)
unfolding unadjusted_frame_length
unadjusted-append dc xs ys a v b h = ground (
  arith,
  length_case-append 1 first_byte xs ys a v b,
  length_case-append 2 (λ t. returned (uint dc.byte_order t)) xs ys a v b,
  length_case-append 3 (read_uint24 dc.byte_order) xs ys a v b,
  length_case-append 4 (λ t. returned (uint dc.byte_order t)) xs ys a v b,
  length_case-append 8 (λ t. returned (uint dc.byte_order t)) xs ys a v b,
)

discard_header-Splits :
    (n : ℤ) (xs a b : List ℕ) → discard_header n xs ≡ returned (a, b) → Splits xs a b
unfolding discard_header
discard_header-Splits (pos zero) xs a b h = ground arith
discard_header-Splits (pos (suc n)) xs a b h =
    (inner_read_n-Splits xs (pos (suc n)) a b (or_fail-eq-returned _ _ h)).0
discard_header-Splits (negsuc n) xs a b h = ground arith

discard_header-append :
    (n : ℤ) (xs ys a b : List ℕ)
    → discard_header n xs ≡ returned (a, b)
    → discard_header n (xs ++ ys) ≡ returned (a, b ++ ys)
unfolding discard_header
discard_header-append (pos zero) xs ys a b h = ground arith
discard_header-append (pos (suc n)) xs ys a b h =
    rw (inner_read_n-append xs ys (pos (suc n)) a b (or_fail-eq-returned _ _ h))
discard_header-append (negsuc n) xs ys a b h = ground arith

-- The parts of a message that was found at the front of `xs`.
record Parts (dc : DecoderConfig) (xs full : List ℕ) : Type 0 where
  header : List ℕ
  behind_header : List ℕ
  field : List ℕ
  frame_length : ℕ
  behind_field : List ℕ
  msg : List ℕ
  rest : List ℕ
  discarded : discard_header dc.length_field_offset xs ≡ returned (header, behind_header)
  measured : unadjusted_frame_length dc behind_header ≡ returned (field, frame_length, behind_field)
  taken :
      inner_read_n behind_field (int_of_u64 frame_length +int dc.length_adjustment)
      ≡ returned (msg, rest)
  whole : full ≡ header ++ (field ++ msg)

full_message-Parts :
    (dc : DecoderConfig) (xs full : List ℕ) → full_message dc xs ≡ returned full → Parts dc xs full
unfolding full_message
full_message-Parts dc xs full h =
    let (r, e, k) = >>=-eq-returned (discard_header dc.length_field_offset xs) _ h in
    let (l, e1, k1) = >>=-eq-returned (unadjusted_frame_length dc r.1) _ k in
    let size : ℤ = int_of_u64 l.1 +int dc.length_adjustment in
    let (m, e2, k2) = >>=-eq-returned (or_fail unexpected_eof (inner_read_n l.2 size)) _ k1 in
    record {
      header = r.0;
      behind_header = r.1;
      field = l.0;
      frame_length = l.1;
      behind_field = l.2;
      msg = m.0;
      rest = m.1;
      discarded = e;
      measured = e1;
      taken = or_fail-eq-returned _ _ e2;
      whole = cc k2;
    }

Parts-Splits :
    {dc : DecoderConfig} {xs full : List ℕ} (p : Parts dc xs full)
    → Splits xs full p.rest × (0 < length full)
Parts-Splits {dc} {xs} {full} p = ground (
  arith,
  discard_header-Splits dc.length_field_offset xs p.header p.behind_header p.discarded,
  unadjusted-Splits dc p.behind_header p.field p.frame_length p.behind_field p.measured,
  inner_read_n-Splits p.behind_field _ p.msg p.rest p.taken,
  append_assoc p.header (p.field ++ p.msg) p.rest,
  append_assoc p.field p.msg p.rest,
  length-append p.header (p.field ++ p.msg),
  length-append p.field p.msg,
)

-- The message is a front of the buffer, and it is not empty.
pub full_message-Splits :
    (dc : DecoderConfig) (xs full : List ℕ)
    → full_message dc xs ≡ returned full
    → (rest : List ℕ) × (xs ≡ full ++ rest) × (0 < length full)
full_message-Splits dc xs full h =
    let p = full_message-Parts dc xs full h in let (e, k) = Parts-Splits p in (p.rest, e, k)

-- Bytes behind a message do not change it.
pub full_message-append :
    (dc : DecoderConfig) (xs ys full : List ℕ)
    → full_message dc xs ≡ returned full
    → full_message dc (xs ++ ys) ≡ returned full
unfolding full_message
full_message-append dc xs ys full h =
    let p = full_message-Parts dc xs full h in
    rw (
      discard_header-append dc.length_field_offset xs ys p.header p.behind_header p.discarded,
      unadjusted-append dc p.behind_header ys p.field p.frame_length p.behind_field p.measured,
      inner_read_n-append p.behind_field ys _ p.msg p.rest p.taken,
      ← p.whole,
    )
