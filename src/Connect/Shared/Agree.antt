-- ===== src/Connect/Shared/Agree.antt =====
-- net/protocol/codec.go over shared memory: while `Put` is all that happens to the pool, the slice that a
-- `Decode` returns shows the frame that it decodes.
use zput_net_golang.Prelude.{
  ℕ, ◌+◌, ◌≡◌, ◌≤◌, refl, sym, ap, ap₂, ◌∙◌, arith, List, length, take, ◌==◌, if◌then◌else◌, Bool,
  true, false, Option, none, some, ℤ, pos, take-take,
}
use zput_net_golang.Outside.RingBuffer.{RingBuffer, RingLaws}
use zput_net_golang.Outside.ByteBuffers.{ByteBuffers, ByteBuffersLaws}
use zput_net_golang.Protocol.Errors.{
  Error, Outcome, returned, failed, panicked, crlf_not_found, delimiter_not_found, unexpected_eof,
}
use zput_net_golang.Protocol.Codec.{
  index_byte, crlf_byte, builtin_decode, line_decode, delimiter_decode, fixed_decode,
}
use zput_net_golang.Protocol.Conn.{Conn}
use zput_net_golang.Protocol.Framing.Refine.{index_byte-lt}
use zput_net_golang.Connect.State.{Connect}
use zput_net_golang.Connect.Buffers.{read, reset_buffer, shift_n, connect_conn}
use zput_net_golang.Connect.Shared.{
  Slice, in_buf, in_pooled, Slices, part, bytes_of, slice_length, slice_to, read_slice,
  reset_slices, read_n_slice, shift_n_slices, builtin_slice, delimited_slice, fixed_slice,
}
use zput_net_golang.Connect.Shared.View.{view, Within, read-Shows, shift_n-view}
use zput_net_golang.Connect.Shared.Taking.{read_n-Sees, shift_n-Within, shift_n-shown}

-- What `Decode` returns, its slice read.
abbrev pub shown : (Slice → List ℕ) → Outcome (Option Slice) → Outcome (Option (List ℕ))
shown f (returned none) = returned none
shown f (returned (some s)) = returned (some (f s))
shown f (failed e) = failed e
shown f panicked = panicked

-- What the delimiter codecs do with what they read.
abbrev cut : {S : Type 0} → Conn S → Error → ℕ → List ℕ × S → Outcome (Option (List ℕ)) × S
cut conn e d (buf, c) = elim (index_byte buf d) [
  | none ↦ (failed e, c)
  | some i ↦ (returned (some (take i buf)), (conn.shift_n c (pos (i + 1))).1)
]

module _ (R : RingBuffer) (Bs : ByteBuffers) where
  open Bs use {Pool, put, bytes}

  -- `t`, what a decoding into slices gives, shows the frame and the connection of `r`.
  abbrev pub Agrees :
      Connect R.Buf
      → Outcome (Option (List ℕ)) × Connect R.Buf
      → Outcome (Option Slice) × Slices R.Buf × Pool
      → Type 0
  Agrees base r (o, c, h) =
      (r ≡ (shown (bytes_of (bytes h) c.buf) o, view base (bytes h) c)) × Within c

  module _ (lent : Pool → ℕ → Bool) (laws : ByteBuffersLaws Bs lent) (contents : R.Buf → List ℕ)
      (ring : RingLaws R contents)
      (keeps : (h : Pool) (q : Option ℕ) (p : ℕ) → bytes (put h q) p ≡ bytes h p) where
    offered :
        (f : Slice → List ℕ) (s : Slice) (xs : List ℕ) (n : ℕ)
        → n ≡ length xs
        → f s ≡ xs
        → returned (if length xs == 0 then none else some xs)
          ≡ shown f (returned (if n == 0 then none else some s))
    offered f s xs n e h = ground (arith, e, h)

    reset-shown :
        (c : Slices R.Buf) (h : Pool) (s : Slice)
        → let (c1, h1) = reset_slices R Bs c h in
          bytes_of (bytes h1) c1.buf s ≡ bytes_of (bytes h) c.buf s
    unfolding reset_slices
    reset-shown c h (in_buf start m) = refl
    reset-shown c h (in_pooled p start m) = ap (part start m) (keeps h c.byte_buffer p)

    pub builtin-Agrees :
        (base : Connect R.Buf) (c : Slices R.Buf) (h : Pool)
        → Within c
        → Agrees base
            (builtin_decode (connect_conn R) (view base (bytes h) c))
            (builtin_slice R Bs c h)
    unfolding builtin_decode builtin_slice connect_conn reset_slices reset_buffer
    builtin-Agrees base c h w =
        let (s, c1, h1) = read_slice R Bs c h in
        let (e, l, w1) = read-Shows R Bs lent laws base c h w in
        let (c2, h2) = reset_slices R Bs c1 h1 in
        let f = bytes_of (bytes h2) c2.buf in
        (
          ap (λ r. (returned (if length r.0 == 0 then none else some r.0), reset_buffer R r.1)) e
              ∙ ap (λ t. (t, view base (bytes h2) c2))
                  (offered f s (bytes_of (bytes h1) c1.buf s) (slice_length s) l
                    (reset-shown c1 h1 s)),
          omega (arith, w1),
        )

    -- A slice that shows `xs`, and a call of `ShiftN`.
    taken :
        (base : Connect R.Buf) (c : Slices R.Buf) (h : Pool) (s : Slice) (xs : List ℕ) (n : ℤ)
        → Within c
        → xs ≡ bytes_of (bytes h) c.buf s
        → let (k, (c1, h1)) = shift_n_slices R Bs c h n in
          Agrees base
            (returned (some xs), (shift_n R (view base (bytes h) c) n).1)
            (returned (some s), c1, h1)
    taken base c h s xs n w e = (
      ap₂ (λ t u. (returned (some t), u))
          (e ∙ sym (shift_n-shown R Bs lent laws contents ring keeps c h n s))
          (ap (λ t. t.1) (shift_n-view R Bs lent laws base c h n w)),
      shift_n-Within R Bs lent laws contents ring c h n w,
    )

    front_of :
        (s : Slice) (bytes : ℕ → List ℕ) (buf : List ℕ) (i : ℕ)
        → i ≤ slice_length s
        → take i (bytes_of bytes buf s) ≡ bytes_of bytes buf (slice_to i s)
    front_of (in_buf start n) bytes buf i l = take-take i n _ l
    front_of (in_pooled p start n) bytes buf i l = take-take i n _ l

    -- After a search that found `found`.
    cut-Agrees :
        (e : Error) (base : Connect R.Buf) (c : Slices R.Buf) (h : Pool) (s : Slice)
        (found : Option ℕ)
        → Within c
        → ((i : ℕ) → found ≡ some i → i ≤ slice_length s)
        → Agrees base
            (elim found [
              | none ↦ (failed e, view base (bytes h) c)
              | some i ↦ (
                returned (some (take i (bytes_of (bytes h) c.buf s))),
                (shift_n R (view base (bytes h) c) (pos (i + 1))).1,
              )
            ])
            (elim found [
              | none ↦ (failed e, c, h)
              | some i ↦
                  let (n, (c2, h2)) = shift_n_slices R Bs c h (pos (i + 1)) in
                  (returned (some (slice_to i s)), c2, h2)
            ])
    cut-Agrees e base c h s none w b = (refl, w)
    cut-Agrees e base c h s (some i) w b =
        taken base c h (slice_to i s) _ (pos (i + 1)) w (front_of s (bytes h) c.buf i (b i refl))

    delimited-Agrees :
        (e : Error) (d : ℕ) (base : Connect R.Buf) (c : Slices R.Buf) (h : Pool)
        → Within c
        → Agrees base
            (cut (connect_conn R) e d (read R (view base (bytes h) c)))
            (delimited_slice R Bs e d c h)
    unfolding delimited_slice connect_conn
    delimited-Agrees err d base c h w =
        let (s, c1, h1) = read_slice R Bs c h in
        let (e, l, w1) = read-Shows R Bs lent laws base c h w in
        let xs = bytes_of (bytes h1) c1.buf s in
        let (found, w2) =
          cut-Agrees err base c1 h1 s (index_byte xs d) w1
            (λ i q. omega (arith, l, index_byte-lt xs d i q)) in
        (ap (cut (connect_conn R) err d) e ∙ found, w2)

    -- After `ReadN`, with the test that it returned nothing.
    sized-Agrees :
        (b : Bool) (base : Connect R.Buf) (c : Slices R.Buf) (h : Pool) (s : Slice) (n : ℤ)
        → Within c
        → Agrees base
            (if b then (failed unexpected_eof, view base (bytes h) c) else (
              returned (some (bytes_of (bytes h) c.buf s)),
              (shift_n R (view base (bytes h) c) n).1,
            ))
            (if b
              then (failed unexpected_eof, c, h)
              else (let (k, (c1, h1)) = shift_n_slices R Bs c h n in (returned (some s), c1, h1)))
    sized-Agrees true base c h s n w = (refl, w)
    sized-Agrees false base c h s n w = taken base c h s _ n w refl

    fixed-Agrees :
        (n : ℤ) (base : Connect R.Buf) (c : Slices R.Buf) (h : Pool)
        → Within c
        → Agrees base
            (fixed_decode (connect_conn R) n (view base (bytes h) c))
            (fixed_slice R Bs n c h)
    unfolding fixed_decode fixed_slice connect_conn
    fixed-Agrees n base c h w =
        let ((k, s), c1, h1) = read_n_slice R Bs c h n in
        let (size, (e, l, w1)) = read_n-Sees R Bs lent laws contents ring base c h n w in
        let (told, w2) = sized-Agrees (k == 0) base c1 h1 s (pos k) w1 in
        (
          ap₂
                (λ i r.
                  if i == 0
                  then (failed unexpected_eof, r.1)
                  else (returned (some r.0), (shift_n R r.1 (pos i)).1))
                size e
              ∙ told,
          w2,
        )

    -- Over a pool whose `Put` writes nothing, and ring buffers that keep their laws: with the memory that
    -- slices point into, and `temporaryBuf` within `buf`, `Decode` of the built-in, the line, the
    -- delimiter and the fixed-length codec leaves a connection that holds what it does where nothing is
    -- shared, with `temporaryBuf` within `buf`; and it returns the same, the slice being read as the
    -- bytes that it shows then.
    pub slices_agree :
        (base : Connect R.Buf) (c : Slices R.Buf) (h : Pool)
        → Within c
        → (Agrees base
            (builtin_decode (connect_conn R) (view base (bytes h) c))
            (builtin_slice R Bs c h))
          × (Agrees base
              (line_decode (connect_conn R) (view base (bytes h) c))
              (delimited_slice R Bs crlf_not_found crlf_byte c h))
          × ((d : ℕ)
              → Agrees base
                  (delimiter_decode (connect_conn R) d (view base (bytes h) c))
                  (delimited_slice R Bs delimiter_not_found d c h))
          × ((n : ℤ)
              → Agrees base
                  (fixed_decode (connect_conn R) n (view base (bytes h) c))
                  (fixed_slice R Bs n c h))
    unfolding line_decode delimiter_decode connect_conn
    slices_agree base c h w = (
      builtin-Agrees base c h w,
      delimited-Agrees crlf_not_found crlf_byte base c h w,
      (λ d. delimited-Agrees delimiter_not_found d base c h w),
      (λ n. fixed-Agrees n base c h w),
    )
