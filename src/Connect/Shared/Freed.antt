-- ===== src/Connect/Shared/Freed.antt =====
-- net/connect/connect.go and net/protocol/codec.go over shared memory: which buffers a frame outlives.
use zput_net_golang.Prelude.{
  ℕ, ◌+◌, ◌≡◌, ◌==◌, refl, sym, subst, arith, if◌then◌else◌, Bool, true, false, Option, none, some,
  ℤ, pos,
}
use zput_net_golang.Outside.RingBuffer.{RingBuffer}
use zput_net_golang.Outside.ByteBuffers.{ByteBuffers, ByteBuffersLaws}
use zput_net_golang.Protocol.Errors.{Error, Outcome, returned, failed, panicked}
use zput_net_golang.Protocol.Codec.{index_byte}
use zput_net_golang.Connect.Shared.{
  Slice, in_buf, in_pooled, Slices, bytes_of, slice_length, slice_to, read_slice, reset_slices,
  read_n_slice, shift_n_slices, builtin_slice, delimited_slice, fixed_slice,
}

module _ (R : RingBuffer) (Bs : ByteBuffers) (lent : Bs.Pool → ℕ → Bool) where
  open Bs use {Pool, get, write, put, bytes}

  -- The slice lies in a buffer of the pool that is not lent.
  abbrev pub IsFree : Pool → Slice → Type 0
  IsFree h (in_buf start n) = ⊥
  IsFree h (in_pooled p start n) = lent h p ≡ false

  -- The frame that `Decode` delivers, if it delivers one, does so.
  abbrev pub Freed : Outcome (Option Slice) × Slices R.Buf × Pool → Type 0
  Freed (returned (some s), c, h) = IsFree h s
  Freed (returned none, c, h) = Unit
  Freed (failed e, c, h) = Unit
  Freed (panicked, c, h) = Unit

  -- A slice of the pooled buffer that the connection remembers.
  abbrev Remembered : Slice × Slices R.Buf × Pool → Type 0
  Remembered (in_buf start n, c, h) = ⊥
  Remembered (in_pooled p start n, c, h) =
      (c.byte_buffer ≡ some p) × (R.is_empty c.in_buffer ≡ false)

  module _ (laws : ByteBuffersLaws Bs lent) where
    put_freed : (h : Pool) (q : Option ℕ) (p : ℕ) → q ≡ some p → lent (put h q) p ≡ false
    put_freed h q p e =
        subst (λ t. lent (put h t) p ≡ false) (sym e) (ground (arith, laws.put_lent h p p))

    read-Remembered :
        (c : Slices R.Buf) (h : Pool)
        → R.is_empty c.in_buffer ≡ false
        → Remembered (read_slice R Bs c h)
    unfolding read_slice
    read-Remembered c h e = rw e (refl, e)

    front-Remembered :
        (c : Slices R.Buf) (h : Pool) (n : ℤ)
        → R.is_empty c.in_buffer ≡ false
        → let ((k, s), c1, h1) = read_n_slice R Bs c h n in Remembered (s, c1, h1)
    unfolding read_n_slice
    front-Remembered c h n e = rw e (refl, e)

    reset-IsFree :
        (c : Slices R.Buf) (h : Pool) (s : Slice)
        → Remembered (s, c, h)
        → IsFree (reset_slices R Bs c h).1 s
    unfolding reset_slices
    reset-IsFree c h (in_buf start n) q = q
    reset-IsFree c h (in_pooled p start n) (e, q) = put_freed h c.byte_buffer p e

    shift_n-IsFree :
        (c : Slices R.Buf) (h : Pool) (s : Slice) (n : ℤ)
        → Remembered (s, c, h)
        → IsFree (shift_n_slices R Bs c h n).1.1 s
    unfolding shift_n_slices reset_slices
    shift_n-IsFree c h (in_buf start m) n q = q
    shift_n-IsFree c h (in_pooled p start m) n (e, q) =
        ground (arith, q, put_freed h c.byte_buffer p e)

    -- After a search that found `found`.
    cut-Freed :
        (e : Error) (found : Option ℕ) (c : Slices R.Buf) (h : Pool) (s : Slice)
        → Remembered (s, c, h)
        → Freed (elim found [
          | none ↦ (failed e, c, h)
          | some i ↦
              let (n, (c2, h2)) = shift_n_slices R Bs c h (pos (i + 1)) in
              (returned (some (slice_to i s)), c2, h2)
        ])
    cut-Freed e none c h s q = tt
    cut-Freed e (some i) c h (in_buf start n) q = q
    cut-Freed e (some i) c h (in_pooled p start n) q =
        shift_n-IsFree c h (in_pooled p start i) (pos (i + 1)) q

    delimited-Freed :
        (e : Error) (d : ℕ) (c : Slices R.Buf) (h : Pool)
        → R.is_empty c.in_buffer ≡ false
        → Freed (delimited_slice R Bs e d c h)
    unfolding delimited_slice
    delimited-Freed e d c h w =
        let (s, c1, h1) = read_slice R Bs c h in
        cut-Freed e (index_byte (bytes_of (bytes h1) c1.buf s) d) c1 h1 s (read-Remembered c h w)

    offered-Freed :
        (b : Bool) (s : Slice) (c : Slices R.Buf) (h : Pool)
        → IsFree h s
        → Freed (returned (if b then none else some s), c, h)
    offered-Freed true s c h q = tt
    offered-Freed false s c h q = q

    builtin-Freed :
        (c : Slices R.Buf) (h : Pool)
        → R.is_empty c.in_buffer ≡ false
        → Freed (builtin_slice R Bs c h)
    unfolding builtin_slice
    builtin-Freed c h w =
        let (s, c1, h1) = read_slice R Bs c h in
        let (c2, h2) = reset_slices R Bs c1 h1 in
        offered-Freed (slice_length s == 0) s c2 h2 (reset-IsFree c1 h1 s (read-Remembered c h w))

    sized-Freed :
        (b : Bool) (e : Error) (c c1 : Slices R.Buf) (h h1 : Pool) (s : Slice)
        → IsFree h1 s
        → Freed (if b then (failed e, c, h) else (returned (some s), c1, h1))
    sized-Freed true e c c1 h h1 s q = tt
    sized-Freed false e c c1 h h1 s q = q

    fixed-Freed :
        (n : ℤ) (c : Slices R.Buf) (h : Pool)
        → R.is_empty c.in_buffer ≡ false
        → Freed (fixed_slice R Bs n c h)
    unfolding fixed_slice
    fixed-Freed n c h w =
        let ((k, s), c1, h1) = read_n_slice R Bs c h n in
        sized-Freed (k == 0) _ _ _ _ _ s (shift_n-IsFree c1 h1 s (pos k) (front-Remembered c h n w))

    -- When bytes wait in `inBuffer`, a frame that `Decode` of the built-in, a delimiter or the
    -- fixed-length codec delivers lies in a buffer of the pool that is not lent any more.
    pub frames-Freed :
        (c : Slices R.Buf) (h : Pool)
        → R.is_empty c.in_buffer ≡ false
        → Freed (builtin_slice R Bs c h)
          × ((e : Error) (d : ℕ) → Freed (delimited_slice R Bs e d c h))
          × ((n : ℤ) → Freed (fixed_slice R Bs n c h))
    frames-Freed c h w =
        (builtin-Freed c h w, (λ e d. delimited-Freed e d c h w), (λ n. fixed-Freed n c h w))
