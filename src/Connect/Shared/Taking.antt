-- ===== src/Connect/Shared/Taking.antt =====
-- net/connect/connect.go over shared memory: what `ReadN` returns is what it returns of the bytes, and
-- `ShiftN` leaves alone the bytes that a slice shows.
use zput_net_golang.Prelude.{
  ℕ, zero, suc, ◌+◌, ◌-◌, ◌≤◌, ◌≡◌, refl, sym, ap, subst, arith, List, [], ◌++◌, append-nil, take,
  drop, take-take, leb, if◌then◌else◌, Bool, true, false, Option, some, ℤ, pos, negsuc,
}
use zput_net_golang.Outside.RingBuffer.{RingBuffer, RingLaws}
use zput_net_golang.Outside.ByteBuffers.{ByteBuffers, ByteBuffersLaws}
use zput_net_golang.Connect.State.{Connect}
use zput_net_golang.Connect.Buffers.{beyond, positive, read_n, read_front}
use zput_net_golang.Connect.Shared.{
  Slice, in_buf, in_pooled, Slices, temporary, bytes_of, filled, reset_slices, front_slice,
  read_n_slice, shift_n_slices,
}
use zput_net_golang.Connect.Shared.View.{
  view, Within, Shows, both, within, temporary-length, length-part, filled-Shows,
}

module _ (R : RingBuffer) (Bs : ByteBuffers) where
  open Bs use {Pool, put, bytes}

  module _ (lent : Pool → ℕ → Bool) (laws : ByteBuffersLaws Bs lent) (contents : R.Buf → List ℕ)
      (ring : RingLaws R contents) where
    empty-size : (b : R.Buf) → R.is_empty b ≡ true → R.size b ≡ 0
    empty-size b h = ground (arith, ring.is_empty_lem b, ring.size_lem b)

    pub shift_n-Within :
        (c : Slices R.Buf) (h : Pool) (n : ℤ) → Within c → Within (shift_n_slices R Bs c h n).1.0
    unfolding shift_n_slices reset_slices
    shift_n-Within c h (pos zero) w = ground (arith, w)
    shift_n-Within c h (pos (suc n)) w = ground (arith, w, empty-size c.in_buffer)
    shift_n-Within c h (negsuc n) w = ground (arith, w)

    module _ (keeps : (h : Pool) (q : Option ℕ) (p : ℕ) → bytes (put h q) p ≡ bytes h p) where
      pub shift_n-shown :
          (c : Slices R.Buf) (h : Pool) (n : ℤ) (s : Slice)
          → let (c1, h1) = (shift_n_slices R Bs c h n).1 in
            bytes_of (bytes h1) c1.buf s ≡ bytes_of (bytes h) c.buf s
      unfolding shift_n_slices reset_slices
      shift_n-shown c h n (in_buf start m) = ground arith
      shift_n-shown c h n (in_pooled p start m) = ground (arith, keeps h c.byte_buffer p)

    -- `r` has the size `n` and what `t` shows.
    abbrev pub Sees :
        Connect R.Buf → ℕ → (ℕ × List ℕ) × Connect R.Buf → Slice × Slices R.Buf × Pool → Type 0
    Sees base n r t = (r.0.0 ≡ n) × Shows R Bs base (r.0.1, r.1) t

    filled-Sees :
        (b : Bool) (xs ys zs : List ℕ) (base : Connect R.Buf) (c : Slices R.Buf) (h : Pool) (n : ℕ)
        → Within c
        → let all = (xs ++ ys) ++ zs in
          let holding = λ (t : List ℕ). record (view base (bytes h) c) { byte_buffer = some t } in
          Sees base n
            (if b then ((n, xs ++ ys), holding (xs ++ ys)) else ((n, all), holding all))
            (filled R Bs xs ys (if b then [] else zs) c h)
    filled-Sees true xs ys zs base c h n w = (
      refl,
      subst
          (λ t.
            Shows R Bs base (t, record (view base (bytes h) c) { byte_buffer = some t })
              (filled R Bs xs ys [] c h))
          (append-nil (xs ++ ys)) (filled-Shows R Bs lent laws xs ys [] base c h w),
    )
    filled-Sees false xs ys zs base c h n w =
        (refl, filled-Shows R Bs lent laws xs ys zs base c h w)

    part-Sees :
        (base : Connect R.Buf) (c : Slices R.Buf) (h : Pool) (n : ℕ)
        → Within c
        → n ≤ c.temporary_length
        → Sees base n
            ((n, take n (temporary c)), view base (bytes h) c)
            (in_buf c.temporary_start n, c, h)
    part-Sees base c h n w l =
        let cut = take-take n c.temporary_length (drop c.temporary_start c.buf) l in
        (
          refl,
          (
            ap (λ t. (t, view base (bytes h) c)) cut,
            sym (length-part c.temporary_start n c.buf (omega arith)),
            w,
          ),
        )

    front-Sees :
        (base : Connect R.Buf) (c : Slices R.Buf) (h : Pool) (n : ℕ)
        → Within c
        → n ≤ R.size c.in_buffer + c.temporary_length
        → Sees base n (read_front R (view base (bytes h) c) n) (front_slice R Bs c h n)
    front-Sees base c h n w l =
        let in_buffer_len = R.size c.in_buffer in
        let (head, tail) = R.peek c.in_buffer n in
        both (Sees base n) (R.is_empty c.in_buffer)
          (λ e. part-Sees base c h n w (ground (arith, empty-size c.in_buffer e)))
          (filled-Sees (leb n in_buffer_len) head tail (take (n - in_buffer_len) (temporary c)) base
            c h n w)

    pub read_n-Sees :
        (base : Connect R.Buf) (c : Slices R.Buf) (h : Pool) (n : ℤ)
        → Within c
        → let ((k, s), c1, h1) = read_n_slice R Bs c h n in
          Sees base k (read_n R (view base (bytes h) c) n) (s, c1, h1)
    unfolding read_n read_n_slice
    read_n-Sees base c h n w =
        let total = R.size c.in_buffer + c.temporary_length in
        let k = if beyond n total then total else positive n in
        let size = ap (λ t. R.size c.in_buffer + t) (temporary-length c w) in
        subst
          (λ t.
            Sees base k
              (read_front R (view base (bytes h) c) (if beyond n t then t else positive n))
              (front_slice R Bs c h k))
          (sym size) (front-Sees base c h k w (within n total))
