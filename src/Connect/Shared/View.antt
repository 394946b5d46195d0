-- ===== src/Connect/Shared/View.antt =====
-- net/connect/connect.go: while `Put` is all that happens to the pool, a connection whose slices point
-- into shared memory reads and shifts as one that holds its bytes.
use zput_net_golang.Prelude.{
  ℕ, zero, suc, ◌+◌, ◌-◌, ◌≤◌, ◌≡◌, refl, sym, ap, ap₂, subst, ◌∙◌, arith, List, [], ◌++◌,
  append-nil, length, take, drop, length-take, length-drop, take_all, drop-take, drop-drop, ◌==◌,
  if◌then◌else◌, Bool, true, false, none, some, ℤ, pos, negsuc,
}
use zput_net_golang.Outside.RingBuffer.{RingBuffer}
use zput_net_golang.Outside.ByteBuffers.{ByteBuffers, ByteBuffersLaws}
use zput_net_golang.Connect.State.{Connect}
use zput_net_golang.Connect.Buffers.{beyond, positive, read, reset_buffer, shift_n}
use zput_net_golang.Connect.Shared.{
  Slice, Slices, part, temporary, bytes_of, slice_length, filled, read_slice, reset_slices,
  shift_n_slices,
}

part_whole : (xs : List ℕ) → part 0 (length xs) xs ≡ xs
part_whole xs = take_all (length xs) xs (omega arith)

drop-part : (k start n : ℕ) (xs : List ℕ) → drop k (part start n xs) ≡ part (start + k) (n - k) xs
drop-part k start n xs = drop-take k n (drop start xs) ∙ ap (take (n - k)) (drop-drop k start xs)

pub length-part : (start n : ℕ) (xs : List ℕ) → start + n ≤ length xs → length (part start n xs) ≡ n
length-part start n xs h = omega (arith, length-take n (drop start xs), length-drop start xs)

module _ {Bs : ByteBuffers} (lent : Bs.Pool → ℕ → Bool) (laws : ByteBuffersLaws Bs lent) where
  open Bs use {Pool, get, write, put, bytes}

  -- A buffer just taken holds what is written to it.
  pub filled_bytes :
      (xs ys zs : List ℕ) (h : Pool)
      → bytes (write (write (write (get h).1 (get h).0 xs) (get h).0 ys) (get h).0 zs) (get h).0
        ≡ (xs ++ ys) ++ zs
  filled_bytes xs ys zs h =
      let p = (get h).0 in
      let h1 = write (get h).1 p xs in
      let l0 : lent (get h).1 p ≡ true = ground (arith, laws.get_lent h p) in
      let l1 : lent h1 p ≡ true = laws.write_lent (get h).1 p p xs ∙ l0 in
      let l2 : lent (write h1 p ys) p ≡ true = laws.write_lent h1 p p ys ∙ l1 in
      ground (
        arith,
        laws.write_bytes (write h1 p ys) p zs l2,
        laws.write_bytes h1 p ys l1,
        laws.write_bytes (get h).1 p xs l0,
        laws.get_empty h,
      )

-- The connection that holds the bytes, the rest of it being that of `base`.
abbrev pub view : {B : Type 0} → Connect B → (ℕ → List ℕ) → Slices B → Connect B
view base bytes c = record base {
  temporary_buf = temporary c;
  in_buffer = c.in_buffer;
  byte_buffer = elim c.byte_buffer [ none ↦ none | some p ↦ some (bytes p) ];
}

-- `temporaryBuf` lies in `buf`.
abbrev pub Within : {B : Type 0} → Slices B → Type 0
Within c = c.temporary_start + c.temporary_length ≤ length c.buf

pub temporary-length :
    {B : Type 0} (c : Slices B) → Within c → length (temporary c) ≡ c.temporary_length
temporary-length c w = length-part c.temporary_start c.temporary_length c.buf w

pub both :
    {A B : Type 0} (P : A → B → Type 0) (b : Bool) {x y : A} {s t : B}
    → (b ≡ true → P x s)
    → P y t
    → P (if b then x else y) (if b then s else t)
both P true p q = p refl
both P false p q = q

leading : (b : Bool) (xs ys : List ℕ) → (if b then ys else xs ++ ys) ≡ (if b then [] else xs) ++ ys
leading true xs ys = refl
leading false xs ys = refl

pub trailing :
    (b : Bool) (xs ys : List ℕ) → xs ++ (if b then [] else ys) ≡ (if b then xs else xs ++ ys)
trailing true xs ys = append-nil xs
trailing false xs ys = refl

pub within : (n : ℤ) (total : ℕ) → (if beyond n total then total else positive n) ≤ total
within (pos zero) total = omega arith
within (pos (suc n)) total = ground arith
within (negsuc n) total = omega arith

module _ (R : RingBuffer) (Bs : ByteBuffers) where
  open Bs use {Pool, get, write, put, bytes}

  pub reset-view :
      (base : Connect R.Buf) (c : Slices R.Buf) (h : Pool)
      → let (c1, h1) = reset_slices R Bs c h in
        reset_buffer R (view base (bytes h) c) ≡ view base (bytes h1) c1
  unfolding reset_slices reset_buffer
  reset-view base c h = refl

  -- `t`, what a read of slices gives, shows the bytes and the connection of `r`.
  abbrev pub Shows : Connect R.Buf → List ℕ × Connect R.Buf → Slice × Slices R.Buf × Pool → Type 0
  Shows base r (s, c, h) =
      (r ≡ (bytes_of (bytes h) c.buf s, view base (bytes h) c))
      × (slice_length s ≡ length (bytes_of (bytes h) c.buf s))
      × Within c

  module _ (lent : Pool → ℕ → Bool) (laws : ByteBuffersLaws Bs lent) where
    pub filled-Shows :
        (xs ys zs : List ℕ) (base : Connect R.Buf) (c : Slices R.Buf) (h : Pool)
        → Within c
        → let all = (xs ++ ys) ++ zs in
          Shows base
            (all, record (view base (bytes h) c) { byte_buffer = some all })
            (filled R Bs xs ys zs c h)
    filled-Shows xs ys zs base c h w =
        let e = filled_bytes lent laws xs ys zs h in
        let shown = part_whole _ ∙ e in
        (
          ap₂ (λ t u. (t, record (view base (bytes h) c) { byte_buffer = some u })) (sym shown)
              (sym e),
          ap length (sym (part_whole _)),
          w,
        )

    pub read-Shows :
        (base : Connect R.Buf) (c : Slices R.Buf) (h : Pool)
        → Within c
        → Shows base (read R (view base (bytes h) c)) (read_slice R Bs c h)
    unfolding read read_slice
    read-Shows base c h w =
        let (first, end) = R.peek_all c.in_buffer in
        let held = temporary c in
        let start = if length first == 0 then [] else first in
        both (Shows base) (R.is_empty c.in_buffer) (λ _. (refl, sym (temporary-length c w), w))
          (subst
            (λ t.
              Shows base
                (t ++ held, record (view base (bytes h) c) { byte_buffer = some (t ++ held) })
                (filled R Bs start end held c h))
            (sym (leading (length first == 0) first end)) (filled-Shows start end held base c h w))

    pub shift_n-view :
        (base : Connect R.Buf) (c : Slices R.Buf) (h : Pool) (n : ℤ)
        → Within c
        → let (k, (c1, h1)) = shift_n_slices R Bs c h n in
          shift_n R (view base (bytes h) c) n ≡ (k, view base (bytes h1) c1)
    unfolding shift_n shift_n_slices reset_slices reset_buffer
    shift_n-view base c h n w =
        let t : drop (positive n) (temporary c) ≡ _ =
          drop-part (positive n) c.temporary_start c.temporary_length c.buf in
        let u : drop (positive n - R.size c.in_buffer) (temporary c) ≡ _ =
          drop-part (positive n - R.size c.in_buffer) c.temporary_start c.temporary_length c.buf in
        let e = temporary-length c w in ground (arith, t, u, e)
