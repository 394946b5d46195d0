-- ===== src/Connect/Buffers/Stream.antt =====
-- The two buffers of a connection behave as one stream: they keep the contract of `protocol.Conn`.
use zput_net_golang.Prelude.{
  ℕ, zero, suc, ◌+◌, ◌≤◌, ◌≡◌, refl, sym, ap, ◌∙◌, arith, List, [], ◌++◌, length, take, drop,
  length-append, take-append_le, take-append_ge, drop-append_le, drop-append_ge, take_all, drop_all,
  nil_of_length, if◌then◌else◌, Bool-cases, true, inl, inr, ℤ, pos, negsuc,
}
use zput_net_golang.Outside.RingBuffer.{RingBuffer, RingLaws}
use zput_net_golang.Protocol.Conn.{IsStream, covered}
use zput_net_golang.Protocol.Framing.Refine.{covered-le}
use zput_net_golang.Connect.State.{Connect}
use zput_net_golang.Connect.Buffers.{
  beyond, positive, read, read_front, reset_buffer, read_n, shift_n, buffer_length, connect_conn,
}

module _ (R : RingBuffer) (contents : R.Buf → List ℕ) (laws : RingLaws R contents) where
  -- The bytes received and not yet taken.
  abbrev pub pending : Connect R.Buf → List ℕ
  pending c = contents c.in_buffer ++ c.temporary_buf

  in_nil : (c : Connect R.Buf) → R.is_empty c.in_buffer ≡ true → contents c.in_buffer ≡ []
  in_nil c h = nil_of_length (contents c.in_buffer) (ground (arith, laws.is_empty_lem c.in_buffer))

  read_sees : (c : Connect R.Buf) → (read R c).0 ≡ pending c
  unfolding read
  read_sees c = elim (Bool-cases (R.is_empty c.in_buffer)) [
    | inl e ↦ ground (arith, e, in_nil c e)
    | inr e ↦
        ground (arith, e, laws.peek_all_lem c.in_buffer, nil_of_length (R.peek_all c.in_buffer).0)
  ]

  read_keeps : (c : Connect R.Buf) → pending (read R c).1 ≡ pending c
  unfolding read
  read_keeps c = ground arith

  front_sees :
      (c : Connect R.Buf) (n : ℕ)
      → n ≤ length (pending c)
      → (read_front R c n).0 ≡ (n, take n (pending c))
  front_sees c n h = elim (Bool-cases (R.is_empty c.in_buffer)) [
    | inl e ↦ ground (arith, e, in_nil c e)
    | inr e ↦ ground (
      arith,
      e,
      laws.size_lem c.in_buffer,
      laws.peek_lem c.in_buffer n,
      take-append_le n (contents c.in_buffer) c.temporary_buf,
      take-append_ge n (contents c.in_buffer) c.temporary_buf,
      take_all n (contents c.in_buffer),
    )
  ]

  front_keeps : (c : Connect R.Buf) (n : ℕ) → pending (read_front R c n).1 ≡ pending c
  front_keeps c n = ground arith

  -- The code's request for `n` bytes.
  amount : (n : ℤ) (total : ℕ) → (if beyond n total then total else positive n) ≡ covered n total
  amount (pos zero) total = refl
  amount (pos (suc n)) total = refl
  amount (negsuc n) total = refl

  total_lem : (c : Connect R.Buf) → R.size c.in_buffer + length c.temporary_buf ≡ length (pending c)
  total_lem c =
      omega (arith, laws.size_lem c.in_buffer, length-append (contents c.in_buffer) c.temporary_buf)

  reset_all :
      (c : Connect R.Buf)
      → (R.size c.in_buffer + length c.temporary_buf ≡ length (pending c))
        × (pending (reset_buffer R c) ≡ drop (length (pending c)) (pending c))
  unfolding reset_buffer
  reset_all c =
      (total_lem c, rw (laws.reset_lem c.in_buffer) (sym (drop_all _ (pending c) (omega arith))))

  shift_lem :
      (c : Connect R.Buf) (n : ℤ)
      → ((shift_n R c n).0 ≡ covered n (length (pending c)))
        × (pending (shift_n R c n).1 ≡ drop (covered n (length (pending c))) (pending c))
  unfolding shift_n reset_buffer
  shift_lem c (pos zero) = reset_all c
  shift_lem c (negsuc n) = reset_all c
  shift_lem c (pos (suc k)) = elim (Bool-cases (R.is_empty c.in_buffer)) [
    | inl e ↦ ground (arith, e, in_nil c e, total_lem c, reset_all c, laws.size_lem c.in_buffer)
    | inr e ↦ ground (
      arith,
      e,
      total_lem c,
      reset_all c,
      laws.size_lem c.in_buffer,
      laws.retrieve_lem c.in_buffer (suc k),
      laws.reset_lem c.in_buffer,
      drop-append_le (suc k) (contents c.in_buffer) c.temporary_buf,
      drop-append_ge (suc k) (contents c.in_buffer) c.temporary_buf,
    )
  ]

  read_n_lem :
      (c : Connect R.Buf) (n : ℤ) → read_n R c n ≡ read_front R c (covered n (length (pending c)))
  unfolding read_n
  read_n_lem c n = ap (read_front R c) (amount n _ ∙ ap (covered n) (total_lem c))

  -- On a ring buffer that keeps its laws, the five methods of `Conn` act on one list of bytes: those of
  -- the ring buffer, then those of the current read.
  pub connect_conn-IsStream : IsStream (connect_conn R) pending
  unfolding connect_conn read_n buffer_length reset_buffer
  connect_conn-IsStream = record {
    read_sees = read_sees;
    read_keeps = read_keeps;
    reset_empties = λ c. rw (laws.reset_lem c.in_buffer);
    read_n_size = λ c n.
        ap (λ (r : (ℕ × List ℕ) × Connect R.Buf). r.0.0) (read_n_lem c n)
        ∙ ap (λ (r : ℕ × List ℕ). r.0) (front_sees c _ (covered-le n _));
    read_n_sees = λ c n.
        ap (λ (r : (ℕ × List ℕ) × Connect R.Buf). r.0.1) (read_n_lem c n)
        ∙ ap (λ (r : ℕ × List ℕ). r.1) (front_sees c _ (covered-le n _));
    read_n_keeps = λ c n. front_keeps c _;
    shift_n_size = λ c n. (shift_lem c n).0;
    shift_n_drops = λ c n. (shift_lem c n).1;
    buffer_length_lem = total_lem;
  }
