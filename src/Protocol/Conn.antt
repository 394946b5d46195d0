-- ===== src/Protocol/Conn.antt =====
-- net/protocol/codec.go, the interface `Conn` that a codec reads a connection through, and what an
-- implementation promises: the bytes not yet taken form one list.
use zput_net_golang.Prelude.{
  ℕ, zero, suc, ◌≡◌, List, [], length, take, drop, ltb, if◌then◌else◌, ℤ, pos, negsuc,
}

-- A method that mutates the connection returns it anew beside its result.
pub record Conn (S : Type 0) : Type 0 where
  pub read : S → List ℕ × S
  pub reset_buffer : S → S
  pub read_n : S → ℤ → (ℕ × List ℕ) × S
  pub shift_n : S → ℤ → ℕ × S
  pub buffer_length : S → ℕ

-- How many of `total` bytes a request for `n` covers: all, where `n` is not positive or too large.
abbrev pub covered : ℤ → ℕ → ℕ
covered (pos zero) total = total
covered (pos (suc n)) total = if ltb total (suc n) then total else suc n
covered (negsuc n) total = total

-- The contract: `pending` is the stream of bytes received and not yet taken. Reading leaves it,
-- `shift_n` and `reset_buffer` take from its front.
pub record IsStream {S : Type 0} (c : Conn S) (pending : S → List ℕ) : Type 0 where
  pub read_sees : (s : S) → (c.read s).0 ≡ pending s
  pub read_keeps : (s : S) → pending (c.read s).1 ≡ pending s
  pub reset_empties : (s : S) → pending (c.reset_buffer s) ≡ []
  pub read_n_size : (s : S) (n : ℤ) → (c.read_n s n).0.0 ≡ covered n (length (pending s))
  pub read_n_sees :
      (s : S) (n : ℤ) → (c.read_n s n).0.1 ≡ take (covered n (length (pending s))) (pending s)
  pub read_n_keeps : (s : S) (n : ℤ) → pending (c.read_n s n).1 ≡ pending s
  pub shift_n_size : (s : S) (n : ℤ) → (c.shift_n s n).0 ≡ covered n (length (pending s))
  pub shift_n_drops :
      (s : S) (n : ℤ)
      → pending (c.shift_n s n).1 ≡ drop (covered n (length (pending s))) (pending s)
  pub buffer_length_lem : (s : S) → c.buffer_length s ≡ length (pending s)
