-- ===== src/Outside/RingBuffer.antt =====
-- github.com/zput/ringbuffer, as net/connect/connect.go uses it: the operations are a parameter, with
-- their documented behaviour as laws over the bytes that a buffer holds.
use zput_net_golang.Prelude.{ℕ, ◌≡◌, Bool, List, [], ◌++◌, length, take, drop, ◌==◌}

-- A method that mutates the buffer returns it anew. `get` and `put` are those of its pool; who handed
-- a buffer to `put` can still use it, so it is returned too.
pub record RingBuffer : Type 1 where
  pub Buf : Type 0
  pub Pool : Type 0
  pub is_empty : Buf → Bool
  pub size : Buf → ℕ
  pub peek_all : Buf → List ℕ × List ℕ
  pub peek : Buf → ℕ → List ℕ × List ℕ
  pub write : Buf → List ℕ → Buf
  pub retrieve : Buf → ℕ → Buf
  pub retrieve_all : Buf → Buf
  pub reset : Buf → Buf
  pub get : Pool → Buf × Pool
  pub put : Pool → Buf → Buf × Pool

pub record RingLaws (R : RingBuffer) (contents : R.Buf → List ℕ) : Type 0 where
  pub is_empty_lem : (b : R.Buf) → R.is_empty b ≡ (length (contents b) == 0)
  pub size_lem : (b : R.Buf) → R.size b ≡ length (contents b)
  pub peek_all_lem : (b : R.Buf) → (R.peek_all b).0 ++ (R.peek_all b).1 ≡ contents b
  pub peek_lem : (b : R.Buf) (n : ℕ) → (R.peek b n).0 ++ (R.peek b n).1 ≡ take n (contents b)
  pub write_lem : (b : R.Buf) (xs : List ℕ) → contents (R.write b xs) ≡ contents b ++ xs
  pub retrieve_lem : (b : R.Buf) (n : ℕ) → contents (R.retrieve b n) ≡ drop n (contents b)
  pub retrieve_all_lem : (b : R.Buf) → contents (R.retrieve_all b) ≡ []
  pub reset_lem : (b : R.Buf) → contents (R.reset b) ≡ []
  -- The pool leaves the bytes of a buffer alone: `New` has to empty what it gets from there.
  pub put_lem : (p : R.Pool) (b : R.Buf) → contents (R.put p b).0 ≡ contents b
