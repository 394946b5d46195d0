-- ===== src/Outside/ByteBuffers.antt =====
-- The pool of byte buffers of github.com/panjf2000/gnet/pool/bytebuffer, which all connections share,
-- as a parameter. A buffer is a number.
use zput_net_golang.Prelude.{
  ℕ, ◌≡◌, ◌≢◌, List, [], ◌++◌, Option, none, some, Bool, true, false, ◌==◌, if◌then◌else◌,
}

-- `get` hands out a buffer, `write` appends to one, and `put` takes one back, or does nothing with nil.
-- `bytes` is what a slice of the buffer shows.
pub record ByteBuffers : Type 1 where
  pub Pool : Type 0
  pub get : Pool → ℕ × Pool
  pub write : Pool → ℕ → List ℕ → Pool
  pub put : Pool → Option ℕ → Pool
  pub bytes : Pool → ℕ → List ℕ

-- Which buffers are lent: `get` hands out an empty one that was not, and `put` takes it back. No other
-- buffer that is lent changes. Nothing is said of the bytes of a buffer that is not lent: it is not to
-- be touched.
pub record ByteBuffersLaws (B : ByteBuffers) (lent : B.Pool → ℕ → Bool) : Type 0 where
  pub get_free : (s : B.Pool) → lent s (B.get s).0 ≡ false
  pub get_lent :
      (s : B.Pool) (p : ℕ) → lent (B.get s).1 p ≡ (if p == (B.get s).0 then true else lent s p)
  pub get_empty : (s : B.Pool) → B.bytes (B.get s).1 (B.get s).0 ≡ []
  pub get_others : (s : B.Pool) (p : ℕ) → lent s p ≡ true → B.bytes (B.get s).1 p ≡ B.bytes s p
  pub write_lent : (s : B.Pool) (q p : ℕ) (xs : List ℕ) → lent (B.write s q xs) p ≡ lent s p
  pub write_bytes :
      (s : B.Pool) (p : ℕ) (xs : List ℕ)
      → lent s p ≡ true
      → B.bytes (B.write s p xs) p ≡ B.bytes s p ++ xs
  pub write_others :
      (s : B.Pool) (q p : ℕ) (xs : List ℕ)
      → lent s p ≡ true
      → p ≢ q
      → B.bytes (B.write s q xs) p ≡ B.bytes s p
  pub put_lent :
      (s : B.Pool) (q p : ℕ) → lent (B.put s (some q)) p ≡ (if p == q then false else lent s p)
  pub put_others :
      (s : B.Pool) (q p : ℕ) → lent s p ≡ true → p ≢ q → B.bytes (B.put s (some q)) p ≡ B.bytes s p
  pub put_nil : (s : B.Pool) → B.put s none ≡ s
