-- ===== src/Outside/Unix.antt =====
-- The system calls that net/connect/connect.go makes through golang.org/x/sys/unix, as a parameter.
use zput_net_golang.Prelude.{ℕ, ◌≤◌, ◌≡◌, Option, List, ◌++◌, length, take}

-- `other n` is any error that the code does not tell apart.
pub data Errno : Type 0 where
  eagain eintr : Errno
  other : ℕ → Errno

-- `n, err := unix.Read(fd, buf)`: the bytes put into `buf[:n]`, or the error.
pub data ReadResult : Type 0 where
  got : List ℕ → ReadResult
  read_failed : Errno → ReadResult

pub data WriteResult : Type 0 where
  wrote : ℕ → WriteResult
  write_failed : Errno → WriteResult

-- The kernel with what it knows of the connections, and the clock, in nanoseconds.
pub record Unix : Type 1 where
  pub Kernel : Type 0
  pub read : Kernel → ℕ → ℕ → ReadResult × Kernel
  pub write : Kernel → ℕ → List ℕ → WriteResult × Kernel
  pub close : Kernel → ℕ → Option Errno × Kernel
  pub shutdown_write : Kernel → ℕ → Option Errno × Kernel
  pub set_nonblock : Kernel → ℕ → Option Errno × Kernel
  pub now : Kernel → ℕ × Kernel

-- What a write on a stream socket does to the bytes accepted for sending on each descriptor: it
-- takes a front of the data, or fails and takes none. The clock sends nothing, and a read gives no more
-- bytes than were asked for.
pub record UnixLaws (U : Unix) (wire : U.Kernel → ℕ → List ℕ) : Type 0 where
  pub write_front :
      (k : U.Kernel) (fd n : ℕ) (xs : List ℕ)
      → (U.write k fd xs).0 ≡ wrote n
      → (n ≤ length xs) × (wire (U.write k fd xs).1 fd ≡ wire k fd ++ take n xs)
  pub write_none :
      (k : U.Kernel) (fd : ℕ) (xs : List ℕ) (e : Errno)
      → (U.write k fd xs).0 ≡ write_failed e
      → wire (U.write k fd xs).1 fd ≡ wire k fd
  pub now_wire : (k : U.Kernel) (fd : ℕ) → wire (U.now k).1 fd ≡ wire k fd
  pub read_wire : (k : U.Kernel) (fd n : ℕ) → wire (U.read k fd n).1 fd ≡ wire k fd
  pub read_bound :
      (k : U.Kernel) (fd n : ℕ) (xs : List ℕ) → (U.read k fd n).0 ≡ got xs → length xs ≤ n
