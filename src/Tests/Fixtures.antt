-- ===== src/Tests/Fixtures.antt =====
-- A ring buffer, a kernel and an upper layer that keep the laws, for the tests.
use zput_net_golang.Prelude.{
  ℕ, ◌-◌, ◌≤◌, ◌≡◌, refl, sym, arith, List, [], ◌∷◌, ◌++◌, append-nil, append_assoc, length,
  length-take, take, drop, min, ◌==◌, if◌then◌else◌, none, some, pos,
}
use zput_net_golang.Outside.RingBuffer.{RingBuffer, RingLaws}
use zput_net_golang.Outside.Unix.{
  Unix, UnixLaws, ReadResult, got, read_failed, WriteResult, wrote, write_failed, Errno, eagain,
}
use zput_net_golang.Multiplex.Kqueue.{kqueues}
use zput_net_golang.Connect.State.{App, Cell, connected, on_read, on_write, on_error, on_close}

-- The bytes before and behind the point where the buffer wraps.
abbrev pub Wrapped : Type 0
Wrapped = List ℕ × List ℕ

abbrev pub held : Wrapped → List ℕ
held b = b.0 ++ b.1

abbrev pub ring : RingBuffer
ring = record {
  Buf = Wrapped;
  Pool = List Wrapped;
  is_empty = λ b. length (held b) == 0;
  size = λ b. length (held b);
  peek_all = λ b. b;
  peek = λ b n. (take n (held b), []);
  write = λ b xs. (b.0, b.1 ++ xs);
  retrieve = λ b n. (drop n (held b), []);
  retrieve_all = λ b. ([], []);
  reset = λ b. ([], []);
  get = λ p. (([], []), p);
  put = λ p b. (b, b ∷ p);
}

pub ring-RingLaws : RingLaws ring held
ring-RingLaws = record {
  is_empty_lem = λ b. refl;
  size_lem = λ b. refl;
  peek_all_lem = λ b. refl;
  peek_lem = λ b n. append-nil _;
  write_lem = λ b xs. sym (append_assoc b.0 b.1 xs);
  retrieve_lem = λ b n. append-nil _;
  retrieve_all_lem = λ b. refl;
  reset_lem = λ b. refl;
  put_lem = λ p b. refl;
}

-- One socket: the reads to come, what it still accepts, what it accepted, and the clock.
pub record Socket : Type 0 where
  pub incoming : List (List ℕ)
  pub room : ℕ
  pub accepted : List ℕ
  pub time : ℕ

abbrev next_read : ℕ → List (List ℕ) → Socket → ReadResult × Socket
next_read n [] k = (read_failed eagain, k)
next_read n (xs ∷ rest) k = (got (take n xs), record k { incoming = rest })

-- A full socket answers EAGAIN.
abbrev accept_bytes : Socket → List ℕ → WriteResult × Socket
accept_bytes k xs = if k.room == 0 then (write_failed eagain, k) else (
  wrote (min k.room (length xs)),
  record k {
    room = k.room - min k.room (length xs);
    accepted = k.accepted ++ take (min k.room (length xs)) xs;
  },
)

abbrev pub sockets : Unix
sockets = record {
  Kernel = Socket;
  read = λ k fd n. next_read n k.incoming k;
  write = λ k fd xs. accept_bytes k xs;
  close = λ k fd. (none, k);
  shutdown_write = λ k fd. (none, k);
  set_nonblock = λ k fd. (none, k);
  now = λ k. (k.time, k);
}

abbrev pub accepted_by : Socket → ℕ → List ℕ
accepted_by k fd = k.accepted

write_front :
    (k : Socket) (fd n : ℕ) (xs : List ℕ)
    → (accept_bytes k xs).0 ≡ wrote n
    → (n ≤ length xs) × (accepted_by (accept_bytes k xs).1 fd ≡ accepted_by k fd ++ take n xs)
write_front k fd n xs h = ground arith

write_none :
    (k : Socket) (fd : ℕ) (xs : List ℕ) (e : Errno)
    → (accept_bytes k xs).0 ≡ write_failed e
    → accepted_by (accept_bytes k xs).1 fd ≡ accepted_by k fd
write_none k fd xs e h = ground arith

next_read_wire :
    (n : ℕ) (l : List (List ℕ)) (k : Socket) → (next_read n l k).1.accepted ≡ k.accepted
next_read_wire n [] k = refl
next_read_wire n (x ∷ l) k = refl

next_read_bound :
    (n : ℕ) (l : List (List ℕ)) (k : Socket) (xs : List ℕ)
    → (next_read n l k).0 ≡ got xs
    → length xs ≤ n
next_read_bound n [] k xs h = cc
next_read_bound n (x ∷ l) k xs h = ground (arith, length-take n x)

pub sockets-UnixLaws : UnixLaws sockets accepted_by
sockets-UnixLaws = record {
  write_front = write_front;
  write_none = write_none;
  now_wire = λ k fd. refl;
  read_wire = λ k fd n. next_read_wire n k.incoming k;
  read_bound = λ k fd n xs h. next_read_bound n k.incoming k xs h;
}

-- An upper layer that echoes and remembers the messages.
abbrev pub echo : App
echo = record {
  A = List (List ℕ);
  message = λ seen f. (seen ++ (f ∷ []), some f);
  connect_close = none;
  write_complete = none;
}

abbrev pub EchoCell : Type 0
EchoCell = Cell ring sockets kqueues echo ℕ

-- A connection as `ConnectedHandle` leaves it, over a socket.
abbrev pub established_for : (Up : App) → Up.A → Socket → Cell ring sockets kqueues Up ℕ
established_for Up a k = record {
  conn = record {
    event = record {
      event_fd = 7;
      events = 0x81;
      old_events = 0x1;
      read_handle = some on_read;
      write_handle = some on_write;
      error_handle = some on_error;
      close_handle = some on_close;
    };
    temporary_buf = [];
    out_buffer = ([], []);
    in_buffer = ([], []);
    byte_buffer = none;
    state = connected;
    fd = 7;
    peer_addr = "10.0.0.1:4000";
    idle_time = pos 0;
    active_time = 0;
  };
  self = 70;
  kernel = k;
  ctrl = record { event_pool = (7, 70) ∷ []; multi = record { changes = []; wait_events = 1024 } };
  app = a;
  pool = [];
}

abbrev pub established : Socket → EchoCell
established k = established_for echo [] k
