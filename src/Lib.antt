-- ===== src/Lib.antt =====
-- A model of a TCP server library of event loops, written in Go. A server accepts connections in a
-- main loop and deals them out to loops of their own. Each loop waits in a multiplexer, calls the
-- handlers of the events that are ready, and then the functions that other goroutines queued. A
-- connection's handlers read bytes, cut them into frames by a codec, hand each frame to the upper
-- layer and write the answer, keeping in a buffer what the socket does not take.
--
-- Prelude: shared names, lists and tests over native numbers, 64-bit `int`, bits.
-- Outside: what the repository calls and does not hold, as parameters with laws: the ring buffer of
-- github.com/zput/ringbuffer, the pool of byte buffers of github.com/panjf2000/gnet, the system calls
-- of golang.org/x/sys/unix, epoll and kqueue, and the listeners of Go's net package and
-- github.com/libp2p/go-reuseport.
-- Protocol: net/protocol/codec.go (Codec, LengthField), protocol.go (EventType), errors.go (Errors),
-- options.go (Options), bool.go (Atomic). Framing holds the specification of a codec, a framer: a
-- function from the bytes at hand to a frame and the bytes that it takes, or to an error.
-- Multiplex: net/multiplex/kqueue.go (Kqueue) and epoll.go (Epoll), under one record of operations.
-- EventLoop: net/event_loop/event.go and event_ctrl.go (Event, Dispatch), event_loop.go (Queue). The
-- queue is a step relation, whose steps are the sections under the mutex, the atomic operations and
-- the calls.
-- Connect: net/connect/connect.go. State is the struct, Buffers the methods of `protocol.Conn`,
-- Methods the handlers, with Session for the handlers called again and again, Lifecycle what happens
-- before and around them, Codecs the facts that tie the codecs to a connection. A method takes and
-- returns a cell: the connection with the kernel, the table of events, the upper layer's state and
-- the pool that it mutates. There a slice is its bytes. Shared has the methods of `protocol.Conn` and
-- the decoders again with slices as they are, parts of the connection's `buf` or of a buffer of the
-- pool that all connections share: View, Taking and Agree relate the two, and Freed is about when a
-- buffer goes back. Address is the text of a peer's address.
-- Accept: net/accept/accept.go, over the same table of events.
-- Server: net/server/server.go. Pool is the choice of a loop, Handling new and closing connections
-- and `Stop`, Opening `New` and `Start`, Reference the interface of net/server/reference.go and the
-- callbacks that `newConnected` makes of it. The map of connections is an association list (Names);
-- loops are a heap in Handling, where only their queues matter, and values in Opening, where nothing
-- shares them.
-- Example: the handler of example/echo/echo.go.
-- Tests: fixtures and the theorems at concrete inputs.
--
-- Numbers are natural numbers; an `int` of a configuration is an integer whose sums wrap at 64 bits,
-- and a byte is a number below 256. The loop of `readEvent` runs on fuel: each frame takes a byte at
-- least, so one more than the bytes at hand is enough, and these are the bytes kept and at most the
-- 65535 of its buffer. `drained` reads frames with the number of bytes as fuel, for the same reason.
--
-- Not modelled: net/log, which is a copy of another project's and only prints; the timing wheel, of
-- which only the delays are kept; the goroutines of a server beyond the steps of a queue, so the waits
-- of `Stop` and the unlocked sharing of the map of connections, and with Shared no other connection
-- that uses the pool at the same time; callbacks that call methods of their connection; two goroutines
-- in `Run` of one loop; the `main` of the example, and the benchmarks.
pub mod Prelude
pub mod Protocol
pub mod Outside
pub mod Multiplex
pub mod EventLoop
pub mod Connect
pub mod Accept
pub mod Example
pub mod Server
pub mod Tests
