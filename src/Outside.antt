-- ===== src/Outside.antt =====
-- What the repository calls and does not hold: the ring buffer of github.com/zput/ringbuffer, the
-- system calls of golang.org/x/sys/unix and the listeners of Go's net package. All are parameters.
pub mod RingBuffer
pub mod Unix
pub mod EpollKernel
pub mod KqueueKernel
pub mod ByteBuffers
pub mod Listening
