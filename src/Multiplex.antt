-- ===== src/Multiplex.antt =====
-- net/multiplex: the interface that the event loop has of `Multiplex`, and its two implementations.
pub mod Kqueue
pub mod Epoll
use zput_net_golang.Prelude.{ℕ, Option}
use zput_net_golang.Outside.Unix.{Errno}

-- The methods that register a descriptor, with the events wanted now and those wanted before.
pub record Multiplex : Type 1 where
  pub Multi : Type 0
  pub add_event : Multi → ℕ → ℕ → ℕ → Option Errno × Multi
  pub remove_event : Multi → ℕ → ℕ → Option Errno × Multi
  pub modify_event : Multi → ℕ → ℕ → ℕ → Option Errno × Multi
