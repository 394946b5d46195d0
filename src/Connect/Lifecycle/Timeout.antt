-- ===== src/Connect/Lifecycle/Timeout.antt =====
-- net/connect/connect.go: when the idle timer closes a connection. The active time is kept in whole
-- seconds.
use zput_net_golang.Prelude.{
  ℕ, ◌+◌, ◌*◌, ◌/◌, ◌≤◌, ◌<◌, ◌≡◌, ◌⊎◌, inl, inr, refl, arith, Bool-cases, leb, ◌-◌, true, false,
  none, some, pos,
}
use zput_net_golang.Outside.RingBuffer.{RingBuffer}
use zput_net_golang.Outside.Unix.{Unix}
use zput_net_golang.Multiplex.{Multiplex}
use zput_net_golang.Connect.State.{App, Cell}
use zput_net_golang.Connect.Methods.{second}
use zput_net_golang.Connect.Lifecycle.{close_timeout_conn}

module _ {R : RingBuffer} {U : Unix} {X : Multiplex} {Up : App} {P : Type 0} where
  -- The timer fires at `now` on a connection that was last active at `last`, with `idle` nanoseconds
  -- allowed. Where it closes the connection, less than a second of the `idle` nanoseconds is left;
  -- otherwise it is set again, for a positive time that ends no later than they do, and closes the
  -- connection then if that was not active in between.
  pub close_timeout-bounds :
      (now last idle : ℕ) (c : Cell R U X Up P)
      → c.conn.active_time ≡ last / second
      → c.conn.idle_time ≡ pos idle
      → ((close_timeout_conn now c ≡ none) × (last + idle < now + second))
        ⊎ ((d : ℕ) × (close_timeout_conn now c ≡ some d)
            × (0 < d)
            × (now + d ≤ last + idle)
            × (close_timeout_conn (now + d) c ≡ none))
  unfolding close_timeout_conn
  close_timeout-bounds now last idle c a i =
      rw (a, i)
        (elim (Bool-cases (leb due now)) [
          | inl e ↦ rw e (inl (refl, early e))
          | inr e ↦ rw e (inr (due - now, refl, (later e).0, (later e).1, rw ((later e).2) refl))
        ])
    where
      due : ℕ
      due = last / second * second + idle

      early : leb due now ≡ true → last + idle < now + second
      early e = ground arith

      later :
          leb due now ≡ false
          → (0 < due - now)
            × (now + (due - now) ≤ last + idle)
            × (leb due (now + (due - now)) ≡ true)
      later e = ground arith
