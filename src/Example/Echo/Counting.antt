-- ===== src/Example/Echo/Counting.antt =====
-- example/echo/echo.go: what becomes of `connectTimes`.
use zput_net_golang.Prelude.{
  ℕ, suc, ◌+◌, ◌<◌, ◌^◌, ◌≡◌, ap, ◌∙◌, arith, List, [], ◌∷◌, pos, ◌+int◌, ◌+ℤ◌, int_of_u64,
  u64_of_int,
}
use zput_net_golang.Server.Reference.{IHandleEvent}
use zput_net_golang.Example.Echo.{
  new_echo, get_connect_times, add_int64, connect_callback, message_callback, echo,
}

-- A call that the server makes on its handler.
pub data Call (C : Type 0) : Type 0 where
  connects write_completes closes : C → Call C
  messages : C → List ℕ → Call C

add_one : (n : ℕ) → suc n < 2 ^ 63 → add_int64 (pos 1) (pos n) ≡ pos (suc n)
unfolding add_int64 ◌+int◌ ◌+ℤ◌ int_of_u64 u64_of_int
add_one n h = ground arith

module _ {C : Type 0} where
  abbrev pub make_call : (H : IHandleEvent C) → Call C → H.S → H.S
  make_call H (connects c) s = H.connect_callback s c
  make_call H (write_completes c) s = H.write_complete_callback s c
  make_call H (closes c) s = H.connect_close_callback s c
  make_call H (messages c b) s = (H.message_callback s c b).0

  abbrev pub make_calls : (H : IHandleEvent C) → List (Call C) → H.S → H.S
  make_calls H [] s = s
  make_calls H (c ∷ cs) s = make_calls H cs (make_call H c s)

  -- How many of the calls announce a new connection.
  abbrev pub connections : List (Call C) → ℕ
  connections [] = 0
  connections (connects c ∷ cs) = suc (connections cs)
  connections (write_completes c ∷ cs) = connections cs
  connections (closes c ∷ cs) = connections cs
  connections (messages c b ∷ cs) = connections cs

  counted_from :
      (n : ℕ) (cs : List (Call C))
      → n + connections cs < 2 ^ 63
      → make_calls echo cs (pos n) ≡ pos (n + connections cs)
  unfolding connect_callback message_callback
  counted_from n [] h = ap pos (omega arith)
  counted_from n (connects c ∷ cs) h =
      ap (make_calls echo cs) (add_one n (omega (arith, h)))
      ∙ counted_from (suc n) cs (omega (arith, h))
      ∙ ap pos (omega arith)
  counted_from n (write_completes c ∷ cs) h = counted_from n cs h
  counted_from n (closes c ∷ cs) h = counted_from n cs h
  counted_from n (messages c b ∷ cs) h = counted_from n cs h

  -- After any calls of the server, with fewer than 2^63 connections, `GetConnectTimes` answers how many
  -- connections there ever were, whether they have been closed or not.
  pub connect_times_counted :
      (cs : List (Call C))
      → connections cs < 2 ^ 63
      → get_connect_times (make_calls echo cs new_echo) ≡ pos (connections cs)
  unfolding get_connect_times
  connect_times_counted cs h = counted_from 0 cs (omega (arith, h)) ∙ ap pos (omega arith)
