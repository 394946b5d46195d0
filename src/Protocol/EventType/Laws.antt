-- ===== src/Protocol/EventType/Laws.antt =====
-- Sets of events over the bits of net/protocol/protocol.go: setting and clearing one bit leaves the
-- others. All sets below 512 are checked.
use zput_net_golang.Prelude.{
  ℕ, ◌<◌, ◌≡◌, refl, Bool, true, false, not, ◌&&◌, all_below_sound, ltb, ltb→lt,
}
use zput_net_golang.Protocol.EventType.{
  event_read, event_write, event_err, has, with_event, without_event,
}

-- A set that holds no other bits than those that the package names, or bits below them.
abbrev pub IsEvents : ℕ → Type 0
IsEvents x = x < 512

abbrev same : Bool → Bool → Bool
same true b = b
same false b = not b

same→eq : (a b : Bool) → same a b ≡ true → a ≡ b
same→eq true true h = refl
same→eq true false h = cc
same→eq false true h = cc
same→eq false false h = refl

-- What setting and clearing the bit `e` of `x` must give, with the two other bits `d` and `f`.
abbrev sound : ℕ → ℕ → ℕ → ℕ → Bool
sound e d f x =
    has (with_event x e) e
    && not (has (without_event x e) e)
    && same (has (with_event x e) d) (has x d)
    && same (has (without_event x e) d) (has x d)
    && same (has (with_event x e) f) (has x f)
    && same (has (without_event x e) f) (has x f)
    && ltb (with_event x e) 512
    && ltb (without_event x e) 512

-- The same as equations.
pub record Sets (e d f x : ℕ) : Type 0 where
  pub set_self : has (with_event x e) e ≡ true
  pub clear_self : has (without_event x e) e ≡ false
  pub set_other : has (with_event x e) d ≡ has x d
  pub clear_other : has (without_event x e) d ≡ has x d
  pub set_third : has (with_event x e) f ≡ has x f
  pub clear_third : has (without_event x e) f ≡ has x f
  pub set_bound : IsEvents (with_event x e)
  pub clear_bound : IsEvents (without_event x e)

and-true : (a b : Bool) → (a && b) ≡ true → (a ≡ true) × (b ≡ true)
and-true true b h = (refl, h)
and-true false b h = cc

not-true : (a : Bool) → not a ≡ true → a ≡ false
not-true true h = cc
not-true false h = refl

sound-Sets : (e d f x : ℕ) → sound e d f x ≡ true → Sets e d f x
sound-Sets e d f x h =
    let (r7, clear_bound) = and-true _ _ h in
    let (r6, set_bound) = and-true _ _ r7 in
    let (r5, clear_third) = and-true _ _ r6 in
    let (r4, set_third) = and-true _ _ r5 in
    let (r3, clear_other) = and-true _ _ r4 in
    let (r2, set_other) = and-true _ _ r3 in
    let (set_self, clear_self) = and-true _ _ r2 in
    record {
      set_self = set_self;
      clear_self = not-true _ clear_self;
      set_other = same→eq _ _ set_other;
      clear_other = same→eq _ _ clear_other;
      set_third = same→eq _ _ set_third;
      clear_third = same→eq _ _ clear_third;
      set_bound = ltb→lt _ _ set_bound;
      clear_bound = ltb→lt _ _ clear_bound;
    }

pub read-Sets : (x : ℕ) → IsEvents x → Sets event_read event_write event_err x
read-Sets x h =
    sound-Sets _ _ _ x (all_below_sound 512 (sound event_read event_write event_err) x refl h)

pub write-Sets : (x : ℕ) → IsEvents x → Sets event_write event_read event_err x
write-Sets x h =
    sound-Sets _ _ _ x (all_below_sound 512 (sound event_write event_read event_err) x refl h)

pub err-Sets : (x : ℕ) → IsEvents x → Sets event_err event_read event_write x
err-Sets x h =
    sound-Sets _ _ _ x (all_below_sound 512 (sound event_err event_read event_write) x refl h)
