-- ===== src/Server/Pool/Turns.antt =====
-- net/server/server.go: the loops take turns.
use zput_net_golang.Prelude.{
  ℕ, zero, suc, ◌+◌, ◌%◌, ◌<◌, ◌≡◌, refl, sym, ap, ap₂, ◌∙◌, arith, List, [], ◌∷◌, map, length,
  get_elem?, Option, none, some,
}
use native.Mathlib.Nat.{mod-add-mod, mod-lt, mod-mod, suc-mod, mod-eq_of_lt}
use zput_net_golang.Server.Pool.{Server, get_one_loop_from_pool}

module _ {L : Type 0} where
  get_elem_some :
      (loops : List L) (i : ℕ) → i < length loops → (l : L) × (get_elem? loops i ≡ some l)
  get_elem_some [] i h = absurd (omega arith)
  get_elem_some (l ∷ loops) zero h = (l, refl)
  get_elem_some (l ∷ loops) (suc i) h = get_elem_some loops i (omega arith)

  -- The loops of `k` turns from the number `i` on, by the list of loops.
  abbrev pub turns : List L → ℕ → ℕ → List (Option L)
  turns loops zero i = []
  turns loops (suc k) i = get_elem? loops (i % length loops) ∷ turns loops k (suc i)

  turns_mod :
      (loops : List L) (k i j : ℕ)
      → i % length loops ≡ j % length loops
      → turns loops k i ≡ turns loops k j
  turns_mod loops zero i j e = refl
  turns_mod loops (suc k) i j e =
      ap₂ (λ x y. get_elem? loops x ∷ y) e
        (turns_mod loops k (suc i) (suc j)
          (suc-mod i _ ∙ ap (λ x. suc x % length loops) e ∙ sym (suc-mod j _)))

module _ {L C : Type 0} where
  -- The loops of the next `k` connections, and the server after them.
  abbrev pub dealt : ℕ → Server L C → Option (List L × Server L C)
  dealt zero s = some ([], s)
  dealt (suc k) s = elim (get_one_loop_from_pool s) [
    | none ↦ none
    | some (l, s1) ↦ elim (dealt k s1) [ none ↦ none | some (ls, s2) ↦ some (l ∷ ls, s2) ]
  ]

  -- From an index in range, one call answers the loop at the index.
  turn :
      (s : Server L C)
      → s.next_loop_index < length s.sub_loops
      → (l : L) × (get_elem? s.sub_loops s.next_loop_index ≡ some l)
        × (get_one_loop_from_pool s
            ≡ some (l, record s { next_loop_index = (s.next_loop_index + 1) % length s.sub_loops }))
  unfolding get_one_loop_from_pool
  turn s h =
      let (l, e) = get_elem_some s.sub_loops s.next_loop_index h in
      (l, e, rw (e, get_one_loop_from_pool) refl)

  -- From an index in range no call panics: the next `k` connections get the loops in turn from the one
  -- at the index, wrapping round, and the index is again in range, `k` turns further.
  pub dealt-turns :
      (k : ℕ) (s : Server L C)
      → s.next_loop_index < length s.sub_loops
      → (ls : List L) × (s' : Server L C) × (dealt k s ≡ some (ls, s'))
        × (s'.sub_loops ≡ s.sub_loops)
        × (s'.next_loop_index ≡ (s.next_loop_index + k) % length s.sub_loops)
        × (map some ls ≡ turns s.sub_loops k s.next_loop_index)
  dealt-turns zero s h = ([], s, refl, refl, sym (rw (add_zero) (mod-eq_of_lt h)), refl)
    where
      add_zero : s.next_loop_index + 0 ≡ s.next_loop_index
      add_zero = omega arith
  dealt-turns (suc k) s h =
      let (l, at, took) = turn s h in
      let (ls, s', rest, same, index, given) =
        dealt-turns k (next s) (mod-lt _ (positive_length s h)) in
      (
        l ∷ ls,
        s',
        rw (dealt, took, rest) refl,
        same,
        index
            ∙ mod-add-mod (s.next_loop_index + 1) (length s.sub_loops) k
            ∙ ap (λ x. x % length s.sub_loops) (omega arith),
        ap₂ ◌∷◌ (sym at ∙ ap (get_elem? s.sub_loops) (sym (mod-eq_of_lt h))) (
            given
            ∙ turns_mod s.sub_loops k _ _ (
                mod-mod (s.next_loop_index + 1) _
                ∙ ap (λ x. x % length s.sub_loops) (omega arith))),
      )
    where
      next : Server L C → Server L C
      next s0 = record s0 { next_loop_index = (s0.next_loop_index + 1) % length s0.sub_loops }

      positive_length :
          (s0 : Server L C) → s0.next_loop_index < length s0.sub_loops → 0 < length s0.sub_loops
      positive_length s0 g = omega arith
