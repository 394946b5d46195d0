-- ===== src/Protocol/Options/Defaults.antt =====
-- net/protocol/options.go: which option decides a field, and what is never left unset.
use Prim.Native.String.{String}
use text.Mathlib.Text.{◌==◌}
use text.Mathlib.TextEquality.{eq_iff}
use zput_net_golang.Prelude.{
  ℕ, suc, ◌≡◌, ◌≢◌, refl, arith, ap, ◌∙◌, List, [], ◌∷◌, ◌++◌, Bool, if◌then◌else◌, inl, inr,
  Option-cases, some, ℤ, pos, negsuc,
}
use zput_net_golang.Protocol.Options.{
  Options, apply_all, fill_defaults, new_options, zero_options, network, address, num_loops,
  idle_time, code_imp, reuse_port, loops_wanted,
}

module _ {K : Type 0} where
  apply_all-append :
      (os : List (Options K → Options K)) (o : Options K → Options K) (opts : Options K)
      → apply_all (os ++ (o ∷ [])) opts ≡ o (apply_all os opts)
  unfolding apply_all
  apply_all-append [] o opts = refl
  apply_all-append (p ∷ os) o opts = apply_all-append os o (p opts)

  -- Whatever options are given, `NewOptions` leaves no field unset that the server needs: the network
  -- and the address are not empty, the tick and the size of the wheel are not zero, and there is a codec.
  pub new_options_set :
      (codec : K) (os : List (Options K → Options K))
      → let o = new_options codec os in
        (o.net.network ≢ "")
        × (o.net.address ≢ "")
        × (o.tick ≢ pos 0)
        × (o.wheel_size ≢ pos 0)
        × ((c : K) × (o.code_imp ≡ some c))
  unfolding new_options fill_defaults
  new_options_set codec os = filled (apply_all os zero_options)
    where
      filled :
          (opts : Options K)
          → let o = fill_defaults codec opts in
            (o.net.network ≢ "")
            × (o.net.address ≢ "")
            × (o.tick ≢ pos 0)
            × (o.wheel_size ≢ pos 0)
            × ((c : K) × (o.code_imp ≡ some c))
      filled opts = (
        λ h. ground (arith, eq_iff opts.net.network "", eq_iff "tcp" ""),
        λ h. ground (arith, eq_iff opts.net.address "", eq_iff ":58800" ""),
        λ h. ground arith,
        λ h. ground arith,
        elim (Option-cases opts.code_imp) [
          | inl e ↦ (codec, rw (e, fill_defaults) refl)
          | inr (c, e) ↦ (c, rw (e, fill_defaults) refl)
        ],
      )

  -- The last option decides its field, whatever came before: an empty network or address stands for the
  -- default, a number of loops that is not positive for the number of processors, and the other options
  -- for themselves.
  pub last_option :
      (codec c : K) (os : List (Options K → Options K)) (s : String) (z : ℤ) (b : Bool) (cpus n : ℕ)
      → ((new_options codec (os ++ (network s ∷ []))).net.network ≡ (if s == "" then "tcp" else s))
        × ((new_options codec (os ++ (address s ∷ []))).net.address
            ≡ (if s == "" then ":58800" else s))
        × ((new_options codec (os ++ (reuse_port b ∷ []))).net.reuse_port ≡ b)
        × ((new_options codec (os ++ (idle_time z ∷ []))).idle_time ≡ z)
        × ((new_options codec (os ++ (code_imp c ∷ []))).code_imp ≡ some c)
        × (loops_wanted cpus (new_options codec (os ++ (num_loops (pos (suc n)) ∷ []))) ≡ suc n)
        × (loops_wanted cpus (new_options codec (os ++ (num_loops (pos 0) ∷ []))) ≡ cpus)
        × (loops_wanted cpus (new_options codec (os ++ (num_loops (negsuc n) ∷ []))) ≡ cpus)
  unfolding new_options fill_defaults network address num_loops reuse_port idle_time code_imp
      loops_wanted
  last_option codec c os s z b cpus n = (
    ap (λ (o : Options K). if o.net.network == "" then "tcp" else o.net.network)
        (apply_all-append os (network s) zero_options),
    ap (λ (o : Options K). if o.net.address == "" then ":58800" else o.net.address)
        (apply_all-append os (address s) zero_options),
    ap (λ (o : Options K). o.net.reuse_port) (apply_all-append os (reuse_port b) zero_options),
    ap (λ (o : Options K). o.idle_time) (apply_all-append os (idle_time z) zero_options),
    rw (apply_all-append os (code_imp c) zero_options) refl,
    ap (loops_wanted cpus) (apply_all-append os (num_loops (pos (suc n))) zero_options)
        ∙ ground arith,
    ap (loops_wanted cpus) (apply_all-append os (num_loops (pos 0)) zero_options),
    ap (loops_wanted cpus) (apply_all-append os (num_loops (negsuc n)) zero_options) ∙ ground arith,
  )
