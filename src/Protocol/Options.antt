-- ===== src/Protocol/Options.antt =====
-- net/protocol/options.go: the options of a server and their defaults. A duration is a number of
-- nanoseconds, and `none` is a nil codec.
pub mod Defaults
use Prim.Native.String.{String}
use text.Mathlib.Text.{◌==◌}
use zput_net_golang.Prelude.{
  ℕ, zero, suc, ltb_ℤ, pos_part, Bool, true, false, if◌then◌else◌, List, [], ◌∷◌, Option, none,
  some, ℤ, pos, negsuc,
}

-- The addresses to listen on, of net/protocol/protocol.go.
pub record NetWorkAndAddressAndOption : Type 0 where
  pub network : String
  pub address : String
  pub reuse_port : Bool

-- `K` is the type of codecs.
pub record Options (K : Type 0) : Type 0 where
  pub net : NetWorkAndAddressAndOption
  pub num_loops : ℤ
  pub tick : ℤ
  pub wheel_size : ℤ
  pub idle_time : ℤ
  pub code_imp : Option K

abbrev pub is_zero : ℤ → Bool
is_zero (pos zero) = true
is_zero (pos (suc n)) = false
is_zero (negsuc n) = false

module _ {K : Type 0} where
  -- `Options{}`
  abbrev pub zero_options : Options K
  zero_options = record {
    net = record { network = ""; address = ""; reuse_port = false };
    num_loops = pos 0;
    tick = pos 0;
    wheel_size = pos 0;
    idle_time = pos 0;
    code_imp = none;
  }

  unfoldable pub apply_all : List (Options K → Options K) → Options K → Options K
  apply_all [] opts = opts
  apply_all (o ∷ os) opts = apply_all os (o opts)

  -- The second half of `NewOptions`, where `codec` is `new(BuiltInFrameCodec)`.
  unfoldable pub fill_defaults : K → Options K → Options K
  fill_defaults codec opts = record {
    net = record {
      network = if opts.net.network == "" then "tcp" else opts.net.network;
      address = if opts.net.address == "" then ":58800" else opts.net.address;
      reuse_port = opts.net.reuse_port;
    };
    num_loops = opts.num_loops;
    tick = if is_zero opts.tick then pos 1000000 else opts.tick;
    wheel_size = if is_zero opts.wheel_size then pos 1000 else opts.wheel_size;
    idle_time = opts.idle_time;
    code_imp = elim opts.code_imp [ none ↦ some codec | some c ↦ some c ];
  }

  unfoldable pub new_options : K → List (Options K → Options K) → Options K
  unfolding apply_all fill_defaults
  new_options codec os = fill_defaults codec (apply_all os zero_options)

  unfoldable pub reuse_port : Bool → Options K → Options K
  reuse_port b o = record o { net = record o.net { reuse_port = b } }

  unfoldable pub network : String → Options K → Options K
  network n o = record o { net = record o.net { network = n } }

  unfoldable pub address : String → Options K → Options K
  address a o = record o { net = record o.net { address = a } }

  unfoldable pub num_loops : ℤ → Options K → Options K
  num_loops n o = record o { num_loops = n }

  unfoldable pub idle_time : ℤ → Options K → Options K
  idle_time t o = record o { idle_time = t }

  unfoldable pub code_imp : K → Options K → Options K
  code_imp c o = record o { code_imp = some c }

-- What `New` of net/server does with `NumLoops`; `num_cpu` is `runtime.NumCPU()`.
unfoldable pub loops_wanted : {K : Type 0} → ℕ → Options K → ℕ
loops_wanted num_cpu o = if ltb_ℤ (pos 0) o.num_loops then pos_part o.num_loops else num_cpu
