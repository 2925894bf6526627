-- ===== src/Load.antt =====
-- The creation of an XDP program with its maps: newRedirectProgram (program.go) and newFilterProgram
-- (filter.go). The calls to the kernel take its answers, an errno or none; what is open is state.
pub mod Tidy
use go_afxdp.Prelude.{ℕ, Bool, true, false, Option, none, some, List, [], ◌∷◌, if◌then◌else◌}
use go_afxdp.Ebpf.{Instr}
use go_afxdp.Redirect.{Maps}
use go_afxdp.Program.{new_maps, frags_flag}
use go_afxdp.Filter.Match.{Match}
use go_afxdp.Filter.Program.{
  FilterError, no_match, Assembled, code, rejected, classifier_blocks, any_redirect,
}

-- The kernel's answers to the creation of the two maps, and to the loading of the program.
pub record Answers : Type 0 where
  pub qidconf : Option ℕ
  pub xsks : Option ℕ
  pub load : Option ℕ

-- The descriptors that are open.
pub record Handles : Type 0 where
  pub qidconf : Bool
  pub xsks : Bool
  pub program : Bool

abbrev pub all_closed : Handles
all_closed = record { qidconf = false; xsks = false; program = false }

-- "xsk_redirect", "xsk_pass", and "xsk_filter" with its classification blocks.
pub data Body : Type 0 where
  redirect_all pass_all : Body
  classify : List Instr → Body

pub record Loaded : Type 0 where
  pub body : Body
  pub flags : ℕ
  pub maps : Option Maps

pub data LoadError : Type 0 where
  bad_filter : FilterError → LoadError
  qidconf_map xsks_map program : ℕ → LoadError

pub data Loading : Type 0 where
  loaded : Loaded → Handles → Loading
  failed : LoadError → Handles → Loading

-- `ebpf.NewProgram` for a program with maps; a refusal closes both.
abbrev pub load_with_maps : Body → ℕ → Maps → Option ℕ → Handles → Loading
load_with_maps b flags m none h =
    loaded (record { body = b; flags = flags; maps = some m }) (record h { program = true })
load_with_maps b flags m (some e) h =
    failed (program e) (record h { qidconf = false; xsks = false })

abbrev pub make_xsks : Body → ℕ → ℕ → Answers → Option ℕ → Handles → Loading
make_xsks b flags max_queues a none h =
    load_with_maps b flags (new_maps max_queues) a.load (record h { xsks = true })
make_xsks b flags max_queues a (some e) h = failed (xsks_map e) (record h { qidconf = false })

abbrev pub make_qidconf : Body → ℕ → ℕ → Answers → Option ℕ → Handles → Loading
make_qidconf b flags max_queues a none h =
    make_xsks b flags max_queues a a.xsks (record h { qidconf = true })
make_qidconf b flags max_queues a (some e) h = failed (qidconf_map e) h

unfoldable pub new_redirect_program : ℕ → Bool → Answers → Loading
new_redirect_program max_queues frags a =
    make_qidconf redirect_all (frags_flag frags) max_queues a a.qidconf all_closed

-- `NewProgram` and `NewMultiBufferProgram`
unfoldable pub new_program : ℕ → Answers → Loading
unfolding new_redirect_program
new_program max_queues a = new_redirect_program max_queues false a

unfoldable pub new_multi_buffer_program : ℕ → Answers → Loading
unfolding new_redirect_program
new_multi_buffer_program max_queues a = new_redirect_program max_queues true a

abbrev pub load_pass : ℕ → Option ℕ → Loading
load_pass flags none =
    loaded (record { body = pass_all; flags = flags; maps = none })
      (record all_closed { program = true })
load_pass flags (some e) = failed (program e) all_closed

abbrev pub load_blocks : ℕ → ℕ → Answers → Assembled → Loading
load_blocks max_queues flags a (rejected e) = failed (bad_filter e) all_closed
load_blocks max_queues flags a (code is) =
    make_qidconf (classify is) flags max_queues a a.qidconf all_closed

unfoldable pub new_filter_program : ℕ → List Match → List Match → Bool → Answers → Loading
unfolding classifier_blocks
new_filter_program max_queues exceptions [] frags a = failed (bad_filter no_match) all_closed
new_filter_program max_queues exceptions (m ∷ ms) frags a =
    if any_redirect (m ∷ ms)
    then load_blocks max_queues (frags_flag frags) a (classifier_blocks exceptions (m ∷ ms))
    else load_pass (frags_flag frags) a.load
