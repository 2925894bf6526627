-- ===== src/Fleet.antt =====
-- fleet.go: `Fleet`, which opens a socket for every queue under one program, and closes them. `Kernel` holds
-- the answers of the kernel and of netlink to the calls of one Open; a call that fails changes nothing. The
-- names of the interface and of the filter, and the texts of errors, are left out.
pub mod Locals
pub mod Open
pub mod Rollback
pub mod Attach
pub mod Lifetime
pub mod Ending
use go_afxdp.Prelude.{
  ℕ, zero, suc, ◌+◌, ◌-◌, Bool, true, false, not, ◌&&◌, Option, none, some, List, [], ◌∷◌, ◌++◌,
  ltb, ◌==◌, length, get_elem?, if◌then◌else◌, bit_or, ℤ, pos, negsuc,
}
use go_afxdp.Options.{Options, xdp_copy, xdp_zerocopy, with_defaults}
use go_afxdp.Options.Config.{XdpMode, mode_auto, mode_native, mode_native_zc, mode_generic, Config}
use go_afxdp.Filter.Match.{Match}
use go_afxdp.Filter.Program.{
  FilterError, Assembled, code, rejected, program_blocks, any_redirect, is_nil,
}
use go_afxdp.Program
use go_afxdp.Program.{
  Program, Attached, Removal, Linking, Closing, update, new_maps, new_program, register, unregister,
  attach, detach, first_error,
}
use go_afxdp.Tuning
use go_afxdp.Tuning.{NapiTuning, Answers, apply_napi_tuning, restore}

-- What Open and Close change on the machine: the program that is attached to the interface, the number of
-- programs loaded, how many sockets are open for each queue, and the NAPI settings.
pub record Host : Type 0 where
  pub attached : Attached
  pub programs : ℕ
  pub sockets : ℕ → ℕ
  pub tuning : Tuning.State

-- A socket of the fleet: its queue and its descriptor.
pub record Xsk : Type 0 where
  pub queue : ℕ
  pub fd : ℕ

pub record Fleet : Type 0 where
  pub ifindex : ℕ
  pub opts : Options
  pub program : Option Program
  pub sockets : List Xsk
  pub tuning : Option NapiTuning

-- ---- modes ----

abbrev pub drv_mode : ℕ
drv_mode = 4

abbrev pub skb_mode : ℕ
skb_mode = 2

pub record ModeGroup : Type 0 where
  pub xdp_flags : ℕ
  pub bind_flags : List ℕ

abbrev native : List ℕ → ModeGroup
native binds = record { xdp_flags = drv_mode; bind_flags = binds }

abbrev generic : ModeGroup
generic = record { xdp_flags = skb_mode; bind_flags = xdp_copy ∷ [] }

unfoldable pub mode_groups : XdpMode → List ModeGroup
mode_groups mode_generic = generic ∷ []
mode_groups mode_native_zc = native (xdp_zerocopy ∷ []) ∷ []
mode_groups mode_native = native (xdp_zerocopy ∷ xdp_copy ∷ []) ∷ []
mode_groups mode_auto = native (xdp_zerocopy ∷ xdp_copy ∷ []) ∷ generic ∷ []

-- ---- the program ----

pub data FleetError : Type 0 where
  no_filter too_many_addresses no_mode : FleetError
  bad_filter : FilterError → FleetError
  errno : ℕ → FleetError

pub data BuiltProgram : Type 0 where
  made : Program → BuiltProgram
  unmade : FleetError → BuiltProgram

abbrev load : Option ℕ → Program → BuiltProgram
load none p = made p
load (some e) p = unmade (errno e)

-- `newFilterProgram` and `newRedirectProgram`, with the first errno that the making of maps and the loading
-- meet. A program for matches that only pass has no maps.
unfoldable pub build_program : ℕ → List Match → List Match → Option ℕ → BuiltProgram
build_program n_queues exceptions matches loads =
    if is_nil matches
    then load loads (new_program n_queues)
    else elim (program_blocks exceptions matches) [
      | rejected e ↦ unmade (bad_filter e)
      | code is ↦ load loads (
          if any_redirect matches
          then new_program n_queues
          else record (new_program n_queues) { maps = none })
    ]

-- ---- sockets ----

-- One way to bind: the flags of the attached program, and the bind flags.
pub record Attempt : Type 0 where
  pub xdp_flags : ℕ
  pub bind_flags : ℕ

pub record Kernel : Type 0 where
  pub loads : ℕ → Option ℕ
  pub removal : ℕ → Removal
  pub linking : ℕ → Linking
  pub closes_link : ℕ → Option ℕ
  pub detaching : ℕ → Removal
  pub closing : ℕ → Closing
  pub new_socket : Attempt → ℕ → Option ℕ
  pub fd : Attempt → ℕ → ℕ
  pub puts_socket : Attempt → ℕ → Option ℕ
  pub puts_queue : Attempt → ℕ → Option ℕ
  pub sysfs : Answers

abbrev pub open_socket : ℕ → Host → Host
open_socket q h = record h { sockets = update h.sockets q (h.sockets q + 1) }

abbrev pub close_socket : ℕ → Host → Host
close_socket q h = record h { sockets = update h.sockets q (h.sockets q - 1) }

unfoldable pub close_all : List Xsk → Host → Host
close_all [] h = h
close_all (x ∷ xs) h = close_all xs (close_socket x.queue h)

pub data Registered : Type 0 where
  registered : Host → Program → List Xsk → Registered
  unregistered : Host → Program → ℕ → Registered

-- The bind flags that the loop over `g.bindFlags` settles on, if any.
pub data Bound : Type 0 where
  bound : Host → Program → ℕ → List Xsk → Bound
  unbound : Host → Program → Bound

-- The first of two calls that fails decides; else the work goes on.
abbrev pub first_failure {ℓ} : {A : Type ℓ} → Option ℕ → Option ℕ → (ℕ → A) → (ℕ → A) → A → A
first_failure (some c) e f g on = f c
first_failure none (some c) f g on = g c
first_failure none none f g on = on

-- `if err != nil { continue }`
abbrev pub settle : ℕ → (Host → Program → Bound) → Registered → Bound
settle bind_flags retry (registered h p socks) = bound h p bind_flags socks
settle bind_flags retry (unregistered h p e) = retry h p

module _ (k : Kernel) where
  -- The loop of `registerSockets`, with `n` queues to go, `q` the next.
  unfoldable pub register_sockets : Attempt → ℕ → ℕ → List Xsk → Host → Program → Registered
  register_sockets a zero q socks h p = registered h p socks
  register_sockets a (suc n) q socks h p =
      let (p', e) = register p q (k.fd a q) (k.puts_socket a q) (k.puts_queue a q) in
      first_failure (k.new_socket a q) e (λ c. unregistered (close_all socks h) p c)
        (λ c. unregistered (close_all socks (close_socket q (open_socket q h))) p' c)
        (register_sockets a n (q + 1) (socks ++ (record { queue = q; fd = k.fd a q } ∷ []))
          (open_socket q h) p')

  unfoldable pub try_binds : ℕ → ℕ → ℕ → List ℕ → Host → Program → Bound
  try_binds flags base_flags n [] h p = unbound h p
  try_binds flags base_flags n (b ∷ bs) h p =
      let bind_flags = bit_or b base_flags in
      settle bind_flags (λ h' p'. try_binds flags base_flags n bs h' p')
        (register_sockets (record { xdp_flags = flags; bind_flags = bind_flags }) n 0 [] h p)
