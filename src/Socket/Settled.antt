-- ===== src/Socket/Settled.antt =====
-- NewSocket on the kernel's answers: where its set-up ends, and what it leaves.
use go_afxdp.Prelude.{
  ℕ, ◌≡◌, ◌<◌, Bool, true, false, Option, none, some, [], ◌∷◌, get_or, ltb, if◌then◌else◌,
}
use go_afxdp.Options.{Options}
use go_afxdp.Socket.Setup.{
  SysCall, open_socket, eventfd, map_umem, umem_reg, set_fill_ring, set_completion_ring,
  set_rx_ring, set_tx_ring, mmap_offsets, map_fill, map_completion, map_rx, map_tx, bind_queue,
  prefer_busy_poll, busy_poll, busy_poll_budget, SocketState, Setup, ready, refused, neither_ring,
  polls_busily,
}

-- The order in which AF_XDP wants the calls.
abbrev pub place : SysCall → ℕ
place open_socket = 0
place eventfd = 1
place map_umem = 2
place umem_reg = 3
place set_fill_ring = 4
place set_completion_ring = 5
place set_rx_ring = 6
place set_tx_ring = 7
place mmap_offsets = 8
place map_fill = 9
place map_completion = 10
place map_rx = 11
place map_tx = 12
place bind_queue = 13
place prefer_busy_poll = 14
place busy_poll = 15
place busy_poll_budget = 16

-- The calls that the options ask for: the last three only for busy polling.
abbrev pub wants_call : Options → SysCall → Bool
wants_call o c = if ltb (place c) 14 then true else polls_busily o

-- A socket that is open, mapped and set up as the options say, bound with its fill ring populated.
abbrev pub as_asked : Options → SocketState
as_asked o = record {
  fd = true;
  wake_fd = true;
  umem = true;
  fill_ring = true;
  completion_ring = true;
  rx_ring = true;
  tx_ring = true;
  registered = true;
  offsets_read = true;
  fill_size = o.fill_ring_num_descs;
  completion_size = o.completion_ring_num_descs;
  rx_size = o.rx_ring_num_descs;
  tx_size = o.tx_ring_num_descs;
  filled = true;
  bound = true;
  bound_filled = true;
  prefer_busy = polls_busily o;
  usecs = if polls_busily o then o.busy_poll_usecs else 0;
  budget = if polls_busily o then o.busy_poll_budget else 0;
}

-- No descriptor is open and no memory is mapped.
pub record HoldsNothing (s : SocketState) : Type 0 where
  pub fd : s.fd ≡ false
  pub wake_fd : s.wake_fd ≡ false
  pub umem : s.umem ≡ false
  pub fill_ring : s.fill_ring ≡ false
  pub completion_ring : s.completion_ring ≡ false
  pub rx_ring : s.rx_ring ≡ false
  pub tx_ring : s.tx_ring ≡ false

abbrev nth : ℕ → SysCall
nth n =
    get_or
      (open_socket ∷ eventfd ∷ map_umem ∷ umem_reg ∷ set_fill_ring ∷ set_completion_ring
        ∷ set_rx_ring ∷ set_tx_ring ∷ mmap_offsets ∷ map_fill ∷ map_completion ∷ map_rx ∷ map_tx
        ∷ bind_queue ∷ prefer_busy_poll ∷ busy_poll ∷ [])
      n busy_poll_budget

module _ (answer : SysCall → Option ℕ) (o : Options) where
  -- The kernel has granted every call that is asked for and comes before the `n`th.
  abbrev pub Granted : ℕ → Type 0
  Granted n = (c : SysCall) → place c < n → wants_call o c ≡ true → answer c ≡ none

  -- Either all calls are granted, and the socket is complete; or the set-up ends at a call asked for that is
  -- refused, all before it being granted, and nothing is open.
  abbrev pub Settled : Setup → Type 0
  Settled (ready s) = Granted 17 × (s ≡ as_asked o)
  Settled (refused c e s) =
      (wants_call o c ≡ true) × (answer c ≡ some e) × Granted (place c) × HoldsNothing s
  Settled (neither_ring s) = ⊥

  abbrev bare : SocketState
  bare = record (as_asked o) { prefer_busy = false; usecs = 0; budget = 0 }
