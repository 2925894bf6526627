-- ===== src/Socket/Setup.antt =====
-- The system calls of NewSocket (socket.go), in order, each with its error path, and what is open and set up
-- after them. The kernel's answer to each call, an errno or none, is an argument.
use go_afxdp.Prelude.{ℕ, Bool, true, false, not, ◌&&◌, Option, none, some, ltb, if◌then◌else◌}
use go_afxdp.Options.{Options}

pub data SysCall : Type 0 where
  open_socket eventfd map_umem umem_reg : SysCall
  set_fill_ring set_completion_ring set_rx_ring set_tx_ring mmap_offsets : SysCall
  map_fill map_completion map_rx map_tx : SysCall
  bind_queue prefer_busy_poll busy_poll busy_poll_budget : SysCall

-- The descriptors and mappings of a socket, which Close releases, and then what the kernel has been told:
-- the UMEM, the sizes of the four rings, the bind and whether the fill ring was populated by then, and the
-- three settings of busy polling.
pub record SocketState : Type 0 where
  pub fd : Bool
  pub wake_fd : Bool
  pub umem : Bool
  pub fill_ring : Bool
  pub completion_ring : Bool
  pub rx_ring : Bool
  pub tx_ring : Bool
  pub registered : Bool
  pub offsets_read : Bool
  pub fill_size : ℕ
  pub completion_size : ℕ
  pub rx_size : ℕ
  pub tx_size : ℕ
  pub filled : Bool
  pub bound : Bool
  pub bound_filled : Bool
  pub prefer_busy : Bool
  pub usecs : ℕ
  pub budget : ℕ

abbrev pub blank : SocketState
blank = record {
  fd = false;
  wake_fd = false;
  umem = false;
  fill_ring = false;
  completion_ring = false;
  rx_ring = false;
  tx_ring = false;
  registered = false;
  offsets_read = false;
  fill_size = 0;
  completion_size = 0;
  rx_size = 0;
  tx_size = 0;
  filled = false;
  bound = false;
  bound_filled = false;
  prefer_busy = false;
  usecs = 0;
  budget = 0;
}

-- Close on a socket that nobody else has.
unfoldable pub shut_socket : SocketState → SocketState
shut_socket s = record s {
  fd = false;
  wake_fd = false;
  umem = false;
  fill_ring = false;
  completion_ring = false;
  rx_ring = false;
  tx_ring = false;
}

pub data Setup : Type 0 where
  ready : SocketState → Setup
  refused : SysCall → ℕ → SocketState → Setup
  neither_ring : SocketState → Setup

abbrev pub has_rx : Options → Bool
has_rx o = ltb 0 o.rx_ring_num_descs

abbrev pub has_tx : Options → Bool
has_tx o = ltb 0 o.tx_ring_num_descs

abbrev pub polls_busily : Options → Bool
polls_busily o = ltb 0 o.busy_poll_usecs && ltb 0 o.busy_poll_budget

-- `if err != nil { ... }` and what follows it.
abbrev pub check : Option ℕ → (ℕ → Setup) → Setup → Setup
check none fails on = on
check (some e) fails on = fails e

module _ (answer : SysCall → Option ℕ) (o : Options) where
  unfoldable pub busy_polling : SocketState → Setup
  busy_polling s =
      let s1 = record s { prefer_busy = true } in
      let s2 = record s1 { usecs = o.busy_poll_usecs } in
      if polls_busily o
      then check (answer prefer_busy_poll) (λ e. refused prefer_busy_poll e (shut_socket s))
          (check (answer busy_poll) (λ e. refused busy_poll e (shut_socket s1))
            (check (answer busy_poll_budget) (λ e. refused busy_poll_budget e (shut_socket s2))
              (ready (record s2 { budget = o.busy_poll_budget }))))
      else ready s

  -- `xsk.Fill`, and then the bind.
  unfoldable pub binding : SocketState → Setup
  unfolding busy_polling
  binding s =
      let s1 = record s { filled = true } in
      check (answer bind_queue) (λ e. refused bind_queue e (shut_socket s1))
        (busy_polling (record s1 { bound = true; bound_filled = s1.filled }))

  unfoldable pub mapping_tx : SocketState → Setup
  unfolding binding
  mapping_tx s =
      if has_tx o
      then check (answer map_tx) (λ e. refused map_tx e (shut_socket s))
          (binding (record s { tx_ring = true }))
      else binding s

  unfoldable pub mapping_rx : SocketState → Setup
  unfolding mapping_tx
  mapping_rx s =
      if has_rx o
      then check (answer map_rx) (λ e. refused map_rx e (shut_socket s))
          (mapping_tx (record s { rx_ring = true }))
      else mapping_tx s

  unfoldable pub mapping_fill : SocketState → Setup
  unfolding mapping_rx
  mapping_fill s =
      let s1 = record s { offsets_read = true } in
      let s2 = record s1 { fill_ring = true } in
      check (answer mmap_offsets) (λ e. refused mmap_offsets e (shut_socket s))
        (check (answer map_fill) (λ e. refused map_fill e (shut_socket s1))
          (check (answer map_completion) (λ e. refused map_completion e (shut_socket s2))
            (mapping_rx (record s2 { completion_ring = true }))))

  unfoldable pub sizing_tx : SocketState → Setup
  unfolding mapping_fill
  sizing_tx s =
      if has_tx o
      then check (answer set_tx_ring) (λ e. refused set_tx_ring e (shut_socket s))
          (mapping_fill (record s { tx_size = o.tx_ring_num_descs }))
      else mapping_fill s

  unfoldable pub sizing_rx : SocketState → Setup
  unfolding sizing_tx
  sizing_rx s =
      if has_rx o
      then check (answer set_rx_ring) (λ e. refused set_rx_ring e (shut_socket s))
          (sizing_tx (record s { rx_size = o.rx_ring_num_descs }))
      else sizing_tx s

  -- "RxRingNumDescs and TxRingNumDescs cannot both be zero"
  unfoldable pub rings : SocketState → Setup
  unfolding sizing_rx
  rings s = if not (has_rx o) && not (has_tx o) then neither_ring (shut_socket s) else sizing_rx s

  unfoldable pub setup : Setup
  unfolding rings
  setup =
      let s1 = record blank { fd = true } in
      let s2 = record s1 { wake_fd = true } in
      let s3 = record s2 { umem = true } in
      let s4 = record s3 { registered = true } in
      let s5 = record s4 { fill_size = o.fill_ring_num_descs } in
      check (answer open_socket) (λ e. refused open_socket e blank)
        (check (answer eventfd) (λ e. refused eventfd e (shut_socket s1))
          (check (answer map_umem) (λ e. refused map_umem e (shut_socket s2))
            (check (answer umem_reg) (λ e. refused umem_reg e (shut_socket s3))
              (check (answer set_fill_ring) (λ e. refused set_fill_ring e (shut_socket s4))
                (check (answer set_completion_ring)
                  (λ e. refused set_completion_ring e (shut_socket s5))
                  (rings (record s5 { completion_size = o.completion_ring_num_descs })))))))
