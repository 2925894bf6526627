-- ===== src/Socket.antt =====
-- socket.go: the `Socket`, its receive side and its transmit side. A method takes the socket and
-- returns the new one with its result; it is one step, and the kernel moves between the steps (World).
-- `incref` refuses on a closing socket and `decref` takes its count back, so within one call they
-- leave only the test of `closing`.
pub mod Setup
pub mod Settled
pub mod Kick
pub mod Poll
pub mod Stats
pub mod Inv
pub mod Tx
pub mod Frames
use go_afxdp.Prelude.{
  ℕ, zero, suc, ◌+◌, ◌-◌, ◌*◌, ◌/◌, ◌%◌, ◌^◌, ◌≡◌, Bool, true, false, not, ◌&&◌, ◌||◌, Option, none,
  some, List, [], ◌∷◌, ◌++◌, map, ltb, leb, ◌==◌, if◌then◌else◌, bit_and, length, take, ℤ, pos,
  ◌+ℤ◌, ◌-ℤ◌, pos_part,
}
use go_afxdp.Options.{
  Options, SocketError, check_options, with_defaults, has_flag, xdp_use_need_wakeup,
  xdp_ring_need_wakeup,
}
use go_afxdp.Pool
use go_afxdp.Pool.{FramePool, new_frame_pool}
use go_afxdp.Ring.{Ring, u32, free_slots, waiting, publish, consume}

-- `Desc`, layout-compatible with `unix.XDPDesc`.
pub record Desc : Type 0 where
  pub addr : ℕ
  pub len : ℕ
  pub options : ℕ

-- The counters that the methods bump; each is a uint64.
pub record Counters : Type 0 where
  pub kicks : ℕ
  pub kicks_suppressed : ℕ
  pub polls : ℕ
  pub rx_kicks : ℕ
  pub send_req : ℕ
  pub send_got : ℕ
  pub ring_full : ℕ
  pub submitted : ℕ
  pub inflight_hw : ℕ

abbrev pub u64 : ℕ
u64 = 2 ^ 64

abbrev pub add64 : ℕ → ℕ → ℕ
add64 a b = (a + b) % u64

-- The UMEM is a function from an offset to its byte.
pub record Socket : Type 0 where
  pub options : Options
  pub closing : Bool
  pub umem : ℕ → ℕ
  pub fill_ring : Ring ℕ
  pub rx_ring : Ring Desc
  pub tx_ring : Ring Desc
  pub completion_ring : Ring ℕ
  pub rx_pool : FramePool
  pub num_filled : ℤ
  pub pkt_partial : List Desc
  pub tx_pool : FramePool
  pub num_transmitted : ℤ
  pub stats : Counters

-- `if n > cap { n = cap }`
abbrev pub capped : ℕ → ℕ → ℕ
capped n cap = if ltb cap n then cap else n

-- PRECONDITION of the source: chunks are aligned.
unfoldable pub frame_base : Socket → ℕ → ℕ
frame_base s addr = addr - addr % s.options.frame_size

abbrev pub ring_needs_wakeup : Option ℕ → Bool
ring_needs_wakeup none = false
ring_needs_wakeup (some flags) = has_flag flags xdp_ring_need_wakeup

abbrev pub needs_wakeup_rx : Socket → Bool
needs_wakeup_rx s = ring_needs_wakeup s.fill_ring.flags

abbrev pub needs_wakeup_tx : Socket → Bool
needs_wakeup_tx s = ring_needs_wakeup s.tx_ring.flags

abbrev pub num_free_fill_slots : Socket → ℕ
num_free_fill_slots s =
    if s.closing then 0 else free_slots s.options.fill_ring_num_descs s.fill_ring

abbrev pub num_received : Socket → ℕ
num_received s = if s.closing then 0 else waiting s.options.rx_ring_num_descs s.rx_ring

abbrev pub num_free_tx_slots : Socket → ℕ
num_free_tx_slots s = if s.closing then 0 else free_slots s.options.tx_ring_num_descs s.tx_ring

abbrev pub num_completed : Socket → ℕ
num_completed s =
    if s.closing then 0 else waiting s.options.completion_ring_num_descs s.completion_ring

-- ---- receive side ----

unfoldable pub fill : Socket → ℕ → Socket × ℕ
fill s n =
    if s.closing
    then (s, 0)
    else let (pool, addrs) = Pool.pop s.rx_pool (capped n (num_free_fill_slots s)) [] in
      if length addrs == 0 then (record s { rx_pool = pool }, 0) else (
        record s {
          rx_pool = pool;
          fill_ring = publish (s.options.fill_ring_num_descs - 1) s.fill_ring addrs;
          num_filled = s.num_filled +ℤ length addrs;
        },
        length addrs,
      )

unfoldable pub receive : Socket → ℕ → Socket × List Desc
receive s max =
    if s.closing
    then (s, [])
    else let m = capped max (num_received s) in
      let (ring, descs) = consume (s.options.rx_ring_num_descs - 1) s.rx_ring m in
      (record s { rx_ring = ring; num_filled = s.num_filled -ℤ m }, descs)

unfoldable pub recycle : Socket → List Desc → Socket
recycle s [] = s
recycle s (d ∷ ds) = recycle (record s { rx_pool = Pool.push s.rx_pool (frame_base s d.addr) }) ds

-- ---- transmit side ----

unfoldable pub alloc : Socket → ℕ → Socket × List Desc
alloc s n =
    if s.closing
    then (s, [])
    else let (pool, addrs) = Pool.pop s.tx_pool (capped n (num_free_tx_slots s)) [] in
      (
        record s { tx_pool = pool },
        map (λ a. record { addr = a; len = s.options.frame_size % u32; options = 0 }) addrs,
      )

-- The answers of the kernel to sendto: `rc == 0`, an errno that the loop knows, or another.
pub data Answer : Type 0 where
  ok eintr eagain ebusy : Answer
  other : ℕ → Answer

-- The retry loop of `Kick` against the kernel's answers, in order, from some call on `ok`: the number
-- of calls made, and the error returned.
unfoldable pub kick_loop : ℕ → List Answer → ℕ × Option ℕ
kick_loop retries [] = (1, none)
kick_loop retries (ok ∷ answers) = (1, none)
kick_loop retries (eintr ∷ answers) = let (calls, e) = kick_loop retries answers in (suc calls, e)
kick_loop retries (eagain ∷ answers) =
    let (calls, e) = kick_loop (retries - 1) answers in
    if ltb 0 (retries - 1) then (suc calls, e) else (1, none)
kick_loop retries (ebusy ∷ answers) = (1, none)
kick_loop retries (other code ∷ answers) = (1, some code)

pub data KickError : Type 0 where
  closed : KickError
  errno : ℕ → KickError

abbrev kick_error : Option ℕ → Option KickError
kick_error none = none
kick_error (some e) = some (errno e)

abbrev pub kick_retries : Socket → ℕ
kick_retries s = s.options.tx_ring_num_descs / 16 + 8

unfoldable pub kick : Socket → List Answer → Socket × Option KickError
kick s answers =
    if s.closing
    then (s, some closed)
    else let (calls, e) = kick_loop (kick_retries s) answers in
      (record s { stats = record s.stats { kicks = add64 s.stats.kicks calls } }, kick_error e)

unfoldable pub kick_needed : Socket → Bool
kick_needed s = not (has_flag s.options.bind_flags xdp_use_need_wakeup) || needs_wakeup_tx s

-- `if xsk.kickNeeded() { _ = xsk.Kick() } else { statKicksSuppressed.Add(1) }`
unfoldable pub kick_if_needed : Socket → List Answer → Socket
kick_if_needed s answers =
    if kick_needed s
    then (kick s answers).0
    else record s { stats = record s.stats { kicks_suppressed = add64 s.stats.kicks_suppressed 1 } }

unfoldable pub transmit : Socket → List Desc → List Answer → Socket × ℕ
transmit s descs answers =
    if s.closing
    then (s, 0)
    else let free = num_free_tx_slots s in
      let ds = if ltb free (length descs) then take free descs else descs in
      if length ds == 0 then (s, 0) else (
        kick_if_needed
            (record s {
              tx_ring = publish (s.options.tx_ring_num_descs - 1) s.tx_ring ds;
              num_transmitted = s.num_transmitted +ℤ length ds;
            })
            answers,
        length ds,
      )

-- Where a completed frame goes: by its address in hairpin mode, else to the transmit pool.
unfoldable pub return_frame : Socket → ℕ → Socket
return_frame s addr =
    let base = frame_base s addr in
    if s.options.tx_reuse_rx_frames
      && ltb base ((s.options.num_frames - s.options.tx_frames) * s.options.frame_size)
    then record s { rx_pool = Pool.push s.rx_pool base }
    else record s { tx_pool = Pool.push s.tx_pool base }

unfoldable pub return_frames : Socket → List ℕ → Socket
return_frames s [] = s
return_frames s (addr ∷ addrs) = return_frames (return_frame s addr) addrs

unfoldable pub complete : Socket → ℕ → Socket × ℕ
complete s n =
    if s.closing
    then (s, 0)
    else let m = capped n (num_completed s) in
      let (ring, addrs) = consume (s.options.completion_ring_num_descs - 1) s.completion_ring m in
      let s' = return_frames s addrs in
      (record s' { completion_ring = ring; num_transmitted = s.num_transmitted -ℤ m }, m)

-- ---- construction ----

abbrev pub empty_ring {ℓ} : {A : Type ℓ} → A → Option ℕ → Ring A
empty_ring a flags = record { producer = 0; consumer = 0; flags = flags; descs = λ _. a }

abbrev pub no_counts : Counters
no_counts = record {
  kicks = 0;
  kicks_suppressed = 0;
  polls = 0;
  rx_kicks = 0;
  send_req = 0;
  send_got = 0;
  ring_full = 0;
  submitted = 0;
  inflight_hw = 0;
}

abbrev pub no_desc : Desc
no_desc = record { addr = 0; len = 0; options = 0 }

-- The socket once the rings are mapped and the pools split: receive frames first, then transmit.
-- The kernel hands out zeroed memory and rings; `flags` is what it exposes of the flag words.
unfoldable pub mapped : Options → Option ℕ → Socket
mapped o flags = record {
  options = o;
  closing = false;
  umem = λ _. 0;
  fill_ring = empty_ring 0 flags;
  rx_ring = empty_ring no_desc flags;
  tx_ring = empty_ring no_desc flags;
  completion_ring = empty_ring 0 flags;
  rx_pool = new_frame_pool 0 (o.num_frames - o.tx_frames) o.frame_size;
  num_filled = pos 0;
  pkt_partial = [];
  tx_pool = new_frame_pool (o.num_frames - o.tx_frames) o.tx_frames o.frame_size;
  num_transmitted = pos 0;
  stats = no_counts;
}

pub data Opened : Type 0 where
  opened : Socket → Opened
  refused : SocketError → Opened

-- `NewSocket`: the checks, the system calls (`failed` is the first that the kernel refuses, if any),
-- and the fill ring populated before bind.
unfoldable pub new_socket : Option Options → Option ℕ → Option ℕ → Opened
new_socket options flags failed =
    let o = with_defaults options in
    elim (check_options o) [
      | some e ↦ refused e
      | none ↦ elim failed [
        | some code ↦ refused (SocketError.syscall code)
        | none ↦ opened (fill (mapped o flags) o.fill_ring_num_descs).0
      ]
    ]
