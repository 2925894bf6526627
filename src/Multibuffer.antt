-- ===== src/Multibuffer.antt =====
-- multibuffer.go: packets that span several frames, and the two transmit calls of socket.go that do
-- all the ring work (SendBatch, SendFunc). Each of these calls kicks at most once, so one list of
-- kernel answers serves a call.
pub mod Group
pub mod Split
pub mod Bytes
pub mod Hands
pub mod Conserve
pub mod Chains
pub mod Batch
use go_afxdp.Prelude.{
  ℕ, zero, suc, ◌+◌, ◌-◌, ◌*◌, ◌/◌, ◌%◌, ◌^◌, Bool, true, false, not, ◌&&◌, ◌||◌, Option, none,
  some, List, [], ◌∷◌, ◌++◌, map, min, ltb, leb, ◌==◌, if◌then◌else◌, length, take, drop, get_or, ℤ,
  pos, negsuc,
}
use go_afxdp.Options.{has_flag, xdp_use_sg, xdp_pkt_contd}
use go_afxdp.Pool
use go_afxdp.Ring.{u32}
use go_afxdp.Socket.{
  Socket, Desc, Counters, u64, add64, capped, frame_base, receive, alloc, Answer, kick_if_needed,
  transmit, complete, num_completed, num_free_tx_slots,
}

-- `Packet`
abbrev pub Packet : Type 0
Packet = List Desc

-- `Packet.Len`
unfoldable pub packet_len : Packet → ℕ
packet_len [] = 0
packet_len (d ∷ p) = d.len + packet_len p

abbrev pub max_tx_segs : ℕ
max_tx_segs = 18

abbrev pub multi_buffer : Socket → Bool
multi_buffer s = has_flag s.options.bind_flags xdp_use_sg

-- The packet goes on in the next descriptor.
unfoldable pub contd : Desc → Bool
contd d = has_flag d.options xdp_pkt_contd

-- ---- receive ----

-- The loop over `buf`: `current` is `buf[start:i]`; the packets, and the incomplete tail.
unfoldable pub group : List Desc → List Desc → List Packet × List Desc
group current [] = ([], current)
group current (d ∷ ds) =
    let going = group (current ++ (d ∷ [])) ds in
    let (pkts, tail) = group [] ds in
    if contd d then going else ((current ++ (d ∷ [])) ∷ pkts, tail)

-- What `ReceivePackets` does with the descriptors that it received.
abbrev pub gather : Socket → List Desc → Socket × List Packet
gather s descs =
    if (length descs == 0) && (length s.pkt_partial == 0)
    then (s, [])
    else let (pkts, tail) = group [] (s.pkt_partial ++ descs) in
      (record s { pkt_partial = tail }, pkts)

unfoldable pub receive_packets : Socket → ℕ → Socket × List Packet
receive_packets s max_frames =
    if s.closing then (s, []) else let (s', descs) = receive s max_frames in gather s' descs

abbrev push_all : Socket → Packet → Socket
push_all s [] = s
push_all s (d ∷ p) = push_all (record s { rx_pool = Pool.push s.rx_pool (frame_base s d.addr) }) p

unfoldable pub recycle_packets : Socket → List Packet → Socket
recycle_packets s [] = s
recycle_packets s (p ∷ ps) = recycle_packets (push_all s p) ps

-- `UMEM[addr:addr+n]`
abbrev pub read_bytes : (ℕ → ℕ) → ℕ → ℕ → List ℕ
read_bytes umem addr zero = []
read_bytes umem addr (suc n) = umem addr ∷ read_bytes umem (addr + 1) n

abbrev pub get_frame : (ℕ → ℕ) → Desc → List ℕ
get_frame umem d = read_bytes umem d.addr d.len

-- The bytes that `CopyOut` writes to a buffer with `room` bytes left; it returns their number.
unfoldable pub copy_out : (ℕ → ℕ) → Packet → ℕ → List ℕ
copy_out umem [] room = []
copy_out umem (d ∷ p) room =
    let copied = take room (get_frame umem d) in
    let rest = copy_out umem p (room - length copied) in if room == 0 then [] else copied ++ rest

-- ---- transmit ----

abbrev pub write_bytes : (ℕ → ℕ) → ℕ → List ℕ → ℕ → ℕ
write_bytes umem addr bytes i =
    if leb addr i && ltb i (addr + length bytes) then get_or bytes (i - addr) 0 else umem i

pub data SendError : Type 0 where
  closed : SendError
  too_many_segs too_long bad_length : ℕ → SendError

-- How many frames a payload takes.
unfoldable pub frames_of : ℕ → List ℕ → ℕ
frames_of fs p = let n = (length p + fs - 1) / fs in if ltb 0 n then n else 1

-- The first payload that needs more frames than a packet may span.
abbrev over_long : ℕ → ℕ → List (List ℕ) → Option ℕ
over_long fs i [] = none
over_long fs i (p ∷ ps) =
    let rest = over_long fs (i + 1) ps in if ltb max_tx_segs (frames_of fs p) then some i else rest

-- Whole packets only: the frames and the packets that fit the budget, on top of what is counted.
unfoldable pub fit : ℕ → ℕ → ℕ → ℕ → List (List ℕ) → ℕ × ℕ
fit fs budget n_frames n_pkts [] = (n_frames, n_pkts)
fit fs budget n_frames n_pkts (p ∷ ps) =
    let rest = fit fs budget (n_frames + frames_of fs p) (n_pkts + 1) ps in
    if ltb budget (n_frames + frames_of fs p) then (n_frames, n_pkts) else rest

-- One packet of `j` more fragments: `p` is what is left of the payload. The memory, the descriptors
-- written, and those left; the source never runs out of descriptors here.
unfoldable pub write_frags : (ℕ → ℕ) → ℕ → List ℕ → List Desc → (ℕ → ℕ) × List Desc × List Desc
write_frags umem zero p ds = (umem, [], ds)
write_frags umem (suc j) p [] = (umem, [], [])
write_frags umem (suc j) p (d ∷ ds) =
    let n = min d.len (length p) in
    let (umem', out, rest) = write_frags (write_bytes umem d.addr (take n p)) j (drop n p) ds in
    (umem', record d { len = n % u32; options = if j == 0 then 0 else xdp_pkt_contd } ∷ out, rest)

unfoldable pub write_packets : (ℕ → ℕ) → ℕ → ℕ → List (List ℕ) → List Desc → (ℕ → ℕ) × List Desc
write_packets umem fs zero ps ds = (umem, [])
write_packets umem fs (suc n) [] ds = (umem, [])
write_packets umem fs (suc n) (p ∷ ps) ds =
    let (umem', out, rest) = write_frags umem (frames_of fs p) p ds in
    let (umem'', outs) = write_packets umem' fs n ps rest in (umem'', out ++ outs)

-- The packets whose last fragment is among the descriptors.
abbrev pub ended : List Desc → ℕ
ended [] = 0
ended (d ∷ ds) = (if contd d then 0 else 1) + ended ds

-- `for _, d := range descs { txPool.push(frameBase(d.Addr)) }`
abbrev pub give_back : Socket → List Desc → Socket
give_back s [] = s
give_back s (d ∷ ds) =
    give_back (record s { tx_pool = Pool.push s.tx_pool (frame_base s d.addr) }) ds

-- The end of `sendBatchSG`, with the descriptors of `n` packets.
abbrev queue_packets : Socket → ℕ → List (List ℕ) → List Desc → List Answer → Socket × ℕ
queue_packets s n payloads descs answers =
    let (umem, written) = write_packets s.umem s.options.frame_size n payloads descs in
    let (s', sent) = transmit (record s { umem = umem }) written answers in
    (s', ended (take sent written))

unfoldable pub send_batch_sg : Socket → List (List ℕ) → List Answer → Socket × ℕ × Option SendError
send_batch_sg s payloads answers =
    let s1 = (complete s (num_completed s)).0 in
    let free = num_free_tx_slots s1 in
    let fs = s.options.frame_size in
    let (n_frames, n_pkts) = fit fs free 0 0 payloads in
    let (s2, descs) = alloc s1 n_frames in
    let (fewer, pkts) = fit fs (length descs) 0 0 payloads in
    let short = give_back s2 (drop fewer descs) in
    let all = queue_packets s2 n_pkts payloads descs answers in
    let some_of = queue_packets short pkts payloads (take fewer descs) answers in
    if s.closing
    then (s, 0, some closed)
    else if free == 0
    then (kick_if_needed s1 answers, 0, none)
    else elim (over_long fs 0 payloads) [
      | some i ↦ (s1, 0, some (too_many_segs i))
      | none ↦
          if n_pkts == 0
          then (s1, 0, none)
          else if ltb (length descs) n_frames
          then (if pkts == 0 then (short, 0, none) else (some_of.0, some_of.1, none))
          else (all.0, all.1, none)
    ]

-- ---- SendFunc ----

abbrev uint64 : ℤ → ℕ
uint64 (pos n) = n % u64
uint64 (negsuc n) = u64 - 1 - n % u64

abbrev pub bump : Socket → (Counters → Counters) → Socket
bump s f = record s { stats = f s.stats }

-- The length that `build` returned, if it is in range.
abbrev pub in_range : ℤ → ℕ → Option ℕ
in_range (pos n) len = if leb n len then some n else none
in_range (negsuc n) len = none

-- The calls of `build` on the frames, from packet `i` on: `build` gets the frame's bytes and returns a
-- length with the bytes it leaves there. The memory, and the descriptors or the packet refused.
unfoldable pub build_all :
    (ℕ → List ℕ → ℤ × List ℕ) → (ℕ → ℕ) → ℕ → List Desc → (ℕ → ℕ) × Option (List Desc) × ℕ
build_all build umem i [] = (umem, some [], i)
build_all build umem i (d ∷ ds) =
    let (n, bytes) = build i (get_frame umem d) in
    let umem' = write_bytes umem d.addr (take d.len bytes) in
    let (umem'', rest, j) = build_all build umem' (i + 1) ds in
    elim (in_range n d.len) [
      | none ↦ (umem', none, i)
      | some len ↦ elim rest [
        | none ↦ (umem'', none, j)
        | some ds' ↦ (umem'', some (record d { len = len % u32 } ∷ ds'), j)
      ]
    ]

abbrev pub note_inflight : Socket → Socket
note_inflight s =
    let n = uint64 s.num_transmitted in
    bump s (λ c. if ltb c.inflight_hw n then record c { inflight_hw = n } else c)

-- The start of a call for `count` packets: what the kernel has sent goes back to the pools.
unfoldable pub reclaim : Socket → ℕ → Socket
reclaim s count =
    let s1 = bump s (λ c. record c { send_req = add64 c.send_req count }) in
    note_inflight (complete s1 (num_completed s1)).0

-- The end of a call, with what the calls of `build` made of the descriptors.
abbrev pub submit :
    Socket → List Desc → List Answer → Option (List Desc) → ℕ → Socket × ℕ × Option SendError
submit s descs answers none i = (give_back s descs, 0, some (bad_length i))
submit s descs answers (some ds) i =
    let (s', sub) = transmit s ds answers in
    (bump s' (λ c. record c { submitted = add64 c.submitted sub }), sub, none)

-- The descriptors that are got, with their frames built and queued.
unfoldable pub build_and_submit :
    Socket → ℕ → (ℕ → List ℕ → ℤ × List ℕ) → List Answer → Socket × ℕ × Option SendError
build_and_submit s n build answers =
    let (s1, descs) = alloc s n in
    let s2 = bump s1 (λ c. record c { send_got = add64 c.send_got (length descs) }) in
    let (umem, built, i) = build_all build s2.umem 0 descs in
    submit (record s2 { umem = umem }) descs answers built i

unfoldable pub send_func :
    Socket → ℕ → (ℕ → List ℕ → ℤ × List ℕ) → List Answer → Socket × ℕ × Option SendError
send_func s count build answers =
    let s2 = reclaim s count in
    let free = num_free_tx_slots s2 in
    if s.closing
    then (s, 0, some closed)
    else if free == 0
    then (
      kick_if_needed (bump s2 (λ c. record c { ring_full = add64 c.ring_full 1 })) answers,
      0,
      none,
    )
    else build_and_submit s2 (capped count free) build answers

abbrev longer : ℕ → ℕ → List (List ℕ) → Option ℕ
longer fs i [] = none
longer fs i (p ∷ ps) = let rest = longer fs (i + 1) ps in if ltb fs (length p) then some i else rest

abbrev overwrite : List ℕ → List ℕ → List ℕ
overwrite [] frame = frame
overwrite (b ∷ p) [] = []
overwrite (b ∷ p) (f ∷ frame) = b ∷ overwrite p frame

-- `copy(frame, payloads[i])`
abbrev copy_payload : List (List ℕ) → ℕ → List ℕ → ℤ × List ℕ
copy_payload payloads i frame =
    let p = get_or payloads i [] in (pos (min (length frame) (length p)), overwrite p frame)

unfoldable pub send_batch : Socket → List (List ℕ) → List Answer → Socket × ℕ × Option SendError
unfolding send_batch_sg send_func
send_batch s payloads answers =
    if multi_buffer s
    then send_batch_sg s payloads answers
    else elim (longer s.options.frame_size 0 payloads) [
      | some i ↦ (s, 0, some (too_long i))
      | none ↦ send_func s (length payloads) (copy_payload payloads) answers
    ]
