-- ===== src/Filter/Hosts.antt =====
-- What the builders that match addresses decide, on a little-endian host: MatchSrcIP, MatchDstIP and
-- MatchFlow (filter.go).
use go_afxdp.Prelude.{
  ℕ, ◌+◌, ◌≤◌, ◌≡◌, refl, ◌∙◌, not, Bool, true, ◌&&◌, none, some, List, [], ◌∷◌, ◌++◌,
  if◌then◌else◌, length, Bool-cases, inl, inr, arith, if_true, if_false,
}
use go_afxdp.Ebpf.{Target, entry, ja, Instr, ins, Regs, goto, little, step, exec}
use go_afxdp.Ebpf.Run.{no_entry}
use go_afxdp.Filter.Match.{ether_block}
use go_afxdp.Filter.Cidr.{
  Prefix, masked, cidr_test, ip_ether_type, addresses_end, ip_block, match_ip, flow_block,
  match_flow,
}
use go_afxdp.Filter.Classify.{ready, Decides}
use go_afxdp.Filter.Frame.{Bytes, at_base, base_of, has_ether_type}
use go_afxdp.Filter.Rules.{ether_block-Decides}
use go_afxdp.Filter.Address.{
  IsPrefix, covers, covers-masked, masked-IsPrefix, cidr_test_lem, cidr_test-no_entry,
}

-- IPv4 or IPv6, long enough for both addresses.
abbrev pub has_addresses : Bool → List ℕ → Bool
has_addresses is4 frame =
    has_ether_type (if is4 then 34 else 54) (if is4 then 0x0800 else 0x86DD) frame

abbrev pub source : Bool → ℕ
source is4 = if is4 then 26 else 22

abbrev pub destination : Bool → ℕ
destination is4 = if is4 then 30 else 38

-- The end of a block whose tests all held.
abbrev pub last : Target → List Instr
last hit = ins (ja (entry hit)) ∷ []

pub last-no_entry : (hit : Target) → no_entry (last hit) ≡ true
unfolding no_entry
last-no_entry hit = refl

module _ (frame : List ℕ) (hb : Bytes frame) where
  -- The rest of a block: a test of one address, and what follows it.
  pub on_address :
      (p : Prefix) (off : ℕ) (next : Target) (rest : List Instr) (c : Bool) (hit : Target)
      (s : Regs)
      → IsPrefix p
      → no_entry rest ≡ true
      → base_of frame + off + (if p.is4 then 4 else 16) ≤ length frame
      → ((t : Regs)
          → (s' : Regs) × (exec little frame rest none (at_base frame (base_of frame) t)
              ≡ goto (entry (if c then hit else next)) (ready frame s')))
      → (s' : Regs) × (exec little frame
            (cidr_test off p next ++ rest)
            none
            (at_base frame (base_of frame) s)
          ≡ goto
              (entry (if covers frame p (base_of frame + off) && c then hit else next))
              (ready frame s'))
  on_address p off next rest c hit s v ne hl go =
      let (t, h) = cidr_test_lem frame p v (base_of frame) off next rest s hb ne hl in
      elim (Bool-cases (covers frame p (base_of frame + off))) [
        | inl k ↦ let (u, h') = go t in (u, h ∙ if_true _ _ k ∙ h' ∙ rw k refl)
        | inr k ↦ (t, h ∙ if_false _ _ k ∙ rw k refl)
      ]

  -- MatchSrcIP and MatchDstIP, for a valid prefix on a frame of bytes
  pub match_ip-Decides :
      (p : Prefix) (is_src : Bool)
      → IsPrefix p
      → Decides little frame (match_ip little (some p) is_src) (
          has_addresses p.is4 frame
          && (covers frame p (base_of frame + (if is_src then source p.is4 else destination p.is4))
              && true))
  unfolding ip_block ether_block
  match_ip-Decides p is_src v =
      let off = if is_src then source p.is4 else destination p.is4 in
      ether_block-Decides little frame (addresses_end p.is4) (ip_ether_type p.is4)
        (λ next hit. cidr_test off (masked p) next ++ last hit)
        (covers frame p (base_of frame + off) && true) hb (ground arith) (ground arith)
        (λ n h.
          cidr_test-no_entry frame (masked p) (masked-IsPrefix p v) off n (last h)
            (last-no_entry h))
        (λ hl next hit s. rw (← covers-masked frame p (base_of frame + off) v) (
          on_address (masked p) off next (last hit) true hit s (masked-IsPrefix p v)
            (last-no_entry hit) (ground arith)
            (λ t. (at_base frame (base_of frame) t, unfold exec step in refl))))

  -- For two valid prefixes of one family, on a little-endian host and any frame of bytes: the block of
  -- MatchFlow takes exactly the frames of that family, one VLAN tag skipped, that hold both addresses and
  -- have the source in the one prefix and the destination in the other. It does not fault.
  pub match_flow-Decides :
      (src dst : Prefix)
      → IsPrefix src
      → IsPrefix dst
      → src.is4 ≡ dst.is4
      → Decides little frame (match_flow little (some src) (some dst)) (
          has_addresses src.is4 frame
          && (covers frame src (base_of frame + source src.is4)
              && (covers frame dst (base_of frame + destination src.is4) && true)))
  unfolding flow_block ether_block
  match_flow-Decides src dst v w e =
      let b = base_of frame in
      let from = source src.is4 in
      let to = destination src.is4 in
      let both : (if src.is4 then dst.is4 else not dst.is4) ≡ true = ground arith in
      let inner-no_entry = λ (n h : Target).
        cidr_test-no_entry frame (masked dst) (masked-IsPrefix dst w) to n (last h)
          (last-no_entry h) in
      rw both (
        ether_block-Decides little frame (addresses_end src.is4) (ip_ether_type src.is4)
          (λ next hit.
            cidr_test from (masked src) next ++ (cidr_test to (masked dst) next ++ last hit))
          (covers frame src (b + from) && (covers frame dst (b + to) && true)) hb (ground arith)
          (ground arith)
          (λ n h.
            cidr_test-no_entry frame (masked src) (masked-IsPrefix src v) from n
              (cidr_test to (masked dst) n ++ last h) (inner-no_entry n h))
          (λ hl next hit s.
            rw (← covers-masked frame src (b + from) v, ← covers-masked frame dst (b + to) w)
              (on_address (masked src) from next (cidr_test to (masked dst) next ++ last hit)
                (covers frame (masked dst) (b + to) && true) hit s (masked-IsPrefix src v)
                (inner-no_entry next hit) (ground arith)
                (λ t.
                  on_address (masked dst) to next (last hit) true hit t (masked-IsPrefix dst w)
                    (last-no_entry hit) (ground arith)
                    (λ u. (at_base frame b u, unfold exec step in refl))))))
