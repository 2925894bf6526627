-- ===== src/Filter/Local.antt =====
-- What the rules on local ports and IPv4 pings decide: matchLocalPort, on a little-endian host, and
-- MatchICMPv4Echo (filter.go).
use go_afxdp.Prelude.{
  ℕ, ◌+◌, ◌≤◌, ◌<◌, ◌≡◌, refl, ◌∙◌, Bool, true, ◌&&◌, Option, none, some, List, ◌∷◌, ◌++◌,
  if◌then◌else◌, length, ltb, ◌==◌, Bool-cases, inl, inr, arith, if_true, if_false,
}
use go_afxdp.Ebpf.{
  r3, r9, Target, entry, byte, half, load_mem, jne_imm, Instr, ins, Regs, goto, Endian, little,
  octet, step, exec,
}
use go_afxdp.Ebpf.Run.{no_entry}
use go_afxdp.Filter.{netshort}
use go_afxdp.Filter.Match.{ether_block, icmpv4_echo_block, match_icmpv4_echo, rule}
use go_afxdp.Filter.Cidr.{
  Prefix, ip_ether_type, addresses_end, test_local, port_off, proto_off, local_port_block,
  match_local_port,
}
use go_afxdp.Filter.Classify.{ready, Decides}
use go_afxdp.Filter.Frame.{Bytes, at_base, base_of, be16, has_ether_type, half_test}
use go_afxdp.Filter.Rules.{ether_block-Decides, byte_test, two_bytes}
use go_afxdp.Filter.Wanted.{plain_ipv4}
use go_afxdp.Filter.Guard.{guarded, guarded_lem, guarded-no_entry}
use go_afxdp.Filter.Address.{IsPrefix, covers, cidr_test-no_entry}
use go_afxdp.Filter.Hosts.{destination, on_address, last, last-no_entry}

-- The offset of the port, and of the protocol.
abbrev pub port_at : Bool → Bool → ℕ
port_at is4 src_port = if is4 then (if src_port then 34 else 36) else (if src_port then 54 else 56)

abbrev pub proto_at : Bool → ℕ
proto_at is4 = if is4 then 23 else 20

-- The address at `off` is local, if there is a prefix to ask.
abbrev pub local_to : List ℕ → Option Prefix → ℕ → Bool
local_to frame none off = true
local_to frame (some p) off = covers frame p off && true

abbrev pub wants_local : List ℕ → ℕ → Bool → ℕ → Option Prefix → Bool → ℕ → Bool
wants_local frame proto src_port port local is4 b =
    (if is4 then plain_ipv4 frame b else true)
    && ((octet frame (b + proto_at is4) == proto)
        && ((be16 frame (b + port_at is4 src_port) == port)
            && local_to frame local (b + destination is4)))

-- The packets of a protocol, with this source or destination port, of one family, to a local address.
abbrev pub local_wanted : List ℕ → ℕ → Bool → ℕ → Option Prefix → Bool → Bool
local_wanted frame proto src_port port local is4 =
    has_ether_type (port_at is4 src_port + 2) (if is4 then 0x0800 else 0x86DD) frame
    && wants_local frame proto src_port port local is4 (base_of frame)

-- A prefix, where one is given, is valid and of the family.
abbrev pub OfFamily : Option Prefix → Bool → Type 0
OfFamily none is4 = Unit
OfFamily (some p) is4 = IsPrefix p × (p.is4 ≡ is4)

module _ (frame : List ℕ) (hb : Bytes frame) where
  test_local-no_entry :
      (local : Option Prefix) (is4 : Bool) (next hit : Target)
      → OfFamily local is4
      → no_entry (test_local little is4 local next ++ last hit) ≡ true
  unfolding no_entry
  test_local-no_entry none is4 next hit v = last-no_entry hit
  test_local-no_entry (some p) is4 next hit (v, e) =
      cidr_test-no_entry frame p v (destination is4) next (last hit) (last-no_entry hit)

  test_local_lem :
      (local : Option Prefix) (is4 : Bool) (next hit : Target) (s : Regs)
      → OfFamily local is4
      → base_of frame + destination is4 + (if is4 then 4 else 16) ≤ length frame
      → (s' : Regs) × (exec little frame
            (test_local little is4 local next ++ last hit)
            none
            (at_base frame (base_of frame) s)
          ≡ goto
              (entry (if local_to frame local (base_of frame + destination is4) then hit else next))
              (ready frame s'))
  unfolding exec step no_entry
  test_local_lem none is4 next hit s v hl = (at_base frame (base_of frame) s, refl)
  test_local_lem (some p) is4 next hit s (v, e) hl =
      on_address frame hb p (destination is4) next (last hit) true hit s v (last-no_entry hit)
        (rw e hl) (λ t. (at_base frame (base_of frame) t, refl))

  abbrev port_code : ℕ → Bool → ℕ → Option Prefix → Bool → Target → Target → List Instr
  port_code proto src_port port local is4 next hit =
      ins (load_mem r3 r9 (port_off little is4 src_port) half)
      ∷ ins (jne_imm r3 (netshort little port) (entry next))
      ∷ (test_local little is4 local next ++ last hit)

  abbrev proto_code : ℕ → Bool → ℕ → Option Prefix → Bool → Target → Target → List Instr
  proto_code proto src_port port local is4 next hit =
      ins (load_mem r3 r9 (proto_off little is4) byte)
      ∷ ins (jne_imm r3 proto (entry next))
      ∷ port_code proto src_port port local is4 next hit

  port_code_lem :
      (proto : ℕ) (src_port : Bool) (port : ℕ) (local : Option Prefix) (is4 : Bool)
      (next hit : Target) (s : Regs)
      → OfFamily local is4
      → port < 65536
      → base_of frame + (port_at is4 src_port + 2) ≤ length frame
      → base_of frame + (if is4 then 34 else 54) ≤ length frame
      → (s' : Regs) × (exec little frame
            (port_code proto src_port port local is4 next hit)
            none
            (at_base frame (base_of frame) s)
          ≡ goto
              (entry (
                if (be16 frame (base_of frame + port_at is4 src_port) == port)
                  && local_to frame local (base_of frame + destination is4)
                then hit
                else next))
              (ready frame s'))
  port_code_lem proto src_port port local is4 next hit s v hp hl hl' =
      let b = base_of frame in
      let (t, h) =
        half_test little frame b (port_at is4 src_port) port next
          (test_local little is4 local next ++ last hit) s
          (test_local-no_entry local is4 next hit v) hb hp (omega arith) in
      let (u, h') = test_local_lem local is4 next hit t v (ground arith) in
      elim (Bool-cases (be16 frame (b + port_at is4 src_port) == port)) [
        | inl k ↦ (u, h ∙ if_true _ _ k ∙ h' ∙ rw k refl)
        | inr k ↦ (at_base frame b t, h ∙ if_false _ _ k ∙ rw k refl)
      ]

  proto_code_lem :
      (proto : ℕ) (src_port : Bool) (port : ℕ) (local : Option Prefix) (is4 : Bool)
      (next hit : Target) (s : Regs)
      → OfFamily local is4
      → port < 65536
      → base_of frame + (port_at is4 src_port + 2) ≤ length frame
      → base_of frame + (if is4 then 34 else 54) ≤ length frame
      → (s' : Regs) × (exec little frame
            (proto_code proto src_port port local is4 next hit)
            none
            (at_base frame (base_of frame) s)
          ≡ goto
              (entry (
                if (octet frame (base_of frame + proto_at is4) == proto)
                  && ((be16 frame (base_of frame + port_at is4 src_port) == port)
                      && local_to frame local (base_of frame + destination is4))
                then hit
                else next))
              (ready frame s'))
  proto_code_lem proto src_port port local is4 next hit s v hp hl hl' =
      let b = base_of frame in
      let (t, h) =
        byte_test little frame b (proto_at is4) proto next
          (port_code proto src_port port local is4 next hit) s
          (unfold no_entry in test_local-no_entry local is4 next hit v) (ground arith) in
      let (u, h') = port_code_lem proto src_port port local is4 next hit t v hp hl hl' in
      elim (Bool-cases (octet frame (b + proto_at is4) == proto)) [
        | inl k ↦ (u, h ∙ if_true _ _ k ∙ h' ∙ rw k refl)
        | inr k ↦ (at_base frame b t, h ∙ if_false _ _ k ∙ rw k refl)
      ]

  abbrev local_code : ℕ → Bool → ℕ → Option Prefix → Bool → Target → Target → List Instr
  local_code proto src_port port local is4 next hit =
      guarded little frame is4 next (proto_code proto src_port port local is4 next hit)

  local_code_lem :
      (proto : ℕ) (src_port : Bool) (port : ℕ) (local : Option Prefix) (is4 : Bool)
      (next hit : Target) (s : Regs)
      → OfFamily local is4
      → port < 65536
      → base_of frame + (port_at is4 src_port + 2) ≤ length frame
      → (s' : Regs) × (exec little frame
            (local_code proto src_port port local is4 next hit)
            none
            (at_base frame (base_of frame) s)
          ≡ goto
              (entry (
                if wants_local frame proto src_port port local is4 (base_of frame)
                then hit
                else next))
              (ready frame s'))
  local_code_lem proto src_port port local is4 next hit s v hp hl =
      let b = base_of frame in
      let (t, h) =
        guarded_lem little frame is4 b next (proto_code proto src_port port local is4 next hit) s
          (unfold no_entry in test_local-no_entry local is4 next hit v) hb (ground arith) in
      let (u, h') =
        proto_code_lem proto src_port port local is4 next hit t v hp hl (ground arith) in
      elim (Bool-cases (if is4 then plain_ipv4 frame b else true)) [
        | inl k ↦ (u, h ∙ if_true _ _ k ∙ h' ∙ rw k refl)
        | inr k ↦ (t, h ∙ if_false _ _ k ∙ rw k refl)
      ]

  local_port_block-Decides :
      (proto : ℕ) (src_port : Bool) (port : ℕ) (local : Option Prefix) (is4 : Bool)
      → OfFamily local is4
      → port < 65536
      → Decides little frame
          (rule (local_port_block little proto src_port port local is4))
          (local_wanted frame proto src_port port local is4)
  unfolding local_port_block ether_block
  local_port_block-Decides proto src_port port local is4 v hp =
      let end : (if ltb (addresses_end is4) (port_off little is4 src_port + 2)
            then port_off little is4 src_port + 2
            else addresses_end is4)
          ≡ port_at is4 src_port + 2 =
        ground arith in
      rw end (
        ether_block-Decides little frame (port_at is4 src_port + 2) (ip_ether_type is4)
          (local_code proto src_port port local is4)
          (wants_local frame proto src_port port local is4 (base_of frame)) hb (ground arith)
          (ground arith)
          (λ n h.
            guarded-no_entry little frame is4 n (proto_code proto src_port port local is4 n h)
              (unfold no_entry in test_local-no_entry local is4 n h v))
          (λ hl next hit s. local_code_lem proto src_port port local is4 next hit s v hp hl))

  -- For a 16-bit port and, where one is given, a valid prefix of the family, on a little-endian host and
  -- any frame of bytes: the block of matchLocalPort takes exactly the frames of the family, protocol and
  -- port, IPv4 only without options or fragments, whose destination is in the prefix. It does not fault.
  pub match_local_port-Decides :
      (proto : ℕ) (src_port : Bool) (port : ℕ) (local : Option Prefix) (is4 : Bool)
      → OfFamily local is4
      → port < 65536
      → Decides little frame
          (match_local_port little proto src_port port local is4)
          (local_wanted frame proto src_port port local is4)
  match_local_port-Decides proto src_port port none is4 v hp =
      local_port_block-Decides proto src_port port none is4 v hp
  match_local_port-Decides proto src_port port (some p) is4 (v, e) hp =
      rw (← e) (local_port_block-Decides proto src_port port (some p) p.is4 (v, refl) hp)

-- MatchICMPv4Echo, on any frame of bytes and in either byte order
pub match_icmpv4_echo-Decides :
    (host : Endian) (frame : List ℕ)
    → Bytes frame
    → Decides host frame (match_icmpv4_echo host) (
        has_ether_type 35 0x0800 frame
        && (plain_ipv4 frame (base_of frame)
            && ((octet frame (base_of frame + 23) == 1)
                && (octet frame (base_of frame + 34) == 8))))
unfolding icmpv4_echo_block
match_icmpv4_echo-Decides host frame hb =
    let b = base_of frame in
    let tests = λ (n h : Target).
      ins (load_mem r3 r9 23 byte)
      ∷ ins (jne_imm r3 1 (entry n))
      ∷ ins (load_mem r3 r9 34 byte)
      ∷ ins (jne_imm r3 8 (entry n))
      ∷ last h in
    let two = (octet frame (b + 23) == 1) && (octet frame (b + 34) == 8) in
    ether_block-Decides host frame 35 0x0800 (λ n h. guarded host frame true n (tests n h))
      (plain_ipv4 frame b && two) hb (omega arith) (omega arith)
      (λ n h. guarded-no_entry host frame true n (tests n h) (unfold no_entry in refl))
      (λ hl next hit s.
        let (t, h) =
          guarded_lem host frame true b next (tests next hit) s (unfold no_entry in refl) hb
            (omega arith) in
        let (u, h') = two_bytes host frame 23 1 34 8 next hit t (omega arith) (omega arith) in
        elim (Bool-cases (plain_ipv4 frame b)) [
          | inl k ↦ (u, h ∙ if_true _ _ k ∙ h' ∙ rw k refl)
          | inr k ↦ (t, h ∙ if_false _ _ k ∙ rw k refl)
        ])
