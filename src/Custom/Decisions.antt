-- ===== src/Custom/Decisions.antt =====
-- What the hand-written matches of examples/customfilter decide.
use go_afxdp.Prelude.{
  ℕ, ◌+◌, ◌*◌, ◌/◌, ◌%◌, ◌^◌, ◌<◌, ◌≡◌, refl, ap, ap₂, ◌∙◌, Bool, true, ◌&&◌, List, ◌∷◌, length,
  leb, ◌==◌, Bool-cases, inl, inr, arith, if_true, if_false, bit_and,
}
use go_afxdp.Prelude.Bits.{bit_and-mask, bit_and_split, bit_and-zero}
use go_afxdp.Ebpf.{
  r3, r9, Target, entry, byte, half, word, load_mem, and_imm, jeq_imm, jeq_imm32, jne_imm, ins, num,
  Endian, little, big, octet, load, step, exec,
}
use go_afxdp.Ebpf.Run.{no_entry}
use go_afxdp.Filter.{netshort}
use go_afxdp.Filter.Emit.{bounds_from, l3_base}
use go_afxdp.Filter.Program.{finish_block}
use go_afxdp.Filter.Classify.{Decides}
use go_afxdp.Filter.Frame.{Bytes, octet-lt, at_base, base_of, be16, has_ether_type, half_test}
use go_afxdp.Custom.{match_udp_src, match_vxlan, vni_le, match_tcp_flags, match_gre_key, key_le}
use go_afxdp.Custom.Shape.{falls_to, last_test, last_test32, last_half, ipv4-Decides}

-- A 24-bit field in network order.
abbrev pub be24 : List ℕ → ℕ → ℕ
be24 frame off = octet frame off * 65536 + octet frame (off + 1) * 256 + octet frame (off + 2)

abbrev pub be32 : List ℕ → ℕ → ℕ
be32 frame off =
    octet frame off * 16777216
    + octet frame (off + 1) * 65536
    + octet frame (off + 2) * 256
    + octet frame (off + 3)

vni_eq :
    (a b c d vni : ℕ)
    → a < 256
    → b < 256
    → c < 256
    → vni < 2 ^ 24
    → (bit_and (a + 256 * b + 65536 * c + 16777216 * d) 0xffffff == vni_le little vni)
      ≡ (a * 65536 + b * 256 + c == vni)
vni_eq a b c d vni ha hb hc hv =
    ap (λ t. t == vni_le little vni) (bit_and-mask 24 (a + 256 * b + 65536 * c + 16777216 * d))
    ∙ ground arith

key_eq :
    (host : Endian) (frame : List ℕ) (off key : ℕ)
    → Bytes frame
    → key < 2 ^ 32
    → (load host frame off word % 2 ^ 32 == key_le host key) ≡ (be32 frame off == key)
unfolding load
key_eq little frame off key hb hk = ground (
  arith,
  octet-lt frame off hb,
  octet-lt frame (off + 1) hb,
  octet-lt frame (off + 2) hb,
  octet-lt frame (off + 3) hb,
)
key_eq big frame off key hb hk = ground (
  arith,
  octet-lt frame off hb,
  octet-lt frame (off + 1) hb,
  octet-lt frame (off + 2) hb,
  octet-lt frame (off + 3) hb,
)

-- The key is present and the checksum is not: bit 13 is set and bit 15 is clear.
abbrev pub key_at_38 : List ℕ → ℕ → Bool
key_at_38 frame off = (be16 frame off / 8192 % 2 == 1) && (be16 frame off / 32768 % 2 == 0)

flag_bits : (a : ℕ) → a < 256 → bit_and a 160 ≡ a / 128 % 2 * 128 + a / 32 % 2 * 32
flag_bits a h = omega (
  arith,
  bit_and_split 7 a 160,
  bit_and-mask 1 (a / 128),
  bit_and_split 5 (a % 128) 32,
  bit_and-mask 1 (a % 128 / 32),
  bit_and-zero (a % 128 % 32),
)

low_flags : (a b : ℕ) → a < 256 → b < 256 → bit_and (a + 256 * b) 160 ≡ bit_and a 160
low_flags a b ha hb =
    let lo : (a + 256 * b) % 256 ≡ a = omega arith in
    bit_and_split 8 (a + 256 * b) 160
    ∙ ap₂ (λ p q. p * 256 + q) (bit_and-zero ((a + 256 * b) / 256)) (ap (λ t. bit_and t 160) lo)
    ∙ omega arith

high_flags : (a b : ℕ) → a < 256 → b < 256 → bit_and (a * 256 + b) 0xa000 ≡ bit_and a 160 * 256
high_flags a b ha hb =
    let hi : (a * 256 + b) / 256 ≡ a = omega arith in
    bit_and_split 8 (a * 256 + b) 0xa000
    ∙ ap₂ (λ p q. p * 256 + q) (ap (λ t. bit_and t 160) hi) (bit_and-zero ((a * 256 + b) % 256))
    ∙ omega arith

flags_eq :
    (host : Endian) (frame : List ℕ) (off : ℕ)
    → Bytes frame
    → (bit_and (load host frame off half) (netshort host 0xa000) == netshort host 0x2000)
      ≡ key_at_38 frame off
unfolding load netshort
flags_eq little frame off hb =
    let a = octet frame off in
    let b = octet frame (off + 1) in
    let ha = octet-lt frame off hb in
    let hb' = octet-lt frame (off + 1) hb in
    ap (λ t. t == 32) (low_flags a b ha hb' ∙ flag_bits a ha) ∙ ground arith
flags_eq big frame off hb =
    let a = octet frame off in
    let b = octet frame (off + 1) in
    let ha = octet-lt frame off hb in
    let hb' = octet-lt frame (off + 1) hb in
    ap (λ t. t == 0x2000) (high_flags a b ha hb' ∙ ap (λ t. t * 256) (flag_bits a ha))
    ∙ ground arith

module _ (host : Endian) (frame : List ℕ) (hb : Bytes frame) where
  -- examples/customfilter/udpsrcport
  pub match_udp_src-Decides :
      (port : ℕ)
      → port < 65536
      → Decides host frame (match_udp_src host port) (
          has_ether_type 36 0x0800 frame
          && ((octet frame (base_of frame + 23) == 17)
              && (be16 frame (base_of frame + 34) == port)))
  unfolding match_udp_src finish_block l3_base bounds_from
  match_udp_src-Decides port hp =
      ipv4-Decides host frame (match_udp_src host port) 36 17
        (λ next hit.
          ins (load_mem r3 r9 34 half)
          ∷ ins (jeq_imm r3 (netshort host port) (entry hit))
          ∷ falls_to next)
        (be16 frame (base_of frame + 34) == port) refl hb (omega arith)
        (λ n h. unfold no_entry in refl)
        (λ hl next hit s.
          last_half host frame (base_of frame) 34 port next hit s hb hp (omega arith))

  -- examples/customfilter/tcpsyn
  pub match_tcp_flags-Decides :
      (mask value : ℕ)
      → Decides host frame (match_tcp_flags host mask value) (
          has_ether_type 48 0x0800 frame
          && ((octet frame (base_of frame + 23) == 6)
              && (bit_and (octet frame (base_of frame + 47)) mask == value)))
  unfolding match_tcp_flags finish_block l3_base bounds_from exec step load
  match_tcp_flags-Decides mask value =
      ipv4-Decides host frame (match_tcp_flags host mask value) 48 6
        (λ next hit.
          ins (load_mem r3 r9 47 byte)
          ∷ ins (and_imm r3 mask)
          ∷ ins (jeq_imm r3 value (entry hit))
          ∷ falls_to next)
        (bit_and (octet frame (base_of frame + 47)) mask == value) refl hb (omega arith)
        (λ n h. unfold no_entry in refl)
        (λ hl next hit s.
          let v = bit_and (octet frame (base_of frame + 47)) mask in
          let inside : leb (base_of frame + 47 + 1) (length frame) ≡ true = ground arith in
          (
            record (at_base frame (base_of frame) s) { v3 = num v },
            rw (exec, inside)
                (last_test host frame value v next hit (at_base frame (base_of frame) s)),
          ))

  -- For a 32-bit key, on a host of either byte order and any frame of bytes: the block of matchGREKey
  -- takes exactly the IPv4 GRE frames, one VLAN tag skipped, whose flags have K and not C, and whose bytes
  -- 38 to 41 are the key in network order. It does not fault.
  pub match_gre_key-Decides :
      (key : ℕ)
      → key < 2 ^ 32
      → Decides host frame (match_gre_key host key) (
          has_ether_type 42 0x0800 frame
          && ((octet frame (base_of frame + 23) == 47)
              && (key_at_38 frame (base_of frame + 34)
                  && (be32 frame (base_of frame + 38) == key))))
  unfolding match_gre_key finish_block l3_base bounds_from exec step
  match_gre_key-Decides key hk =
      let b = base_of frame in
      ipv4-Decides host frame (match_gre_key host key) 42 47
        (λ next hit.
          ins (load_mem r3 r9 34 half)
          ∷ ins (and_imm r3 (netshort host 0xa000))
          ∷ ins (jne_imm r3 (netshort host 0x2000) (entry next))
          ∷ ins (load_mem r3 r9 38 word)
          ∷ ins (jeq_imm32 r3 (key_le host key) (entry hit))
          ∷ falls_to next)
        (key_at_38 frame (b + 34) && (be32 frame (b + 38) == key)) refl hb (omega arith)
        (λ n h. unfold no_entry in refl)
        (λ hl next hit s.
          let flags = bit_and (load host frame (b + 34) half) (netshort host 0xa000) in
          let v = load host frame (b + 38) word in
          let inside : leb (b + 34 + 2) (length frame) ≡ true = ground arith in
          let inside' : leb (b + 38 + 4) (length frame) ≡ true = ground arith in
          elim (Bool-cases (key_at_38 frame (b + 34))) [
            | inr k ↦ (
              record (at_base frame b s) { v3 = num flags },
              rw (exec, inside, flags_eq host frame (b + 34) hb, k) refl,
            )
            | inl k ↦ (
              record (at_base frame b s) { v3 = num v },
              rw
                  (
                    exec,
                    inside,
                    flags_eq host frame (b + 34) hb,
                    k,
                    exec,
                    inside',
                    ← key_eq host frame (b + 38) key hb hk,
                  )
                  (last_test32 host frame (key_le host key) v next hit (at_base frame b s)),
            )
          ])

-- For a 24-bit VNI, on a little-endian host and any frame of bytes: the block of matchVXLAN takes exactly
-- the IPv4 UDP frames, one VLAN tag skipped, with the port 4789 at offset 36 and the VNI in network order
-- at offset 46. It does not fault.
pub match_vxlan-Decides :
    (frame : List ℕ) (vni : ℕ)
    → Bytes frame
    → vni < 2 ^ 24
    → Decides little frame (match_vxlan little vni) (
        has_ether_type 50 0x0800 frame
        && ((octet frame (base_of frame + 23) == 17)
            && ((be16 frame (base_of frame + 36) == 4789)
                && (be24 frame (base_of frame + 46) == vni))))
unfolding match_vxlan finish_block l3_base bounds_from exec step load
match_vxlan-Decides frame vni hb hv =
    let b = base_of frame in
    let word_test = λ (next hit : Target).
      ins (load_mem r3 r9 46 word)
      ∷ ins (and_imm r3 0xffffff)
      ∷ ins (jeq_imm r3 (vni_le little vni) (entry hit))
      ∷ falls_to next in
    ipv4-Decides little frame (match_vxlan little vni) 50 17
      (λ next hit.
        ins (load_mem r3 r9 36 half)
        ∷ ins (jne_imm r3 (netshort little 4789) (entry next))
        ∷ word_test next hit)
      ((be16 frame (b + 36) == 4789) && (be24 frame (b + 46) == vni)) refl hb (omega arith)
      (λ n h. unfold no_entry in refl)
      (λ hl next hit s.
        let (t, h) =
          half_test little frame b 36 4789 next (word_test next hit) s (unfold no_entry in refl) hb
            (omega arith) (omega arith) in
        let v = bit_and (load little frame (b + 46) word) 0xffffff in
        let inside : leb (b + 46 + 4) (length frame) ≡ true = ground arith in
        let test =
          vni_eq (octet frame (b + 46)) (octet frame (b + 46 + 1)) (octet frame (b + 46 + 2))
            (octet frame (b + 46 + 3)) vni (octet-lt frame (b + 46) hb)
            (octet-lt frame (b + 46 + 1) hb) (octet-lt frame (b + 46 + 2) hb) hv in
        elim (Bool-cases (be16 frame (b + 36) == 4789)) [
          | inr k ↦ (at_base frame b t, h ∙ if_false _ _ k ∙ rw k refl)
          | inl k ↦ (
            record (at_base frame b t) { v3 = num v },
            h
                ∙ if_true _ _ k
                ∙ rw (k, exec, inside, ← test)
                    (last_test little frame (vni_le little vni) v next hit (at_base frame b t)),
          )
        ])
