-- ===== src/Custom/Start.antt =====
-- Hand-written matches that read from the start of the frame, VLAN tag and all: examples/customfilter/vlan
-- and examples/customfilter/dstmac.
use go_afxdp.Prelude.{
  ℕ, ◌+◌, ◌*◌, ◌/◌, ◌%◌, ◌^◌, ◌≤◌, ◌<◌, ◌≡◌, refl, ap, ap₂, ◌∙◌, Bool, true, false, ◌&&◌, none,
  some, List, ◌∷◌, ◌++◌, if◌then◌else◌, length, ltb, leb, ◌==◌, Bool-cases, inl, inr, arith,
  if_true, if_false, bit_and,
}
use go_afxdp.Prelude.Bits.{bit_and-mask, bit_and_split}
use go_afxdp.Ebpf.{
  r3, r7, Target, entry, half, word, load_mem, and_imm, jeq_imm, jne_imm, jne_imm32, Instr, ins,
  num, pkt, Regs, goto, Endian, little, big, octet, load, step, exec,
}
use go_afxdp.Ebpf.Run.{no_entry, over, target_eq_refl}
use go_afxdp.Filter.{netshort}
use go_afxdp.Filter.Emit.{with_entry, bounds_from}
use go_afxdp.Filter.Match.{Match, built}
use go_afxdp.Filter.Program.{finish_block}
use go_afxdp.Filter.Classify.{ready, Decides}
use go_afxdp.Filter.Frame.{Bytes, octet-lt, be16, half-eq}
use go_afxdp.Filter.Rules.{skips_entry}
use go_afxdp.Custom.{match_vlan, match_dst_mac, mac_lo, mac_hi}
use go_afxdp.Custom.Shape.{falls_to, last_test}

module _ (host : Endian) (frame : List ℕ) where
  from_start :
      (n : ℕ) (next : Target) (rest : List Instr) (s : Regs)
      → no_entry rest ≡ true
      → (s' : Regs) × (exec host frame (bounds_from r7 n next ++ rest) none (ready frame s) ≡ (
          if leb n (length frame)
          then exec host frame rest none (ready frame s')
          else goto (entry next) (ready frame s')))
  unfolding exec step bounds_from
  from_start n next rest s ne = (
    t,
    elim (Bool-cases (ltb (length frame) n)) [
      | inl h ↦
          let short : leb n (length frame) ≡ false = ground arith in
          rw (exec, at_start, h, short) (over host frame rest next (ready frame t) ne)
      | inr h ↦
          let long : leb n (length frame) ≡ true = ground arith in rw (exec, at_start, h, long) refl
    ],
  )
    where
      t : Regs
      t = record s { v2 = pkt n }

      at_start : 0 + n ≡ n
      at_start = omega arith

  -- A block on the first `n` bytes, whose rest decides `c` on the frames that have them.
  start-Decides :
      (m : Match) (n : ℕ) (rest : Target → Target → List Instr) (c : Bool)
      → m.build ≡ some (λ e next hit. built (with_entry e (bounds_from r7 n next ++ rest next hit)))
      → ((next hit : Target) → no_entry (rest next hit) ≡ true)
      → (n ≤ length frame
          → (next hit : Target) (s : Regs)
          → (s' : Regs) × (exec host frame (rest next hit) none (ready frame s)
              ≡ goto (entry (if c then hit else next)) (ready frame s')))
      → Decides host frame m (leb n (length frame) && c)
  start-Decides m n rest c hm ne go = record {
    block = λ e next hit. with_entry e (bounds_from r7 n next ++ rest next hit);
    builds = hm;
    enters =
        λ e next hit s. unfold exec with_entry bounds_from in (rw (exec, target_eq_refl e) refl);
    skips = λ e next hit u s.
        skips_entry host frame e u (bounds_from r7 n next ++ rest next hit) s
          (unfold no_entry bounds_from in ne next hit);
    runs = λ e next hit s.
        let (s1, h1) = from_start n next (rest next hit) s (ne next hit) in
        let same : exec host frame (with_entry e (bounds_from r7 n next ++ rest next hit)) none
              (ready frame s)
            ≡ exec host frame (bounds_from r7 n next ++ rest next hit) none (ready frame s) =
          unfold exec step with_entry bounds_from in refl in
        elim (Bool-cases (leb n (length frame))) [
          | inl k ↦
              let (s2, h2) = go (ground arith) next hit s1 in
              (s2, same ∙ h1 ∙ if_true _ _ k ∙ h2 ∙ rw k refl)
          | inr k ↦ (s1, same ∙ h1 ∙ if_false _ _ k ∙ rw k refl)
        ];
  }

tag_bits :
    (host : Endian) (frame : List ℕ) (off vid : ℕ)
    → Bytes frame
    → vid < 4096
    → (bit_and (load host frame off half) (netshort host 0x0fff) == netshort host vid)
      ≡ (be16 frame off % 4096 == vid)
unfolding load netshort
tag_bits big frame off vid hb hv = ap (λ t. t == vid) (bit_and-mask 12 (be16 frame off))
tag_bits little frame off vid hb hv =
    let a = octet frame off in
    let b = octet frame (off + 1) in
    let ha = octet-lt frame off hb in
    let hb' = octet-lt frame (off + 1) hb in
    let hi : (a + 256 * b) / 256 ≡ b = omega arith in
    let lo : (a + 256 * b) % 256 ≡ a = omega arith in
    ap (λ t. t == vid / 256 + 256 * (vid % 256))
      (bit_and_split 8 (a + 256 * b) 65295
        ∙ ap₂ (λ p q. p * 256 + q) (ap (λ t. bit_and t 255) hi ∙ bit_and-mask 8 b)
            (ap (λ t. bit_and t 15) lo ∙ bit_and-mask 4 a))
    ∙ ground arith

-- examples/customfilter/vlan
pub match_vlan-Decides :
    (host : Endian) (frame : List ℕ) (vid : ℕ)
    → Bytes frame
    → vid < 4096
    → Decides host frame
        (match_vlan host vid)
        (leb 16 (length frame) && ((be16 frame 12 == 0x8100) && (be16 frame 14 % 4096 == vid)))
unfolding match_vlan finish_block bounds_from exec step
match_vlan-Decides host frame vid hb hv =
    start-Decides host frame (match_vlan host vid) 16
      (λ next hit.
        ins (load_mem r3 r7 12 half)
        ∷ ins (jne_imm r3 (netshort host 0x8100) (entry next))
        ∷ ins (load_mem r3 r7 14 half)
        ∷ ins (and_imm r3 (netshort host 0x0fff))
        ∷ ins (jeq_imm r3 (netshort host vid) (entry hit))
        ∷ falls_to next)
      ((be16 frame 12 == 0x8100) && (be16 frame 14 % 4096 == vid)) refl
      (λ n h. unfold no_entry in refl)
      (λ hl next hit s.
        let tag = load host frame 12 half in
        let v = bit_and (load host frame 14 half) (netshort host 0x0fff) in
        let first : leb 14 (length frame) ≡ true = ground arith in
        let second : leb 16 (length frame) ≡ true = ground arith in
        elim (Bool-cases (be16 frame 12 == 0x8100)) [
          | inr k ↦ (
            record s { v3 = num tag },
            rw (exec, first, half-eq host frame 12 0x8100 hb (omega arith), k) refl,
          )
          | inl k ↦ (
            record s { v3 = num v },
            rw
                (
                  exec,
                  first,
                  half-eq host frame 12 0x8100 hb (omega arith),
                  k,
                  exec,
                  second,
                  ← tag_bits host frame 14 vid hb hv,
                )
                (last_test host frame (netshort host vid) v next hit (ready frame s)),
          )
        ])

-- The destination address of a frame, and what ParseMAC returns.
abbrev pub addressed_to : List ℕ → List ℕ → Bool
addressed_to frame mac =
    (octet frame 0 == octet mac 0)
    && ((octet frame 1 == octet mac 1)
        && ((octet frame 2 == octet mac 2)
            && ((octet frame 3 == octet mac 3)
                && ((octet frame 4 == octet mac 4) && (octet frame 5 == octet mac 5)))))

mac_lo_eq :
    (a b c d k l m n : ℕ)
    → a < 256
    → b < 256
    → c < 256
    → d < 256
    → k < 256
    → l < 256
    → m < 256
    → n < 256
    → ((a + 256 * b + 65536 * c + 16777216 * d) % 2 ^ 32 == k + 256 * l + 65536 * m + 16777216 * n)
      ≡ ((a == k) && ((b == l) && ((c == m) && (d == n))))
mac_lo_eq a b c d k l m n ha hb hc hd hk hl hm hn = ground arith

mac_hi_eq :
    (a b k l : ℕ)
    → a < 256
    → b < 256
    → k < 256
    → l < 256
    → (a + 256 * b == k + 256 * l) ≡ ((a == k) && (b == l))
mac_hi_eq a b k l ha hb hk hl = ground arith

and_assoc6 :
    (p q r s t u : Bool)
    → ((p && (q && (r && s))) && (t && u)) ≡ (p && (q && (r && (s && (t && u)))))
and_assoc6 true true true true t u = refl
and_assoc6 true true true false t u = refl
and_assoc6 true true false s t u = refl
and_assoc6 true false r s t u = refl
and_assoc6 false q r s t u = refl

-- examples/customfilter/dstmac
pub match_dst_mac-Decides :
    (frame mac : List ℕ)
    → Bytes frame
    → Bytes mac
    → length mac ≡ 6
    → Decides little frame
        (match_dst_mac (some mac))
        (leb 6 (length frame) && addressed_to frame mac)
unfolding match_dst_mac finish_block bounds_from exec step load
match_dst_mac-Decides frame mac hb hm hl =
    let is6 : (length mac == 6) ≡ true = ground arith in
    let f = λ (i : ℕ). octet-lt frame i hb in
    let g = λ (i : ℕ). octet-lt mac i hm in
    let lo = load little frame 0 word in
    let hi = load little frame 4 half in
    let test_lo =
      mac_lo_eq (octet frame 0) (octet frame 1) (octet frame 2) (octet frame 3) (octet mac 0)
        (octet mac 1) (octet mac 2) (octet mac 3) (f 0) (f 1) (f 2) (f 3) (g 0) (g 1) (g 2) (g 3) in
    let test_hi =
      mac_hi_eq (octet frame 4) (octet frame 5) (octet mac 4) (octet mac 5) (f 4) (f 5) (g 4)
        (g 5) in
    let both =
      and_assoc6 (octet frame 0 == octet mac 0) (octet frame 1 == octet mac 1)
        (octet frame 2 == octet mac 2) (octet frame 3 == octet mac 3) (octet frame 4 == octet mac 4)
        (octet frame 5 == octet mac 5) in
    rw (is6, ← both, ← test_lo, ← test_hi)
      (start-Decides little frame _ 6
        (λ next hit.
          ins (load_mem r3 r7 0 word)
          ∷ ins (jne_imm32 r3 (mac_lo mac) (entry next))
          ∷ ins (load_mem r3 r7 4 half)
          ∷ ins (jeq_imm r3 (mac_hi mac) (entry hit))
          ∷ falls_to next)
        ((lo % 2 ^ 32 == mac_lo mac) && (hi == mac_hi mac)) refl (λ n h. unfold no_entry in refl)
        (λ hl' next hit s.
          let first : leb 4 (length frame) ≡ true = ground arith in
          let second : leb 6 (length frame) ≡ true = ground arith in
          elim (Bool-cases (lo % 2 ^ 32 == mac_lo mac)) [
            | inr k ↦ (record s { v3 = num lo }, rw (exec, first, k) refl)
            | inl k ↦ (
              record s { v3 = num hi },
              rw (exec, first, k, exec, second)
                  (last_test little frame (mac_hi mac) hi next hit (ready frame s)),
            )
          ]))
