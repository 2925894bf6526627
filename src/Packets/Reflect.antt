-- ===== src/Packets/Reflect.antt =====
-- The reflector of examples/udpreflector: swapping back and forth, and what stays.
use go_afxdp.Prelude.{
  ℕ, zero, suc, ◌+◌, ◌≤◌, ◌≡◌, refl, ap, ◌∙◌, sym, Bool, true, false, List, [], ◌∷◌, ◌++◌, ◌==◌,
  if◌then◌else◌, arith, Bool-cases, inl, inr, length, ltb, leb, drop, get_or, ◌&&◌, subst,
}
use go_afxdp.Ebpf.{octet}
use go_afxdp.Filter.Frame.{be16, base_of}
use go_afxdp.Filter.Wanted.{l4_wanted, plain_ipv4}
use go_afxdp.Packets.{reflect, slice, copy_at, swap_mac}
use go_afxdp.Packets.Checksum.{words_total}
use go_afxdp.Packets.Build.{Mac, mac_bytes}

-- The first `n` bytes, one by one.
abbrev pub heads : ℕ → List ℕ → List ℕ
heads zero f = []
heads (suc n) f = get_or f 0 0 ∷ heads n (drop 1 f)

pub heads-append-drop : (n : ℕ) (f : List ℕ) → n ≤ length f → f ≡ heads n f ++ drop n f
heads-append-drop zero f h = refl
heads-append-drop (suc n) [] h = absurd (omega arith)
heads-append-drop (suc n) (x ∷ f) h = ap (λ t. x ∷ t) (heads-append-drop n f (omega arith))

-- The bytes of the two addresses and the two ports, which both checksums cover.
abbrev pub flow_total : List ℕ → ℕ
flow_total f = words_total (slice f 26 12)

pub record Turned (f g : List ℕ) : Type 0 where
  pub back : reflect g ≡ f
  pub header : words_total (slice g 14 20) ≡ words_total (slice f 14 20)
  pub flow : flow_total g ≡ flow_total f
  pub ends :
      (slice g 0 6 ≡ slice f 6 6) × (slice g 26 4 ≡ slice f 30 4) × (slice g 34 2 ≡ slice f 36 2)
  pub same : length g ≡ length f

-- The fields that the port matchers look at.
abbrev Fields : List ℕ → Type 0
Fields f =
    (be16 (reflect f) 12 ≡ be16 f 12)
    × (octet (reflect f) 14 ≡ octet f 14)
    × (be16 (reflect f) 20 ≡ be16 f 20)
    × (octet (reflect f) 23 ≡ octet f 23)
    × (be16 (reflect f) 34 ≡ be16 f 36)

module _ (f rest : List ℕ) where
  turned : Turned (heads 38 f ++ rest) (reflect (heads 38 f ++ rest))
  unfolding reflect
  turned = record {
    back = refl;
    header = omega arith;
    flow = omega arith;
    ends = (refl, refl, refl);
    same = refl;
  }

  turned-Fields : Fields (heads 38 f ++ rest)
  unfolding reflect
  turned-Fields = (refl, refl, refl, refl, refl)

-- What a port matcher asks of a frame that is IPv4 and has no tag.
ipv4_ports :
    (f : List ℕ) (p : ℕ) (src_port : Bool)
    → 38 ≤ length f
    → be16 f 12 ≡ 0x0800
    → l4_wanted 17 src_port (p ∷ []) f ≡ (
        plain_ipv4 f 0
        && ((octet f 23 == 17)
            && (if be16 f (if src_port then 34 else 36) == p then true else false)))
ipv4_ports f p true h e =
    let base : base_of f ≡ 0 = rw e refl in
    let first : leb 14 (length f) ≡ true = ground arith in
    let near : leb 36 (length f) ≡ true = ground arith in rw (base, e, first, near) refl
ipv4_ports f p false h e =
    let base : base_of f ≡ 0 = rw e refl in
    let first : leb 14 (length f) ≡ true = ground arith in
    let far : leb 38 (length f) ≡ true = ground arith in rw (base, e, first, far) refl

turned_ports :
    (f g : List ℕ) (p : ℕ)
    → 38 ≤ length f
    → length g ≡ length f
    → be16 f 12 ≡ 0x0800
    → (be16 g 12 ≡ be16 f 12)
      × (octet g 14 ≡ octet f 14)
      × (be16 g 20 ≡ be16 f 20)
      × (octet g 23 ≡ octet f 23)
      × (be16 g 34 ≡ be16 f 36)
    → l4_wanted 17 true (p ∷ []) g ≡ l4_wanted 17 false (p ∷ []) f
turned_ports f g p h l e (a, b, c, d, k) =
    ipv4_ports g p true (omega (arith, l)) (a ∙ e)
    ∙ rw (b, c, d, k) refl
    ∙ sym (ipv4_ports f p false h e)

-- Reflecting a frame that holds the ports keeps its length and the sums that the IPv4 and UDP checksums
-- cover, exchanges the ends at every layer, and is undone by reflecting again. If the frame is IPv4
-- without a tag, MatchUDPSrcPort for a port takes the reply exactly if MatchUDPPort for it takes the frame.
pub reflect-Turned :
    (f : List ℕ)
    → 38 ≤ length f
    → Turned f (reflect f)
      × ((p : ℕ)
          → be16 f 12 ≡ 0x0800
          → l4_wanted 17 true (p ∷ []) (reflect f) ≡ l4_wanted 17 false (p ∷ []) f)
reflect-Turned f h =
    let e = heads-append-drop 38 f h in
    let rest = drop 38 f in
    let t : Turned f (reflect f) = subst (λ x. Turned x (reflect x)) (sym e) (turned f rest) in
    let fields = subst Fields (sym e) (turned-Fields f rest) in
    (t, λ p ipv4. turned_ports f (reflect f) p h t.same ipv4 fields)

swap_long :
    (f : List ℕ) → 12 ≤ length f → swap_mac f ≡ copy_at (copy_at f 0 (slice f 6 6)) 6 (slice f 0 6)
unfolding swap_mac
swap_long f h = let long : ltb (length f) 12 ≡ false = ground arith in rw long refl

pub copy_at-nil : (f : List ℕ) → copy_at f 0 [] ≡ f
copy_at-nil [] = refl
copy_at-nil (x ∷ f) = refl

swap_mac_lem :
    (a b : Mac) (rest : List ℕ)
    → swap_mac (mac_bytes a ++ (mac_bytes b ++ rest)) ≡ mac_bytes b ++ (mac_bytes a ++ rest)
swap_mac_lem a b rest =
    swap_long (mac_bytes a ++ (mac_bytes b ++ rest)) (omega arith)
    ∙ ap (λ t. mac_bytes b ++ (mac_bytes a ++ t)) (copy_at-nil rest)

mac_at : List ℕ → ℕ → Mac
mac_at f o = record {
  m0 = octet f o;
  m1 = octet f (o + 1);
  m2 = octet f (o + 2);
  m3 = octet f (o + 3);
  m4 = octet f (o + 4);
  m5 = octet f (o + 5);
}

macs :
    (f rest : List ℕ)
    → heads 12 f ++ rest
      ≡ mac_bytes (mac_at (heads 12 f) 0) ++ (mac_bytes (mac_at (heads 12 f) 6) ++ rest)
unfolding mac_at
macs f rest = refl

swap_mac_short : (f : List ℕ) → ltb (length f) 12 ≡ true → swap_mac f ≡ f
unfolding swap_mac
swap_mac_short f h = rw h refl

-- swapMAC exchanges the two addresses and keeps the rest of the frame; a frame that is too short to
-- have addresses it leaves alone. Doing it again undoes it.
pub swap_mac-swap_mac : (f : List ℕ) → swap_mac (swap_mac f) ≡ f
swap_mac-swap_mac f = elim (Bool-cases (ltb (length f) 12)) [
  | inl h ↦ ap swap_mac (swap_mac_short f h) ∙ swap_mac_short f h
  | inr h ↦
      let rest = drop 12 f in
      let a = mac_at (heads 12 f) 0 in
      let b = mac_at (heads 12 f) 6 in
      let e = heads-append-drop 12 f (ground arith) ∙ macs f rest in
      ap (λ t. swap_mac (swap_mac t)) e
      ∙ ap swap_mac (swap_mac_lem a b rest)
      ∙ swap_mac_lem b a rest
      ∙ sym e
]
