-- ===== src/Filter/Management.antt =====
-- The exceptions of WithKeepManagement (filter.go, managementExceptions): which packets they keep with
-- the kernel, on a little-endian host.
use go_afxdp.Prelude.{
  ℕ, ◌+◌, ◌<◌, ◌≡◌, refl, ap, ◌∙◌, Bool, true, false, ◌&&◌, ◌||◌, none, some, List, [], ◌∷◌, ◌++◌,
  if◌then◌else◌, leb, ◌==◌, arith, All,
}
use go_afxdp.Ebpf.{little, octet}
use go_afxdp.Filter.Match.{Match, match_ether_type, match_icmpv6_nd}
use go_afxdp.Filter.Cidr.{
  Prefix, match_local_port, mark, per_local, port_rule, tcp_rules, management_exceptions,
}
use go_afxdp.Filter.Classify.{Decides, Verdicts, any}
use go_afxdp.Filter.Frame.{Bytes, base_of, has_ether_type}
use go_afxdp.Filter.Rules.{match_ether_type-Decides, match_icmpv6_nd-Decides}
use go_afxdp.Filter.Address.{IsPrefix}
use go_afxdp.Filter.Local.{local_wanted, match_local_port-Decides}

abbrev pub is_arp : List ℕ → Bool
is_arp frame = has_ether_type 14 0x0806 frame

-- IPv6 neighbour discovery: ICMPv6 of a type from 133 to 137.
abbrev pub is_nd : List ℕ → Bool
is_nd frame =
    has_ether_type 55 0x86DD frame
    && ((octet frame (base_of frame + 20) == 58)
        && (leb 133 (octet frame (base_of frame + 54))
            && leb (octet frame (base_of frame + 54)) 137))

-- A packet of the protocol with this port, to one of the addresses.
abbrev pub to_one_of : List ℕ → ℕ → Bool → ℕ → List Prefix → Bool
to_one_of frame proto src_port port [] = false
to_one_of frame proto src_port port (l ∷ ls) =
    local_wanted frame proto src_port port (some l) l.is4 || to_one_of frame proto src_port port ls

-- The same, or to any address if the addresses are not known.
abbrev pub to_us : List ℕ → Bool → List Prefix → ℕ → Bool → ℕ → Bool
to_us frame unscoped locals proto src_port port =
    if unscoped
    then local_wanted frame proto src_port port none true
      || local_wanted frame proto src_port port none false
    else to_one_of frame proto src_port port locals

-- A session on one of the TCP ports, in either role.
abbrev pub of_session : List ℕ → Bool → List Prefix → List ℕ → Bool
of_session frame unscoped locals [] = false
of_session frame unscoped locals (p ∷ ps) =
    to_us frame unscoped locals 6 false p
    || (to_us frame unscoped locals 6 true p || of_session frame unscoped locals ps)

-- The traffic that the host depends on: ARP, neighbour discovery, the sessions, and DNS replies.
abbrev pub is_management : List Prefix → List ℕ → Bool → List ℕ → Bool
is_management locals tcp_ports unscoped frame =
    is_arp frame
    || (is_nd frame
        || (of_session frame unscoped locals tcp_ports
            || (to_us frame unscoped locals 17 true 53 || to_us frame unscoped locals 6 true 53)))

any_or : (b : Bool) (bs : List Bool) → any (b ∷ bs) ≡ b || any bs
any_or true bs = refl
any_or false bs = refl

or_assoc : (a b c : Bool) → a || (b || c) ≡ (a || b) || c
or_assoc true b c = refl
or_assoc false b c = refl

or_false : (a : Bool) → a || false ≡ a
or_false true = refl
or_false false = refl

and_true : (a : Bool) → a && true ≡ a
and_true true = refl
and_true false = refl

module _ (frame : List ℕ) where
  -- At least one of the matches takes the frame exactly if `c` holds.
  abbrev pub Catches : List Match → Bool → Type 0
  Catches ms c = (xs : List Bool) × Verdicts little frame ms xs × (any xs ≡ c)

  Catches-nil : Catches [] false
  Catches-nil = ([], tt, refl)

  Catches-cons :
      (m : Match) (ms : List Match) (b c : Bool)
      → Decides little frame m b
      → Catches ms c
      → Catches (m ∷ ms) (b || c)
  Catches-cons m ms b c d (xs, v, e) = (b ∷ xs, (d, v), any_or b xs ∙ ap (λ t. b || t) e)

  pub Catches-append :
      (ms ns : List Match) (b c : Bool) → Catches ms b → Catches ns c → Catches (ms ++ ns) (b || c)
  Catches-append [] ns b c ([], v, e) k = rw (← e) k
  Catches-append [] ns b c (x ∷ xs, v, e) k = absurd v
  Catches-append (m ∷ ms) ns b c ([], v, e) k = absurd v
  Catches-append (m ∷ ms) ns b c (x ∷ xs, (d, v), e) k =
      rw (← e, any_or x xs, ← or_assoc x (any xs) c)
        (Catches-cons m (ms ++ ns) x (any xs || c) d
          (Catches-append ms ns (any xs) c (xs, v, refl) k))

  mark-Verdicts :
      (ms : List Match) (xs : List Bool)
      → Verdicts little frame ms xs
      → Verdicts little frame (mark little ms) xs
  mark-Verdicts [] [] v = tt
  mark-Verdicts [] (x ∷ xs) v = absurd v
  mark-Verdicts (m ∷ ms) [] v = absurd v
  mark-Verdicts (m ∷ ms) (x ∷ xs) (d, v) = (
    record {
      block = d.block;
      builds = d.builds;
      enters = d.enters;
      skips = d.skips;
      runs = d.runs;
    },
    mark-Verdicts ms xs v,
  )

  module _ (hb : Bytes frame) (locals : List Prefix) (valid : All IsPrefix locals) where
    per_local-Catches :
        (ls : List Prefix) (proto : ℕ) (src_port : Bool) (port : ℕ)
        → All IsPrefix ls
        → port < 65536
        → Catches (per_local little proto src_port port ls) (to_one_of frame proto src_port port ls)
    per_local-Catches [] proto src_port port v hp = Catches-nil
    per_local-Catches (l ∷ ls) proto src_port port (v, vs) hp =
        Catches-cons (match_local_port little proto src_port port (some l) l.is4)
          (per_local little proto src_port port ls)
          (local_wanted frame proto src_port port (some l) l.is4)
          (to_one_of frame proto src_port port ls)
          (match_local_port-Decides frame hb proto src_port port (some l) l.is4 (v, refl) hp)
          (per_local-Catches ls proto src_port port vs hp)

    port_rule-Catches :
        (unscoped : Bool) (proto : ℕ) (src_port : Bool) (port : ℕ)
        → port < 65536
        → Catches
            (port_rule little unscoped locals proto src_port port)
            (to_us frame unscoped locals proto src_port port)
    port_rule-Catches false proto src_port port hp =
        per_local-Catches locals proto src_port port valid hp
    port_rule-Catches true proto src_port port hp =
        let v4 = local_wanted frame proto src_port port none true in
        let v6 = local_wanted frame proto src_port port none false in
        let m6 = match_local_port little proto src_port port none false in
        rw (← or_false v6) (
          Catches-cons (match_local_port little proto src_port port none true) (m6 ∷ []) v4
            (v6 || false) (match_local_port-Decides frame hb proto src_port port none true tt hp)
            (Catches-cons m6 [] v6 false
              (match_local_port-Decides frame hb proto src_port port none false tt hp) Catches-nil))

    tcp_rules-Catches :
        (unscoped : Bool) (ps : List ℕ)
        → All (λ p. p < 65536) ps
        → Catches (tcp_rules little unscoped locals ps) (of_session frame unscoped locals ps)
    tcp_rules-Catches unscoped [] h = Catches-nil
    tcp_rules-Catches unscoped (p ∷ ps) (hp, h) =
        Catches-append (port_rule little unscoped locals 6 false p)
          (port_rule little unscoped locals 6 true p ++ tcp_rules little unscoped locals ps)
          (to_us frame unscoped locals 6 false p)
          (to_us frame unscoped locals 6 true p || of_session frame unscoped locals ps)
          (port_rule-Catches unscoped 6 false p hp)
          (Catches-append (port_rule little unscoped locals 6 true p)
            (tcp_rules little unscoped locals ps) (to_us frame unscoped locals 6 true p)
            (of_session frame unscoped locals ps) (port_rule-Catches unscoped 6 true p hp)
            (tcp_rules-Catches unscoped ps h))

    -- The management exceptions take exactly the management traffic.
    pub management_exceptions-Catches :
        (tcp_ports : List ℕ) (unscoped : Bool)
        → All (λ p. p < 65536) tcp_ports
        → Catches
            (management_exceptions little locals tcp_ports unscoped)
            (is_management locals tcp_ports unscoped frame)
    unfolding management_exceptions
    management_exceptions-Catches tcp_ports unscoped hp =
        let dns = λ (proto : ℕ). port_rule little unscoped locals proto true 53 in
        let udp = to_us frame unscoped locals 17 true 53 in
        let tcp = to_us frame unscoped locals 6 true 53 in
        let sessions = of_session frame unscoped locals tcp_ports in
        let ports = tcp_rules little unscoped locals tcp_ports ++ (dns 17 ++ dns 6) in
        let (xs, v, e) =
          Catches-cons (match_ether_type little 0x0806) (match_icmpv6_nd little ∷ ports)
            (is_arp frame) (is_nd frame || (sessions || (udp || tcp)))
            (rw (← and_true (is_arp frame))
              (match_ether_type-Decides little frame 0x0806 hb (omega arith)))
            (Catches-cons (match_icmpv6_nd little) ports (is_nd frame) (sessions || (udp || tcp))
              (match_icmpv6_nd-Decides little frame hb)
              (Catches-append (tcp_rules little unscoped locals tcp_ports) (dns 17 ++ dns 6)
                sessions (udp || tcp) (tcp_rules-Catches unscoped tcp_ports hp)
                (Catches-append (dns 17) (dns 6) udp tcp
                  (port_rule-Catches unscoped 17 true 53 (omega arith))
                  (port_rule-Catches unscoped 6 true 53 (omega arith))))) in
        (
          xs,
          mark-Verdicts (match_ether_type little 0x0806 ∷ match_icmpv6_nd little ∷ ports) xs v,
          e,
        )
