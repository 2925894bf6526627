-- ===== src/Packets/Reply.antt =====
-- The reply of examples/dns: buildReply turns a request's header and an answer into a frame.
use go_afxdp.Prelude.{
  ℕ, suc, ◌+◌, ◌/◌, ◌%◌, ◌^◌, ◌≤◌, ◌<◌, ◌≡◌, refl, ap, ◌∙◌, sym, subst, List, [], ◌∷◌, ◌++◌, arith,
  length, take, drop, length-drop,
}
use go_afxdp.Ebpf.{octet}
use go_afxdp.Filter.Frame.{Bytes, be16}
use go_afxdp.Packets.{build_reply, ip_checksum, slice, copy_at}
use go_afxdp.Packets.Checksum.{words_total, IsValidSum, checksum_total, ip_checksum-lt}
use go_afxdp.Packets.Reflect.{heads, heads-append-drop, copy_at-nil}

take-copy_at : (f src : List ℕ) → length src ≤ length f → take (length src) (copy_at f 0 src) ≡ src
take-copy_at f [] h = refl
take-copy_at [] (b ∷ src) h = absurd (omega arith)
take-copy_at (x ∷ f) (b ∷ src) h = ap (λ t. b ∷ t) (take-copy_at f src (omega arith))

length-copy_at : (f src : List ℕ) → length (copy_at f 0 src) ≡ length f
length-copy_at [] src = refl
length-copy_at (x ∷ f) [] = refl
length-copy_at (x ∷ f) (b ∷ src) = ap suc (length-copy_at f src)

-- The reply goes back where the request came from, and carries the answer.
pub record IsReply (req answer out f : List ℕ) : Type 0 where
  pub size : length f ≡ length out
  pub macs : (slice f 0 6 ≡ slice req 6 6) × (slice f 6 6 ≡ slice req 0 6)
  pub ips : (slice f 26 4 ≡ slice req 30 4) × (slice f 30 4 ≡ slice req 26 4)
  pub ports : (slice f 34 2 ≡ slice req 36 2) × (slice f 36 2 ≡ slice req 34 2)
  pub lengths :
      (be16 f 16 ≡ (28 + length answer) % 65536) × (be16 f 38 ≡ (8 + length answer) % 65536)
  pub udp_checksum : be16 f 40 ≡ 0
  pub checksum : IsValidSum (words_total (slice f 14 20))
  pub payload : slice f 42 (length answer) ≡ answer

nil_of_length : (f : List ℕ) → length f ≡ 0 → f ≡ []
nil_of_length [] h = refl
nil_of_length (x ∷ f) h = absurd (omega arith)

module _ (q o rest answer : List ℕ) (hq : Bytes (heads 42 q))
    (room : length answer ≤ length rest) where
  reply : List ℕ
  reply = (build_reply (heads 42 q) answer (heads 42 o ++ rest)).0

  -- The IPv4 header with its checksum left out.
  header : List ℕ
  header =
      let n = 20 + 8 + length answer in
      let at = octet (heads 42 q) in
      at 14
      ∷ at 15
      ∷ n / 256 % 256
      ∷ n % 256
      ∷ at 18
      ∷ at 19
      ∷ at 20
      ∷ at 21
      ∷ at 22
      ∷ at 23
      ∷ 0
      ∷ 0
      ∷ at 30
      ∷ at 31
      ∷ at 32
      ∷ at 33
      ∷ at 26
      ∷ at 27
      ∷ at 28
      ∷ at 29
      ∷ []

  header_total : words_total header < 2 ^ 32
  unfolding header
  header_total = omega (arith, hq)

  sums : words_total (slice reply 14 20) ≡ words_total header + ip_checksum header
  unfolding reply header build_reply
  sums = omega (arith, ip_checksum-lt header)

  reply-IsReply : IsReply (heads 42 q) answer (heads 42 o ++ rest) reply
  unfolding reply build_reply
  reply-IsReply = record {
    size = omega (arith, length-copy_at (copy_at rest 0 []) answer, length-copy_at rest []);
    macs = (refl, refl);
    ips = (refl, refl);
    ports = (refl, refl);
    lengths = (omega arith, omega arith);
    udp_checksum = refl;
    checksum = ap (λ t. t % 65535) sums ∙ checksum_total header header_total;
    payload =
        ap (λ t. take (length answer) (copy_at t 0 answer)) (copy_at-nil rest)
        ∙ take-copy_at rest answer room;
  }

-- For a captured header of 42 bytes, any answer, and an output frame that has room for both, buildReply
-- returns the length of both, and the frame keeps its size; its addresses and ports are the request's
-- exchanged, its length fields are those of the answer modulo 2^16, its UDP checksum is 0, its IPv4
-- header checksum is valid, and its payload is the answer.
pub build_reply-IsReply :
    (req answer out : List ℕ)
    → length req ≡ 42
    → Bytes req
    → 42 + length answer ≤ length out
    → IsReply req answer out (build_reply req answer out).0
      × ((build_reply req answer out).1 ≡ 42 + length answer)
unfolding build_reply reply
build_reply-IsReply req answer out h hb room =
    let empty : drop 42 req ≡ [] =
      nil_of_length (drop 42 req) (omega (arith, length-drop 42 req)) in
    let eq : heads 42 req ≡ req =
      sym (heads-append-drop 42 req (omega (arith, h)) ∙ ap (λ t. heads 42 req ++ t) empty) in
    let eo = sym (heads-append-drop 42 out (omega (arith, room))) in
    (
      subst (λ x. IsReply req answer x (build_reply req answer x).0) eo
          (subst
            (λ x.
              IsReply x answer (heads 42 out ++ drop 42 out)
                (build_reply x answer (heads 42 out ++ drop 42 out)).0)
            eq
            (reply-IsReply req out (drop 42 out) answer (subst Bytes (sym eq) hb)
              (omega (arith, length-drop 42 out)))),
      refl,
    )
