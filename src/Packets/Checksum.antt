-- ===== src/Packets/Checksum.antt =====
-- The Internet checksum of a header: ipChecksum (examples/blast, examples/dns).
use go_afxdp.Prelude.{ℕ, ◌+◌, ◌-◌, ◌*◌, ◌%◌, ◌^◌, ◌<◌, ◌≡◌, ◌∙◌, List, [], ◌∷◌, arith}
use go_afxdp.Packets.{sum_words, fold_carries, ip_checksum}

-- The 16-bit words of a header, added up without a limit.
abbrev pub words_total : List ℕ → ℕ
words_total (hi ∷ lo ∷ hdr) = hi * 256 + lo + words_total hdr
words_total _ = 0

-- A header with its checksum in place is valid: its words add up to 0 in ones' complement.
abbrev pub IsValidSum : ℕ → Type 0
IsValidSum total = total % 65535 ≡ 0

pub sum_words-total :
    (sum : ℕ) (hdr : List ℕ)
    → sum + words_total hdr < 2 ^ 32
    → sum_words sum hdr ≡ sum + words_total hdr
unfolding sum_words
sum_words-total sum [] h = omega arith
sum_words-total sum (x ∷ []) h = omega arith
sum_words-total sum (hi ∷ lo ∷ hdr) h =
    let small : (sum + (hi * 256 + lo)) % 2 ^ 32 ≡ sum + (hi * 256 + lo) = omega arith in
    rw small (sum_words-total (sum + (hi * 256 + lo)) hdr (omega arith) ∙ omega arith)

-- Three rounds end the loop by its test, and keep the sum's residue.
pub fold_carries_lem :
    (sum : ℕ)
    → sum < 2 ^ 32
    → (fold_carries 3 sum < 65536) × (fold_carries 3 sum % 65535 ≡ sum % 65535)
unfolding fold_carries
fold_carries_lem sum h = ground arith

folded :
    (sum f : ℕ) → (f < 65536) × (f % 65535 ≡ sum % 65535) → (sum + (65535 - f % 65536)) % 65535 ≡ 0
folded sum f (h, k) = omega arith

-- The words of a header and the checksum of the same words add up to 0.
pub checksum_total :
    (hdr : List ℕ) → words_total hdr < 2 ^ 32 → IsValidSum (words_total hdr + ip_checksum hdr)
unfolding ip_checksum
checksum_total hdr h =
    let total : sum_words 0 hdr ≡ words_total hdr = omega (arith, sum_words-total 0 hdr) in
    rw total (
      folded (words_total hdr) (fold_carries 3 (words_total hdr))
        (fold_carries_lem (words_total hdr) h))

pub ip_checksum-lt : (hdr : List ℕ) → ip_checksum hdr < 65536
unfolding ip_checksum
ip_checksum-lt hdr = omega arith
