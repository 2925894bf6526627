-- ===== src/Ebpf.antt =====
-- The target language of filter.go and match.go: the eBPF instructions that they emit, with the jump
-- labels of the assembler, run on one frame as the XDP hook runs them. Only forward jumps occur in the
-- blocks of filter.go, so a run is a recursion on the instructions left: a jump skips to the instruction
-- that carries its label, and one whose label does not come leaves the block. A jump back, which only a
-- caller's block can have, is such a jump too.
pub mod Run
use Prim.Native.String.{String}
use text.Mathlib.Text.{◌==◌ as str_eq}
use go_afxdp.Prelude.{
  ℕ, zero, suc, ◌+◌, ◌-◌, ◌*◌, ◌%◌, ◌^◌, Bool, true, false, not, ◌&&◌, ◌||◌, Option, none, some,
  List, [], ◌∷◌, ◌++◌, ltb, leb, ◌==◌, if◌then◌else◌, bit_and, length, get_or,
}

pub data Reg : Type 0 where
  r0 r1 r2 r3 r4 r5 r6 r7 r8 r9 r10 : Reg

abbrev reg_index : Reg → ℕ
reg_index r0 = 0
reg_index r1 = 1
reg_index r2 = 2
reg_index r3 = 3
reg_index r4 = 4
reg_index r5 = 5
reg_index r6 = 6
reg_index r7 = 7
reg_index r8 = 8
reg_index r9 = 9
reg_index r10 = 10

abbrev pub reg_eq : Reg → Reg → Bool
reg_eq a b = reg_index a == reg_index b

-- A block's place in the filter: its entry symbol "except3" or "match0", and the two tails.
pub data Target : Type 0 where
  pass redirect : Target
  except accept : ℕ → Target

-- What is appended to an entry symbol to name a place within the block: "_notag", "_fb_notag", "_v4",
-- "_v6", and "_u_" with a name for a custom block.
pub data Tag : Type 0 where
  notag fb_notag v4 v6 : Tag
  user : String → Tag

pub data Label : Type 0 where
  entry : Target → Label
  inner : Target → Tag → Label

abbrev pub target_eq : Target → Target → Bool
target_eq pass pass = true
target_eq redirect redirect = true
target_eq (except i) (except j) = i == j
target_eq (accept i) (accept j) = i == j
target_eq _ _ = false

abbrev pub tag_eq : Tag → Tag → Bool
tag_eq notag notag = true
tag_eq fb_notag fb_notag = true
tag_eq v4 v4 = true
tag_eq v6 v6 = true
tag_eq (user s) (user t) = str_eq s t
tag_eq _ _ = false

abbrev pub label_eq : Label → Label → Bool
label_eq (entry s) (entry t) = target_eq s t
label_eq (inner s a) (inner t b) = if tag_eq a b then target_eq s t else false
label_eq _ _ = false

pub data Size : Type 0 where
  byte half word : Size

abbrev pub bytes : Size → ℕ
bytes byte = 1
bytes half = 2
bytes word = 4

-- `alu` stands for the arithmetic that the library's own blocks do not use, and `ld` for the other
-- loads; a caller's block may hold them. Atomic operations are left out, among them those that write their
-- source register, which the verifier refuses on R6 and R7, where the pointers are. Immediates are not negative.
pub data Op : Type 0 where
  mov_reg : Reg → Reg → Op
  mov_imm : Reg → ℕ → Op
  add_imm : Reg → ℕ → Op
  and_imm : Reg → ℕ → Op
  load_mem : Reg → Reg → ℕ → Size → Op
  store_mem : Reg → ℕ → Reg → Size → Op
  ja : Label → Op
  jeq_imm jeq_imm32 jne_imm jne_imm32 jlt_imm jgt_imm : Reg → ℕ → Label → Op
  jgt_reg : Reg → Reg → Label → Op
  alu ld : Reg → Reg → Op
  call : ℕ → Op
  exit : Op

pub record Instr : Type 0 where
  pub symbol : Option Label
  pub op : Op

abbrev pub ins : Op → Instr
ins o = record { symbol = none; op = o }

abbrev pub with_symbol : Label → Instr → Instr
with_symbol l i = record i { symbol = some l }

-- A number, a pointer into the frame, or what a block has no use for.
pub data Val : Type 0 where
  num : ℕ → Val
  pkt : ℕ → Val
  other : Val

pub record Regs : Type 0 where
  pub v0 : Val
  pub v1 : Val
  pub v2 : Val
  pub v3 : Val
  pub v4 : Val
  pub v5 : Val
  pub v6 : Val
  pub v7 : Val
  pub v8 : Val
  pub v9 : Val
  pub v10 : Val

abbrev pub get : Regs → Reg → Val
get s r0 = s.v0
get s r1 = s.v1
get s r2 = s.v2
get s r3 = s.v3
get s r4 = s.v4
get s r5 = s.v5
get s r6 = s.v6
get s r7 = s.v7
get s r8 = s.v8
get s r9 = s.v9
get s r10 = s.v10

abbrev pub put : Reg → Val → Regs → Regs
put r0 v s = record s { v0 = v }
put r1 v s = record s { v1 = v }
put r2 v s = record s { v2 = v }
put r3 v s = record s { v3 = v }
put r4 v s = record s { v4 = v }
put r5 v s = record s { v5 = v }
put r6 v s = record s { v6 = v }
put r7 v s = record s { v7 = v }
put r8 v s = record s { v8 = v }
put r9 v s = record s { v9 = v }
put r10 v s = record s { v10 = v }

-- A run of a block: it jumps out, falls off the end, returns an action, leaves for another program by a
-- tail call, or does what the verifier rejects (a load outside the frame, arithmetic on what is no number).
pub data Outcome : Type 0 where
  goto : Label → Regs → Outcome
  fell : Regs → Outcome
  returned : Val → Outcome
  left : Outcome
  fault : Outcome

pub data Endian : Type 0 where
  little big : Endian

abbrev pub octet : List ℕ → ℕ → ℕ
octet frame off = get_or frame off 0

-- A load in the host's byte order.
unfoldable pub load : Endian → List ℕ → ℕ → Size → ℕ
load e frame off byte = octet frame off
load little frame off half = octet frame off + 256 * octet frame (off + 1)
load big frame off half = octet frame off * 256 + octet frame (off + 1)
load little frame off word =
    octet frame off
    + 256 * octet frame (off + 1)
    + 65536 * octet frame (off + 2)
    + 16777216 * octet frame (off + 3)
load big frame off word =
    octet frame off * 16777216
    + octet frame (off + 1) * 65536
    + octet frame (off + 2) * 256
    + octet frame (off + 3)

pub data Effect : Type 0 where
  next : Regs → Effect
  jump : Label → Regs → Effect
  ret : Val → Effect
  leave : Effect
  bad : Effect

abbrev pub branch : Bool → Label → Regs → Effect
branch b l s = if b then jump l s else next s

-- An immediate compared with a number; a pointer compares with no number.
abbrev pub on_num : Val → (ℕ → Effect) → Effect
on_num (num n) f = f n
on_num (pkt o) f = bad
on_num other f = bad

abbrev pub load_from : Endian → List ℕ → Val → ℕ → Size → Reg → Regs → Effect
load_from e frame (pkt o) off size r s =
    if leb (o + off + bytes size) (length frame)
    then next (put r (num (load e frame (o + off) size)) s)
    else bad
load_from e frame (num n) off size r s = bad
load_from e frame other off size r s = next (put r other s)

abbrev pub add_to : Val → ℕ → Reg → Regs → Effect
add_to (num n) k r s = next (put r (num ((n + k) % 2 ^ 64)) s)
add_to (pkt o) k r s = next (put r (pkt (o + k)) s)
add_to other k r s = bad

abbrev pub past : Val → Val → Label → Regs → Effect
past (pkt a) (pkt b) l s = branch (ltb b a) l s
past (num a) (num b) l s = branch (ltb b a) l s
past _ _ l s = bad

-- `bpf_tail_call` does not return where it succeeds, and this is the case that is modelled; the other helpers
-- scratch R0 to R5.
abbrev pub bpf_tail_call : ℕ
bpf_tail_call = 12

unfoldable pub step : Endian → List ℕ → Op → Regs → Effect
step e frame (mov_reg d r) s = next (put d (get s r) s)
step e frame (mov_imm d k) s = next (put d (num k) s)
step e frame (add_imm d k) s = add_to (get s d) k d s
step e frame (and_imm d k) s = on_num (get s d) (λ n. next (put d (num (bit_and n k)) s))
step e frame (load_mem d r off size) s = load_from e frame (get s r) off size d s
step e frame (store_mem d off r size) s = next s
step e frame (ja l) s = jump l s
step e frame (jeq_imm d k l) s = on_num (get s d) (λ n. branch (n == k) l s)
step e frame (jeq_imm32 d k l) s = on_num (get s d) (λ n. branch (n % 2 ^ 32 == k) l s)
step e frame (jne_imm d k l) s = on_num (get s d) (λ n. branch (not (n == k)) l s)
step e frame (jne_imm32 d k l) s = on_num (get s d) (λ n. branch (not (n % 2 ^ 32 == k)) l s)
step e frame (jlt_imm d k l) s = on_num (get s d) (λ n. branch (ltb n k) l s)
step e frame (jgt_imm d k l) s = on_num (get s d) (λ n. branch (ltb k n) l s)
step e frame (jgt_reg d r l) s = past (get s d) (get s r) l s
step e frame (alu d r) s = next (put d other s)
step e frame (ld d r) s = next (put d other s)
step e frame (call n) s =
    if n == bpf_tail_call
    then leave
    else next (record s { v0 = other; v1 = other; v2 = other; v3 = other; v4 = other; v5 = other })
step e frame exit s = ret s.v0

abbrev pub carries : Instr → Label → Bool
carries i l = elim i.symbol [ none ↦ false | some m ↦ label_eq m l ]

-- `some l`: on the way to the instruction that carries `l`.
unfoldable pub exec : Endian → List ℕ → List Instr → Option Label → Regs → Outcome
exec e frame [] none s = fell s
exec e frame [] (some l) s = goto l s
exec e frame (i ∷ is) none s = elim (step e frame i.op s) [
  | next t ↦ exec e frame is none t
  | jump l t ↦ exec e frame is (some l) t
  | ret v ↦ returned v
  | leave ↦ left
  | bad ↦ fault
]
exec e frame (i ∷ is) (some l) s = elim (carries i l) [
  | true ↦ elim (step e frame i.op s) [
    | next t ↦ exec e frame is none t
    | jump m t ↦ exec e frame is (some m) t
    | ret v ↦ returned v
    | leave ↦ left
    | bad ↦ fault
  ]
  | false ↦ exec e frame is (some l) s
]
