-- ===== src/Filter/Program.antt =====
-- filter.go and match.go: custom blocks, the check of a block's registers, and the assembly of the
-- classification blocks.
use go_afxdp.Prelude.{
  ℕ, ◌+◌, Bool, true, false, not, ◌||◌, Option, none, some, List, [], ◌∷◌, ◌++◌, if◌then◌else◌,
}
use Prim.Native.String.{String}
use go_afxdp.Ebpf.{
  Reg, r0, r6, r7, r8, r9, reg_eq, Target, pass, redirect, except, accept, fb_notag, user, Label,
  entry, inner, Op, mov_reg, mov_imm, add_imm, and_imm, load_mem, store_mem, ja, jeq_imm, jeq_imm32,
  jne_imm, jne_imm32, jlt_imm, jgt_imm, jgt_reg, alu, ld, call, exit, Instr, ins, Endian,
}
use go_afxdp.Filter.Emit.{with_entry, bounds_from, l3_base}
use go_afxdp.Filter.Match.{BuildError, nil_build, invalid_match, Built, built, failed, Match}

-- ---- match.go ----

-- `MatchEnv`; its Data and DataEnd are always R7 and R6.
pub record MatchEnv : Type 0 where
  pub next_block : Target
  pub hit : Target
  pub prefix : Target

unfoldable pub frame_base : Endian → MatchEnv → List Instr × Reg
unfolding l3_base
frame_base host e = (l3_base host e.prefix fb_notag e.next_block, r9)

unfoldable pub bounds : MatchEnv → Reg → ℕ → List Instr
unfolding bounds_from
bounds e base n = bounds_from base n e.next_block

abbrev pub label : MatchEnv → String → Label
label e name = inner e.prefix (user name)

-- The registers in an instruction's Dst and Src fields.
abbrev pub mentions : Op → Reg → Bool
mentions (mov_reg d s) r = reg_eq d r || reg_eq s r
mentions (mov_imm d k) r = reg_eq d r
mentions (add_imm d k) r = reg_eq d r
mentions (and_imm d k) r = reg_eq d r
mentions (load_mem d s off size) r = reg_eq d r || reg_eq s r
mentions (store_mem d off s size) r = reg_eq d r || reg_eq s r
mentions (ja l) r = false
mentions (jeq_imm d k l) r = reg_eq d r
mentions (jeq_imm32 d k l) r = reg_eq d r
mentions (jne_imm d k l) r = reg_eq d r
mentions (jne_imm32 d k l) r = reg_eq d r
mentions (jlt_imm d k l) r = reg_eq d r
mentions (jgt_imm d k l) r = reg_eq d r
mentions (jgt_reg d s l) r = reg_eq d r || reg_eq s r
mentions (alu d s) r = reg_eq d r || reg_eq s r
mentions (ld d s) r = reg_eq d r || reg_eq s r
mentions (call n) r = false
mentions exit r = false

-- `in.Dst == r && writesDst(in.OpCode)`: the load and arithmetic classes write Dst, jumps and stores
-- only read it.
abbrev pub writes_dst : Op → Reg → Bool
writes_dst (mov_reg d s) r = reg_eq d r
writes_dst (mov_imm d k) r = reg_eq d r
writes_dst (add_imm d k) r = reg_eq d r
writes_dst (and_imm d k) r = reg_eq d r
writes_dst (load_mem d s off size) r = reg_eq d r
writes_dst (alu d s) r = reg_eq d r
writes_dst (ld d s) r = reg_eq d r
writes_dst _ r = false

abbrev pub is_exit : Op → Bool
is_exit exit = true
is_exit _ = false

pub data Violation : Type 0 where
  references_r8 writes_r6 writes_r7 returns_action : Violation

unfoldable pub violation : Op → Option Violation
violation o =
    if mentions o r8
    then some references_r8
    else if writes_dst o r6
    then some writes_r6
    else if writes_dst o r7
    then some writes_r7
    else if is_exit o
    then some returns_action
    else none

-- The first bad instruction's index and what is wrong with it.
unfoldable pub check_block : ℕ → List Instr → Option (ℕ × Violation)
check_block i [] = none
check_block i (x ∷ xs) =
    let rest = check_block (i + 1) xs in
    elim (violation x.op) [ some v ↦ some (i, v) | none ↦ rest ]

abbrev is_ja : Op → Bool
is_ja (ja l) = true
is_ja _ = false

unfoldable pub terminates : List Instr → Bool
terminates [] = false
terminates (i ∷ []) = is_ja i.op
terminates (i ∷ j ∷ is) = terminates (j ∷ is)

unfoldable pub match_error : Option BuildError → Match
match_error e = record {
  build = none;
  err = some (elim e [ none ↦ invalid_match | some x ↦ x ]);
  catch_all = false;
  mgmt = false;
  pass_only = false;
}

-- The filler in front of a block whose first instruction has its own symbol.
abbrev with_filler : List Instr → List Instr
with_filler [] = []
with_filler (i ∷ is) = elim i.symbol [ none ↦ i ∷ is | some l ↦ ins (mov_imm r0 0) ∷ i ∷ is ]

unfoldable pub finish_block : Target → Target → List Instr → List Instr
unfolding terminates with_entry
finish_block block next is =
    with_entry block
      (with_filler (if terminates is then is else is ++ (ins (ja (entry next)) ∷ [])))

unfoldable pub new_match : Option (MatchEnv → Built) → Match
unfolding finish_block
new_match none = record {
  build = none;
  err = some nil_build;
  catch_all = false;
  mgmt = false;
  pass_only = false;
}
new_match (some f) = record {
  build = some (λ block next hit.
      elim (f (record { next_block = next; hit = hit; prefix = block })) [
        | failed e ↦ failed e
        | built is ↦ built (finish_block block next is)
      ]);
  err = none;
  catch_all = false;
  mgmt = false;
  pass_only = false;
}

-- ---- filter.go ----

pub data FilterError : Type 0 where
  exception_catches_all no_build no_match : FilterError
  bad_match : BuildError → FilterError
  bad_block : ℕ → Violation → FilterError

abbrev any_catch_all : List Match → Bool
any_catch_all [] = false
any_catch_all (m ∷ ms) = m.catch_all || any_catch_all ms

abbrev pub first_bad : List Match → Option FilterError
first_bad [] = none
first_bad (m ∷ ms) =
    let rest = first_bad ms in
    elim m.err [
      | some e ↦ some (bad_match e)
      | none ↦ elim m.build [ none ↦ some no_build | some f ↦ rest ]
    ]

unfoldable pub validate_matches : List Match → List Match → Option FilterError
validate_matches exceptions matches =
    if any_catch_all exceptions
    then some exception_catches_all
    else first_bad (exceptions ++ matches)

pub data Assembled : Type 0 where
  code : List Instr → Assembled
  rejected : FilterError → Assembled

abbrev pub checked : List Instr → Option (ℕ × Violation) → Assembled
checked is (some (i, v)) = rejected (bad_block i v)
checked is none = code is

-- One call of `emit`: the block, built and checked. A match without a build func was refused before.
unfoldable pub emit : Match → Target → Target → Target → Assembled
emit m block next hit = elim m.build [
  | none ↦ rejected no_build
  | some f ↦ elim (f block next hit) [
    | failed e ↦ rejected (bad_match e)
    | built is ↦ checked is (check_block 0 is)
  ]
]

abbrev pub after : Assembled → Assembled → Assembled
after (rejected e) b = rejected e
after (code is) (rejected e) = rejected e
after (code is) (code js) = code (is ++ js)

abbrev pub is_nil : List Match → Bool
is_nil [] = true
is_nil (m ∷ ms) = false

-- A loop of `classifierBlocks`: block `i` is entered at `name i`; on no match it goes to the one after
-- it, the last one to `last`.
unfoldable pub emit_all : (ℕ → Target) → Target → Target → ℕ → List Match → Assembled
emit_all name last hit i [] = code []
emit_all name last hit i (m ∷ ms) =
    after (emit m (name i) (if is_nil ms then last else name (i + 1)) hit)
      (emit_all name last hit (i + 1) ms)

abbrev pub unless : Option FilterError → Assembled → Assembled
unless (some e) a = rejected e
unless none a = a

unfoldable pub classifier_blocks : List Match → List Match → Assembled
classifier_blocks exceptions matches =
    unless (validate_matches exceptions matches) (
      after (emit_all except (accept 0) pass 0 exceptions)
        (emit_all accept pass redirect 0 matches))

abbrev pub any_redirect : List Match → Bool
any_redirect [] = false
any_redirect (m ∷ ms) = not m.pass_only || any_redirect ms

-- What `newFilterProgram` assembles before it asks the kernel for maps: no match is an error, matches
-- that only pass make a program that passes everything, without blocks.
unfoldable pub program_blocks : List Match → List Match → Assembled
program_blocks exceptions [] = rejected no_match
program_blocks exceptions (m ∷ ms) =
    if any_redirect (m ∷ ms) then classifier_blocks exceptions (m ∷ ms) else code []
