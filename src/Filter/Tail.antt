-- ===== src/Filter/Tail.antt =====
-- filter.go, `newFilterProgram`: the code around the classification blocks, and the run of the whole
-- program on a frame that arrives on a queue. The prologue and the tails work on more than a block does:
-- the XDP context, the stack, and the two maps.
use go_afxdp.Prelude.{
  ℕ, zero, Bool, false, Option, none, some, List, [], ◌∷◌, ltb, ◌==◌, if◌then◌else◌, length, ℤ, pos,
  negsuc,
}
use go_afxdp.Ebpf.{
  Reg, r0, r1, r2, r3, r4, r5, r6, r7, r8, r9, r10, reg_eq, Target, pass, redirect, entry, Instr,
  Val, Regs, Outcome, goto, fell, Endian, exec,
}
use go_afxdp.Redirect.{
  Maps, MapName, qidconf_map, xsks_map, Verdict, aborted, passed, rejected, redirected, socket_at,
}

pub data Value : Type 0 where
  num pkt : ℕ → Value
  ctx : Value
  stack : ℤ → Value
  map_at : MapName → Value
  value : ℕ → Value
  other : Value

pub data Helper : Type 0 where
  map_lookup_elem redirect_map : Helper

-- The instructions outside the blocks, as filter.go writes them; loads and stores are of words.
pub data TailOp : Type 0 where
  load_mem : Reg → Reg → ℕ → TailOp
  store_mem : Reg → ℤ → Reg → TailOp
  mov_reg : Reg → Reg → TailOp
  mov_imm : Reg → ℕ → TailOp
  add_imm : Reg → ℤ → TailOp
  load_map_ptr : Reg → MapName → TailOp
  call : Helper → TailOp
  jeq_imm : Reg → ℕ → Target → TailOp
  exit : TailOp

-- The registers, the word of the stack at -4, and the socket that a helper chose.
pub record State : Type 0 where
  pub regs : Reg → Value
  pub slot : Value
  pub target : Option ℕ

abbrev pub set_reg : Reg → Value → State → State
set_reg r v s = record s { regs = λ i. if reg_eq i r then v else s.regs i }

-- R6 = data_end, R7 = data, R8 = rx_queue_index.
abbrev pub prologue : List TailOp
prologue = load_mem r6 r1 4 ∷ load_mem r7 r1 0 ∷ load_mem r8 r1 16 ∷ []

-- The block "pass".
abbrev pub pass_tail : List TailOp
pass_tail = mov_imm r0 2 ∷ exit ∷ []

-- The block "redirect".
abbrev pub redirect_tail : List TailOp
redirect_tail =
    store_mem r10 (negsuc 3) r8
    ∷ mov_reg r2 r10
    ∷ add_imm r2 (negsuc 3)
    ∷ load_map_ptr r1 qidconf_map
    ∷ call map_lookup_elem
    ∷ jeq_imm r0 0 pass
    ∷ load_mem r1 r0 0
    ∷ jeq_imm r1 0 pass
    ∷ load_map_ptr r1 xsks_map
    ∷ mov_reg r2 r8
    ∷ mov_imm r3 0
    ∷ call redirect_map
    ∷ exit
    ∷ []

abbrev is_num : Value → ℕ → Bool
is_num (num n) k = n == k
is_num _ k = false

-- The answers of the helpers: an address of the queue's entry, or null beyond the map; and the action,
-- which is the flags where there is no entry.
abbrev pub entry_of : Maps → MapName → Value → Value
entry_of m qidconf_map (num q) = if ltb q m.max_entries then value (m.qidconf q) else num 0
entry_of m _ _ = num 0

abbrev pub found : Maps → Value → Value → Value
found m (map_at n) key = entry_of m n key
found m _ key = num 0

abbrev pub chosen : Maps → Value → Value → Option ℕ
chosen m (map_at xsks_map) (num q) = socket_at m q
chosen m _ _ = none

abbrev pub redirect_to : Option ℕ → State → State
redirect_to none s = set_reg r0 (s.regs r3) s
redirect_to (some fd) s = record (set_reg r0 (num 4) s) { target = some fd }

abbrev minus_four : ℤ → Bool
minus_four (negsuc k) = k == 3
minus_four (pos k) = false

-- The stack word that a pointer points to, where it is the one that the program writes.
abbrev pointed : State → Value → Value
pointed s (stack off) = if minus_four off then s.slot else other
pointed s _ = other

abbrev add_const : Value → ℤ → Value
add_const (stack (pos zero)) c = stack c
add_const v c = other

abbrev action : Option ℕ → Value → Verdict
action t (num n) =
    if n == 0
    then aborted
    else if n == 2
    then passed
    else elim t [ some fd ↦ if n == 4 then redirected fd else rejected | none ↦ rejected ]
action t _ = rejected

module _ (m : Maps) (q n : ℕ) where
  -- A word of the context, which names the frame of `n` bytes and the queue, or of a map's value.
  abbrev read : Value → ℕ → Value
  read ctx off =
      if off == 0 then pkt 0 else if off == 4 then pkt n else if off == 16 then num q else other
  read (value v) off = if off == 0 then num v else other
  read v off = other

  abbrev write : State → Value → ℤ → Value → State
  write s (stack (pos zero)) off v = if minus_four off then record s { slot = v } else s
  write s _ off v = s

  -- The effect of an instruction that goes on to the next one.
  abbrev pub effect : TailOp → State → State
  effect (load_mem d r off) s = set_reg d (read (s.regs r) off) s
  effect (store_mem d off r) s = write s (s.regs d) off (s.regs r)
  effect (mov_reg d r) s = set_reg d (s.regs r) s
  effect (mov_imm d k) s = set_reg d (num k) s
  effect (add_imm d k) s = set_reg d (add_const (s.regs d) k) s
  effect (load_map_ptr d x) s = set_reg d (map_at x) s
  effect (call map_lookup_elem) s = set_reg r0 (found m (s.regs r1) (pointed s (s.regs r2))) s
  effect (call redirect_map) s = redirect_to (chosen m (s.regs r1) (s.regs r2)) s
  effect (jeq_imm d k t) s = s
  effect exit s = s

  abbrev pub effects : List TailOp → State → State
  effects [] s = s
  effects (o ∷ os) s = effects os (effect o s)

  -- A run of a tail; the only label that it jumps to is "pass".
  unfoldable pub run_tail : (State → Verdict) → List TailOp → State → Verdict
  run_tail at_pass [] s = rejected
  run_tail at_pass (o ∷ os) s =
      let on = run_tail at_pass os (effect o s) in
      elim o [
        | exit ↦ action s.target (s.regs r0)
        | jeq_imm d k t ↦ if is_num (s.regs d) k then at_pass s else on
        | _ ↦ on
      ]

  unfoldable pub at_pass : State → Verdict
  unfolding run_tail
  at_pass s = run_tail (λ _. rejected) pass_tail s

  unfoldable pub at_redirect : State → Verdict
  unfolding run_tail at_pass
  at_redirect s = run_tail at_pass redirect_tail s

-- At the entry R1 is the context and R10 the frame pointer.
abbrev pub at_entry : State
at_entry = record {
  regs = λ r. if reg_eq r r1 then ctx else if reg_eq r r10 then stack (pos 0) else other;
  slot = other;
  target = none;
}

-- What a block sees of a value, and what it leaves behind.
abbrev shown : Value → Val
shown (num k) = Val.num k
shown (pkt k) = Val.pkt k
shown _ = Val.other

abbrev pub kept : Val → Value
kept (Val.num k) = num k
kept (Val.pkt k) = pkt k
kept Val.other = other

abbrev pub to_regs : State → Regs
to_regs s = record {
  v0 = shown (s.regs r0);
  v1 = shown (s.regs r1);
  v2 = shown (s.regs r2);
  v3 = shown (s.regs r3);
  v4 = shown (s.regs r4);
  v5 = shown (s.regs r5);
  v6 = shown (s.regs r6);
  v7 = shown (s.regs r7);
  v8 = shown (s.regs r8);
  v9 = shown (s.regs r9);
  v10 = shown (s.regs r10);
}

-- The state after the blocks; R10 is read-only.
abbrev pub of_regs : Regs → State
of_regs t = record {
  regs = λ r. elim r [
    | r0 ↦ kept t.v0
    | r1 ↦ kept t.v1
    | r2 ↦ kept t.v2
    | r3 ↦ kept t.v3
    | r4 ↦ kept t.v4
    | r5 ↦ kept t.v5
    | r6 ↦ kept t.v6
    | r7 ↦ kept t.v7
    | r8 ↦ kept t.v8
    | r9 ↦ kept t.v9
    | r10 ↦ stack (pos 0)
  ];
  slot = other;
  target = none;
}

abbrev pub go_on : Maps → ℕ → ℕ → Outcome → Verdict
go_on m q n (goto (entry pass) t) = at_pass m q n (of_regs t)
go_on m q n (goto (entry redirect) t) = at_redirect m q n (of_regs t)
go_on m q n (fell t) = at_pass m q n (of_regs t)
go_on m q n _ = rejected

-- The program of `newFilterProgram`: the prologue, the blocks, and then the tails.
unfoldable pub filter_program : Endian → Maps → ℕ → List ℕ → List Instr → Verdict
unfolding exec at_pass at_redirect
filter_program host m q frame blocks =
    go_on m q (length frame)
      (exec host frame blocks none (to_regs (effects m q (length frame) prologue at_entry)))
