-- ===== src/Redirect.antt =====
-- program.go: the redirect program, `Program` with its two maps, and the operations on them. The raw
-- instructions of `newRedirectProgram` run on a queue index as the XDP hook runs them. Maps, links and the
-- loading of programs are the kernel's: each call takes its answer, an errno or none, and a call that
-- fails changes nothing.
pub mod Route
use go_afxdp.Prelude.{
  ℕ, zero, suc, ◌+◌, ◌-◌, Bool, true, false, Option, none, some, List, [], ◌∷◌, ltb, ◌==◌,
  if◌then◌else◌, ℤ, pos, negsuc,
}

-- `qidconf_map` and `xsks_map`, both of `max_entries` entries: the enabled queues, and their sockets.
pub record Maps : Type 0 where
  pub max_entries : ℕ
  pub qidconf : ℕ → ℕ
  pub xsks : ℕ → Option ℕ

-- ---- the raw program ----

pub data MapName : Type 0 where
  qidconf_map xsks_map : MapName

-- A constant, or the descriptor of a map, which the kernel replaces by the map's address.
pub data Constant : Type 0 where
  const : ℤ → Constant
  fd_of : MapName → Constant

pub record RawIns : Type 0 where
  pub op : ℕ
  pub dst : ℕ
  pub src : ℕ
  pub offset : ℤ
  pub constant : Constant

-- A number, the context, an address on the stack, a map, an address of a map's value, or anything else:
-- what is not initialized, and what no instruction may be given.
pub data RawVal : Type 0 where
  num : ℕ → RawVal
  ctx : RawVal
  stack : ℤ → RawVal
  map_at : MapName → RawVal
  value : ℕ → RawVal
  other : RawVal

-- The registers, the words of the stack, by their distance below its top, and the socket that the frame is redirected to.
pub record RawState : Type 0 where
  pub regs : ℕ → RawVal
  pub words : ℕ → RawVal
  pub target : Option ℕ

pub data Verdict : Type 0 where
  aborted passed rejected : Verdict
  redirected : ℕ → Verdict

abbrev pub set_reg : ℕ → RawVal → RawState → RawState
set_reg r v s = record s { regs = λ i. if i == r then v else s.regs i }

-- The word at an address on the stack; nothing is above the frame pointer.
abbrev stack_word : RawState → ℤ → RawVal
stack_word s (negsuc k) = s.words k
stack_word s (pos n) = other

abbrev shift : ℤ → ℤ → ℤ
shift (pos zero) c = c
shift a (pos zero) = a
shift (negsuc a) (negsuc c) = negsuc (a + c + 1)
shift a c = pos 0

-- The context holds `rx_queue_index` at 16; the program reads no other word of it.
abbrev load_word : ℕ → RawState → RawVal → ℤ → RawVal
load_word q s ctx (pos o) = if o == 16 then num q else other
load_word q s (stack a) o = stack_word s (shift a o)
load_word q s (value n) (pos o) = if o == 0 then num n else other
load_word q s v o = other

abbrev put_word : ℤ → RawVal → RawState → RawState
put_word (negsuc k) v s = record s { words = λ i. if i == k then v else s.words i }
put_word (pos n) v s = s

abbrev store_word : RawVal → ℤ → RawVal → RawState → RawState
store_word (stack a) o v s = put_word (shift a o) v s
store_word _ o v s = s

abbrev is_zero : RawVal → Bool
is_zero (num n) = n == 0
is_zero _ = false

-- The word that a key pointer points to.
abbrev key : RawState → RawVal → RawVal
key s (stack a) = stack_word s a
key s _ = other

abbrev pub lookup : Maps → ℕ → RawVal
lookup m q = if ltb q m.max_entries then value (m.qidconf q) else num 0

abbrev pub socket_at : Maps → ℕ → Option ℕ
socket_at m q = if ltb q m.max_entries then m.xsks q else none

-- `bpf_map_lookup_elem` (1), and `bpf_redirect_map` (51), which returns its flags where there is no entry.
abbrev pub redirect_to : Option ℕ → RawState → RawState
redirect_to none s = set_reg 0 (s.regs 3) s
redirect_to (some fd) s = record (set_reg 0 (num 4) s) { target = some fd }

-- The helpers get the map in R1; the first a pointer to the key in R2, and the second the key itself.
abbrev lookup_in : Maps → RawVal → RawVal → RawVal
lookup_in m (map_at qidconf_map) (num q) = lookup m q
lookup_in m _ _ = other

abbrev socket_in : Maps → RawVal → RawVal → Option ℕ
socket_in m (map_at xsks_map) (num q) = socket_at m q
socket_in m _ _ = none

abbrev helper : Maps → ℕ → RawState → RawState
helper m n s =
    if n == 1
    then set_reg 0 (lookup_in m (s.regs 1) (key s (s.regs 2))) s
    else if n == 51
    then redirect_to (socket_in m (s.regs 1) (s.regs 2)) s
    else set_reg 0 other s

abbrev add_const : RawVal → ℤ → RawVal
add_const (stack a) c = stack (shift a c)
add_const v c = other

abbrev nat : ℤ → ℕ
nat (pos n) = n
nat (negsuc n) = 0

abbrev plain : Constant → ℤ
plain (const c) = c
plain (fd_of _) = pos 0

abbrev loaded : Constant → RawVal
loaded (const c) = num (nat c)
loaded (fd_of m) = map_at m

-- The actions of XDP: 0 aborts, 2 passes to the kernel, and 4 redirects, here where a helper set a target.
abbrev action : Option ℕ → ℕ → Verdict
action t n =
    if n == 0
    then aborted
    else if n == 2
    then passed
    else elim t [ some fd ↦ if n == 4 then redirected fd else rejected | none ↦ rejected ]

abbrev result : Option ℕ → RawVal → Verdict
result t (num n) = action t n
result t _ = rejected

-- The effect of an instruction that does not branch.
abbrev pub raw_step : Maps → ℕ → RawIns → RawState → RawState
raw_step m q i s =
    if i.op == 97
    then set_reg i.dst (load_word q s (s.regs i.src) i.offset) s
    else if i.op == 99
    then store_word (s.regs i.dst) i.offset (s.regs i.src) s
    else if i.op == 191
    then set_reg i.dst (s.regs i.src) s
    else if i.op == 7
    then set_reg i.dst (add_const (s.regs i.dst) (plain i.constant)) s
    else if i.op == 24
    then set_reg i.dst (loaded i.constant) s
    else if i.op == 180
    then set_reg i.dst (num (nat (plain i.constant))) s
    else if i.op == 133
    then helper m (nat (plain i.constant)) s
    else s

-- The slots that an instruction takes: a jump's offset counts a 64-bit load as two.
abbrev slots : RawIns → ℕ
slots i = if i.op == 24 then 2 else 1

-- The run, with `skip` slots to jump over first.
unfoldable pub raw_exec : Maps → ℕ → List RawIns → ℕ → RawState → Verdict
raw_exec m q [] skip s = rejected
raw_exec m q (i ∷ is) (suc skip) s = raw_exec m q is (suc skip - slots i) s
raw_exec m q (i ∷ is) zero s =
    let taken = raw_exec m q is (nat i.offset) s in
    let on = raw_exec m q is 0 (raw_step m q i s) in
    if i.op == 149
    then result s.target (s.regs 0)
    else if i.op == 21
    then (if is_zero (s.regs i.dst) then taken else on)
    else on

abbrev raw : ℕ → ℕ → ℕ → ℤ → Constant → RawIns
raw op dst src offset constant = record {
  op = op;
  dst = dst;
  src = src;
  offset = offset;
  constant = constant;
}

-- The instructions of `newRedirectProgram`.
abbrev pub redirect_program : List RawIns
redirect_program =
    raw 97 1 1 (pos 16) (const (pos 0))
    ∷ raw 99 10 1 (negsuc 3) (const (pos 0))
    ∷ raw 191 2 10 (pos 0) (const (pos 0))
    ∷ raw 7 2 0 (pos 0) (const (negsuc 3))
    ∷ raw 24 1 1 (pos 0) (fd_of qidconf_map)
    ∷ raw 133 0 0 (pos 0) (const (pos 1))
    ∷ raw 191 1 0 (pos 0) (const (pos 0))
    ∷ raw 180 0 0 (pos 0) (const (pos 0))
    ∷ raw 21 1 0 (pos 8) (const (pos 0))
    ∷ raw 180 0 0 (pos 0) (const (pos 2))
    ∷ raw 97 1 1 (pos 0) (const (pos 0))
    ∷ raw 21 1 0 (pos 5) (const (pos 0))
    ∷ raw 24 1 1 (pos 0) (fd_of xsks_map)
    ∷ raw 97 2 10 (negsuc 3) (const (pos 0))
    ∷ raw 180 3 0 (pos 0) (const (pos 0))
    ∷ raw 133 0 0 (pos 0) (const (pos 51))
    ∷ raw 149 0 0 (pos 0) (const (pos 0))
    ∷ []

-- At the entry R1 is the context and R10 the frame pointer.
abbrev pub entry_state : RawState
entry_state = record {
  regs = λ r. if r == 10 then stack (pos 0) else if r == 1 then ctx else other;
  words = λ k. other;
  target = none;
}

unfoldable pub verdict : Maps → ℕ → Verdict
verdict m q = raw_exec m q redirect_program 0 entry_state
