-- ===== src/Ebpf.antt =====
-- pkg/util/ebpf/device.go: editing the device filter program of a cgroup.
-- `asm.Instruction` and `asm.OpCode` belong to cilium/ebpf: an instruction is the record of the
-- fields that the code reads and writes, and an opcode is one of those that the code names or
-- another number.
pub mod Machine
pub mod Block
pub mod Groups
pub mod Update
pub mod Filter
pub mod Program
mod Tests
use Prim.Native.Nat.{bit_or}
use Prim.Native.Char.{code}
use Prim.Native.String
use mathlib.Core.List.{reverse, flatten}
use device_mounter.Base.{
  ℕ, zero, suc, ◌+◌, ◌-◌, String, Bool, true, false, not, ◌&&◌, ◌||◌, Option, none, some, List, [],
  ◌∷◌, ◌++◌, ltb, ◌==◌, if◌then◌else◌, length, get_elem?, set,
}
use device_mounter.Base.Int.{ℤ, pos, eqz, is_nonneg, exceeds, int32}

pub data OpCode : Type 0 where
  jne_imm jne_reg mov32_imm mov32_reg and32_imm exit : OpCode
  other : ℕ → OpCode

pub record Instruction : Type 0 where
  pub op : OpCode
  pub dst : ℕ
  pub src : ℕ
  pub offset : ℕ
  pub constant : ℤ

-- `devices.Rule`: the type is a character, a negative number stands for every number.
pub record Rule : Type 0 where
  pub type : ℕ
  pub major : ℤ
  pub minor : ℤ
  pub permissions : String
  pub allow : Bool

pub data RuleError : Type 0 where
  invalid_type : ℕ → RuleError
  invalid_major invalid_minor : ℤ → RuleError
  unknown_access : ℕ → RuleError

pub data Checked (A : Type 0) : Type 0 where
  ok : A → Checked A
  err : RuleError → Checked A

abbrev pub is_exit : Instruction → Bool
is_exit i = elim (i.op) [ exit ↦ true | _ ↦ false ]

abbrev pub is_jne_imm : Instruction → Bool
is_jne_imm i = elim (i.op) [ jne_imm ↦ true | _ ↦ false ]

-- The tests of `hasEndExit` on the reversed program: `insts[len(insts) - 1 - k]` is the element
-- `k`, and `none` is the panic of an index out of range.
unfoldable pub end_exit : List Instruction → Option Bool
end_exit reversed = elim (get_elem? reversed 0) [
  | none ↦ none
  | some last ↦ if not (is_exit last) then some false else elim (get_elem? reversed 1) [
    | none ↦ none
    | some value ↦
        if not (value.dst == 0) && not (eqz value.constant (pos 0))
        then some false
        else elim (get_elem? reversed 2) [ none ↦ none | some before ↦ some (is_exit before) ]
  ]
]

-- `hasEndExit`
unfoldable pub has_end_exit : List Instruction → Option Bool
unfolding end_exit
has_end_exit insts = end_exit (reverse insts)

-- `instructions[0 : len(instructions) - 2]`
abbrev pub drop_last_two : List Instruction → List Instruction
drop_last_two [] = []
drop_last_two (a ∷ []) = []
drop_last_two (a ∷ b ∷ []) = []
drop_last_two (a ∷ b ∷ c ∷ rest) = a ∷ drop_last_two (b ∷ c ∷ rest)

-- The outcome of `LoadInstructions`.
pub data Loaded : Type 0 where
  loaded : List Instruction → Loaded
  empty_program panic : Loaded

-- `LoadInstructions`; a nil slice is `none`. Its length is 0, so the test is `inst == nil`.
unfoldable pub load_instructions : Option (List Instruction) → Loaded
load_instructions none = empty_program
load_instructions (some insts) = elim (has_end_exit insts) [
  | none ↦ panic
  | some true ↦ loaded (drop_last_two insts)
  | some false ↦ loaded insts
]

abbrev pub mov32 : ℕ → ℤ → Instruction
mov32 r c = record { op = mov32_imm; dst = r; src = 0; offset = 0; constant = c }

abbrev pub return_inst : Instruction
return_inst = record { op = exit; dst = 0; src = 0; offset = 0; constant = pos 0 }

abbrev pub verdict : Bool → ℤ
verdict accept = pos (if accept then 1 else 0)

unfoldable pub accept_block : Bool → List Instruction
accept_block accept = mov32 0 (verdict accept) ∷ return_inst ∷ []

-- `Finalize`; `none` is the panic of `hasEndExit`.
unfoldable pub finalize : List Instruction → Option (List Instruction)
finalize insts = elim (has_end_exit insts) [
  | none ↦ none
  | some true ↦ some insts
  | some false ↦ some (insts ++ mov32 0 (pos 0) ∷ return_inst ∷ [])
]

-- The loop of `groups`: `tmp` is cut off behind each exit.
groups_from : List Instruction → List Instruction → List (List Instruction)
groups_from [] [] = []
groups_from (t ∷ tmp) [] = (t ∷ tmp) ∷ []
groups_from tmp (i ∷ insts) =
    let group = tmp ++ i ∷ [] in
    let cut = groups_from [] insts in
    let on = groups_from group insts in if is_exit i then group ∷ cut else on

unfoldable pub groups : List Instruction → List (List Instruction)
unfolding groups_from
groups = groups_from []

-- `unix.BPF_DEVCG_DEV_CHAR` and `unix.BPF_DEVCG_DEV_BLOCK`
abbrev pub bpf_type : ℕ → Option ℕ
bpf_type type = if type == b'c' then some 2 else if type == b'b' then some 1 else none

-- The loop over `rule.Permissions`: READ is 2, WRITE is 4, MKNOD is 1.
abbrev pub access_loop : String → ℕ → Checked ℕ
access_loop String.[] acc = ok acc
access_loop (String.◌∷◌ c rest) acc =
    let r = code c in
    let read = access_loop rest (bit_or acc 2) in
    let write = access_loop rest (bit_or acc 4) in
    let mknod = access_loop rest (bit_or acc 1) in
    if r == b'r'
    then read
    else if r == b'w'
    then write
    else if r == b'm'
    then mknod
    else err (unknown_access r)

abbrev pub compare_with : ℕ → ℤ → Instruction → Bool
compare_with reg c i = is_jne_imm i && i.dst == reg && eqz i.constant c

-- The inner loop of the search: the three flags, at most one set by each instruction.
scan_group : ℕ → ℤ → ℤ → Bool × Bool × Bool → List Instruction → Bool
scan_group type major minor (t, ma, mi) [] = t && ma && mi
scan_group type major minor (t, ma, mi) (i ∷ group) =
    scan_group type major minor
      (if not t && compare_with 2 (pos type) i
        then (true, ma, mi)
        else if not ma && compare_with 4 major i
        then (t, true, mi)
        else if not mi && compare_with 5 minor i
        then (t, ma, true)
        else (t, ma, mi))
      group

unfoldable pub has_rule : ℕ → Rule → List Instruction → Bool
unfolding scan_group
has_rule type rule = scan_group type rule.major rule.minor (false, false, false)

-- The search from the last group to the first: the index of the last group that has the rule.
unfoldable pub find_group : ℕ → Rule → List (List Instruction) → Option ℕ
find_group type rule [] = none
find_group type rule (g ∷ gs) = elim (find_group type rule gs) [
  | some i ↦ some (suc i)
  | none ↦ if has_rule type rule g then some 0 else none
]

-- The instructions for one rule before their offsets are set.
abbrev pub checks : ℕ → ℕ → Rule → List Instruction
checks type access rule =
    record { op = jne_imm; dst = 2; src = 0; offset = 0; constant = pos type }
      ∷ (if not (access == 7)
          then record { op = mov32_reg; dst = 6; src = 3; offset = 0; constant = pos 0 }
            ∷ record { op = and32_imm; dst = 6; src = 0; offset = 0; constant = pos access }
            ∷ record { op = jne_reg; dst = 6; src = 3; offset = 0; constant = pos 0 }
            ∷ []
          else [])
    ++ ((if is_nonneg rule.major
          then record { op = jne_imm; dst = 4; src = 0; offset = 0; constant = int32 rule.major }
            ∷ []
          else [])
        ++ (if is_nonneg rule.minor
            then record { op = jne_imm; dst = 5; src = 0; offset = 0; constant = int32 rule.minor }
              ∷ []
            else []))

-- `insert[i].Offset = int16(len(insert) - 1 - i)` on the jumps.
abbrev pub set_offsets : List Instruction → List Instruction
set_offsets [] = []
set_offsets (i ∷ rest) =
    elim (i.op) [
      | jne_imm ↦ record i { offset = length rest }
      | jne_reg ↦ record i { offset = length rest }
      | _ ↦ i
    ]
    ∷ set_offsets rest

unfoldable pub insert_block : ℕ → ℕ → Rule → List Instruction
unfolding accept_block
insert_block type access rule = set_offsets (checks type access rule ++ accept_block rule.allow)

-- The update of the groups: a new group at the end, or one put in the place of an old one.
unfoldable pub place :
    Option ℕ → List Instruction → List (List Instruction) → List (List Instruction)
place none block gs = gs ++ block ∷ []
place (some i) block gs = elim (get_elem? gs i) [
  | none ↦ gs ++ block ∷ []
  | some old ↦ if ltb (length block) (length old) then gs ++ block ∷ [] else set gs i block
]

-- `AppendRule` behind its checks.
unfoldable pub append_checked : ℕ → ℕ → Rule → List Instruction → List Instruction
unfolding groups find_group insert_block place
append_checked type access rule insts =
    let gs = groups insts in
    flatten (place (find_group type rule gs) (insert_block type access rule) gs)

-- The checks of `AppendRule`: the device type and the access bits, or the first error. The
-- message of the third error prints the major number.
unfoldable pub check_rule : Rule → Checked (ℕ × ℕ)
check_rule rule = elim (bpf_type rule.type) [
  | none ↦ err (invalid_type rule.type)
  | some type ↦
      if exceeds rule.major 4294967295
      then err (invalid_major rule.major)
      else if exceeds rule.minor 4294967295
      then err (invalid_minor rule.major)
      else elim (access_loop rule.permissions 0) [ err e ↦ err e | ok access ↦ ok (type, access) ]
]

-- `AppendRule`
unfoldable pub append_rule : Rule → List Instruction → Checked (List Instruction)
append_rule rule insts = elim (check_rule rule) [
  | err e ↦ err e
  | ok (type, access) ↦ ok (append_checked type access rule insts)
]
