-- ===== src/Ebpf/Machine.antt =====
-- The instructions of the device filter run as the kernel documents them: a conditional jump
-- compares 64-bit values with the sign-extended constant and skips `offset` instructions, a
-- 32-bit move or conjunction clears the upper half, and `exit` returns R0. What another opcode does
-- to the registers (the loads and the shift of a filter's prologue) is a parameter. Running off the
-- end gives `none`.
use Prim.Native.Nat.{bit_and}
use device_mounter.Base.{
  ℕ, zero, suc, ◌%◌, Bool, true, false, All, arith, ◌∙◌, Option, none, some, List, [], ◌∷◌, ◌++◌,
  ◌≡◌, refl, ◌==◌, if◌then◌else◌, length,
}
use device_mounter.Base.Int.{pos, eqz, uint32}
use device_mounter.Ebpf.{
  jne_imm, jne_reg, mov32_imm, mov32_reg, and32_imm, exit, other, Instruction,
}

abbrev pub Regs : Type 0
Regs = ℕ → ℕ

abbrev pub write : Regs → ℕ → ℕ → Regs
write regs r v q = if q == r then v else regs q

-- How many of the next instructions are skipped, the registers after, or the value returned.
pub data Effect : Type 0 where
  next : ℕ → Regs → Effect
  return : ℕ → Effect

-- Neither a jump nor an exit, nor one of the arithmetic instructions of a block.
abbrev pub is_other : Instruction → Bool
is_other i = elim (i.op) [ other k ↦ true | _ ↦ false ]

module _ (load : Instruction → Regs → Regs) where
  unfoldable pub step : Instruction → Regs → Effect
  unfolding uint32
  step i regs = elim (i.op) [
    | jne_imm ↦ next (if eqz (pos (regs i.dst)) i.constant then 0 else i.offset) regs
    | jne_reg ↦ next (if regs i.dst == regs i.src then 0 else i.offset) regs
    | mov32_imm ↦ next 0 (write regs i.dst (uint32 i.constant))
    | mov32_reg ↦ next 0 (write regs i.dst (regs i.src % 4294967296))
    | and32_imm ↦ next 0 (write regs i.dst (bit_and (regs i.dst % 4294967296) (uint32 i.constant)))
    | exit ↦ return (regs 0)
    | other k ↦ next 0 (load i regs)
  ]

  -- A run that first skips `skip` instructions. Every jump goes forward.
  unfoldable pub run_from : ℕ → List Instruction → Regs → Option ℕ
  run_from skip [] regs = none
  run_from (suc skip) (i ∷ insts) regs = run_from skip insts regs
  run_from zero (i ∷ insts) regs = elim (step i regs) [
    | next skip regs' ↦ run_from skip insts regs'
    | return v ↦ some v
  ]

  abbrev pub run : List Instruction → Regs → Option ℕ
  run = run_from 0

  -- A jump over a whole block goes on behind it.
  pub run_from-append :
      (block insts : List Instruction) (regs : Regs)
      → run_from (length block) (block ++ insts) regs ≡ run insts regs
  unfolding run_from
  run_from-append [] insts regs = refl
  run_from-append (i ∷ block) insts regs = run_from-append block insts regs

  -- The registers behind instructions that are neither jumps nor exits.
  abbrev pub loads : List Instruction → Regs → Regs
  loads [] regs = regs
  loads (i ∷ insts) regs = loads insts (load i regs)

  run_from-other :
      (i : Instruction) (insts : List Instruction) (regs : Regs)
      → is_other i ≡ true
      → run (i ∷ insts) regs ≡ run insts (load i regs)
  unfolding step run_from
  run_from-other i insts regs h = ground arith

  pub run-prologue :
      (prologue insts : List Instruction) (regs : Regs)
      → All (λ i. is_other i ≡ true) prologue
      → run (prologue ++ insts) regs ≡ run insts (loads prologue regs)
  unfolding step run_from
  run-prologue [] insts regs h = refl
  run-prologue (i ∷ prologue) insts regs h =
      run_from-other i (prologue ++ insts) regs h.0 ∙ run-prologue prologue insts (load i regs) h.1
