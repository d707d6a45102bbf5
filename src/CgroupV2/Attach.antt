-- ===== src/CgroupV2/Attach.antt =====
-- pkg/util/cgroupv2.go: findAttachedCgroupDeviceFilters, loadAttachCgroupDeviceFilter and the rollback
-- that it returns. The kernel and cilium's ebpf library are a parameter. None is a panic.
pub mod Exposed
pub mod Replaced
use device_mounter.Base.{
  ℕ, zero, suc, String, ◌<>◌, Bool, true, false, not, ◌==◌, Option, none, some, List, [], ◌∷◌, ◌++◌,
  if◌then◌else◌,
}
use device_mounter.Ebpf.{Instruction, Rule, RuleError}
use device_mounter.Ebpf.Program.{Edited, edited, rejected, no_program, crashed, edit_program}
use device_mounter.Api.{GoError, other_error, message, Result, ok, err}

-- How a query of the attached programs for a number of entries ends.
pub data Query : Type 0 where
  -- The identifiers.
  attached_ids : List ℕ → Query
  -- `ENOSPC`, with the number of programs.
  no_space : ℕ → Query
  failed : GoError → Query

-- How the program of an identifier is opened.
pub data Opened : Type 0 where
  program : ℕ → Opened
  -- An error for which `errors.Is(err, os.ErrPermission)` holds.
  denied : Opened
  failed : GoError → Opened

-- The kernel in a state `K`; a program is a number.
pub record Kernel (K : Type 0) : Type 0 where
  pub query : K → ℕ → Query
  pub open_program : K → ℕ → Opened
  -- `Info()` and `Instructions()` of a program.
  pub instructions : K → ℕ → Result (List Instruction)
  pub deep_equal : List Instruction → List Instruction → Bool
  pub show_rule_error : RuleError → String
  pub have_prog_replace : Bool
  -- `ebpf.NewProgram`.
  pub new_program : K → List Instruction → Result ℕ × K
  -- `link.RawAttachProgram` of a program, perhaps in place of another, and `link.RawDetachProgram`.
  pub attach : K → ℕ → Option ℕ → Option GoError × K
  pub detach : K → ℕ → Option GoError × K

-- The function returned beside the error.
pub data Rollback : Type 0 where
  nil_closer : Rollback
  -- Attach the old program in place of the new one.
  replace_back : ℕ → ℕ → Rollback
  -- Detach the new program.
  detach_new : ℕ → Option GoError → Rollback

-- The rollback, the error and the kernel.
pub record Loading (K : Type 0) : Type 0 where
  pub rollback : Rollback
  pub error : Option GoError
  pub kernel : K

-- `fmt.Errorf` with an error behind a text.
abbrev wrapped : String → GoError → GoError
wrapped text e = other_error (text <> message e)

module _ {K : Type 0} (kernel : Kernel K) where
  abbrev pub cons_opened : Opened → Result (List ℕ) → Result (List ℕ)
  cons_opened denied rest = rest
  cons_opened (failed e) rest = err (wrapped "cannot fetch program from id: " e)
  cons_opened (program p) (err e) = err e
  cons_opened (program p) (ok programs) = ok (p ∷ programs)

  -- The loop that opens the programs.
  unfoldable pub open_programs : K → List ℕ → Result (List ℕ)
  open_programs k [] = ok []
  open_programs k (id ∷ ids) = cons_opened (kernel.open_program k id) (open_programs k ids)

  abbrev pub on_query : K → (ℕ → Result (List ℕ)) → Query → Result (List ℕ)
  on_query k retry (attached_ids ids) = open_programs k ids
  on_query k retry (no_space size) = retry size
  on_query k retry (failed e) = err (wrapped "bpf_prog_query(BPF_CGROUP_DEVICE) failed: " e)

  -- The loop of `findAttachedCgroupDeviceFilters`, with the tries that are left.
  unfoldable pub find_attached : K → ℕ → ℕ → Result (List ℕ)
  unfolding open_programs
  find_attached k zero size =
      err (other_error "could not get complete list of CGROUP_DEVICE programs")
  find_attached k (suc retries) size = on_query k (find_attached k retries) (kernel.query k size)

  -- `findAttachedCgroupDeviceFilters`
  unfoldable pub find_attached_cgroup_device_filters : K → Result (List ℕ)
  unfolding find_attached
  find_attached_cgroup_device_filters k = find_attached k 10 64

  abbrev pub stop : GoError → K → Option (Loading K)
  stop e k = some (record { rollback = nil_closer; error = some e; kernel = k })

  -- After the old program was to be detached.
  abbrev pub on_detached : ℕ → Option GoError × K → Option (Loading K)
  on_detached new (none, k) =
      some (record { rollback = detach_new new none; error = none; kernel = k })
  on_detached new (some e, k) = some (record {
    rollback = detach_new new (some e);
    error =
        some
          (wrapped "failed to call BPF_PROG_DETACH (BPF_CGROUP_DEVICE) on old filter program: " e);
    kernel = k;
  })

  -- After the new program was to be attached.
  abbrev pub on_attached : ℕ → ℕ → Bool → Option GoError × K → Option (Loading K)
  on_attached old new replaces (some e, k) =
      stop (wrapped "failed to call BPF_PROG_ATTACH (BPF_CGROUP_DEVICE, BPF_F_ALLOW_MULTI): " e) k
  on_attached old new true (none, k) =
      some (record { rollback = replace_back old new; error = none; kernel = k })
  on_attached old new false (none, k) = on_detached new (kernel.detach k old)

  abbrev pub replaced : ℕ → Bool → Option ℕ
  replaced old true = some old
  replaced old false = none

  abbrev pub on_program : ℕ → Result ℕ × K → Option (Loading K)
  on_program old (err e, k) = stop e k
  on_program old (ok new, k) =
      on_attached old new kernel.have_prog_replace
        (kernel.attach k new (replaced old kernel.have_prog_replace))

  abbrev pub on_edited : K → ℕ → List Instruction → Edited → Option (Loading K)
  on_edited k old current (edited new) =
      if kernel.deep_equal new current
      then some (record { rollback = nil_closer; error = none; kernel = k })
      else on_program old (kernel.new_program k new)
  on_edited k old current (rejected e) = stop (other_error (kernel.show_rule_error e)) k
  on_edited k old current no_program = stop (other_error "asm.Instructions cannot be empty") k
  on_edited k old current crashed = none

  abbrev pub on_instructions :
      K → ℕ → List (Option Rule) → Result (List Instruction) → Option (Loading K)
  on_instructions k old rules (err e) = stop e k
  on_instructions k old rules (ok current) =
      on_edited k old current (edit_program rules (some current))

  abbrev pub on_programs : K → List (Option Rule) → Result (List ℕ) → Option (Loading K)
  on_programs k rules (err e) = stop e k
  on_programs k rules (ok []) = stop (other_error "Device rule ebpf program not found") k
  on_programs k rules (ok (old ∷ [])) = on_instructions k old rules (kernel.instructions k old)
  on_programs k rules (ok (old ∷ second ∷ rest)) =
      stop (other_error "Multiple ebpf programs detected, unable to set device permissions") k

  -- `loadAttachCgroupDeviceFilter`
  unfoldable pub load_attach_cgroup_device_filter : K → List (Option Rule) → Option (Loading K)
  unfolding find_attached_cgroup_device_filters
  load_attach_cgroup_device_filter k rules =
      on_programs k rules (find_attached_cgroup_device_filters k)

  -- What `%w` makes of the error of the load that the function closes over, or of nil.
  abbrev outer_text : Option GoError → String
  outer_text none = "%!w(<nil>)"
  outer_text (some e) = message e

  -- The error of the rollback itself is only logged.
  abbrev pub rollback_failed : String → Option GoError → Option GoError × K → Option GoError × K
  rollback_failed action outer (none, k) = (none, k)
  rollback_failed action outer (some e, k) = (
    some (
        other_error (
          "failed to call rollback "
          <> (action <> (" (BPF_CGROUP_DEVICE): " <> outer_text outer)))),
    k,
  )

  -- The returned function.
  unfoldable pub roll_back : Rollback → K → Option GoError × K
  roll_back nil_closer k = (none, k)
  roll_back (replace_back old new) k =
      rollback_failed "BPF_F_REPLACE" none (kernel.attach k old (some new))
  roll_back (detach_new new outer) k = rollback_failed "BPF_PROG_DETACH" outer (kernel.detach k new)
