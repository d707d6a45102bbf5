-- ===== src/Ebpf/Tests.antt =====
-- Runs of the filter program on concrete rules and requests.
use device_mounter.Base.{
  ◌==◌, ℕ, zero, suc, ◌<◌, Bool, true, false, Option, none, some, List, [], ◌∷◌, ◌++◌, ◌≡◌, refl,
  arith, if◌then◌else◌,
}
use device_mounter.Base.Int.{ℤ, pos, negsuc}
use mathlib.Core.List.{flatten}
use device_mounter.Ebpf.{
  other, Instruction, Rule, ok, groups, insert_block, append_checked, load_instructions, loaded,
  finalize, check_rule,
}
use device_mounter.Ebpf.Machine.{Regs, run, loads}
use device_mounter.Ebpf.Block.{Request, Holds, Accepted, covers, after_block, run-block}
use device_mounter.Ebpf.Groups.{flatten-groups, groups-flatten, insert_block-is_group}
use device_mounter.Ebpf.Update.{Entry, block, compile, update_entries, append_checked-compile}
use device_mounter.Ebpf.Filter.{decide, default_deny, finalize-compile, load_instructions-compile}
use device_mounter.Ebpf.Program.{
  add_rules, append_rules, compile_checked, append_rules-compile, edit_program, edited,
  edit_program-decides,
}

-- Reading, writing and making the device 195:0, and reading any character device.
abbrev nvidia : Rule
nvidia = record { type = b'c'; major = pos 195; minor = pos 0; permissions = "rwm"; allow = true }

abbrev deny_nvidia : Rule
deny_nvidia = record nvidia { allow = false }

abbrev read_any : Rule
read_any = record {
  type = b'c';
  major = negsuc 0;
  minor = negsuc 0;
  permissions = "r";
  allow = true;
}

abbrev nvidia_entry : Entry
nvidia_entry = record { prologue = []; type = 2; access = 7; rule = nvidia }

abbrev deny_entry : Entry
deny_entry = record { prologue = []; type = 2; access = 7; rule = deny_nvidia }

abbrev any_entry : Entry
any_entry = record { prologue = []; type = 2; access = 2; rule = read_any }

-- The five instructions that load the registers, by the opcodes' numbers.
abbrev prologue : List Instruction
prologue =
    record { op = other 105; dst = 2; src = 1; offset = 0; constant = pos 0 }
    ∷ record { op = other 97; dst = 3; src = 1; offset = 0; constant = pos 0 }
    ∷ record { op = other 116; dst = 3; src = 0; offset = 0; constant = pos 16 }
    ∷ record { op = other 97; dst = 4; src = 1; offset = 4; constant = pos 0 }
    ∷ record { op = other 97; dst = 5; src = 1; offset = 8; constant = pos 0 }
    ∷ []

abbrev first_entry : Entry
first_entry = record any_entry { prologue = prologue }

abbrev open_nvidia : Request
open_nvidia = record { type = 2; read = true; write = true; mknod = false; major = 195; minor = 0 }

abbrev nvidia_regs : Regs
nvidia_regs zero = 0
nvidia_regs (suc zero) = 0
nvidia_regs (suc (suc zero)) = 2
nvidia_regs (suc (suc (suc zero))) = 6
nvidia_regs (suc (suc (suc (suc zero)))) = 195
nvidia_regs (suc (suc (suc (suc (suc n))))) = 0

nvidia_regs-Holds : Holds open_nvidia nvidia_regs
nvidia_regs-Holds = record { r2 = refl; r3 = refl; r4 = refl; r5 = refl }

-- What the five instructions do for the request.
abbrev load_nvidia : Instruction → Regs → Regs
load_nvidia i regs r = if i.dst == r then nvidia_regs r else regs r

abbrev zero_regs : Regs
zero_regs r = 0

loaded-Holds : Holds open_nvidia (loads load_nvidia prologue zero_regs)
loaded-Holds = record { r2 = refl; r3 = refl; r4 = refl; r5 = refl }

nvidia-Accepted : Accepted 2 7 nvidia
nvidia-Accepted = record {
  type_known = refl;
  major_fits = refl;
  minor_fits = refl;
  access_known = refl;
}

read_any-Accepted : Accepted 2 2 read_any
read_any-Accepted = record {
  type_known = refl;
  major_fits = refl;
  minor_fits = refl;
  access_known = refl;
}

run-block_example : run load_nvidia (insert_block 2 7 nvidia ++ default_deny) nvidia_regs ≡ (
    if covers 2 nvidia open_nvidia
    then some 1
    else run load_nvidia default_deny (after_block 2 7 nvidia_regs))
run-block_example =
    run-block load_nvidia 2 7 nvidia open_nvidia default_deny nvidia_regs nvidia-Accepted
      (omega arith) (omega arith) nvidia_regs-Holds

-- The rule for the device is replaced by its denial.
replaced :
    add_rules (some deny_nvidia ∷ []) (first_entry ∷ nvidia_entry ∷ [])
    ≡ ok (first_entry ∷ deny_entry ∷ [])
unfolding add_rules check_rule device_mounter.Base.Int.int32
replaced = refl

edit_program-decides_example :
    (edit_program
        (some deny_nvidia ∷ [])
        (some (compile (first_entry ∷ nvidia_entry ∷ []) ++ default_deny))
      ≡ edited (compile (first_entry ∷ deny_entry ∷ []) ++ default_deny))
    × (run load_nvidia (compile (first_entry ∷ deny_entry ∷ []) ++ default_deny) zero_regs
        ≡ some (if decide (first_entry ∷ deny_entry ∷ []) open_nvidia then 1 else 0))
edit_program-decides_example =
    edit_program-decides load_nvidia (some deny_nvidia ∷ []) first_entry (nvidia_entry ∷ [])
      (first_entry ∷ deny_entry ∷ []) open_nvidia zero_regs
      (refl, (refl, (refl, (refl, (refl, tt))))) (omega arith)
      (read_any-Accepted, (nvidia-Accepted, tt)) (refl, tt) replaced (omega arith) (omega arith)
      loaded-Holds

append_rules-compile_example :
    append_rules (none ∷ some deny_nvidia ∷ []) (compile (nvidia_entry ∷ []))
    ≡ compile_checked (add_rules (none ∷ some deny_nvidia ∷ []) (nvidia_entry ∷ []))
append_rules-compile_example =
    append_rules-compile (none ∷ some deny_nvidia ∷ []) (nvidia_entry ∷ []) (tt, tt)

append_checked-compile_example :
    append_checked 2 7 deny_nvidia (compile (any_entry ∷ nvidia_entry ∷ []))
    ≡ compile (update_entries deny_entry (any_entry ∷ nvidia_entry ∷ []))
append_checked-compile_example =
    append_checked-compile deny_entry (any_entry ∷ nvidia_entry ∷ []) refl (tt, (tt, tt))

groups-flatten_example :
    groups (flatten (block any_entry ∷ block nvidia_entry ∷ []))
    ≡ block any_entry ∷ block nvidia_entry ∷ []
groups-flatten_example =
    groups-flatten (block any_entry ∷ block nvidia_entry ∷ [])
      (insert_block-is_group 2 2 read_any, (insert_block-is_group 2 7 nvidia, tt))

load_instructions-compile_example :
    load_instructions (some (compile (nvidia_entry ∷ []) ++ default_deny))
    ≡ loaded (compile (nvidia_entry ∷ []))
load_instructions-compile_example = load_instructions-compile nvidia_entry []

finalize-compile_example :
    finalize (compile (nvidia_entry ∷ [])) ≡ some (compile (nvidia_entry ∷ []) ++ default_deny)
finalize-compile_example = finalize-compile nvidia_entry []

flatten-groups_example :
    flatten (groups (compile (any_entry ∷ nvidia_entry ∷ []) ++ default_deny))
    ≡ compile (any_entry ∷ nvidia_entry ∷ []) ++ default_deny
flatten-groups_example = flatten-groups (compile (any_entry ∷ nvidia_entry ∷ []) ++ default_deny)
