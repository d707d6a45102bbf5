-- ===== src/CgroupV2/Skip.antt =====
-- When pkg/util/cgroupv2.go passes over a failure to load the program.

use Prim.Native.Char.{code}
use device_mounter.Base.{
  String, Bool, true, false, ◌&&◌, ◌||◌, Option, none, some, List, [], ◌∷◌, ◌==◌, ◌≡◌, refl, ◌∙◌,
  arith, every, if◌then◌else◌,
}
use device_mounter.Ebpf.{Rule}
use device_mounter.Ebpf.Block.{mentions}
use device_mounter.Api.{GoError}
use device_mounter.CgroupV2.{
  rwm_loop, can_skip_ebpf_error, unless_skipped, set_device_rules_by_cgroupv2,
}

-- A rule that permits every access.
abbrev pub permits_all : Rule → Bool
permits_all rule =
    rule.allow
    && (mentions b'r' rule.permissions
        && (mentions b'w' rule.permissions && mentions b'm' rule.permissions))

rwm_loop-mentions :
    (r w m : Bool) (perms : String)
    → rwm_loop r w m perms
      ≡ ((r || mentions b'r' perms) && ((w || mentions b'w' perms) && (m || mentions b'm' perms)))
rwm_loop-mentions r w m String.[] = ground arith
rwm_loop-mentions r w m (String.◌∷◌ c perms) =
    rwm_loop-mentions (r || code c == b'r') (w || code c == b'w') (m || code c == b'm') perms
    ∙ ground arith

-- A failure is passed over exactly if every rule permits reading, writing and making its device:
-- the flags of the loop over the permissions together say whether all three letters occur.
pub can_skip_ebpf_error-every :
    (rules : List Rule) → can_skip_ebpf_error rules ≡ every permits_all rules
can_skip_ebpf_error-every [] = refl
can_skip_ebpf_error-every (rule ∷ rules) =
    ground
      (arith, rwm_loop-mentions false false false rule.permissions, can_skip_ebpf_error-every rules)

unless_skipped-some :
    (rules : List Rule) (load_error : Option GoError) (e : GoError)
    → load_error ≡ some e
    → unless_skipped rules load_error ≡ (if every permits_all rules then none else some e)
unless_skipped-some rules none e h = absurd (ground arith)
unless_skipped-some rules (some e') e h = ground (arith, can_skip_ebpf_error-every rules)

-- Once the directory is open its descriptor is handed to the caller to close, whether the program
-- is loaded or not; a failure of the load is reported unless every rule permits every access.
pub set_device_rules_by_cgroupv2-failed :
    (dir_path : String) (load : List Rule → Bool × Option GoError) (rules : List Rule) (e : GoError)
    → (load rules).1 ≡ some e
    → let outcome = set_device_rules_by_cgroupv2 false dir_path true load rules in
      (outcome.closes ≡ true) × (outcome.error ≡ (if every permits_all rules then none else some e))
unfolding set_device_rules_by_cgroupv2
set_device_rules_by_cgroupv2-failed dir_path load rules e h =
    (refl, unless_skipped-some rules (load rules).1 e h)
