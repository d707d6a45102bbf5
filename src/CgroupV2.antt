-- ===== src/CgroupV2.antt =====
-- pkg/util/cgroupv2.go: setting the device rules of a cgroup v2. The descriptor of the directory and
-- the load of the program belong to the host.
pub mod Attach
pub mod Skip
mod Tests
use Prim.Native.Char.{code}
use Prim.Native.String
use device_mounter.Base.{
  String, ◌<>◌, Bool, true, false, not, ◌&&◌, ◌||◌, Option, none, some, List, [], ◌∷◌, ◌==◌,
  if◌then◌else◌,
}
use device_mounter.Ebpf.{Rule}
use device_mounter.Api.{GoError, other_error}
use device_mounter.Server.Cluster.{RuleOutcome}

-- The loop of `isRWM` with its three flags.
abbrev pub rwm_loop : Bool → Bool → Bool → String → Bool
rwm_loop r w m String.[] = r && (w && m)
rwm_loop r w m (String.◌∷◌ c perms) =
    rwm_loop (r || code c == b'r') (w || code c == b'w') (m || code c == b'm') perms

-- `isRWM`
abbrev pub is_rwm : String → Bool
is_rwm = rwm_loop false false false

-- `canSkipEBPFError`
abbrev pub can_skip_ebpf_error : List Rule → Bool
can_skip_ebpf_error [] = true
can_skip_ebpf_error (rule ∷ rules) =
    let rest = can_skip_ebpf_error rules in
    if not rule.allow || not (is_rwm rule.permissions) then false else rest

abbrev pub unless_skipped : List Rule → Option GoError → Option GoError
unless_skipped rules none = none
unless_skipped rules (some e) = if can_skip_ebpf_error rules then none else some e

-- `SetDeviceRulesByCgroupv2`: whether the directory can be opened, and the load of the program with
-- its rollback, are given.
unfoldable pub set_device_rules_by_cgroupv2 :
    Bool → String → Bool → (List Rule → Bool × Option GoError) → List Rule → RuleOutcome
set_device_rules_by_cgroupv2 true dir_path opens load rules = record {
  closes = false;
  restores = false;
  error = none;
}
set_device_rules_by_cgroupv2 false dir_path false load rules = record {
  closes = false;
  restores = false;
  error = some (other_error ("cannot get dir FD for " <> dir_path));
}
set_device_rules_by_cgroupv2 false dir_path true load rules =
    let (restores, e) = load rules in
    record { closes = true; restores = restores; error = unless_skipped rules e }
