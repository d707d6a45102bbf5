-- ===== src/Server/Rules.antt =====
-- pkg/server/mounter/util.go and pkg/util/cgroup.go: setting device rules, making and removing
-- device files, and the cgroup of a container.
use device_mounter.Base.{
  ℕ, String, ◌<>◌, Bool, true, false, Option, none, some, List, [], ◌∷◌, if◌then◌else◌,
}
use device_mounter.Api
use device_mounter.Api.{GoError, other_error, message, Result, ok, err, Container, DeviceInfo, Pod}
use device_mounter.Ebpf.{Rule}
use device_mounter.Server.World.{
  World, Exec, tick, log, pure, raise, ask, rules_set, rules_restored, fd_opened, fd_closed,
  file_made, file_removed, processes_killed, ◌>>=◌,
}
use device_mounter.Server.Cluster.{Cluster, RuleOutcome}

-- `closed = util.NilCloser; rollback = util.NilCloser`
abbrev pub nothing_set : RuleOutcome
nothing_set = record { closes = false; restores = false; error = none }

-- A cgroup v1 call returns no closer: the named result keeps `util.NilCloser`.
abbrev pub without_closer : RuleOutcome → RuleOutcome
without_closer outcome = record outcome { closes = false }

-- `GetCGroupPath`: whether the path lies under the device controller of cgroup v1.
abbrev pub uses_v1_path : Cluster → World → Bool
uses_v1_path c w =
    if c.is_cgroup2_unified
    then false
    else if c.is_cgroup2_hybrid
    then (if c.devices_dir_missing w then false else true)
    else true

abbrev pids_result : Result (List ℕ) → Result (List ℕ)
pids_result (ok pids) = ok pids
pids_result (err e) = err (other_error ("error in obtaining container process id: " <> message e))

abbrev pub first_pid : String → List ℕ → Exec (String × ℕ × List ℕ)
first_pid path [] = raise (other_error "process id for target container not found")
first_pid path (pid ∷ pids) = pure (path, pid, pids)

module _ (c : Cluster) where
  -- `DeviceRuleSetFunc`: the way to set the rules.
  abbrev rule_outcome : World → String → List Rule → RuleOutcome
  rule_outcome w path rules =
      let v2 = c.set_rules_v2 w path rules in
      let v1 = without_closer (c.set_rules_v1 w path rules) in
      if c.is_cgroup2_unified
      then v2
      else if c.is_cgroup2_hybrid
      then (if c.devices_dir_missing w then v2 else v1)
      else v1

  unfoldable pub device_rule_set : String → List Rule → World → RuleOutcome × World
  device_rule_set path [] w = (nothing_set, tick w)
  device_rule_set path (r ∷ rules) w =
      let outcome = rule_outcome w path (r ∷ rules) in
      let w' = log (rules_set path (r ∷ rules) outcome.restores) w in
      (outcome, if outcome.closes then log (fd_opened path) w' else w')

  -- `GetContainerCGroupPathAndPids`
  -- The list of processes is not empty: its head is `pids[0]`.
  unfoldable pub container_pids : Pod → Container → Exec (String × ℕ × List ℕ)
  container_pids pod container = do
    path ← ask (λ w. c.cgroup_path w (uses_v1_path c w) pod container)
    pids ← ask (λ w. pids_result (c.all_pids w path))
    first_pid path pids

-- `util.AddDeviceFile`: the command is run only for an allowed device, and its error is ignored.
abbrev pub add_device_file : ℕ → DeviceInfo → World → World
add_device_file pid info w =
    if info.rule.allow then log (file_made pid info.device_file_path) w else w

-- `util.RemoveDeviceFile`
abbrev pub remove_device_file : ℕ → DeviceInfo → World → World
remove_device_file pid info w =
    if info.rule.allow then w else log (file_removed pid info.device_file_path) w

abbrev pub with_allow : Bool → DeviceInfo → DeviceInfo
with_allow allow info = record info { rule = record info.rule { allow = allow } }

-- `CreateDeviceFiles` with a configuration that is not nil.
unfoldable pub create_device_files : ℕ → List DeviceInfo → World → World
create_device_files pid [] w = w
create_device_files pid (info ∷ infos) w =
    create_device_files pid infos (add_device_file pid info w)

-- The rollback that it returns: every device is taken as one that is not allowed.
unfoldable pub uncreate_device_files : ℕ → List DeviceInfo → World → World
uncreate_device_files pid [] w = w
uncreate_device_files pid (info ∷ infos) w =
    uncreate_device_files pid infos (remove_device_file pid (with_allow false info) w)

-- `DeleteDeviceFiles`
unfoldable pub delete_device_files : ℕ → List DeviceInfo → World → World
delete_device_files pid [] w = w
delete_device_files pid (info ∷ infos) w =
    delete_device_files pid infos (remove_device_file pid info w)

-- The rollback that it returns: every device is taken as an allowed one.
unfoldable pub undelete_device_files : ℕ → List DeviceInfo → World → World
undelete_device_files pid [] w = w
undelete_device_files pid (info ∷ infos) w =
    undelete_device_files pid infos (add_device_file pid (with_allow true info) w)

-- `util.KillRunningProcesses`; its error is only logged.
abbrev pub kill_running_processes : ℕ → List ℕ → World → World
kill_running_processes pid [] w = w
kill_running_processes pid (p ∷ processes) w = log (processes_killed pid (p ∷ processes)) w

-- The variables that the deferred function of a handler reads: `rollbackFiles`, and
-- `rollbackRules` with `closedFd`.
pub record Undo : Type 0 where
  pub files : Option (ℕ × List DeviceInfo)
  pub rules : Option (String × RuleOutcome)

abbrev pub no_undo : Undo
no_undo = record { files = none; rules = none }

abbrev pub restore_rules : String → RuleOutcome → World → World
restore_rules path outcome w = if outcome.restores then log (rules_restored path) w else w

abbrev pub close_fd : String → RuleOutcome → World → World
close_fd path outcome w = if outcome.closes then log (fd_closed path) w else w

abbrev pub on_undo : {A : Type 0} → (A → World → World) → Option A → World → World
on_undo f none w = w
on_undo f (some a) w = f a w

-- How the part of a handler behind its deferred function ended.
pub record Ending : Type 0 where
  pub error : Option GoError
  pub undo : Undo
  pub world : World

-- A `MounterError` is passed on, another error is wrapped.
abbrev pub wrap : String → GoError → GoError
wrap prefix (Api.mounter_error code m) = Api.mounter_error code m
wrap prefix (Api.not_found_error m) = other_error (prefix <> m)
wrap prefix (other_error m) = other_error (prefix <> m)
