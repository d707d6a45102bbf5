-- ===== src/Server/Unmount.antt =====
-- pkg/server/mounter/server.go, `UnMountDevice`, stage by stage.
pub mod Atomic
pub mod Kills
use device_mounter.Base.{
  ℕ, String, ◌<>◌, Bool, true, false, Option, none, some, List, [], ◌∷◌, map, if◌then◌else◌,
}
use device_mounter.Api.{
  GoError, mounter_error, other_error, message, ResultCode, Result, ok, err, Container, DeviceInfo,
  Pod,
}
use device_mounter.Server.World.{
  World, Exec, log, pure, raise, lift, ask, post_unmount, event_recorded, ◌>>=◌, ◌>>◌,
}
use device_mounter.Server.Cluster.{Cluster, DeviceMounter, RuleOutcome}
use device_mounter.Server.Requests.{
  UnMountDeviceRequest, check_unmount_device_request, check_pod_container,
  check_pod_container_status,
}
use device_mounter.Server.Pods.{
  answer_not_found, get_target_pod, get_slave_pods, garbage_collection_pods,
}
use device_mounter.Server.Rules.{
  device_rule_set, container_pids, delete_device_files, undelete_device_files,
  kill_running_processes, Undo, on_undo, Ending, wrap,
}
use device_mounter.Server.Mount.{
  DeviceResponse, respond, find_mounter, failed, undo_rules, close_files,
}

-- What an unmount has found out before it changes anything.
pub record Detected : Type 0 where
  pub pod : Pod
  pub container : Container
  pub device_type : String
  pub mounter : DeviceMounter
  pub slaves : List Pod
  pub infos : List DeviceInfo
  pub path : String
  pub pid : ℕ
  pub processes : List ℕ

abbrev pub wrapped : {A : Type 0} → String → Result A → Result A
wrapped prefix (ok a) = ok a
wrapped prefix (err e) = err (wrap prefix e)

-- `if len(slavePods) == 0`
abbrev pub some_slaves : List Pod → Result (List Pod)
some_slaves [] = err (mounter_error ResultCode.not_found "No device found for uninstallation")
some_slaves (pod ∷ pods) = ok (pod ∷ pods)

abbrev pub device_busy : GoError
device_busy = mounter_error ResultCode.device_busy "The device is in use and cannot be uninstalled"

-- `if !req.GetForce() && len(processes) > 0`
abbrev pub unless_busy : Bool → List ℕ → Result (List ℕ)
unless_busy force [] = ok []
unless_busy true (p ∷ processes) = ok (p ∷ processes)
unless_busy false (p ∷ processes) = err device_busy

abbrev pub unmounted_text : Detected → String
unmounted_text d = "Successfully uninstalled " <> (d.device_type <> " devices")

module _ (c : Cluster) where
  -- From the checks of the request to the processes that use the devices.
  unfoldable pub detect_unmount : UnMountDeviceRequest → Exec Detected
  detect_unmount request = do
    req ← lift (check_unmount_device_request request)
    pod ← answer_not_found (get_target_pod c req.pod_name req.pod_namespace)
    container ← lift (check_pod_container c.show_container (some pod) req.container)
    lift (check_pod_container_status pod container)
    m ← lift (find_mounter c req.device_type)
    slaves ← answer_not_found (get_slave_pods c (c.to_upper req.device_type) pod container)
    slaves ← lift (some_slaves slaves)
    infos ← ask (λ w.
        wrapped "Failed to detect uninstalled device info: "
          (m.get_device_infos_to_unmount w pod container slaves))
    (path, pid, pids) ← container_pids c pod container
    active ← ask (λ w.
        wrapped "Failed to retrieve the list of device container processes: "
          (m.get_devices_active_process_ids w pids infos))
    processes ← lift (unless_busy req.force active)
    pure (record {
      pod = pod;
      container = container;
      device_type = c.to_upper req.device_type;
      mounter = m;
      slaves = slaves;
      infos = infos;
      path = path;
      pid = pid;
      processes = processes;
    })

  -- Behind the device files: the plugin's actions, the clean-up of the slave pods, the event.
  abbrev pub after_post_unmount : Detected → Undo → Option GoError → World → Ending
  after_post_unmount d undo (some e) w =
      failed c (wrap "failed to execute post unmount actions: " e) undo w
  after_post_unmount d undo none w = record {
    error = none;
    undo = undo;
    world =
        log (event_recorded (unmounted_text d))
          (garbage_collection_pods c (d.mounter.get_pods_to_cleanup w d.pod d.container d.slaves)
            w).1;
  }

  abbrev pub unmount_files : Detected → RuleOutcome → World → Ending
  unmount_files d outcome w =
      let w' = delete_device_files d.pid d.infos w in
      after_post_unmount d
        (record { files = some (d.pid, d.infos); rules = some (d.path, outcome) })
        (d.mounter.execute_post_unmount_actions w' d.pid d.pod d.container d.slaves)
        (log post_unmount w')

  abbrev pub after_unmount_rules : Detected → RuleOutcome → Option GoError → World → Ending
  after_unmount_rules d outcome (some e) w =
      failed c (other_error ("Failed to set access permissions for cgroup devices: " <> message e))
        (record { files = none; rules = some (d.path, outcome) }) w
  after_unmount_rules d outcome none w = unmount_files d outcome w

  -- The part from the end of the processes on.
  abbrev pub unmount_rules : Detected → World → Ending
  unmount_rules d w =
      let w₁ = kill_running_processes d.pid d.processes w in
      let (outcome, w') = device_rule_set c d.path (map (λ info. info.rule) d.infos) w₁ in
      after_unmount_rules d outcome outcome.error w'

  abbrev pub undo_unmount_files : Undo → World → World
  undo_unmount_files undo = on_undo (λ (pid, infos). undelete_device_files pid infos) undo.files

  -- The second deferred function.
  abbrev pub settle_unmount : String → Option GoError → Undo → World → Result String × World
  settle_unmount text none undo w = (ok text, close_files c undo w)
  settle_unmount text (some e) undo w =
      (err e, close_files c undo (undo_rules c undo (undo_unmount_files undo w)))

  unfoldable pub run_unmount : Detected → Exec String
  run_unmount d w =
      let ending = unmount_rules d w in
      settle_unmount (unmounted_text d) ending.error ending.undo ending.world

  -- `UnMountDevice`
  unfoldable pub unmount_device : UnMountDeviceRequest → World → DeviceResponse × World
  unmount_device req w = let (r, w') = (detect_unmount req >>= run_unmount) w in (respond r, w')
