-- ===== src/Server/Mount.antt =====
-- pkg/server/mounter/server.go, `MountDevice`, stage by stage.
pub mod Trace
pub mod Atomic
use device_mounter.Base.{
  ℕ, String, ◌<>◌, Bool, true, false, Option, none, some, List, [], ◌∷◌, map, if◌then◌else◌,
}
use device_mounter.Base.Dict.{Dict, insert}
use device_mounter.Api.{
  GoError, mounter_error, not_found_error, other_error, message, ResultCode, Result, ok, err,
  Container, DeviceInfo, ObjectKey, Quantity, Pod, key_of,
}
use device_mounter.Server.World.{
  World, Exec, tick, log, pure, raise, lift, ask, or_none, post_mount, event_recorded, ◌>>=◌, ◌>>◌,
}
use device_mounter.Server.Cluster.{Cluster, DeviceMounter, RuleOutcome}
use device_mounter.Server.Requests.{
  MountDeviceRequest, check_mount_device_request, check_pod_container, check_pod_container_status,
}
use device_mounter.Server.Pods.{
  answer_not_found, get_target_pod, get_slave_pods, complete_pods, create_pods,
  garbage_collection_pods,
}
use device_mounter.Server.Wait.{Waited, wait_support_pods_ready}
use device_mounter.Server.Rules.{
  device_rule_set, container_pids, create_device_files, uncreate_device_files, restore_rules,
  close_fd, Undo, no_undo, on_undo, Ending, wrap,
}

pub record DeviceResponse : Type 0 where
  pub result : ResultCode
  pub message : String

-- The first deferred function: every error becomes a response.
abbrev pub respond : Result String → DeviceResponse
respond (ok text) = record { result = ResultCode.success; message = text }
respond (err (mounter_error code m)) = record { result = code; message = m }
respond (err (not_found_error m)) = record { result = ResultCode.fail; message = m }
respond (err (other_error m)) = record { result = ResultCode.fail; message = m }

-- What a mount has found out and built before it changes anything.
pub record Prepared : Type 0 where
  pub pod : Pod
  pub container : Container
  pub device_type : String
  pub mounter : DeviceMounter
  pub templates : List Pod

module _ (c : Cluster) where
  abbrev pub find_mounter : String → Result DeviceMounter
  find_mounter raw = elim (c.get_device_mounter (c.to_upper raw)) [
    | none ↦ err (other_error ("Unsupported device type: " <> raw))
    | some m ↦ ok m
  ]

  -- The loop that converts the resources of the request.
  unfoldable pub parse_resources : Dict String → Dict Quantity → Result (Dict Quantity)
  parse_resources [] resources = ok resources
  parse_resources ((key, value) ∷ rest) resources = elim (c.parse_quantity value) [
    | err e ↦ err e
    | ok quantity ↦ parse_resources rest (insert key quantity resources)
  ]

  -- From the checks of the request to the completed templates of the slave pods.
  unfoldable pub prepare_mount : MountDeviceRequest → Exec Prepared
  prepare_mount request = do
    req ← lift (check_mount_device_request request)
    pod ← answer_not_found (get_target_pod c req.pod_name req.pod_namespace)
    container ← lift (check_pod_container c.show_container (some pod) req.container)
    lift (check_pod_container_status pod container)
    m ← lift (find_mounter req.device_type)
    resources ← lift (parse_resources req.resources [])
    node ← answer_not_found (ask (λ w. c.get_node w c.node_name))
    ask (λ w.
        or_none
          (m.validate_mount_request w node pod container resources req.annotations req.labels))
    slaves ← answer_not_found (get_slave_pods c (c.to_upper req.device_type) pod container)
    built ← ask (λ w.
        m.build_support_pod_templates w pod container resources req.annotations req.labels slaves)
    templates ← complete_pods c (c.to_upper req.device_type) container pod req.patches built
    pure (record {
      pod = pod;
      container = container;
      device_type = c.to_upper req.device_type;
      mounter = m;
      templates = templates;
    })

  abbrev pub failed : GoError → Undo → World → Ending
  failed e undo w = record { error = some e; undo = undo; world = w }

  abbrev pub mounted_text : Prepared → String
  mounted_text p = "Successfully mounted " <> (p.device_type <> " devices")

  -- Behind the device files: the plugin's actions, the clean-up of the skipped pods, the event.
  abbrev pub after_post_mount : Prepared → List Pod → Undo → Option GoError → World → Ending
  after_post_mount p skipped undo (some e) w =
      failed (wrap "failed to execute post mount actions: " e) undo w
  after_post_mount p skipped undo none w = record {
    error = none;
    undo = undo;
    world =
        log (event_recorded (mounted_text p)) (garbage_collection_pods c (map key_of skipped) w).1;
  }

  abbrev pub mount_files :
      Prepared → List Pod → List Pod → List DeviceInfo → String → ℕ → RuleOutcome → World → Ending
  mount_files p ready skipped infos path pid outcome w =
      let w' = create_device_files pid infos w in
      after_post_mount p skipped
        (record { files = some (pid, infos); rules = some (path, outcome) })
        (p.mounter.execute_post_mount_actions w' pid p.pod p.container ready) (log post_mount w')

  abbrev pub after_rules :
      Prepared
      → List Pod
      → List Pod
      → List DeviceInfo
      → String
      → ℕ
      → RuleOutcome
      → Option GoError
      → World
      → Ending
  after_rules p ready skipped infos path pid outcome (some e) w =
      failed (other_error ("failed to set access permissions for cgroup devices: " <> message e))
        (record { files = none; rules = some (path, outcome) }) w
  after_rules p ready skipped infos path pid outcome none w =
      mount_files p ready skipped infos path pid outcome w

  abbrev pub mount_rules :
      Prepared → List Pod → List Pod → List DeviceInfo → String → ℕ → World → Ending
  mount_rules p ready skipped infos path pid w =
      let (outcome, w') = device_rule_set c path (map (λ info. info.rule) infos) w in
      after_rules p ready skipped infos path pid outcome outcome.error w'

  abbrev pub after_pids :
      Prepared
      → List Pod
      → List Pod
      → List DeviceInfo
      → Result (String × ℕ × List ℕ) × World
      → Ending
  after_pids p ready skipped infos (err e, w) = failed e no_undo w
  after_pids p ready skipped infos (ok (path, pid, pids), w) =
      mount_rules p ready skipped infos path pid w

  abbrev pub after_infos :
      Prepared → List Pod → List Pod → Result (List DeviceInfo) → World → Ending
  after_infos p ready skipped (err e) w =
      failed (wrap "failed to detect mount device info: " e) no_undo w
  after_infos p ready skipped (ok infos) w =
      after_pids p ready skipped infos (container_pids c p.pod p.container w)

  abbrev pub after_ready : Prepared → List Pod → List Pod → World → Ending
  after_ready p [] skipped w =
      failed (other_error "waiting for device pod to be ready failed") no_undo w
  after_ready p (pod ∷ pods) skipped w =
      after_infos p (pod ∷ pods) skipped
        (p.mounter.get_device_infos_to_mount w p.pod p.container (pod ∷ pods)) (tick w)

  abbrev pub after_wait : Prepared → Waited → Option GoError → World → Ending
  after_wait p waited (some e) w = failed e no_undo w
  after_wait p waited none w = after_ready p waited.ready waited.skipped w

  -- The part behind the second deferred function.
  abbrev pub mount_created : Prepared → List ObjectKey → Option GoError → World → Ending
  mount_created p keys (some e) w =
      failed (other_error ("Device slave pod creation failed: " <> message e)) no_undo w
  mount_created p [] none w =
      failed (other_error ("Device slave pod creation failed: " <> "<nil>")) no_undo w
  mount_created p (key ∷ keys) none w =
      let (waited, w') = wait_support_pods_ready c p.mounter (key ∷ keys) w in
      after_wait p waited waited.error w'

  abbrev pub undo_files : Undo → World → World
  undo_files undo = on_undo (λ (pid, infos). uncreate_device_files pid infos) undo.files

  abbrev pub undo_rules : Undo → World → World
  undo_rules undo = on_undo (λ (path, outcome). restore_rules path outcome) undo.rules

  abbrev pub close_files : Undo → World → World
  close_files undo = on_undo (λ (path, outcome). close_fd path outcome) undo.rules

  -- The second deferred function: the files, the rules and the pods are undone after an error,
  -- and the descriptor is closed in any case.
  abbrev pub settle_mount :
      List ObjectKey → String → Option GoError → Undo → World → Result String × World
  settle_mount keys text none undo w = (ok text, close_files undo w)
  settle_mount keys text (some e) undo w = (
    err e,
    close_files undo (garbage_collection_pods c keys (undo_rules undo (undo_files undo w))).1,
  )

  unfoldable pub run_mount : Prepared → Exec String
  run_mount p w =
      let (keys, e, w₁) = create_pods c p.templates [] w in
      let ending = mount_created p keys e w₁ in
      settle_mount keys (mounted_text p) ending.error ending.undo ending.world

  -- `MountDevice`
  unfoldable pub mount_device : MountDeviceRequest → World → DeviceResponse × World
  unfolding prepare_mount run_mount
  mount_device req w = let (r, w') = (prepare_mount req >>= run_mount) w in (respond r, w')
