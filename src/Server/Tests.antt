-- ===== src/Server/Tests.antt =====
-- Runs of the handlers on a small cluster.
use device_mounter.Base.{
  if◌then◌else◌, ◌∙◌, String, Bool, true, false, Option, none, some, [], ◌∷◌, ◌≡◌, refl, arith, All,
  eqs,
}
use device_mounter.Base.Int.{pos}
use device_mounter.Api.{
  GoError, other_error, ResultCode, Result, ok, err, StatusCode, Container, DeviceInfo, ObjectKey,
  PodContainer, ContainerStatus, Pod, device_type_annotation,
}
use device_mounter.Server.World.{World}
use device_mounter.Server.Cluster.{Cluster, DeviceMounter}
use device_mounter.Server.Requests.{MountDeviceRequest, UnMountDeviceRequest}
use device_mounter.Server.Wait.{wait_support_pods_ready}
use device_mounter.Server.Wait.Partition.{Sorting, wait-HasSorted}
use device_mounter.Server.Mount.{Prepared, respond, prepare_mount, run_mount, mount_device}
use device_mounter.Server.Mount.Atomic.{
  RolledBack, Committed, created_pods, dropped_pods, mount_device-rolls_back, run_mount-commits,
}
use device_mounter.Server.Unmount.{Detected, detect_unmount, run_unmount, unmount_device}
use device_mounter.Server.Unmount.Atomic.{
  Reinstated, Removed, dropped_slaves, unmount_device-rolls_back, run_unmount-removes,
}
use device_mounter.Server.Unmount.Kills.{killed, unmount_device-killed}
use device_mounter.Server.Requests.Target.{IsFound, check_pod_container-IsFound}
use device_mounter.Server.Pods.{slave_selector, has_device_type}
use device_mounter.Server.Pods.Labels.{mutation_pod-selected}
use device_mounter.Server.Traces.{ledger}
use device_mounter.Controller.Events.{on_add}
use device_mounter.Controller.Events.Added.{on_add-mutation_pod}
use device_mounter.Base.{string_dec}
use device_mounter.Server.Mount.{parse_resources}
use device_mounter.Server.Pods.{complete_pods}
use device_mounter.Server.Pods.{create_pods}
use device_mounter.Server.Pods.{get_slave_pods}
use device_mounter.Server.Pods.{get_target_pod}
use device_mounter.Server.Pods.{patch_pod}
use device_mounter.Server.Requests.{check_mount_device_request}
use device_mounter.Server.Requests.{check_pod_container}
use device_mounter.Server.Requests.{check_pod_container_status}
use device_mounter.Server.Rules.{container_pids}
use device_mounter.Server.Rules.{device_rule_set}
use device_mounter.Server.Wait.{find_pod}
use device_mounter.Server.Wait.{poll}
use device_mounter.Server.Wait.{poll_round}
use device_mounter.Server.World.{ask}
use device_mounter.Server.World.{lift}
use device_mounter.Server.World.{pure}
use device_mounter.Server.World.{◌>>=◌}
use device_mounter.Server.Requests.{check_unmount_device_request}
use device_mounter.Server.Pods.{mutation_pod}
use device_mounter.Server.Unmount.{device_busy}
use device_mounter.Server.World.{Exec, and_then}
use device_mounter.Base.{ap}
use device_mounter.Base.Dict.{lookup}

abbrev idle : World
idle = record { clock = 0; trace = [] }

abbrev main_container : PodContainer
main_container = record {
  name = "main";
  image = "app";
  image_pull_policy = "Always";
  restart_policy = none;
  limits = [];
  env = [];
}

abbrev status : ContainerStatus
status = record { name = "main"; ready = true; container_id = "containerd://1" }

abbrev bare_pod : String → Pod
bare_pod name = record {
  name = name;
  generate_name = "";
  namespace = "default";
  uid = "u";
  resource_version = "1";
  labels = [];
  annotations = (device_type_annotation, "GPU") ∷ [];
  owner_references = [];
  deletion_timestamp = false;
  node_name = "node1";
  node_selector = [];
  scheduler_name = "";
  priority_class_name = "";
  grace_period = none;
  containers = main_container ∷ [];
  phase = "Running";
  message = "";
  conditions = [];
  container_statuses = status ∷ [];
  qos_class = "";
  pod_ip = "";
}

abbrev gpu : DeviceInfo
gpu = record {
  rule = record { type = b'c'; major = pos 195; minor = pos 0; permissions = "rwm"; allow = true };
  device_id = "gpu0";
  device_file_path = "/dev/nvidia0";
}

abbrev denied_gpu : DeviceInfo
denied_gpu = record gpu { rule = record gpu.rule { allow = false } }

-- A plugin whose actions behind a mount and an unmount end with the given error.
abbrev plugin : Option GoError → DeviceMounter
plugin e = record {
  device_type = "GPU";
  validate_mount_request = λ w node pod container resources annotations labels. none;
  build_support_pod_templates =
      λ w pod container resources annotations labels pods. ok (bare_pod "slave" ∷ []);
  verify_support_pod_status = λ w pod. (StatusCode.success, none);
  get_device_infos_to_mount = λ w pod container pods. ok (gpu ∷ []);
  execute_post_mount_actions = λ w pid pod container pods. e;
  get_device_infos_to_unmount = λ w pod container pods. ok (denied_gpu ∷ []);
  get_devices_active_process_ids = λ w pids infos. ok (7 ∷ []);
  execute_post_unmount_actions = λ w pid pod container pods. e;
  get_pods_to_cleanup =
      λ w pod container pods. record { namespace = "default"; name = "slave"; uid = some "u" } ∷ [];
}

abbrev cluster : Option GoError → Cluster
cluster e = record {
  node_name = "node1";
  slave_image = "pause";
  slave_pull_policy = "IfNotPresent";
  api_get_pod = λ w namespace name. ok (bare_pod name);
  cached_pod = λ w namespace name. ok (bare_pod name);
  list_pods = λ w namespace selector. ok (bare_pod "slave" ∷ []);
  get_node = λ w name. ok (record { name = name; allocatable = [] });
  create_pod = λ w pod. ok pod;
  delete_pod = λ w key. none;
  apply_patches = λ patches pod. ok pod;
  parse_quantity = λ text. ok (record { value = pos 1; is_zero = false });
  new_uuid = λ w. "id";
  poll_rounds = λ w. 3;
  context_error = λ w. other_error "context deadline exceeded";
  is_cgroup2_unified = true;
  is_cgroup2_hybrid = false;
  devices_dir_missing = λ w. false;
  cgroup_path = λ w v1 pod container. ok "/sys/fs/cgroup/x";
  all_pids = λ w path. ok (7 ∷ []);
  set_rules_v1 = λ w path rules. record { closes = true; restores = true; error = none };
  set_rules_v2 = λ w path rules. record { closes = true; restores = true; error = none };
  show_container = λ container. container.name;
  show_number = λ n. "n";
  to_upper = λ text. text;
  get_device_mounter = λ name. if eqs name "GPU" then some (plugin e) else none;
}

abbrev healthy : Cluster
healthy = cluster none

abbrev device_lost : GoError
device_lost = other_error "device lost"

abbrev faulty : Cluster
faulty = cluster (some device_lost)

abbrev slave_key : ObjectKey
slave_key = record { namespace = "default"; name = "slave"; uid = some "u" }

abbrev mount_request : String → MountDeviceRequest
mount_request type = record {
  pod_name = "app";
  pod_namespace = "default";
  container = some (record { name = "main"; index = 0 });
  resources = ("gpu", "1") ∷ [];
  annotations = [];
  labels = [];
  device_type = type;
  patches = [];
}

abbrev unmount_request : Bool → UnMountDeviceRequest
unmount_request force = record {
  pod_name = "app";
  pod_namespace = "default";
  container = some (record { name = "main"; index = 0 });
  device_type = "GPU";
  force = force;
}

abbrev main : Container
main = record { name = "main"; index = 0 }

abbrev detected : Option GoError → Detected
detected e = record {
  pod = bare_pod "app";
  container = main;
  device_type = "GPU";
  mounter = plugin e;
  slaves = bare_pod "slave" ∷ [];
  infos = denied_gpu ∷ [];
  path = "/sys/fs/cgroup/x";
  pid = 7;
  processes = 7 ∷ [];
}

-- The slave pod that the handler makes of the plugin's template.
abbrev slave : Pod
slave = mutation_pod healthy "id" "GPU" main (bare_pod "app") (bare_pod "slave")

abbrev prepared : Option GoError → Prepared
prepared e = record {
  pod = bare_pod "app";
  container = main;
  device_type = "GPU";
  mounter = plugin e;
  templates = slave ∷ [];
}

mount_prepares :
    (prepare_mount faulty (mount_request "GPU") idle).0 ≡ ok (prepared (some device_lost))
unfolding prepare_mount ◌>>=◌ lift check_mount_device_request string_dec get_target_pod ask pure
    check_pod_container check_pod_container_status parse_resources get_slave_pods complete_pods
    patch_pod mutation_pod
mount_prepares = refl

abbrev lost_text : GoError
lost_text = other_error "failed to execute post mount actions: device lost"

run_fails : (w : World) → (run_mount faulty (prepared (some device_lost)) w).0 ≡ err lost_text
unfolding run_mount create_pods wait_support_pods_ready poll poll_round find_pod container_pids
    ◌>>=◌ ask pure device_rule_set
run_fails w = refl

and_then-ok :
    {A B : Type 0} (f : A → Exec B) (r : Result A × World) (a : A) (b : Result B)
    → r.0 ≡ ok a
    → ((w : World) → (f a w).0 ≡ b)
    → (and_then f r).0 ≡ b
and_then-ok f (ok a', w) a b e h = ap (λ x. (and_then f (x, w)).0) e ∙ h w
and_then-ok f (err e', w) a b e h = absurd (ground arith)

mount_fails : (mount_device faulty (mount_request "GPU") idle).0.result ≡ ResultCode.fail
unfolding mount_device ◌>>=◌
mount_fails =
    ap (λ r. (respond r).result)
      (and_then-ok (run_mount faulty) (prepare_mount faulty (mount_request "GPU") idle)
        (prepared (some device_lost)) (err lost_text) mount_prepares run_fails)

not_success : {c : ResultCode} → c ≡ ResultCode.fail → ¬ (c ≡ ResultCode.success)
not_success e = ground arith

mount_device-rolls_back_example :
    RolledBack (ledger []) (ledger (mount_device faulty (mount_request "GPU") idle).1.trace)
mount_device-rolls_back_example =
    mount_device-rolls_back faulty (mount_request "GPU") idle (not_success mount_fails)

mount_commits : (run_mount healthy (prepared none) idle).0 ≡ ok "Successfully mounted GPU devices"
unfolding run_mount create_pods wait_support_pods_ready poll poll_round find_pod container_pids
    ◌>>=◌ ask pure device_rule_set
mount_commits = refl

run_mount-commits_example :
    Committed
      (created_pods healthy (prepared none) idle)
      (dropped_pods healthy (prepared none) idle)
      (ledger [])
      (ledger (run_mount healthy (prepared none) idle).1.trace)
run_mount-commits_example =
    run_mount-commits healthy (prepared none) idle "Successfully mounted GPU devices" mount_commits

abbrev unsupported_text : GoError
unsupported_text = other_error "Unsupported device type: FPGA"

unsupported : (prepare_mount healthy (mount_request "FPGA") idle).0 ≡ err unsupported_text
unfolding prepare_mount ◌>>=◌ lift check_mount_device_request string_dec get_target_pod ask pure
    check_pod_container check_pod_container_status
unsupported = refl

wait_ends : (wait_support_pods_ready healthy (plugin none) (slave_key ∷ []) idle).0.error ≡ none
unfolding create_pods wait_support_pods_ready poll poll_round find_pod container_pids ◌>>=◌ ask pure
    device_rule_set
wait_ends = refl

wait-HasSorted_example :
    let waited = (wait_support_pods_ready healthy (plugin none) (slave_key ∷ []) idle).0 in
    (start : World) × Sorting healthy
      (plugin none)
      start
      (slave_key ∷ [])
      waited.ready
      waited.skipped
wait-HasSorted_example = wait-HasSorted healthy (plugin none) (slave_key ∷ []) idle wait_ends

unmount_is_busy : (detect_unmount healthy (unmount_request false) idle).0 ≡ err device_busy
unfolding detect_unmount ◌>>=◌ lift check_unmount_device_request string_dec get_target_pod ask pure
    check_pod_container check_pod_container_status get_slave_pods container_pids lookup
unmount_is_busy = refl

unmount_detects :
    (detect_unmount faulty (unmount_request true) idle).0 ≡ ok (detected (some device_lost))
unfolding detect_unmount ◌>>=◌ lift check_unmount_device_request string_dec get_target_pod ask pure
    check_pod_container check_pod_container_status get_slave_pods container_pids lookup
unmount_detects = refl

abbrev unmount_text : GoError
unmount_text = other_error "failed to execute post unmount actions: device lost"

run_unmount_fails :
    (w : World) → (run_unmount faulty (detected (some device_lost)) w).0 ≡ err unmount_text
unfolding run_unmount device_rule_set
run_unmount_fails w = refl

unmount_fails : (unmount_device faulty (unmount_request true) idle).0.result ≡ ResultCode.fail
unfolding unmount_device ◌>>=◌
unmount_fails =
    ap (λ r. (respond r).result)
      (and_then-ok (run_unmount faulty) (detect_unmount faulty (unmount_request true) idle)
        (detected (some device_lost)) (err unmount_text) unmount_detects run_unmount_fails)

unmount_device-rolls_back_example :
    Reinstated (ledger []) (ledger (unmount_device faulty (unmount_request true) idle).1.trace)
unmount_device-rolls_back_example =
    unmount_device-rolls_back faulty (unmount_request true) idle (not_success unmount_fails)

unmount_removes :
    (run_unmount healthy (detected none) idle).0 ≡ ok "Successfully uninstalled GPU devices"
unfolding run_unmount device_rule_set
unmount_removes = refl

run_unmount-removes_example :
    Removed
      (dropped_slaves healthy (detected none) idle)
      7
      (denied_gpu ∷ [])
      (ledger [])
      (ledger (run_unmount healthy (detected none) idle).1.trace)
run_unmount-removes_example =
    run_unmount-removes healthy (detected none) idle "Successfully uninstalled GPU devices"
      unmount_removes

unmount_device-killed_example :
    killed (unmount_device healthy (unmount_request false) idle).1.trace ≡ []
unmount_device-killed_example = unmount_device-killed healthy (unmount_request false) idle refl

mutation_pod-selected_example :
    All
      (λ (key, value). lookup key slave.labels ≡ some value)
      (slave_selector (bare_pod "app") main)
    × (slave.namespace ≡ "default")
    × (has_device_type "GPU" slave ≡ true)
mutation_pod-selected_example =
    mutation_pod-selected healthy "id" "GPU" main (bare_pod "app") (bare_pod "slave")

on_add-mutation_pod_example :
    on_add (some slave) ≡ some (record { namespace = "default"; name = "slave" })
on_add-mutation_pod_example =
    on_add-mutation_pod healthy "id" "GPU" main (bare_pod "app") (bare_pod "slave")

-- The request names no container and gives the index of the only one.
target_found :
    check_pod_container
      (λ c. c.name)
      (some (bare_pod "app"))
      (some (record { name = ""; index = 0 }))
    ≡ ok main
unfolding check_pod_container string_dec
target_found = refl

check_pod_container-IsFound_example :
    IsFound (main_container ∷ []) 0 (record { name = ""; index = 0 }) main
check_pod_container-IsFound_example =
    check_pod_container-IsFound (λ c. c.name) (bare_pod "app") (record { name = ""; index = 0 })
      main (omega arith) target_found
