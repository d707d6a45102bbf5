-- ===== src/Server/Cluster.antt =====
-- What the server calls and does not implement: the Kubernetes API behind its retries, the caches,
-- the kernel's cgroup files, commands in a container, and the registered device plugins
-- (pkg/framework/mounter.go, `DeviceMounter`).
use device_mounter.Base.{ℕ, String, Bool, Option, List}
use device_mounter.Base.Dict.{Dict}
use device_mounter.Ebpf.{Rule}
use device_mounter.Api.{
  GoError, Result, StatusCode, Container, DeviceInfo, ObjectKey, Quantity, Pod, Node,
}
use device_mounter.Server.World.{World}

-- The interface `DeviceMounter`. The context and the client are part of the history.
pub record DeviceMounter : Type 0 where
  pub device_type : String
  pub validate_mount_request :
      World → Node → Pod → Container → Dict Quantity → Dict String → Dict String → Option GoError
  pub build_support_pod_templates :
      World
      → Pod
      → Container
      → Dict Quantity
      → Dict String
      → Dict String
      → List Pod
      → Result (List Pod)
  pub verify_support_pod_status : World → Pod → StatusCode × Option GoError
  pub get_device_infos_to_mount : World → Pod → Container → List Pod → Result (List DeviceInfo)
  pub execute_post_mount_actions : World → ℕ → Pod → Container → List Pod → Option GoError
  pub get_device_infos_to_unmount : World → Pod → Container → List Pod → Result (List DeviceInfo)
  pub get_devices_active_process_ids : World → List ℕ → List DeviceInfo → Result (List ℕ)
  pub execute_post_unmount_actions : World → ℕ → Pod → Container → List Pod → Option GoError
  pub get_pods_to_cleanup : World → Pod → Container → List Pod → List ObjectKey

-- How setting device rules ended: whether the returned closer and rollback do anything (they are
-- `NilCloser` if not), and the error.
pub record RuleOutcome : Type 0 where
  pub closes : Bool
  pub restores : Bool
  pub error : Option GoError

pub record Cluster : Type 0 where
  pub node_name : String
  pub slave_image : String
  pub slave_pull_policy : String
  -- `Pods(namespace).Get(name)` of the API behind `retry.OnError`, and of the cache.
  pub api_get_pod : World → String → String → Result Pod
  pub cached_pod : World → String → String → Result Pod
  -- `Pods(namespace).List(selector)` of the cache, the selector as its labels.
  pub list_pods : World → String → Dict String → Result (List Pod)
  pub get_node : World → String → Result Node
  pub create_pod : World → Pod → Result Pod
  -- `Delete` behind `retry.OnError`.
  pub delete_pod : World → ObjectKey → Option GoError
  -- The JSON patch of a pod, and `resource.ParseQuantity`.
  pub apply_patches : List String → Pod → Result Pod
  pub parse_quantity : String → Result Quantity
  pub new_uuid : World → String
  -- `wait.PollUntilContextCancel`: the number of rounds before the context is done, and its error.
  pub poll_rounds : World → ℕ
  pub context_error : World → GoError
  -- `util.GetK8sPodCGroupPath` with the way to a full path, and `cgroups.GetAllPids`.
  pub is_cgroup2_unified : Bool
  pub is_cgroup2_hybrid : Bool
  pub devices_dir_missing : World → Bool
  pub cgroup_path : World → Bool → Pod → Container → Result String
  pub all_pids : World → String → Result (List ℕ)
  -- `SetDeviceRulesByCgroupv1` and `SetDeviceRulesByCgroupv2`.
  pub set_rules_v1 : World → String → List Rule → RuleOutcome
  pub set_rules_v2 : World → String → List Rule → RuleOutcome
  -- The texts that `%v` prints for a container of a request and for a number.
  pub show_container : Container → String
  pub show_number : ℕ → String
  -- `strings.ToUpper`, and the registry of `framework.GetDeviceMounter`.
  pub to_upper : String → String
  pub get_device_mounter : String → Option DeviceMounter
