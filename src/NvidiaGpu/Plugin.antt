-- ===== src/NvidiaGpu/Plugin.antt =====
-- pkg/devices/nvidia/gpu/device_info.go: the operations of the plugin.
use device_mounter.Base.{
  ℕ, zero, suc, String, Bool, true, false, not, ◌||◌, Option, none, some, List, [], ◌∷◌, ◌++◌, eqs,
  map, keep, any, ◌==◌, if◌then◌else◌,
}
use device_mounter.Base.Dict.{Dict, lookup}
use device_mounter.Base.Int.{pos, negsuc}
use device_mounter.Api.{
  GoError, mounter_error, other_error, ResultCode, Result, ok, err, StatusCode, Container,
  DeviceInfo, ObjectKey, Quantity, Pod, PodContainer, Condition, Node, key_of,
}
use device_mounter.Util.{check_resources_in_slice, check_resources_in_node, new_device_slave_pod}
use device_mounter.Vgpu.Nvml.{success, failure}
use device_mounter.NvidiaGpu.{NvidiaGpu, Host, Collector, resource_name}
use device_mounter.NvidiaGpu.Status.{
  update_gpu_status, get_pod_gpu_resources, get_container_gpu_resources, get_running_process,
  new_gpu_collector,
}

-- `GetDeviceType`
abbrev pub plugin_name : String
plugin_name = "NVIDIA_GPU"

-- `ValidateMountRequest`
unfoldable pub validate_mount_request : Option Node → Dict Quantity → Option GoError
validate_mount_request node request =
    if not (check_resources_in_slice request (resource_name ∷ []) [])
    then some (mounter_error ResultCode.fail "Request for resources error")
    else if not (check_resources_in_node node request)
    then some (mounter_error ResultCode.insufficient "Insufficient node resources")
    else none

-- `quantity.Value()` of the request, as the number of rounds of a loop.
abbrev pub rounds : Option Quantity → ℕ
rounds none = 0
rounds (some quantity) = elim (quantity.value) [ pos n ↦ n | negsuc n ↦ 0 ]

abbrev pub char_device : String → String → ℕ → ℕ → Bool → DeviceInfo
char_device id path major minor allow = record {
  rule = record {
    type = b'c';
    major = pos major;
    minor = pos minor;
    permissions = "rw";
    allow = allow;
  };
  device_id = id;
  device_file_path = path;
}

-- The device file and the rule of one GPU.
abbrev pub gpu_info : Bool → NvidiaGpu → DeviceInfo
gpu_info allow gpu = char_device gpu.uuid gpu.device_file_path 195 gpu.minor_number allow

abbrev hide_devices : PodContainer → PodContainer
hide_devices c = record c { env = c.env ++ ("NVIDIA_VISIBLE_DEVICES", "none") ∷ [] }

abbrev first_hidden : List PodContainer → List PodContainer
first_hidden [] = []
first_hidden (c ∷ rest) = hide_devices c ∷ rest

abbrev judge_conditions : List Condition → StatusCode × Option GoError
judge_conditions [] = (StatusCode.wait, none)
judge_conditions (c ∷ conditions) =
    if eqs c.reason "Unschedulable" || eqs c.reason "SchedulerError"
    then (StatusCode.unschedulable, some (mounter_error ResultCode.insufficient c.message))
    else (StatusCode.wait, none)

-- `GetPodsToCleanup`
unfoldable pub get_pods_to_cleanup : List Pod → List ObjectKey
get_pods_to_cleanup slave_pods = map key_of slave_pods

module _ (host : Host) where
  -- One round of `BuildSupportPodTemplates`; `NewDeviceSlavePod` makes one container.
  unfoldable pub gpu_slave_pod : Pod → Dict String → Dict String → Pod
  unfolding new_device_slave_pod
  gpu_slave_pod owner_pod annotations labels =
      let pod =
        new_device_slave_pod host.slave_image host.slave_pull_policy owner_pod
          ((resource_name, record { value = pos 1; is_zero = false }) ∷ []) annotations labels in
      record pod {
        containers = first_hidden pod.containers;
        priority_class_name = owner_pod.priority_class_name;
      }

  unfoldable pub build_pods : ℕ → Pod → Dict String → Dict String → List Pod
  build_pods zero owner_pod annotations labels = []
  build_pods (suc n) owner_pod annotations labels =
      gpu_slave_pod owner_pod annotations labels ∷ build_pods n owner_pod annotations labels

  -- `BuildSupportPodTemplates`
  unfoldable pub build_support_pod_templates :
      Pod → Dict Quantity → Dict String → Dict String → List Pod
  build_support_pod_templates owner_pod request annotations labels =
      build_pods (rounds (lookup resource_name request)) owner_pod annotations labels

  -- `VerifySupportPodStatus`
  unfoldable pub verify_support_pod_status : Pod → StatusCode × Option GoError
  verify_support_pod_status pod =
      if eqs pod.phase "Running"
      then (StatusCode.success, none)
      else if eqs pod.phase "Failed"
      then (
        StatusCode.fail,
        some (
            other_error (
              if eqs pod.message ""
              then "device slave container start failed"
              else host.errorf pod.message)),
      )
      else judge_conditions pod.conditions

  abbrev pub more_gpus :
      List NvidiaGpu → Result (List NvidiaGpu) × Collector → Result (List NvidiaGpu) × Collector
  more_gpus gpus (err e, collector) = (err e, collector)
  more_gpus gpus (ok rest, collector) = (ok (gpus ++ rest), collector)

  abbrev pub on_resources :
      (Collector → Result (List NvidiaGpu) × Collector)
      → Result (List NvidiaGpu) × Collector
      → Result (List NvidiaGpu) × Collector
  on_resources rest (err e, collector) = (err e, collector)
  on_resources rest (ok gpus, collector) = more_gpus gpus (rest collector)

  -- The loop over the slave pods. The code keeps pointers to the GPUs, of which it reads only what an
  -- update does not change.
  unfoldable pub slave_gpus : List Pod → Collector → Result (List NvidiaGpu) × Collector
  slave_gpus [] collector = (ok [], collector)
  slave_gpus (pod ∷ slave_pods) collector =
      on_resources (slave_gpus slave_pods)
        (get_pod_gpu_resources host pod.name pod.namespace collector)

  abbrev pub with_version :
      String
      → List DeviceInfo
      → Result (ℕ × ℕ)
      → (List DeviceInfo → Result (List DeviceInfo))
      → Result (List DeviceInfo)
  with_version path infos (err e) rest = err e
  with_version path infos (ok (major, minor)) rest =
      rest (infos ++ char_device "" path major minor true ∷ [])

  -- The driver's files, behind the GPUs.
  unfoldable pub append_driver_files : List DeviceInfo → Result (List DeviceInfo)
  append_driver_files infos =
      with_version "/dev/nvidia-uvm" (infos ++ char_device "" "/dev/nvidiactl" 195 255 true ∷ [])
        (host.device_file_version "/dev/nvidia-uvm")
        λ more.
          with_version "/dev/nvidia-uvm-tools" more
            (host.device_file_version "/dev/nvidia-uvm-tools") λ all. ok all

  -- The error of the owner's GPUs is dropped, as no GPUs.
  abbrev pub on_owned :
      List DeviceInfo → Result (List NvidiaGpu) × Collector → Result (List DeviceInfo) × Collector
  on_owned infos (err e, collector) = (append_driver_files infos, collector)
  on_owned infos (ok [], collector) = (append_driver_files infos, collector)
  on_owned infos (ok (gpu ∷ gpus), collector) = (ok infos, collector)

  abbrev pub on_slave_gpus :
      Pod → Container → Result (List NvidiaGpu) × Collector → Result (List DeviceInfo) × Collector
  on_slave_gpus owner_pod container (err e, collector) = (err e, collector)
  on_slave_gpus owner_pod container (ok gpus, collector) =
      on_owned (map (gpu_info true) gpus) (
        get_container_gpu_resources host owner_pod.name owner_pod.namespace container.name
          collector)

  -- `GetDeviceInfosToMount`; the infos beside an error are not kept, as no caller reads them.
  unfoldable pub get_device_infos_to_mount :
      Pod → Container → List Pod → Collector → Result (List DeviceInfo) × Collector
  get_device_infos_to_mount owner_pod container slave_pods collector =
      on_slave_gpus owner_pod container (slave_gpus slave_pods collector)

  abbrev pub forbid_gpus :
      Result (List NvidiaGpu) × Collector → Result (List DeviceInfo) × Collector
  forbid_gpus (err e, collector) = (err e, collector)
  forbid_gpus (ok gpus, collector) = (ok (map (gpu_info false) gpus), collector)

  -- `GetDeviceInfosToUnmount`
  unfoldable pub get_device_infos_to_unmount :
      List Pod → Collector → Result (List DeviceInfo) × Collector
  get_device_infos_to_unmount slave_pods collector = forbid_gpus (slave_gpus slave_pods collector)

  -- The processes of the first GPU with the identifier; an error is passed over.
  unfoldable pub processes_of : ℕ → String → List NvidiaGpu → List ℕ
  processes_of now uuid [] = []
  processes_of now uuid (gpu ∷ gpus) =
      if eqs uuid gpu.uuid
      then elim (get_running_process host (host.moment now).nvml gpu) [
        | err e ↦ []
        | ok pids ↦ pids
      ]
      else processes_of now uuid gpus

  -- The loop over the devices; the driver's files have no identifier.
  unfoldable pub process_infos : ℕ → List DeviceInfo → List NvidiaGpu → List ℕ
  process_infos now [] gpus = []
  process_infos now (info ∷ infos) gpus =
      let rest = process_infos now infos gpus in
      if eqs info.device_id "" then rest else processes_of now info.device_id gpus ++ rest

  abbrev pub on_update :
      List ℕ → List DeviceInfo → Option GoError × Collector → Result (List ℕ) × Collector
  on_update container_pids infos (some e, collector) = (err e, collector)
  on_update container_pids infos (none, collector) = (
    ok (
        host.int_set (
          keep (λ pid. any (λ p. p == pid) container_pids)
            (process_infos collector.updates infos collector.gpu_list))),
    collector,
  )

  -- `GetDevicesActiveProcessIDs`
  unfoldable pub get_devices_active_process_ids :
      List ℕ → List DeviceInfo → Collector → Result (List ℕ) × Collector
  get_devices_active_process_ids container_pids infos collector =
      on_update container_pids infos (update_gpu_status host collector)

  -- `checkDeviceEnvironment`
  unfoldable pub check_device_environment : Bool
  check_device_environment = elim ((host.moment 0).nvml.init) [
    | success _ ↦ true
    | failure e ↦ false
  ]

  -- `NewNvidiaGPUMounter`
  unfoldable pub new_nvidia_gpu_mounter : Result Collector
  new_nvidia_gpu_mounter =
      if check_device_environment
      then new_gpu_collector host
      else err (
          other_error
            "The current node environment does not have the operating conditions for NvidiaGPUMounter")
