-- ===== src/AscendNpu/Plugin.antt =====
-- pkg/devices/ascend/npu/device_info.go, ascend910.go and dynamic.go: the operations of the plugin.
-- None is a panic, an index out of range.

pub mod Forbidden
pub mod Refused
use device_mounter.Base.{
  ℕ, zero, suc, String, ◌<>◌, Bool, true, false, not, ◌||◌, ◌==◌, Option, none, some, List, [], ◌∷◌,
  ◌++◌, eqs, map, keep, any, contains, join, length, get_elem?, if◌then◌else◌,
}
use device_mounter.Base.Dict.{Dict, at_key}
use device_mounter.Base.Int.{pos}
use device_mounter.Base.Split.{split, trim_space}
use device_mounter.Api.{
  GoError, mounter_error, other_error, message, ResultCode, Result, ok, err, StatusCode, Container,
  DeviceInfo, ObjectKey, Quantity, Pod, PodContainer, Condition, Node, key_of, ◌>>=◌,
}
use device_mounter.Util.{
  check_resources_in_slice, check_resources_in_node, delete_slice_func, new_device_slave_pod,
}
use device_mounter.AscendNpu.{Host, ProcessInfo, init_npu_annotation, is_virt_dev, has_npu}
use device_mounter.AscendNpu.Allocated.{get_slave_pods_device_info, get_running_process}

-- `GetDeviceType`
abbrev pub plugin_name : String
plugin_name = "ASCEND_NPU"

-- The names of the initialised containers.
abbrev pub initialised_text : Pod → String
initialised_text pod = trim_space (at_key init_npu_annotation pod.annotations)

abbrev pub manager_paths : List String
manager_paths = "/dev/davinci_manager" ∷ "/dev/devmm_svm" ∷ "/dev/hisi_hdc" ∷ []

abbrev add_option : List PodContainer → List PodContainer
add_option [] = []
add_option (c ∷ rest) = record c { env = c.env ++ ("ASCEND_RUNTIME_OPTIONS", "NODRV") ∷ [] } ∷ rest

abbrev judge_conditions : List Condition → StatusCode × Option GoError
judge_conditions [] = (StatusCode.wait, none)
judge_conditions (c ∷ conditions) =
    if eqs c.reason "Unschedulable" || eqs c.reason "SchedulerError"
    then (StatusCode.unschedulable, some (mounter_error ResultCode.insufficient c.message))
    else (StatusCode.wait, none)

-- The inner loop over the processes of a device, by their number.
abbrev pub take_pids : ℕ → List ℕ → Option (List ℕ)
take_pids zero pids = some []
take_pids (suc n) [] = none
take_pids (suc n) (pid ∷ pids) = elim (take_pids n pids) [
  | none ↦ none
  | some rest ↦ some (pid ∷ rest)
]

-- `GetPodsToCleanup`
unfoldable pub get_pods_to_cleanup : List Pod → List ObjectKey
get_pods_to_cleanup slave_pods = map key_of slave_pods

module _ (host : Host) where
  abbrev pub names_in : String → List String
  names_in names = if eqs names "" then [] else split "," names

  abbrev pub ascend910 : String → String
  ascend910 suffix = host.resource_name_prefix <> ("Ascend910" <> suffix)

  abbrev any_resource : Dict Quantity → List String → Bool
  any_resource resources [] = false
  any_resource resources (name ∷ names) =
      check_resources_in_slice resources (name ∷ []) [] || any_resource resources names

  -- `CheckRequest910Resources`
  unfoldable pub check_request_910_resources : Dict Quantity → Bool
  check_request_910_resources resources =
      any_resource resources (map ascend910 ("" ∷ "-2c" ∷ "-4c" ∷ "-8c" ∷ "-16c" ∷ []))

  -- `CheckRequestDynamicResources`
  unfoldable pub check_request_dynamic_resources : Dict Quantity → Bool
  check_request_dynamic_resources resources =
      check_resources_in_slice resources
        ((host.resource_name_prefix <> host.ai_core_resource_name) ∷ []) []

  -- `ValidateMountRequest`
  unfoldable pub validate_mount_request :
      Option Node → Pod → Container → Dict Quantity → Option GoError
  validate_mount_request node owner_pod container resources =
      if not (check_request_910_resources resources || check_request_dynamic_resources resources)
      then some
          (mounter_error ResultCode.fail "Request for resources error: unsupported resource types")
      else if not (check_resources_in_node node resources)
      then some (mounter_error ResultCode.insufficient "Insufficient node resources")
      else if contains (split "," (initialised_text owner_pod)) container.name
      then some (
          mounter_error ResultCode.fail
            "The target container has initialized the NPU and cannot be mounted again")
      else none

  -- `BuildSupportPodTemplates`
  unfoldable pub build_support_pod_templates :
      Pod → Dict Quantity → Dict String → Dict String → List Pod
  unfolding new_device_slave_pod
  build_support_pod_templates owner_pod request annotations labels =
      let pod =
        new_device_slave_pod host.slave_image host.slave_pull_policy owner_pod request annotations
          labels in
      record pod {
        containers = add_option pod.containers;
        priority_class_name = owner_pod.priority_class_name;
      }
      ∷ []

  -- `VerifySupportPodStatus`
  unfoldable pub verify_support_pod_status : Pod → StatusCode × Option GoError
  verify_support_pod_status pod =
      if eqs pod.phase "Running"
      then (StatusCode.success, none)
      else if eqs pod.phase "Failed"
      then (
        StatusCode.fail,
        some (
            other_error (
              if eqs pod.message ""
              then "device slave container start failed"
              else host.errorf pod.message)),
      )
      else judge_conditions pod.conditions

  abbrev pub file_info : Bool → String → String → Result (ℕ × ℕ × ℕ) → Result DeviceInfo
  file_info allow id path (err e) = err e
  file_info allow id path (ok (major, minor, dev_type)) = ok (record {
    rule = record {
      type = dev_type;
      major = pos major;
      minor = pos minor;
      permissions = "rwm";
      allow = allow;
    };
    device_id = id;
    device_file_path = path;
  })

  abbrev device_file : ℕ → String
  device_file dev_id =
      (if is_virt_dev dev_id then "/dev/vdavinci" else "/dev/davinci") <> host.show_number dev_id

  -- The device of an identifier, allowed or forbidden.
  abbrev pub npu_info : Bool → ℕ → Result DeviceInfo
  npu_info allow dev_id =
      file_info allow (host.show_number dev_id) (device_file dev_id)
        (host.device_file_version (device_file dev_id))

  abbrev pub with_info :
      Result DeviceInfo
      → List DeviceInfo
      → (List DeviceInfo → Result (List DeviceInfo))
      → Result (List DeviceInfo)
  with_info (err e) infos rest = err e
  with_info (ok info) infos rest = rest (infos ++ info ∷ [])

  -- The loop over the files of the driver's management.
  unfoldable pub append_managers : Bool → List String → List DeviceInfo → Result (List DeviceInfo)
  append_managers allow [] infos = ok infos
  append_managers allow (path ∷ paths) infos =
      with_info (file_info allow "" path (host.device_file_version path)) infos
        (append_managers allow paths)

  abbrev pub unless_npu : Option Bool → List DeviceInfo → Option (Result (List DeviceInfo))
  unless_npu none infos = none
  unless_npu (some true) infos = some (ok infos)
  unless_npu (some false) infos = some (append_managers true manager_paths infos)

  abbrev pub on_slave_devices :
      Option Bool → Result (List DeviceInfo) → Option (Result (List DeviceInfo))
  on_slave_devices owned (err e) = some (err e)
  on_slave_devices owned (ok infos) = unless_npu owned infos

  -- `GetDeviceInfosToMount`; the infos beside an error are not kept, as no caller reads them.
  unfoldable pub get_device_infos_to_mount :
      Pod → Container → List Pod → Option (Result (List DeviceInfo))
  unfolding get_slave_pods_device_info
  get_device_infos_to_mount owner_pod container slave_pods =
      on_slave_devices (has_npu host owner_pod container)
        (get_slave_pods_device_info host slave_pods (npu_info true))

  abbrev pub with_managers : Result (List DeviceInfo) → Result (List DeviceInfo)
  with_managers (err e) = err e
  with_managers (ok infos) = append_managers false manager_paths infos

  abbrev pub refuse_npu : Option Bool → Result (List DeviceInfo) → Option (Result (List DeviceInfo))
  refuse_npu none infos = none
  refuse_npu (some true) infos =
      some (err (other_error "Currently not supported for uninstalling Ascend NPUs"))
  refuse_npu (some false) infos = some (with_managers infos)

  -- `GetDeviceInfosToUnmount`
  unfoldable pub get_device_infos_to_unmount :
      Pod → Container → List Pod → Option (Result (List DeviceInfo))
  unfolding get_slave_pods_device_info
  get_device_infos_to_unmount owner_pod container slave_pods =
      refuse_npu (has_npu host owner_pod container)
        (get_slave_pods_device_info host slave_pods (npu_info false))

  abbrev pub patched : Result Pod → Result Pod
  patched (err e) =
      err
        (other_error ("Failed to patch pod annotation [device-mounter.io/initNPU]: " <> message e))
  patched (ok pod) = ok pod

  abbrev pub annotate : Pod → String → Result Pod
  annotate pod names = patched (host.patch_annotations pod ((init_npu_annotation, names) ∷ []))

  abbrev pub mark_initialised : Pod → Container → List String → Result Pod
  mark_initialised owner_pod container names =
      if contains names container.name
      then ok owner_pod
      else annotate owner_pod (join (names ++ container.name ∷ []) ",")

  abbrev pub unless_own : Option Bool → Pod → Result Pod → Option (Result Pod)
  unless_own none owner_pod rest = none
  unless_own (some true) owner_pod rest = some (ok owner_pod)
  unless_own (some false) owner_pod rest = some rest

  -- `ExecutePostMountActions`, with the pod as the patch leaves it.
  unfoldable pub execute_post_mount_actions : Pod → Container → Option (Result Pod)
  execute_post_mount_actions owner_pod container =
      unless_own (has_npu host owner_pod container) owner_pod
        (mark_initialised owner_pod container (names_in (initialised_text owner_pod)))

  abbrev pub other_names : Container → List String → List String
  other_names container names = delete_slice_func (λ s. not (eqs s container.name)) names

  abbrev pub forget_container : Pod → List String → List String → Result Pod
  forget_container owner_pod old_names new_names =
      if length old_names == length new_names
      then ok owner_pod
      else annotate owner_pod (join new_names ",")

  -- `ExecutePostUnmountActions`
  unfoldable pub execute_post_unmount_actions : Pod → Container → Result Pod
  execute_post_unmount_actions owner_pod container =
      let names = initialised_text owner_pod in
      if eqs names ""
      then ok owner_pod
      else forget_container owner_pod (split "," names) (other_names container (split "," names))

  abbrev append_pids : Option (List ℕ) → Option (List ℕ) → Option (List ℕ)
  append_pids none rest = none
  append_pids (some pids) none = none
  append_pids (some pids) (some rest) = some (pids ++ rest)

  unfoldable pub listed_pids : List ProcessInfo → Option (List ℕ)
  listed_pids [] = some []
  listed_pids (info ∷ infos) = append_pids (take_pids info.proc_num info.pids) (listed_pids infos)

  abbrev pub common_pids : List ℕ → Option (List ℕ) → Option (Result (List ℕ))
  common_pids container_pids none = none
  common_pids container_pids (some pids) =
      some (ok (host.int_set (keep (λ pid. any (λ p. p == pid) container_pids) pids)))

  -- `GetDevicesActiveProcessIDs`
  unfoldable pub get_devices_active_process_ids : List ℕ → Option (Result (List ℕ))
  unfolding listed_pids
  get_devices_active_process_ids container_pids = elim (get_running_process host) [
    | err e ↦ some (err e)
    | ok infos ↦ common_pids container_pids (listed_pids infos)
  ]
