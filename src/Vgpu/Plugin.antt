-- ===== src/Vgpu/Plugin.antt =====
-- pkg/devices/volcano/vgpu/device_info.go: the verdicts of the plugin and its templates. None is a
-- panic.
pub mod Judged
use device_mounter.Base.{
  ℕ, String, ◌<>◌, Bool, true, false, ◌||◌, Option, none, some, List, [], ◌∷◌, ◌++◌, contains, eqs,
  join, length, map, keep, not, if◌then◌else◌,
}
use device_mounter.Base.Dict.{Dict, lookup, insert, at_key, has_key}
use device_mounter.Base.Int.{ℤ, pos, exceeds}
use device_mounter.Base.Split.{split, trim_space}
use device_mounter.Ebpf.{Rule}
use device_mounter.Api.{
  GoError, mounter_error, other_error, ResultCode, Result, ok, err, StatusCode, Container,
  DeviceInfo, ObjectKey, Quantity, Pod, PodContainer, Condition, Node, key_of, anno_is_expansion,
}
use device_mounter.Util.{check_resources_in_slice, check_resources_in_node, new_device_slave_pod}
use device_mounter.Vgpu.{
  assigned_ids_annotation, init_vgpu_annotation, vgpu_number, comma, Device, decode_pod_devices,
  get_devices_uuid, has_vgpu,
}
use device_mounter.Vgpu.Nvml.{Nvml, get_device_minor_by_uuid}

-- What the plugin asks outside: the library, files of the host, and texts printed by fmt.
pub record Host : Type 0 where
  pub nvml : Nvml
  -- The sorted set of a list, of apimachinery's sets.
  pub list_set : List String → List String
  -- `os.Stat(GetVGPUCacheFileDir(…))`
  pub stat_cache : Pod → Container → Option GoError
  -- `util.GetDeviceFileVersion`
  pub device_file_version : String → Result (ℕ × ℕ)
  pub show_number : ℕ → String
  -- `fmt.Errorf` of a format without arguments.
  pub errorf : String → String
  pub slave_image : String
  pub slave_pull_policy : String

abbrev fail_with : String → Option GoError
fail_with text = some (mounter_error ResultCode.fail text)

abbrev zero_quantity : Quantity
zero_quantity = record { value = pos 0; is_zero = true }

abbrev pub wanted : Dict Quantity → Quantity
wanted request = elim (lookup vgpu_number request) [ none ↦ zero_quantity | some q ↦ q ]

abbrev pub ignored_resources : List String
ignored_resources =
    "volcano.sh/vgpu-memory" ∷ "volcano.sh/vgpu-cores" ∷ "volcano.sh/vgpu-memory-percentage" ∷ []

module _ (host : Host) where
  -- The request does not exceed the devices of the target container.
  abbrev pub within_used :
      Dict Quantity → Container → Option (List (List Device)) → Option (Option GoError)
  within_used request container none = none
  within_used request container (some pod_devices) =
      if exceeds (wanted request).value
        (length (get_devices_uuid host.list_set pod_devices container.index))
      then some (
          fail_with
            "The requested resource count exceeds the target container resource count and cannot be expanded")
      else some none

  abbrev pub with_cache : Option GoError → Option (Option GoError)
  with_cache none = some none
  with_cache (some e) =
      some (fail_with "The target container does not have vGPU resources and cannot be expanded")

  abbrev pub not_initialised : Pod → Container → Option (Option GoError)
  not_initialised owner_pod container =
      if contains (split comma (trim_space (at_key init_vgpu_annotation owner_pod.annotations)))
        container.name
      then some
          (fail_with "The target container has initialized the vGPU and cannot be mounted again")
      else some none

  -- The switch of `ValidateMountRequest`.
  abbrev pub check_target :
      Pod → Container → Dict Quantity → Bool → Option String → Option (Option GoError)
  check_target owner_pod container request true (some devs) =
      within_used request container (decode_pod_devices devs)
  check_target owner_pod container request true none =
      with_cache (host.stat_cache owner_pod container)
  check_target owner_pod container request false devs = not_initialised owner_pod container

  -- `ValidateMountRequest`
  unfoldable pub validate_mount_request :
      Option Node → Pod → Container → Dict Quantity → Dict String → Option (Option GoError)
  unfolding check_resources_in_slice get_devices_uuid decode_pod_devices
  validate_mount_request node owner_pod container request annotations =
      if not (check_resources_in_slice request (vgpu_number ∷ []) ignored_resources)
      then some (fail_with "Request for resources error")
      else if not (check_resources_in_node node ((vgpu_number, wanted request) ∷ []))
      then some (some (mounter_error ResultCode.insufficient "Insufficient node resources"))
      else check_target owner_pod container request (anno_is_expansion annotations)
          (lookup assigned_ids_annotation owner_pod.annotations)

  -- The devices of the slave pods behind those given.
  unfoldable pub slave_devices : List Pod → List (List Device) → Option (List (List Device))
  unfolding decode_pod_devices
  slave_devices [] pod_devices = some pod_devices
  slave_devices (pod ∷ slave_pods) pod_devices =
      elim (decode_pod_devices (at_key assigned_ids_annotation pod.annotations)) [
        | none ↦ none
        | some devices ↦ slave_devices slave_pods (pod_devices ++ devices)
      ]

  abbrev use_uuid : Dict String → List String → Dict String
  use_uuid annotations uuids = insert "nvidia.com/use-gpuuuid" (join uuids ",") annotations

  -- The annotations of a template that expands hot-mounted devices.
  abbrev pub expand_mounted :
      Dict Quantity → Dict String → Option (List (List Device)) → Option (Result (Dict String))
  expand_mounted request annotations none = none
  expand_mounted request annotations (some pod_devices) =
      elim (get_devices_uuid host.list_set pod_devices 0) [
        | [] ↦ some (err (other_error "Unable to find scalable vGPU devices"))
        | u ∷ uuids ↦
            if exceeds (wanted request).value (length (u ∷ uuids))
            then some (
                err (
                  other_error
                    "The number of requested devices [volcano.sh/vgpu-number] exceeds the number of expandable devices"))
            else some (ok (use_uuid annotations (u ∷ uuids)))
      ]

  -- The annotations of a template that mounts new devices.
  abbrev pub avoid_used :
      Container → Dict String → Option (List (List Device)) → Option (Result (Dict String))
  avoid_used container annotations none = none
  avoid_used container annotations (some pod_devices) =
      elim (get_devices_uuid host.list_set pod_devices container.index) [
        | [] ↦ some (ok annotations)
        | u ∷ uuids ↦
            some (ok (insert "nvidia.com/nouse-gpuuuid" (join (u ∷ uuids) ",") annotations))
      ]

  -- The switch of `BuildSupportPodTemplates`.
  abbrev pub choose_devices :
      Container
      → Dict Quantity
      → Dict String
      → List Pod
      → Bool
      → Bool
      → Option (List (List Device))
      → Option (Result (Dict String))
  choose_devices container request annotations slave_pods expansion has_devices none = none
  choose_devices container request annotations slave_pods true true (some pod_devices) =
      some (ok (use_uuid annotations (get_devices_uuid host.list_set pod_devices container.index)))
  choose_devices container request annotations slave_pods true false (some pod_devices) =
      expand_mounted request annotations (slave_devices slave_pods pod_devices)
  choose_devices container request annotations slave_pods false has_devices (some pod_devices) =
      avoid_used container annotations (slave_devices slave_pods pod_devices)

  abbrev hide_devices : PodContainer → PodContainer
  hide_devices c = record c { env = c.env ++ ("NVIDIA_VISIBLE_DEVICES", "none") ∷ [] }

  abbrev first_hidden : List PodContainer → List PodContainer
  first_hidden [] = []
  first_hidden (c ∷ rest) = hide_devices c ∷ rest

  -- The slave pod of the template; `NewDeviceSlavePod` makes one container.
  unfoldable pub vgpu_slave_pod : Pod → Dict Quantity → Dict String → Dict String → Pod
  unfolding new_device_slave_pod
  vgpu_slave_pod owner_pod request annotations labels =
      let pod =
        new_device_slave_pod host.slave_image host.slave_pull_policy owner_pod request annotations
          labels in
      record pod {
        containers = first_hidden pod.containers;
        scheduler_name = "volcano";
        priority_class_name = owner_pod.priority_class_name;
      }

  abbrev pub as_template :
      Pod → Dict Quantity → Dict String → Option (Result (Dict String)) → Option (Result (List Pod))
  as_template owner_pod request labels none = none
  as_template owner_pod request labels (some (err e)) = some (err e)
  as_template owner_pod request labels (some (ok annotations)) =
      some (ok (vgpu_slave_pod owner_pod request annotations labels ∷ []))

  -- `BuildSupportPodTemplates`
  unfoldable pub build_support_pod_templates :
      Pod
      → Container
      → Dict Quantity
      → Dict String
      → Dict String
      → List Pod
      → Option (Result (List Pod))
  unfolding vgpu_slave_pod
  build_support_pod_templates owner_pod container request annotations labels slave_pods =
      as_template owner_pod request labels (
        choose_devices container request annotations slave_pods (anno_is_expansion annotations)
          (has_key assigned_ids_annotation owner_pod.annotations)
          (decode_pod_devices (at_key assigned_ids_annotation owner_pod.annotations)))

  abbrev pub judge_devices : Option (List (List Device)) → Option (StatusCode × Option GoError)
  judge_devices none = none
  judge_devices (some []) =
      some (StatusCode.fail, some (other_error "vGPU device allocation error"))
  judge_devices (some (d ∷ devices)) = some (StatusCode.success, none)

  abbrev pub judge_conditions : List Condition → StatusCode × Option GoError
  judge_conditions [] = (StatusCode.wait, none)
  judge_conditions (c ∷ conditions) =
      if eqs c.reason "Unschedulable" || eqs c.reason "SchedulerError"
      then (StatusCode.unschedulable, some (mounter_error ResultCode.insufficient c.message))
      else (StatusCode.wait, none)

  -- `VerifySupportPodStatus`
  unfoldable pub verify_support_pod_status : Pod → Option (StatusCode × Option GoError)
  unfolding decode_pod_devices
  verify_support_pod_status pod =
      if eqs pod.phase "Running"
      then judge_devices (decode_pod_devices (at_key assigned_ids_annotation pod.annotations))
      else if eqs pod.phase "Failed"
      then some (
        StatusCode.fail,
        some (
            other_error (
              if eqs pod.message ""
              then "device slave container start failed"
              else host.errorf pod.message)),
      )
      else some (judge_conditions pod.conditions)
