-- ===== src/Vgpu/Devices.antt =====
-- pkg/devices/volcano/vgpu/device_info.go: the devices to mount and to unmount, and the pods to clean
-- up. None is a panic.
pub mod Forbidden
use device_mounter.Base.{
  ℕ, String, ◌<>◌, Bool, true, false, ◌||◌, Option, none, some, List, [], ◌∷◌, ◌++◌, contains, eqs,
  join, length, map, keep, not, if◌then◌else◌,
}
use device_mounter.Base.Dict.{Dict, lookup, insert, at_key, has_key}
use device_mounter.Base.Int.{ℤ, pos, exceeds}
use device_mounter.Base.Split.{split, trim_space}
use device_mounter.Ebpf.{Rule}
use device_mounter.Api.{
  GoError, mounter_error, other_error, ResultCode, Result, ok, err, StatusCode, Container,
  DeviceInfo, ObjectKey, Quantity, Pod, PodContainer, Condition, Node, key_of, anno_is_expansion,
}
use device_mounter.Util.{check_resources_in_slice, check_resources_in_node, new_device_slave_pod}
use device_mounter.Vgpu.{
  assigned_ids_annotation, init_vgpu_annotation, vgpu_number, comma, Device, decode_pod_devices,
  get_devices_uuid, has_vgpu,
}
use device_mounter.Vgpu.Plugin.{Host}
use device_mounter.Vgpu.Nvml.{Nvml, get_device_minor_by_uuid}

module _ (host : Host) where
  abbrev char_device : String → String → ℕ → ℕ → Bool → DeviceInfo
  char_device id path major minor allow = record {
    rule = record {
      type = b'c';
      major = pos major;
      minor = pos minor;
      permissions = "rw";
      allow = allow;
    };
    device_id = id;
    device_file_path = path;
  }

  -- The device file and the rule of one GPU.
  unfoldable pub gpu_info : Bool → String → ℕ → DeviceInfo
  gpu_info allow uuid minor =
      char_device uuid ("/dev/nvidia" <> host.show_number minor) 195 minor allow

  abbrev pub info_of :
      Bool → Device → Result ℕ → Result (List DeviceInfo) → Result (List DeviceInfo)
  info_of allow dev (err e) rest = err e
  info_of allow dev (ok minor) (err e) = err e
  info_of allow dev (ok minor) (ok rest) = ok (gpu_info allow dev.uuid minor ∷ rest)

  -- The loops over the devices of a pod.
  unfoldable pub device_infos : Bool → List Device → Result (List DeviceInfo)
  unfolding gpu_info get_device_minor_by_uuid
  device_infos allow [] = ok []
  device_infos allow (dev ∷ devices) =
      info_of allow dev (get_device_minor_by_uuid host.nvml dev.uuid) (device_infos allow devices)

  abbrev pub append_infos :
      Result (List DeviceInfo) → Result (List DeviceInfo) → Result (List DeviceInfo)
  append_infos (err e) rest = err e
  append_infos (ok infos) (err e) = err e
  append_infos (ok infos) (ok rest) = ok (infos ++ rest)

  unfoldable pub container_infos : Bool → List (List Device) → Result (List DeviceInfo)
  unfolding device_infos
  container_infos allow [] = ok []
  container_infos allow (devices ∷ rest) =
      append_infos (device_infos allow devices) (container_infos allow rest)

  -- An error ends the loop before the next annotation is decoded.
  abbrev pub then_infos :
      Result (List DeviceInfo)
      → Option (Result (List DeviceInfo))
      → Option (Result (List DeviceInfo))
  then_infos (err e) rest = some (err e)
  then_infos (ok infos) none = none
  then_infos (ok infos) (some rest) = some (append_infos (ok infos) rest)

  abbrev pub on_decoded :
      Bool
      → Option (List (List Device))
      → Option (Result (List DeviceInfo))
      → Option (Result (List DeviceInfo))
  on_decoded allow none rest = none
  on_decoded allow (some devices) rest = then_infos (container_infos allow devices) rest

  -- The loop over the slave pods.
  unfoldable pub pod_infos : Bool → List Pod → Option (Result (List DeviceInfo))
  unfolding container_infos
  pod_infos allow [] = some (ok [])
  pod_infos allow (pod ∷ slave_pods) =
      on_decoded allow (decode_pod_devices (at_key assigned_ids_annotation pod.annotations))
        (pod_infos allow slave_pods)

  abbrev pub version_info : String → Result (ℕ × ℕ) → Result (List DeviceInfo)
  version_info path (err e) = err e
  version_info path (ok (major, minor)) = ok (char_device "" path major minor true ∷ [])

  -- The files that every vGPU container needs.
  unfoldable pub control_infos : Result (List DeviceInfo)
  control_infos = append_infos (ok (char_device "" "/dev/nvidiactl" 195 255 true ∷ [])) (
      append_infos (version_info "/dev/nvidia-uvm" (host.device_file_version "/dev/nvidia-uvm"))
        (version_info "/dev/nvidia-uvm-tools" (host.device_file_version "/dev/nvidia-uvm-tools")))

  abbrev pub with_control :
      Option Bool → Result (List DeviceInfo) → Option (Result (List DeviceInfo))
  with_control owned (err e) = some (err e)
  with_control none (ok infos) = none
  with_control (some true) (ok infos) = some (ok infos)
  with_control (some false) (ok infos) = some (append_infos (ok infos) control_infos)

  abbrev pub on_infos :
      Pod → Container → Option (Result (List DeviceInfo)) → Option (Result (List DeviceInfo))
  on_infos owner_pod container none = none
  on_infos owner_pod container (some infos) = with_control (has_vgpu owner_pod container) infos

  -- `GetDeviceInfosToMount`; the infos beside an error are not kept, as no caller reads them.
  unfoldable pub get_device_infos_to_mount :
      Pod → Container → List Pod → Option (Result (List DeviceInfo))
  unfolding pod_infos control_infos
  get_device_infos_to_mount owner_pod container [] = none
  get_device_infos_to_mount owner_pod container (pod ∷ slave_pods) =
      if anno_is_expansion pod.annotations
      then some (ok [])
      else on_infos owner_pod container (pod_infos true (pod ∷ slave_pods))

  abbrev pub is_mounted : Pod → Bool
  is_mounted pod = not (anno_is_expansion pod.annotations)

  -- `GetDeviceInfosToUnmount`: the loop of the mount, which skips a pod used for an expansion.
  unfoldable pub get_device_infos_to_unmount : List Pod → Option (Result (List DeviceInfo))
  unfolding container_infos
  get_device_infos_to_unmount [] = some (ok [])
  get_device_infos_to_unmount (pod ∷ slave_pods) =
      let rest = get_device_infos_to_unmount slave_pods in
      if anno_is_expansion pod.annotations
      then rest
      else on_decoded false (decode_pod_devices (at_key assigned_ids_annotation pod.annotations))
          rest

  -- `GetPodsToCleanup`
  unfoldable pub get_pods_to_cleanup : List Pod → List ObjectKey
  unfolding key_of
  get_pods_to_cleanup [] = []
  get_pods_to_cleanup (pod ∷ slave_pods) =
      let rest = get_pods_to_cleanup slave_pods in
      if anno_is_expansion pod.annotations then rest else key_of pod ∷ rest
