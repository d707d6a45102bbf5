-- ===== src/Vgpu/Hooks.antt =====
-- pkg/devices/volcano/vgpu/device_info.go: ExecutePostMountActions and ExecutePostUnmountActions. None
-- is a panic.
pub mod Named
use device_mounter.Base.{
  ℕ, String, ◌<>◌, Bool, true, false, not, ◌||◌, ◌==◌, Option, none, some, List, [], ◌∷◌, ◌++◌, eqs,
  contains, join, length, keep, if◌then◌else◌,
}
use device_mounter.Base.Dict.{Dict, insert, at_key}
use device_mounter.Base.Split.{split, trim_space}
use device_mounter.Api.{
  GoError, other_error, message, Result, ok, err, Container, Pod, anno_is_expansion,
}
use device_mounter.Util.{delete_slice_func}
use device_mounter.Vgpu.{Device, comma, init_vgpu_annotation, has_vgpu, get_pod_dev_map}
use device_mounter.Vgpu.Region.{
  SharedRegion, add_vgpu_resource, sub_vgpu_resource, attach_devices, detach_devices,
}
use device_mounter.Vgpu.Envs.{Printer, get_vgpu_envs, get_init_vgpu_shell}
use device_mounter.Vgpu.Actions.{
  State, World, Run, log, removed, executed, annotated, lib_path, preload_target,
  mutation_cache_func, initialised, failed, expansion_vgpu_device, attach_to_vgpu_container,
  attach_to_ordinary_container,
}

module _ (w : World) where
  -- The switch of `ExecutePostMountActions` for a pod with its devices.
  abbrev pub attach_pod : Pod → Container → Dict Device → Bool → Option Bool → Option GoError → Run
  attach_pod owner_pod container dev_map true owned missing s = expansion_vgpu_device w dev_map s
  attach_pod owner_pod container dev_map false none missing s = none
  attach_pod owner_pod container dev_map false (some true) missing s =
      attach_to_vgpu_container w dev_map s
  attach_pod owner_pod container dev_map false (some false) none s =
      attach_to_vgpu_container w dev_map s
  attach_pod owner_pod container dev_map false (some false) (some e) s =
      some (attach_to_ordinary_container w dev_map owner_pod container s)

  abbrev pub on_dev_map : Pod → Container → Pod → Option (Dict Device) → Run
  on_dev_map owner_pod container slave_pod none s = none
  on_dev_map owner_pod container slave_pod (some dev_map) s =
      attach_pod owner_pod container dev_map (anno_is_expansion slave_pod.annotations)
        (has_vgpu owner_pod container) (w.stat_cache s) s

  abbrev pub go_on : Run → Option (Option GoError × State) → Option (Option GoError × State)
  go_on continue none = none
  go_on continue (some (some e, s)) = some (some e, s)
  go_on continue (some (none, s)) = continue s

  -- `ExecutePostMountActions`
  unfoldable pub execute_post_mount_actions : Pod → Container → List Pod → Run
  unfolding expansion_vgpu_device attach_to_vgpu_container attach_to_ordinary_container
  execute_post_mount_actions owner_pod container [] s = some (none, s)
  execute_post_mount_actions owner_pod container (slave_pod ∷ slave_pods) s =
      go_on (execute_post_mount_actions owner_pod container slave_pods)
        (on_dev_map owner_pod container slave_pod (get_pod_dev_map slave_pod) s)

  abbrev merge : Dict Device → Dict Device → Dict Device
  merge [] m = m
  merge ((uuid, dev) ∷ more) m = merge more (insert uuid dev m)

  -- The devices of all pods.
  unfoldable pub merge_dev_maps : List Pod → Dict Device → Option (Dict Device)
  merge_dev_maps [] m = some m
  merge_dev_maps (pod ∷ pods) m = elim (get_pod_dev_map pod) [
    | none ↦ none
    | some more ↦ merge_dev_maps pods (merge more m)
  ]

  -- The error of the mutation is ignored.
  abbrev pub ignore_error : Option (Option GoError × State) → Option State
  ignore_error none = none
  ignore_error (some (e, s)) = some s

  abbrev pub detach_from_cache : Option (Dict Device) → State → Option State
  detach_from_cache none s = none
  detach_from_cache (some dev_map) s = ignore_error (mutation_cache_func (detach_devices dev_map) s)

  abbrev pub is_mounted : Pod → Bool
  is_mounted pod = not (anno_is_expansion pod.annotations)

  abbrev pub detach_all : List Pod → Option GoError → State → Option State
  detach_all [] missing s = some s
  detach_all (pod ∷ pods) (some e) s = some s
  detach_all (pod ∷ pods) none s = detach_from_cache (merge_dev_maps (pod ∷ pods) []) s

  abbrev pub on_unpatched : String → State → Option GoError → Option GoError × State
  on_unpatched names s (some e) =
      failed w "Failed to patch pod annotation [device-mounter.io/initVGPU]: " e s
  on_unpatched names s none = (
    none,
    log (removed preload_target)
        (log (removed lib_path) (log (removed "/tmp/cudevshr.cache") (log (annotated names) s))),
  )

  -- The names without the container's.
  abbrev pub other_names : Container → List String → List String
  other_names container names = delete_slice_func (λ s. not (eqs s container.name)) names

  abbrev pub forget_container : Container → List String → State → Option GoError × State
  forget_container container old_names s =
      let new_names = other_names container old_names in
      if length old_names == length new_names
      then (none, s)
      else on_unpatched (join new_names ",") s (w.patch_annotation s (join new_names ","))

  abbrev pub on_detached : Pod → Container → Option State → Option (Option GoError × State)
  on_detached owner_pod container none = none
  on_detached owner_pod container (some s) =
      if eqs (initialised owner_pod) ""
      then some (none, s)
      else some (forget_container container (split comma (initialised owner_pod)) s)

  -- `ExecutePostUnmountActions`
  unfoldable pub execute_post_unmount_actions : Pod → Container → List Pod → Run
  unfolding merge_dev_maps
  execute_post_unmount_actions owner_pod container slave_pods s =
      on_detached owner_pod container (detach_all (keep is_mounted slave_pods) (w.stat_cache s) s)
