-- ===== src/AscendNpu/Plugin/Forbidden.antt =====
-- The devices that the plugin names for a mount and for an unmount
-- (pkg/devices/ascend/npu/device_info.go).
use device_mounter.Base.{
  ℕ, String, Bool, true, false, Option, none, some, List, [], ◌∷◌, ◌++◌, map, ◌≡◌, refl, ◌∙◌, ap,
  sym,
}
use device_mounter.Api.{other_error, Result, ok, err, DeviceInfo, Container, Pod, ◌>>=◌}
use device_mounter.Vgpu.Devices.Forbidden.{forbid, forbid_all, forbidden, map-append}
use device_mounter.AscendNpu.{Host, has_npu}
use device_mounter.AscendNpu.Allocated.{
  load_pods, visible_devices, cons_info, info_of_all, get_slave_pods_device_info,
}
use device_mounter.AscendNpu.Plugin.{
  manager_paths, file_info, npu_info, with_info, append_managers, on_slave_devices,
  get_device_infos_to_mount, refuse_npu, get_device_infos_to_unmount,
}

abbrev forbid_one : Result DeviceInfo → Result DeviceInfo
forbid_one (err e) = err e
forbid_one (ok info) = ok (forbid info)

-- What an unmount answers for what a mount answers, by whether the owner has an NPU of its own; none
-- is a panic.
abbrev pub unmounted :
    Option Bool → Option (Result (List DeviceInfo)) → Option (Result (List DeviceInfo))
unmounted none infos = none
unmounted (some true) infos =
    some (err (other_error "Currently not supported for uninstalling Ascend NPUs"))
unmounted (some false) infos = forbidden infos

module _ (host : Host) where
  file_info-forbid :
      (id path : String) (version : Result (ℕ × ℕ × ℕ))
      → forbid_one (file_info host true id path version) ≡ file_info host false id path version
  file_info-forbid id path (err e) = refl
  file_info-forbid id path (ok (major, minor, dev_type)) = refl

  cons_info-forbid :
      (info : Result DeviceInfo) (rest : Result (List DeviceInfo))
      → forbid_all (cons_info host info rest) ≡ cons_info host (forbid_one info) (forbid_all rest)
  cons_info-forbid (err e) rest = refl
  cons_info-forbid (ok info) (err e) = refl
  cons_info-forbid (ok info) (ok rest) = refl

  -- Two functions from identifiers to devices that only differ in the permission.
  info_of_all-forbid :
      (f g : ℕ → Result DeviceInfo)
      → ((id : ℕ) → forbid_one (f id) ≡ g id)
      → (ids : List ℕ) → forbid_all (info_of_all host f ids) ≡ info_of_all host g ids
  unfolding info_of_all
  info_of_all-forbid f g same [] = refl
  info_of_all-forbid f g same (id ∷ ids) =
      cons_info-forbid (f id) (info_of_all host f ids)
      ∙ ap (λ x. cons_info host x (forbid_all (info_of_all host f ids))) (same id)
      ∙ ap (cons_info host (g id)) (info_of_all-forbid f g same ids)

  forbid_all-then :
      {A : Type 0} (x : Result A) (f g : A → Result (List DeviceInfo))
      → ((a : A) → forbid_all (f a) ≡ g a)
      → forbid_all (x >>= f) ≡ (x >>= g)
  forbid_all-then (err e) f g same = refl
  forbid_all-then (ok a) f g same = same a

  slave_devices-forbid :
      (slave_pods : List Pod) (f g : ℕ → Result DeviceInfo)
      → ((id : ℕ) → forbid_one (f id) ≡ g id)
      → forbid_all (get_slave_pods_device_info host slave_pods f)
        ≡ get_slave_pods_device_info host slave_pods g
  unfolding get_slave_pods_device_info
  slave_devices-forbid slave_pods f g same = forbid_all-then host.list_pod_resources _ _ λ pods.
      forbid_all-then (load_pods host slave_pods pods) _ _ λ devices.
        forbid_all-then (visible_devices host devices) _ _ λ ids. info_of_all-forbid f g same ids

  with_info-forbid :
      (info : Result DeviceInfo) (infos : List DeviceInfo)
      (f g : List DeviceInfo → Result (List DeviceInfo))
      → ((l : List DeviceInfo) → forbid_all (f l) ≡ g (map forbid l))
      → forbid_all (with_info host info infos f)
        ≡ with_info host (forbid_one info) (map forbid infos) g
  with_info-forbid (err e) infos f g same = refl
  with_info-forbid (ok info) infos f g same =
      same (infos ++ info ∷ []) ∙ ap g (map-append forbid infos (info ∷ []))

  append_managers-forbid :
      (paths : List String) (infos : List DeviceInfo)
      → forbid_all (append_managers host true paths infos)
        ≡ append_managers host false paths (map forbid infos)
  unfolding append_managers
  append_managers-forbid [] infos = refl
  append_managers-forbid (path ∷ paths) infos =
      with_info-forbid (file_info host true "" path (host.device_file_version path)) infos
        (append_managers host true paths) (append_managers host false paths)
        (append_managers-forbid paths)
      ∙ ap (λ x. with_info host x (map forbid infos) (append_managers host false paths))
          (file_info-forbid "" path (host.device_file_version path))

  managed :
      (owned : Option Bool) (infos : Result (List DeviceInfo))
      → refuse_npu host owned (forbid_all infos)
        ≡ unmounted owned (on_slave_devices host owned infos)
  managed none infos = refl
  managed (some true) infos = refl
  managed (some false) (err e) = refl
  managed (some false) (ok infos) = ap some (sym (append_managers-forbid manager_paths infos))

  -- An unmount forbids exactly the devices that a mount allows for the same container and slave pods,
  -- those of the driver's management included, with the same errors; but if the container has an NPU of
  -- its own it is refused, and it panics if the container does not exist.
  pub get_device_infos_to_unmount-unmounted :
      (owner_pod : Pod) (container : Container) (slave_pods : List Pod)
      → get_device_infos_to_unmount host owner_pod container slave_pods
        ≡ unmounted
            (has_npu host owner_pod container)
            (get_device_infos_to_mount host owner_pod container slave_pods)
  unfolding get_device_infos_to_mount get_device_infos_to_unmount
  get_device_infos_to_unmount-unmounted owner_pod container slave_pods =
      ap (refuse_npu host (has_npu host owner_pod container)) (
        sym (
          slave_devices-forbid slave_pods (npu_info host true) (npu_info host false)
            λ id. file_info-forbid _ _ _))
      ∙ managed (has_npu host owner_pod container)
          (get_slave_pods_device_info host slave_pods (npu_info host true))
