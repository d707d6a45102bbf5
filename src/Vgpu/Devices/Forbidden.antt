-- ===== src/Vgpu/Devices/Forbidden.antt =====
-- The devices that the plugin names for a mount and for an unmount
-- (pkg/devices/volcano/vgpu/device_info.go).
use device_mounter.Base.{
  ℕ, Bool, true, Bool-cases, inl, inr, arith, false, Option, none, some, List, [], ◌∷◌, ◌++◌, map,
  keep, not, ◌≡◌, refl, ◌∙◌, ap, sym, if◌then◌else◌,
}
use device_mounter.Base.Dict.{at_key}
use device_mounter.Api.{Result, ok, err, DeviceInfo, Container, Pod, anno_is_expansion}
use device_mounter.Vgpu.{assigned_ids_annotation, Device, decode_pod_devices, has_vgpu}
use device_mounter.Vgpu.Nvml.{get_device_minor_by_uuid}
use device_mounter.Vgpu.Plugin.{Host}
use device_mounter.Vgpu.Devices.{
  gpu_info, info_of, device_infos, append_infos, container_infos, then_infos, on_decoded, pod_infos,
  is_mounted, with_control, on_infos, control_infos, get_device_infos_to_mount,
  get_device_infos_to_unmount,
}

-- The same device, allowed or forbidden.
abbrev pub permit : Bool → DeviceInfo → DeviceInfo
permit allow info = record info { rule = record info.rule { allow = allow } }

abbrev pub permit_all : Bool → Result (List DeviceInfo) → Result (List DeviceInfo)
permit_all allow (err e) = err e
permit_all allow (ok infos) = ok (map (permit allow) infos)

-- Permitted, unless there was a panic.
abbrev pub permitted : Bool → Option (Result (List DeviceInfo)) → Option (Result (List DeviceInfo))
permitted allow none = none
permitted allow (some infos) = some (permit_all allow infos)

abbrev pub forbid : DeviceInfo → DeviceInfo
forbid = permit false

abbrev pub forbid_all : Result (List DeviceInfo) → Result (List DeviceInfo)
forbid_all = permit_all false

abbrev pub forbidden : Option (Result (List DeviceInfo)) → Option (Result (List DeviceInfo))
forbidden = permitted false

pub map-append :
    {A B : Type 0} (f : A → B) (xs ys : List A) → map f (xs ++ ys) ≡ map f xs ++ map f ys
map-append f [] ys = refl
map-append f (x ∷ xs) ys = ap (λ l. f x ∷ l) (map-append f xs ys)

module _ (host : Host) (from to : Bool) where
  permit_all-append :
      (x y : Result (List DeviceInfo))
      → permit_all to (append_infos host x y)
        ≡ append_infos host (permit_all to x) (permit_all to y)
  permit_all-append (err e) y = refl
  permit_all-append (ok infos) (err e) = refl
  permit_all-append (ok infos) (ok rest) = ap ok (map-append (permit to) infos rest)

  permit_all-info_of :
      (dev : Device) (minor : Result ℕ) (rest : Result (List DeviceInfo))
      → permit_all to (info_of host from dev minor rest)
        ≡ info_of host to dev minor (permit_all to rest)
  unfolding gpu_info
  permit_all-info_of dev (err e) rest = refl
  permit_all-info_of dev (ok minor) (err e) = refl
  permit_all-info_of dev (ok minor) (ok rest) = refl

  device_infos-permit :
      (devices : List Device)
      → permit_all to (device_infos host from devices) ≡ device_infos host to devices
  unfolding device_infos
  device_infos-permit [] = refl
  device_infos-permit (dev ∷ devices) =
      permit_all-info_of dev (get_device_minor_by_uuid host.nvml dev.uuid)
        (device_infos host from devices)
      ∙ ap (info_of host to dev (get_device_minor_by_uuid host.nvml dev.uuid))
          (device_infos-permit devices)

  container_infos-permit :
      (containers : List (List Device))
      → permit_all to (container_infos host from containers) ≡ container_infos host to containers
  unfolding container_infos
  container_infos-permit [] = refl
  container_infos-permit (devices ∷ containers) =
      permit_all-append (device_infos host from devices) (container_infos host from containers)
      ∙ ap (append_infos host (permit_all to (device_infos host from devices)))
          (container_infos-permit containers)
      ∙ ap (λ r. append_infos host r (container_infos host to containers))
          (device_infos-permit devices)

  permitted-then :
      (infos : Result (List DeviceInfo)) (rest : Option (Result (List DeviceInfo)))
      → permitted to (then_infos host infos rest)
        ≡ then_infos host (permit_all to infos) (permitted to rest)
  permitted-then (err e) rest = refl
  permitted-then (ok infos) none = refl
  permitted-then (ok infos) (some rest) = ap some (permit_all-append (ok infos) rest)

  permitted-decoded :
      (devices : Option (List (List Device))) (rest : Option (Result (List DeviceInfo)))
      → permitted to (on_decoded host from devices rest)
        ≡ on_decoded host to devices (permitted to rest)
  permitted-decoded none rest = refl
  permitted-decoded (some devices) rest =
      permitted-then (container_infos host from devices) rest
      ∙ ap (λ r. then_infos host r (permitted to rest)) (container_infos-permit devices)

  -- The loop of the mount over the slave pods, whose devices are allowed or forbidden.
  pod_infos-permit :
      (slave_pods : List Pod)
      → permitted to (pod_infos host from slave_pods) ≡ pod_infos host to slave_pods
  unfolding pod_infos
  pod_infos-permit [] = refl
  pod_infos-permit (pod ∷ slave_pods) =
      permitted-decoded (decode_pod_devices (at_key assigned_ids_annotation pod.annotations))
        (pod_infos host from slave_pods)
      ∙ ap
          (on_decoded host to (decode_pod_devices (at_key assigned_ids_annotation pod.annotations)))
          (pod_infos-permit slave_pods)

module _ (host : Host) where
  -- One pod of the unmount, which skips a pod used for an expansion.
  one_pod :
      (pod : Pod) (slave_pods : List Pod) (expansion : Bool)
      → get_device_infos_to_unmount host slave_pods
        ≡ pod_infos host false (keep (is_mounted host) slave_pods)
      → (if expansion
          then get_device_infos_to_unmount host slave_pods
          else on_decoded host false
              (decode_pod_devices (at_key assigned_ids_annotation pod.annotations))
              (get_device_infos_to_unmount host slave_pods))
        ≡ pod_infos host false (
            if not expansion
            then pod ∷ keep (is_mounted host) slave_pods
            else keep (is_mounted host) slave_pods)
  unfolding pod_infos
  one_pod pod slave_pods true rest = rest
  one_pod pod slave_pods false rest =
      ap
        (on_decoded host false
          (decode_pod_devices (at_key assigned_ids_annotation pod.annotations)))
        rest

  unmount-pod_infos :
      (slave_pods : List Pod)
      → get_device_infos_to_unmount host slave_pods
        ≡ pod_infos host false (keep (is_mounted host) slave_pods)
  unfolding get_device_infos_to_unmount pod_infos
  unmount-pod_infos [] = refl
  unmount-pod_infos (pod ∷ slave_pods) =
      one_pod pod slave_pods (anno_is_expansion pod.annotations) (unmount-pod_infos slave_pods)

  -- The first pod that is kept is not used for an expansion.
  keep-first :
      (slave_pods : List Pod) (pod : Pod) (kept : List Pod)
      → keep (is_mounted host) slave_pods ≡ pod ∷ kept
      → anno_is_expansion pod.annotations ≡ false
  keep-first [] pod kept e = absurd (ground arith)
  keep-first (p ∷ slave_pods) pod kept e = elim (Bool-cases (anno_is_expansion p.annotations)) [
    | inl expansion ↦ keep-first slave_pods pod kept (ground arith)
    | inr mounted ↦
        let same : p ≡ pod = ground arith in
        ap (λ (x : Pod). anno_is_expansion x.annotations) (sym same) ∙ mounted
  ]

  -- The files of the driver behind the devices, unless the container has vGPUs of its own; none is
  -- the panic for a container that does not exist.
  abbrev pub with_driver :
      Option Bool → Option (Result (List DeviceInfo)) → Option (Result (List DeviceInfo))
  with_driver owned none = none
  with_driver owned (some (err e)) = some (err e)
  with_driver none (some (ok infos)) = none
  with_driver (some true) (some (ok infos)) = some (ok infos)
  with_driver (some false) (some (ok infos)) =
      some (append_infos host (ok infos) (control_infos host))

  on_infos-with_driver :
      (owner_pod : Pod) (container : Container) (infos : Option (Result (List DeviceInfo)))
      → on_infos host owner_pod container infos ≡ with_driver (has_vgpu owner_pod container) infos
  on_infos-with_driver owner_pod container none = refl
  on_infos-with_driver owner_pod container (some infos) =
      by_owned (has_vgpu owner_pod container) infos
    where
      by_owned :
          (owned : Option Bool) (infos : Result (List DeviceInfo))
          → with_control host owned infos ≡ with_driver owned (some infos)
      by_owned owned (err e) = refl
      by_owned none (ok infos) = refl
      by_owned (some true) (ok infos) = refl
      by_owned (some false) (ok infos) = refl

  -- For those of the slave pods that are not used for an expansion, if there are any, a mount allows
  -- the devices that an unmount of all of them forbids, in their order, and behind these the three
  -- files of the driver, unless the container has vGPUs of its own; where the unmount fails or panics,
  -- so does the mount.
  pub get_device_infos_to_mount-permits :
      (owner_pod : Pod) (container : Container) (slave_pods : List Pod) (pod : Pod)
      (kept : List Pod)
      → keep (is_mounted host) slave_pods ≡ pod ∷ kept
      → get_device_infos_to_mount host owner_pod container (pod ∷ kept)
        ≡ with_driver
            (has_vgpu owner_pod container)
            (permitted true (get_device_infos_to_unmount host slave_pods))
  unfolding get_device_infos_to_mount
  get_device_infos_to_mount-permits owner_pod container slave_pods pod kept e =
      rw (keep-first slave_pods pod kept e) (
        on_infos-with_driver owner_pod container (pod_infos host true (pod ∷ kept))
        ∙ ap (with_driver (has_vgpu owner_pod container)) (
            sym (
              ap (permitted true) (unmount-pod_infos slave_pods ∙ ap (pod_infos host false) e)
              ∙ pod_infos-permit host false true (pod ∷ kept))))
