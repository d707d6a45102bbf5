-- ===== src/NvidiaGpu/Mounted.antt =====
-- Which devices the plugin of pkg/devices/nvidia/gpu names for a mount and for an unmount.
use device_mounter.Base.{
  ℕ, String, true, false, List, [], ◌∷◌, ◌++◌, ◌≡◌, ◌≢◌, ◌⊎◌, refl, ap, inl, inr, map, contains,
  All, All-append, string_dec,
}
use device_mounter.Api.{Result, ok, err, Container, DeviceInfo, Pod}
use device_mounter.NvidiaGpu.{NvidiaGpu, Host, Collector}
use device_mounter.NvidiaGpu.Status.{get_container_gpu_resources}
use device_mounter.NvidiaGpu.Plugin.{
  char_device, gpu_info, slave_gpus, with_version, append_driver_files, on_owned, on_slave_gpus,
  get_device_infos_to_mount, forbid_gpus, get_device_infos_to_unmount,
}
use device_mounter.NvidiaGpu.Owned.{AllOk, IsOfPods, slave_gpus-IsOfPods}

abbrev pub driver_files : List String
driver_files = "/dev/nvidiactl" ∷ "/dev/nvidia-uvm" ∷ "/dev/nvidia-uvm-tools" ∷ []

abbrev pub allow : DeviceInfo → DeviceInfo
allow info = record info { rule = record info.rule { allow = true } }

module _ (host : Host) where
  -- A file of the driver, or a GPU of one of the pods with the rule of its minor number.
  abbrev pub IsAllowed : List Pod → DeviceInfo → Type 0
  IsAllowed slave_pods info =
      ((info.device_id ≡ "") × (contains driver_files info.device_file_path ≡ true))
      ⊎ ((gpu : NvidiaGpu) × (info ≡ gpu_info true gpu) × IsOfPods host slave_pods gpu)

  infos-IsAllowed :
      (slave_pods : List Pod) (gpus : List NvidiaGpu)
      → All (IsOfPods host slave_pods) gpus
      → All (IsAllowed slave_pods) (map (gpu_info true) gpus)
  infos-IsAllowed slave_pods [] h = tt
  infos-IsAllowed slave_pods (gpu ∷ gpus) h =
      (inr (gpu, refl, h.0), infos-IsAllowed slave_pods gpus h.1)

  with_version-IsAllowed :
      (slave_pods : List Pod) (path : String) (infos : List DeviceInfo) (version : Result (ℕ × ℕ))
      (rest : List DeviceInfo → Result (List DeviceInfo)) (collector : Collector)
      → contains driver_files path ≡ true
      → All (IsAllowed slave_pods) infos
      → ((more : List DeviceInfo)
          → All (IsAllowed slave_pods) more
          → AllOk host (IsAllowed slave_pods) (rest more, collector))
      → AllOk host (IsAllowed slave_pods) (with_version host path infos version rest, collector)
  with_version-IsAllowed slave_pods path infos (err e) rest collector known h go = tt
  with_version-IsAllowed slave_pods path infos (ok (major, minor)) rest collector known h go =
      go (infos ++ char_device "" path major minor true ∷ []) (
        All-append (IsAllowed slave_pods) infos (char_device "" path major minor true ∷ []) h
          (inl (refl, known), tt))

  append_driver_files-IsAllowed :
      (slave_pods : List Pod) (infos : List DeviceInfo) (collector : Collector)
      → All (IsAllowed slave_pods) infos
      → AllOk host (IsAllowed slave_pods) (append_driver_files host infos, collector)
  unfolding append_driver_files string_dec
  append_driver_files-IsAllowed slave_pods infos collector h =
      with_version-IsAllowed slave_pods "/dev/nvidia-uvm"
        (infos ++ char_device "" "/dev/nvidiactl" 195 255 true ∷ [])
        (host.device_file_version "/dev/nvidia-uvm") _ collector refl
        (All-append (IsAllowed slave_pods) infos (char_device "" "/dev/nvidiactl" 195 255 true ∷ [])
          h (inl (refl, refl), tt))
        λ more k.
          with_version-IsAllowed slave_pods "/dev/nvidia-uvm-tools" more
            (host.device_file_version "/dev/nvidia-uvm-tools") (λ all. ok all) collector refl k
            (λ all a. a)

  on_owned-IsAllowed :
      (slave_pods : List Pod) (infos : List DeviceInfo) (r : Result (List NvidiaGpu) × Collector)
      → All (IsAllowed slave_pods) infos
      → AllOk host (IsAllowed slave_pods) (on_owned host infos r)
  on_owned-IsAllowed slave_pods infos (err e, collector) h =
      append_driver_files-IsAllowed slave_pods infos collector h
  on_owned-IsAllowed slave_pods infos (ok [], collector) h =
      append_driver_files-IsAllowed slave_pods infos collector h
  on_owned-IsAllowed slave_pods infos (ok (gpu ∷ gpus), collector) h = h

  on_slave_gpus-IsAllowed :
      (slave_pods : List Pod) (owner_pod : Pod) (container : Container)
      (r : Result (List NvidiaGpu) × Collector)
      → AllOk host (IsOfPods host slave_pods) r
      → AllOk host (IsAllowed slave_pods) (on_slave_gpus host owner_pod container r)
  on_slave_gpus-IsAllowed slave_pods owner_pod container (err e, collector) h = tt
  on_slave_gpus-IsAllowed slave_pods owner_pod container (ok gpus, collector) h =
      on_owned-IsAllowed slave_pods (map (gpu_info true) gpus)
        (get_container_gpu_resources host owner_pod.name owner_pod.namespace container.name
          collector)
        (infos-IsAllowed slave_pods gpus h)

  -- A mount for slave pods with names allows, beside the three files of the driver, only GPUs of which
  -- the kubelet has said, when the plugin asked, that they are given to one of the slave pods.
  pub get_device_infos_to_mount-IsAllowed :
      (owner_pod : Pod) (container : Container) (slave_pods : List Pod) (collector : Collector)
      → All (λ pod. pod.name ≢ "") slave_pods
      → AllOk host
          (IsAllowed slave_pods)
          (get_device_infos_to_mount host owner_pod container slave_pods collector)
  unfolding get_device_infos_to_mount
  get_device_infos_to_mount-IsAllowed owner_pod container slave_pods collector named =
      on_slave_gpus-IsAllowed slave_pods owner_pod container (slave_gpus host slave_pods collector)
        (slave_gpus-IsOfPods host slave_pods collector named)

  -- How a mount relates to an unmount that is asked at the same moments.
  abbrev pub MountsAs :
      Result (List DeviceInfo) × Collector → Result (List DeviceInfo) × Collector → Type 0
  MountsAs (err e, c) (mounted, c') = mounted ≡ err e
  MountsAs (ok infos, c) (mounted, c') =
      (mounted ≡ ok (map allow infos)) ⊎ (mounted ≡ append_driver_files host (map allow infos))

  allow_forbidden :
      (gpus : List NvidiaGpu) → map (gpu_info true) gpus ≡ map allow (map (gpu_info false) gpus)
  allow_forbidden [] = refl
  allow_forbidden (gpu ∷ gpus) = ap (λ l. gpu_info true gpu ∷ l) (allow_forbidden gpus)

  on_owned-MountsAs :
      (gpus : List NvidiaGpu) (collector : Collector) (r : Result (List NvidiaGpu) × Collector)
      → MountsAs
          (ok (map (gpu_info false) gpus), collector)
          (on_owned host (map (gpu_info true) gpus) r)
  on_owned-MountsAs gpus collector (err e, c) =
      inr (ap (append_driver_files host) (allow_forbidden gpus))
  on_owned-MountsAs gpus collector (ok [], c) =
      inr (ap (append_driver_files host) (allow_forbidden gpus))
  on_owned-MountsAs gpus collector (ok (gpu ∷ rest), c) = inl (ap ok (allow_forbidden gpus))

  same_gpus :
      (owner_pod : Pod) (container : Container) (r : Result (List NvidiaGpu) × Collector)
      → MountsAs (forbid_gpus host r) (on_slave_gpus host owner_pod container r)
  same_gpus owner_pod container (err e, collector) = refl
  same_gpus owner_pod container (ok gpus, collector) =
      on_owned-MountsAs gpus collector (
        get_container_gpu_resources host owner_pod.name owner_pod.namespace container.name
          collector)

  -- A mount fails where an unmount asked at the same moments fails; else it allows the devices that
  -- the unmount forbids, in their order, alone or with the files of the driver behind them.
  pub get_device_infos_to_mount-MountsAs :
      (owner_pod : Pod) (container : Container) (slave_pods : List Pod) (collector : Collector)
      → MountsAs
          (get_device_infos_to_unmount host slave_pods collector)
          (get_device_infos_to_mount host owner_pod container slave_pods collector)
  unfolding get_device_infos_to_unmount get_device_infos_to_mount
  get_device_infos_to_mount-MountsAs owner_pod container slave_pods collector =
      same_gpus owner_pod container (slave_gpus host slave_pods collector)
