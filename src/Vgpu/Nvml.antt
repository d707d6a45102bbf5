-- ===== src/Vgpu/Nvml.antt =====
-- pkg/devices/volcano/vgpu/util.go: what is asked of the NVIDIA management library, a parameter.
use device_mounter.Base.{ℕ, String, ◌<>◌, Bool, true, false, List, [], ◌∷◌, ◌++◌, keep, any, ◌==◌}
use device_mounter.Api.{other_error, Result, ok, err, DeviceInfo}

-- The answers of the library: a value, or the text of its error.
pub data Return (A : Type 0) : Type 0 where
  success : A → Return A
  failure : String → Return A

pub record Nvml : Type 0 where
  pub init : Return (Unit {0})
  pub handle_by_uuid : String → Return ℕ
  pub minor_number : ℕ → Return ℕ
  pub compute_running_processes : ℕ → Return (List ℕ)
  pub graphics_running_processes : ℕ → Return (List ℕ)

abbrev pub check : {A B : Type 0} → String → Return A → (A → Result B) → Result B
check text (success a) continue = continue a
check text (failure e) continue = err (other_error (text <> e))

module _ (nvml : Nvml) where
  -- `GetDeviceMinorByUUID`
  unfoldable pub get_device_minor_by_uuid : String → Result ℕ
  get_device_minor_by_uuid uuid = check "nvml Init error: " nvml.init λ _.
      check "nvml DeviceGetHandleByUUID error: " (nvml.handle_by_uuid uuid)
        λ dev. check "nvml DeviceGetMinorNumber error: " (nvml.minor_number dev) λ minor. ok minor

  -- `DeviceRunningProcessFunc`: the processes that the callback is given, if it ends without an error.
  unfoldable pub device_running_process_func : String → Result (List ℕ)
  device_running_process_func uuid = check "nvml Init error: " nvml.init λ _.
      check "nvml DeviceGetHandleByUUID error: " (nvml.handle_by_uuid uuid) λ dev.
        check "nvml DeviceGetComputeRunningProcesses error: " (nvml.compute_running_processes dev)
          λ compute.
            check "nvml DeviceGetGraphicsRunningProcesses error: "
              (nvml.graphics_running_processes dev) λ graphics. ok (compute ++ graphics)

  -- `checkDeviceEnvironment`
  abbrev pub check_device_environment : Bool
  check_device_environment = elim (nvml.init) [ success _ ↦ true | failure e ↦ false ]

  abbrev pub append_running : List ℕ → Result (List ℕ) → Result (List ℕ) → Result (List ℕ)
  append_running container_pids (err e) rest = err e
  append_running container_pids (ok pids) (err e) = err e
  append_running container_pids (ok pids) (ok rest) =
      ok (keep (λ pid. any (λ p. p == pid) container_pids) pids ++ rest)

  -- `GetDevicesActiveProcessIDs`
  unfoldable pub get_devices_active_process_ids : List ℕ → List DeviceInfo → Result (List ℕ)
  unfolding device_running_process_func
  get_devices_active_process_ids container_pids [] = ok []
  get_devices_active_process_ids container_pids (info ∷ device_infos) =
      append_running container_pids (device_running_process_func info.device_id)
        (get_devices_active_process_ids container_pids device_infos)
