-- ===== src/Vgpu/Plugin/Judged.antt =====
-- The verdicts of the plugin (pkg/devices/volcano/vgpu/device_info.go): requests, slave pods, and the
-- processes that run on devices.
use device_mounter.Base.{
  ℕ, String, Bool, true, false, Option, none, some, List, [], ◌∷◌, keep, any, All, All-append, not,
  ◌==◌, ◌≡◌, refl, ap, arith, if◌then◌else◌, eqs, ◌||◌,
}
use mathlib.Core.Option.{some-injective, some-ne-none}
use mathlib.Core.Path.{subst}
use device_mounter.Base.Dict.{Dict, at_key}
use device_mounter.Api.{
  GoError, ResultCode, Result, ok, err, StatusCode, Condition, Container, DeviceInfo, Node, Pod,
  Quantity,
}
use device_mounter.Util.{check_resources_in_slice, check_resources_in_node}
use device_mounter.Vgpu.{assigned_ids_annotation, vgpu_number, Device, decode_pod_devices}
use device_mounter.Vgpu.Nvml.{
  Nvml, device_running_process_func, append_running, get_devices_active_process_ids,
}
use device_mounter.Vgpu.Plugin.{
  Host, wanted, ignored_resources, judge_devices, judge_conditions, verify_support_pod_status,
  validate_mount_request,
}

-- A verdict as the wait for the slave pods reads it: an error stands beside a failure and beside an
-- unschedulable pod, and beside no other code.
abbrev pub IsPaired : StatusCode × Option GoError → Type 0
IsPaired (StatusCode.success, none) = Unit
IsPaired (StatusCode.wait, none) = Unit
IsPaired (StatusCode.fail, some e) = Unit
IsPaired (StatusCode.unschedulable, some e) = Unit
IsPaired (StatusCode.success, some e) = ⊥
IsPaired (StatusCode.wait, some e) = ⊥
IsPaired (StatusCode.fail, none) = ⊥
IsPaired (StatusCode.unschedulable, none) = ⊥
IsPaired (StatusCode.skip, e) = ⊥
IsPaired (StatusCode.unknown n, e) = ⊥

keep-cons :
    (p : ℕ → Bool) (x : ℕ) (rest : List ℕ) (b : Bool)
    → p x ≡ b
    → All (λ y. p y ≡ true) rest
    → All (λ y. p y ≡ true) (if b then x ∷ rest else rest)
keep-cons p x rest true h all = (h, all)
keep-cons p x rest false h all = all

keep-All : (p : ℕ → Bool) (xs : List ℕ) → All (λ x. p x ≡ true) (keep p xs)
keep-All p [] = tt
keep-All p (x ∷ xs) = keep-cons p x (keep p xs) (p x) refl (keep-All p xs)

-- Whether a process is one of those of a container.
abbrev pub owns : List ℕ → ℕ → Bool
owns container_pids pid = any (λ p. p == pid) container_pids

module _ (nvml : Nvml) where
  append_running-All :
      (container_pids : List ℕ) (running rest : Result (List ℕ)) (pids : List ℕ)
      → append_running nvml container_pids running rest ≡ ok pids
      → ((others : List ℕ) → rest ≡ ok others → All (λ pid. owns container_pids pid ≡ true) others)
      → All (λ pid. owns container_pids pid ≡ true) pids
  append_running-All container_pids (err e) rest pids h all = absurd (ground arith)
  append_running-All container_pids (ok found) (err e) pids h all = absurd (ground arith)
  append_running-All container_pids (ok found) (ok others) pids h all =
      subst (λ l. All (λ pid. owns container_pids pid ≡ true) l) (ok-injective _ _ h)
        (All-append (λ pid. owns container_pids pid ≡ true) (keep (owns container_pids) found)
          others (keep-All (owns container_pids) found) (all others refl))
    where
      ok-injective : (a b : List ℕ) → ok a ≡ ok b → a ≡ b
      ok-injective a b e = ap (λ r. elim r [ ok l ↦ l | err x ↦ a ]) e

  -- Every process that is named as active on devices is one of the container's.
  pub get_devices_active_process_ids-All :
      (container_pids : List ℕ) (device_infos : List DeviceInfo) (pids : List ℕ)
      → get_devices_active_process_ids nvml container_pids device_infos ≡ ok pids
      → All (λ pid. owns container_pids pid ≡ true) pids
  unfolding get_devices_active_process_ids
  get_devices_active_process_ids-All container_pids [] pids h =
      subst (λ r. elim r [ ok l ↦ All (λ pid. owns container_pids pid ≡ true) l | err e ↦ Unit ]) h
        tt
  get_devices_active_process_ids-All container_pids (info ∷ device_infos) pids h =
      append_running-All container_pids (device_running_process_func nvml info.device_id)
        (get_devices_active_process_ids nvml container_pids device_infos) pids h
        (λ others e. get_devices_active_process_ids-All container_pids device_infos others e)

module _ (host : Host) where
  judge_conditions-IsPaired :
      (conditions : List Condition) → IsPaired (judge_conditions host conditions)
  judge_conditions-IsPaired [] = tt
  judge_conditions-IsPaired (c ∷ conditions) =
      go (eqs c.reason "Unschedulable" || eqs c.reason "SchedulerError")
    where
      go :
          (b : Bool)
          → IsPaired (
              if b
              then (
                StatusCode.unschedulable,
                some (GoError.mounter_error ResultCode.insufficient c.message),
              )
              else (StatusCode.wait, none))
      go true = tt
      go false = tt

  judge_devices-IsPaired :
      (devices : Option (List (List Device))) (verdict : StatusCode × Option GoError)
      → judge_devices host devices ≡ some verdict
      → IsPaired verdict
  judge_devices-IsPaired none verdict h = absurd (ground arith)
  judge_devices-IsPaired (some []) verdict h = subst IsPaired (some-injective _ _ h) tt
  judge_devices-IsPaired (some (d ∷ devices)) verdict h = subst IsPaired (some-injective _ _ h) tt

  -- The verdict on a slave pod has an error exactly beside a failure or an unschedulable pod.
  pub verify_support_pod_status-IsPaired :
      (pod : Pod) (verdict : StatusCode × Option GoError)
      → verify_support_pod_status host pod ≡ some verdict
      → IsPaired verdict
  unfolding verify_support_pod_status
  verify_support_pod_status-IsPaired pod verdict h =
      go (eqs pod.phase "Running") (eqs pod.phase "Failed") _ h
    where
      go :
          (running failed : Bool) (e : GoError)
          → (if running
              then judge_devices host
                  (decode_pod_devices (at_key assigned_ids_annotation pod.annotations))
              else if failed
              then some (StatusCode.fail, some e)
              else some (judge_conditions host pod.conditions))
            ≡ some verdict
          → IsPaired verdict
      go true failed e k = judge_devices-IsPaired _ verdict k
      go false true e k = subst IsPaired (some-injective _ _ k) tt
      go false false e k =
          subst IsPaired (some-injective _ _ k) (judge_conditions-IsPaired pod.conditions)

  -- A request to mount is accepted only if it wants vGPUs and nothing else but their memory and
  -- cores, and the node can offer as many.
  pub validate_mount_request-accepted :
      (node : Option Node) (owner_pod : Pod) (container : Container) (request : Dict Quantity)
      (annotations : Dict String)
      → validate_mount_request host node owner_pod container request annotations ≡ some none
      → (check_resources_in_slice request (vgpu_number ∷ []) ignored_resources ≡ true)
        × (check_resources_in_node node ((vgpu_number, wanted request) ∷ []) ≡ true)
  unfolding validate_mount_request
  validate_mount_request-accepted node owner_pod container request annotations h =
      go (check_resources_in_slice request (vgpu_number ∷ []) ignored_resources)
        (check_resources_in_node node ((vgpu_number, wanted request) ∷ [])) _ _ _ h
    where
      go :
          (listed offered : Bool) (e f : GoError) (rest : Option (Option GoError))
          → (if not listed then some (some e) else if not offered then some (some f) else rest)
            ≡ some none
          → (listed ≡ true) × (offered ≡ true)
      go true true e f rest k = (refl, refl)
      go true false e f rest k = absurd (some-ne-none _ (some-injective _ _ k))
      go false offered e f rest k = absurd (some-ne-none _ (some-injective _ _ k))
