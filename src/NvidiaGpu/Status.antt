-- ===== src/NvidiaGpu/Status.antt =====
-- pkg/devices/nvidia/gpu/collector.go: the state of the GPUs and its update.
use device_mounter.Base.{
  ℕ, zero, suc, String, ◌<>◌, Bool, ◌&&◌, Option, none, some, List, [], ◌∷◌, ◌++◌, eqs, keep, map,
  if◌then◌else◌,
}
use device_mounter.Api.{GoError, other_error, Result, ok, err, ◌>>=◌}
use device_mounter.Vgpu.Nvml.{Nvml, check}
use device_mounter.NvidiaGpu.{
  Owner, GpuState, NvidiaGpu, ContainerDevices, ContainerResources, PodResources, Moment, Host,
  Collector, resource_name, no_owner, new,
}

-- `ResetState`
abbrev pub reset_state : NvidiaGpu → NvidiaGpu
reset_state gpu = record gpu { state = GpuState.free; owner = no_owner }

-- `resetGPUStatus`
unfoldable pub reset_gpu_status : List NvidiaGpu → List NvidiaGpu
reset_gpu_status gpus = map reset_state gpus

-- `GetGPUByUUID`
unfoldable pub get_gpu_by_uuid : String → List NvidiaGpu → Result NvidiaGpu
get_gpu_by_uuid uuid [] = err (other_error ("No GPU with UUID " <> uuid))
get_gpu_by_uuid uuid (gpu ∷ gpus) = if eqs gpu.uuid uuid then ok gpu else get_gpu_by_uuid uuid gpus

abbrev pub allocate : Owner → NvidiaGpu → NvidiaGpu
allocate owner gpu = record gpu { state = GpuState.allocated; owner = owner }

-- The writes through the pointer that `GetGPUByUUID` returns: they go to the first GPU with the UUID.
unfoldable pub allocate_first : Owner → String → List NvidiaGpu → List NvidiaGpu
allocate_first owner uuid [] = []
allocate_first owner uuid (gpu ∷ gpus) =
    if eqs gpu.uuid uuid then allocate owner gpu ∷ gpus else gpu ∷ allocate_first owner uuid gpus

-- `SearchGPUMinorByUUID`
unfoldable pub search_gpu_minor_by_uuid : Nvml → String → Result ℕ
search_gpu_minor_by_uuid nvml uuid = check "nvml Init error: " nvml.init λ _.
    check "nvml DeviceGetHandleByUUID error: " (nvml.handle_by_uuid uuid)
      λ dev. check "nvml DeviceGetMinorNumber error: " (nvml.minor_number dev) λ minor. ok minor

module _ (host : Host) where
  -- A GPU that is not in the list yet; without a minor number it is passed over.
  abbrev pub discover : Owner → String → List NvidiaGpu → Result ℕ → List NvidiaGpu
  discover owner uuid gpus (err e) = gpus
  discover owner uuid gpus (ok minor) = gpus ++ allocate owner (new host minor uuid) ∷ []

  abbrev pub on_gpu : Moment → Owner → String → List NvidiaGpu → Result NvidiaGpu → List NvidiaGpu
  on_gpu moment owner uuid gpus (err e) =
      discover owner uuid gpus (search_gpu_minor_by_uuid moment.nvml uuid)
  on_gpu moment owner uuid gpus (ok gpu) = allocate_first owner uuid gpus

  -- The body of the innermost loop.
  unfoldable pub claim : Moment → Owner → String → List NvidiaGpu → List NvidiaGpu
  claim moment owner uuid gpus = on_gpu moment owner uuid gpus (get_gpu_by_uuid uuid gpus)

  unfoldable pub claim_ids : Moment → Owner → List String → List NvidiaGpu → List NvidiaGpu
  claim_ids moment owner [] gpus = gpus
  claim_ids moment owner (uuid ∷ uuids) gpus =
      claim_ids moment owner uuids (claim moment owner uuid gpus)

  unfoldable pub claim_devices :
      Moment → Owner → List ContainerDevices → List NvidiaGpu → List NvidiaGpu
  claim_devices moment owner [] gpus = gpus
  claim_devices moment owner (dev ∷ devices) gpus = claim_devices moment owner devices (
      if eqs dev.resource_name resource_name
      then claim_ids moment owner dev.device_ids gpus
      else gpus)

  unfoldable pub claim_containers :
      Moment → PodResources → List ContainerResources → List NvidiaGpu → List NvidiaGpu
  claim_containers moment pod [] gpus = gpus
  claim_containers moment pod (container ∷ containers) gpus =
      claim_containers moment pod containers (
        claim_devices moment
          (record {
            pod_name = pod.name;
            pod_namespace = pod.namespace;
            container_name = container.name;
          })
          container.devices gpus)

  unfoldable pub claim_pods : Moment → List PodResources → List NvidiaGpu → List NvidiaGpu
  claim_pods moment [] gpus = gpus
  claim_pods moment (pod ∷ pods) gpus =
      claim_pods moment pods (claim_containers moment pod pod.containers gpus)

  abbrev pub on_resources :
      Moment → Collector → Result (List PodResources) → Option GoError × Collector
  on_resources moment collector (err e) =
      (some e, record collector { updates = suc collector.updates })
  on_resources moment collector (ok pods) = (
    none,
    record {
      updates = suc collector.updates;
      gpu_list = claim_pods moment pods (reset_gpu_status collector.gpu_list);
    },
  )

  -- `UpdateGPUStatus`
  unfoldable pub update_gpu_status : Collector → Option GoError × Collector
  update_gpu_status collector =
      let moment = host.moment collector.updates in
      on_resources moment collector moment.list_pod_resources

  abbrev pub owned_by : String → String → NvidiaGpu → Bool
  owned_by name namespace gpu = eqs gpu.owner.pod_name name && eqs gpu.owner.pod_namespace namespace

  abbrev pub select :
      (NvidiaGpu → Bool) → Option GoError × Collector → Result (List NvidiaGpu) × Collector
  select test (some e, collector) = (err e, collector)
  select test (none, collector) = (ok (keep test collector.gpu_list), collector)

  -- `GetPodGPUResources`
  unfoldable pub get_pod_gpu_resources :
      String → String → Collector → Result (List NvidiaGpu) × Collector
  get_pod_gpu_resources name namespace collector =
      select (owned_by name namespace) (update_gpu_status collector)

  -- `GetContainerGPUResources`
  unfoldable pub get_container_gpu_resources :
      String → String → String → Collector → Result (List NvidiaGpu) × Collector
  get_container_gpu_resources name namespace container collector =
      select (λ gpu. owned_by name namespace gpu && eqs gpu.owner.container_name container)
        (update_gpu_status collector)

  -- The loop of `initGPUInfo` over the `n` indices from `i` on.
  unfoldable pub init_gpus : Moment → ℕ → ℕ → List NvidiaGpu → Result (List NvidiaGpu)
  init_gpus moment zero i gpus = ok gpus
  init_gpus moment (suc n) i gpus =
      check "nvml DeviceGetHandleByIndex error: " (moment.handle_by_index i) λ dev.
        check "nvml DeviceGetMinorNumber error: " (moment.nvml.minor_number dev) λ minor.
          check "nvml DeviceGetUUID error: " (moment.uuid_of dev)
            λ uuid. init_gpus moment n (suc i) (gpus ++ new host minor uuid ∷ [])

  -- `initGPUInfo`
  unfoldable pub init_gpu_info : Moment → Result (List NvidiaGpu)
  init_gpu_info moment =
      check "nvml Init error: " moment.nvml.init λ _.
        check "nvml DeviceGetCount error: " moment.device_count λ num. init_gpus moment num 0 []

  abbrev pub started : Option GoError × Collector → Result Collector
  started (some e, collector) = err e
  started (none, collector) = ok collector

  -- `NewGPUCollector`
  unfoldable pub new_gpu_collector : Result Collector
  new_gpu_collector = do
    gpus ← init_gpu_info (host.moment 0)
    started (update_gpu_status (record { updates = 0; gpu_list = gpus }))

  -- `GetRunningProcess`
  unfoldable pub get_running_process : Nvml → NvidiaGpu → Result (List ℕ)
  get_running_process nvml gpu = check "nvml Init error: " nvml.init λ _.
      check "nvml DeviceGetHandleByUUID error: " (nvml.handle_by_uuid gpu.uuid) λ dev.
        check "nvml DeviceGetGraphicsRunningProcesses error: " (nvml.graphics_running_processes dev)
          λ graphics.
            check "nvml DeviceGetComputeRunningProcesses error: "
              (nvml.compute_running_processes dev) λ compute. ok (graphics ++ compute)
