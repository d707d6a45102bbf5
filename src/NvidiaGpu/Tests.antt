-- ===== src/NvidiaGpu/Tests.antt =====
-- A node with two GPUs, one of which a slave pod has.
use device_mounter.Base.{
  ℕ, String, true, false, none, [], ◌∷◌, ◌≡◌, ◌≢◌, refl, string_dec, eqs→ne, if◌then◌else◌, ◌==◌,
}
use device_mounter.Api.{ok, Container, Pod}
use device_mounter.Vgpu.Nvml.{Nvml, success}
use device_mounter.NvidiaGpu.{
  GpuState, NvidiaGpu, PodResources, Moment, Host, Collector, no_owner, new,
}
use device_mounter.NvidiaGpu.Status.{
  reset_gpu_status, get_gpu_by_uuid, allocate_first, claim, claim_ids, claim_devices,
  claim_containers, claim_pods, update_gpu_status, get_pod_gpu_resources, init_gpus, init_gpu_info,
  new_gpu_collector, get_running_process,
}
use device_mounter.NvidiaGpu.Plugin.{
  slave_gpus, get_device_infos_to_mount, get_device_infos_to_unmount,
  get_devices_active_process_ids, processes_of, process_infos, gpu_info,
}
use device_mounter.NvidiaGpu.Refined.{status, updated, update_gpu_status-updated}
use device_mounter.NvidiaGpu.Sound.{IsSound, HasGrown, update_gpu_status-HasGrown}
use device_mounter.NvidiaGpu.Owned.{AllOk}
use device_mounter.NvidiaGpu.Mounted.{
  IsAllowed, MountsAs, get_device_infos_to_mount-IsAllowed, get_device_infos_to_mount-MountsAs,
}

abbrev nvml : Nvml
nvml = record {
  init = success tt;
  handle_by_uuid = λ uuid. success 0;
  minor_number = λ dev. success dev;
  compute_running_processes = λ dev. success (12 ∷ []);
  graphics_running_processes = λ dev. success (7 ∷ 40 ∷ []);
}

abbrev given : PodResources
given = record {
  name = "slave";
  namespace = "default";
  containers =
      record {
        name = "device-container";
        devices = record { resource_name = "nvidia.com/gpu"; device_ids = "gpu1" ∷ [] } ∷ [];
      }
      ∷ [];
}

abbrev moment : Moment
moment = record {
  nvml = nvml;
  device_count = success 2;
  handle_by_index = λ i. success i;
  uuid_of = λ dev. success (if dev == 0 then "gpu0" else "gpu1");
  list_pod_resources = ok (given ∷ []);
}

abbrev host : Host
host = record {
  moment = λ n. moment;
  show_number = λ n. if n == 0 then "0" else "1";
  device_file_version = λ path. ok (510, 0);
  errorf = λ text. text;
  int_set = λ pids. pids;
  slave_image = "pause";
  slave_pull_policy = "Always";
}

abbrev idle : ℕ → String → String → NvidiaGpu
idle minor path uuid = record {
  minor_number = minor;
  device_file_path = path;
  uuid = uuid;
  state = GpuState.free;
  owner = no_owner;
}

abbrev collector : Collector
collector = record {
  updates = 1;
  gpu_list = idle 0 "/dev/nvidia0" "gpu0" ∷ idle 1 "/dev/nvidia1" "gpu1" ∷ [];
}

abbrev taken : NvidiaGpu
taken = record (idle 1 "/dev/nvidia1" "gpu1") {
  state = GpuState.allocated;
  owner = record {
    pod_name = "slave";
    pod_namespace = "default";
    container_name = "device-container";
  };
}

started :
    new_gpu_collector host
    ≡ ok (record { updates = 1; gpu_list = idle 0 "/dev/nvidia0" "gpu0" ∷ taken ∷ [] })
unfolding new_gpu_collector init_gpu_info init_gpus new update_gpu_status claim_pods
    claim_containers claim_devices claim_ids claim get_gpu_by_uuid reset_gpu_status allocate_first
    string_dec
started = refl

abbrev slave : Pod
slave = record {
  name = "slave";
  generate_name = "";
  namespace = "default";
  uid = "u";
  resource_version = "1";
  labels = [];
  annotations = [];
  owner_references = [];
  deletion_timestamp = false;
  node_name = "node1";
  node_selector = [];
  scheduler_name = "";
  priority_class_name = "";
  grace_period = none;
  containers = [];
  phase = "Running";
  message = "";
  conditions = [];
  container_statuses = [];
  qos_class = "";
  pod_ip = "";
}

abbrev owner : Pod
owner = record slave { name = "app" }

abbrev main : Container
main = record { name = "main"; index = 0 }

forbidden :
    (get_device_infos_to_unmount host (slave ∷ []) collector).0 ≡ ok (gpu_info false taken ∷ [])
unfolding get_device_infos_to_unmount slave_gpus get_pod_gpu_resources update_gpu_status claim_pods
    claim_containers claim_devices claim_ids claim get_gpu_by_uuid reset_gpu_status allocate_first
    string_dec
forbidden = refl

active :
    (get_devices_active_process_ids host (7 ∷ 12 ∷ []) (gpu_info true taken ∷ []) collector).0
    ≡ ok (7 ∷ 12 ∷ [])
unfolding get_devices_active_process_ids update_gpu_status claim_pods claim_containers claim_devices
    claim_ids claim get_gpu_by_uuid reset_gpu_status allocate_first string_dec process_infos
    processes_of get_running_process
active = refl

update_gpu_status-updated_example :
    status "gpu1" (update_gpu_status host collector).1.gpu_list
    ≡ updated host moment (ok (given ∷ [])) "gpu1" (status "gpu1" collector.gpu_list)
update_gpu_status-updated_example = update_gpu_status-updated host collector "gpu1"

collector-IsSound : IsSound host collector.gpu_list
unfolding string_dec
collector-IsSound = record {
  distinct = (refl, (refl, tt));
  consistent = ((refl, refl), ((refl, refl), tt));
}

update_gpu_status-HasGrown_example :
    HasGrown host collector.gpu_list (update_gpu_status host collector).1.gpu_list
update_gpu_status-HasGrown_example = update_gpu_status-HasGrown host collector collector-IsSound

slave_named : slave.name ≢ ""
unfolding string_dec
slave_named = eqs→ne "slave" "" refl

get_device_infos_to_mount-IsAllowed_example :
    AllOk host
      (IsAllowed host (slave ∷ []))
      (get_device_infos_to_mount host owner main (slave ∷ []) collector)
get_device_infos_to_mount-IsAllowed_example =
    get_device_infos_to_mount-IsAllowed host owner main (slave ∷ []) collector (slave_named, tt)

get_device_infos_to_mount-MountsAs_example :
    MountsAs host
      (get_device_infos_to_unmount host (slave ∷ []) collector)
      (get_device_infos_to_mount host owner main (slave ∷ []) collector)
get_device_infos_to_mount-MountsAs_example =
    get_device_infos_to_mount-MountsAs host owner main (slave ∷ []) collector
