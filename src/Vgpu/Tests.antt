-- ===== src/Vgpu/Tests.antt =====
-- Runs of the vGPU plugin on two devices.
use device_mounter.Base.{
  String, true, false, none, some, List, [], ◌∷◌, All, get_elem?, ◌≡◌, refl, arith, string_dec, ◌+◌,
  ◌-◌, join,
}
use device_mounter.Base.Dict.{Dict, lookup}
use device_mounter.Base.Int.{pos}
use device_mounter.Base.Split.{has_letter, split, trim_space, equal_fold}
use device_mounter.Api.{
  other_error, ok, StatusCode, Container, DeviceInfo, Node, Pod, Quantity, anno_is_expansion,
}
use device_mounter.Util.{check_resources_in_slice, check_resources_in_node}
use device_mounter.Vgpu.{
  has_vgpu, assigned_ids_annotation, init_vgpu_annotation, vgpu_number, comma, Device, device_of,
  decode_entries, decode_container_devices, decode_containers, decode_pod_devices,
}
use device_mounter.Vgpu.Decoded.{Fields, show_pod, device, decode_pod_devices-show}
use device_mounter.Vgpu.Region.{
  Slot, SharedRegion, letters, take_letters, memory, cores, uint64, each_slot, add_vgpu_resource,
  append_devices, detach_devices, empty_slot,
}
use device_mounter.Vgpu.Region.Attached.{new_slot, append_devices-fits, append_devices-full}
use device_mounter.Vgpu.Region.Detached.{hits, clear, detach_devices-clear}
use device_mounter.Vgpu.Nvml.{
  Nvml, success, device_running_process_func, get_devices_active_process_ids,
}
use device_mounter.Vgpu.Plugin.{
  Host, wanted, ignored_resources, verify_support_pod_status, validate_mount_request,
}
use device_mounter.Vgpu.Devices.{get_device_infos_to_mount, get_device_infos_to_unmount}
use device_mounter.Vgpu.Devices.Forbidden.{
  permitted, with_driver, get_device_infos_to_mount-permits,
}
use device_mounter.Vgpu.Plugin.Judged.{
  IsPaired, owns, get_devices_active_process_ids-All, verify_support_pod_status-IsPaired,
  validate_mount_request-accepted,
}
use device_mounter.Vgpu.Actions.{
  State, World, exec_nvidia_smi, expansion_vgpu_device, roll_back_expansion,
  attach_to_ordinary_container, initialised,
}
use device_mounter.Vgpu.Actions.Cleaned.{IsClean, attach_to_ordinary_container-IsClean}
use device_mounter.Vgpu.Actions.Reverted.{roll_back_expansion-expansion}
use device_mounter.Vgpu.Hooks.{other_names}
use device_mounter.Vgpu.Hooks.Named.{other_names-initialised}

abbrev first : Fields
first = record { index = "0"; uuid = "GPU-a"; type = "NVIDIA"; mem = "1024"; cores = "50" }

abbrev second : Fields
second = record { index = "1"; uuid = "GPU-b"; type = "NVIDIA"; mem = "2048"; cores = "0" }

decode_pod_devices-show_example :
    decode_pod_devices (show_pod ((first ∷ []) ∷ (second ∷ []) ∷ []))
    ≡ some ((device first ∷ []) ∷ (device second ∷ []) ∷ [])
unfolding has_letter
decode_pod_devices-show_example =
    decode_pod_devices-show ((first ∷ []) ∷ (second ∷ []) ∷ [])
      (
        (
          (
            (refl, (refl, refl)),
            (
              (refl, (refl, refl)),
              ((refl, (refl, refl)), ((refl, (refl, refl)), ((refl, (refl, refl)), tt))),
            ),
          ),
          tt,
        ),
        (
          (
            (
              (refl, (refl, refl)),
              (
                (refl, (refl, refl)),
                ((refl, (refl, refl)), ((refl, (refl, refl)), ((refl, (refl, refl)), tt))),
              ),
            ),
            tt,
          ),
          tt,
        ),
      )
      (λ e. ground (arith, e))

-- A device with four fields is an index out of range.
too_few_fields : decode_pod_devices "0,GPU-a,NVIDIA,1024" ≡ none
unfolding decode_pod_devices decode_containers decode_container_devices decode_entries device_of
    split has_letter string_dec
too_few_fields = refl

abbrev gpu : String → Device
gpu uuid = record {
  ctr_idx = 0;
  uuid = uuid;
  type = "NVIDIA";
  used_mem = pos 1;
  used_cores = pos 50;
}

abbrev slot : String → Slot
slot uuid = record { uuid = uuid; limit = 7; sm_limit = 100 }

-- Sixteen slots, of which the first two are used.
abbrev two_used : SharedRegion
two_used = record {
  num = 2;
  slots =
      slot "GPU-a"
      ∷ slot "GPU-b"
      ∷ empty_slot
      ∷ empty_slot
      ∷ empty_slot
      ∷ empty_slot
      ∷ empty_slot
      ∷ empty_slot
      ∷ empty_slot
      ∷ empty_slot
      ∷ empty_slot
      ∷ empty_slot
      ∷ empty_slot
      ∷ empty_slot
      ∷ empty_slot
      ∷ empty_slot
      ∷ [];
}

abbrev thirteen_empty : List Slot
thirteen_empty =
    empty_slot ∷ empty_slot ∷ empty_slot ∷ empty_slot ∷ empty_slot ∷ empty_slot ∷ empty_slot
    ∷ empty_slot ∷ empty_slot ∷ empty_slot ∷ empty_slot ∷ empty_slot ∷ empty_slot ∷ []

append_devices-fits_example :
    append_devices (("GPU-c", gpu "GPU-c") ∷ []) two_used
    ≡ some (record {
      num = 2 + 1;
      slots = slot "GPU-a" ∷ slot "GPU-b" ∷ new_slot ("GPU-c", gpu "GPU-c") ∷ thirteen_empty;
    })
unfolding letters
append_devices-fits_example =
    append_devices-fits (("GPU-c", gpu "GPU-c") ∷ []) (slot "GPU-a" ∷ slot "GPU-b" ∷ [])
      (empty_slot ∷ []) thirteen_empty refl refl (omega arith, tt)

append_devices-full_example :
    append_devices (("GPU-c", gpu "GPU-c") ∷ []) (record two_used { num = 16 }) ≡ none
append_devices-full_example =
    append_devices-full (("GPU-c", gpu "GPU-c") ∷ []) (record two_used { num = 16 }) refl
      (omega arith) (omega arith)

abbrev detach_a : Dict Device
detach_a = ("GPU-a", gpu "GPU-a") ∷ []

detach_devices-clear_example :
    detach_devices detach_a two_used
    ≡ some (record {
      num = 2 - hits detach_a 2 two_used.slots;
      slots = clear detach_a 2 two_used.slots;
    })
detach_devices-clear_example = detach_devices-clear detach_a two_used refl (omega arith)

-- The first of two devices is detached: one slot is counted, and it is the emptied one.
second_lost : hits detach_a 2 two_used.slots ≡ 1
unfolding take_letters lookup string_dec
second_lost = refl

first_counted : get_elem? (clear detach_a 2 two_used.slots) 0 ≡ some empty_slot
unfolding take_letters lookup string_dec
first_counted = refl

abbrev nvml : Nvml
nvml = record {
  init = success tt;
  handle_by_uuid = λ uuid. success 0;
  minor_number = λ dev. success 3;
  compute_running_processes = λ dev. success (10 ∷ 20 ∷ []);
  graphics_running_processes = λ dev. success (30 ∷ []);
}

abbrev host : Host
host = record {
  nvml = nvml;
  list_set = λ l. l;
  stat_cache = λ pod c. none;
  device_file_version = λ path. ok (510, 0);
  show_number = λ n. "3";
  errorf = λ s. s;
  slave_image = "pause";
  slave_pull_policy = "Always";
}

abbrev slave : Dict String → Pod
slave annotations = record {
  name = "slave";
  generate_name = "";
  namespace = "default";
  uid = "u";
  resource_version = "";
  labels = [];
  annotations = annotations;
  owner_references = [];
  deletion_timestamp = false;
  node_name = "";
  node_selector = [];
  scheduler_name = "";
  priority_class_name = "";
  grace_period = none;
  containers = [];
  phase = "Running";
  message = "";
  conditions = [];
  container_statuses = [];
  qos_class = "";
  pod_ip = "";
}

abbrev mounted : Pod
mounted = slave ((assigned_ids_annotation, "0,GPU-a,NVIDIA,1,50") ∷ [])

abbrev info : DeviceInfo
info = record {
  rule = record { type = 99; major = pos 195; minor = pos 3; permissions = "rw"; allow = false };
  device_id = "GPU-a";
  device_file_path = "/dev/nvidia3";
}

active : get_devices_active_process_ids nvml (20 ∷ 30 ∷ []) (info ∷ []) ≡ ok (20 ∷ 30 ∷ [])
unfolding get_devices_active_process_ids device_running_process_func
active = refl

get_devices_active_process_ids-All_example :
    All (λ pid. owns (20 ∷ 30 ∷ []) pid ≡ true) (20 ∷ 30 ∷ [])
get_devices_active_process_ids-All_example =
    get_devices_active_process_ids-All nvml (20 ∷ 30 ∷ []) (info ∷ []) (20 ∷ 30 ∷ []) active

unassigned :
    verify_support_pod_status host (slave [])
    ≡ some (StatusCode.fail, some (other_error "vGPU device allocation error"))
unfolding verify_support_pod_status decode_pod_devices lookup string_dec
unassigned = refl

verify_support_pod_status-IsPaired_example :
    IsPaired (StatusCode.fail, some (other_error "vGPU device allocation error"))
verify_support_pod_status-IsPaired_example =
    verify_support_pod_status-IsPaired host (slave [])
      (StatusCode.fail, some (other_error "vGPU device allocation error")) unassigned

abbrev main : Container
main = record { name = "main"; index = 0 }

get_device_infos_to_mount-permits_example :
    get_device_infos_to_mount host (slave []) main (mounted ∷ [])
    ≡ with_driver host
        (has_vgpu (slave []) main)
        (permitted true (get_device_infos_to_unmount host (mounted ∷ [])))
unfolding lookup string_dec anno_is_expansion equal_fold trim_space
get_device_infos_to_mount-permits_example =
    get_device_infos_to_mount-permits host (slave []) main (mounted ∷ []) mounted [] refl

abbrev one_gpu : Dict Quantity
one_gpu = (vgpu_number, record { value = pos 1; is_zero = false }) ∷ []

abbrev node : Node
node = record { name = "node"; allocatable = one_gpu }

accepted : validate_mount_request host (some node) (slave []) main one_gpu [] ≡ some none
unfolding validate_mount_request check_resources_in_slice lookup string_dec anno_is_expansion
    trim_space equal_fold split
accepted = refl

validate_mount_request-accepted_example :
    (check_resources_in_slice one_gpu (vgpu_number ∷ []) ignored_resources ≡ true)
    × (check_resources_in_node (some node) ((vgpu_number, wanted one_gpu) ∷ []) ≡ true)
validate_mount_request-accepted_example =
    validate_mount_request-accepted host (some node) (slave []) main one_gpu [] accepted

-- A world in which the patch of the annotation fails.
abbrev world : World
world = record {
  printer = record { show_number = λ n. "0"; show_int = λ n. "1" };
  stat = λ path. none;
  stat_cache = λ s. none;
  exec_cmd = λ cmd s. (none, s.cache);
  copy_to_pod = λ s src dst. none;
  write_to_pod = λ s text. (none, true);
  patch_annotation = λ s text. some (other_error "conflict");
}

abbrev start : State
start = record { trace = []; cache = ok two_used }

attach_to_ordinary_container-IsClean_example :
    IsClean world (attach_to_ordinary_container world detach_a (slave []) main start)
attach_to_ordinary_container-IsClean_example =
    attach_to_ordinary_container-IsClean world detach_a (slave []) main start refl

abbrev one_used : SharedRegion
one_used = record { num = 1; slots = slot "GPU-a" ∷ [] }

abbrev expanded : SharedRegion
expanded = record {
  num = 1;
  slots = record { uuid = "GPU-a"; limit = 1048583; sm_limit = 150 } ∷ [];
}

roll_back_expansion-expansion_example :
    roll_back_expansion world detach_a (record { trace = []; cache = ok expanded })
    ≡ some (none, (exec_nvidia_smi world (record { trace = []; cache = ok one_used })).1)
unfolding exec_nvidia_smi expansion_vgpu_device add_vgpu_resource each_slot take_letters memory
    cores uint64 lookup string_dec
roll_back_expansion-expansion_example =
    roll_back_expansion-expansion world detach_a (record { trace = []; cache = ok one_used })
      (record { trace = []; cache = ok expanded }) one_used refl ((omega arith, omega arith), tt)
      refl

abbrev marked : Pod
marked = slave ((init_vgpu_annotation, " side,main ") ∷ [])

other_names-initialised_example :
    other_names world main (split comma (initialised marked)) ≡ "side" ∷ []
unfolding has_letter trim_space lookup string_dec join
other_names-initialised_example =
    other_names-initialised world marked main ("side" ∷ []) (refl, (refl, tt)) refl refl
