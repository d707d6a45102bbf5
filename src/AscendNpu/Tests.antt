-- ===== src/AscendNpu/Tests.antt =====
-- A slave pod with one physical and one virtual device, and a container without an NPU of its own.
use device_mounter.Base.{
  String, true, false, Option, none, some, List, [], ◌∷◌, ◌++◌, ◌≡◌, refl, sym, ◌∙◌, ap, map,
  string_dec, eqs_refl, ◌==◌, if◌then◌else◌,
}
use device_mounter.Base.Dict.{Dict, lookup}
use device_mounter.Base.Int.{pos}
use device_mounter.Base.Split.{split, has_letter, trim_space, strip_prefix}
use device_mounter.Base.Split.Plain.{has_space}
use device_mounter.Api.{
  other_error, Result, ok, err, Container, Pod, PodContainer, Quantity, DeviceInfo,
}
use device_mounter.NvidiaGpu.{PodResources}
use device_mounter.AscendNpu.{Host, init_npu_annotation, has_npu}
use device_mounter.AscendNpu.Allocated.{
  get_real_device_for_annotations, choose_devices, container_devices, load_pod, match_pod,
  load_pods, visible_devices, info_of_all, get_running_process,
}
use device_mounter.AscendNpu.Plugin.{
  get_device_infos_to_mount, get_device_infos_to_unmount, append_managers,
  execute_post_mount_actions, get_devices_active_process_ids,
}
use device_mounter.AscendNpu.Plugin.Forbidden.{unmounted, get_device_infos_to_unmount-unmounted}
use device_mounter.AscendNpu.Plugin.Refused.{Annotates, Refuses, execute_post_mount_actions-Refuses}

abbrev given : PodResources
given = record {
  name = "slave";
  namespace = "default";
  containers =
      record {
        name = "device-container";
        devices =
            record {
              resource_name = "huawei.com/Ascend910";
              device_ids = "Ascend910-0" ∷ "Ascend910-1" ∷ [];
            }
            ∷ [];
      }
      ∷ [];
}

-- Puts the entries before those of the pod.
abbrev annotate_pod : Pod → Dict String → Result Pod
annotate_pod pod entries = ok (record pod { annotations = entries ++ pod.annotations })

abbrev host : Host
host = record {
  resource_name_prefix = "huawei.com/";
  pod_2kl = "huawei.com/kltDev";
  pod_real_alloc = "huawei.com/AscendReal";
  ai_core_resource_name = "npu-core";
  annotation_by_device_type = λ pod dev_type. err (other_error "no annotation");
  is_virtual_dev = λ name. false;
  device_list_id = λ names virtual. ok (1 ∷ 104 ∷ []);
  dev_type = "Ascend910";
  list_pod_resources = ok (none ∷ some given ∷ []);
  get_pod = λ namespace name. err (other_error "not found");
  device_file_version = λ path. ok (236, 0, b'c');
  show_number = λ n. if n == 1 then "1" else "104";
  errorf = λ s. s;
  int_set = λ pids. pids;
  init = none;
  get_device_list = ok (0 ∷ 1 ∷ []);
  is_dropped = λ id. id == 0;
  process_info = λ id. ok (some (record { proc_num = 2; pids = 7 ∷ 12 ∷ [] }));
  patch_annotations = annotate_pod;
  slave_image = "mounter";
  slave_pull_policy = "IfNotPresent";
}

abbrev bare_container : Dict Quantity → PodContainer
bare_container limits = record {
  name = "main";
  image = "app";
  image_pull_policy = "";
  restart_policy = none;
  limits = limits;
  env = [];
}

abbrev slave : Pod
slave = record {
  name = "slave";
  generate_name = "";
  namespace = "default";
  uid = "u";
  resource_version = "1";
  labels = [];
  annotations = [];
  owner_references = [];
  deletion_timestamp = false;
  node_name = "node1";
  node_selector = [];
  scheduler_name = "";
  priority_class_name = "";
  grace_period = none;
  containers = [];
  phase = "Running";
  message = "";
  conditions = [];
  container_statuses = [];
  qos_class = "";
  pod_ip = "";
}

-- Another container is marked already.
abbrev owner : Pod
owner = record slave {
  name = "app";
  annotations = (init_npu_annotation, "side") ∷ [];
  containers = bare_container [] ∷ [];
}

abbrev main : Container
main = record { name = "main"; index = 0 }

abbrev one_npu : Dict Quantity
one_npu = ("huawei.com/Ascend910", record { value = pos 1; is_zero = false }) ∷ []

bare : has_npu host owner main ≡ some false
unfolding has_npu
bare = refl

owned : has_npu host (record owner { containers = bare_container one_npu ∷ [] }) main ≡ some true
unfolding has_npu strip_prefix
owned = refl

real_devices :
    get_real_device_for_annotations host (record slave {
      annotations =
          ("huawei.com/kltDev", "Ascend910-0")
          ∷ ("huawei.com/AscendReal", "Ascend910-2,Ascend910-3")
          ∷ [];
    })
    ≡ "Ascend910-2" ∷ "Ascend910-3" ∷ []
unfolding get_real_device_for_annotations lookup string_dec split
real_devices = refl

active : get_devices_active_process_ids host (12 ∷ 40 ∷ []) ≡ some (ok (12 ∷ []))
unfolding get_devices_active_process_ids get_running_process
active = refl

-- A physical device, a virtual one and the three files of the driver's management.
paths : Option (Result (List DeviceInfo)) → List String
paths none = []
paths (some (err e)) = []
paths (some (ok infos)) = map (λ info. info.device_file_path) infos

mounted :
    paths (get_device_infos_to_mount host owner main (slave ∷ []))
    ≡ "/dev/davinci1" ∷ "/dev/vdavinci104" ∷ "/dev/davinci_manager" ∷ "/dev/devmm_svm"
      ∷ "/dev/hisi_hdc" ∷ []
unfolding get_device_infos_to_mount append_managers load_pods load_pod match_pod container_devices
    choose_devices get_real_device_for_annotations visible_devices info_of_all string_dec lookup
    strip_prefix paths has_npu
mounted = refl

get_device_infos_to_unmount-unmounted_example :
    get_device_infos_to_unmount host owner main (slave ∷ [])
    ≡ unmounted (has_npu host owner main) (get_device_infos_to_mount host owner main (slave ∷ []))
get_device_infos_to_unmount-unmounted_example =
    get_device_infos_to_unmount-unmounted host owner main (slave ∷ [])

host-Annotates : Annotates host
unfolding lookup
host-Annotates = record {
  lookup-patched = λ pod new key value accepted. written pod new key value accepted;
}
  where
    pod_of : Result Pod → Pod
    pod_of (err e) = slave
    pod_of (ok pod) = pod

    written :
        (pod new : Pod) (key value : String)
        → annotate_pod pod ((key, value) ∷ []) ≡ ok new
        → lookup key new.annotations ≡ some value
    written pod new key value accepted =
        ap (λ r. lookup key (pod_of r).annotations) (sym accepted) ∙ rw (eqs_refl key) refl

execute_post_mount_actions-Refuses_example :
    Refuses host none one_npu main (execute_post_mount_actions host owner main)
unfolding has_letter has_space trim_space lookup string_dec split
execute_post_mount_actions-Refuses_example =
    execute_post_mount_actions-Refuses host owner main none one_npu host-Annotates bare
      ((refl, refl), ((refl, refl), tt))
