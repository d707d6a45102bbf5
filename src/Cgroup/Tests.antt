-- ===== src/Cgroup/Tests.antt =====
-- The path of a container on a small host.
use mathlib.Core.Option.{some-ne-none}
use device_mounter.Base.{
  String, ◌<>◌, true, false, none, some, [], ◌∷◌, ◌≡◌, refl, eqs, join, string_dec,
}
use device_mounter.Api.{ok, Container, Pod}
use device_mounter.Cgroup.{
  Host, systemd, parse_runtime, to_systemd, new_pod_cgroup_name, get_k8s_pod_cgroup_path,
  convert_systemd_full_path, escape_systemd_cgroup_name,
}
use device_mounter.Cgroup.Sound.{get_k8s_pod_cgroup_path-exists, get_k8s_pod_cgroup_path-returns}

abbrev main_path : String
main_path = "/sys/fs/cgroup/kubepods-burstable-pod1_2.slice/cri-containerd-7.scope"

-- A host on which only this path exists.
abbrev host : Host
host = record {
  exists = λ path. eqs path main_path;
  full_path = λ path. "/sys/fs/cgroup" <> path;
  join_path = λ parts. join parts "/";
  expand_slice = λ name. some ("/" <> name);
  pod_qos = λ pod. "BestEffort";
  driver = systemd;
}

abbrev pod : Pod
pod = record {
  name = "app";
  generate_name = "";
  namespace = "default";
  uid = "1-2";
  resource_version = "1";
  labels = [];
  annotations = [];
  owner_references = [];
  deletion_timestamp = false;
  node_name = "node1";
  node_selector = [];
  scheduler_name = "";
  priority_class_name = "";
  grace_period = none;
  containers = [];
  phase = "Running";
  message = "";
  conditions = [];
  container_statuses = record { name = "main"; ready = true; container_id = "containerd://7" } ∷ [];
  qos_class = "Burstable";
  pod_ip = "";
}

abbrev main : Container
main = record { name = "main"; index = 0 }

parsed : parse_runtime "containerd://7" ≡ ("containerd", "7")
parsed = refl

escaped : escape_systemd_cgroup_name "pod1-2" ≡ "pod1_2"
escaped = refl

found : get_k8s_pod_cgroup_path host pod main ≡ some (ok main_path)
unfolding get_k8s_pod_cgroup_path convert_systemd_full_path new_pod_cgroup_name string_dec join
found = refl

get_k8s_pod_cgroup_path-exists_example : host.exists main_path ≡ true
get_k8s_pod_cgroup_path-exists_example =
    get_k8s_pod_cgroup_path-exists host pod main main_path found

expands : ¬ (to_systemd host (new_pod_cgroup_name host pod) ≡ none)
unfolding new_pod_cgroup_name string_dec
expands = λ e. some-ne-none _ e

get_k8s_pod_cgroup_path-returns_example : ¬ (get_k8s_pod_cgroup_path host pod main ≡ none)
get_k8s_pod_cgroup_path-returns_example = get_k8s_pod_cgroup_path-returns host pod main expands
