-- ===== src/ApiServer/Tests.antt =====
-- Requests to a small API server.
use device_mounter.Base.{
  String, true, false, none, some, [], ◌∷◌, ◌≡◌, refl, string_dec, eqs, if◌then◌else◌,
}
use device_mounter.Base.Dict.{lookup, insert}
use device_mounter.Base.Numbers.{exact_int32}
use device_mounter.Base.Int.{uint32}
use device_mounter.Base.Split.{trim_space, strip_prefix, has_letter, equal_fold}
use device_mounter.Base.Split.Plain.{has_space}
use device_mounter.Api.{not_found_error, ok, err, ResultCode, Pod, ContainerStatus}
use device_mounter.AuthConfig.{
  ConfigMap, empty_cache, get_user_headers, get_group_headers, get_extra_header_prefixes,
}
use device_mounter.ApiServer.{
  HttpRequest, RequestMountBody, RequestMountParams, written, write_error, Service, Environment,
  State,
}
use device_mounter.ApiServer.Headers.{find_username, find_groups, collect_extras}
use device_mounter.ApiServer.Params.{
  get_wait_timeout_second, read_mount_request_parameters, read_unmount_request_parameters,
}
use device_mounter.ApiServer.Handlers.{
  ◌>>=◌, checked, asked, configured, check, get_pod, forward, get_mounter_pod_on_node_name,
  mount_call, unmount_call, serve, mount_device, unmount_device,
}
use device_mounter.ApiServer.Selector.{parse_label_selector}
use device_mounter.ApiServer.Selector.Parsed.{show_labels, insert_all, parse_label_selector-show}
use device_mounter.ApiServer.Answered.{ExplainedFor, mount_device-answers}
use device_mounter.ApiServer.Accepted.{IsMountable, read_mount_request_parameters-IsMountable}

abbrev ready_container : ContainerStatus
ready_container = record { name = "mounter"; ready = true; container_id = "1" }

abbrev pod_on : String → String → Pod
pod_on name node = record {
  name = name;
  generate_name = "";
  namespace = "default";
  uid = "u";
  resource_version = "1";
  labels = [];
  annotations = [];
  owner_references = [];
  deletion_timestamp = false;
  node_name = node;
  node_selector = [];
  scheduler_name = "";
  priority_class_name = "";
  grace_period = none;
  containers = [];
  phase = "Running";
  message = "";
  conditions = [];
  container_statuses = ready_container ∷ [];
  qos_class = "";
  pod_ip = "10.0.0.1";
}

abbrev configuration : ConfigMap
configuration = record {
  resource_version = "1";
  content =
      ("requestheader-username-headers", "")
      ∷ ("requestheader-group-headers", "")
      ∷ ("requestheader-extra-headers-prefix", "")
      ∷ ("requestheader-client-ca-file", "CA")
      ∷ [];
}

abbrev body : RequestMountBody
body = record {
  resources = ("nvidia.com/gpu", "1") ∷ [];
  annotations = [];
  labels = [];
  patches = [];
}

-- One pod on node1, a mounter on each of two nodes, and mounters that succeed.
abbrev small : Environment
small = record {
  decoders = record { decode_strings = λ s. ok (s ∷ []); parse_certs = λ s. ok (s ∷ []) };
  stored_config = λ now. ok (some configuration);
  get_pod = λ now namespace name.
      if eqs name "app" then ok (pod_on "app" "node1") else err (not_found_error "no such pod");
  list_pods = λ now namespace selector. ok (pod_on "m0" "node0" ∷ pod_on "m1" "node1" ∷ []);
  dial = λ now address. none;
  call = λ now address call. ok (record { result = ResultCode.success; message = "done" });
  decode_body = λ text. ok body;
  parse_error = λ text. text;
  errorf = λ text. text;
}

abbrev service : Service
service = record {
  target_server_port = ":1200";
  target_namespace = "kube-system";
  label_selector = ("app", "mounter") ∷ [];
}

abbrev request_for : String → HttpRequest
request_for name = record {
  path_parameters = ("namespace", "default") ∷ ("name", name) ∷ [];
  query_parameters = ("device_type", "GPU") ∷ ("wait_second", "30") ∷ [];
  header = ("X-Remote-User", "admin" ∷ []) ∷ ("X-Remote-Group", "masters" ∷ []) ∷ [];
  body = ok "{}";
}

abbrev start : State
start = record { clock = 0; cache = empty_cache; sent = [] }

found : (mount_device small service (request_for "app") start).0 ≡ written "done"
unfolding mount_device ◌>>=◌ checked read_mount_request_parameters string_dec trim_space lookup
    get_wait_timeout_second exact_int32 serve check configured get_user_headers find_username
    get_group_headers find_groups get_extra_header_prefixes get_pod asked forward
    get_mounter_pod_on_node_name collect_extras strip_prefix insert uint32
found = refl

missing :
    (unmount_device small service (request_for "db") start).0
    ≡ write_error 404 (not_found_error "target pod does not exist: no such pod")
unfolding unmount_device ◌>>=◌ checked read_unmount_request_parameters string_dec trim_space lookup
    get_wait_timeout_second exact_int32 serve check configured get_user_headers find_username
    get_group_headers find_groups get_extra_header_prefixes get_pod collect_extras strip_prefix
    insert uint32 equal_fold
missing = refl

mount_device-answers_example :
    ExplainedFor small
      (read_mount_request_parameters small (request_for "db"))
      (λ p. p.namespace)
      (λ p. p.name)
      mount_call
      start
      (mount_device small service (request_for "db") start)
    × ExplainedFor small
        (read_unmount_request_parameters small (request_for "db"))
        (λ p. p.namespace)
        (λ p. p.name)
        unmount_call
        start
        (unmount_device small service (request_for "db") start)
mount_device-answers_example = mount_device-answers small service (request_for "db") start

abbrev read_params : RequestMountParams
read_params = record {
  mount_body = body;
  container = "";
  device_type = "GPU";
  name = "app";
  namespace = "default";
  timeout_seconds = 30;
}

read : read_mount_request_parameters small (request_for "app") ≡ ok read_params
unfolding read_mount_request_parameters string_dec trim_space lookup get_wait_timeout_second
    exact_int32 uint32
read = refl

read_mount_request_parameters-IsMountable_example : IsMountable read_params
read_mount_request_parameters-IsMountable_example =
    read_mount_request_parameters-IsMountable small (request_for "app") read_params read

parse_label_selector-show_example :
    parse_label_selector (show_labels (("app", "mounter") ∷ ("tier", "node") ∷ []))
    ≡ insert_all (("app", "mounter") ∷ ("tier", "node") ∷ []) []
unfolding has_space has_letter
parse_label_selector-show_example =
    parse_label_selector-show ("app", "mounter") (("tier", "node") ∷ [])
      (((refl, refl, refl), (refl, refl, refl)), (((refl, refl, refl), (refl, refl, refl)), tt))
