-- ===== src/Framework/Tests.antt =====
-- A registry with two plugins of one type, one of which cannot be created.
use device_mounter.Base.{String, none, [], ◌∷◌, ◌≡◌}
use device_mounter.Api.{other_error, ok, err, StatusCode}
use device_mounter.Server.Cluster.{DeviceMounter}
use device_mounter.Framework.{
  Registry, registry_device_mounter, get_device_mounter, last_created, get_device_mounter-registry,
}

abbrev plugin : String → DeviceMounter
plugin type = record {
  device_type = type;
  validate_mount_request = λ w node pod c request annotations labels. none;
  build_support_pod_templates = λ w pod c request annotations labels slaves. ok [];
  verify_support_pod_status = λ w pod. (StatusCode.success, none);
  get_device_infos_to_mount = λ w pod c slaves. ok [];
  execute_post_mount_actions = λ w n pod c slaves. none;
  get_device_infos_to_unmount = λ w pod c slaves. ok [];
  get_devices_active_process_ids = λ w pids infos. ok [];
  execute_post_unmount_actions = λ w n pod c slaves. none;
  get_pods_to_cleanup = λ w pod c slaves. [];
}

abbrev registry : Registry
registry = record {
  mounters = [];
  create_funcs = ok (plugin "GPU") ∷ err (other_error "no device") ∷ ok (plugin "NPU") ∷ [];
}

get_device_mounter-registry_example :
    get_device_mounter (registry_device_mounter (λ s. s) registry) "GPU"
    ≡ last_created (λ s. s) "GPU" registry.create_funcs (get_device_mounter registry "GPU")
get_device_mounter-registry_example = get_device_mounter-registry (λ s. s) registry "GPU"
