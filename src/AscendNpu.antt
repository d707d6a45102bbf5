-- ===== src/AscendNpu.antt =====
-- pkg/devices/ascend/npu: the plugin that mounts Ascend NPUs. Here is what it asks outside: Huawei's
-- device plugin and device manager, the kubelet and the API server, whose answers do not change
-- within one operation.
pub mod Allocated
pub mod Plugin
mod Tests
use device_mounter.Base.{
  ℕ, zero, suc, String, ◌<>◌, Bool, true, false, ◌||◌, Option, none, some, List, [], ◌∷◌, leb,
  get_elem?, if◌then◌else◌,
}
use device_mounter.Base.Dict.{Dict}
use device_mounter.Base.Split.{strip_prefix}
use device_mounter.Api.{GoError, Result, Container, Pod, Quantity}
use device_mounter.NvidiaGpu.{PodResources}

-- The processes of a device: the number that is given, and those listed.
pub record ProcessInfo : Type 0 where
  pub proc_num : ℕ
  pub pids : List ℕ

pub record Host : Type 0 where
  -- Constants of the package common; the prefix of a resource's name ends in a slash.
  pub resource_name_prefix : String
  pub pod_2kl : String
  pub pod_real_alloc : String
  pub ai_core_resource_name : String
  -- `common.GetPodAnnotationByDeviceType`, `common.IsVirtualDev`, and the identifiers that
  -- `common.GetDeviceListID` gives for physical or virtual devices.
  pub annotation_by_device_type : Pod → String → Result String
  pub is_virtual_dev : String → Bool
  pub device_list_id : List String → Bool → Result (List ℕ)
  -- `convertDevType(c.GetDevType())`
  pub dev_type : String
  -- The kubelet's answer, where a pod may be nil, and a pod of the API server.
  pub list_pod_resources : Result (List (Option PodResources))
  pub get_pod : String → String → Result Pod
  -- `util.GetDeviceFileVersionV2`: major, minor and type.
  pub device_file_version : String → Result (ℕ × ℕ × ℕ)
  pub show_number : ℕ → String
  pub errorf : String → String
  pub int_set : List ℕ → List ℕ
  -- The device manager: its start, the logic identifiers of the devices, whether a card has dropped
  -- out, and the processes of a device, or nil.
  pub init : Option GoError
  pub get_device_list : Result (List ℕ)
  pub is_dropped : ℕ → Bool
  pub process_info : ℕ → Result (Option ProcessInfo)
  -- The patch of a pod's annotations, with the pod that the API server answers.
  pub patch_annotations : Pod → Dict String → Result Pod
  pub slave_image : String
  pub slave_pull_policy : String

abbrev pub init_npu_annotation : String
init_npu_annotation = "device-mounter.io/initNPU"

-- `IsVirtDev`
abbrev pub is_virt_dev : ℕ → Bool
is_virt_dev dev_id = leb 100 dev_id

-- `strings.HasPrefix`
abbrev pub has_prefix : String → String → Bool
has_prefix s prefix = elim (strip_prefix s prefix) [ none ↦ false | some rest ↦ true ]

-- `strings.Contains`
unfoldable pub contains_text : String → String → Bool
contains_text String.[] text = has_prefix "" text
contains_text (String.◌∷◌ c s) text =
    let rest = contains_text s text in has_prefix (String.◌∷◌ c s) text || rest

module _ (host : Host) where
  unfoldable pub any_npu : Dict Quantity → Bool
  any_npu [] = false
  any_npu ((name, quantity) ∷ limits) = has_prefix name host.resource_name_prefix || any_npu limits

  -- `HasNPU`; none is an index out of range.
  unfoldable pub has_npu : Pod → Container → Option Bool
  unfolding any_npu
  has_npu pod container = elim (get_elem? pod.containers container.index) [
    | none ↦ none
    | some c ↦ some (any_npu c.limits)
  ]
