-- ===== src/Api.antt =====
-- The data that the parts exchange: pkg/api (requests, results, status codes, keys), the fields of
-- the Kubernetes objects that the code reads, pkg/config/constants.go, and errors as values.
use device_mounter.Base.{ℕ, String, Bool, Option, none, some, List, eqs, if◌then◌else◌}
use device_mounter.Base.Dict.{Dict, at_key}
use device_mounter.Base.Split.{equal_fold, trim_space}
use device_mounter.Base.Int.{ℤ}
use device_mounter.Ebpf.{Rule}

pub data ResultCode : Type 0 where
  success fail insufficient not_found device_busy invalid unknown : ResultCode

-- A Go error: a `MounterError`, an error for which `apierror.IsNotFound` holds, or any other.
pub data GoError : Type 0 where
  mounter_error : ResultCode → String → GoError
  not_found_error : String → GoError
  other_error : String → GoError

-- `err.Error()`
abbrev pub message : GoError → String
message (mounter_error code m) = m
message (not_found_error m) = m
message (other_error m) = m

pub data Result {ℓ} (A : Type ℓ) : Type ℓ where
  ok : A → Result A
  err : GoError → Result A

-- `if err != nil { return nil, err }` behind each step of a block.
infixl 5 ◌>>=◌
abbrev pub ◌>>=◌ {ℓ κ} : {A : Type ℓ} {B : Type κ} → Result A → (A → Result B) → Result B
ok a >>= f = f a
err e >>= f = err e

pub data StatusCode : Type 0 where
  success wait skip unschedulable fail : StatusCode
  unknown : ℕ → StatusCode

-- `api.Container` of a request.
pub record Container : Type 0 where
  pub name : String
  pub index : ℕ

pub record DeviceInfo : Type 0 where
  pub rule : Rule
  pub device_id : String
  pub device_file_path : String

pub record ObjectKey : Type 0 where
  pub namespace : String
  pub name : String
  pub uid : Option String

-- What the code reads of a `resource.Quantity`: `Value()` and `IsZero()`.
pub record Quantity : Type 0 where
  pub value : ℤ
  pub is_zero : Bool

pub record PodContainer : Type 0 where
  pub name : String
  pub image : String
  pub image_pull_policy : String
  pub restart_policy : Option String
  pub limits : Dict Quantity
  pub env : Dict String

pub record ContainerStatus : Type 0 where
  pub name : String
  pub ready : Bool
  pub container_id : String

pub record Condition : Type 0 where
  pub reason : String
  pub message : String

pub record OwnerReference : Type 0 where
  pub name : String
  pub uid : String
  pub controller : Bool

-- A nil map and an empty one are read alike, and both are the empty dictionary.
pub record Pod : Type 0 where
  pub name : String
  pub generate_name : String
  pub namespace : String
  pub uid : String
  pub resource_version : String
  pub labels : Dict String
  pub annotations : Dict String
  pub owner_references : List OwnerReference
  pub deletion_timestamp : Bool
  pub node_name : String
  pub node_selector : Dict String
  pub scheduler_name : String
  pub priority_class_name : String
  pub grace_period : Option ℕ
  pub containers : List PodContainer
  pub phase : String
  pub message : String
  pub conditions : List Condition
  pub container_statuses : List ContainerStatus
  pub qos_class : String
  pub pod_ip : String

pub record Node : Type 0 where
  pub name : String
  pub allocatable : Dict Quantity

-- `api.ObjectKeyFromObject`
unfoldable pub key_of : Pod → ObjectKey
key_of pod = record {
  namespace = pod.namespace;
  name = pod.name;
  uid = if eqs pod.uid "" then none else some pod.uid;
}

-- pkg/api/v1alpha1 and pkg/config/constants.go
abbrev pub group : String
group = "device-mounter.io"

abbrev pub device_type_annotation : String
device_type_annotation = "device-mounter.io/device-type"

abbrev pub container_id_annotation : String
container_id_annotation = "device-mounter.io/containerId"

abbrev pub expansion_annotation : String
expansion_annotation = "device-mounter.io/expansion"

-- `AnnoIsExpansion`; a missing value is the empty text.
unfoldable pub anno_is_expansion : Dict String → Bool
anno_is_expansion annos = equal_fold (trim_space (at_key expansion_annotation annos)) "true"

abbrev pub created_by_label : String
created_by_label = "device-mounter.io/created-by"

abbrev pub owner_name_label : String
owner_name_label = "device-mounter.io/owner-name"

abbrev pub owner_uid_label : String
owner_uid_label = "device-mounter.io/owner-uid"

abbrev pub mount_container_label : String
mount_container_label = "device-mounter.io/mounted-container"

abbrev pub app_component_label : String
app_component_label = "app.kubernetes.io/component"

abbrev pub app_managed_by_label : String
app_managed_by_label = "app.kubernetes.io/managed-by"

abbrev pub create_manager_by : String
create_manager_by = "device-mounter"
