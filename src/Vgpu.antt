-- ===== src/Vgpu.antt =====
-- pkg/devices/volcano/vgpu/util.go: the annotation that names the devices of a pod, and what is
-- read from it. None is a panic: a device of fewer than five fields, or no container at an index.
pub mod Decoded
pub mod Region
pub mod Nvml
pub mod Plugin
pub mod Devices
pub mod Envs
pub mod Actions
pub mod Hooks
mod Tests
use Prim.Native.Char.{Char}
use device_mounter.Base.{
  ℕ, String, Bool, true, false, Option, none, some, List, [], ◌∷◌, ◌++◌, eqs, ◌==◌, if◌then◌else◌,
  get_elem?,
}
use device_mounter.Base.Dict.{Dict, lookup, insert, at_key}
use device_mounter.Base.Int.{ℤ, pos, uint32}
use device_mounter.Base.Split.{split, has_letter}
use device_mounter.Base.Numbers.{parse_int32}
use device_mounter.Api.{Container, Pod, PodContainer}
use device_mounter.Util.{is_given}

abbrev pub assigned_ids_annotation : String
assigned_ids_annotation = "volcano.sh/vgpu-ids-new"

abbrev pub init_vgpu_annotation : String
init_vgpu_annotation = "device-mounter.io/initVGPU"

abbrev pub vgpu_number : String
vgpu_number = "volcano.sh/vgpu-number"

abbrev pub comma : Char
comma = ","

abbrev pub colon : Char
colon = ":"

abbrev pub semicolon : Char
semicolon = ";"

pub record Device : Type 0 where
  pub ctr_idx : ℕ
  pub uuid : String
  pub type : String
  pub used_mem : ℤ
  pub used_cores : ℤ

-- The device of the fields of an entry.
unfoldable pub device_of : List String → Option Device
device_of [] = none
device_of (a ∷ []) = none
device_of (a ∷ b ∷ []) = none
device_of (a ∷ b ∷ c ∷ []) = none
device_of (a ∷ b ∷ c ∷ d ∷ []) = none
device_of (a ∷ b ∷ c ∷ d ∷ e ∷ rest) = some (record {
  ctr_idx = uint32 (parse_int32 a);
  uuid = b;
  type = c;
  used_mem = parse_int32 d;
  used_cores = parse_int32 e;
})

-- A value in front of those of the rest of a loop, either of which may panic.
abbrev pub cons_some : {A : Type 0} → Option A → Option (List A) → Option (List A)
cons_some none rest = none
cons_some (some a) none = none
cons_some (some a) (some rest) = some (a ∷ rest)

-- The loop of `decodeContainerDevices`.
unfoldable pub decode_entries : List String → Option (List Device)
decode_entries [] = some []
decode_entries (val ∷ cd) =
    let rest = decode_entries cd in
    if has_letter comma val then cons_some (device_of (split comma val)) rest else rest

-- `decodeContainerDevices`
unfoldable pub decode_container_devices : String → Option (List Device)
unfolding decode_entries
decode_container_devices str = if eqs str "" then some [] else decode_entries (split colon str)

-- The loop of `decodePodDevices`.
unfoldable pub decode_containers : List String → Option (List (List Device))
unfolding decode_container_devices
decode_containers [] = some []
decode_containers (s ∷ ss) = cons_some (decode_container_devices s) (decode_containers ss)

-- `decodePodDevices`
unfoldable pub decode_pod_devices : String → Option (List (List Device))
unfolding decode_containers
decode_pod_devices str = if eqs str "" then some [] else decode_containers (split semicolon str)

-- The devices of a container in the order of the annotation.
unfoldable pub uuids_of : ℕ → List Device → List String
uuids_of index [] = []
uuids_of index (d ∷ devices) =
    let rest = uuids_of index devices in if d.ctr_idx == index then d.uuid ∷ rest else rest

unfoldable pub all_uuids_of : ℕ → List (List Device) → List String
unfolding uuids_of
all_uuids_of index [] = []
all_uuids_of index (devices ∷ rest) = uuids_of index devices ++ all_uuids_of index rest

-- `getDevicesUUID`; `list_set` is the sorted set of a list, of apimachinery's sets.
unfoldable pub get_devices_uuid : (List String → List String) → List (List Device) → ℕ → List String
unfolding all_uuids_of
get_devices_uuid list_set pod_devices index = list_set (all_uuids_of index pod_devices)

-- `HasVGPU`
unfoldable pub has_vgpu : Pod → Container → Option Bool
has_vgpu pod container = elim (get_elem? pod.containers container.index) [
  | none ↦ none
  | some c ↦ some (is_given (lookup vgpu_number c.limits))
]

abbrev pub put_devices : List Device → Dict Device → Dict Device
put_devices [] m = m
put_devices (d ∷ devices) m = put_devices devices (insert d.uuid d m)

abbrev pub put_all : List (List Device) → Dict Device → Dict Device
put_all [] m = m
put_all (devices ∷ rest) m = put_all rest (put_devices devices m)

-- `GetPodDevMap`
unfoldable pub get_pod_dev_map : Pod → Option (Dict Device)
get_pod_dev_map pod = elim (decode_pod_devices (at_key assigned_ids_annotation pod.annotations)) [
  | none ↦ none
  | some devices ↦ some (put_all devices [])
]
