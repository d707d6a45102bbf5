-- ===== src/Server/Requests.antt =====
-- pkg/server/mounter/util.go: the checks of a request against itself and against its pod.
pub mod Target
use device_mounter.Base.{
  ℕ, ◌+◌, ◌%◌, String, ◌<>◌, Bool, true, false, ◌&&◌, ◌||◌, Option, none, some, List, [], ◌∷◌, ◌++◌,
  ◌==◌, eqs, join, if◌then◌else◌,
}
use device_mounter.Base.Dict.{Dict}
use device_mounter.Api.{
  ResultCode, GoError, mounter_error, other_error, Result, ok, err, Container, Pod, PodContainer,
  ContainerStatus,
}

pub record MountDeviceRequest : Type 0 where
  pub pod_name : String
  pub pod_namespace : String
  pub container : Option Container
  pub resources : Dict String
  pub annotations : Dict String
  pub labels : Dict String
  pub device_type : String
  pub patches : List String

pub record UnMountDeviceRequest : Type 0 where
  pub pod_name : String
  pub pod_namespace : String
  pub container : Option Container
  pub device_type : String
  pub force : Bool

-- `api.NewMounterError(api.ResultCode_Invalid, …)`
abbrev pub invalid : String → GoError
invalid = mounter_error ResultCode.invalid

abbrev name_if : Bool → String → List String
name_if missing name = if missing then name ∷ [] else []

abbrev pub empty_parameters : List String → String
empty_parameters names = "parameters [" <> (join names "," <> "] cannot be empty")

abbrev pub default_container : Option Container → Option Container
default_container none = some (record { name = ""; index = 0 })
default_container (some c) = some c

abbrev is_empty : {A : Type 0} → List A → Bool
is_empty [] = true
is_empty (x ∷ xs) = false

-- `CheckMountDeviceRequest`: the request with its defaults filled in, or the error.
unfoldable pub check_mount_device_request : MountDeviceRequest → Result MountDeviceRequest
check_mount_device_request req =
    let names =
      name_if (eqs req.pod_name "") "'pod_name'"
      ++ (name_if (eqs req.pod_namespace "") "'pod_namespace'"
          ++ name_if (is_empty req.resources) "'resources'") in
    if is_empty names
    then ok (record req { container = default_container req.container })
    else err (invalid (empty_parameters names))

-- `CheckUnMountDeviceRequest`
unfoldable pub check_unmount_device_request : UnMountDeviceRequest → Result UnMountDeviceRequest
check_unmount_device_request req =
    let names =
      name_if (eqs req.pod_name "") "'pod_name'"
      ++ name_if (eqs req.pod_namespace "") "'pod_namespace'" in
    if is_empty names
    then ok (record req { container = default_container req.container })
    else err (invalid (empty_parameters names))

-- `CheckPodContainerStatus`
unfoldable pub any_ready : String → List ContainerStatus → Bool
any_ready name [] = false
any_ready name (s ∷ statuses) = (eqs s.name name && s.ready) || any_ready name statuses

unfoldable pub check_pod_container_status : Pod → Container → Result (Unit {0})
unfolding any_ready
check_pod_container_status pod cont =
    if any_ready cont.name pod.container_statuses
    then ok tt
    else err (other_error ("the target container " <> (cont.name <> " is not ready")))

-- `util.IsSidecar`
abbrev pub is_sidecar : PodContainer → Bool
is_sidecar c = elim (c.restart_policy) [ none ↦ false | some policy ↦ eqs policy "Always" ]

abbrev target : PodContainer → String → ℕ → Result Container
target c name index =
    if is_sidecar c
    then err (invalid "Target container is a sidecar container")
    else ok (record { name = name; index = index })

module _ (show_container : Container → String) where
  -- The loop of `CheckPodContainer` from the position `i` on.
  unfoldable pub find_container : Container → ℕ → List PodContainer → Result Container
  find_container cont i [] =
      err (invalid ("target container " <> (show_container cont <> " not found")))
  find_container cont i (c ∷ containers) =
      let rest = find_container cont (i + 1) containers in
      if eqs c.name cont.name
      then target c cont.name (i % 4294967296)
      else if eqs cont.name "" && cont.index == i
      then target c c.name cont.index
      else rest

  -- `CheckPodContainer`; a nil pod and a nil container are `none`.
  unfoldable pub check_pod_container : Option Pod → Option Container → Result Container
  unfolding find_container
  check_pod_container none cont = err (invalid "The target pod is empty")
  check_pod_container (some pod) none = elim (pod.containers) [
    | c ∷ [] ↦ ok (record { name = c.name; index = 0 })
    | _ ↦ err (invalid "Pod has multiple containers, target container must be specified")
  ]
  check_pod_container (some pod) (some cont) = find_container cont 0 pod.containers
