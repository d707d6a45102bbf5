-- ===== src/Cgroup.antt =====
-- pkg/util/cgroup.go: the cgroup path of a container.
pub mod Commands
pub mod Sound
mod Tests
use Prim.Native.Char.{code}
use Prim.Native.String
use device_mounter.Base.{
  ℕ, String, ◌<>◌, Bool, true, false, Option, none, some, List, [], ◌∷◌, ◌++◌, map, ◌==◌, eqs, join,
  get_elem?, length, if◌then◌else◌, ◌-◌,
}
use device_mounter.Api.{Result, ok, err, other_error, Container, ContainerStatus, Pod}

-- `config.CurrentCGroupDriver`
pub data Driver : Type 0 where
  systemd cgroupfs : Driver
  unknown_driver : String → Driver

-- What the code asks the host and the libraries: whether a path exists (`os.Stat`), the path under
-- the mount point, `filepath.Join`, runc's `ExpandSlice` (`none` is an error), `qos.GetPodQOS`.
pub record Host : Type 0 where
  pub exists : String → Bool
  pub full_path : String → String
  pub join_path : List String → String
  pub expand_slice : String → Option String
  pub pod_qos : Pod → String
  pub driver : Driver

-- `GetContainerStatus`
abbrev pub get_container_status : List ContainerStatus → String → Option ContainerStatus
get_container_status [] name = none
get_container_status (s ∷ statuses) name =
    let rest = get_container_status statuses name in if eqs s.name name then some s else rest

abbrev has_prefix : String → String → Option String
has_prefix String.[] s = some s
has_prefix (String.◌∷◌ p prefix) String.[] = none
has_prefix (String.◌∷◌ p prefix) (String.◌∷◌ c s) =
    let rest = has_prefix prefix s in if code p == code c then rest else none

-- The text before and behind the first `://`.
abbrev pub cut : String → Option (String × String)
cut String.[] = none
cut (String.◌∷◌ c s) =
    let rest = cut s in
    elim (has_prefix "://" (String.◌∷◌ c s)) [
      | some behind ↦ some ("", behind)
      | none ↦ elim rest [
        | none ↦ none
        | some (before, behind) ↦ some (String.◌∷◌ c before, behind)
      ]
    ]

-- `parseRuntime`: the text has exactly two parts, or both results are empty.
abbrev pub parse_runtime : String → String × String
parse_runtime s = elim (cut s) [
  | none ↦ ("", "")
  | some (name, id) ↦ elim (cut id) [ none ↦ (name, id) | some more ↦ ("", "") ]
]

-- `escapeSystemdCgroupName`
abbrev pub escape_systemd_cgroup_name : String → String
escape_systemd_cgroup_name String.[] = ""
escape_systemd_cgroup_name (String.◌∷◌ c s) =
    let rest = escape_systemd_cgroup_name s in
    if code c == b'-' then "_" <> rest else String.◌∷◌ c rest

-- `SystemdPathPrefixOfRuntime`
abbrev pub systemd_path_prefix_of_runtime : String → String
systemd_path_prefix_of_runtime name =
    if eqs name "cri-o" then "crio" else if eqs name "containerd" then "cri-containerd" else name

abbrev is_root : List String → Bool
is_root [] = true
is_root (part ∷ []) = eqs part ""
is_root (part ∷ other ∷ parts) = false

abbrev slice_name : List String → String
slice_name name = join (map escape_systemd_cgroup_name name) "-" <> ".slice"

-- The `toSystemd` inside `convertSystemdFullPath`.
abbrev to_slice : List String → String
to_slice name = if is_root name then "/" else slice_name name

module _ (h : Host) where
  abbrev pub qos_parts : String → List String
  qos_parts qos =
      if eqs qos "Guaranteed"
      then "kubepods" ∷ []
      else if eqs qos "Burstable"
      then "kubepods" ∷ "burstable" ∷ []
      else if eqs qos "BestEffort"
      then "kubepods" ∷ "besteffort" ∷ []
      else []

  -- `NewPodCgroupName`
  unfoldable pub new_pod_cgroup_name : Pod → List String
  new_pod_cgroup_name pod =
      qos_parts (if eqs pod.qos_class "" then h.pod_qos pod else pod.qos_class)
      ++ ("pod" <> pod.uid) ∷ []

  -- `ToSystemd`; `none` is its panic.
  abbrev pub to_systemd : List String → Option String
  to_systemd name = if is_root name then some "/" else h.expand_slice (slice_name name)

  -- `ToCgroupfs`
  abbrev pub to_cgroupfs : List String → String
  to_cgroupfs name = "/" <> h.join_path name

  abbrev pub missing : String → Result String
  missing path = err (other_error ("container CGroup full path <" <> (path <> "> not exist")))

  -- A path if it exists, or else what follows.
  abbrev pub or_else : String → Result String → Result String
  or_else path next = if h.exists path then ok path else next

  abbrev pub last_try : String → Result String
  last_try path = or_else path (missing path)

  abbrev pub scope_path : String → String → String → String
  scope_path slice runtime id =
      h.full_path
        (slice <> ("/" <> (systemd_path_prefix_of_runtime runtime <> ("-" <> (id <> ".scope")))))

  abbrev pub service_path : String → String → List String → String
  service_path runtime id name = h.full_path (
      "system.slice/"
      <> (runtime
          <> (".service/"
              <> (to_slice name
                  <> (":" <> (systemd_path_prefix_of_runtime runtime <> (":" <> id)))))))

  abbrev pub plain_path : String → String → String
  plain_path slice id = h.full_path (slice <> ("/" <> id))

  -- The paths tried behind the first one.
  abbrev pub second_try : String → String → List String → String → Result String
  second_try runtime id name slice =
      if eqs runtime "containerd"
      then last_try (service_path runtime id name)
      else if eqs runtime "docker"
      then last_try (plain_path slice id)
      else missing (scope_path slice runtime id)

  abbrev pub on_slice : String → String → List String → Option String → Option (Result String)
  on_slice runtime id name none = none
  on_slice runtime id name (some slice) =
      some (or_else (scope_path slice runtime id) (second_try runtime id name slice))

  -- `convertSystemdFullPath`
  unfoldable pub convert_systemd_full_path : String → String → List String → Option (Result String)
  convert_systemd_full_path runtime id name = on_slice runtime id name (to_systemd name)

  abbrev pub on_part : String → Option String → Option (Result String)
  on_part first none = if h.exists first then some (ok first) else none
  on_part first (some part) =
      some (or_else first (last_try (h.full_path (h.join_path ("system.slice" ∷ part ∷ [])))))

  -- `convertCGroupfsFullPath`; `none` is the index out of range of an empty name.
  unfoldable pub convert_cgroupfs_full_path : String → String → List String → Option (Result String)
  convert_cgroupfs_full_path runtime id name =
      on_part (h.full_path (h.join_path (to_cgroupfs name ∷ id ∷ [])))
        (get_elem? name (length name - 1))

  abbrev pub convert : Driver → String × String → List String → Option (Result String)
  convert systemd (runtime, id) name = convert_systemd_full_path runtime id name
  convert cgroupfs (runtime, id) name = convert_cgroupfs_full_path runtime id name
  convert (unknown_driver driver) runtime name =
      some (err (other_error ("unknown CGroup driver: " <> driver)))

  abbrev pub on_container : Pod → Option ContainerStatus → Option (Result String)
  on_container pod none = some (err (other_error "failed to obtain container cgroup path"))
  on_container pod (some status) =
      convert h.driver (parse_runtime status.container_id) (new_pod_cgroup_name pod)

  -- `GetK8sPodCGroupPath`; `none` is a panic.
  unfoldable pub get_k8s_pod_cgroup_path : Pod → Container → Option (Result String)
  get_k8s_pod_cgroup_path pod container =
      on_container pod (get_container_status pod.container_statuses container.name)
