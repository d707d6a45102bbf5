-- ===== src/Cgroup/Sound.antt =====
-- The path that pkg/util/cgroup.go finds for a container.
use mathlib.Core.Option.{some-ne-none}
use device_mounter.Base.{
  eqs, ◌<>◌, String, Bool, true, false, Option, none, some, List, [], ◌∷◌, ◌++◌, ◌≡◌, refl, arith,
  get_elem?, length, ◌-◌, if◌then◌else◌,
}
use device_mounter.Api.{Result, ok, err, Container, ContainerStatus, Pod}
use device_mounter.Cgroup.{
  qos_parts, Driver, systemd, cgroupfs, unknown_driver, Host, get_container_status,
  new_pod_cgroup_name, to_systemd, or_else, convert_systemd_full_path, convert_cgroupfs_full_path,
  convert, second_try, get_k8s_pod_cgroup_path, parse_runtime, on_slice, on_part, on_container,
  last_try, missing, scope_path, plain_path, service_path,
}

-- A result that is a path is one that exists.
abbrev IsSound : Host → Option (Result String) → Type 0
IsSound h none = Unit
IsSound h (some (err e)) = Unit
IsSound h (some (ok path)) = h.exists path ≡ true

module _ (h : Host) where
  or_else-IsSound :
      (path : String) (next : Result String)
      → IsSound h (some next)
      → IsSound h (some (or_else h path next))
  or_else-IsSound path next sound = go (h.exists path) refl
    where
      go : (b : Bool) → h.exists path ≡ b → IsSound h (some (if b then ok path else next))
      go true e = e
      go false e = sound

  if-IsSound :
      (b : Bool) (r s : Result String)
      → IsSound h (some r)
      → IsSound h (some s)
      → IsSound h (some (if b then r else s))
  if-IsSound true r s hr hs = hr
  if-IsSound false r s hr hs = hs

  last_try-IsSound : (path : String) → IsSound h (some (last_try h path))
  last_try-IsSound path = or_else-IsSound path (missing h path) tt

  second_try-IsSound :
      (runtime id : String) (name : List String) (slice : String)
      → IsSound h (some (second_try h runtime id name slice))
  second_try-IsSound runtime id name slice =
      let no_path = missing h (scope_path h slice runtime id) in
      let plain = last_try h (plain_path h slice id) in
      if-IsSound (eqs runtime "containerd") (last_try h (service_path h runtime id name))
        (if eqs runtime "docker" then plain else no_path) (last_try-IsSound _)
        (if-IsSound (eqs runtime "docker") plain no_path (last_try-IsSound (plain_path h slice id))
          tt)

  on_slice-IsSound :
      (runtime id : String) (name : List String) (slice : Option String)
      → IsSound h (on_slice h runtime id name slice)
  on_slice-IsSound runtime id name none = tt
  on_slice-IsSound runtime id name (some slice) =
      or_else-IsSound (scope_path h slice runtime id) (second_try h runtime id name slice)
        (second_try-IsSound runtime id name slice)

  on_part-IsSound : (first : String) (part : Option String) → IsSound h (on_part h first part)
  on_part-IsSound first (some part) = or_else-IsSound first _ (last_try-IsSound _)
  on_part-IsSound first none = go (h.exists first) refl
    where
      go : (b : Bool) → h.exists first ≡ b → IsSound h (if b then some (ok first) else none)
      go true e = e
      go false e = tt

  convert-IsSound :
      (driver : Driver) (runtime : String × String) (name : List String)
      → IsSound h (convert h driver runtime name)
  unfolding convert_systemd_full_path convert_cgroupfs_full_path
  convert-IsSound systemd (runtime, id) name = on_slice-IsSound runtime id name (to_systemd h name)
  convert-IsSound cgroupfs (runtime, id) name = on_part-IsSound _ _
  convert-IsSound (unknown_driver driver) runtime name = tt

  found-exists :
      (found : Option (Result String)) (path : String)
      → IsSound h found
      → found ≡ some (ok path)
      → h.exists path ≡ true
  found-exists none path sound e = ground arith
  found-exists (some (err m)) path sound e = ground arith
  found-exists (some (ok p)) path sound e = ground arith

  container-IsSound :
      (pod : Pod) (status : Option ContainerStatus) → IsSound h (on_container h pod status)
  container-IsSound pod none = tt
  container-IsSound pod (some status) =
      convert-IsSound h.driver (parse_runtime status.container_id) (new_pod_cgroup_name h pod)

  -- The path returned for a container exists on the host, whatever the driver, the runtime and the
  -- class of the pod.
  pub get_k8s_pod_cgroup_path-exists :
      (pod : Pod) (container : Container) (path : String)
      → get_k8s_pod_cgroup_path h pod container ≡ some (ok path)
      → h.exists path ≡ true
  unfolding get_k8s_pod_cgroup_path
  get_k8s_pod_cgroup_path-exists pod container path e =
      found-exists _ path
        (container-IsSound pod (get_container_status pod.container_statuses container.name)) e

  last_part :
      (xs : List String) (x : String)
      → get_elem? (xs ++ x ∷ []) (length (xs ++ x ∷ []) - 1) ≡ some x
  last_part [] x = refl
  last_part (y ∷ []) x = refl
  last_part (y ∷ z ∷ xs) x = ground (arith, last_part (z ∷ xs) x)

  on_slice-returns :
      (runtime id : String) (name : List String) (slice : Option String)
      → ¬ (slice ≡ none)
      → ¬ (on_slice h runtime id name slice ≡ none)
  on_slice-returns runtime id name none some_slice = absurd (some_slice refl)
  on_slice-returns runtime id name (some slice) some_slice = λ e. some-ne-none _ e

  new_pod_cgroup_name-last :
      (pod : Pod)
      → let name = new_pod_cgroup_name h pod in
        get_elem? name (length name - 1) ≡ some ("pod" <> pod.uid)
  unfolding new_pod_cgroup_name
  new_pod_cgroup_name-last pod =
      last_part (qos_parts h (if eqs pod.qos_class "" then h.pod_qos pod else pod.qos_class)) _

  on_part-returns :
      (first x : String) (part : Option String) → part ≡ some x → ¬ (on_part h first part ≡ none)
  on_part-returns first x none e = absurd (ground arith)
  on_part-returns first x (some y) e = λ r. some-ne-none _ r

  convert-returns :
      (driver : Driver) (runtime : String × String) (pod : Pod)
      → ¬ (to_systemd h (new_pod_cgroup_name h pod) ≡ none)
      → ¬ (convert h driver runtime (new_pod_cgroup_name h pod) ≡ none)
  unfolding convert_systemd_full_path convert_cgroupfs_full_path
  convert-returns systemd (runtime, id) pod expands = on_slice-returns runtime id _ _ expands
  convert-returns cgroupfs (runtime, id) pod expands =
      on_part-returns _ ("pod" <> pod.uid) _ (new_pod_cgroup_name-last pod)
  convert-returns (unknown_driver driver) runtime pod expands = λ e. some-ne-none _ e

  -- The search for the path of a container does not panic if runc's `ExpandSlice` accepts the name
  -- of the pod's slice: the last part of the name that the cgroupfs driver takes is always there.
  pub get_k8s_pod_cgroup_path-returns :
      (pod : Pod) (container : Container)
      → ¬ (to_systemd h (new_pod_cgroup_name h pod) ≡ none)
      → ¬ (get_k8s_pod_cgroup_path h pod container ≡ none)
  unfolding get_k8s_pod_cgroup_path
  get_k8s_pod_cgroup_path-returns pod container expands =
      go (get_container_status pod.container_statuses container.name)
    where
      go : (status : Option ContainerStatus) → ¬ (on_container h pod status ≡ none)
      go none = λ e. some-ne-none _ e
      go (some status) = convert-returns h.driver (parse_runtime status.container_id) pod expands
