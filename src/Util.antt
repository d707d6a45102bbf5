-- ===== src/Util.antt =====
-- pkg/util/util.go: checks of resources, a filter in place, a loop of retries, and the template of a
-- slave pod.
pub mod Compact
pub mod Resources
pub mod Retry
mod Tests
use device_mounter.Base.{
  ℕ, zero, suc, ◌+◌, ◌<◌, String, ◌<>◌, Bool, true, false, not, ◌&&◌, Option, none, some, List, [],
  ◌∷◌, ◌++◌, ◌==◌, ltb, eqs, contains, set, get_elem?, length, take, if◌then◌else◌,
}
use device_mounter.Base.Dict.{Dict, lookup}
use device_mounter.Base.Int.{ℤ, pos, negsuc}
use device_mounter.Api.{GoError, other_error, Quantity, Node, Pod, PodContainer}

-- `x < y` on Go's int64.
abbrev pub less : ℤ → ℤ → Bool
less (pos x) (pos y) = ltb x y
less (pos x) (negsuc y) = false
less (negsuc x) (pos y) = true
less (negsuc x) (negsuc y) = ltb y x

abbrev pub offers : Option Quantity → Quantity → Bool
offers none wanted = false
offers (some quantity) wanted = if less quantity.value wanted.value then false else true

-- The loop of `CheckResourcesInNode`.
abbrev pub check_requests : Dict Quantity → Dict Quantity → Bool
check_requests allocatable [] = true
check_requests allocatable ((name, wanted) ∷ request) =
    let rest = check_requests allocatable request in
    if offers (lookup name allocatable) wanted then rest else false

-- `CheckResourcesInNode`
abbrev pub check_resources_in_node : Option Node → Dict Quantity → Bool
check_resources_in_node none request = false
check_resources_in_node (some node) request = check_requests node.allocatable request

abbrev pub is_given : Option Quantity → Bool
is_given none = false
is_given (some quantity) = if quantity.is_zero then false else true

-- The first loop of `CheckResourcesInSlice`: the set that it has built, unless it returns false.
abbrev pub check_slice : Dict Quantity → List String → List String → Option (List String)
check_slice resources [] known = some known
check_slice resources (s ∷ slice) known =
    let rest = check_slice resources slice (s ∷ known) in
    if is_given (lookup s resources) then rest else none

-- The second loop puts the ignored names into the set.
abbrev pub add_ignored : List String → List String → List String
add_ignored [] known = known
add_ignored (s ∷ ignore) known = add_ignored ignore (s ∷ known)

-- The third loop.
abbrev pub check_known : Dict Quantity → List String → Bool
check_known [] known = true
check_known ((name, quantity) ∷ resources) known =
    let rest = check_known resources known in if contains known name then rest else false

abbrev pub on_slice : Dict Quantity → List String → Option (List String) → Bool
on_slice resources ignore none = false
on_slice resources ignore (some known) = check_known resources (add_ignored ignore known)

-- `CheckResourcesInSlice`
unfoldable pub check_resources_in_slice : Dict Quantity → List String → List String → Bool
check_resources_in_slice resources slice ignore =
    on_slice resources ignore (check_slice resources slice [])

module _ {A : Type 0} (filter : A → Bool) where
  -- One element of the loop of `DeleteSliceFunc`: the count `j` and the array after it.
  abbrev pub store : ℕ → List A → A → ℕ × List A
  store j array e = if filter e then (suc j, set array j e) else (j, array)

  -- The loop from the index `i` on, `n` elements to go. The element is read from the array that the
  -- loop writes to.
  unfoldable pub compact : ℕ → ℕ → ℕ → List A → ℕ × List A
  compact zero i j array = (j, array)
  compact (suc n) i j array = elim (get_elem? array i) [
    | none ↦ (j, array)
    | some e ↦ let (j', array') = store j array e in compact n (suc i) j' array'
  ]

  -- `DeleteSliceFunc`: the slice of the first `j` elements.
  unfoldable pub delete_slice_func : List A → List A
  unfolding compact
  delete_slice_func array = let (j, array') = compact (length array) 0 0 array in take j array'

-- The loop of `LoopRetry`, over the condition's own state; the sleep is no step of it.
module _ {S : Type 0} (condition : S → (Bool × Option GoError) × S) (gave_up : GoError) where
  -- After one attempt: `n` are left, and `again` makes them.
  abbrev pub on_attempt :
      (S → Option GoError × S) → ℕ → (Bool × Option GoError) × S → Option GoError × S
  on_attempt again n ((done, some e), s) = (some e, s)
  on_attempt again n ((true, none), s) = (none, s)
  on_attempt again zero ((false, none), s) = (some gave_up, s)
  on_attempt again (suc n) ((false, none), s) = again s

  unfoldable pub loop_retry : ℕ → S → Option GoError × S
  loop_retry zero s = (none, s)
  loop_retry (suc n) s = on_attempt (loop_retry n) n (condition s)

-- `NewDeviceSlavePod`; the image and its pull policy come from the configuration.
unfoldable pub new_device_slave_pod :
    String → String → Pod → Dict Quantity → Dict String → Dict String → Pod
new_device_slave_pod image policy owner_pod limits annotations labels = record {
  name = "";
  generate_name = owner_pod.name <> "-device-slave-";
  namespace = "";
  uid = "";
  resource_version = "";
  labels = labels;
  annotations = annotations;
  owner_references = [];
  deletion_timestamp = false;
  node_name = "";
  node_selector = ("kubernetes.io/hostname", owner_pod.node_name) ∷ [];
  scheduler_name = owner_pod.scheduler_name;
  priority_class_name = owner_pod.priority_class_name;
  grace_period = none;
  containers =
      record {
        name = "device-container";
        image = image;
        image_pull_policy = policy;
        restart_policy = none;
        limits = limits;
        env = [];
      }
      ∷ [];
  phase = "";
  message = "";
  conditions = [];
  container_statuses = [];
  qos_class = "";
  pod_ip = "";
}
