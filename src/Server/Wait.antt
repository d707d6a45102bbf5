-- ===== src/Server/Wait.antt =====
-- pkg/server/mounter/util.go, `WaitSupportPodsReady`. The poll ends with the context, after a number
-- of rounds that the context's deadline gives; that number is the fuel of the loop.
pub mod Partition
use device_mounter.Base.{
  ℕ, zero, suc, ◌+◌, String, ◌<>◌, Bool, true, false, Option, none, some, List, [], ◌∷◌, ◌++◌, ◌≡◌,
  refl, ap, arith, length, length-append, if◌then◌else◌,
}
use device_mounter.Api.{
  GoError, mounter_error, not_found_error, other_error, message, Result, ok, err, StatusCode,
  ObjectKey, Pod,
}
use device_mounter.Server.World.{World, tick}
use device_mounter.Server.Cluster.{Cluster, DeviceMounter}

-- How one round ended, with the two lists as it left them. `waiting` has reset them.
pub data Round : Type 0 where
  complete : List Pod → List Pod → Round
  waiting : Round
  broken : List Pod → List Pod → GoError → Round

pub record Waited : Type 0 where
  pub ready : List Pod
  pub skipped : List Pod
  pub error : Option GoError

-- The error that goes with a failed status.
abbrev pub failed_with : String → Option GoError → GoError
failed_with key none = other_error ("failed to verify slave pod <" <> (key <> "> status"))
failed_with key (some (mounter_error code m)) = mounter_error code m
failed_with key (some (not_found_error m)) =
    other_error ("failed to verify slave pod <" <> (key <> ("> status: " <> m)))
failed_with key (some (other_error m)) =
    other_error ("failed to verify slave pod <" <> (key <> ("> status: " <> m)))

abbrev pub unschedulable_with : String → Option GoError → GoError
unschedulable_with key none = other_error ("slave pod <" <> (key <> "> is not schedulable"))
unschedulable_with key (some e) = e

-- `slaveKey.String()`
abbrev pub key_text : ObjectKey → String
key_text key = key.namespace <> ("/" <> key.name)

module _ (c : Cluster) (m : DeviceMounter) where
  -- The pod of a key, from the cache and, if it is not there, from the API.
  unfoldable pub find_pod : ObjectKey → World → Result Pod × World
  find_pod key w = elim (c.cached_pod w key.namespace key.name) [
    | ok pod ↦ (ok pod, tick w)
    | err e ↦ elim e [
      | not_found_error t ↦ (c.api_get_pod (tick w) key.namespace key.name, tick (tick w))
      | mounter_error code t ↦ (err (mounter_error code t), tick w)
      | other_error t ↦ (err (other_error t), tick w)
    ]
  ]

  -- The switch over the status of a pod; `continue` is the loop over the keys behind it.
  abbrev pub on_status :
      (List Pod → List Pod → World → Round × World)
      → ObjectKey
      → Pod
      → List Pod
      → List Pod
      → StatusCode
      → Option GoError
      → World
      → Round × World
  on_status continue key pod ready skipped StatusCode.success e w =
      continue (ready ++ pod ∷ []) skipped w
  on_status continue key pod ready skipped StatusCode.wait e w = (waiting, w)
  on_status continue key pod ready skipped StatusCode.skip e w =
      continue ready (skipped ++ pod ∷ []) w
  on_status continue key pod ready skipped StatusCode.unschedulable e w =
      (broken ready skipped (unschedulable_with (key_text key) e), w)
  on_status continue key pod ready skipped StatusCode.fail e w =
      (broken ready skipped (failed_with (key_text key) e), w)
  on_status continue key pod ready skipped (StatusCode.unknown code) e w = (
    broken ready skipped (
        other_error
          ("the status return code of the position is incorrect: " <> c.show_number code)),
    w,
  )

  abbrev pub on_found :
      (List Pod → List Pod → World → Round × World)
      → ObjectKey
      → List Pod
      → List Pod
      → Result Pod × World
      → Round × World
  on_found continue key ready skipped (err e, w) = (broken ready skipped e, w)
  on_found continue key ready skipped (ok pod, w) =
      let (status, e) = m.verify_support_pod_status w pod in
      on_status continue key pod ready skipped status e (tick w)

  -- One call of the condition: the loop over the keys.
  unfoldable pub poll_round : List ObjectKey → List Pod → List Pod → World → Round × World
  poll_round [] ready skipped w = (complete ready skipped, w)
  poll_round (key ∷ keys) ready skipped w =
      on_found (poll_round keys) key ready skipped (find_pod key w)

  -- The end of a round; `continue` is the rest of the poll.
  abbrev pub on_round : (World → Waited × World) → Round × World → Waited × World
  on_round continue (complete ready skipped, w) =
      (record { ready = ready; skipped = skipped; error = none }, w)
  on_round continue (broken ready skipped e, w) =
      (record { ready = ready; skipped = skipped; error = some e }, w)
  on_round continue (waiting, w) = continue w

  -- The poll. The lists are empty at the start of each round, since only `waiting` goes on.
  unfoldable pub poll : ℕ → List ObjectKey → World → Waited × World
  poll zero keys w = (record { ready = []; skipped = []; error = some (c.context_error w) }, tick w)
  poll (suc rounds) keys w = on_round (poll rounds keys) (poll_round keys [] [] (tick w))

  -- `WaitSupportPodsReady`
  unfoldable pub wait_support_pods_ready : List ObjectKey → World → Waited × World
  wait_support_pods_ready keys w = poll (c.poll_rounds w) keys w
