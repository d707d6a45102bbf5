-- ===== src/Controller/Work.antt =====
-- pkg/controller/pod_controller.go: processNextWorkItem and the loop of a worker. The queue is
-- client-go's rate limiting work queue, a parameter.
pub mod Balanced
use device_mounter.Base.{ℕ, zero, suc, Bool, true, false, Option, none, some, if◌then◌else◌}
use device_mounter.Base.Int.{ℤ, pos, exceeds}
use device_mounter.Api.{GoError}
use device_mounter.Controller.{Key, Codec, MetadataCache}
use device_mounter.Controller.Repair.{
  Outcome, panicked, returned, PodApi, Handling, handle_metadata_fix,
}

-- An object of the queue: a key, or something that is no request.
pub data Item : Type 0 where
  request : Key → Item
  invalid : Item

-- `workqueue.RateLimitingInterface`; none is the answer of a queue that is shut down.
pub record WorkQueue (Q : Type 0) : Type 0 where
  pub next : Q → Option (Item × Q)
  pub done : Q → Item → Q
  pub forget : Q → Item → Q
  pub add_rate_limited : Q → Item → Q
  pub add_after : Q → Item → ℤ → Q

-- How a worker function ends; `reconcile.Result` is a flag and a duration.
pub data WorkResult : Type 0 where
  crashed : WorkResult
  finished : Bool → ℤ → Option GoError → WorkResult

module _ {Q S : Type 0} (queue : WorkQueue Q) (worker : S → Key → WorkResult × S) where
  -- The switch behind the worker function, for the key and the result.
  unfoldable pub dispatch : Q → Key → WorkResult → Q
  dispatch q key crashed = q
  dispatch q key (finished requeue after (some e)) = queue.add_rate_limited q (request key)
  dispatch q key (finished requeue after none) =
      if exceeds after 0
      then queue.add_after (queue.forget q (request key)) (request key) after
      else if requeue
      then queue.add_rate_limited q (request key)
      else queue.forget q (request key)

  abbrev pub on_item : S → Option (Item × Q) → Q → Bool × (Q × S)
  on_item s none q = (false, (q, s))
  on_item s (some (invalid, q')) q = (true, (queue.done (queue.forget q' invalid) invalid, s))
  on_item s (some (request key, q')) q =
      let (result, s') = worker s key in
      (true, (queue.done (dispatch q' key result) (request key), s'))

  -- `processNextWorkItem`: whether the loop goes on, the queue, and the worker's state.
  unfoldable pub process_next_work_item : Q × S → Bool × (Q × S)
  process_next_work_item (q, s) = on_item s (queue.next q) q

  abbrev pub go_on : (Q × S → Q × S) → Bool × (Q × S) → Q × S
  go_on continue (false, s) = s
  go_on continue (true, s) = continue s

  -- The loop of a worker in `Start`, as far as `n` items.
  unfoldable pub work : ℕ → Q × S → Q × S
  work zero s = s
  work (suc n) s = go_on (work n) (process_next_work_item s)

-- The worker function of the repairs: its result is always the zero result.
abbrev pub as_result : Outcome → WorkResult
as_result panicked = crashed
as_result (returned e) = finished false (pos 0) e

unfoldable pub fix_worker :
    Codec → (MetadataCache → PodApi) → MetadataCache → Key → WorkResult × MetadataCache
fix_worker codec api cache key =
    let run = handle_metadata_fix codec (api cache) cache key in (as_result run.outcome, run.cache)

-- `handlePodAdd` does nothing.
abbrev pub handle_pod_add : {S : Type 0} → S → Key → WorkResult × S
handle_pod_add s key = (finished false (pos 0) none, s)
