-- ===== src/Controller/Work/Balanced.antt =====
-- The queue behind processNextWorkItem (pkg/controller/pod_controller.go).
use device_mounter.Base.{
  ℕ, zero, suc, Bool, true, false, Option, none, some, ◌≡◌, refl, ◌∙◌, if◌then◌else◌,
}
use device_mounter.Base.Int.{ℤ, exceeds}
use device_mounter.Api.{GoError}
use device_mounter.Controller.{Key, Codec, MetadataCache}
use device_mounter.Controller.Repair.{returned, PodApi, handle_metadata_fix}
use device_mounter.Controller.Repair.Settled.{handle_metadata_fix-failed}
use device_mounter.Controller.Work.{
  Item, request, invalid, WorkQueue, WorkResult, crashed, finished, dispatch, on_item,
  process_next_work_item, go_on, work, fix_worker,
}

-- The items that are handed out and not given back: what the queue documents of its operations.
pub record Counts {Q : Type 0} (queue : WorkQueue Q) (in_flight : Q → ℕ) : Type 0 where
  pub next :
      (q q' : Q) (item : Item) → queue.next q ≡ some (item, q') → in_flight q' ≡ suc (in_flight q)
  pub done : (q : Q) (item : Item) (n : ℕ) → in_flight q ≡ suc n → in_flight (queue.done q item) ≡ n
  pub forget : (q : Q) (item : Item) → in_flight (queue.forget q item) ≡ in_flight q
  pub add_rate_limited :
      (q : Q) (item : Item) → in_flight (queue.add_rate_limited q item) ≡ in_flight q
  pub add_after : (q : Q) (item : Item) (t : ℤ) → in_flight (queue.add_after q item t) ≡ in_flight q

module _ {Q S : Type 0} (queue : WorkQueue Q) (worker : S → Key → WorkResult × S)
    (in_flight : Q → ℕ) (counts : Counts queue in_flight) where
  in_flight-dispatch :
      (q : Q) (key : Key) (result : WorkResult)
      → in_flight (dispatch queue worker q key result) ≡ in_flight q
  unfolding dispatch
  in_flight-dispatch q key crashed = refl
  in_flight-dispatch q key (finished requeue after (some e)) =
      counts.add_rate_limited q (request key)
  in_flight-dispatch q key (finished requeue after none) = go (exceeds after 0) requeue
    where
      go :
          (later again : Bool)
          → in_flight (
              if later
              then queue.add_after (queue.forget q (request key)) (request key) after
              else if again
              then queue.add_rate_limited q (request key)
              else queue.forget q (request key))
            ≡ in_flight q
      go true again =
          counts.add_after (queue.forget q (request key)) (request key) after
          ∙ counts.forget q (request key)
      go false true = counts.add_rate_limited q (request key)
      go false false = counts.forget q (request key)

  in_flight-on_item :
      (s : S) (q : Q) (taken : Option (Item × Q))
      → queue.next q ≡ taken
      → in_flight (on_item queue worker s taken q).1.0 ≡ in_flight q
  in_flight-on_item s q none e = refl
  in_flight-on_item s q (some (invalid, q')) e =
      counts.done (queue.forget q' invalid) invalid (in_flight q)
        (counts.forget q' invalid ∙ counts.next q q' invalid e)
  in_flight-on_item s q (some (request key, q')) e =
      counts.done (dispatch queue worker q' key (worker s key).0) (request key) (in_flight q)
        (in_flight-dispatch q' key (worker s key).0 ∙ counts.next q q' (request key) e)

  in_flight-process_next :
      (s : Q × S) → in_flight (process_next_work_item queue worker s).1.0 ≡ in_flight s.0
  unfolding process_next_work_item
  in_flight-process_next (q, s) = in_flight-on_item s q (queue.next q) refl

  in_flight-go_on :
      (continue : Q × S → Q × S)
      → ((t : Q × S) → in_flight (continue t).0 ≡ in_flight t.0)
      → (r : Bool × (Q × S)) → in_flight (go_on queue worker continue r).0 ≡ in_flight r.1.0
  in_flight-go_on continue h (false, t) = refl
  in_flight-go_on continue h (true, t) = h t

  -- After any number of items, whatever the worker function does with them (a panic included),
  -- every item that the queue has handed out is given back.
  pub in_flight-work : (n : ℕ) (s : Q × S) → in_flight (work queue worker n s).0 ≡ in_flight s.0
  unfolding work
  in_flight-work zero s = refl
  in_flight-work (suc n) s =
      in_flight-go_on (work queue worker n) (in_flight-work n)
        (process_next_work_item queue worker s)
      ∙ in_flight-process_next s

-- When an item is to be handed out again: what the queue documents.
pub record Schedules {Q : Type 0} (queue : WorkQueue Q) (IsScheduled : Q → Item → Type 0)
    : Type 0 where
  pub added : (q : Q) (item : Item) → IsScheduled (queue.add_rate_limited q item) item
  pub kept :
      (q : Q) (item other : Item) → IsScheduled q item → IsScheduled (queue.done q other) item

module _ {Q : Type 0} (queue : WorkQueue Q) (codec : Codec) (api : MetadataCache → PodApi)
    (IsScheduled : Q → Item → Type 0) (schedules : Schedules queue IsScheduled) where
  -- A repair that ends with an error is not lost: the worker goes on, the key is to be handed out
  -- again, and the cache still holds what it did.
  pub process_next-retries :
      (q q' : Q) (cache : MetadataCache) (key : Key) (e : GoError)
      → queue.next q ≡ some (request key, q')
      → (handle_metadata_fix codec (api cache) cache key).outcome ≡ returned (some e)
      → let (loop, (q'', cache')) =
          process_next_work_item queue (fix_worker codec api) (q, cache) in
        (loop ≡ true) × (IsScheduled q'' (request key) × (cache' ≡ cache))
  unfolding process_next_work_item fix_worker dispatch
  process_next-retries q q' cache key e taken failed = rw taken (
    refl,
    (
      schedules.kept _ _ _ (rw failed (schedules.added q' (request key))),
      handle_metadata_fix-failed codec (api cache) cache key e failed,
    ),
  )
