-- ===== src/Server/Wait/Partition.antt =====
-- A wait that ends without an error has sorted all the pods.
use mathlib.Core.Option.{some-ne-none}
use device_mounter.Base.{
  ℕ, zero, suc, none, List, [], ◌∷◌, ◌++◌, ◌≡◌, refl, ◌∙◌, append-nil, append_assoc, sym, Option,
}
use device_mounter.Api.{GoError, Result, ok, err, StatusCode, ObjectKey, Pod}
use device_mounter.Server.World.{World, tick}
use device_mounter.Server.Cluster.{Cluster, DeviceMounter}
use device_mounter.Server.Wait.{
  Round, complete, waiting, broken, Waited, find_pod, on_status, on_found, on_round, poll_round,
  poll, wait_support_pods_ready,
}

module _ (c : Cluster) (m : DeviceMounter) where
  -- The pod that is found under the key at that time, and how the plugin judges it right then.
  pub record IsJudged (w : World) (key : ObjectKey) (status : StatusCode) (pod : Pod) : Type 0 where
    pub found : (find_pod c m key w).0 ≡ ok pod
    pub judged : (m.verify_support_pod_status (find_pod c m key w).1 pod).0 ≡ status

  -- The time behind the find and the judgement of one key.
  abbrev pub after_key : ObjectKey → World → World
  after_key key w = tick (find_pod c m key w).1

  -- A round that starts at a time: each key, one after the other, gives one pod to one of two lists,
  -- in their order.
  pub data Sorting : World → List ObjectKey → List Pod → List Pod → Type 0 where
    no_keys : (w : World) → Sorting w [] [] []
    one_ready :
        (w : World) (key : ObjectKey) (keys : List ObjectKey) (pod : Pod) (ready skipped : List Pod)
        → IsJudged w key StatusCode.success pod
        → Sorting (after_key key w) keys ready skipped
        → Sorting w (key ∷ keys) (pod ∷ ready) skipped
    one_skipped :
        (w : World) (key : ObjectKey) (keys : List ObjectKey) (pod : Pod) (ready skipped : List Pod)
        → IsJudged w key StatusCode.skip pod
        → Sorting (after_key key w) keys ready skipped
        → Sorting w (key ∷ keys) ready (pod ∷ skipped)

  -- What a complete round has added to the two lists that it started with.
  abbrev IsSorted : World → List ObjectKey → List Pod → List Pod → Round → Type 0
  IsSorted w keys ready skipped (complete ready' skipped') =
      (more_ready : List Pod) × (more_skipped : List Pod) × (ready' ≡ ready ++ more_ready)
      × (skipped' ≡ skipped ++ more_skipped)
      × Sorting w keys more_ready more_skipped
  IsSorted w keys ready skipped waiting = Unit
  IsSorted w keys ready skipped (broken ready' skipped' e) = Unit

  -- One more ready pod, or one more that is skipped, in front of the rest of the round.
  ready-IsSorted :
      (w : World) (key : ObjectKey) (keys : List ObjectKey) (pod : Pod) (ready skipped : List Pod)
      (r : Round)
      → IsJudged w key StatusCode.success pod
      → IsSorted (after_key key w) keys (ready ++ pod ∷ []) skipped r
      → IsSorted w (key ∷ keys) ready skipped r
  ready-IsSorted w key keys pod ready skipped (complete ready' skipped') j
        (more_ready, more_skipped, e, e', sorting) =
      (
        pod ∷ more_ready,
        more_skipped,
        e ∙ append_assoc ready (pod ∷ []) more_ready,
        e',
        one_ready w key keys pod more_ready more_skipped j sorting,
      )
  ready-IsSorted w key keys pod ready skipped waiting j h = tt
  ready-IsSorted w key keys pod ready skipped (broken ready' skipped' e) j h = tt

  skipped-IsSorted :
      (w : World) (key : ObjectKey) (keys : List ObjectKey) (pod : Pod) (ready skipped : List Pod)
      (r : Round)
      → IsJudged w key StatusCode.skip pod
      → IsSorted (after_key key w) keys ready (skipped ++ pod ∷ []) r
      → IsSorted w (key ∷ keys) ready skipped r
  skipped-IsSorted w key keys pod ready skipped (complete ready' skipped') j
        (more_ready, more_skipped, e, e', sorting) =
      (
        more_ready,
        pod ∷ more_skipped,
        e,
        e' ∙ append_assoc skipped (pod ∷ []) more_skipped,
        one_skipped w key keys pod more_ready more_skipped j sorting,
      )
  skipped-IsSorted w key keys pod ready skipped waiting j h = tt
  skipped-IsSorted w key keys pod ready skipped (broken ready' skipped' e) j h = tt

  -- What the loop over the keys promises of the lists that it is given.
  abbrev Sorts : List ObjectKey → (List Pod → List Pod → World → Round × World) → Type 0
  Sorts keys loop =
      (ready skipped : List Pod) (w : World)
      → IsSorted w keys ready skipped (loop ready skipped w).0

  on_status-IsSorted :
      (keys : List ObjectKey) (loop : List Pod → List Pod → World → Round × World)
      → Sorts keys loop
      → (key : ObjectKey) (pod : Pod) (ready skipped : List Pod) (status : StatusCode)
        (e : Option GoError) (w : World)
      → IsJudged w key status pod
      → IsSorted w
          (key ∷ keys)
          ready
          skipped
          (on_status c m loop key pod ready skipped status e (after_key key w)).0
  on_status-IsSorted keys loop h key pod ready skipped StatusCode.success e w j =
      ready-IsSorted w key keys pod ready skipped _ j
        (h (ready ++ pod ∷ []) skipped (after_key key w))
  on_status-IsSorted keys loop h key pod ready skipped StatusCode.skip e w j =
      skipped-IsSorted w key keys pod ready skipped _ j
        (h ready (skipped ++ pod ∷ []) (after_key key w))
  on_status-IsSorted keys loop h key pod ready skipped StatusCode.wait e w j = tt
  on_status-IsSorted keys loop h key pod ready skipped StatusCode.unschedulable e w j = tt
  on_status-IsSorted keys loop h key pod ready skipped StatusCode.fail e w j = tt
  on_status-IsSorted keys loop h key pod ready skipped (StatusCode.unknown k) e w j = tt

  on_found-IsSorted :
      (keys : List ObjectKey) (loop : List Pod → List Pod → World → Round × World)
      → Sorts keys loop
      → (key : ObjectKey) (ready skipped : List Pod) (w : World) (r : Result Pod)
      → (find_pod c m key w).0 ≡ r
      → IsSorted w
          (key ∷ keys)
          ready
          skipped
          (on_found c m loop key ready skipped (r, (find_pod c m key w).1)).0
  on_found-IsSorted keys loop h key ready skipped w (err e) at = tt
  on_found-IsSorted keys loop h key ready skipped w (ok pod) at =
      on_status-IsSorted keys loop h key pod ready skipped _ _ w
        (record { found = at; judged = refl })

  poll_round-IsSorted : (keys : List ObjectKey) → Sorts keys (poll_round c m keys)
  unfolding poll_round
  poll_round-IsSorted [] ready skipped w =
      ([], [], sym (append-nil ready), sym (append-nil skipped), no_keys w)
  poll_round-IsSorted (key ∷ keys) ready skipped w =
      on_found-IsSorted keys (poll_round c m keys) (poll_round-IsSorted keys) key ready skipped w
        (find_pod c m key w).0 refl

  -- The judgement on a finished wait: its last round has sorted the keys.
  abbrev pub HasSorted : List ObjectKey → Waited → Type 0
  HasSorted keys waited =
      waited.error ≡ none → (start : World) × Sorting start keys waited.ready waited.skipped

  on_round-HasSorted :
      (keys : List ObjectKey) (continue : World → Waited × World) (start : World)
      (r : Round × World)
      → ((w : World) → HasSorted keys (continue w).0)
      → IsSorted start keys [] [] r.0
      → HasSorted keys (on_round c m continue r).0
  on_round-HasSorted keys continue start (complete ready skipped, w) h
        (more_ready, more_skipped, e, e', sorting) no_error =
      (start, rw (e, e') sorting)
  on_round-HasSorted keys continue start (broken ready skipped e, w) h sorted no_error =
      absurd (some-ne-none _ no_error)
  on_round-HasSorted keys continue start (waiting, w) h sorted no_error = h w no_error

  poll-HasSorted :
      (rounds : ℕ) (keys : List ObjectKey) (w : World) → HasSorted keys (poll c m rounds keys w).0
  unfolding poll
  poll-HasSorted zero keys w no_error = absurd (some-ne-none _ no_error)
  poll-HasSorted (suc rounds) keys w no_error =
      on_round-HasSorted keys (poll c m rounds keys) (tick w) (poll_round c m keys [] [] (tick w))
        (poll-HasSorted rounds keys) (poll_round-IsSorted keys [] [] (tick w)) no_error

  -- If the wait for the slave pods ends without an error, its last round has looked up each key in
  -- turn, and the pod found under the key stands in the list as which the plugin judged it right
  -- then: each key has exactly one pod in one of the two lists, in the order of the keys.
  pub wait-HasSorted :
      (keys : List ObjectKey) (w : World)
      → (wait_support_pods_ready c m keys w).0.error ≡ none
      → let waited = (wait_support_pods_ready c m keys w).0 in
        (start : World) × Sorting start keys waited.ready waited.skipped
  unfolding wait_support_pods_ready
  wait-HasSorted keys w = poll-HasSorted (c.poll_rounds w) keys w
