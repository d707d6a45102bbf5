-- ===== src/Server/Traces/Quiet.antt =====
-- The helpers of the handlers that only ask leave the trace as it is.
use device_mounter.Base.{
  ℕ, zero, suc, String, Option, List, [], ◌∷◌, ◌≡◌, refl, ◌∙◌, arith, Bool, true, false,
  if◌then◌else◌,
}
use device_mounter.Api.{GoError, Result, ok, err, StatusCode, Container, ObjectKey, Pod}
use device_mounter.Server.World.{World, Exec, tick, ask, lift, pure, raise, and_then, ◌>>=◌}
use device_mounter.Server.Cluster.{Cluster, DeviceMounter}
use device_mounter.Server.Pods.{answer_not_found, get_target_pod, get_slave_pods, complete_pods}
use device_mounter.Server.Rules.{container_pids, first_pid}
use device_mounter.Server.Wait.{
  Round, complete, waiting, broken, Waited, find_pod, on_status, on_found, on_round, poll_round,
  poll, wait_support_pods_ready,
}

-- The action adds nothing to the trace, whatever it returns.
pub record IsQuiet {A : Type 0} (m : Exec A) : Type 0 where
  pub at : (w : World) → (m w).1.trace ≡ w.trace

pub IsQuiet-ask : {A : Type 0} (f : World → Result A) → IsQuiet (ask f)
unfolding ask
IsQuiet-ask f = record { at = λ w. refl }

pub IsQuiet-lift : {A : Type 0} (r : Result A) → IsQuiet (lift r)
unfolding lift
IsQuiet-lift r = record { at = λ w. refl }

pub IsQuiet-pure : {A : Type 0} (a : A) → IsQuiet (pure a)
unfolding pure
IsQuiet-pure a = record { at = λ w. refl }

pub IsQuiet-raise : {A : Type 0} (e : GoError) → IsQuiet (raise {A = A} e)
unfolding raise
IsQuiet-raise e = record { at = λ w. refl }

pub IsQuiet-if :
    {A : Type 0} (b : Bool) (m n : Exec A) → IsQuiet m → IsQuiet n → IsQuiet (if b then m else n)
IsQuiet-if true m n hm hn = hm
IsQuiet-if false m n hm hn = hn

and_then-trace :
    {A B : Type 0} (f : A → Exec B) (r : Result A × World)
    → ((a : A) → IsQuiet (f a))
    → (and_then f r).1.trace ≡ r.1.trace
and_then-trace f (ok a, w) h = (h a).at w
and_then-trace f (err e, w) h = refl

pub IsQuiet-bind :
    {A B : Type 0} (m : Exec A) (f : A → Exec B)
    → IsQuiet m
    → ((a : A) → IsQuiet (f a))
    → IsQuiet (m >>= f)
unfolding ◌>>=◌
IsQuiet-bind m f hm hf = record { at = λ w. and_then-trace f (m w) hf ∙ hm.at w }

pub IsQuiet-answer : {A : Type 0} (m : Exec A) → IsQuiet m → IsQuiet (answer_not_found m)
IsQuiet-answer m h = record { at = λ w. h.at w }

pub ruleset quiet_rules = (
  IsQuiet-ask, IsQuiet-lift, IsQuiet-pure, IsQuiet-raise, IsQuiet-if, IsQuiet-bind, IsQuiet-answer,
)

module _ (c : Cluster) where
  pub get_target_pod-IsQuiet : (name namespace : String) → IsQuiet (get_target_pod c name namespace)
  unfolding get_target_pod
  get_target_pod-IsQuiet name namespace = search quiet_rules

  pub get_slave_pods-IsQuiet :
      (t : String) (pod : Pod) (container : Container) → IsQuiet (get_slave_pods c t pod container)
  unfolding get_slave_pods
  get_slave_pods-IsQuiet t pod container = search quiet_rules

  pub complete_pods-IsQuiet :
      (t : String) (container : Container) (pod : Pod) (patches : List String) (pods : List Pod)
      → IsQuiet (complete_pods c t container pod patches pods)
  unfolding complete_pods
  complete_pods-IsQuiet t container pod patches [] = search quiet_rules
  complete_pods-IsQuiet t container pod patches (p ∷ pods) =
      IsQuiet-bind _ _ (IsQuiet-lift _) λ patched. IsQuiet-bind _ _ (IsQuiet-ask _) λ uuid.
        IsQuiet-bind _ _ (complete_pods-IsQuiet t container pod patches pods) λ rest. IsQuiet-pure _

  first_pid-IsQuiet : (path : String) (pids : List ℕ) → IsQuiet (first_pid path pids)
  first_pid-IsQuiet path [] = search quiet_rules
  first_pid-IsQuiet path (p ∷ pids) = search quiet_rules

  pub container_pids-IsQuiet :
      (pod : Pod) (container : Container) → IsQuiet (container_pids c pod container)
  unfolding container_pids
  container_pids-IsQuiet pod container = search (quiet_rules, first_pid-IsQuiet)

  find_pod-trace :
      (m : DeviceMounter) (key : ObjectKey) (w : World) → (find_pod c m key w).1.trace ≡ w.trace
  unfolding find_pod
  find_pod-trace m key w = ground arith

module _ (c : Cluster) (m : DeviceMounter) where
  abbrev IsQuietLoop : (List Pod → List Pod → World → Round × World) → Type 0
  IsQuietLoop loop =
      (ready skipped : List Pod) (w : World) → (loop ready skipped w).1.trace ≡ w.trace

  on_status-trace :
      (loop : List Pod → List Pod → World → Round × World)
      → IsQuietLoop loop
      → (key : ObjectKey) (pod : Pod) (ready skipped : List Pod) (status : StatusCode)
        (e : Option GoError) (w : World)
      → (on_status c m loop key pod ready skipped status e w).1.trace ≡ w.trace
  on_status-trace loop h key pod ready skipped StatusCode.success e w = h _ _ w
  on_status-trace loop h key pod ready skipped StatusCode.skip e w = h _ _ w
  on_status-trace loop h key pod ready skipped StatusCode.wait e w = refl
  on_status-trace loop h key pod ready skipped StatusCode.unschedulable e w = refl
  on_status-trace loop h key pod ready skipped StatusCode.fail e w = refl
  on_status-trace loop h key pod ready skipped (StatusCode.unknown k) e w = refl

  on_found-trace :
      (loop : List Pod → List Pod → World → Round × World)
      → IsQuietLoop loop
      → (key : ObjectKey) (ready skipped : List Pod) (found : Result Pod × World)
      → (on_found c m loop key ready skipped found).1.trace ≡ found.1.trace
  on_found-trace loop h key ready skipped (err e, w) = refl
  on_found-trace loop h key ready skipped (ok pod, w) =
      on_status-trace loop h key pod ready skipped _ _ (tick w)

  poll_round-trace : (keys : List ObjectKey) → IsQuietLoop (poll_round c m keys)
  unfolding poll_round
  poll_round-trace [] ready skipped w = refl
  poll_round-trace (key ∷ keys) ready skipped w =
      on_found-trace (poll_round c m keys) (poll_round-trace keys) key ready skipped
        (find_pod c m key w)
      ∙ find_pod-trace c m key w

  on_round-trace :
      (continue : World → Waited × World) (r : Round × World)
      → ((w : World) → (continue w).1.trace ≡ w.trace)
      → (on_round c m continue r).1.trace ≡ r.1.trace
  on_round-trace continue (complete ready skipped, w) h = refl
  on_round-trace continue (broken ready skipped e, w) h = refl
  on_round-trace continue (waiting, w) h = h w

  poll-trace :
      (rounds : ℕ) (keys : List ObjectKey) (w : World) → (poll c m rounds keys w).1.trace ≡ w.trace
  unfolding poll
  poll-trace zero keys w = refl
  poll-trace (suc rounds) keys w =
      on_round-trace (poll c m rounds keys) (poll_round c m keys [] [] (tick w))
        (poll-trace rounds keys)
      ∙ poll_round-trace keys [] [] (tick w)

  pub wait-trace :
      (keys : List ObjectKey) (w : World) → (wait_support_pods_ready c m keys w).1.trace ≡ w.trace
  unfolding wait_support_pods_ready
  wait-trace keys w = poll-trace (c.poll_rounds w) keys w
