-- ===== src/Server/Unmount/Kills.antt =====
-- `UnMountDevice` (pkg/server/mounter/server.go) kills processes only on a forced request.
use device_mounter.Base.{
  ℕ, String, Bool, true, false, Option, none, some, List, [], ◌∷◌, map, ◌≡◌, refl, ◌∙◌, ap, arith,
}
use mathlib.Core.Path.{subst}
use device_mounter.Api.{GoError, Result, ok, err, DeviceInfo, ObjectKey}
use device_mounter.Ebpf.{Rule}
use device_mounter.Server.World.{
  Event, pod_created, pdb_created, pod_deleted, rules_set, rules_restored, fd_opened, fd_closed,
  file_made, file_removed, processes_killed, post_mount, post_unmount, event_recorded, World, Exec,
  and_then, log, lift, pure, ◌>>=◌,
}
use device_mounter.Server.Cluster.{Cluster, RuleOutcome}
use device_mounter.Server.Requests.{UnMountDeviceRequest, check_unmount_device_request}
use device_mounter.Server.Pods.{garbage_collection_pods}
use device_mounter.Server.Rules.{
  device_rule_set, delete_device_files, undelete_device_files, kill_running_processes, Undo,
}
use device_mounter.Server.Mount.{undo_rules, close_files}
use device_mounter.Server.Unmount.{
  Detected, detect_unmount, unless_busy, after_unmount_rules, after_post_unmount,
  undo_unmount_files, settle_unmount, run_unmount, unmount_device, unmounted_text, unmount_rules,
}
use device_mounter.Server.Unmount.Atomic.{detect_unmount-IsQuiet}

-- The processes killed in a trace, the newest first.
abbrev pub killed : List Event → List (ℕ × List ℕ)
killed [] = []
killed (processes_killed pid pids ∷ trace) = (pid, pids) ∷ killed trace
killed (pod_created key ∷ trace) = killed trace
killed (pdb_created key ∷ trace) = killed trace
killed (pod_deleted key ∷ trace) = killed trace
killed (rules_set path rules restores ∷ trace) = killed trace
killed (rules_restored path ∷ trace) = killed trace
killed (fd_opened path ∷ trace) = killed trace
killed (fd_closed path ∷ trace) = killed trace
killed (file_made pid path ∷ trace) = killed trace
killed (file_removed pid path ∷ trace) = killed trace
killed (post_mount ∷ trace) = killed trace
killed (post_unmount ∷ trace) = killed trace
killed (event_recorded text ∷ trace) = killed trace

delete_device_files-killed :
    (pid : ℕ) (infos : List DeviceInfo) (w : World)
    → killed (delete_device_files pid infos w).trace ≡ killed w.trace
unfolding delete_device_files
delete_device_files-killed pid [] w = refl
delete_device_files-killed pid (info ∷ infos) w =
    delete_device_files-killed pid infos _ ∙ ground arith

undelete_device_files-killed :
    (pid : ℕ) (infos : List DeviceInfo) (w : World)
    → killed (undelete_device_files pid infos w).trace ≡ killed w.trace
unfolding undelete_device_files
undelete_device_files-killed pid [] w = refl
undelete_device_files-killed pid (info ∷ infos) w = undelete_device_files-killed pid infos _

module _ (c : Cluster) where
  garbage_collection_pods-killed :
      (keys : List ObjectKey) (w : World)
      → killed (garbage_collection_pods c keys w).1.trace ≡ killed w.trace
  unfolding garbage_collection_pods
  garbage_collection_pods-killed [] w = refl
  garbage_collection_pods-killed (key ∷ keys) w = garbage_collection_pods-killed keys _

  device_rule_set-killed :
      (path : String) (rules : List Rule) (w : World)
      → killed (device_rule_set c path rules w).1.trace ≡ killed w.trace
  unfolding device_rule_set
  device_rule_set-killed path [] w = refl
  device_rule_set-killed path (r ∷ rules) w = ground arith

  undo_unmount_files-killed :
      (files : Option (ℕ × List DeviceInfo)) (rules : Option (String × RuleOutcome)) (w : World)
      → killed (undo_unmount_files c (record { files = files; rules = rules }) w).trace
        ≡ killed w.trace
  undo_unmount_files-killed none rules w = refl
  undo_unmount_files-killed (some (pid, infos)) rules w = undelete_device_files-killed pid infos w

  undo_rules-killed :
      (files : Option (ℕ × List DeviceInfo)) (rules : Option (String × RuleOutcome)) (w : World)
      → killed (undo_rules c (record { files = files; rules = rules }) w).trace ≡ killed w.trace
  undo_rules-killed files none w = refl
  undo_rules-killed files (some (path, outcome)) w = ground arith

  close_files-killed :
      (files : Option (ℕ × List DeviceInfo)) (rules : Option (String × RuleOutcome)) (w : World)
      → killed (close_files c (record { files = files; rules = rules }) w).trace ≡ killed w.trace
  close_files-killed files none w = refl
  close_files-killed files (some (path, outcome)) w = ground arith

  settle_unmount-killed :
      (text : String) (e : Option GoError) (undo : Undo) (w : World)
      → killed (settle_unmount c text e undo w).1.trace ≡ killed w.trace
  settle_unmount-killed text none undo w = close_files-killed undo.files undo.rules w
  settle_unmount-killed text (some e) undo w =
      close_files-killed undo.files undo.rules _
      ∙ undo_rules-killed undo.files undo.rules _
      ∙ undo_unmount_files-killed undo.files undo.rules w

  after_post_unmount-killed :
      (d : Detected) (undo : Undo) (e : Option GoError) (w : World)
      → killed (after_post_unmount c d undo e w).world.trace ≡ killed w.trace
  after_post_unmount-killed d undo none w = garbage_collection_pods-killed _ w
  after_post_unmount-killed d undo (some e) w = refl

  after_unmount_rules-killed :
      (d : Detected) (outcome : RuleOutcome) (e : Option GoError) (w : World)
      → killed (after_unmount_rules c d outcome e w).world.trace ≡ killed w.trace
  after_unmount_rules-killed d outcome (some e) w = refl
  after_unmount_rules-killed d outcome none w =
      let w' : World = delete_device_files d.pid d.infos w in
      let undo : Undo = record { files = some (d.pid, d.infos); rules = some (d.path, outcome) } in
      after_post_unmount-killed d undo
        (d.mounter.execute_post_unmount_actions w' d.pid d.pod d.container d.slaves)
        (log post_unmount w')
      ∙ delete_device_files-killed d.pid d.infos w

  run_unmount-killed :
      (d : Detected) (w : World)
      → d.processes ≡ []
      → killed (run_unmount c d w).1.trace ≡ killed w.trace
  unfolding run_unmount
  run_unmount-killed d w idle =
      let w₁ : World = kill_running_processes d.pid d.processes w in
      let rules : List Rule = map (λ info. info.rule) d.infos in
      let outcome : RuleOutcome = (device_rule_set c d.path rules w₁).0 in
      settle_unmount-killed (unmounted_text d) (unmount_rules c d w).error
        (unmount_rules c d w).undo (unmount_rules c d w).world
      ∙ after_unmount_rules-killed d outcome outcome.error (device_rule_set c d.path rules w₁).1
      ∙ device_rule_set-killed d.path rules w₁
      ∙ ap (λ processes. killed (kill_running_processes d.pid processes w).trace) idle

-- The action returns nothing but what satisfies the predicate.
record IsReturning {A : Type 0} (P : A → Type 0) (m : Exec A) : Type 0 where
  at : (w : World) (a : A) → (m w).0 ≡ ok a → P a

IsReturning-any : {A : Type 0} (m : Exec A) → IsReturning (λ a. Unit {0}) m
IsReturning-any m = record { at = λ w a e. tt }

and_then-returns :
    {A B : Type 0} (P : B → Type 0) (Q : A → Type 0) (f : A → Exec B) (r : Result A × World) (b : B)
    → ((a : A) → r.0 ≡ ok a → Q a)
    → ((a : A) → Q a → IsReturning P (f a))
    → (and_then f r).0 ≡ ok b
    → P b
and_then-returns P Q f (ok a, w) b hq hf e = (hf a (hq a refl)).at w b e
and_then-returns P Q f (err x, w) b hq hf e = absurd (ground arith)

IsReturning-bind :
    {A B : Type 0} (P : B → Type 0) (Q : A → Type 0) (m : Exec A) (f : A → Exec B)
    → IsReturning Q m
    → ((a : A) → Q a → IsReturning P (f a))
    → IsReturning P (m >>= f)
unfolding ◌>>=◌
IsReturning-bind P Q m f hm hf = record {
  at = λ w b e. and_then-returns P Q f (m w) b (hm.at w) hf e;
}

-- A bind of which nothing is known but how it goes on.
IsReturning-on :
    {A B : Type 0} (P : B → Type 0) (m : Exec A) (f : A → Exec B)
    → ((a : A) → IsReturning P (f a))
    → IsReturning P (m >>= f)
IsReturning-on P m f hf = IsReturning-bind P (λ a. Unit {0}) m f (IsReturning-any m) (λ a t. hf a)

lift-IsReturning :
    {A : Type 0} (P : A → Type 0) (r : Result A)
    → ((a : A) → r ≡ ok a → P a)
    → IsReturning P (lift r)
unfolding lift
lift-IsReturning P r h = record { at = λ w a e. h a e }

checked_force :
    (req checked : UnMountDeviceRequest)
    → check_unmount_device_request req ≡ ok checked
    → checked.force ≡ req.force
unfolding check_unmount_device_request
checked_force req checked e = ground arith

unless_busy-idle :
    (force : Bool) (active processes : List ℕ)
    → force ≡ false
    → unless_busy force active ≡ ok processes
    → processes ≡ []
unless_busy-idle force [] processes h e = ground arith
unless_busy-idle true (p ∷ active) processes h e = ground arith
unless_busy-idle false (p ∷ active) processes h e = ground arith

ok_injective : {A : Type 0} {a b : A} → ok a ≡ ok b → a ≡ b
ok_injective e = cc

pure-IsReturning : {A : Type 0} (P : A → Type 0) (a : A) → P a → IsReturning P (pure a)
unfolding pure
pure-IsReturning P a h = record { at = λ w b e. subst P (ok_injective e) h }

module _ (c : Cluster) where
  abbrev IsIdle : Detected → Type 0
  IsIdle d = d.processes ≡ []

  detect_unmount-IsIdle :
      (req : UnMountDeviceRequest) → req.force ≡ false → IsReturning IsIdle (detect_unmount c req)
  unfolding detect_unmount
  detect_unmount-IsIdle request unforced =
      IsReturning-bind IsIdle (λ checked. checked.force ≡ false) _ _
        (lift-IsReturning _ _ (λ checked e. checked_force request checked e ∙ unforced))
        λ req force. IsReturning-on IsIdle _ _ λ pod. IsReturning-on IsIdle _ _ λ container.
          IsReturning-on IsIdle _ _ λ ready. IsReturning-on IsIdle _ _ λ m.
            IsReturning-on IsIdle _ _ λ found. IsReturning-on IsIdle _ _ λ slaves.
              IsReturning-on IsIdle _ _ λ infos. IsReturning-on IsIdle _ _ λ group.
                IsReturning-on IsIdle _ _ λ active.
                  IsReturning-bind IsIdle (λ processes. processes ≡ []) _ _
                    (lift-IsReturning _ _
                      (λ processes e. unless_busy-idle req.force active processes force e))
                    λ processes idle. pure-IsReturning IsIdle _ idle

  detected-killed :
      (r : Result Detected × World) (trace : List Event)
      → ((d : Detected) → r.0 ≡ ok d → IsIdle d)
      → r.1.trace ≡ trace
      → killed (and_then (run_unmount c) r).1.trace ≡ killed trace
  detected-killed (ok d, w) trace idle same =
      run_unmount-killed c d w (idle d refl) ∙ ap killed same
  detected-killed (err e, w) trace idle same = ap killed same

  -- An unmount that is not forced kills no process, whether it succeeds or fails.
  pub unmount_device-killed :
      (req : UnMountDeviceRequest) (w : World)
      → req.force ≡ false
      → killed (unmount_device c req w).1.trace ≡ killed w.trace
  unfolding unmount_device ◌>>=◌
  unmount_device-killed req w unforced =
      detected-killed (detect_unmount c req w) w.trace ((detect_unmount-IsIdle req unforced).at w)
        ((detect_unmount-IsQuiet c req).at w)
