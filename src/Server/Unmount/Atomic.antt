-- ===== src/Server/Unmount/Atomic.antt =====
-- `UnMountDevice` (pkg/server/mounter/server.go) as a transaction, read off the ledger of the trace.
use device_mounter.Base.{
  ℕ, String, ◌<>◌, true, false, Option, none, some, List, [], ◌∷◌, map, ◌≡◌, refl, ◌∙◌, ap, sym,
  arith, keep, if◌then◌else◌,
}
use mathlib.Core.Path.{subst}
use device_mounter.Api.{
  GoError, other_error, message, ResultCode, Result, ok, err, DeviceInfo, ObjectKey,
}
use device_mounter.Server.World.{World, and_then, log, post_unmount, file_removed, ◌>>=◌}
use device_mounter.Server.Cluster.{Cluster, RuleOutcome}
use device_mounter.Server.Requests.{UnMountDeviceRequest}
use device_mounter.Server.Rules.{
  device_rule_set, delete_device_files, undelete_device_files, kill_running_processes, Undo, wrap,
}
use device_mounter.Server.Mount.{DeviceResponse, respond, undo_rules}
use device_mounter.Server.Mount.Trace.{owe_rules}
use device_mounter.Server.Mount.Atomic.{
  push_if-onto, one_if, restore_owed, close_owed, deletes, undo_rules-ledger, close_files-ledger,
}
use device_mounter.Server.Unmount.{
  Detected, detect_unmount, after_unmount_rules, after_post_unmount, undo_unmount_files,
  settle_unmount, run_unmount, unmount_device, unmounted_text,
}
use device_mounter.Server.Traces.{
  Ledger, ledger, onto, file_names, garbage_collection_pods-ledger, device_rule_set-ledger,
}
use device_mounter.Server.Traces.Quiet.{
  IsQuiet, IsQuiet-ask, IsQuiet-lift, IsQuiet-pure, IsQuiet-bind, IsQuiet-answer,
  get_target_pod-IsQuiet, get_slave_pods-IsQuiet, container_pids-IsQuiet,
}

-- The devices whose files an unmount removes.
abbrev pub forbidden : List DeviceInfo → List DeviceInfo
forbidden = keep (λ info. if info.rule.allow then false else true)

-- Between two ledgers no pod is made or deleted, every file removed is made again, the rules are
-- restored wherever they can be, and every descriptor is closed.
pub record Reinstated (before after : Ledger) : Type 0 where
  pub pid : ℕ
  pub devices : List DeviceInfo
  pub rules : List String
  pub descriptors : List String
  pub same : after ≡ record {
    created = before.created;
    deleted = before.deleted;
    made = onto (file_names pid devices) before.made;
    removed = onto (file_names pid (forbidden devices)) before.removed;
    restorable = onto rules before.restorable;
    restored = onto rules before.restored;
    opened = onto descriptors before.opened;
    closed = onto descriptors before.closed;
  }

-- Between two ledgers the given pods are deleted and the files of the forbidden ones of the given
-- devices removed; nothing is made or restored, and every descriptor is closed.
pub record Removed (pods : List ObjectKey) (pid : ℕ) (devices : List DeviceInfo)
    (before after : Ledger) : Type 0 where
  pub rules : List String
  pub descriptors : List String
  pub same : after ≡ record {
    created = before.created;
    deleted = onto pods before.deleted;
    made = before.made;
    removed = onto (file_names pid (forbidden devices)) before.removed;
    restorable = onto rules before.restorable;
    restored = before.restored;
    opened = onto descriptors before.opened;
    closed = onto descriptors before.closed;
  }

delete_device_files-ledger :
    (pid : ℕ) (infos : List DeviceInfo) (w : World)
    → let l = ledger w.trace in
      ledger (delete_device_files pid infos w).trace
      ≡ record l { removed = onto (file_names pid (forbidden infos)) l.removed }
unfolding delete_device_files
delete_device_files-ledger pid [] w = refl
delete_device_files-ledger pid (info ∷ infos) w = ground (
  arith,
  delete_device_files-ledger pid infos w,
  delete_device_files-ledger pid infos (log (file_removed pid info.device_file_path) w),
)

undelete_device_files-ledger :
    (pid : ℕ) (infos : List DeviceInfo) (w : World)
    → let l = ledger w.trace in
      ledger (undelete_device_files pid infos w).trace
      ≡ record l { made = onto (file_names pid infos) l.made }
unfolding undelete_device_files
undelete_device_files-ledger pid [] w = refl
undelete_device_files-ledger pid (info ∷ infos) w = undelete_device_files-ledger pid infos _

kill_running_processes-ledger :
    (pid : ℕ) (processes : List ℕ) (w : World)
    → ledger (kill_running_processes pid processes w).trace ≡ ledger w.trace
kill_running_processes-ledger pid [] w = refl
kill_running_processes-ledger pid (p ∷ processes) w = refl

abbrev remake_owed : Option (ℕ × List DeviceInfo) → Ledger → Ledger
remake_owed none l = l
remake_owed (some (pid, infos)) l = record l { made = onto (file_names pid infos) l.made }

abbrev removes : ℕ → List DeviceInfo → Ledger → Ledger
removes pid infos l = record l { removed = onto (file_names pid (forbidden infos)) l.removed }

abbrev drop_files : Option (ℕ × List DeviceInfo) → Ledger → Ledger
drop_files none l = l
drop_files (some (pid, infos)) l = removes pid infos l

-- The ledgers behind the deferred function.
reinstated :
    (files : Option (ℕ × List DeviceInfo)) (path : String) (outcome : RuleOutcome) (l : Ledger)
    → Reinstated l (
        close_owed (some (path, outcome)) (
          restore_owed
            (some (path, outcome))
            (remake_owed files (drop_files files (owe_rules (some (path, outcome)) l)))))
reinstated none path outcome l = record {
  pid = 0;
  devices = [];
  rules = one_if outcome.restores path;
  descriptors = one_if outcome.closes path;
  same =
      push_if-onto
        (λ xs ys zs us. record l { restorable = xs; restored = ys; opened = zs; closed = us })
        outcome.restores outcome.closes path l.restorable l.restored l.opened l.closed;
}
reinstated (some (pid, infos)) path outcome l = record {
  pid = pid;
  devices = infos;
  rules = one_if outcome.restores path;
  descriptors = one_if outcome.closes path;
  same =
      push_if-onto
        (λ xs ys zs us. record (remake_owed (some (pid, infos)) (removes pid infos l)) {
          restorable = xs;
          restored = ys;
          opened = zs;
          closed = us;
        })
        outcome.restores outcome.closes path l.restorable l.restored l.opened l.closed;
}

removed :
    (pods : List ObjectKey) (pid : ℕ) (infos : List DeviceInfo) (path : String)
    (outcome : RuleOutcome) (l : Ledger)
    → Removed pods pid infos l (
        close_owed
          (some (path, outcome))
          (deletes pods (removes pid infos (owe_rules (some (path, outcome)) l))))
removed pods pid infos path outcome l = record {
  rules = one_if outcome.restores path;
  descriptors = one_if outcome.closes path;
  same =
      push_if-onto
        (λ xs ys zs us. record (deletes pods (removes pid infos l)) {
          restorable = xs;
          opened = zs;
          closed = us;
        })
        outcome.restores outcome.closes path l.restorable l.restored l.opened l.closed;
}

module _ (c : Cluster) where
  undo_unmount_files-ledger :
      (files : Option (ℕ × List DeviceInfo)) (rules : Option (String × RuleOutcome)) (w : World)
      → ledger (undo_unmount_files c (record { files = files; rules = rules }) w).trace
        ≡ remake_owed files (ledger w.trace)
  undo_unmount_files-ledger none rules w = refl
  undo_unmount_files-ledger (some (pid, infos)) rules w = undelete_device_files-ledger pid infos w

  settle_unmount-fails :
      (text : String) (e : GoError) (files : Option (ℕ × List DeviceInfo)) (path : String)
      (outcome : RuleOutcome) (w : World) (l : Ledger)
      → ledger w.trace ≡ drop_files files (owe_rules (some (path, outcome)) l)
      → Reinstated l (
          ledger
            (settle_unmount c text
              (some e)
              (record { files = files; rules = some (path, outcome) })
              w).1.trace)
  settle_unmount-fails text e files path outcome w l h =
      let undo : Undo = record { files = files; rules = some (path, outcome) } in
      let w₁ : World = undo_unmount_files c undo w in
      let w₂ : World = undo_rules c undo w₁ in
      subst (Reinstated l)
        (sym (
          close_files-ledger c undo w₂
          ∙ ap (close_owed undo.rules) (
              undo_rules-ledger c undo w₁
              ∙ ap (restore_owed undo.rules)
                  (undo_unmount_files-ledger files undo.rules w ∙ ap (remake_owed files) h))))
        (reinstated files path outcome l)

  -- The world in which the plugin names the pods to delete, and those pods.
  abbrev pub unmounted_world : Detected → World → World
  unmounted_world d w = log post_unmount (
      delete_device_files d.pid d.infos
        (device_rule_set c d.path (map (λ info. info.rule) d.infos)
          (kill_running_processes d.pid d.processes w)).1)

  abbrev pub dropped_slaves : Detected → World → List ObjectKey
  dropped_slaves d w =
      d.mounter.get_pods_to_cleanup (unmounted_world d w) d.pod d.container d.slaves

  abbrev Settled : List ObjectKey → Detected → Ledger → Result String × World → Type 0
  Settled pods d l (ok text, w) = Removed pods d.pid d.infos l (ledger w.trace)
  Settled pods d l (err e, w) = Reinstated l (ledger w.trace)

  after_post_unmount-Settled :
      (d : Detected) (outcome : RuleOutcome) (e : Option GoError) (w : World) (l : Ledger)
      → ledger w.trace ≡ removes d.pid d.infos (owe_rules (some (d.path, outcome)) l)
      → let undo : Undo = record {
        files = some (d.pid, d.infos);
        rules = some (d.path, outcome);
      } in
        let ending = after_post_unmount c d undo e w in
        Settled
          (d.mounter.get_pods_to_cleanup w d.pod d.container d.slaves)
          d
          l
          (settle_unmount c (unmounted_text d) ending.error ending.undo ending.world)
  after_post_unmount-Settled d outcome (some e) w l h =
      settle_unmount-fails (unmounted_text d) (wrap "failed to execute post unmount actions: " e)
        (some (d.pid, d.infos)) d.path outcome w l h
  after_post_unmount-Settled d outcome none w l h =
      let pods : List ObjectKey = d.mounter.get_pods_to_cleanup w d.pod d.container d.slaves in
      let undo : Undo = record { files = some (d.pid, d.infos); rules = some (d.path, outcome) } in
      subst (Removed pods d.pid d.infos l)
        (sym (
          close_files-ledger c undo _
          ∙ ap (close_owed undo.rules)
              (garbage_collection_pods-ledger c pods w ∙ ap (deletes pods) h)))
        (removed pods d.pid d.infos d.path outcome l)

  after_unmount_rules-Settled :
      (d : Detected) (outcome : RuleOutcome) (e : Option GoError) (w : World) (l : Ledger)
      → ledger w.trace ≡ owe_rules (some (d.path, outcome)) l
      → let ending = after_unmount_rules c d outcome e w in
        Settled
          (d.mounter.get_pods_to_cleanup
            (log post_unmount (delete_device_files d.pid d.infos w))
            d.pod
            d.container
            d.slaves)
          d
          l
          (settle_unmount c (unmounted_text d) ending.error ending.undo ending.world)
  after_unmount_rules-Settled d outcome (some e) w l h =
      settle_unmount-fails (unmounted_text d)
        (other_error ("Failed to set access permissions for cgroup devices: " <> message e)) none
        d.path outcome w l h
  after_unmount_rules-Settled d outcome none w l h =
      after_post_unmount-Settled d outcome _ _ l
        (delete_device_files-ledger d.pid d.infos w ∙ ap (removes d.pid d.infos) h)

  run_unmount-Settled :
      (d : Detected) (w : World)
      → Settled (dropped_slaves d w) d (ledger w.trace) (run_unmount c d w)
  unfolding run_unmount
  run_unmount-Settled d w =
      let w₁ : World = kill_running_processes d.pid d.processes w in
      let outcome : RuleOutcome =
        (device_rule_set c d.path (map (λ info. info.rule) d.infos) w₁).0 in
      after_unmount_rules-Settled d outcome outcome.error
        (device_rule_set c d.path (map (λ info. info.rule) d.infos) w₁).1 (ledger w.trace)
        (device_rule_set-ledger c d.path (map (λ info. info.rule) d.infos) w₁
          ∙ ap (owe_rules (some (d.path, outcome)))
              (kill_running_processes-ledger d.pid d.processes w))

  pub detect_unmount-IsQuiet : (req : UnMountDeviceRequest) → IsQuiet (detect_unmount c req)
  unfolding detect_unmount
  detect_unmount-IsQuiet request = IsQuiet-bind _ _ (IsQuiet-lift _) λ req.
      IsQuiet-bind _ _ (IsQuiet-answer _ (get_target_pod-IsQuiet c _ _)) λ pod.
        IsQuiet-bind _ _ (IsQuiet-lift _) λ container. IsQuiet-bind _ _ (IsQuiet-lift _) λ ready.
          IsQuiet-bind _ _ (IsQuiet-lift _) λ m.
            IsQuiet-bind _ _ (IsQuiet-answer _ (get_slave_pods-IsQuiet c _ _ _)) λ found.
              IsQuiet-bind _ _ (IsQuiet-lift _) λ slaves. IsQuiet-bind _ _ (IsQuiet-ask _) λ infos.
                IsQuiet-bind _ _ (container_pids-IsQuiet c _ _) λ group.
                  IsQuiet-bind _ _ (IsQuiet-ask _)
                    λ active. IsQuiet-bind _ _ (IsQuiet-lift _) λ processes. IsQuiet-pure _

  -- What an unmount leaves, by its response.
  abbrev Answered : Ledger → DeviceResponse × World → Type 0
  Answered l (response, w) =
      ¬ (response.result ≡ ResultCode.success) → Reinstated l (ledger w.trace)

  Settled-Answered :
      (pods : List ObjectKey) (d : Detected) (l : Ledger) (r : Result String × World)
      → Settled pods d l r
      → Answered l (respond r.0, r.1)
  Settled-Answered pods d l (ok text, w) h = λ fails. absurd (fails refl)
  Settled-Answered pods d l (err e, w) h = λ fails. h

  nothing_done : (l : Ledger) → Reinstated l l
  nothing_done l = record { pid = 0; devices = []; rules = []; descriptors = []; same = refl }

  detected-Answered :
      (l : Ledger) (r : Result Detected × World)
      → ledger r.1.trace ≡ l
      → let (text, w) = and_then (run_unmount c) r in Answered l (respond text, w)
  detected-Answered l (ok d, w) h =
      subst (λ k. Answered k (respond (run_unmount c d w).0, (run_unmount c d w).1)) h
        (Settled-Answered (dropped_slaves d w) d (ledger w.trace) (run_unmount c d w)
          (run_unmount-Settled d w))
  detected-Answered l (err e, w) h =
      λ fails. subst (λ k. Reinstated k (ledger w.trace)) h (nothing_done _)

  -- An unmount whose response is not a success has undone what it did: every device file that it
  -- removed is made again, the device rules are restored wherever there was something to restore,
  -- every descriptor it opened is closed, and no slave pod is made or deleted.
  pub unmount_device-rolls_back :
      (req : UnMountDeviceRequest) (w : World)
      → let (response, w') = unmount_device c req w in
        ¬ (response.result ≡ ResultCode.success) → Reinstated (ledger w.trace) (ledger w'.trace)
  unfolding unmount_device ◌>>=◌
  unmount_device-rolls_back req w =
      detected-Answered (ledger w.trace) (detect_unmount c req w)
        (ap ledger ((detect_unmount-IsQuiet req).at w))

  ok-Removed :
      (pods : List ObjectKey) (d : Detected) (l : Ledger) (r : Result String × World)
      (text : String)
      → r.0 ≡ ok text
      → Settled pods d l r
      → Removed pods d.pid d.infos l (ledger r.1.trace)
  ok-Removed pods d l (ok t, w) text e h = h
  ok-Removed pods d l (err t, w) text e h = ground arith

  -- An unmount that has found its devices and ends well has deleted the slave pods that the plugin
  -- names for clean-up and no other, has removed the files of the forbidden devices and no other,
  -- has restored no rule and closed every descriptor it opened.
  pub run_unmount-removes :
      (d : Detected) (w : World) (text : String)
      → (run_unmount c d w).0 ≡ ok text
      → Removed
          (dropped_slaves d w)
          d.pid
          d.infos
          (ledger w.trace)
          (ledger (run_unmount c d w).1.trace)
  run_unmount-removes d w text e =
      ok-Removed (dropped_slaves d w) d (ledger w.trace) (run_unmount c d w) text e
        (run_unmount-Settled d w)
