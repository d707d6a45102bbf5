-- ===== src/Server/Traces.antt =====
-- A ledger of a trace: what was made and what was undone, the newest first, and how each helper of
-- the handlers changes it.
pub mod Quiet
use device_mounter.Base.{
  ℕ, zero, suc, ◌+◌, String, Bool, true, false, Option, none, some, List, [], ◌∷◌, ◌++◌, map, ◌≡◌,
  refl, ap, ◌∙◌, arith, keep, if◌then◌else◌, append-nil, append_assoc,
}
use device_mounter.Ebpf.{Rule}
use device_mounter.Api.{
  GoError, mounter_error, not_found_error, other_error, Result, ok, err, DeviceInfo, ObjectKey, Pod,
  key_of,
}
use device_mounter.Server.World.{
  Event, pod_created, pdb_created, pod_deleted, rules_set, rules_restored, fd_opened, fd_closed,
  file_made, file_removed, processes_killed, post_mount, post_unmount, event_recorded, World, tick,
  log,
}
use device_mounter.Server.Cluster.{Cluster, DeviceMounter, RuleOutcome}
use device_mounter.Server.Pods.{on_created, create_pods, garbage_collection_pods}
use device_mounter.Server.Rules.{
  device_rule_set, create_device_files, uncreate_device_files, delete_device_files,
  undelete_device_files, restore_rules, close_fd, with_allow,
}

pub record Ledger : Type 0 where
  pub created : List ObjectKey
  pub deleted : List ObjectKey
  pub made : List (ℕ × String)
  pub removed : List (ℕ × String)
  pub restorable : List String
  pub restored : List String
  pub opened : List String
  pub closed : List String

abbrev pub post : Event → Ledger → Ledger
post (pod_created key) l = record l { created = key ∷ l.created }
post (pdb_created key) l = l
post (pod_deleted key) l = record l { deleted = key ∷ l.deleted }
post (rules_set path rules restores) l = record l {
  restorable = if restores then path ∷ l.restorable else l.restorable;
}
post (rules_restored path) l = record l { restored = path ∷ l.restored }
post (fd_opened path) l = record l { opened = path ∷ l.opened }
post (fd_closed path) l = record l { closed = path ∷ l.closed }
post (file_made pid path) l = record l { made = (pid, path) ∷ l.made }
post (file_removed pid path) l = record l { removed = (pid, path) ∷ l.removed }
post (processes_killed pid pids) l = l
post post_mount l = l
post post_unmount l = l
post (event_recorded text) l = l

abbrev pub ledger : List Event → Ledger
ledger [] = record {
  created = [];
  deleted = [];
  made = [];
  removed = [];
  restorable = [];
  restored = [];
  opened = [];
  closed = [];
}
ledger (e ∷ trace) = post e (ledger trace)

-- The elements of the first list put in front of the second one by one.
abbrev pub onto {ℓ} : {A : Type ℓ} → List A → List A → List A
onto [] ys = ys
onto (x ∷ xs) ys = onto xs (x ∷ ys)

abbrev pub file_names : ℕ → List DeviceInfo → List (ℕ × String)
file_names pid = map (λ info. (pid, info.device_file_path))

abbrev pub allowed : List DeviceInfo → List DeviceInfo
allowed = keep (λ info. info.rule.allow)

pub create_device_files-ledger :
    (pid : ℕ) (infos : List DeviceInfo) (w : World)
    → let l = ledger w.trace in
      ledger (create_device_files pid infos w).trace
      ≡ record l { made = onto (file_names pid (allowed infos)) l.made }
unfolding create_device_files
create_device_files-ledger pid [] w = refl
create_device_files-ledger pid (info ∷ infos) w = ground (
  arith,
  create_device_files-ledger pid infos w,
  create_device_files-ledger pid infos (log (file_made pid info.device_file_path) w),
)

pub uncreate_device_files-ledger :
    (pid : ℕ) (infos : List DeviceInfo) (w : World)
    → let l = ledger w.trace in
      ledger (uncreate_device_files pid infos w).trace
      ≡ record l { removed = onto (file_names pid infos) l.removed }
unfolding uncreate_device_files
uncreate_device_files-ledger pid [] w = refl
uncreate_device_files-ledger pid (info ∷ infos) w = uncreate_device_files-ledger pid infos _

module _ (c : Cluster) where
  pub garbage_collection_pods-ledger :
      (keys : List ObjectKey) (w : World)
      → let l = ledger w.trace in
        ledger (garbage_collection_pods c keys w).1.trace
        ≡ record l { deleted = onto keys l.deleted }
  unfolding garbage_collection_pods
  garbage_collection_pods-ledger [] w = refl
  garbage_collection_pods-ledger (key ∷ keys) w = garbage_collection_pods-ledger keys _

  pub device_rule_set-ledger :
      (path : String) (rules : List Rule) (w : World)
      → let l = ledger w.trace in
        let (outcome, w') = device_rule_set c path rules w in
        ledger w'.trace ≡ record l {
          restorable = if outcome.restores then path ∷ l.restorable else l.restorable;
          opened = if outcome.closes then path ∷ l.opened else l.opened;
        }
  unfolding device_rule_set
  device_rule_set-ledger path [] w = refl
  device_rule_set-ledger path (r ∷ rules) w = ground arith

  abbrev pub Creates : (List ObjectKey → World → List ObjectKey × Option GoError × World) → Type 0
  Creates loop =
      (keys : List ObjectKey) (w : World)
      → let l = ledger w.trace in
        let (keys', e, w') = loop keys w in
        (new : List ObjectKey) × (keys' ≡ keys ++ new)
        × (ledger w'.trace ≡ record l { created = onto new l.created })

  on_created-ledger :
      (loop : List ObjectKey → World → List ObjectKey × Option GoError × World)
      → Creates loop
      → (keys : List ObjectKey) (r : Result Pod) (w : World)
      → let l = ledger w.trace in
        let (keys', e, w') = on_created c loop keys r w in
        (new : List ObjectKey) × (keys' ≡ keys ++ new)
        × (ledger w'.trace ≡ record l { created = onto new l.created })
  on_created-ledger loop h keys (err e) w = ([], rw append-nil, refl)
  on_created-ledger loop h keys (ok pod) w =
      let (new, same, made) = h (keys ++ key_of pod ∷ []) _ in
      (key_of pod ∷ new, same ∙ append_assoc keys (key_of pod ∷ []) new, made)

  -- The keys that `create_pods` adds to the keys it is given are those of the pods created.
  pub create_pods-ledger : (pods : List Pod) → Creates (create_pods c pods)
  unfolding create_pods
  create_pods-ledger [] keys w = ([], rw append-nil, refl)
  create_pods-ledger (pod ∷ pods) keys w =
      on_created-ledger (create_pods c pods) (create_pods-ledger pods) keys (c.create_pod w pod) w
