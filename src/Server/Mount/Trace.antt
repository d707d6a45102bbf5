-- ===== src/Server/Mount/Trace.antt =====
-- What each stage of a mount adds to the ledger, and what it leaves for the deferred function.
use device_mounter.Base.{
  ℕ, String, Option, none, some, List, [], ◌∷◌, map, ◌≡◌, refl, ◌∙◌, ap, if◌then◌else◌,
}
use device_mounter.Api.{GoError, Result, ok, err, DeviceInfo, ObjectKey, Pod, key_of}
use device_mounter.Server.World.{World, tick}
use device_mounter.Server.Cluster.{Cluster, RuleOutcome}
use device_mounter.Server.Rules.{device_rule_set, container_pids, Undo, Ending}
use device_mounter.Server.Mount.{
  Prepared, after_post_mount, after_rules, after_pids, after_infos, after_ready, after_wait,
  mount_created,
}
use device_mounter.Server.Wait.{Waited, wait_support_pods_ready}
use device_mounter.Server.Traces.{
  Ledger, ledger, onto, file_names, allowed, create_device_files-ledger,
  garbage_collection_pods-ledger, device_rule_set-ledger,
}
use device_mounter.Server.Traces.Quiet.{container_pids-IsQuiet, wait-trace}

-- The files, the rules and the descriptors that an undo record answers for, put into a ledger.
abbrev pub owe_files : Option (ℕ × List DeviceInfo) → Ledger → Ledger
owe_files none l = l
owe_files (some (pid, infos)) l = record l { made = onto (file_names pid (allowed infos)) l.made }

abbrev pub owe_rules : Option (String × RuleOutcome) → Ledger → Ledger
owe_rules none l = l
owe_rules (some (path, outcome)) l = record l {
  restorable = if outcome.restores then path ∷ l.restorable else l.restorable;
  opened = if outcome.closes then path ∷ l.opened else l.opened;
}

-- The pods deleted by a stage that went well are skipped ones.
abbrev pub cleaned : Option GoError → List ObjectKey → Ledger → Ledger
cleaned none keys l = record l { deleted = onto keys l.deleted }
cleaned (some e) keys l = l

-- What a stage did since the ledger `l` is what its undo record answers for, and the clean-up of
-- the skipped pods if there was no error.
abbrev pub IsOwed : List ObjectKey → Ledger → Ending → Type 0
IsOwed skipped l ending =
    ledger ending.world.trace
    ≡ cleaned ending.error skipped (owe_files ending.undo.files (owe_rules ending.undo.rules l))

module _ (c : Cluster) (p : Prepared) (ready skipped : List Pod) where
  after_post_mount-IsOwed :
      (l : Ledger) (undo : Undo) (e : Option GoError) (w : World)
      → ledger w.trace ≡ owe_files undo.files (owe_rules undo.rules l)
      → IsOwed (map key_of skipped) l (after_post_mount c p skipped undo e w)
  after_post_mount-IsOwed l undo (some e) w h = h
  after_post_mount-IsOwed l undo none w h =
      garbage_collection_pods-ledger c (map key_of skipped) w
      ∙ ap {A = Ledger} (λ k. record k { deleted = onto (map key_of skipped) k.deleted }) h

  after_rules-IsOwed :
      (l : Ledger) (infos : List DeviceInfo) (path : String) (pid : ℕ) (outcome : RuleOutcome)
      (e : Option GoError) (w : World)
      → ledger w.trace ≡ owe_rules (some (path, outcome)) l
      → IsOwed (map key_of skipped) l (after_rules c p ready skipped infos path pid outcome e w)
  after_rules-IsOwed l infos path pid outcome (some e) w h = h
  after_rules-IsOwed l infos path pid outcome none w h = after_post_mount-IsOwed l _ _ _ (
      create_device_files-ledger pid infos w
      ∙ ap {A = Ledger} (λ k. record k { made = onto (file_names pid (allowed infos)) k.made }) h)

  after_pids-IsOwed :
      (l : Ledger) (infos : List DeviceInfo) (found : Result (String × ℕ × List ℕ) × World)
      → ledger found.1.trace ≡ l
      → IsOwed (map key_of skipped) l (after_pids c p ready skipped infos found)
  after_pids-IsOwed l infos (err e, w) h = h
  after_pids-IsOwed l infos (ok (path, pid, pids), w) h =
      after_rules-IsOwed l infos path pid _ _ _ (
        device_rule_set-ledger c path (map (λ info. info.rule) infos) w
        ∙ ap (owe_rules (some (path, (device_rule_set c path (map (λ info. info.rule) infos) w).0)))
            h)

  after_infos-IsOwed :
      (l : Ledger) (infos : Result (List DeviceInfo)) (w : World)
      → ledger w.trace ≡ l
      → IsOwed (map key_of skipped) l (after_infos c p ready skipped infos w)
  after_infos-IsOwed l (err e) w h = h
  after_infos-IsOwed l (ok infos) w h =
      after_pids-IsOwed l infos (container_pids c p.pod p.container w)
        (ap ledger ((container_pids-IsQuiet c p.pod p.container).at w) ∙ h)

module _ (c : Cluster) (p : Prepared) where
  after_wait-IsOwed :
      (l : Ledger) (waited : Waited) (e : Option GoError) (w : World)
      → ledger w.trace ≡ l
      → IsOwed (map key_of waited.skipped) l (after_wait c p waited e w)
  after_wait-IsOwed l waited (some e) w h = h
  after_wait-IsOwed l waited none w h = go waited.ready
    where
      go :
          (ready : List Pod)
          → IsOwed (map key_of waited.skipped) l (after_ready c p ready waited.skipped w)
      go [] = h
      go (pod ∷ pods) = after_infos-IsOwed c p (pod ∷ pods) waited.skipped l _ (tick w) h

  -- The pods that a wait for these keys would skip.
  abbrev pub skipped_keys : List ObjectKey → World → List ObjectKey
  skipped_keys keys w = map key_of (wait_support_pods_ready c p.mounter keys w).0.skipped

  pub mount_created-IsOwed :
      (keys : List ObjectKey) (e : Option GoError) (w : World)
      → IsOwed (skipped_keys keys w) (ledger w.trace) (mount_created c p keys e w)
  mount_created-IsOwed keys (some e) w = refl
  mount_created-IsOwed [] none w = refl
  mount_created-IsOwed (key ∷ keys) none w =
      after_wait-IsOwed (ledger w.trace) (wait_support_pods_ready c p.mounter (key ∷ keys) w).0
        (wait_support_pods_ready c p.mounter (key ∷ keys) w).0.error
        (wait_support_pods_ready c p.mounter (key ∷ keys) w).1
        (ap ledger (wait-trace c p.mounter (key ∷ keys) w))
