-- ===== src/Server/Mount/Atomic.antt =====
-- `MountDevice` (pkg/server/mounter/server.go) as a transaction: what is left behind when it fails and
-- when it succeeds, read off the ledger of the trace.
use device_mounter.Base.{
  ℕ, String, Bool, true, false, Option, none, some, List, [], ◌∷◌, ◌≡◌, refl, ◌∙◌, ap, sym, arith,
  if◌then◌else◌,
}
use mathlib.Core.Path.{subst}
use device_mounter.Api.{GoError, ResultCode, Result, ok, err, DeviceInfo, ObjectKey}
use device_mounter.Server.World.{World, and_then, ◌>>=◌}
use device_mounter.Server.Cluster.{Cluster, RuleOutcome}
use device_mounter.Server.Requests.{MountDeviceRequest}
use device_mounter.Server.Pods.{create_pods, garbage_collection_pods}
use device_mounter.Server.Rules.{Undo}
use device_mounter.Server.Mount.{
  Prepared, prepare_mount, mount_created, undo_files, undo_rules, close_files, settle_mount,
  run_mount, mount_device, mounted_text, DeviceResponse, respond,
}
use device_mounter.Server.Mount.Trace.{
  owe_files, owe_rules, cleaned, skipped_keys, mount_created-IsOwed,
}
use device_mounter.Server.Traces.{
  Ledger, ledger, onto, file_names, allowed, uncreate_device_files-ledger,
  garbage_collection_pods-ledger, create_pods-ledger,
}
use device_mounter.Server.Traces.Quiet.{
  IsQuiet, IsQuiet-ask, IsQuiet-lift, IsQuiet-pure, IsQuiet-bind, IsQuiet-answer,
  get_target_pod-IsQuiet, get_slave_pods-IsQuiet, complete_pods-IsQuiet,
}

-- Between two ledgers every pod made is deleted again, every file made is removed, the rules are
-- restored wherever they can be, and every descriptor is closed.
pub record RolledBack (before after : Ledger) : Type 0 where
  pub pods : List ObjectKey
  pub pid : ℕ
  pub devices : List DeviceInfo
  pub rules : List String
  pub descriptors : List String
  pub same : after ≡ record {
    created = onto pods before.created;
    deleted = onto pods before.deleted;
    made = onto (file_names pid (allowed devices)) before.made;
    removed = onto (file_names pid devices) before.removed;
    restorable = onto rules before.restorable;
    restored = onto rules before.restored;
    opened = onto descriptors before.opened;
    closed = onto descriptors before.closed;
  }

-- Between two ledgers the pods of the first list are made and those of the second one deleted;
-- no file is removed and no rule restored, and every descriptor is closed.
pub record Committed (pods dropped : List ObjectKey) (before after : Ledger) : Type 0 where
  pub pid : ℕ
  pub devices : List DeviceInfo
  pub rules : List String
  pub descriptors : List String
  pub same : after ≡ record {
    created = onto pods before.created;
    deleted = onto dropped before.deleted;
    made = onto (file_names pid (allowed devices)) before.made;
    removed = before.removed;
    restorable = onto rules before.restorable;
    restored = before.restored;
    opened = onto descriptors before.opened;
    closed = onto descriptors before.closed;
  }

abbrev pub one_if : Bool → String → List String
one_if b path = if b then path ∷ [] else []

-- Four lists of a ledger that each have the path in front under a test.
pub push_if-onto :
    (f : List String → List String → List String → List String → Ledger) (a b : Bool)
    (path : String) (xs ys zs us : List String)
    → f
        (if a then path ∷ xs else xs)
        (if a then path ∷ ys else ys)
        (if b then path ∷ zs else zs)
        (if b then path ∷ us else us)
      ≡ f
          (onto (one_if a path) xs)
          (onto (one_if a path) ys)
          (onto (one_if b path) zs)
          (onto (one_if b path) us)
push_if-onto f true true path xs ys zs us = refl
push_if-onto f true false path xs ys zs us = refl
push_if-onto f false true path xs ys zs us = refl
push_if-onto f false false path xs ys zs us = refl

abbrev remove_owed : Option (ℕ × List DeviceInfo) → Ledger → Ledger
remove_owed none l = l
remove_owed (some (pid, infos)) l = record l { removed = onto (file_names pid infos) l.removed }

abbrev pub restore_owed : Option (String × RuleOutcome) → Ledger → Ledger
restore_owed none l = l
restore_owed (some (path, outcome)) l = record l {
  restored = if outcome.restores then path ∷ l.restored else l.restored;
}

abbrev pub close_owed : Option (String × RuleOutcome) → Ledger → Ledger
close_owed none l = l
close_owed (some (path, outcome)) l = record l {
  closed = if outcome.closes then path ∷ l.closed else l.closed;
}

abbrev pub deletes : List ObjectKey → Ledger → Ledger
deletes keys l = record l { deleted = onto keys l.deleted }

abbrev creates : List ObjectKey → Ledger → Ledger
creates keys l = record l { created = onto keys l.created }

-- The ledgers behind the deferred function.
rolled_back :
    (keys : List ObjectKey) (files : Option (ℕ × List DeviceInfo))
    (rules : Option (String × RuleOutcome)) (l : Ledger)
    → RolledBack l (
        close_owed rules (
          deletes keys (
            restore_owed rules
              (remove_owed files (owe_files files (owe_rules rules (creates keys l)))))))
rolled_back keys none none l = record {
  pods = keys;
  pid = 0;
  devices = [];
  rules = [];
  descriptors = [];
  same = refl;
}
rolled_back keys (some (pid, infos)) none l = record {
  pods = keys;
  pid = pid;
  devices = infos;
  rules = [];
  descriptors = [];
  same = refl;
}
rolled_back keys none (some (path, outcome)) l = record {
  pods = keys;
  pid = 0;
  devices = [];
  rules = one_if outcome.restores path;
  descriptors = one_if outcome.closes path;
  same =
      push_if-onto
        (λ xs ys zs us. record (deletes keys (remove_owed none (owe_files none (creates keys l)))) {
          restorable = xs;
          restored = ys;
          opened = zs;
          closed = us;
        })
        outcome.restores outcome.closes path l.restorable l.restored l.opened l.closed;
}
rolled_back keys (some (pid, infos)) (some (path, outcome)) l = record {
  pods = keys;
  pid = pid;
  devices = infos;
  rules = one_if outcome.restores path;
  descriptors = one_if outcome.closes path;
  same =
      push_if-onto
        (λ xs ys zs us.
          record (deletes keys
            (remove_owed (some (pid, infos)) (owe_files (some (pid, infos)) (creates keys l)))) {
              restorable = xs;
              restored = ys;
              opened = zs;
              closed = us;
            })
        outcome.restores outcome.closes path l.restorable l.restored l.opened l.closed;
}

committed :
    (keys dropped : List ObjectKey) (files : Option (ℕ × List DeviceInfo))
    (rules : Option (String × RuleOutcome)) (l : Ledger)
    → Committed keys dropped l
        (close_owed rules (deletes dropped (owe_files files (owe_rules rules (creates keys l)))))
committed keys dropped none none l = record {
  pid = 0;
  devices = [];
  rules = [];
  descriptors = [];
  same = refl;
}
committed keys dropped (some (pid, infos)) none l = record {
  pid = pid;
  devices = infos;
  rules = [];
  descriptors = [];
  same = refl;
}
committed keys dropped none (some (path, outcome)) l = record {
  pid = 0;
  devices = [];
  rules = one_if outcome.restores path;
  descriptors = one_if outcome.closes path;
  same =
      push_if-onto
        (λ xs ys zs us. record (deletes dropped (owe_files none (creates keys l))) {
          restorable = xs;
          opened = zs;
          closed = us;
        })
        outcome.restores outcome.closes path l.restorable l.restored l.opened l.closed;
}
committed keys dropped (some (pid, infos)) (some (path, outcome)) l = record {
  pid = pid;
  devices = infos;
  rules = one_if outcome.restores path;
  descriptors = one_if outcome.closes path;
  same =
      push_if-onto
        (λ xs ys zs us. record (deletes dropped (owe_files (some (pid, infos)) (creates keys l))) {
          restorable = xs;
          opened = zs;
          closed = us;
        })
        outcome.restores outcome.closes path l.restorable l.restored l.opened l.closed;
}

module _ (c : Cluster) where
  undo_files-ledger :
      (undo : Undo) (w : World)
      → ledger (undo_files c undo w).trace ≡ remove_owed undo.files (ledger w.trace)
  undo_files-ledger undo w = go undo.files
    where
      go :
          (files : Option (ℕ × List DeviceInfo))
          → ledger (undo_files c (record undo { files = files }) w).trace
            ≡ remove_owed files (ledger w.trace)
      go none = refl
      go (some (pid, infos)) = uncreate_device_files-ledger pid infos w

  pub undo_rules-ledger :
      (undo : Undo) (w : World)
      → ledger (undo_rules c undo w).trace ≡ restore_owed undo.rules (ledger w.trace)
  undo_rules-ledger undo w = go undo.rules
    where
      go :
          (rules : Option (String × RuleOutcome))
          → ledger (undo_rules c (record undo { rules = rules }) w).trace
            ≡ restore_owed rules (ledger w.trace)
      go none = refl
      go (some (path, outcome)) = ground arith

  pub close_files-ledger :
      (undo : Undo) (w : World)
      → ledger (close_files c undo w).trace ≡ close_owed undo.rules (ledger w.trace)
  close_files-ledger undo w = go undo.rules
    where
      go :
          (rules : Option (String × RuleOutcome))
          → ledger (close_files c (record undo { rules = rules }) w).trace
            ≡ close_owed rules (ledger w.trace)
      go none = refl
      go (some (path, outcome)) = ground arith

  settle_mount-fails :
      (keys : List ObjectKey) (text : String) (e : GoError) (undo : Undo) (w : World) (l : Ledger)
      → ledger w.trace ≡ owe_files undo.files (owe_rules undo.rules (creates keys l))
      → RolledBack l (ledger (settle_mount c keys text (some e) undo w).1.trace)
  settle_mount-fails keys text e undo w l h =
      let w₁ : World = undo_files c undo w in
      let w₂ : World = undo_rules c undo w₁ in
      let w₃ : World = (garbage_collection_pods c keys w₂).1 in
      subst (RolledBack l)
        (sym (
          close_files-ledger undo w₃
          ∙ ap (close_owed undo.rules) (
              garbage_collection_pods-ledger c keys w₂
              ∙ ap (deletes keys) (
                  undo_rules-ledger undo w₁
                  ∙ ap (restore_owed undo.rules)
                      (undo_files-ledger undo w ∙ ap (remove_owed undo.files) h)))))
        (rolled_back keys undo.files undo.rules l)

  settle_mount-succeeds :
      (keys dropped : List ObjectKey) (text : String) (undo : Undo) (w : World) (l : Ledger)
      → ledger w.trace
        ≡ deletes dropped (owe_files undo.files (owe_rules undo.rules (creates keys l)))
      → Committed keys dropped l (ledger (settle_mount c keys text none undo w).1.trace)
  settle_mount-succeeds keys dropped text undo w l h =
      subst (Committed keys dropped l)
        (sym (close_files-ledger undo w ∙ ap (close_owed undo.rules) h))
        (committed keys dropped undo.files undo.rules l)

  -- What a run of the part behind the creation of the pods leaves, by how it ended.
  abbrev Settled : List ObjectKey → List ObjectKey → Ledger → Result String × World → Type 0
  Settled keys dropped l (ok text, w) = Committed keys dropped l (ledger w.trace)
  Settled keys dropped l (err e, w) = RolledBack l (ledger w.trace)

  settle_mount-Settled :
      (keys dropped : List ObjectKey) (text : String) (e : Option GoError) (undo : Undo) (w : World)
      (l : Ledger)
      → ledger w.trace
        ≡ cleaned e dropped (owe_files undo.files (owe_rules undo.rules (creates keys l)))
      → Settled keys dropped l (settle_mount c keys text e undo w)
  settle_mount-Settled keys dropped text none undo w l h =
      settle_mount-succeeds keys dropped text undo w l h
  settle_mount-Settled keys dropped text (some e) undo w l h =
      settle_mount-fails keys text e undo w l h

  -- The pods that a mount creates, and those of them that its wait skips.
  abbrev pub created_pods : Prepared → World → List ObjectKey
  created_pods p w = (create_pods c p.templates [] w).0

  abbrev pub dropped_pods : Prepared → World → List ObjectKey
  dropped_pods p w = skipped_keys c p (created_pods p w) (create_pods c p.templates [] w).2

  run_mount-Settled :
      (p : Prepared) (w : World)
      → Settled (created_pods p w) (dropped_pods p w) (ledger w.trace) (run_mount c p w)
  unfolding run_mount
  run_mount-Settled p w =
      let keys : List ObjectKey = created_pods p w in
      let w₁ : World = (create_pods c p.templates [] w).2 in
      let e : Option GoError = (create_pods c p.templates [] w).1 in
      let (new, same, made) = create_pods-ledger c p.templates [] w in
      settle_mount-Settled keys (dropped_pods p w) (mounted_text c p)
        (mount_created c p keys e w₁).error (mount_created c p keys e w₁).undo
        (mount_created c p keys e w₁).world (ledger w.trace)
        (mount_created-IsOwed c p keys e w₁
          ∙ ap
              (λ k. cleaned (mount_created c p keys e w₁).error (dropped_pods p w) (
                owe_files (mount_created c p keys e w₁).undo.files
                  (owe_rules (mount_created c p keys e w₁).undo.rules k)))
              (made ∙ ap (λ k. creates k (ledger w.trace)) (sym same)))

  prepare_mount-IsQuiet : (req : MountDeviceRequest) → IsQuiet (prepare_mount c req)
  unfolding prepare_mount
  prepare_mount-IsQuiet request = IsQuiet-bind _ _ (IsQuiet-lift _) λ req.
      IsQuiet-bind _ _ (IsQuiet-answer _ (get_target_pod-IsQuiet c _ _)) λ pod.
        IsQuiet-bind _ _ (IsQuiet-lift _) λ container. IsQuiet-bind _ _ (IsQuiet-lift _) λ ready.
          IsQuiet-bind _ _ (IsQuiet-lift _) λ m. IsQuiet-bind _ _ (IsQuiet-lift _) λ resources.
            IsQuiet-bind _ _ (IsQuiet-answer _ (IsQuiet-ask _)) λ node.
              IsQuiet-bind _ _ (IsQuiet-ask _) λ valid.
                IsQuiet-bind _ _ (IsQuiet-answer _ (get_slave_pods-IsQuiet c _ _ _)) λ slaves.
                  IsQuiet-bind _ _ (IsQuiet-ask _) λ built.
                    IsQuiet-bind _ _ (complete_pods-IsQuiet c _ _ _ _ _) λ templates. IsQuiet-pure _

  -- What a mount leaves, by its response: rolled back unless the response is a success.
  abbrev Answered : Ledger → DeviceResponse × World → Type 0
  Answered l (response, w) =
      ¬ (response.result ≡ ResultCode.success) → RolledBack l (ledger w.trace)

  Settled-Answered :
      (keys dropped : List ObjectKey) (l : Ledger) (r : Result String × World)
      → Settled keys dropped l r
      → Answered l (respond r.0, r.1)
  Settled-Answered keys dropped l (ok text, w) h fails = absurd (fails refl)
  Settled-Answered keys dropped l (err e, w) h fails = h

  nothing_done : (l : Ledger) → RolledBack l l
  nothing_done l = rolled_back [] none none l

  prepared-Answered :
      (l : Ledger) (r : Result Prepared × World)
      → ledger r.1.trace ≡ l
      → let (text, w) = and_then (run_mount c) r in Answered l (respond text, w)
  prepared-Answered l (ok p, w) h =
      subst (λ k. Answered k (respond (run_mount c p w).0, (run_mount c p w).1)) h
        (Settled-Answered (created_pods p w) (dropped_pods p w) (ledger w.trace) (run_mount c p w)
          (run_mount-Settled p w))
  prepared-Answered l (err e, w) h =
      λ fails. subst (λ k. RolledBack k (ledger w.trace)) h (nothing_done _)

  -- A mount whose response is not a success has undone what it did: it has deleted exactly the
  -- slave pods it created, removed the device files it made, restored the device rules wherever
  -- there was something to restore, and closed every descriptor it opened, whatever the cluster,
  -- the kernel and the plugin answered.
  pub mount_device-rolls_back :
      (req : MountDeviceRequest) (w : World)
      → let (response, w') = mount_device c req w in
        ¬ (response.result ≡ ResultCode.success) → RolledBack (ledger w.trace) (ledger w'.trace)
  unfolding mount_device ◌>>=◌
  mount_device-rolls_back req w =
      prepared-Answered (ledger w.trace) (prepare_mount c req w)
        (ap ledger ((prepare_mount-IsQuiet req).at w))

  ok-Committed :
      (keys dropped : List ObjectKey) (l : Ledger) (r : Result String × World) (text : String)
      → r.0 ≡ ok text
      → Settled keys dropped l r
      → Committed keys dropped l (ledger r.1.trace)
  ok-Committed keys dropped l (ok t, w) text e h = h
  ok-Committed keys dropped l (err t, w) text e h = ground arith

  -- A prepared mount that ends well keeps the slave pods it created but those its wait skipped,
  -- keeps the device files and the rules it set, and has closed every descriptor it opened.
  pub run_mount-commits :
      (p : Prepared) (w : World) (text : String)
      → (run_mount c p w).0 ≡ ok text
      → Committed
          (created_pods p w)
          (dropped_pods p w)
          (ledger w.trace)
          (ledger (run_mount c p w).1.trace)
  run_mount-commits p w text e =
      ok-Committed (created_pods p w) (dropped_pods p w) (ledger w.trace) (run_mount c p w) text e
        (run_mount-Settled p w)
