-- ===== src/Controller/Runs.antt =====
-- Runs of the pod controller on one slave pod.
use device_mounter.Base.{
  ℕ, suc, ◌-◌, String, true, false, Option, none, some, List, [], ◌∷◌, ◌≡◌, ◌⊎◌, inl, refl, sym, ap,
  arith, string_dec, eqs, if◌then◌else◌,
}
use mathlib.Core.Option.{some-injective}
use device_mounter.Base.Dict.{Dict, lookup, insert, at_key}
use device_mounter.Api.{Pod, ok, other_error, device_type_annotation, owner_name_label}
use device_mounter.Controller.{key_string, Key, no_metadata, Codec, MetadataCache, set, get}
use device_mounter.Controller.Repair.{
  pod_label_keys, pod_anno_keys, compare_loop, copy_all, copy_map, same_map, same_owners, fixed_pod,
  panicked, returned, PodApi, handle_metadata_fix,
}
use device_mounter.Controller.Repair.Fixed.{repaired, fixed_pod-repaired}
use device_mounter.Controller.Repair.Settled.{
  handle_metadata_fix-panics, handle_metadata_fix-settles,
}
use device_mounter.Controller.Events.{changed_metadata, metadata_fix_enqueue, on_update}
use device_mounter.Controller.Events.Kept.{on_update-restored}
use device_mounter.Controller.Work.{
  Item, request, invalid, WorkQueue, process_next_work_item, work, fix_worker,
}
use device_mounter.Controller.Work.Balanced.{
  Counts, Schedules, in_flight-work, process_next-retries,
}

-- An encoding that keeps the owner's name only.
abbrev codec : Codec
codec = record {
  marshal = λ m. at_key owner_name_label m.labels;
  unmarshal = λ text. record no_metadata { labels = (owner_name_label, text) ∷ [] };
}

abbrev key : Key
key = record { namespace = "default"; name = "slave" }

abbrev slave : String → Dict String → Pod
slave version labels = record {
  name = "slave";
  generate_name = "";
  namespace = "default";
  uid = "u";
  resource_version = version;
  labels = labels;
  annotations = (device_type_annotation, "GPU") ∷ [];
  owner_references = [];
  deletion_timestamp = false;
  node_name = "";
  node_selector = [];
  scheduler_name = "";
  priority_class_name = "";
  grace_period = none;
  containers = [];
  phase = "Running";
  message = "";
  conditions = [];
  container_statuses = [];
  qos_class = "";
  pod_ip = "";
}

abbrev owned : Pod
owned = slave "1" ((owner_name_label, "app") ∷ [])

abbrev stolen : Pod
stolen = slave "2" ((owner_name_label, "other") ∷ ("color", "red") ∷ [])

abbrev restored : Pod
restored = slave "2" ((owner_name_label, "app") ∷ ("color", "red") ∷ [])

abbrev bare : Pod
bare = slave "2" []

abbrev no_cache : MetadataCache
no_cache = record { texts = []; structures = [] }

abbrev cached : MetadataCache
cached = record { texts = ("default/slave", "app") ∷ []; structures = [] }

-- A server that has one pod, and takes every patch or none.
abbrev server : Pod → Option String → PodApi
server pod refusal = record {
  get_pod = λ k. ok pod;
  patch_data = λ old new. ok "patch";
  patch = λ k bytes. elim refusal [ none ↦ none | some m ↦ some (other_error m) ];
}

sent_restored : (handle_metadata_fix codec (server stolen none) cached key).sent ≡ some restored
unfolding handle_metadata_fix get lookup insert string_dec fixed_pod copy_map copy_all compare_loop
    same_map same_owners
sent_restored = refl

updated : on_update codec no_cache (some owned) (some stolen) ≡ (cached, some key)
unfolding on_update metadata_fix_enqueue changed_metadata same_map same_owners set lookup insert
    string_dec
updated = refl

fixed_stolen :
    fixed_pod stolen (record no_metadata { labels = (owner_name_label, "app") ∷ [] })
    ≡ some restored
unfolding fixed_pod copy_map copy_all compare_loop lookup insert string_dec
fixed_stolen = refl

on_update-restored_example : at_key owner_name_label restored.labels ≡ "app"
unfolding changed_metadata same_map same_owners lookup string_dec
on_update-restored_example =
    on_update-restored codec (server stolen none) no_cache cached owned stolen restored key
      owner_name_label "app" refl refl updated refl sent_restored refl refl

fixed_pod-repaired_example :
    (lookup owner_name_label restored.labels
      ≡ repaired pod_label_keys ((owner_name_label, "app") ∷ []) stolen.labels owner_name_label)
    × (lookup owner_name_label restored.annotations
        ≡ repaired pod_anno_keys [] stolen.annotations owner_name_label)
fixed_pod-repaired_example =
    fixed_pod-repaired stolen (record no_metadata { labels = (owner_name_label, "app") ∷ [] })
      restored owner_name_label fixed_stolen

handle_metadata_fix-settles_example :
    ((handle_metadata_fix codec (server restored none) cached key).outcome ≡ returned none)
    × ((handle_metadata_fix codec (server restored none) cached key).sent ≡ none)
handle_metadata_fix-settles_example =
    handle_metadata_fix-settles codec (server stolen none) (server restored none) cached cached key
      restored sent_restored refl refl refl

handle_metadata_fix-panics_example :
    let handling = handle_metadata_fix codec (server bare none) cached key in
    (handling.outcome ≡ panicked)
    × (handling.sent ≡ none)
    × ((j : String)
        → lookup j handling.cache.texts
          ≡ (if eqs j (key_string key) then none else lookup j cached.texts))
unfolding lookup string_dec
handle_metadata_fix-panics_example =
    handle_metadata_fix-panics codec (server bare none) cached key bare
      (record no_metadata { labels = (owner_name_label, "app") ∷ [] }) owner_name_label "app" refl
      refl refl refl refl refl refl

-- A queue that counts what is handed out, and lists what waits.
record Line : Type 0 where
  waiting : List Item
  out : ℕ

abbrev line : WorkQueue Line
line = record {
  next = λ q. elim (q.waiting) [
    | [] ↦ none
    | x ∷ rest ↦ some (x, record { waiting = rest; out = suc q.out })
  ];
  done = λ q x. record q { out = q.out - 1 };
  forget = λ q x. q;
  add_rate_limited = λ q x. record q { waiting = x ∷ q.waiting };
  add_after = λ q x t. record q { waiting = x ∷ q.waiting };
}

line-Counts : Counts line (λ q. q.out)
line-Counts = record {
  next = λ q q' item e. counted q.waiting q.out q' item e;
  done = λ q item n e. omega (arith, e);
  forget = λ q item. refl;
  add_rate_limited = λ q item. refl;
  add_after = λ q item t. refl;
}
  where
    counted :
        (waiting : List Item) (out : ℕ) (q' : Line) (item : Item)
        → line.next (record { waiting = waiting; out = out }) ≡ some (item, q')
        → q'.out ≡ suc out
    counted [] out q' item e = absurd (ground arith)
    counted (x ∷ rest) out q' item e = sym (ap (λ r. r.1.out) (some-injective _ _ e))

in_flight-work_example :
    (work line
      (fix_worker codec (λ c. server bare none))
      2
      (record { waiting = request key ∷ invalid ∷ []; out = 0 }, cached)).0.out
    ≡ 0
in_flight-work_example =
    in_flight-work line (fix_worker codec (λ c. server bare none)) (λ q. q.out) line-Counts 2
      (record { waiting = request key ∷ invalid ∷ []; out = 0 }, cached)

abbrev IsAmong : Item → List Item → Type 0
IsAmong x [] = ⊥
IsAmong x (y ∷ ys) = (x ≡ y) ⊎ IsAmong x ys

abbrev Waits : Line → Item → Type 0
Waits q item = IsAmong item q.waiting

line-Schedules : Schedules line Waits
line-Schedules = record { added = λ q item. inl refl; kept = λ q item other h. h }

process_next-retries_example :
    let (loop, (q, cache)) =
      process_next_work_item line
        (fix_worker codec (λ c. server stolen (some "refused")))
        (record { waiting = request key ∷ []; out = 0 }, cached) in
    (loop ≡ true) × (Waits q (request key) × (cache ≡ cached))
unfolding handle_metadata_fix get lookup insert string_dec fixed_pod copy_map copy_all compare_loop
    same_map same_owners
process_next-retries_example =
    process_next-retries line codec (λ c. server stolen (some "refused")) Waits line-Schedules
      (record { waiting = request key ∷ []; out = 0 }) (record { waiting = []; out = 1 }) cached key
      (other_error "refused") refl refl
