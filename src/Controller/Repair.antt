-- ===== src/Controller/Repair.antt =====
-- pkg/controller/pod_controller.go: handleMetadataFix, which patches a slave pod whose labels,
-- annotations or owners were changed, and CopyMap of pkg/util/util.go. An informer's object has a nil
-- map where it has no entry, so an empty dictionary is a nil map here and a write to it panics.
pub mod Fixed
pub mod Kept
pub mod Handled
pub mod Settled
use device_mounter.Base.{
  String, Bool, true, false, not, ◌&&◌, ◌||◌, Option, none, some, List, [], ◌∷◌, eqs, every,
  if◌then◌else◌,
}
use device_mounter.Base.Dict.{Dict, lookup, insert, at_key}
use device_mounter.Api.{
  GoError, mounter_error, not_found_error, other_error, Result, ok, err, Pod, OwnerReference,
  device_type_annotation, container_id_annotation, created_by_label, owner_name_label,
  owner_uid_label, mount_container_label,
}
use device_mounter.Controller.{Key, Metadata, Codec, MetadataCache, done, get}

abbrev pub pod_label_keys : List String
pod_label_keys = owner_name_label ∷ owner_uid_label ∷ created_by_label ∷ mount_container_label ∷ []

abbrev pub pod_anno_keys : List String
pod_anno_keys = device_type_annotation ∷ container_id_annotation ∷ []

abbrev pub is_nil : Dict String → Bool
is_nil [] = true
is_nil (e ∷ m) = false

-- One key in the loop of `comparableKeys`, with its old value.
abbrev pub note : Dict String → Dict String → String → Option String → Dict String
note new result key none = result
note new result key (some val) =
    if is_nil new || not (eqs (at_key key new) val) then insert key val result else result

-- The loop of `comparableKeys`.
unfoldable pub compare_loop : Dict String → Dict String → Dict String → List String → Dict String
compare_loop old new result [] = result
compare_loop old new result (key ∷ keys) =
    compare_loop old new (note new result key (lookup key old)) keys

-- `comparableKeys`
abbrev pub comparable_keys : Dict String → Dict String → Dict String → List String → Dict String
comparable_keys [] new result keys = result
comparable_keys (e ∷ old) new result keys = compare_loop (e ∷ old) new result keys

-- The loop of `CopyMap`. A source has each key once, so the order does not matter.
unfoldable pub copy_all : Dict String → Dict String → Dict String
copy_all [] dst = dst
copy_all ((k, v) ∷ src) dst = insert k v (copy_all src dst)

-- `CopyMap`: none is the panic of a write to a nil map.
unfoldable pub copy_map : Dict String → Dict String → Option (Dict String)
unfolding copy_all
copy_map [] dst = some dst
copy_map (e ∷ src) [] = none
copy_map (e ∷ src) (d ∷ dst) = some (copy_all (e ∷ src) (d ∷ dst))

abbrev pub same_value : Option String → Option String → Bool
same_value none none = true
same_value none (some w) = false
same_value (some v) none = false
same_value (some v) (some w) = eqs v w

abbrev pub agrees : Dict String → Dict String → String × String → Bool
agrees a b (k, v) = same_value (lookup k a) (lookup k b)

-- `reflect.DeepEqual` on maps.
unfoldable pub same_map : Dict String → Dict String → Bool
same_map a b = every (agrees a b) a && every (agrees a b) b

abbrev pub same_flag : Bool → Bool → Bool
same_flag true b = b
same_flag false b = not b

-- `reflect.DeepEqual` on owner references.
unfoldable pub same_owners : List OwnerReference → List OwnerReference → Bool
same_owners [] [] = true
same_owners [] (y ∷ ys) = false
same_owners (x ∷ xs) [] = false
same_owners (x ∷ xs) (y ∷ ys) =
    (eqs x.name y.name && (eqs x.uid y.uid && same_flag x.controller y.controller))
    && same_owners xs ys

-- `reflect.DeepEqual` on the metadata of a pod and of its repaired copy.
abbrev pub same_meta : Pod → Pod → Bool
same_meta old new =
    same_map old.labels new.labels
    && (same_map old.annotations new.annotations
        && same_owners old.owner_references new.owner_references)

-- How the handler ends: its result is always the zero result.
pub data Outcome : Type 0 where
  panicked : Outcome
  returned : Option GoError → Outcome

abbrev pub fixed_owners : List OwnerReference → List OwnerReference → List OwnerReference
fixed_owners [] owners = owners
fixed_owners (o ∷ wanted) owners = o ∷ wanted

abbrev pub with_annotations : Pod → Metadata → Dict String → Option (Dict String) → Option Pod
with_annotations pod metadata labels none = none
with_annotations pod metadata labels (some annotations) = some (record pod {
  labels = labels;
  annotations = annotations;
  owner_references = fixed_owners metadata.owner_references pod.owner_references;
})

abbrev pub with_labels : Pod → Metadata → Option (Dict String) → Option Pod
with_labels pod metadata none = none
with_labels pod metadata (some labels) = with_annotations pod metadata labels (
    copy_map (comparable_keys metadata.annotations pod.annotations [] pod_anno_keys)
      pod.annotations)

-- The repaired copy of the pod; none is a panic.
unfoldable pub fixed_pod : Pod → Metadata → Option Pod
fixed_pod pod metadata =
    with_labels pod metadata
      (copy_map (comparable_keys metadata.labels pod.labels [] pod_label_keys) pod.labels)

-- The API server as one run of the handler sees it.
pub record PodApi : Type 0 where
  pub get_pod : Key → Result Pod
  pub patch_data : Pod → Pod → Result String
  pub patch : Key → String → Option GoError

-- What one run of the handler leaves: the pod that it has sent as a patch, if any.
pub record Handling : Type 0 where
  pub outcome : Outcome
  pub cache : MetadataCache
  pub sent : Option Pod

module _ (codec : Codec) (api : PodApi) where
  abbrev pub after_patch : Option GoError → Outcome
  after_patch none = returned none
  after_patch (some (not_found_error m)) = returned none
  after_patch (some (mounter_error code m)) = returned (some (mounter_error code m))
  after_patch (some (other_error m)) = returned (some (other_error m))

  abbrev pub on_data : Key → Pod → Result String → Outcome × Option Pod
  on_data key new (err e) = (returned (some e), none)
  on_data key new (ok data_bytes) = (after_patch (api.patch key data_bytes), some new)

  abbrev pub send_if_changed : Key → Pod → Option Pod → Outcome × Option Pod
  send_if_changed key pod none = (panicked, none)
  send_if_changed key pod (some new) =
      if same_meta pod new then (returned none, none) else on_data key new (api.patch_data pod new)

  -- The deferred function: a panic leaves the error nil, as a success does.
  abbrev pub after_fix : MetadataCache → Key → Metadata → Outcome × Option Pod → Handling
  after_fix cache key metadata (returned (some e), sent) = record {
    outcome = returned (some e);
    cache = cache;
    sent = sent;
  }
  after_fix cache key metadata (returned none, sent) = record {
    outcome = returned none;
    cache = done codec cache key metadata;
    sent = sent;
  }
  after_fix cache key metadata (panicked, sent) = record {
    outcome = panicked;
    cache = done codec cache key metadata;
    sent = sent;
  }

  abbrev pub on_metadata : MetadataCache → Key → Pod → Metadata × Bool → Handling
  on_metadata cache key pod (metadata, false) = record {
    outcome = returned none;
    cache = cache;
    sent = none;
  }
  on_metadata cache key pod (metadata, true) =
      after_fix cache key metadata (send_if_changed key pod (fixed_pod pod metadata))

  abbrev pub on_pod : MetadataCache → Key → Result Pod → Handling
  on_pod cache key (err (not_found_error m)) = record {
    outcome = returned none;
    cache = cache;
    sent = none;
  }
  on_pod cache key (err (mounter_error code m)) = record {
    outcome = returned (some (mounter_error code m));
    cache = cache;
    sent = none;
  }
  on_pod cache key (err (other_error m)) = record {
    outcome = returned (some (other_error m));
    cache = cache;
    sent = none;
  }
  on_pod cache key (ok pod) =
      if pod.deletion_timestamp
      then record { outcome = returned none; cache = cache; sent = none }
      else on_metadata cache key pod (get codec cache key)

  -- `handleMetadataFix`
  unfoldable pub handle_metadata_fix : MetadataCache → Key → Handling
  handle_metadata_fix cache key = on_pod cache key (api.get_pod key)
