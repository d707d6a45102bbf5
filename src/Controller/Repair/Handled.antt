-- ===== src/Controller/Repair/Handled.antt =====
-- What one run of handleMetadataFix (pkg/controller/pod_controller.go) leaves behind.
use device_mounter.Base.{
  String, Bool, true, false, ◌&&◌, Option, none, some, List, [], ◌∷◌, ◌≡◌, refl, ◌∙◌, sym, ap,
  arith, eqs_refl, contains, every, string_dec, Bool-cases, inl, inr,
}
use mathlib.Core.Option.{some-injective, some-ne-none}
use device_mounter.Base.Dict.{Dict, lookup}
use device_mounter.Api.{
  mounter_error, not_found_error, other_error, Result, ok, err, Pod, OwnerReference,
}
use device_mounter.Controller.{Key, Metadata, Codec, MetadataCache, get}
use device_mounter.Controller.Repair.{
  pod_label_keys, pod_anno_keys, comparable_keys, copy_map, same_flag, same_value, agrees, same_map,
  same_owners, same_meta, fixed_pod, fixed_owners, Outcome, panicked, returned, PodApi,
  send_if_changed, after_fix, on_data, on_metadata, on_pod, handle_metadata_fix,
}
use device_mounter.Controller.Repair.Fixed.{IsFixed}
use device_mounter.Controller.Repair.Kept.{IsKept, copy-IsKept, comparable_keys-kept}

same_value_refl : (o : Option String) → same_value o o ≡ true
same_value_refl none = refl
same_value_refl (some v) = eqs_refl v

agrees_refl : (a b : Dict String) → every (agrees a a) b ≡ true
agrees_refl a [] = refl
agrees_refl a ((k, v) ∷ b) = rw (same_value_refl (lookup k a), agrees_refl a b) refl

same_map_refl : (a : Dict String) → same_map a a ≡ true
unfolding same_map
same_map_refl a = rw (agrees_refl a a) refl

same_flag_refl : (b : Bool) → same_flag b b ≡ true
same_flag_refl true = refl
same_flag_refl false = refl

same_owners_refl : (o : List OwnerReference) → same_owners o o ≡ true
unfolding same_owners
same_owners_refl [] = refl
same_owners_refl (x ∷ o) =
    rw (eqs_refl x.name, eqs_refl x.uid, same_owners_refl o)
      (ap (λ b. b && true) (same_flag_refl x.controller))

fixed_owners_twice :
    (wanted owners : List OwnerReference)
    → fixed_owners wanted (fixed_owners wanted owners) ≡ fixed_owners wanted owners
fixed_owners_twice [] owners = refl
fixed_owners_twice (o ∷ wanted) owners = refl

kept_labels :
    (old new m : Dict String)
    → copy_map (comparable_keys old new [] pod_label_keys) new ≡ some m
    → comparable_keys old m [] pod_label_keys ≡ []
unfolding string_dec
kept_labels old new m e =
    let kept : (k : String) → contains pod_label_keys k ≡ true → IsKept old m k =
      λ k among. copy-IsKept old new m pod_label_keys k among e in
    comparable_keys-kept old m pod_label_keys
      (kept _ refl, (kept _ refl, (kept _ refl, (kept _ refl, tt))))

kept_annotations :
    (old new m : Dict String)
    → copy_map (comparable_keys old new [] pod_anno_keys) new ≡ some m
    → comparable_keys old m [] pod_anno_keys ≡ []
unfolding string_dec
kept_annotations old new m e =
    let kept : (k : String) → contains pod_anno_keys k ≡ true → IsKept old m k =
      λ k among. copy-IsKept old new m pod_anno_keys k among e in
    comparable_keys-kept old m pod_anno_keys (kept _ refl, (kept _ refl, tt))

-- A repaired copy is left as it is when it is repaired again.
pub fixed_again :
    (pod : Pod) (metadata : Metadata) (new : Pod)
    → IsFixed pod metadata new
    → (again : Pod) × (fixed_pod new metadata ≡ some again) × (same_meta new again ≡ true)
unfolding fixed_pod copy_map
fixed_again pod metadata new h = (
  record new { owner_references = fixed_owners metadata.owner_references new.owner_references },
  rw
      (
        kept_labels metadata.labels pod.labels new.labels h.labels,
        kept_annotations metadata.annotations pod.annotations new.annotations h.annotations,
      )
      refl,
  rw (same_map_refl new.labels, same_map_refl new.annotations)
      (ap (same_owners new.owner_references) (
          ap (fixed_owners metadata.owner_references) h.owners
          ∙ fixed_owners_twice metadata.owner_references pod.owner_references
          ∙ sym h.owners)
        ∙ same_owners_refl new.owner_references),
)

-- Where a pod that a run has sent comes from.
pub record IsSent (codec : Codec) (api : PodApi) (cache : MetadataCache) (key : Key) (new : Pod)
    : Type 0 where
  pub pod : Pod
  pub metadata : Metadata
  pub found : api.get_pod key ≡ ok pod
  pub live : pod.deletion_timestamp ≡ false
  pub cached : get codec cache key ≡ (metadata, true)
  pub fixed : fixed_pod pod metadata ≡ some new

module _ (codec : Codec) (api : PodApi) where
  after_fix-sent :
      (cache : MetadataCache) (key : Key) (metadata : Metadata) (outcome : Outcome)
      (sent : Option Pod)
      → (after_fix codec api cache key metadata (outcome, sent)).sent ≡ sent
  after_fix-sent cache key metadata panicked sent = refl
  after_fix-sent cache key metadata (returned none) sent = refl
  after_fix-sent cache key metadata (returned (some e)) sent = refl

  on_data-sent :
      (key : Key) (p new : Pod) (data_bytes : Result String)
      → (on_data codec api key p data_bytes).1 ≡ some new
      → p ≡ new
  on_data-sent key p new (err e) h = absurd (ground arith)
  on_data-sent key p new (ok d) h = some-injective _ _ h

  send_if_changed-sent :
      (key : Key) (pod new : Pod) (fixed : Option Pod)
      → (send_if_changed codec api key pod fixed).1 ≡ some new
      → fixed ≡ some new
  send_if_changed-sent key pod new none h = absurd (ground arith)
  send_if_changed-sent key pod new (some p) h = elim (Bool-cases (same_meta pod p)) [
    | inl same ↦ absurd (some-ne-none _ (sym h ∙ rw same refl))
    | inr other ↦ ap some (on_data-sent key p new (api.patch_data pod p) (sym (rw other refl) ∙ h))
  ]

  on_metadata-IsSent :
      (cache : MetadataCache) (key : Key) (pod new : Pod) (metadata : Metadata) (b : Bool)
      → api.get_pod key ≡ ok pod
      → pod.deletion_timestamp ≡ false
      → get codec cache key ≡ (metadata, b)
      → (on_metadata codec api cache key pod (metadata, b)).sent ≡ some new
      → IsSent codec api cache key new
  on_metadata-IsSent cache key pod new metadata false found live cached h = absurd (ground arith)
  on_metadata-IsSent cache key pod new metadata true found live cached h = record {
    pod = pod;
    metadata = metadata;
    found = found;
    live = live;
    cached = cached;
    fixed = send_if_changed-sent key pod new (fixed_pod pod metadata) (
        sym (
          after_fix-sent cache key metadata
            (send_if_changed codec api key pod (fixed_pod pod metadata)).0
            (send_if_changed codec api key pod (fixed_pod pod metadata)).1)
        ∙ h);
  }

  on_pod-IsSent :
      (cache : MetadataCache) (key : Key) (new : Pod) (found : Result Pod)
      → api.get_pod key ≡ found
      → (on_pod codec api cache key found).sent ≡ some new
      → IsSent codec api cache key new
  on_pod-IsSent cache key new (err (not_found_error m)) found h = absurd (ground arith)
  on_pod-IsSent cache key new (err (mounter_error code m)) found h = absurd (ground arith)
  on_pod-IsSent cache key new (err (other_error m)) found h = absurd (ground arith)
  on_pod-IsSent cache key new (ok pod) found h = elim (Bool-cases pod.deletion_timestamp) [
    | inl dying ↦ absurd (some-ne-none _ (sym h ∙ rw dying refl))
    | inr live ↦
        on_metadata-IsSent cache key pod new (get codec cache key).0 (get codec cache key).1 found
          live refl (sym (rw live refl) ∙ h)
  ]

  pub handle_metadata_fix-IsSent :
      (cache : MetadataCache) (key : Key) (new : Pod)
      → (handle_metadata_fix codec api cache key).sent ≡ some new
      → IsSent codec api cache key new
  unfolding handle_metadata_fix
  handle_metadata_fix-IsSent cache key new h = on_pod-IsSent cache key new (api.get_pod key) refl h
