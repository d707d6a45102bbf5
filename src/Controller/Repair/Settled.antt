-- ===== src/Controller/Repair/Settled.antt =====
-- handleMetadataFix (pkg/controller/pod_controller.go): what is sent, when the cached metadata are
-- given up, and that the repair ends.
use device_mounter.Base.{
  String, Bool, true, false, Option, none, some, [], ◌∷◌, ◌≡◌, refl, ◌∙◌, ap, arith, contains, eqs,
  eqs_refl, if◌then◌else◌,
}
use device_mounter.Base.Dict.{Dict, lookup, lookup-erase}
use device_mounter.Api.{GoError, mounter_error, not_found_error, other_error, Result, ok, err, Pod}
use device_mounter.Controller.{Key, Metadata, key_string, Codec, MetadataCache, done, get, loaded}
use device_mounter.Controller.Repair.{
  pod_label_keys, pod_anno_keys, comparable_keys, copy_map, fixed_pod, Outcome, panicked, returned,
  PodApi, Handling, send_if_changed, after_fix, on_metadata, on_pod, handle_metadata_fix,
  with_labels,
}
use device_mounter.Controller.Repair.Fixed.{
  repaired, fixed_pod-IsFixed, fixed_pod-repaired, lookup-comparable_keys,
}
use device_mounter.Controller.Repair.Handled.{IsSent, handle_metadata_fix-IsSent, fixed_again}

module _ (codec : Codec) (api : PodApi) where
  pub handle_metadata_fix-live :
      (cache : MetadataCache) (key : Key) (pod : Pod) (metadata : Metadata)
      → api.get_pod key ≡ ok pod
      → pod.deletion_timestamp ≡ false
      → get codec cache key ≡ (metadata, true)
      → handle_metadata_fix codec api cache key
        ≡ after_fix codec api cache key metadata
            (send_if_changed codec api key pod (fixed_pod pod metadata))
  unfolding handle_metadata_fix
  handle_metadata_fix-live cache key pod metadata found live cached = rw (found, live, cached) refl

module _ (codec : Codec) (api : PodApi) where
  -- A run that ends with an error leaves the cache as it was.
  pub handle_metadata_fix-failed :
      (cache : MetadataCache) (key : Key) (e : GoError)
      → (handle_metadata_fix codec api cache key).outcome ≡ returned (some e)
      → (handle_metadata_fix codec api cache key).cache ≡ cache
  unfolding handle_metadata_fix
  handle_metadata_fix-failed cache key e h = on_pod-failed (api.get_pod key) h
    where
      fix-failed :
          (metadata : Metadata) (end : Outcome × Option Pod)
          → (after_fix codec api cache key metadata end).outcome ≡ returned (some e)
          → (after_fix codec api cache key metadata end).cache ≡ cache
      fix-failed metadata (panicked, sent) h = absurd (ground arith)
      fix-failed metadata (returned none, sent) h = absurd (ground arith)
      fix-failed metadata (returned (some e), sent) h = refl

      metadata-failed :
          (pod : Pod) (cached : Metadata × Bool)
          → (on_metadata codec api cache key pod cached).outcome ≡ returned (some e)
          → (on_metadata codec api cache key pod cached).cache ≡ cache
      metadata-failed pod (metadata, false) h = refl
      metadata-failed pod (metadata, true) h =
          fix-failed metadata (send_if_changed codec api key pod (fixed_pod pod metadata)) h

      either :
          (dying : Bool) (later : Handling)
          → (later.outcome ≡ returned (some e) → later.cache ≡ cache)
          → (if dying
              then record { outcome = returned none; cache = cache; sent = none }
              else later).outcome
            ≡ returned (some e)
          → (if dying
              then record { outcome = returned none; cache = cache; sent = none }
              else later).cache
            ≡ cache
      either true later go h = refl
      either false later go h = go h

      on_pod-failed :
          (found : Result Pod)
          → (on_pod codec api cache key found).outcome ≡ returned (some e)
          → (on_pod codec api cache key found).cache ≡ cache
      on_pod-failed (err (not_found_error m)) h = refl
      on_pod-failed (err (mounter_error code m)) h = refl
      on_pod-failed (err (other_error m)) h = refl
      on_pod-failed (ok pod) h =
          either pod.deletion_timestamp (on_metadata codec api cache key pod (get codec cache key))
            (metadata-failed pod (get codec cache key)) h

  -- What the cache keeps under its texts behind `Done` with the data as they are stored.
  lookup-done :
      (cache : MetadataCache) (key : Key) (metadata : Metadata) (j : String)
      → lookup (key_string key) cache.texts ≡ some (codec.marshal metadata)
      → lookup j (done codec cache key metadata).texts
        ≡ (if eqs j (key_string key) then none else lookup j cache.texts)
  unfolding done
  lookup-done cache key metadata j stored =
      rw (stored, eqs_refl (codec.marshal metadata)) (lookup-erase j (key_string key) cache.texts)

  -- A pod that is not marked for deletion and has lost all its labels, where the cache has the
  -- encoding of metadata with a protected label, which is decoded as encoded: the run panics, sends
  -- nothing, and the cached metadata of this key are gone, while all others are kept.
  pub handle_metadata_fix-panics :
      (cache : MetadataCache) (key : Key) (pod : Pod) (metadata : Metadata) (k v : String)
      → api.get_pod key ≡ ok pod
      → pod.deletion_timestamp ≡ false
      → lookup (key_string key) cache.texts ≡ some (codec.marshal metadata)
      → codec.unmarshal (codec.marshal metadata) ≡ metadata
      → pod.labels ≡ []
      → contains pod_label_keys k ≡ true
      → lookup k metadata.labels ≡ some v
      → let handling = handle_metadata_fix codec api cache key in
        (handling.outcome ≡ panicked)
        × (handling.sent ≡ none)
        × ((j : String)
            → lookup j handling.cache.texts
              ≡ (if eqs j (key_string key) then none else lookup j cache.texts))
  unfolding fixed_pod copy_map lookup get
  handle_metadata_fix-panics cache key pod metadata k v found live stored decoded bare among kept =
      let missing : lookup k (comparable_keys metadata.labels [] [] pod_label_keys) ≡ some v =
        lookup-comparable_keys metadata.labels [] pod_label_keys k ∙ rw (among, kept) refl in
      let panic : copy_map (comparable_keys metadata.labels pod.labels [] pod_label_keys) pod.labels
          ≡ none =
        rw bare (not_copied (comparable_keys metadata.labels [] [] pod_label_keys) missing) in
      let fixed : fixed_pod pod metadata ≡ none = ap (with_labels pod metadata) panic in
      let cached : get codec cache key ≡ (metadata, true) =
        ap (loaded codec) stored ∙ ap (λ m. (m, true)) decoded in
      let e : handle_metadata_fix codec api cache key
          ≡ record { outcome = panicked; cache = done codec cache key metadata; sent = none } =
        handle_metadata_fix-live codec api cache key pod metadata found live cached
        ∙ ap (λ o. after_fix codec api cache key metadata (send_if_changed codec api key pod o))
            fixed in
      (
        ap (λ (h : Handling). h.outcome) e,
        ap (λ (h : Handling). h.sent) e,
        λ j.
            ap (λ (h : Handling). lookup j h.cache.texts) e
            ∙ lookup-done cache key metadata j stored,
      )
    where
      not_copied : (src : Dict String) → lookup k src ≡ some v → copy_map src [] ≡ none
      not_copied [] e = absurd (ground arith)
      not_copied (x ∷ src) e = refl

  -- If a run has sent a pod, and a later run, with the same cached metadata, finds the pod as it
  -- was sent, the later run ends without an error and sends nothing.
  pub handle_metadata_fix-settles :
      (later : PodApi) (cache cache' : MetadataCache) (key : Key) (new : Pod)
      → (handle_metadata_fix codec api cache key).sent ≡ some new
      → later.get_pod key ≡ ok new
      → new.deletion_timestamp ≡ false
      → get codec cache' key ≡ get codec cache key
      → ((handle_metadata_fix codec later cache' key).outcome ≡ returned none)
        × ((handle_metadata_fix codec later cache' key).sent ≡ none)
  handle_metadata_fix-settles later cache cache' key new sent found live same =
      let from = handle_metadata_fix-IsSent codec api cache key new sent in
      let (again, fixed, equal) =
        fixed_again from.pod from.metadata new
          (fixed_pod-IsFixed from.pod from.metadata new from.fixed) in
      let e : handle_metadata_fix codec later cache' key ≡ record {
        outcome = returned none;
        cache = done codec cache' key from.metadata;
        sent = none;
      } =
        handle_metadata_fix-live codec later cache' key new from.metadata found live
          (same ∙ from.cached)
        ∙ rw (fixed, equal) refl in
      (ap (λ (h : Handling). h.outcome) e, ap (λ (h : Handling). h.sent) e)

  -- A pod that is sent for a pod found: each label and each annotation has the value that the
  -- repair gives it. A protected key has the cached value, if there is one and the pod has
  -- another or none, and else the pod's.
  pub handle_metadata_fix-repairs :
      (cache : MetadataCache) (key : Key) (new : Pod)
      → (handle_metadata_fix codec api cache key).sent ≡ some new
      → (from : IsSent codec api cache key new) × ((k : String)
          → (lookup k new.labels ≡ repaired pod_label_keys from.metadata.labels from.pod.labels k)
            × (lookup k new.annotations
                ≡ repaired pod_anno_keys from.metadata.annotations from.pod.annotations k))
  handle_metadata_fix-repairs cache key new sent =
      let from = handle_metadata_fix-IsSent codec api cache key new sent in
      (from, λ k. fixed_pod-repaired from.pod from.metadata new k from.fixed)
