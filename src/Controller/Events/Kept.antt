-- ===== src/Controller/Events/Kept.antt =====
-- From a change that OnUpdate sees to the repair (pkg/controller/pod_controller.go), and the pods of
-- the mount handler that OnAdd takes.
use device_mounter.Base.{
  String, Bool, true, false, not, ◌&&◌, ◌||◌, Option, none, some, List, [], ◌∷◌, ◌≡◌, refl, ◌∙◌,
  sym, ap, arith, eqs, eqs→eq, eqs_refl, contains, every, Bool-cases, ◌⊎◌, inl, inr, if◌then◌else◌,
}
use mathlib.Core.Path.{subst}
use mathlib.Core.Option.{some-injective}
use device_mounter.Controller.Repair.{PodApi, handle_metadata_fix}
use device_mounter.Controller.Repair.Settled.{handle_metadata_fix-repairs}
use device_mounter.Base.Dict.{Dict, lookup, at_key}
use device_mounter.Api.{Pod, ok, err}
use device_mounter.Controller.{Key, Metadata, Codec, MetadataCache, set, get, key_string}
use device_mounter.Controller.Cache.{get-set}
use device_mounter.Controller.Repair.{pod_label_keys, is_nil, same_value, agrees, same_map}
use device_mounter.Controller.Repair.Fixed.{repaired}
use device_mounter.Controller.Events.{
  pod_key, changed_metadata, unless_same, is_empty, metadata_fix_enqueue, on_update,
}

same_value→eq : (a b : Option String) → same_value a b ≡ true → a ≡ b
same_value→eq none none h = refl
same_value→eq none (some w) h = absurd (ground arith)
same_value→eq (some v) none h = absurd (ground arith)
same_value→eq (some v) (some w) h = ap some (eqs→eq v w h)

both : (a b : Bool) → (a && b) ≡ true → (a ≡ true) × (b ≡ true)
both a b h = (ground arith, ground arith)

-- Maps that agree on the keys of one have the same value at each of these keys.
agrees-lookup :
    (a b c : Dict String) (k v : String)
    → every (agrees a b) c ≡ true
    → lookup k c ≡ some v
    → lookup k a ≡ lookup k b
unfolding lookup
agrees-lookup a b [] k v h e = absurd (ground arith)
agrees-lookup a b ((j, w) ∷ c) k v h e =
    let (here, rest) = both (agrees a b (j, w)) (every (agrees a b) c) h in
    elim (Bool-cases (eqs k j)) as (λ _. lookup k a ≡ lookup k b) [
      | inl same ↦
          subst (λ x. lookup x a ≡ lookup x b) (sym (eqs→eq k j same))
            (same_value→eq (lookup j a) (lookup j b) here)
      | inr differ ↦ agrees-lookup a b c k v rest (sym (rw differ refl) ∙ e)
    ]

-- A label of the old pod is among the labels kept, or the new pod has the same labels.
unless_same-lookup :
    (old new : Dict String) (k v : String)
    → lookup k old ≡ some v
    → (lookup k (unless_same (same_map old new) old) ≡ some v)
      ⊎ ((unless_same (same_map old new) old ≡ []) × (lookup k new ≡ some v))
unfolding same_map
unless_same-lookup old new k v e = elim (Bool-cases (same_map old new)) [
  | inl same ↦ inr (
    rw same refl,
    sym (
          agrees-lookup old new old k v
            (both (every (agrees old new) old) (every (agrees old new) new) same).0 e)
        ∙ e,
  )
  | inr differ ↦ inl (rw differ e)
]

abbrev or_empty : Option String → String
or_empty o = elim o [ none ↦ "" | some x ↦ x ]

chosen :
    (nil : Bool) (o : Option String) (v : String)
    → or_empty (if nil || not (eqs (or_empty o) v) then some v else o) ≡ v
chosen true o v = refl
chosen false none v = ground arith
chosen false (some x) v = ground arith

-- A value of the old pod that a repair of the new one settles.
repaired-old_value :
    (keys : List String) (kept new : Dict String) (k v : String)
    → contains keys k ≡ true
    → (lookup k kept ≡ some v) ⊎ ((kept ≡ []) × (lookup k new ≡ some v))
    → or_empty (repaired keys kept new k) ≡ v
unfolding lookup
repaired-old_value keys kept new k v among (inl was) =
    rw (among, was) (chosen (is_nil new) (lookup k new) v)
repaired-old_value keys kept new k v among (inr (bare, there)) = rw (among, bare, there) refl

ok-injective : (a b : Pod) → ok a ≡ ok b → a ≡ b
ok-injective a b h = ap (λ r. elim r [ ok p ↦ p | err e ↦ a ]) h

module _ (codec : Codec) where
  enqueue-some :
      (b : Bool) (cache cache' : MetadataCache) (queued : Key) (rest : MetadataCache × Option Key)
      → (if b then (cache, none) else rest) ≡ (cache', some queued)
      → rest ≡ (cache', some queued)
  enqueue-some true cache cache' queued rest e = absurd (ground arith)
  enqueue-some false cache cache' queued rest e = e

  on_update-some :
      (cache cache' : MetadataCache) (old new : Pod) (queued : Key)
      → on_update codec cache (some old) (some new) ≡ (cache', some queued)
      → (set codec cache (pod_key old) (changed_metadata old new) ≡ cache') × (pod_key old ≡ queued)
  unfolding on_update metadata_fix_enqueue
  on_update-some cache cache' old new queued e =
      let found = enqueue-some (is_empty (changed_metadata old new)) cache cache' queued _ (
        enqueue-some (eqs old.resource_version new.resource_version) cache cache' queued _ (
          enqueue-some (is_nil old.annotations) cache cache' queued _
            (enqueue-some (is_nil old.labels) cache cache' queued _ e))) in
      (ap (λ r. r.0) found, some-injective _ _ (ap (λ r. r.1) found))

  -- What is read behind the change, if the entry is the first for its key.
  on_update-get :
      (cache cache' : MetadataCache) (old new : Pod) (queued : Key)
      → codec.unmarshal (codec.marshal (changed_metadata old new)) ≡ changed_metadata old new
      → lookup (key_string (pod_key old)) cache.texts ≡ none
      → on_update codec cache (some old) (some new) ≡ (cache', some queued)
      → get codec cache' queued ≡ (changed_metadata old new, true)
  on_update-get cache cache' old new queued decodes first e =
      let (same, key) = on_update-some cache cache' old new queued e in
      subst (λ (q : Key). get codec cache' q ≡ (changed_metadata old new, true)) key
        (subst (λ (c : MetadataCache). get codec c (pod_key old) ≡ (changed_metadata old new, true))
          same
          (get-set codec cache (pod_key old) (pod_key old) (changed_metadata old new)
            ∙ rw (eqs_refl (key_string (pod_key old)), first, decodes) refl))

  -- An update of a pod for whose key nothing is cached, whose changed parts are decoded as they were
  -- before they were encoded: if the update is queued, and a run for the queued key finds the pod as
  -- updated and sends a pod, then a protected label of the old pod has its old value in the pod that
  -- is sent.
  pub on_update-restored :
      (api : PodApi) (cache cache' : MetadataCache) (old new sent : Pod) (queued : Key)
      (k v : String)
      → codec.unmarshal (codec.marshal (changed_metadata old new)) ≡ changed_metadata old new
      → lookup (key_string (pod_key old)) cache.texts ≡ none
      → on_update codec cache (some old) (some new) ≡ (cache', some queued)
      → api.get_pod queued ≡ ok new
      → (handle_metadata_fix codec api cache' queued).sent ≡ some sent
      → contains pod_label_keys k ≡ true
      → lookup k old.labels ≡ some v
      → at_key k sent.labels ≡ v
  unfolding changed_metadata
  on_update-restored api cache cache' old new sent queued k v decodes first queue found sends among
        was =
      let (from, values) = handle_metadata_fix-repairs codec api cache' queued sent sends in
      let metadata : from.metadata ≡ changed_metadata old new =
        ap (λ r. r.0)
          (sym from.cached ∙ on_update-get cache cache' old new queued decodes first queue) in
      let pod : from.pod ≡ new = ok-injective from.pod new (sym from.found ∙ found) in
      let value : lookup k sent.labels
          ≡ repaired pod_label_keys (changed_metadata old new).labels new.labels k =
        (values k).0
        ∙ ap (λ (m : Metadata). repaired pod_label_keys m.labels from.pod.labels k) metadata
        ∙ ap (λ (p : Pod). repaired pod_label_keys (changed_metadata old new).labels p.labels k)
            pod in
      ap or_empty value
      ∙ repaired-old_value pod_label_keys (changed_metadata old new).labels new.labels k v among
          (unless_same-lookup old.labels new.labels k v was)
