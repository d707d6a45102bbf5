-- ===== src/Controller/Repair/Fixed.antt =====
-- The values of the repaired labels and annotations of handleMetadataFix
-- (pkg/controller/pod_controller.go).
use device_mounter.Base.{
  String, Bool, true, false, Option, none, some, List, [], ◌∷◌, ◌≡◌, refl, ◌∙◌, sym, ap, arith, eqs,
  eqs_refl, eqs→eq, contains, not, ◌||◌, if◌then◌else◌, Bool-cases, inl, inr,
}
use mathlib.Core.Path.{subst}
use mathlib.Core.Option.{some-injective}
use device_mounter.Base.Dict.{Dict, lookup, at_key, lookup-insert}
use device_mounter.Api.{Pod}
use device_mounter.Controller.{Metadata}
use device_mounter.Controller.Repair.{
  pod_label_keys, pod_anno_keys, is_nil, note, compare_loop, comparable_keys, copy_all, copy_map,
  with_annotations, with_labels, fixed_pod, fixed_owners,
}

-- The value that a key is to have: a protected key has its old value, if there is one.
abbrev pub repaired : List String → Dict String → Dict String → String → Option String
repaired keys old new k =
    if contains keys k
    then elim (lookup k old) [
      | none ↦ lookup k new
      | some v ↦ if is_nil new || not (eqs (at_key k new) v) then some v else lookup k new
    ]
    else lookup k new

abbrev noted : Dict String → Option String → Option String → String → Option String
noted new old result k = elim old [
  | none ↦ result
  | some v ↦ if is_nil new || not (eqs (at_key k new) v) then some v else result
]

lookup-note :
    (new result : Dict String) (k key : String) (old : Option String)
    → lookup k (note new result key old)
      ≡ (if eqs k key then noted new old (lookup k result) key else lookup k result)
lookup-note new result k key none = ground arith
lookup-note new result k key (some v) = ground (arith, lookup-insert k key v result)

noted_twice :
    (new : Dict String) (old result : Option String) (k : String)
    → noted new old (noted new old result k) k ≡ noted new old result k
noted_twice new none result k = refl
noted_twice new (some v) result k = ground arith

eqs_comm : (s t : String) → eqs s t ≡ eqs t s
eqs_comm s t = ground arith

-- A key noted in front of the other keys.
noted_first :
    (old new : Dict String) (key k : String) (before : Option String) (rest : Bool)
    → (if rest
        then noted new
            (lookup k old)
            (if eqs k key then noted new (lookup key old) before key else before)
            k
        else (if eqs k key then noted new (lookup key old) before key else before))
      ≡ (if eqs key k || rest then noted new (lookup k old) before k else before)
noted_first old new key k before rest = elim (Bool-cases (eqs k key)) [
  | inl same ↦
      subst
        (λ j.
          (if rest
            then noted new (lookup k old)
                (if eqs k j then noted new (lookup j old) before j else before) k
            else (if eqs k j then noted new (lookup j old) before j else before))
          ≡ (if eqs j k || rest then noted new (lookup k old) before k else before))
        (eqs→eq k key same)
        (rw (eqs_refl k) (rw (noted_twice new (lookup k old) before k) (go rest)))
  | inr other ↦ rw (other, eqs_comm key k, other) refl
]
  where
    go :
        (b : Bool)
        → (if b then noted new (lookup k old) before k else noted new (lookup k old) before k)
          ≡ noted new (lookup k old) before k
    go true = refl
    go false = refl

lookup-compare_loop :
    (old new result : Dict String) (keys : List String) (k : String)
    → lookup k (compare_loop old new result keys)
      ≡ (if contains keys k then noted new (lookup k old) (lookup k result) k else lookup k result)
unfolding compare_loop
lookup-compare_loop old new result [] k = refl
lookup-compare_loop old new result (key ∷ keys) k =
    lookup-compare_loop old new (note new result key (lookup key old)) keys k
    ∙ rw (lookup-note new result k key (lookup key old))
        (noted_first old new key k (lookup k result) (contains keys k))

pub lookup-comparable_keys :
    (old new : Dict String) (keys : List String) (k : String)
    → lookup k (comparable_keys old new [] keys)
      ≡ (if contains keys k then noted new (lookup k old) none k else none)
unfolding lookup
lookup-comparable_keys [] new keys k = ground arith
lookup-comparable_keys (e ∷ old) new keys k = lookup-compare_loop (e ∷ old) new [] keys k

abbrev over : Option String → Option String → Option String
over none below = below
over (some v) below = some v

lookup-copy_all :
    (src dst : Dict String) (k : String)
    → lookup k (copy_all src dst) ≡ over (lookup k src) (lookup k dst)
unfolding copy_all lookup
lookup-copy_all [] dst k = refl
lookup-copy_all ((j, v) ∷ src) dst k =
    lookup-insert k j v (copy_all src dst) ∙ rw (lookup-copy_all src dst k) (ground arith)

lookup-copy_map :
    (src dst m : Dict String) (k : String)
    → copy_map src dst ≡ some m
    → lookup k m ≡ over (lookup k src) (lookup k dst)
unfolding copy_map lookup
lookup-copy_map [] dst m k e = ap (lookup k) (sym (some-injective _ _ e))
lookup-copy_map (x ∷ src) [] m k e = absurd (ground arith)
lookup-copy_map (x ∷ src) (d ∷ dst) m k e =
    ap (lookup k) (sym (some-injective _ _ e)) ∙ lookup-copy_all (x ∷ src) (d ∷ dst) k

over-noted :
    (new : Dict String) (old : Option String) (k : String) (b : Bool)
    → over (if b then noted new old none k else none) (lookup k new) ≡ (
        if b
        then elim old [
          | none ↦ lookup k new
          | some v ↦ if is_nil new || not (eqs (at_key k new) v) then some v else lookup k new
        ]
        else lookup k new)
over-noted new old k false = refl
over-noted new none k true = refl
over-noted new (some v) k true = ground arith

pub lookup-repaired :
    (old new m : Dict String) (keys : List String) (k : String)
    → copy_map (comparable_keys old new [] keys) new ≡ some m
    → lookup k m ≡ repaired keys old new k
lookup-repaired old new m keys k e =
    lookup-copy_map (comparable_keys old new [] keys) new m k e
    ∙ ap (λ o. over o (lookup k new)) (lookup-comparable_keys old new keys k)
    ∙ over-noted new (lookup k old) k (contains keys k)

-- What a repaired copy consists of.
pub record IsFixed (pod : Pod) (metadata : Metadata) (new : Pod) : Type 0 where
  pub labels :
      copy_map (comparable_keys metadata.labels pod.labels [] pod_label_keys) pod.labels
      ≡ some new.labels
  pub annotations :
      copy_map
        (comparable_keys metadata.annotations pod.annotations [] pod_anno_keys)
        pod.annotations
      ≡ some new.annotations
  pub owners : new.owner_references ≡ fixed_owners metadata.owner_references pod.owner_references

with_annotations-some :
    (pod : Pod) (metadata : Metadata) (labels : Dict String) (annotations : Option (Dict String))
    (new : Pod)
    → with_annotations pod metadata labels annotations ≡ some new
    → (annotations ≡ some new.annotations)
      × ((new.labels ≡ labels)
          × (new.owner_references ≡ fixed_owners metadata.owner_references pod.owner_references))
with_annotations-some pod metadata labels none new e = absurd (ground arith)
with_annotations-some pod metadata labels (some annotations) new e =
    let same = some-injective _ _ e in
    (
      ap (λ (p : Pod). some p.annotations) same,
      (sym (ap (λ (p : Pod). p.labels) same), sym (ap (λ (p : Pod). p.owner_references) same)),
    )

with_labels-IsFixed :
    (pod : Pod) (metadata : Metadata) (labels : Option (Dict String)) (new : Pod)
    → copy_map (comparable_keys metadata.labels pod.labels [] pod_label_keys) pod.labels ≡ labels
    → with_labels pod metadata labels ≡ some new
    → IsFixed pod metadata new
with_labels-IsFixed pod metadata none new copied e = absurd (ground arith)
with_labels-IsFixed pod metadata (some labels) new copied e =
    let (annotations, (same, owners)) =
      with_annotations-some pod metadata labels
        (copy_map (comparable_keys metadata.annotations pod.annotations [] pod_anno_keys)
          pod.annotations)
        new e in
    record { labels = copied ∙ ap some (sym same); annotations = annotations; owners = owners }

pub fixed_pod-IsFixed :
    (pod : Pod) (metadata : Metadata) (new : Pod)
    → fixed_pod pod metadata ≡ some new
    → IsFixed pod metadata new
unfolding fixed_pod
fixed_pod-IsFixed pod metadata new e =
    with_labels-IsFixed pod metadata
      (copy_map (comparable_keys metadata.labels pod.labels [] pod_label_keys) pod.labels) new refl
      e

-- Each label of the repaired copy of a pod: a protected key that the kept metadata have and that the
-- pod has with another value, or not at all, has the kept value, and every other key has the
-- value of the pod. The same holds of the annotations, with their protected keys.
pub fixed_pod-repaired :
    (pod : Pod) (metadata : Metadata) (new : Pod) (k : String)
    → fixed_pod pod metadata ≡ some new
    → (lookup k new.labels ≡ repaired pod_label_keys metadata.labels pod.labels k)
      × (lookup k new.annotations ≡ repaired pod_anno_keys metadata.annotations pod.annotations k)
fixed_pod-repaired pod metadata new k e =
    let h = fixed_pod-IsFixed pod metadata new e in
    (
      lookup-repaired metadata.labels pod.labels new.labels pod_label_keys k h.labels,
      lookup-repaired metadata.annotations pod.annotations new.annotations pod_anno_keys k
          h.annotations,
    )
