-- ===== src/NodeLabeller/Keys.antt =====
-- Which keys pkg/watchdog/node_labeller.go adds, removes and replaces.
use device_mounter.Base.{
  String, Bool, true, false, not, ◌&&◌, none, some, List, [], ◌∷◌, ◌≡◌, refl, ap, ◌∙◌, Bool-cases,
  inl, inr, arith, contains, All, if◌then◌else◌,
}
use device_mounter.Base.Dict.{Dict, lookup, has_key}
use device_mounter.NodeLabeller.{
  has_prefix, type_key, contains_device_types, label_keys, remove_keys, is_true, add_keys,
  replace_keys,
}
use device_mounter.NodeLabeller.JsonPatch.{IsKey, HasUniqueKeys, IsDistinct, present-set}

module _ (to_lower : String → String) (types : List String) where
  -- A key with the prefix that the node has.
  abbrev pub listed : String → Dict String → Bool
  listed j labels = has_prefix j && has_key j labels

  pub contains-label_keys :
      (j : String) (labels : Dict String)
      → contains (label_keys to_lower types labels) j ≡ listed j labels
  unfolding label_keys lookup
  contains-label_keys j [] = ground arith
  contains-label_keys j ((key, value) ∷ labels) = ground (arith, contains-label_keys j labels)

  pub contains-remove_keys :
      (j : String) (labels : Dict String)
      → contains (remove_keys to_lower types labels) j
        ≡ (listed j labels && not (contains_device_types to_lower types types j))
  unfolding remove_keys lookup
  contains-remove_keys j [] = ground arith
  contains-remove_keys j ((key, value) ∷ labels) = ground (arith, contains-remove_keys j labels)

  abbrev pub typed : List String → String → Bool
  typed rest j = contains_device_types to_lower types rest j

  pub contains-add_keys :
      (j : String) (labels : Dict String) (rest : List String)
      → contains (add_keys to_lower types labels rest) j
        ≡ (typed rest j && not (contains (label_keys to_lower types labels) j))
  unfolding add_keys contains_device_types
  contains-add_keys j labels [] = refl
  contains-add_keys j labels (dev_type ∷ rest) = ground (arith, contains-add_keys j labels rest)

  pub contains-replace_keys :
      (j : String) (labels : Dict String) (rest : List String)
      → contains (replace_keys to_lower types labels rest) j ≡ (
          typed rest j
          && (contains (label_keys to_lower types labels) j
              && not (is_true to_lower types (lookup j labels))))
  unfolding replace_keys contains_device_types
  contains-replace_keys j labels [] = refl
  contains-replace_keys j labels (dev_type ∷ rest) =
      ground (arith, contains-replace_keys j labels rest)

  -- The key of a type has the prefix of the mounter, and is a key of a label.
  abbrev pub IsTypeKey : String → Type 0
  IsTypeKey dev_type =
      (has_prefix (type_key to_lower types dev_type) ≡ true)
      × IsKey (type_key to_lower types dev_type)

  pub typed_prefix :
      (j : String) (rest : List String)
      → All IsTypeKey rest
      → typed rest j ≡ true
      → has_prefix j ≡ true
  unfolding contains_device_types
  typed_prefix j [] h t = absurd (ground arith)
  typed_prefix j (dev_type ∷ rest) h t = ground (arith, typed_prefix j rest h.1)

  pub add_keys-All :
      (labels : Dict String) (rest : List String)
      → All IsTypeKey rest
      → All IsKey (add_keys to_lower types labels rest)
  unfolding add_keys
  add_keys-All labels [] h = tt
  add_keys-All labels (dev_type ∷ rest) h =
      elim (Bool-cases
        (contains (label_keys to_lower types labels) (type_key to_lower types dev_type))) [
          | inl there ↦ rw there (add_keys-All labels rest h.1)
          | inr absent ↦ rw absent (h.0.1, add_keys-All labels rest h.1)
        ]

  pub replace_keys-All :
      (labels : Dict String) (rest : List String)
      → All IsTypeKey rest
      → All IsKey (replace_keys to_lower types labels rest)
  unfolding replace_keys
  replace_keys-All labels [] h = tt
  replace_keys-All labels (dev_type ∷ rest) h =
      by_tests (contains (label_keys to_lower types labels) (type_key to_lower types dev_type))
        (is_true to_lower types (lookup (type_key to_lower types dev_type) labels))
        (replace_keys-All labels rest h.1)
    where
      by_tests :
          (there set : Bool)
          → All IsKey (replace_keys to_lower types labels rest)
          → All IsKey (
              if there
              then (if set
                  then replace_keys to_lower types labels rest
                  else type_key to_lower types dev_type ∷ replace_keys to_lower types labels rest)
              else replace_keys to_lower types labels rest)
      by_tests true true k = k
      by_tests true false k = (h.0.1, k)
      by_tests false set k = k

  pub remove_keys-All :
      (labels : Dict String)
      → All (λ (key, value). IsKey key) labels
      → All IsKey (remove_keys to_lower types labels)
  unfolding remove_keys
  remove_keys-All [] h = tt
  remove_keys-All ((key, value) ∷ labels) h =
      by_tests (has_prefix key) (contains_device_types to_lower types types key)
        (remove_keys-All labels h.1)
    where
      by_tests :
          (prefixed of_type : Bool)
          → All IsKey (remove_keys to_lower types labels)
          → All IsKey (
              if prefixed
              then (if of_type
                  then remove_keys to_lower types labels
                  else key ∷ remove_keys to_lower types labels)
              else remove_keys to_lower types labels)
      by_tests true true k = k
      by_tests true false k = (h.0, k)
      by_tests false of_type k = k

  pub remove_keys-IsDistinct :
      (labels : Dict String) → HasUniqueKeys labels → IsDistinct (remove_keys to_lower types labels)
  unfolding remove_keys
  remove_keys-IsDistinct [] h = tt
  remove_keys-IsDistinct ((key, value) ∷ labels) h =
      by_tests (has_prefix key) (contains_device_types to_lower types types key)
        (ground (arith, contains-remove_keys key labels, h.0)) (remove_keys-IsDistinct labels h.1)
    where
      by_tests :
          (prefixed of_type : Bool)
          → contains (remove_keys to_lower types labels) key ≡ false
          → IsDistinct (remove_keys to_lower types labels)
          → IsDistinct (
              if prefixed
              then (if of_type
                  then remove_keys to_lower types labels
                  else key ∷ remove_keys to_lower types labels)
              else remove_keys to_lower types labels)
      by_tests true true absent k = k
      by_tests true false absent k = (absent, k)
      by_tests false of_type absent k = k

  -- What the first two kinds of operations leave of the keys that the third replaces.
  pub replaced_present :
      (j : String) (labels added removed : Dict String)
      → lookup j added ≡ (
          if contains (add_keys to_lower types labels types) j
          then some "true"
          else lookup j labels)
      → lookup j removed
        ≡ (if contains (remove_keys to_lower types labels) j then none else lookup j added)
      → contains (replace_keys to_lower types labels types) j ≡ true
      → has_key j removed ≡ true
  replaced_present j labels added removed looked looked' there =
      let kept : contains (remove_keys to_lower types labels) j ≡ false = ground (
        arith,
        there,
        contains-replace_keys j labels types,
        contains-label_keys j labels,
        contains-remove_keys j labels,
      ) in
      let known : has_key j labels ≡ true =
        ground (arith, there, contains-replace_keys j labels types, contains-label_keys j labels) in
      ap (λ o. elim o [ none ↦ false | some x ↦ true ]) looked'
      ∙ rw kept (
          present-set (contains (add_keys to_lower types labels types) j) j "true" labels added
            looked known)
