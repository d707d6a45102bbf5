-- ===== src/NodeLabeller.antt =====
-- pkg/watchdog/node_labeller.go: the labels of the node that name the device types of the mounter.
pub mod JsonPatch
pub mod Keys
pub mod Converges
mod Tests
use device_mounter.Base.{
  ℕ, String, ◌<>◌, Bool, true, false, not, ◌||◌, ◌==◌, Option, none, some, List, [], ◌∷◌, ◌++◌, eqs,
  contains, if◌then◌else◌,
}
use device_mounter.Base.Dict.{Dict, lookup}
use device_mounter.Base.Split.{strip_prefix}
use device_mounter.Api.{GoError, Result, ok, err}
use Prim.Native.Char.{code}

abbrev pub scheduling_label_prefix : String
scheduling_label_prefix = "scheduling.device-mounter.io"

-- `jsonpatch.Operation` with its path.
pub data Operation : Type 0 where
  add replace : String → String → Operation
  remove : String → Operation

-- `strings.ReplaceAll(key, "/", "~1")`
unfoldable pub escape : String → String
escape String.[] = ""
escape (String.◌∷◌ c s) =
    let rest = escape s in if code c == b'/' then "~1" <> rest else String.◌∷◌ c rest

abbrev pub label_path : String → String
label_path key = "/metadata/labels/" <> escape key

-- `strings.HasPrefix(labelKey, SchedulingLabelPrefix)`
unfoldable pub has_prefix : String → Bool
has_prefix key = elim (strip_prefix key scheduling_label_prefix) [ none ↦ false | some rest ↦ true ]

-- The loop of `cleanupLabels` over the labels of the node.
unfoldable pub cleanup_patches : Dict String → List Operation
cleanup_patches [] = []
cleanup_patches ((key, value) ∷ labels) =
    let rest = cleanup_patches labels in
    if has_prefix key then remove (label_path key) ∷ rest else rest

-- The patch is sent if there is an operation.
abbrev pub patched : (List Operation → Option GoError) → List Operation → Option GoError
patched patch [] = none
patched patch (op ∷ ops) = patch (op ∷ ops)

-- `cleanupLabels` for the answer of the lister and the call of `Patch`.
unfoldable pub cleanup_labels :
    Result (Dict String) → (List Operation → Option GoError) → Option GoError
unfolding cleanup_patches
cleanup_labels (err e) patch = some e
cleanup_labels (ok labels) patch = patched patch (cleanup_patches labels)

-- `strings.ToLower`, and the types of the registered plugins.
module _ (to_lower : String → String) (types : List String) where
  abbrev pub type_key : String → String
  type_key dev_type = to_lower (scheduling_label_prefix <> ("/" <> dev_type))

  -- `ContainsDeviceTypes`
  unfoldable pub contains_device_types : List String → String → Bool
  contains_device_types [] key = false
  contains_device_types (dev_type ∷ rest) key =
      eqs key (type_key dev_type) || contains_device_types rest key

  -- The first loop of `updateLabels`: the keys with the prefix, and those of them to remove.
  unfoldable pub label_keys : Dict String → List String
  label_keys [] = []
  label_keys ((key, value) ∷ labels) =
      let rest = label_keys labels in if has_prefix key then key ∷ rest else rest

  unfoldable pub remove_keys : Dict String → List String
  unfolding contains_device_types
  remove_keys [] = []
  remove_keys ((key, value) ∷ labels) =
      let rest = remove_keys labels in
      if has_prefix key then if contains_device_types types key then rest else key ∷ rest else rest

  abbrev pub is_true : Option String → Bool
  is_true none = false
  is_true (some value) = eqs value "true"

  -- The second loop: the keys of the types to add, and those to replace.
  unfoldable pub add_keys : Dict String → List String → List String
  unfolding label_keys
  add_keys labels [] = []
  add_keys labels (dev_type ∷ rest) =
      let keys = add_keys labels rest in
      if contains (label_keys labels) (type_key dev_type) then keys else type_key dev_type ∷ keys

  unfoldable pub replace_keys : Dict String → List String → List String
  unfolding label_keys
  replace_keys labels [] = []
  replace_keys labels (dev_type ∷ rest) =
      let keys = replace_keys labels rest in
      if contains (label_keys labels) (type_key dev_type)
      then if is_true (lookup (type_key dev_type) labels) then keys else type_key dev_type ∷ keys
      else keys

  abbrev pub operations : (String → Operation) → List String → List Operation
  operations make [] = []
  operations make (key ∷ keys) = make (label_path key) ∷ operations make keys

  -- The operations of `updateLabels`
  unfoldable pub update_patches : Dict String → List Operation
  unfolding add_keys remove_keys replace_keys
  update_patches labels =
      operations (λ path. add path "true") (add_keys labels types)
      ++ (operations remove (remove_keys labels)
          ++ operations (λ path. replace path "true") (replace_keys labels types))

  -- `updateLabels`
  unfoldable pub update_labels :
      Result (Dict String) → (List Operation → Option GoError) → Option GoError
  unfolding update_patches
  update_labels (err e) patch = some e
  update_labels (ok labels) patch = patched patch (update_patches labels)
