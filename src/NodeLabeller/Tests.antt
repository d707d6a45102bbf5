-- ===== src/NodeLabeller/Tests.antt =====
-- An update of a small node, by a patch that decodes the paths of its operations.
use Prim.Native.Char.{code}
use Prim.Native.String.append
use device_mounter.Base.{
  String, Bool, true, false, Option, none, some, List, [], ◌∷◌, ◌≡◌, refl, ◌==◌, string_dec,
  if◌then◌else◌,
}
use device_mounter.Base.Dict.{Dict, lookup, has_key, insert, erase}
use device_mounter.Base.Split.{strip_prefix}
use device_mounter.NodeLabeller.{
  Operation, add, replace, remove, escape, has_prefix, update_patches,
}
use device_mounter.NodeLabeller.JsonPatch.{Patching, apply_all}

-- The decoding of a path, behind a tilde or not.
unfoldable unescape : Bool → String → String
unescape tilde String.[] = ""
unescape true (String.◌∷◌ c s) = String.◌∷◌ "/" (unescape false s)
unescape false (String.◌∷◌ c s) =
    let rest = unescape true s in
    let next = unescape false s in if code c == b'~' then rest else String.◌∷◌ c next

abbrev key_in : Option String → String
key_in none = ""
key_in (some s) = unescape false s

unfoldable key_of : String → String
key_of path = key_in (strip_prefix path "/metadata/labels/")

-- `replace` and `remove` want the key that they name.
abbrev if_there : String → Dict String → Dict String → Option (Dict String)
if_there key labels labels' = if has_key key labels then some labels' else none

abbrev apply : Operation → Dict String → Option (Dict String)
apply (add path value) labels = some (insert (key_of path) value labels)
apply (replace path value) labels =
    if_there (key_of path) labels (insert (key_of path) value labels)
apply (remove path) labels = if_there (key_of path) labels (erase (key_of path) labels)

abbrev patching : Patching
patching = record { apply = apply }

abbrev same_case : String → String
same_case s = s

abbrev labels : Dict String
labels =
    ("scheduling.device-mounter.io/gpu", "false")
    ∷ ("scheduling.device-mounter.io/old", "true")
    ∷ ("zone", "a")
    ∷ []

abbrev types : List String
types = "gpu" ∷ "npu" ∷ []

-- The label of the new type, behind an accepted patch.
new_label : Option (Dict String) → Option String
new_label none = none
new_label (some m) = lookup "scheduling.device-mounter.io/npu" m

updated :
    new_label (apply_all patching (update_patches same_case types labels) labels) ≡ some "true"
unfolding update_patches has_prefix strip_prefix string_dec lookup insert erase key_of unescape
    escape new_label
updated = refl
