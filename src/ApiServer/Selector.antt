-- ===== src/ApiServer/Selector.antt =====
-- pkg/server/apiserver/util.go: `ParseLabelSelector`.
pub mod Parsed
use device_mounter.Base.{String, List, [], ◌∷◌}
use device_mounter.Base.Dict.{Dict, insert}
use device_mounter.Base.Split.{split, trim_space}

-- The body of the loop; a part without an equals sign is passed over, and what stands behind a second
-- one is dropped.
abbrev pub add_label : List String → Dict String → Dict String
add_label [] labels = labels
add_label (part ∷ []) labels = labels
add_label (key ∷ value ∷ rest) labels = insert (trim_space key) (trim_space value) labels

unfoldable pub add_labels : List String → Dict String → Dict String
add_labels [] labels = labels
add_labels (part ∷ parts) labels = add_labels parts (add_label (split "=" (trim_space part)) labels)

-- `ParseLabelSelector`; the selector is its set of labels.
unfoldable pub parse_label_selector : String → Dict String
unfolding add_labels
parse_label_selector selector = add_labels (split "," (trim_space selector)) []
