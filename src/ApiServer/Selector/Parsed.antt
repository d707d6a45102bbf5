-- ===== src/ApiServer/Selector/Parsed.antt =====
-- What `ParseLabelSelector` (pkg/server/apiserver/util.go) makes of a selector that is written out.
use device_mounter.Base.{String, false, [], ◌∷◌, ◌≡◌, refl, ap, ◌∙◌, map, join, All}
use device_mounter.Base.Dict.{Dict, insert}
use device_mounter.Base.Split.{split, trim_space, has_letter, split-join, has_letter-join}
use device_mounter.Base.Split.Plain.{has_space, trim_space_plain, has_space-join}
use device_mounter.ApiServer.Selector.{add_label, add_labels, parse_label_selector}

-- `key=value`
abbrev pub show_label : String × String → String
show_label (key, value) = join (key ∷ value ∷ []) "="

-- Labels one after the other, joined by commas.
abbrev pub show_labels : Dict String → String
show_labels labels = join (map show_label labels) ","

-- A text without white space, commas and equals signs.
abbrev pub IsPlain : String → Type 0
IsPlain s = (has_space s ≡ false) × (has_letter "," s ≡ false) × (has_letter "=" s ≡ false)

abbrev pub ArePlain : String × String → Type 0
ArePlain (key, value) = IsPlain key × IsPlain value

-- The entries, put into a map one after the other.
abbrev pub insert_all : Dict String → Dict String → Dict String
insert_all [] m = m
insert_all ((key, value) ∷ labels) m = insert_all labels (insert key value m)

add_label-show :
    (label : String × String) (m : Dict String)
    → ArePlain label
    → add_label (split "=" (trim_space (show_label label))) m ≡ insert label.0 label.1 m
unfolding has_letter has_space
add_label-show (key, value) m h =
    ap (λ parts. add_label parts m)
      (ap (split "=") (trim_space_plain (show_label (key, value)) spaceless)
        ∙ split-join "=" key (value ∷ []) (h.0.2, (h.1.2, tt)))
    ∙ ap (λ k. insert k (trim_space value) m) (trim_space_plain key h.0.0)
    ∙ ap (λ v. insert key v m) (trim_space_plain value h.1.0)
  where
    spaceless : has_space (show_label (key, value)) ≡ false
    spaceless = has_space-join "=" (key ∷ value ∷ []) refl (h.0.0, (h.1.0, tt))

add_labels-show :
    (labels m : Dict String)
    → All ArePlain labels
    → add_labels (map show_label labels) m ≡ insert_all labels m
unfolding add_labels
add_labels-show [] m h = refl
add_labels-show ((key, value) ∷ labels) m h =
    ap (add_labels (map show_label labels)) (add_label-show (key, value) m h.0)
    ∙ add_labels-show labels (insert key value m) h.1

entries-plain :
    (labels : Dict String)
    → All ArePlain labels
    → All (λ s. has_space s ≡ false) (map show_label labels)
      × All (λ s. has_letter "," s ≡ false) (map show_label labels)
unfolding has_space has_letter
entries-plain [] h = (tt, tt)
entries-plain ((key, value) ∷ labels) h =
    let (spaceless, no_comma) = entries-plain labels h.1 in
    (
      (has_space-join "=" (key ∷ value ∷ []) refl (h.0.0.0, (h.0.1.0, tt)), spaceless),
      (has_letter-join "," "=" (key ∷ value ∷ []) refl (h.0.0.1, (h.0.1.1, tt)), no_comma),
    )

-- A selector written as `key=value` parts with commas between them, without white space, commas or
-- equals signs in a key or a value, is parsed to these labels, the last value of a key counting.
pub parse_label_selector-show :
    (label : String × String) (labels : Dict String)
    → All ArePlain (label ∷ labels)
    → parse_label_selector (show_labels (label ∷ labels)) ≡ insert_all (label ∷ labels) []
unfolding parse_label_selector has_space
parse_label_selector-show label labels h =
    let (spaceless, no_comma) = entries-plain (label ∷ labels) h in
    ap (λ parts. add_labels parts [])
      (ap (split ",") (
          trim_space_plain (show_labels (label ∷ labels))
            (has_space-join "," (map show_label (label ∷ labels)) refl spaceless))
        ∙ split-join "," (show_label label) (map show_label labels) no_comma)
    ∙ add_labels-show (label ∷ labels) [] h
