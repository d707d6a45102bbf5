-- ===== src/Vgpu/Decoded.antt =====
-- decodePodDevices (pkg/devices/volcano/vgpu/util.go) on an annotation put together from fields.
use Prim.Native.Char.{Char}
use device_mounter.Base.{
  String, true, false, some, List, [], ◌∷◌, map, ◌≡◌, refl, ◌∙◌, ap, sym, arith, eqs, string_dec,
  ◌≢◌, All, join, Bool-cases, inl, inr, eqs→eq,
}
use device_mounter.Base.Int.{uint32}
use device_mounter.Base.Numbers.{parse_int32}
use device_mounter.Base.Split.{split, has_letter, split-join, has_letter-join, has_letter-joined}
use device_mounter.Vgpu.{
  comma, colon, semicolon, Device, device_of, decode_entries, decode_container_devices,
  decode_containers, decode_pod_devices,
}

-- The five fields of a device as they stand in the annotation.
pub record Fields : Type 0 where
  pub index : String
  pub uuid : String
  pub type : String
  pub mem : String
  pub cores : String

abbrev texts : Fields → List String
texts f = f.index ∷ f.uuid ∷ f.type ∷ f.mem ∷ f.cores ∷ []

-- A text that has none of the three separators.
abbrev pub IsPlain : String → Type 0
IsPlain s =
    (has_letter comma s ≡ false) × ((has_letter colon s ≡ false) × (has_letter semicolon s ≡ false))

abbrev pub IsClean : Fields → Type 0
IsClean f = All IsPlain (texts f)

abbrev pub show_device : Fields → String
show_device f = join (texts f) ","

abbrev pub show_container : List Fields → String
show_container fields = join (map show_device fields) ":"

abbrev pub show_pod : List (List Fields) → String
show_pod containers = join (map show_container containers) ";"

abbrev pub device : Fields → Device
device f = record {
  ctr_idx = uint32 (parse_int32 f.index);
  uuid = f.uuid;
  type = f.type;
  used_mem = parse_int32 f.mem;
  used_cores = parse_int32 f.cores;
}

All-map_texts :
    (P : String → Type 0) (xs : List String)
    → ((s : String) → IsPlain s → P s)
    → All IsPlain xs
    → All P xs
All-map_texts P [] h p = tt
All-map_texts P (x ∷ xs) h p = (h x p.0, All-map_texts P xs h p.1)

device_of-split :
    (f : Fields) → IsClean f → device_of (split comma (show_device f)) ≡ some (device f)
unfolding device_of
device_of-split f h = ap device_of (
    split-join comma f.index (f.uuid ∷ f.type ∷ f.mem ∷ f.cores ∷ [])
      (All-map_texts (λ s. has_letter comma s ≡ false) (texts f) (λ s p. p.0) h))

decode_entries-show :
    (fields : List Fields)
    → All IsClean fields
    → decode_entries (map show_device fields) ≡ some (map device fields)
unfolding decode_entries
decode_entries-show [] h = refl
decode_entries-show (f ∷ fields) h =
    rw
      (
        has_letter-joined comma f.index f.uuid (f.type ∷ f.mem ∷ f.cores ∷ []),
        device_of-split f h.0,
        decode_entries-show fields h.1,
      )
      refl

-- A text that has a letter is not empty.
has_letter-nonempty : (c : Char) (s : String) → has_letter c s ≡ true → eqs s "" ≡ false
unfolding has_letter
has_letter-nonempty c s h = elim (Bool-cases (eqs s "")) as (λ _. eqs s "" ≡ false) [
  | inl empty ↦ absurd (false_true (sym (ap (has_letter c) (eqs→eq s "" empty)) ∙ h))
  | inr other ↦ other
]
  where
    false_true : ¬ (false ≡ true)
    false_true e = ground arith

show_device-colon : (f : Fields) → IsClean f → has_letter colon (show_device f) ≡ false
show_device-colon f h =
    has_letter-join colon comma (texts f) refl
      (All-map_texts (λ s. has_letter colon s ≡ false) (texts f) (λ s p. p.1.0) h)

show_device-semicolon : (f : Fields) → IsClean f → has_letter semicolon (show_device f) ≡ false
show_device-semicolon f h =
    has_letter-join semicolon comma (texts f) refl
      (All-map_texts (λ s. has_letter semicolon s ≡ false) (texts f) (λ s p. p.1.1) h)

All-map :
    {A : Type 0} (P : A → Type 0) (Q : String → Type 0) (g : A → String) (xs : List A)
    → ((x : A) → P x → Q (g x))
    → All P xs
    → All Q (map g xs)
All-map P Q g [] h p = tt
All-map P Q g (x ∷ xs) h p = (h x p.0, All-map P Q g xs h p.1)

show_container-semicolon :
    (fields : List Fields)
    → All IsClean fields
    → has_letter semicolon (show_container fields) ≡ false
show_container-semicolon fields h = has_letter-join semicolon colon (map show_device fields) refl (
    All-map IsClean (λ s. has_letter semicolon s ≡ false) show_device fields show_device-semicolon
      h)

show_container-nonempty :
    (f : Fields) (fields : List Fields) → eqs (show_container (f ∷ fields)) "" ≡ false
unfolding join
show_container-nonempty f [] =
    has_letter-nonempty comma (show_device f)
      (has_letter-joined comma f.index f.uuid (f.type ∷ f.mem ∷ f.cores ∷ []))
show_container-nonempty f (g ∷ fields) =
    has_letter-nonempty colon (show_container (f ∷ g ∷ fields))
      (has_letter-joined colon (show_device f) (show_device g) (map show_device fields))

decode_container_devices-show :
    (fields : List Fields)
    → All IsClean fields
    → decode_container_devices (show_container fields) ≡ some (map device fields)
unfolding decode_container_devices join string_dec
decode_container_devices-show [] h = refl
decode_container_devices-show (f ∷ fields) h = rw (show_container-nonempty f fields) (
    ap decode_entries (
      split-join colon (show_device f) (map show_device fields) (
        All-map IsClean (λ s. has_letter colon s ≡ false) show_device (f ∷ fields) show_device-colon
          h))
    ∙ decode_entries-show (f ∷ fields) h)

decode_containers-show :
    (containers : List (List Fields))
    → All (All IsClean) containers
    → decode_containers (map show_container containers) ≡ some (map (map device) containers)
unfolding decode_containers
decode_containers-show [] h = refl
decode_containers-show (c ∷ containers) h =
    rw (decode_container_devices-show c h.0, decode_containers-show containers h.1) refl

show_pod-nonempty :
    (c : List Fields) (cs : List (List Fields))
    → c ∷ cs ≢ [] ∷ []
    → eqs (show_pod (c ∷ cs)) "" ≡ false
unfolding join
show_pod-nonempty [] [] h = absurd (h refl)
show_pod-nonempty (f ∷ fields) [] h = show_container-nonempty f fields
show_pod-nonempty c (d ∷ cs) h =
    has_letter-nonempty semicolon (show_pod (c ∷ d ∷ cs))
      (has_letter-joined semicolon (show_container c) (show_container d) (map show_container cs))

-- The annotation of the devices of each container, with five fields for a device and no separator
-- in a field, is decoded to these devices, unless it is that of a single container without devices.
pub decode_pod_devices-show :
    (containers : List (List Fields))
    → All (All IsClean) containers
    → containers ≢ [] ∷ []
    → decode_pod_devices (show_pod containers) ≡ some (map (map device) containers)
unfolding decode_pod_devices join string_dec
decode_pod_devices-show [] h some_device = refl
decode_pod_devices-show (c ∷ cs) h some_device = rw (show_pod-nonempty c cs some_device) (
    ap decode_containers (
      split-join semicolon (show_container c) (map show_container cs) (
        All-map (All IsClean) (λ s. has_letter semicolon s ≡ false) show_container (c ∷ cs)
          show_container-semicolon h))
    ∙ decode_containers-show (c ∷ cs) h)
