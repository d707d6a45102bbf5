-- ===== src/AscendNpu/Plugin/Refused.antt =====
-- A container that a mount has marked (pkg/devices/ascend/npu/device_info.go).
use mathlib.Core.Path.{subst}
use device_mounter.Base.{
  String, Bool, true, false, not, ◌||◌, Option, none, some, List, [], ◌∷◌, ◌++◌, ◌≡◌, refl, sym,
  ◌∙◌, ap, arith, All, Bool-cases, inl, inr, eqs, eqs_refl, contains, join, if◌then◌else◌,
}
use device_mounter.Base.Dict.{Dict, lookup, at_key}
use device_mounter.Base.Split.{split, has_letter, trim_space, split-join}
use device_mounter.Base.Split.Plain.{has_space, trim_space_plain, has_space-join}
use device_mounter.Api.{GoError, Result, ok, err, Container, Quantity, Pod, Node}
use device_mounter.AscendNpu.{Host, init_npu_annotation, has_npu}
use device_mounter.AscendNpu.Plugin.{
  initialised_text, names_in, annotate, patched, mark_initialised, unless_own,
  execute_post_mount_actions, check_request_910_resources, check_request_dynamic_resources,
  validate_mount_request,
}

-- The name of a container: neither a comma nor white space.
abbrev pub IsName : String → Type 0
IsName name = (has_letter "," name ≡ false) × (has_space name ≡ false)

-- A patch of annotations that is accepted, as documented: the pod that is answered has them.
pub record Annotates (host : Host) : Type 0 where
  pub lookup-patched :
      (pod new : Pod) (key value : String)
      → host.patch_annotations pod ((key, value) ∷ []) ≡ ok new
      → lookup key new.annotations ≡ some value

contains-snoc : (names : List String) (name : String) → contains (names ++ name ∷ []) name ≡ true
contains-snoc [] name = rw (eqs_refl name) refl
contains-snoc (n ∷ names) name = ground (arith, contains-snoc names name)

split-snoc :
    (names : List String) (name : String)
    → All (λ s. has_letter "," s ≡ false) (names ++ name ∷ [])
    → split "," (join (names ++ name ∷ []) ",") ≡ names ++ name ∷ []
split-snoc [] name h = split-join "," name [] h
split-snoc (n ∷ names) name h = split-join "," n (names ++ name ∷ []) h

no_commas : (names : List String) → All IsName names → All (λ s. has_letter "," s ≡ false) names
no_commas [] h = tt
no_commas (name ∷ names) h = (h.0.0, no_commas names h.1)

no_spaces : (names : List String) → All IsName names → All (λ s. has_space s ≡ false) names
no_spaces [] h = tt
no_spaces (name ∷ names) h = (h.0.1, no_spaces names h.1)

module _ (host : Host) where
  -- The pod names the container as initialised.
  abbrev pub marked : Pod → Container → Bool
  marked pod container = contains (split "," (initialised_text pod)) container.name

  abbrev pub Marks : Container → Result Pod → Type 0
  Marks container (err e) = Unit
  Marks container (ok pod) = marked pod container ≡ true

  names_in-marked :
      (pod : Pod) (container : Container)
      → contains (names_in host (initialised_text pod)) container.name ≡ true
      → marked pod container ≡ true
  names_in-marked pod container h = elim (Bool-cases (eqs (initialised_text pod) "")) [
    | inl empty ↦ absurd (ground arith)
    | inr full ↦ ground arith
  ]

  annotated-marked :
      (pod : Pod) (container : Container) (names : List String)
      → All IsName (names ++ container.name ∷ [])
      → at_key init_npu_annotation pod.annotations ≡ join (names ++ container.name ∷ []) ","
      → marked pod container ≡ true
  annotated-marked pod container names plain text =
      ap (λ t. contains (split "," (trim_space t)) container.name) text
      ∙ ap (λ t. contains (split "," t) container.name)
          (trim_space_plain (join (names ++ container.name ∷ []) ",") (
            has_space-join "," (names ++ container.name ∷ []) refl
              (no_spaces (names ++ container.name ∷ []) plain)))
      ∙ ap (λ l. contains l container.name)
          (split-snoc names container.name (no_commas (names ++ container.name ∷ []) plain))
      ∙ contains-snoc names container.name

  patched-Marks :
      (pod : Pod) (container : Container) (names : List String)
      → Annotates host
      → All IsName (names ++ container.name ∷ [])
      → (answer : Result Pod)
      → host.patch_annotations pod
          ((init_npu_annotation, join (names ++ container.name ∷ []) ",") ∷ [])
        ≡ answer
      → Marks container (patched host answer)
  patched-Marks pod container names laws plain (err e) h = tt
  patched-Marks pod container names laws plain (ok new) h =
      annotated-marked new container names plain (
        ap (λ o. elim o [ none ↦ "" | some v ↦ v ])
          (laws.lookup-patched pod new init_npu_annotation (join (names ++ container.name ∷ []) ",")
            h))

  mark_initialised-Marks :
      (pod : Pod) (container : Container)
      → Annotates host
      → All IsName (names_in host (initialised_text pod) ++ container.name ∷ [])
      → (known : Bool) → contains (names_in host (initialised_text pod)) container.name ≡ known
      → Marks container (
          if known
          then ok pod
          else annotate host pod
              (join (names_in host (initialised_text pod) ++ container.name ∷ []) ","))
  mark_initialised-Marks pod container laws plain true h = names_in-marked pod container h
  mark_initialised-Marks pod container laws plain false h =
      patched-Marks pod container (names_in host (initialised_text pod)) laws plain _ refl

  abbrev IsRefused : Option GoError → Type 0
  IsRefused none = true ≡ false
  IsRefused (some e) = Unit

  validate-IsRefused :
      (target_node : Option Node) (resources : Dict Quantity) (pod : Pod) (container : Container)
      → marked pod container ≡ true
      → IsRefused (validate_mount_request host target_node pod container resources)
  unfolding validate_mount_request
  validate-IsRefused target_node resources pod container h = rw h (
      refused
        (not (
          check_request_910_resources host resources
          || check_request_dynamic_resources host resources))
        _ _ _ _)
    where
      refused :
          (unsupported insufficient : Bool) (e e' e'' : GoError)
          → IsRefused (if unsupported then some e else if insufficient then some e' else some e'')
      refused true insufficient e e' e'' = tt
      refused false true e e' e'' = tt
      refused false false e e' e'' = tt

  -- The actions end without a panic, and if they succeed, a request to mount into the container is
  -- refused for the pod that they leave.
  abbrev pub Refuses : Option Node → Dict Quantity → Container → Option (Result Pod) → Type 0
  Refuses target_node resources container none = true ≡ false
  Refuses target_node resources container (some (err e)) = Unit
  Refuses target_node resources container (some (ok pod)) =
      IsRefused (validate_mount_request host target_node pod container resources)

  Marks-Refuses :
      (target_node : Option Node) (resources : Dict Quantity) (container : Container)
      (r : Result Pod)
      → Marks container r
      → Refuses target_node resources container (some r)
  Marks-Refuses target_node resources container (err e) h = tt
  Marks-Refuses target_node resources container (ok pod) h =
      validate-IsRefused target_node resources pod container h

  -- If the target container has no NPU of its own, the names that are marked and its own have neither
  -- a comma nor white space, and a patch of annotations does what is documented, the actions behind a
  -- mount do not panic, and where they succeed, a mount into the container that finds the pod as they
  -- leave it is refused, whatever it requests.
  pub execute_post_mount_actions-Refuses :
      (owner_pod : Pod) (container : Container) (target_node : Option Node)
      (resources : Dict Quantity)
      → Annotates host
      → has_npu host owner_pod container ≡ some false
      → All IsName (names_in host (initialised_text owner_pod) ++ container.name ∷ [])
      → Refuses target_node resources container
          (execute_post_mount_actions host owner_pod container)
  unfolding execute_post_mount_actions
  execute_post_mount_actions-Refuses owner_pod container target_node resources laws bare plain =
      subst
        (λ owned. Refuses target_node resources container (
          unless_own host owned owner_pod (
            mark_initialised host owner_pod container
              (names_in host (initialised_text owner_pod)))))
        (sym bare)
        (Marks-Refuses target_node resources container
          (mark_initialised host owner_pod container (names_in host (initialised_text owner_pod)))
          (mark_initialised-Marks owner_pod container laws plain _ refl))
