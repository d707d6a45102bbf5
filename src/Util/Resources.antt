-- ===== src/Util/Resources.antt =====
-- What the checks of resources in pkg/util/util.go decide.
use device_mounter.Base.{
  String, Bool, ◌&&◌, ◌||◌, List, [], ◌∷◌, ◌≡◌, refl, ◌∙◌, arith, every, contains,
}
use device_mounter.Base.Dict.{Dict, lookup}
use device_mounter.Api.{Quantity}
use device_mounter.Util.{
  is_given, check_slice, add_ignored, check_known, on_slice, check_resources_in_slice,
}

contains-add_ignored :
    (ignore known : List String) (s : String)
    → contains (add_ignored ignore known) s ≡ (contains known s || contains ignore s)
contains-add_ignored [] known s = ground arith
contains-add_ignored (i ∷ ignore) known s =
    ground (arith, contains-add_ignored ignore (i ∷ known) s)

check_known-every :
    (entries : Dict Quantity) (known : List String) (f : String → Bool)
    → ((s : String) → contains known s ≡ f s)
    → check_known entries known ≡ every (λ (name, quantity). f name) entries
check_known-every [] known f h = refl
check_known-every ((name, quantity) ∷ entries) known f h =
    ground (arith, h name, check_known-every entries known f h)

-- The three loops from the middle of the first on.
on_slice-every :
    (resources : Dict Quantity) (rest known ignore : List String) (f : String → Bool)
    → ((s : String) → ((contains known s || contains rest s) || contains ignore s) ≡ f s)
    → on_slice resources ignore (check_slice resources rest known) ≡ (
        every (λ s. is_given (lookup s resources)) rest
        && every (λ (name, quantity). f name) resources)
on_slice-every resources [] known ignore f h =
    check_known-every resources (add_ignored ignore known) f
      (λ s. contains-add_ignored ignore known s ∙ (ground (arith, h s)))
on_slice-every resources (s ∷ rest) known ignore f h =
    ground (arith, on_slice-every resources rest (s ∷ known) ignore f (λ x. ground (arith, h x)))

-- The check of resources against a list of names says yes exactly if every name of the list is a
-- resource that is not zero, and every resource is in the list or among the ignored names.
pub check_resources_in_slice-every :
    (resources : Dict Quantity) (slice ignore : List String)
    → check_resources_in_slice resources slice ignore ≡ (
        every (λ s. is_given (lookup s resources)) slice
        && every (λ (name, quantity). contains slice name || contains ignore name) resources)
unfolding check_resources_in_slice
check_resources_in_slice-every resources slice ignore =
    on_slice-every resources slice [] ignore (λ s. contains slice s || contains ignore s)
      (λ s. refl)
