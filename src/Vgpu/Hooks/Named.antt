-- ===== src/Vgpu/Hooks/Named.antt =====
-- The annotation of the initialised containers
-- (pkg/devices/volcano/vgpu/device_info.go, ExecutePostMountActions and ExecutePostUnmountActions).
use device_mounter.Base.{
  String, false, not, List, [], ◌∷◌, ◌++◌, ◌≡◌, refl, ◌∙◌, ap, arith, All, eqs, eqs_refl, contains,
  join, keep,
}
use device_mounter.Base.Split.{split, has_letter, split-join}
use device_mounter.Api.{Container, Pod}
use device_mounter.Util.Compact.{delete_slice_func-keep}
use device_mounter.Vgpu.{comma}
use device_mounter.Vgpu.Hooks.{other_names}
use device_mounter.Vgpu.Actions.{World, initialised}

keep-absent :
    (name : String) (names : List String)
    → contains names name ≡ false
    → keep (λ s. not (eqs s name)) (names ++ name ∷ []) ≡ names
keep-absent name [] h = rw (eqs_refl name) refl
keep-absent name (n ∷ names) h = ground (arith, h, keep-absent name names)

split-snoc :
    (names : List String) (name : String)
    → All (λ s. has_letter comma s ≡ false) (names ++ name ∷ [])
    → split comma (join (names ++ name ∷ []) ",") ≡ names ++ name ∷ []
split-snoc [] name h = split-join comma name [] h
split-snoc (n ∷ names) name h = split-join comma n (names ++ name ∷ []) h

module _ (w : World) where
  -- After a mount has marked a container that was not among the initialised ones, no name with a
  -- comma in it, an unmount of that container leaves exactly the names before the mount.
  pub other_names-initialised :
      (pod : Pod) (container : Container) (names : List String)
      → All (λ s. has_letter comma s ≡ false) (names ++ container.name ∷ [])
      → contains names container.name ≡ false
      → initialised pod ≡ join (names ++ container.name ∷ []) ","
      → other_names w container (split comma (initialised pod)) ≡ names
  other_names-initialised pod container names plain absent marked =
      ap (λ t. other_names w container (split comma t)) marked
      ∙ ap (other_names w container) (split-snoc names container.name plain)
      ∙ delete_slice_func-keep (λ s. not (eqs s container.name)) (names ++ container.name ∷ [])
      ∙ keep-absent container.name names absent
