-- ===== src/Vgpu/Actions/Cleaned.antt =====
-- The files that the plugin puts into an ordinary container
-- (pkg/devices/volcano/vgpu/device_info.go, ExecutePostMountActions).
use device_mounter.Base.{
  String, Bool, not, Option, none, some, List, [], ◌∷◌, keep, eqs, contains, ◌≡◌, refl, ap, ◌⊎◌,
  inl, inr, string_dec, if◌then◌else◌, join, ◌++◌, true, false,
}
use device_mounter.Base.Dict.{Dict}
use device_mounter.Api.{GoError, Container, Pod}
use device_mounter.Vgpu.{Device}
use device_mounter.Vgpu.Envs.{get_vgpu_envs, get_init_vgpu_shell}
use device_mounter.Vgpu.Actions.{
  Action, removed, executed, placed, annotated, State, World, lib_path, preload_path,
  preload_target, script_path, names_in, initialised, on_patched, mark_initialised, on_script,
  on_preload, on_library, clear_caches, on_host_files, attach_to_ordinary_container,
}

-- The files placed and not removed behind it, the newest first.
abbrev pub left : List Action → List String
left [] = []
left (placed path ∷ trace) = path ∷ left trace
left (removed path ∷ trace) = keep (λ p. not (eqs p path)) (left trace)
left (executed text ∷ trace) = left trace
left (annotated text ∷ trace) = left trace

module _ (w : World) where
  -- The command that writes the script and runs it has failed behind the write.
  abbrev pub HasFailedScript : Type 0
  HasFailedScript =
      (s : State) × (text : String) × (e : GoError) × (w.write_to_pod s text ≡ (some e, true))

  -- An error leaves no file behind, or the script alone if its run has failed.
  abbrev pub IsClean : Option GoError × State → Type 0
  IsClean (none, s) = Unit
  IsClean (some e, s) = (left s.trace ≡ []) ⊎ ((left s.trace ≡ script_path ∷ []) × HasFailedScript)

  on_patched-IsClean :
      (names : String) (s : State) (answer : Option GoError)
      → left s.trace ≡ script_path ∷ preload_target ∷ lib_path ∷ []
      → IsClean (on_patched w names s answer)
  unfolding string_dec
  on_patched-IsClean names s none h = tt
  on_patched-IsClean names s (some e) h = inl (rw h refl)

  mark_initialised-IsClean :
      (owner_pod : Pod) (container : Container) (s : State)
      → left s.trace ≡ script_path ∷ preload_target ∷ lib_path ∷ []
      → IsClean (mark_initialised w owner_pod container s)
  mark_initialised-IsClean owner_pod container s h =
      go (contains (names_in (initialised owner_pod)) container.name)
    where
      text : String
      text = join (names_in (initialised owner_pod) ++ container.name ∷ []) ","

      go :
          (known : Bool)
          → IsClean (if known then (none, s) else on_patched w text s (w.patch_annotation s text))
      go true = tt
      go false = on_patched-IsClean text s (w.patch_annotation s text) h

  on_script-IsClean :
      (owner_pod : Pod) (container : Container) (s : State) (text : String)
      (answer : Option GoError × Bool)
      → left s.trace ≡ preload_target ∷ lib_path ∷ []
      → w.write_to_pod s text ≡ answer
      → IsClean (on_script w owner_pod container s answer)
  unfolding string_dec
  on_script-IsClean owner_pod container s text (none, written) h at =
      mark_initialised-IsClean owner_pod container _ (ap (λ l. script_path ∷ l) h)
  on_script-IsClean owner_pod container s text (some e, true) h at =
      inr (rw h refl, (s, text, e, at))
  on_script-IsClean owner_pod container s text (some e, false) h at = inl (rw h refl)

  on_preload-IsClean :
      (dev_map : Dict Device) (owner_pod : Pod) (container : Container) (s : State)
      (answer : Option GoError)
      → left s.trace ≡ lib_path ∷ []
      → IsClean (on_preload w dev_map owner_pod container s answer)
  unfolding string_dec
  on_preload-IsClean dev_map owner_pod container s none h =
      on_script-IsClean owner_pod container _
        (get_init_vgpu_shell (get_vgpu_envs w.printer dev_map))
        (w.write_to_pod _ (get_init_vgpu_shell (get_vgpu_envs w.printer dev_map)))
        (ap (λ l. preload_target ∷ l) h) refl
  on_preload-IsClean dev_map owner_pod container s (some e) h = inl (rw h refl)

  on_library-IsClean :
      (dev_map : Dict Device) (owner_pod : Pod) (container : Container) (s : State)
      (answer : Option GoError)
      → left s.trace ≡ []
      → IsClean (on_library w dev_map owner_pod container s answer)
  on_library-IsClean dev_map owner_pod container s none h =
      on_preload-IsClean dev_map owner_pod container _ (w.copy_to_pod _ preload_path preload_target)
        (ap (λ l. lib_path ∷ l) h)
  on_library-IsClean dev_map owner_pod container s (some e) h = inl h

  on_host_files-IsClean :
      (dev_map : Dict Device) (owner_pod : Pod) (container : Container) (s : State)
      (library preload : Option GoError)
      → left s.trace ≡ []
      → IsClean (on_host_files w dev_map owner_pod container s library preload)
  on_host_files-IsClean dev_map owner_pod container s (some e) preload h = inl h
  on_host_files-IsClean dev_map owner_pod container s none (some e) h = inl h
  on_host_files-IsClean dev_map owner_pod container s none none h =
      on_library-IsClean dev_map owner_pod container (clear_caches w s)
        (w.copy_to_pod (clear_caches w s) lib_path lib_path)
        (ap (keep (λ p. not (eqs p "/tmp/cudevshr.cache"))) h)

  -- If the files of the plugin are not in an ordinary container, and the attach of vGPUs to it ends
  -- with an error, then every file that it has copied or written is removed again; but if the script
  -- was written and its run failed, the script is left behind, and nothing else.
  pub attach_to_ordinary_container-IsClean :
      (dev_map : Dict Device) (owner_pod : Pod) (container : Container) (s : State)
      → left s.trace ≡ []
      → IsClean (attach_to_ordinary_container w dev_map owner_pod container s)
  unfolding attach_to_ordinary_container
  attach_to_ordinary_container-IsClean dev_map owner_pod container s h =
      on_host_files-IsClean dev_map owner_pod container s (w.stat lib_path) (w.stat preload_path) h
