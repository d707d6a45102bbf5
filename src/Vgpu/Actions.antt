-- ===== src/Vgpu/Actions.antt =====
-- pkg/devices/volcano/vgpu/device_info.go: what the plugin does with the devices of a mounted pod. None is
-- a panic.
pub mod Cleaned
pub mod Reverted
use device_mounter.Base.{
  ℕ, String, ◌<>◌, Bool, true, false, not, ◌||◌, ◌==◌, Option, none, some, List, [], ◌∷◌, ◌++◌, eqs,
  contains, join, length, keep, if◌then◌else◌,
}
use device_mounter.Base.Dict.{Dict, insert, at_key}
use device_mounter.Base.Split.{split, trim_space}
use device_mounter.Api.{
  GoError, other_error, message, Result, ok, err, Container, Pod, anno_is_expansion,
}
use device_mounter.Util.{delete_slice_func}
use device_mounter.Vgpu.{Device, comma, init_vgpu_annotation, has_vgpu, get_pod_dev_map}
use device_mounter.Vgpu.Region.{
  SharedRegion, add_vgpu_resource, sub_vgpu_resource, attach_devices, detach_devices,
}
use device_mounter.Vgpu.Envs.{Printer, get_vgpu_envs, get_init_vgpu_shell}

-- What is done in the container and to the pod, the newest first in a trace.
pub data Action : Type 0 where
  -- `rm -f path`, and another command.
  removed : String → Action
  executed : String → Action
  -- A file copied or written into the container.
  placed : String → Action
  annotated : String → Action

-- The actions so far, and the region of the container's cache file or the error of mapping it.
pub record State : Type 0 where
  pub trace : List Action
  pub cache : Result SharedRegion

-- The rest of the world, which answers by the state.
pub record World : Type 0 where
  pub printer : Printer
  -- `os.Stat` of a file of the host, and of the container's cache directory.
  pub stat : String → Option GoError
  pub stat_cache : State → Option GoError
  -- A command in the container, with the cache behind it; `CopyToPod`, `WriteToPod`, and the patch of
  -- an annotation. The command of `WriteToPod` writes the script and runs it: it says too whether an
  -- error came after the script was written.
  pub exec_cmd : List String → State → Option GoError × Result SharedRegion
  pub copy_to_pod : State → String → String → Option GoError
  pub write_to_pod : State → String → Option GoError × Bool
  pub patch_annotation : State → String → Option GoError

-- An action that may panic or fail.
abbrev pub Run : Type 0
Run = State → Option (Option GoError × State)

abbrev pub log : Action → State → State
log a s = record s { trace = a ∷ s.trace }

abbrev pub lib_path : String
lib_path = "/usr/local/vgpu/libvgpu.so"

abbrev pub preload_path : String
preload_path = "/usr/local/vgpu/ld.so.preload"

abbrev pub preload_target : String
preload_target = "/etc/ld.so.preload"

abbrev pub script_path : String
script_path = "/initVGPU.sh"

-- A mutation of the mapped region that has ended.
abbrev pub mutated : State → Option SharedRegion → Option (Option GoError × State)
mutated s none = none
mutated s (some region) = some (none, record s { cache = ok region })

abbrev pub on_mapped :
    (SharedRegion → Option SharedRegion)
    → State
    → Result SharedRegion
    → Option (Option GoError × State)
on_mapped mutation s (err e) = some (some e, s)
on_mapped mutation s (ok region) = mutated s (mutation region)

-- `MutationCacheFunc`
abbrev pub mutation_cache_func : (SharedRegion → Option SharedRegion) → Run
mutation_cache_func mutation s = on_mapped mutation s s.cache

-- The names of the containers that have been initialised.
abbrev pub initialised : Pod → String
initialised pod = trim_space (at_key init_vgpu_annotation pod.annotations)

abbrev pub names_in : String → List String
names_in names = if eqs names "" then [] else split comma names

module _ (w : World) where
  -- One of the commands that `execNvidiaSMI` tries.
  abbrev pub try_cmd : List String → State → Option GoError × State
  try_cmd cmd s = let (e, cache) = w.exec_cmd cmd s in (e, record s { cache = cache })

  abbrev pub or_else : List String → Option GoError × State → Option GoError × State
  or_else cmd (none, s) = (none, s)
  or_else cmd (some e, s) = try_cmd cmd s

  -- `execNvidiaSMI`
  unfoldable pub exec_nvidia_smi : State → Option GoError × State
  exec_nvidia_smi s =
      or_else ("bash" ∷ "-c" ∷ "nvidia-smi" ∷ [])
        (or_else ("sh" ∷ "-c" ∷ "nvidia-smi" ∷ []) (try_cmd ("nvidia-smi" ∷ []) s))

  -- `ExpansionVGPUDevice`, and the function that rolls it back.
  unfoldable pub expansion_vgpu_device : Dict Device → Run
  unfolding exec_nvidia_smi
  expansion_vgpu_device dev_map s =
      mutation_cache_func (add_vgpu_resource dev_map) (exec_nvidia_smi s).1

  unfoldable pub roll_back_expansion : Dict Device → Run
  roll_back_expansion dev_map s = mutation_cache_func (sub_vgpu_resource dev_map) s

  -- New devices for a container that has vGPUs.
  unfoldable pub attach_to_vgpu_container : Dict Device → Run
  unfolding exec_nvidia_smi
  attach_to_vgpu_container dev_map s =
      mutation_cache_func (attach_devices dev_map) (exec_nvidia_smi s).1

  abbrev pub failed : String → GoError → State → Option GoError × State
  failed text e s = (some (other_error (text <> message e)), s)

  -- After the patch of the annotation.
  abbrev pub on_patched : String → State → Option GoError → Option GoError × State
  on_patched names s none = (none, log (annotated names) s)
  on_patched names s (some e) =
      failed "Failed to patch pod annotation [device-mounter.io/initVGPU]: " e (
        log (removed preload_target) (
          log (removed lib_path) (
            log (executed "rm -rf /tmp/vgpu")
              (log (removed "/tmp/cudevshr.cache") (log (removed script_path) s)))))

  abbrev pub mark_initialised : Pod → Container → State → Option GoError × State
  mark_initialised owner_pod container s =
      let names = names_in (initialised owner_pod) in
      if contains names container.name
      then (none, s)
      else let text = join (names ++ container.name ∷ []) "," in
        on_patched text s (w.patch_annotation s text)

  abbrev pub on_script : Pod → Container → State → Option GoError × Bool → Option GoError × State
  on_script owner_pod container s (none, written) =
      mark_initialised owner_pod container (log (placed script_path) s)
  on_script owner_pod container s (some e, written) = failed "Failed to initialize vGPU: " e (
      log (removed preload_target)
        (log (removed lib_path) (if written then log (placed script_path) s else s)))

  abbrev pub run_script : Dict Device → Pod → Container → State → Option GoError × State
  run_script dev_map owner_pod container s =
      on_script owner_pod container s
        (w.write_to_pod s (get_init_vgpu_shell (get_vgpu_envs w.printer dev_map)))

  abbrev pub on_preload :
      Dict Device → Pod → Container → State → Option GoError → Option GoError × State
  on_preload dev_map owner_pod container s none =
      run_script dev_map owner_pod container (log (placed preload_target) s)
  on_preload dev_map owner_pod container s (some e) =
      failed
        "Copying file [/usr/local/vgpu/ld.so.preload] to container [/etc/ld.so.preload] failed: " e
        (log (removed lib_path) s)

  abbrev pub on_library :
      Dict Device → Pod → Container → State → Option GoError → Option GoError × State
  on_library dev_map owner_pod container s none =
      let s' = log (placed lib_path) s in
      on_preload dev_map owner_pod container s' (w.copy_to_pod s' preload_path preload_target)
  on_library dev_map owner_pod container s (some e) =
      failed
        "Copying file [/usr/local/vgpu/libvgpu.so] to container [/usr/local/vgpu/libvgpu.so] failed: "
        e s

  -- The directories that the library needs.
  abbrev pub clear_caches : State → State
  clear_caches s = log (executed "mkdir -p /usr/local/vgpu") (
      log (executed "mkdir -p /tmp/vgpu")
        (log (executed "rm -rf /tmp/vgpu") (log (removed "/tmp/cudevshr.cache") s)))

  abbrev pub copy_library : Dict Device → Pod → Container → State → Option GoError × State
  copy_library dev_map owner_pod container s =
      on_library dev_map owner_pod container s (w.copy_to_pod s lib_path lib_path)

  abbrev pub on_host_files :
      Dict Device
      → Pod
      → Container
      → State
      → Option GoError
      → Option GoError
      → Option GoError × State
  on_host_files dev_map owner_pod container s (some e) preload =
      failed "Failed to detect file [/usr/local/vgpu/libvgpu.so]: " e s
  on_host_files dev_map owner_pod container s none (some e) =
      failed "Failed to detect file [/usr/local/vgpu/ld.so.preload]: " e s
  on_host_files dev_map owner_pod container s none none =
      copy_library dev_map owner_pod container (clear_caches s)

  -- New devices for a container without vGPUs.
  unfoldable pub attach_to_ordinary_container :
      Dict Device → Pod → Container → State → Option GoError × State
  attach_to_ordinary_container dev_map owner_pod container s =
      on_host_files dev_map owner_pod container s (w.stat lib_path) (w.stat preload_path)
