-- ===== src/Vgpu/Envs.antt =====
-- pkg/devices/volcano/vgpu/util.go: the environment that initialises the vGPUs of a container.
use device_mounter.Base.{
  ℕ, suc, String, ◌<>◌, Bool, ◌&&◌, List, [], ◌∷◌, ◌++◌, map, any, join, if◌then◌else◌,
}
use device_mounter.Base.Dict.{Dict}
use device_mounter.Base.Int.{ℤ, pos, exceeds}
use device_mounter.Util.{less}
use device_mounter.Vgpu.{Device}

-- The texts that `%d` and `%v` print.
pub record Printer : Type 0 where
  pub show_number : ℕ → String
  pub show_int : ℤ → String

module _ (printer : Printer) where
  -- `fmt.Sprintf("%s_%d=%v…", …)` for the devices from an index on.
  unfoldable pub limit_envs : String → (Device → String) → ℕ → Dict Device → List String
  limit_envs name value index [] = []
  limit_envs name value index ((uuid, dev) ∷ dev_map) =
      (name <> ("_" <> (printer.show_number index <> ("=" <> value dev))))
      ∷ limit_envs name value (suc index) dev_map

  abbrev is_limited : String × Device → Bool
  is_limited (uuid, dev) = exceeds dev.used_cores 0 && less dev.used_cores (pos 100)

  abbrev uuid_of : String × Device → String
  uuid_of (uuid, dev) = uuid

  -- `GetVGPUEnvs`
  unfoldable pub get_vgpu_envs : Dict Device → List String
  unfolding limit_envs
  get_vgpu_envs dev_map =
      limit_envs "CUDA_DEVICE_SM_LIMIT" (λ dev. printer.show_int dev.used_cores) 0 dev_map
      ++ limit_envs "CUDA_DEVICE_MEMORY_LIMIT" (λ dev. printer.show_int dev.used_mem <> "m") 0
          dev_map
      ++ ("GPU_CORE_UTILIZATION_POLICY=" <> (if any is_limited dev_map then "FORCE" else "DISABLE"))
        ∷ ("NVIDIA_VISIBLE_DEVICES=" <> join (map uuid_of dev_map) ",")
        ∷ []

-- The loop of `GetInitVGPUShell`.
unfoldable pub export_all : List String → String
export_all [] = ""
export_all (env ∷ envs) = ("export " <> (env <> "\n")) <> export_all envs

-- `GetInitVGPUShell`
unfoldable pub get_init_vgpu_shell : List String → String
unfolding export_all
get_init_vgpu_shell envs = "#!/bin/sh\n" <> (export_all envs <> "/usr/bin/nvidia-smi")
