-- ===== src/Vgpu/Actions/Reverted.antt =====
-- ExpansionVGPUDevice (pkg/devices/volcano/vgpu/device_info.go) and the function that it returns.
use device_mounter.Base.{Option, none, some, ◌≡◌, refl, ◌∙◌, ap, sym, arith, All}
use mathlib.Core.Option.{some-injective}
use device_mounter.Base.Dict.{Dict}
use device_mounter.Api.{ok}
use device_mounter.Vgpu.{Device}
use device_mounter.Vgpu.Region.{SharedRegion, add_vgpu_resource, sub_vgpu_resource}
use device_mounter.Vgpu.Region.Restored.{IsWord, sub_vgpu_resource-add}
use device_mounter.Vgpu.Actions.{
  State, World, mutated, on_mapped, mutation_cache_func, exec_nvidia_smi, expansion_vgpu_device,
  roll_back_expansion,
}

reverted :
    (dev_map : Dict Device) (t s' : State) (region : SharedRegion) (added : Option SharedRegion)
    → t.cache ≡ ok region
    → All IsWord region.slots
    → add_vgpu_resource dev_map region ≡ added
    → mutated t added ≡ some (none, s')
    → mutation_cache_func (sub_vgpu_resource dev_map) s' ≡ some (none, t)
reverted dev_map t s' region none mapped words adds h = absurd (ground arith)
reverted dev_map t s' region (some more) mapped words adds h =
    let same : record t { cache = ok more } ≡ s' = ap (λ r. r.1) (some-injective _ _ h) in
    ap (mutation_cache_func (sub_vgpu_resource dev_map)) (sym same)
    ∙ ap (mutated (record t { cache = ok more }))
        (sub_vgpu_resource-add dev_map region more words adds)
    ∙ ap (λ c. some (none, record t { cache = c })) (sym mapped)

module _ (w : World) where
  -- After the commands that create the cache, a region whose limits are 64-bit numbers: if the
  -- expansion ends without an error, rolling it back ends without an error in the state in which the
  -- expansion found the region.
  pub roll_back_expansion-expansion :
      (dev_map : Dict Device) (s s' : State) (region : SharedRegion)
      → (exec_nvidia_smi w s).1.cache ≡ ok region
      → All IsWord region.slots
      → expansion_vgpu_device w dev_map s ≡ some (none, s')
      → roll_back_expansion w dev_map s' ≡ some (none, (exec_nvidia_smi w s).1)
  unfolding expansion_vgpu_device roll_back_expansion
  roll_back_expansion-expansion dev_map s s' region mapped words h =
      reverted dev_map (exec_nvidia_smi w s).1 s' region (add_vgpu_resource dev_map region) mapped
        words refl
        (ap (on_mapped (add_vgpu_resource dev_map) (exec_nvidia_smi w s).1) (sym mapped) ∙ h)
