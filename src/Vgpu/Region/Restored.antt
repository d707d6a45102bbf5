-- ===== src/Vgpu/Region/Restored.antt =====
-- addVGPUResource and subVGPUResource (pkg/devices/volcano/vgpu/device_info.go), the expansion of the
-- devices of a container and its roll-back.
use device_mounter.Base.{
  ℕ, zero, suc, ◌+◌, ◌-◌, ◌%◌, ◌<◌, Option, none, some, List, [], ◌∷◌, ◌≡◌, refl, ◌∙◌, ap, sym,
  arith, All,
}
use mathlib.Core.Option.{some-injective}
use device_mounter.Base.Int.{ℤ, pos, negsuc}
use device_mounter.Base.Dict.{Dict, lookup}
use device_mounter.Vgpu.{Device}
use device_mounter.Vgpu.Region.{
  u64_mod, Slot, SharedRegion, uint64, memory, cores, name_of, add_to, sub_from, cons_slot,
  each_slot, with_slots, add_vgpu_resource, sub_vgpu_resource,
}

-- Both limits are 64-bit numbers.
abbrev pub IsWord : Slot → Type 0
IsWord slot = (slot.limit < u64_mod) × (slot.sm_limit < u64_mod)

uint64_lt : (a : ℤ) → uint64 a < u64_mod
unfolding uint64
uint64_lt (pos n) = omega arith
uint64_lt (negsuc n) = omega arith

memory_lt : (dev : Device) → memory dev < u64_mod
unfolding memory
memory_lt dev = omega arith

cores_lt : (dev : Device) → cores dev < u64_mod
unfolding cores
cores_lt dev = uint64_lt dev.used_cores

sub-add_word :
    (a b : ℕ) → a < u64_mod → b < u64_mod → ((a + b) % u64_mod + u64_mod - b) % u64_mod ≡ a
sub-add_word a b ha hb = omega arith

sub_from-add_to :
    (slot : Slot) (dev : Option Device) → IsWord slot → sub_from (add_to slot dev) dev ≡ slot
sub_from-add_to slot none h = refl
sub_from-add_to slot (some dev) h =
    ap
      (λ l. record slot {
        limit = l;
        sm_limit = ((slot.sm_limit + cores dev) % u64_mod + u64_mod - cores dev) % u64_mod;
      })
      (sub-add_word slot.limit (memory dev) h.0 (memory_lt dev))
    ∙ ap (λ l. record slot { sm_limit = l })
        (sub-add_word slot.sm_limit (cores dev) h.1 (cores_lt dev))

name_of-add_to : (slot : Slot) (dev : Option Device) → name_of (add_to slot dev) ≡ name_of slot
name_of-add_to slot none = refl
name_of-add_to slot (some dev) = refl

cons_slot-some :
    (slot : Slot) (rest : Option (List Slot)) (slots : List Slot)
    → cons_slot slot rest ≡ some slots
    → (tail : List Slot) × (rest ≡ some tail) × (slots ≡ slot ∷ tail)
cons_slot-some slot none slots e = absurd (ground arith)
cons_slot-some slot (some tail) slots e = (tail, refl, sym (some-injective _ _ e))

each_slot-back :
    (f g : Slot → Slot) (P : Slot → Type 0)
    → ((slot : Slot) → P slot → g (f slot) ≡ slot)
    → (n : ℕ) (slots slots' : List Slot) → All P slots
    → each_slot f n slots ≡ some slots'
    → each_slot g n slots' ≡ some slots
unfolding each_slot
each_slot-back f g P back zero slots slots' h e = sym e
each_slot-back f g P back (suc n) [] slots' h e = absurd (ground arith)
each_slot-back f g P back (suc n) (slot ∷ slots) slots' h e =
    let (tail, rest, same) = cons_slot-some (f slot) (each_slot f n slots) slots' e in
    ap (each_slot g (suc n)) same
    ∙ rw (back slot h.0, each_slot-back f g P back n slots tail h.1 rest) refl

with_slots-some :
    (cache : SharedRegion) (slots : Option (List Slot)) (cache' : SharedRegion)
    → with_slots cache slots ≡ some cache'
    → (tail : List Slot) × (slots ≡ some tail) × (cache' ≡ record cache { slots = tail })
with_slots-some cache none cache' e = absurd (ground arith)
with_slots-some cache (some slots) cache' e = (slots, refl, sym (some-injective _ _ e))

-- Where every limit is a 64-bit number, the subtraction of the limits of devices behind their
-- addition gives the region back, although the sums may have wrapped around.
pub sub_vgpu_resource-add :
    (dev_map : Dict Device) (cache cache' : SharedRegion)
    → All IsWord cache.slots
    → add_vgpu_resource dev_map cache ≡ some cache'
    → sub_vgpu_resource dev_map cache' ≡ some cache
unfolding add_vgpu_resource sub_vgpu_resource
sub_vgpu_resource-add dev_map cache cache' h e =
    let (slots, changed, same) = with_slots-some cache _ cache' e in
    ap (sub_vgpu_resource dev_map) same
    ∙ ap (with_slots cache) (
        each_slot-back (λ slot. add_to slot (lookup (name_of slot) dev_map))
          (λ slot. sub_from slot (lookup (name_of slot) dev_map)) IsWord
          (λ slot word.
            ap
              (λ name. sub_from (add_to slot (lookup (name_of slot) dev_map)) (lookup name dev_map))
              (name_of-add_to slot (lookup (name_of slot) dev_map))
            ∙ sub_from-add_to slot (lookup (name_of slot) dev_map) word)
          cache.num cache.slots slots h changed)
