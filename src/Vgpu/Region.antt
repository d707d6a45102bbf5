-- ===== src/Vgpu/Region.antt =====
-- pkg/devices/volcano/vgpu: the shared region of a container (sharedRegionT in util.go) and the
-- functions that device_info.go changes it with. The three arrays of 16 entries are one list of slots.
-- A byte is a letter, since the identifiers are ASCII. None is a panic: an index out of range.
pub mod Restored
pub mod Attached
pub mod Detached
use Prim.Native.Char.{Char}
use device_mounter.Base.{
  ℕ, zero, suc, ◌+◌, ◌-◌, ◌*◌, ◌%◌, String, ◌<>◌, Bool, true, false, Option, none, some, List, [],
  ◌∷◌, get_elem?, set, ltb, if◌then◌else◌,
}
use device_mounter.Base.Dict.{Dict, lookup, erase, has_key}
use device_mounter.Base.Int.{ℤ, pos, negsuc}
use device_mounter.Vgpu.{Device}

abbrev pub u64_mod : ℕ
u64_mod = 18446744073709551616

pub record Slot : Type 0 where
  pub uuid : String
  pub limit : ℕ
  pub sm_limit : ℕ

-- `num` and the slots.
pub record SharedRegion : Type 0 where
  pub num : ℕ
  pub slots : List Slot

-- The conversion `uint64(a)`.
unfoldable pub uint64 : ℤ → ℕ
uint64 (pos n) = n % u64_mod
uint64 (negsuc n) = u64_mod - 1 - n % u64_mod

-- `uint64(dev.Usedmem) << 20`
unfoldable pub memory : Device → ℕ
unfolding uint64
memory dev = (uint64 dev.used_mem * 1048576) % u64_mod

-- `uint64(dev.Usedcores)`
unfoldable pub cores : Device → ℕ
unfolding uint64
cores dev = uint64 dev.used_cores

-- The first `n` bytes of a text, `s[0:n]`.
unfoldable pub take_letters : ℕ → String → String
take_letters zero s = ""
take_letters (suc n) String.[] = ""
take_letters (suc n) (String.◌∷◌ c s) = String.◌∷◌ c (take_letters n s)

unfoldable pub letters : String → ℕ
letters String.[] = 0
letters (String.◌∷◌ c s) = suc (letters s)

abbrev nul : Char
nul = Prim.Native.Char.nul

abbrev pub nuls : ℕ → String
nuls zero = ""
nuls (suc n) = String.◌∷◌ nul (nuls n)

-- `uuid{uuid: [96]byte{}}`
abbrev pub no_uuid : String
no_uuid = nuls 96

-- `ConvertUUID`
unfoldable pub convert_uuid : String → Option String
unfolding letters
convert_uuid devuuid =
    if ltb (letters devuuid) 96 then some (devuuid <> nuls (96 - letters devuuid)) else none

-- `string(cache.uuids[i].uuid[:])[0:40]`
abbrev pub name_of : Slot → String
name_of slot = take_letters 40 slot.uuid

abbrev pub add_to : Slot → Option Device → Slot
add_to slot none = slot
add_to slot (some dev) = record slot {
  limit = (slot.limit + memory dev) % u64_mod;
  sm_limit = (slot.sm_limit + cores dev) % u64_mod;
}

abbrev pub sub_from : Slot → Option Device → Slot
sub_from slot none = slot
sub_from slot (some dev) = record slot {
  limit = (slot.limit + u64_mod - memory dev) % u64_mod;
  sm_limit = (slot.sm_limit + u64_mod - cores dev) % u64_mod;
}

abbrev pub cons_slot : Slot → Option (List Slot) → Option (List Slot)
cons_slot slot none = none
cons_slot slot (some slots) = some (slot ∷ slots)

-- A loop over the first `n` slots that changes each.
unfoldable pub each_slot : (Slot → Slot) → ℕ → List Slot → Option (List Slot)
each_slot f zero slots = some slots
each_slot f (suc n) [] = none
each_slot f (suc n) (slot ∷ slots) = cons_slot (f slot) (each_slot f n slots)

abbrev pub with_slots : SharedRegion → Option (List Slot) → Option SharedRegion
with_slots cache none = none
with_slots cache (some slots) = some (record cache { slots = slots })

-- The mutation of `addVGPUResource`.
unfoldable pub add_vgpu_resource : Dict Device → SharedRegion → Option SharedRegion
unfolding memory cores each_slot
add_vgpu_resource dev_map cache =
    with_slots cache
      (each_slot (λ slot. add_to slot (lookup (name_of slot) dev_map)) cache.num cache.slots)

-- The mutation of `subVGPUResource`.
unfoldable pub sub_vgpu_resource : Dict Device → SharedRegion → Option SharedRegion
unfolding memory cores each_slot
sub_vgpu_resource dev_map cache =
    with_slots cache
      (each_slot (λ slot. sub_from slot (lookup (name_of slot) dev_map)) cache.num cache.slots)

-- One slot of the first loop that attaches devices: the slot, and the devices that are left.
abbrev pub renew : Slot → Dict Device → Option Device → Slot × Dict Device
renew slot dev_map none = (slot, dev_map)
renew slot dev_map (some dev) =
    (record slot { limit = memory dev; sm_limit = cores dev }, erase (name_of slot) dev_map)

abbrev pub cons_renewed : Slot → Option (List Slot × Dict Device) → Option (List Slot × Dict Device)
cons_renewed slot none = none
cons_renewed slot (some (slots, left)) = some (slot ∷ slots, left)

-- The first loop of the attach in `ExecutePostMountActions`.
unfoldable pub renew_slots : Dict Device → ℕ → List Slot → Option (List Slot × Dict Device)
unfolding memory cores
renew_slots dev_map zero slots = some (slots, dev_map)
renew_slots dev_map (suc n) [] = none
renew_slots dev_map (suc n) (slot ∷ slots) =
    let (slot', left) = renew slot dev_map (lookup (name_of slot) dev_map) in
    cons_renewed slot' (renew_slots left n slots)

-- A new device behind the last one. An array has no entry 16.
abbrev pub put_new : SharedRegion → Device → Option Slot → Option String → Option SharedRegion
put_new cache dev none uuid = none
put_new cache dev (some slot) none = none
put_new cache dev (some slot) (some uuid) = some (record {
  num = (cache.num + 1) % u64_mod;
  slots =
      set cache.slots cache.num (record { uuid = uuid; limit = memory dev; sm_limit = cores dev });
})

abbrev pub then_region :
    (SharedRegion → Option SharedRegion) → Option SharedRegion → Option SharedRegion
then_region continue none = none
then_region continue (some cache) = continue cache

-- The second loop of the attach.
unfoldable pub append_devices : Dict Device → SharedRegion → Option SharedRegion
unfolding memory cores convert_uuid
append_devices [] cache = some cache
append_devices ((uuid, dev) ∷ dev_map) cache =
    then_region (append_devices dev_map)
      (put_new cache dev (get_elem? cache.slots cache.num) (convert_uuid uuid))

abbrev pub on_renewed : SharedRegion → Option (List Slot × Dict Device) → Option SharedRegion
on_renewed cache none = none
on_renewed cache (some (slots, left)) = append_devices left (record cache { slots = slots })

-- The mutation that attaches devices in `ExecutePostMountActions`.
unfoldable pub attach_devices : Dict Device → SharedRegion → Option SharedRegion
unfolding renew_slots append_devices
attach_devices dev_map cache = on_renewed cache (renew_slots dev_map cache.num cache.slots)

abbrev pub empty_slot : Slot
empty_slot = record { uuid = no_uuid; limit = 0; sm_limit = 0 }

-- One round of the loop that detaches, for the slot at the index.
abbrev pub after_round : Dict Device → SharedRegion → ℕ → Slot → SharedRegion
after_round dev_map cache i slot =
    if has_key (name_of slot) dev_map
    then record { num = (cache.num + u64_mod - 1) % u64_mod; slots = set cache.slots i empty_slot }
    else cache

abbrev pub detach_at :
    (SharedRegion → Option SharedRegion)
    → Dict Device
    → SharedRegion
    → ℕ
    → Option Slot
    → Option SharedRegion
detach_at continue dev_map cache i none = none
detach_at continue dev_map cache i (some slot) = continue (after_round dev_map cache i slot)

-- The loop of the detach from the index `i` - 1 down.
unfoldable pub detach_loop : Dict Device → ℕ → SharedRegion → Option SharedRegion
detach_loop dev_map zero cache = some cache
detach_loop dev_map (suc i) cache =
    detach_at (detach_loop dev_map i) dev_map cache i (get_elem? cache.slots i)

-- The mutation that detaches devices in `ExecutePostUnmountActions`; a `num` that is negative as an
-- `int64` ends the loop at once.
unfoldable pub detach_devices : Dict Device → SharedRegion → Option SharedRegion
unfolding detach_loop
detach_devices dev_map cache =
    if ltb cache.num 9223372036854775808 then detach_loop dev_map cache.num cache else some cache
