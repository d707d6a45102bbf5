-- ===== src/Vgpu/Region/Attached.antt =====
-- The attach of new devices in ExecutePostMountActions (pkg/devices/volcano/vgpu/device_info.go):
-- when the region has room.
use device_mounter.Base.{
  ℕ, zero, suc, ◌+◌, ◌-◌, ◌%◌, ◌≤◌, ◌<◌, String, ◌<>◌, Option, none, some, List, [], ◌∷◌, ◌≡◌, refl,
  ◌∙◌, ap, sym, arith, All, length, length-append, append_assoc, ◌++◌, map, get_elem?, set,
}
use mathlib.Core.Option.{some-injective}
use device_mounter.Base.Dict.{Dict}
use device_mounter.Vgpu.{Device}
use device_mounter.Vgpu.Region.{
  u64_mod, Slot, SharedRegion, letters, nuls, convert_uuid, put_new, then_region, append_devices,
  memory, cores,
}

pub get_elem?-some :
    {A : Type 0} (xs : List A) (i : ℕ) → i < length xs → (x : A) × (get_elem? xs i ≡ some x)
get_elem?-some [] i h = absurd (omega (arith, h))
get_elem?-some (x ∷ xs) zero h = (x, refl)
get_elem?-some (x ∷ xs) (suc i) h = get_elem?-some xs i (omega (arith, h))

get_elem?-none : {A : Type 0} (xs : List A) (i : ℕ) → length xs ≤ i → get_elem? xs i ≡ none
get_elem?-none [] i h = refl
get_elem?-none (x ∷ xs) zero h = absurd (omega (arith, h))
get_elem?-none (x ∷ xs) (suc i) h = get_elem?-none xs i (omega (arith, h))

pub length-set : {A : Type 0} (xs : List A) (i : ℕ) (v : A) → length (set xs i v) ≡ length xs
length-set [] i v = refl
length-set (x ∷ xs) zero v = refl
length-set (x ∷ xs) (suc i) v = ap suc (length-set xs i v)

-- An identifier that fits into 96 bytes with the zero byte behind it.
abbrev pub IsShort : String × Device → Type 0
IsShort (uuid, dev) = letters uuid < 96

convert_uuid-short :
    (s : String) → letters s < 96 → convert_uuid s ≡ some (s <> nuls (96 - letters s))
unfolding convert_uuid
convert_uuid-short s h = ground (arith, h)

-- The slot that a new device gets.
abbrev pub new_slot : String × Device → Slot
new_slot (uuid, dev) = record {
  uuid = uuid <> nuls (96 - letters uuid);
  limit = memory dev;
  sm_limit = cores dev;
}

get_elem?-middle :
    {A : Type 0} (xs : List A) (x : A) (ys : List A) → get_elem? (xs ++ x ∷ ys) (length xs) ≡ some x
get_elem?-middle [] x ys = refl
get_elem?-middle (y ∷ xs) x ys = get_elem?-middle xs x ys

set-middle :
    {A : Type 0} (xs : List A) (x y : A) (ys : List A)
    → set (xs ++ x ∷ ys) (length xs) y ≡ (xs ++ y ∷ []) ++ ys
set-middle [] x y ys = refl
set-middle (z ∷ xs) x y ys = ap (λ l. z ∷ l) (set-middle xs x y ys)

-- In a region of 16 slots, of which `used` are in use, devices with identifiers below 96 bytes are
-- appended if there are as many slots `free` behind these: the devices get those slots, in their
-- order, each with its identifier, memory and cores; no other slot changes, and the region counts
-- them.
pub append_devices-fits :
    (dev_map : Dict Device) (used free rest : List Slot)
    → length free ≡ length dev_map
    → length used + length dev_map + length rest ≡ 16
    → All IsShort dev_map
    → append_devices dev_map (record { num = length used; slots = used ++ (free ++ rest) })
      ≡ some (record {
        num = length used + length dev_map;
        slots = used ++ (map new_slot dev_map ++ rest);
      })
unfolding append_devices
append_devices-fits [] used [] rest same wide short =
    ap some (ap (λ n. record { num = n; slots = used ++ rest }) (omega arith))
append_devices-fits [] used (x ∷ free) rest same wide short = absurd (omega (arith, same))
append_devices-fits ((uuid, dev) ∷ dev_map) used [] rest same wide short =
    absurd (omega (arith, same))
append_devices-fits ((uuid, dev) ∷ dev_map) used (x ∷ free) rest same wide short =
    let slot : Slot = new_slot (uuid, dev) in
    let counted : (length used + 1) % u64_mod ≡ length (used ++ slot ∷ []) =
      omega (arith, wide, length-append used (slot ∷ [])) in
    rw
      (
        get_elem?-middle used x (free ++ rest),
        convert_uuid-short uuid short.0,
        set-middle used x slot (free ++ rest),
        counted,
      )
      (append_devices-fits dev_map (used ++ slot ∷ []) free rest (omega (arith, same))
          (omega (arith, wide, length-append used (slot ∷ []))) short.1
        ∙ ap some (
            ap
              (λ n. record {
                num = n;
                slots = (used ++ slot ∷ []) ++ (map new_slot dev_map ++ rest);
              })
              (omega (arith, length-append used (slot ∷ [])))
            ∙ ap (λ l. record { num = length used + suc (length dev_map); slots = l })
                (append_assoc used (slot ∷ []) (map new_slot dev_map ++ rest))))

get_elem?-lt : {A : Type 0} (xs : List A) (i : ℕ) (x : A) → get_elem? xs i ≡ some x → i < length xs
get_elem?-lt [] i x h = absurd (ground arith)
get_elem?-lt (y ∷ xs) zero x h = omega arith
get_elem?-lt (y ∷ xs) (suc i) x h = omega (arith, get_elem?-lt xs i x h)

then_region-none :
    (continue : SharedRegion → Option SharedRegion) (next : Option SharedRegion)
    → ((cache : SharedRegion) → next ≡ some cache → continue cache ≡ none)
    → then_region continue next ≡ none
then_region-none continue none h = refl
then_region-none continue (some cache) h = h cache refl

put_new-some :
    (cache cache' : SharedRegion) (dev : Device) (slot : Option Slot) (uuid : Option String)
    → put_new cache dev slot uuid ≡ some cache'
    → (there : Slot) × ((slot ≡ some there)
        × ((cache'.num ≡ (cache.num + 1) % u64_mod) × (length cache'.slots ≡ length cache.slots)))
put_new-some cache cache' dev none uuid e = absurd (ground arith)
put_new-some cache cache' dev (some slot) none e = absurd (ground arith)
put_new-some cache cache' dev (some slot) (some uuid) e =
    let same = some-injective _ _ e in
    (
      slot,
      (
        refl,
        (
          sym (ap (λ (c : SharedRegion). c.num) same),
          sym (ap (λ (c : SharedRegion). length c.slots) same) ∙ length-set cache.slots cache.num _,
        ),
      ),
    )

-- In a region of 16 slots, more devices than there are slots left are an index out of range.
pub append_devices-full :
    (dev_map : Dict Device) (cache : SharedRegion)
    → length cache.slots ≡ 16
    → cache.num ≤ 16
    → 16 < cache.num + length dev_map
    → append_devices dev_map cache ≡ none
unfolding append_devices
append_devices-full [] cache wide used full = absurd (omega (arith, used, full))
append_devices-full ((uuid, dev) ∷ dev_map) cache wide used full =
    then_region-none (append_devices dev_map) _ (λ cache' e.
      let (slot, (there, (next, same))) = put_new-some cache cache' dev _ _ e in
      let below = get_elem?-lt cache.slots cache.num slot there in
      append_devices-full dev_map cache' (same ∙ wide) (omega (arith, next, below, wide))
        (omega (arith, next, below, wide, full)))
