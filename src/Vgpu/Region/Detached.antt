-- ===== src/Vgpu/Region/Detached.antt =====
-- The detach of devices in ExecutePostUnmountActions (pkg/devices/volcano/vgpu/device_info.go).
use device_mounter.Base.{
  ℕ, zero, suc, ◌+◌, ◌-◌, ◌%◌, ◌≤◌, ◌<◌, Bool, true, false, some, List, [], ◌∷◌, ◌≡◌, refl, ◌∙◌, ap,
  sym, arith, length, get_elem?, set, ltb, if◌then◌else◌,
}
use mathlib.Core.Option.{some-injective}
use device_mounter.Base.Dict.{Dict, has_key}
use device_mounter.Vgpu.{Device}
use device_mounter.Vgpu.Region.{
  u64_mod, Slot, SharedRegion, name_of, empty_slot, after_round, detach_at, detach_loop,
  detach_devices,
}
use device_mounter.Vgpu.Region.Attached.{get_elem?-some, length-set}

-- The slot as it is left: emptied if its device is one of those to detach.
abbrev pub cleared : Dict Device → Slot → Slot
cleared dev_map slot = if has_key (name_of slot) dev_map then empty_slot else slot

-- The slots with the first `n` cleared.
abbrev pub clear : Dict Device → ℕ → List Slot → List Slot
clear dev_map zero slots = slots
clear dev_map (suc n) [] = []
clear dev_map (suc n) (slot ∷ slots) = cleared dev_map slot ∷ clear dev_map n slots

abbrev hit : Dict Device → Slot → ℕ
hit dev_map slot = if has_key (name_of slot) dev_map then 1 else 0

-- How many of the first `n` slots have a device to detach.
abbrev pub hits : Dict Device → ℕ → List Slot → ℕ
hits dev_map zero slots = 0
hits dev_map (suc n) [] = 0
hits dev_map (suc n) (slot ∷ slots) = hit dev_map slot + hits dev_map n slots

clear-suc :
    (dev_map : Dict Device) (i : ℕ) (slots : List Slot) (slot : Slot)
    → get_elem? slots i ≡ some slot
    → clear dev_map (suc i) slots ≡ clear dev_map i (set slots i (cleared dev_map slot))
clear-suc dev_map zero [] slot e = absurd (ground arith)
clear-suc dev_map (suc i) [] slot e = absurd (ground arith)
clear-suc dev_map zero (s ∷ slots) slot e =
    ap (λ x. cleared dev_map x ∷ slots) (some-injective _ _ e)
clear-suc dev_map (suc i) (s ∷ slots) slot e =
    ap (λ l. cleared dev_map s ∷ l) (clear-suc dev_map i slots slot e)

hits-suc :
    (dev_map : Dict Device) (i : ℕ) (slots : List Slot) (slot v : Slot)
    → get_elem? slots i ≡ some slot
    → hits dev_map (suc i) slots ≡ hits dev_map i (set slots i v) + hit dev_map slot
hits-suc dev_map zero [] slot v e = absurd (ground arith)
hits-suc dev_map (suc i) [] slot v e = absurd (ground arith)
hits-suc dev_map zero (s ∷ slots) slot v e = omega (arith, ap (hit dev_map) (some-injective _ _ e))
hits-suc dev_map (suc i) (s ∷ slots) slot v e = omega (arith, hits-suc dev_map i slots slot v e)

set_same : {A : Type 0} (xs : List A) (i : ℕ) (x : A) → get_elem? xs i ≡ some x → set xs i x ≡ xs
set_same [] i x e = refl
set_same (y ∷ xs) zero x e = ap (λ z. z ∷ xs) (sym (some-injective _ _ e))
set_same (y ∷ xs) (suc i) x e = ap (λ l. y ∷ l) (set_same xs i x e)

after_round-eq :
    (dev_map : Dict Device) (cache : SharedRegion) (i : ℕ) (slot : Slot)
    → get_elem? cache.slots i ≡ some slot
    → hit dev_map slot ≤ cache.num
    → cache.num < u64_mod
    → after_round dev_map cache i slot ≡ record {
      num = cache.num - hit dev_map slot;
      slots = set cache.slots i (cleared dev_map slot);
    }
after_round-eq dev_map cache i slot e enough word = go (has_key (name_of slot) dev_map) enough
  where
    go :
        (b : Bool)
        → (if b then 1 else 0) ≤ cache.num
        → (if b
            then record {
              num = (cache.num + u64_mod - 1) % u64_mod;
              slots = set cache.slots i empty_slot;
            }
            else cache)
          ≡ record {
            num = cache.num - (if b then 1 else 0);
            slots = set cache.slots i (if b then empty_slot else slot);
          }
    go true h =
        ap (λ n. record { num = n; slots = set cache.slots i empty_slot }) (omega (arith, h, word))
    go false h =
        ap (λ n. record { num = n; slots = cache.slots }) (omega arith)
        ∙ ap (λ l. record { num = cache.num - 0; slots = l }) (sym (set_same cache.slots i slot e))

hit_le : (dev_map : Dict Device) (slot : Slot) → hit dev_map slot ≤ 1
hit_le dev_map slot = ground arith

hits_le : (dev_map : Dict Device) (n : ℕ) (slots : List Slot) → hits dev_map n slots ≤ n
hits_le dev_map zero slots = omega arith
hits_le dev_map (suc n) [] = omega arith
hits_le dev_map (suc n) (slot ∷ slots) = omega (arith, hits_le dev_map n slots, hit_le dev_map slot)

detach_loop-clear :
    (dev_map : Dict Device) (i : ℕ) (cache : SharedRegion)
    → i ≤ length cache.slots
    → hits dev_map i cache.slots ≤ cache.num
    → cache.num < u64_mod
    → detach_loop dev_map i cache
      ≡ some (record {
        num = cache.num - hits dev_map i cache.slots;
        slots = clear dev_map i cache.slots;
      })
unfolding detach_loop
detach_loop-clear dev_map zero cache inside enough word =
    ap (λ n. some (record { num = n; slots = cache.slots })) (omega arith)
detach_loop-clear dev_map (suc i) cache inside enough word =
    let (slot, found) = get_elem?-some cache.slots i (omega (arith, inside)) in
    let count = hits-suc dev_map i cache.slots slot (cleared dev_map slot) found in
    let next : SharedRegion = record {
      num = cache.num - hit dev_map slot;
      slots = set cache.slots i (cleared dev_map slot);
    } in
    let round : after_round dev_map cache i slot ≡ next =
      after_round-eq dev_map cache i slot found (omega (arith, count, enough)) word in
    ap (detach_at (detach_loop dev_map i) dev_map cache i) found
    ∙ ap (detach_loop dev_map i) round
    ∙ detach_loop-clear dev_map i next
        (omega (arith, inside, length-set cache.slots i (cleared dev_map slot)))
        (omega (arith, count, enough)) (omega (arith, word))
    ∙ ap (λ n. some (record { num = n; slots = clear dev_map i next.slots })) (omega (arith, count))
    ∙ ap (λ l. some (record { num = cache.num - hits dev_map (suc i) cache.slots; slots = l }))
        (sym (clear-suc dev_map i cache.slots slot found))

-- In a region of 16 slots whose first `num` are used, and after the detach of the devices of a map,
-- exactly the used slots of these devices are emptied, no slot is moved, and the region counts as
-- many devices less as slots were emptied.
pub detach_devices-clear :
    (dev_map : Dict Device) (cache : SharedRegion)
    → length cache.slots ≡ 16
    → cache.num ≤ 16
    → detach_devices dev_map cache
      ≡ some (record {
        num = cache.num - hits dev_map cache.num cache.slots;
        slots = clear dev_map cache.num cache.slots;
      })
unfolding detach_devices
detach_devices-clear dev_map cache wide used = rw (below cache.num used) (
    detach_loop-clear dev_map cache.num cache (omega (arith, wide, used))
      (hits_le dev_map cache.num cache.slots) (omega (arith, used)))
  where
    below : (n : ℕ) → n ≤ 16 → ltb n 9223372036854775808 ≡ true
    below n h = ground (arith, h)
