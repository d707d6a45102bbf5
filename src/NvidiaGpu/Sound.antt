-- ===== src/NvidiaGpu/Sound.antt =====
-- The invariant of the list of GPUs in pkg/devices/nvidia/gpu/collector.go.
use mathlib.Core.Path.{subst}
use device_mounter.Base.{
  ℕ, String, ◌<>◌, false, ◌||◌, List, [], ◌∷◌, ◌++◌, ◌≡◌, refl, sym, ap, ◌∙◌, eqs, Bool-cases, inl,
  inr, map, arith, contains, All, All-append, append-nil, append_assoc,
}
use device_mounter.Api.{GoError, Result, ok, err}
use device_mounter.NvidiaGpu.{
  Owner, GpuState, free, allocated, NvidiaGpu, PodResources, Moment, Host, Collector, no_owner, new,
}
use device_mounter.NvidiaGpu.Status.{
  search_gpu_minor_by_uuid, reset_gpu_status, get_gpu_by_uuid, allocate, allocate_first, discover,
  on_gpu, claim, on_resources, update_gpu_status,
}
use device_mounter.NvidiaGpu.Claims.{Claim, claims_of, claim_all, claim_pods-claims}

abbrev pub uuids : List NvidiaGpu → List String
uuids gpus = map (λ gpu. gpu.uuid) gpus

abbrev pub IsDistinct : List String → Type 0
IsDistinct [] = Unit
IsDistinct (x ∷ xs) = (contains xs x ≡ false) × IsDistinct xs

abbrev pub IsUnowned : GpuState → Owner → Type 0
IsUnowned free owner = owner ≡ no_owner
IsUnowned allocated owner = Unit

contains-append :
    (xs : List String) (y x : String) → contains (xs ++ y ∷ []) x ≡ (contains xs x || eqs y x)
contains-append [] y x = ground arith
contains-append (z ∷ xs) y x = ground (arith, contains-append xs y x)

IsDistinct-append :
    (xs : List String) (y : String)
    → contains xs y ≡ false
    → IsDistinct xs
    → IsDistinct (xs ++ y ∷ [])
IsDistinct-append [] y new h = (refl, tt)
IsDistinct-append (x ∷ xs) y new h =
    (ground (arith, contains-append xs y x), IsDistinct-append xs y (ground arith) h.1)

module _ (host : Host) where
  -- Each GPU has its own UUID, its file is that of its minor number, and it has no owner if it is free.
  abbrev pub IsConsistent : NvidiaGpu → Type 0
  IsConsistent gpu =
      (gpu.device_file_path ≡ "/dev/nvidia" <> host.show_number gpu.minor_number)
      × IsUnowned gpu.state gpu.owner

  pub record IsSound (gpus : List NvidiaGpu) : Type 0 where
    pub distinct : IsDistinct (uuids gpus)
    pub consistent : All IsConsistent gpus

  uuids-reset : (gpus : List NvidiaGpu) → uuids (reset_gpu_status gpus) ≡ uuids gpus
  unfolding reset_gpu_status
  uuids-reset [] = refl
  uuids-reset (gpu ∷ gpus) = ap (λ l. gpu.uuid ∷ l) (uuids-reset gpus)

  reset-IsConsistent :
      (gpus : List NvidiaGpu) → All IsConsistent gpus → All IsConsistent (reset_gpu_status gpus)
  unfolding reset_gpu_status
  reset-IsConsistent [] h = tt
  reset-IsConsistent (gpu ∷ gpus) h = ((h.0.0, refl), reset-IsConsistent gpus h.1)

  uuids-allocate_first :
      (owner : Owner) (uuid : String) (gpus : List NvidiaGpu)
      → uuids (allocate_first owner uuid gpus) ≡ uuids gpus
  unfolding allocate_first
  uuids-allocate_first owner uuid [] = refl
  uuids-allocate_first owner uuid (gpu ∷ gpus) = elim (Bool-cases (eqs gpu.uuid uuid)) [
    | inl same ↦ rw same refl
    | inr other ↦ rw other (ap (λ l. gpu.uuid ∷ l) (uuids-allocate_first owner uuid gpus))
  ]

  allocate_first-IsConsistent :
      (owner : Owner) (uuid : String) (gpus : List NvidiaGpu)
      → All IsConsistent gpus
      → All IsConsistent (allocate_first owner uuid gpus)
  unfolding allocate_first
  allocate_first-IsConsistent owner uuid [] h = tt
  allocate_first-IsConsistent owner uuid (gpu ∷ gpus) h = elim (Bool-cases (eqs gpu.uuid uuid)) [
    | inl same ↦ rw same ((h.0.0, tt), h.1)
    | inr other ↦ rw other (h.0, allocate_first-IsConsistent owner uuid gpus h.1)
  ]

  not_listed :
      (uuid : String) (gpus : List NvidiaGpu) (e : GoError)
      → get_gpu_by_uuid uuid gpus ≡ err e
      → contains (uuids gpus) uuid ≡ false
  unfolding get_gpu_by_uuid
  not_listed uuid [] e h = refl
  not_listed uuid (gpu ∷ gpus) e h = ground (arith, not_listed uuid gpus e)

  uuids-append :
      (gpus : List NvidiaGpu) (gpu : NvidiaGpu)
      → uuids (gpus ++ gpu ∷ []) ≡ uuids gpus ++ gpu.uuid ∷ []
  uuids-append [] gpu = refl
  uuids-append (first ∷ gpus) gpu = ap (λ l. first.uuid ∷ l) (uuids-append gpus gpu)

  -- The list is sound, and the GPUs before are its first ones.
  pub record HasGrown (gpus more : List NvidiaGpu) : Type 0 where
    pub sound : IsSound more
    pub added : List String
    pub grown : uuids more ≡ uuids gpus ++ added

  kept :
      (gpus more : List NvidiaGpu)
      → uuids more ≡ uuids gpus
      → IsSound gpus
      → All IsConsistent more
      → HasGrown gpus more
  kept gpus more same sound consistent = record {
    sound = record {
      distinct = subst IsDistinct (sym same) sound.distinct;
      consistent = consistent;
    };
    added = [];
    grown = same ∙ sym (append-nil (uuids gpus));
  }

  discover-HasGrown :
      (owner : Owner) (uuid : String) (gpus : List NvidiaGpu) (minor : Result ℕ)
      → contains (uuids gpus) uuid ≡ false
      → IsSound gpus
      → HasGrown gpus (discover host owner uuid gpus minor)
  unfolding new
  discover-HasGrown owner uuid gpus (err e) unknown sound =
      kept gpus gpus refl sound sound.consistent
  discover-HasGrown owner uuid gpus (ok minor) unknown sound =
      let grown : uuids (gpus ++ allocate owner (new host minor uuid) ∷ [])
          ≡ uuids gpus ++ uuid ∷ [] =
        uuids-append gpus (allocate owner (new host minor uuid)) in
      record {
        sound = record {
          distinct =
              subst IsDistinct (sym grown)
                (IsDistinct-append (uuids gpus) uuid unknown sound.distinct);
          consistent =
              All-append IsConsistent gpus (allocate owner (new host minor uuid) ∷ [])
                sound.consistent ((refl, tt), tt);
        };
        added = uuid ∷ [];
        grown = grown;
      }

  on_gpu-HasGrown :
      (moment : Moment) (owner : Owner) (uuid : String) (gpus : List NvidiaGpu)
      (r : Result NvidiaGpu)
      → get_gpu_by_uuid uuid gpus ≡ r
      → IsSound gpus
      → HasGrown gpus (on_gpu host moment owner uuid gpus r)
  on_gpu-HasGrown moment owner uuid gpus (err e) at sound =
      discover-HasGrown owner uuid gpus (search_gpu_minor_by_uuid moment.nvml uuid)
        (not_listed uuid gpus e at) sound
  on_gpu-HasGrown moment owner uuid gpus (ok gpu) at sound =
      kept gpus (allocate_first owner uuid gpus) (uuids-allocate_first owner uuid gpus) sound
        (allocate_first-IsConsistent owner uuid gpus sound.consistent)

  grown_twice :
      (gpus more most : List NvidiaGpu)
      → HasGrown gpus more
      → HasGrown more most
      → HasGrown gpus most
  grown_twice gpus more most h k = record {
    sound = k.sound;
    added = h.added ++ k.added;
    grown = k.grown ∙ ap (λ l. l ++ k.added) h.grown ∙ append_assoc (uuids gpus) h.added k.added;
  }

  claim_all-HasGrown :
      (moment : Moment) (claims : List Claim) (gpus : List NvidiaGpu)
      → IsSound gpus
      → HasGrown gpus (claim_all host moment claims gpus)
  unfolding claim
  claim_all-HasGrown moment [] gpus sound = kept gpus gpus refl sound sound.consistent
  claim_all-HasGrown moment ((uuid, owner) ∷ claims) gpus sound =
      let one : HasGrown gpus (claim host moment owner uuid gpus) =
        on_gpu-HasGrown moment owner uuid gpus (get_gpu_by_uuid uuid gpus) refl sound in
      grown_twice gpus (claim host moment owner uuid gpus) _ one
        (claim_all-HasGrown moment claims (claim host moment owner uuid gpus) one.sound)

  on_resources-HasGrown :
      (moment : Moment) (collector : Collector) (r : Result (List PodResources))
      → IsSound collector.gpu_list
      → HasGrown collector.gpu_list (on_resources host moment collector r).1.gpu_list
  on_resources-HasGrown moment collector (err e) sound =
      kept collector.gpu_list collector.gpu_list refl sound sound.consistent
  on_resources-HasGrown moment collector (ok pods) sound =
      let fresh : HasGrown collector.gpu_list (reset_gpu_status collector.gpu_list) =
        kept collector.gpu_list (reset_gpu_status collector.gpu_list)
          (uuids-reset collector.gpu_list) sound
          (reset-IsConsistent collector.gpu_list sound.consistent) in
      subst (HasGrown collector.gpu_list)
        (sym (claim_pods-claims host moment pods (reset_gpu_status collector.gpu_list)))
        (grown_twice collector.gpu_list (reset_gpu_status collector.gpu_list) _ fresh (
          claim_all-HasGrown moment (claims_of pods) (reset_gpu_status collector.gpu_list)
            fresh.sound))

  -- An update keeps the list sound: the UUIDs stay distinct, each device file is that of the minor
  -- number, a free GPU has no owner. It drops and moves no GPU, and puts new ones at the end.
  pub update_gpu_status-HasGrown :
      (collector : Collector)
      → IsSound collector.gpu_list
      → HasGrown collector.gpu_list (update_gpu_status host collector).1.gpu_list
  unfolding update_gpu_status
  update_gpu_status-HasGrown collector sound =
      on_resources-HasGrown (host.moment collector.updates) collector
        (host.moment collector.updates).list_pod_resources sound
