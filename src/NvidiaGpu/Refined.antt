-- ===== src/NvidiaGpu/Refined.antt =====
-- What an update of the collector (pkg/devices/nvidia/gpu/collector.go) makes of each GPU.
use device_mounter.Base.{
  ℕ, String, Bool, true, false, Option, none, some, List, [], ◌∷◌, ◌++◌, ◌≡◌, refl, ap, ◌∙◌, eqs,
  eqs→eq, Bool-cases, inl, inr, arith, if◌then◌else◌,
}
use device_mounter.Api.{GoError, Result, ok, err}
use device_mounter.NvidiaGpu.{
  Owner, GpuState, free, allocated, NvidiaGpu, PodResources, Moment, Host, Collector, new,
}
use device_mounter.NvidiaGpu.Status.{
  search_gpu_minor_by_uuid, reset_gpu_status, get_gpu_by_uuid, allocate, allocate_first, discover,
  on_gpu, claim, on_resources, update_gpu_status,
}
use device_mounter.NvidiaGpu.Claims.{Claim, claims_of, claim_all, claim_pods-claims}

abbrev pub owner_if : GpuState → Owner → Option Owner
owner_if free owner = none
owner_if allocated owner = some owner

-- What is known of a GPU: nothing, that it is free, or its owner.
abbrev pub status : String → List NvidiaGpu → Option (Option Owner)
status uuid [] = none
status uuid (gpu ∷ gpus) =
    if eqs gpu.uuid uuid then some (owner_if gpu.state gpu.owner) else status uuid gpus

-- The owner that is listed last for a GPU.
abbrev pub last_owner : String → List Claim → Option Owner
last_owner uuid [] = none
last_owner uuid ((id, owner) ∷ claims) = elim (last_owner uuid claims) [
  | some later ↦ some later
  | none ↦ if eqs id uuid then some owner else none
]

abbrev pub freed : Option (Option Owner) → Option (Option Owner)
freed none = none
freed (some owner) = some none

-- A listed GPU has its owner if it was known, or if NVML has a minor number for it.
abbrev pub settle : Result ℕ → Option Owner → Option (Option Owner) → Option (Option Owner)
settle minor none before = before
settle minor (some owner) (some known) = some (some owner)
settle (ok minor) (some owner) none = some (some owner)
settle (err e) (some owner) none = none

status-append :
    (uuid : String) (gpus : List NvidiaGpu) (gpu : NvidiaGpu)
    → status uuid (gpus ++ gpu ∷ []) ≡ (elim (status uuid gpus) [
      | some known ↦ some known
      | none ↦ if eqs gpu.uuid uuid then some (owner_if gpu.state gpu.owner) else none
    ])
status-append uuid [] gpu = refl
status-append uuid (first ∷ gpus) gpu = ground (arith, status-append uuid gpus gpu)

status-reset :
    (uuid : String) (gpus : List NvidiaGpu)
    → status uuid (reset_gpu_status gpus) ≡ freed (status uuid gpus)
unfolding reset_gpu_status
status-reset uuid [] = refl
status-reset uuid (gpu ∷ gpus) = ground (arith, status-reset uuid gpus)

-- A known GPU has the new owner.
abbrev owned_now : Owner → Option (Option Owner) → Option (Option Owner)
owned_now owner none = none
owned_now owner (some known) = some (some owner)

status-allocate_first :
    (uuid id : String) (owner : Owner) (gpus : List NvidiaGpu)
    → status uuid (allocate_first owner id gpus)
      ≡ (if eqs id uuid then owned_now owner (status uuid gpus) else status uuid gpus)
unfolding allocate_first
status-allocate_first uuid id owner [] = ground arith
status-allocate_first uuid id owner (gpu ∷ gpus) =
    ground (arith, status-allocate_first uuid id owner gpus)

unknown_status :
    (uuid : String) (gpus : List NvidiaGpu) (e : GoError)
    → get_gpu_by_uuid uuid gpus ≡ err e
    → status uuid gpus ≡ none
unfolding get_gpu_by_uuid
unknown_status uuid [] e h = refl
unknown_status uuid (gpu ∷ gpus) e h = ground (arith, unknown_status uuid gpus e)

known_status :
    (uuid : String) (gpus : List NvidiaGpu) (gpu : NvidiaGpu)
    → get_gpu_by_uuid uuid gpus ≡ ok gpu
    → (known : Option Owner) × (status uuid gpus ≡ some known)
unfolding get_gpu_by_uuid
known_status uuid [] gpu h = absurd (ground arith)
known_status uuid (first ∷ gpus) gpu h = elim (Bool-cases (eqs first.uuid uuid)) [
  | inl same ↦ (owner_if first.state first.owner, rw same refl)
  | inr other ↦ rw other (known_status uuid gpus gpu (ground arith))
]

module _ (host : Host) where
  status-discover :
      (uuid id : String) (owner : Owner) (gpus : List NvidiaGpu) (minor : Result ℕ)
      → status id gpus ≡ none
      → status uuid (discover host owner id gpus minor)
        ≡ (if eqs id uuid then settle minor (some owner) (status uuid gpus) else status uuid gpus)
  unfolding new
  status-discover uuid id owner gpus (err e) unknown = ground arith
  status-discover uuid id owner gpus (ok minor) unknown =
      ground (arith, status-append uuid gpus (allocate owner (new host minor id)))

  module _ (moment : Moment) where
    abbrev minor_of : String → Result ℕ
    minor_of uuid = search_gpu_minor_by_uuid moment.nvml uuid

    status-on_gpu :
        (uuid id : String) (owner : Owner) (gpus : List NvidiaGpu) (r : Result NvidiaGpu)
        → get_gpu_by_uuid id gpus ≡ r
        → status uuid (on_gpu host moment owner id gpus r) ≡ (
            if eqs id uuid
            then settle (minor_of uuid) (some owner) (status uuid gpus)
            else status uuid gpus)
    status-on_gpu uuid id owner gpus (err e) at =
        status-discover uuid id owner gpus (minor_of id) (unknown_status id gpus e at)
        ∙ same_minor (eqs id uuid) (eqs→eq id uuid)
      where
        same_minor :
            (b : Bool)
            → (b ≡ true → id ≡ uuid)
            → (if b then settle (minor_of id) (some owner) (status uuid gpus) else status uuid gpus)
              ≡ (if b
                  then settle (minor_of uuid) (some owner) (status uuid gpus)
                  else status uuid gpus)
        same_minor true same =
            ap (λ s. settle (minor_of s) (some owner) (status uuid gpus)) (same refl)
        same_minor false same = refl
    status-on_gpu uuid id owner gpus (ok gpu) at =
        let (known, here) = known_status id gpus gpu at in
        status-allocate_first uuid id owner gpus ∙ (ground arith)

    status-claim_all :
        (uuid : String) (claims : List Claim) (gpus : List NvidiaGpu)
        → status uuid (claim_all host moment claims gpus)
          ≡ settle (minor_of uuid) (last_owner uuid claims) (status uuid gpus)
    unfolding claim
    status-claim_all uuid [] gpus = refl
    status-claim_all uuid ((id, owner) ∷ claims) gpus =
        status-claim_all uuid claims (claim host moment owner id gpus)
        ∙ ap (settle (minor_of uuid) (last_owner uuid claims))
            (status-on_gpu uuid id owner gpus (get_gpu_by_uuid id gpus) refl)
        ∙ settle_twice (minor_of uuid) (last_owner uuid claims) (eqs id uuid) (status uuid gpus)
      where
        settle_twice :
            (minor : Result ℕ) (later : Option Owner) (b : Bool) (before : Option (Option Owner))
            → settle minor later (if b then settle minor (some owner) before else before)
              ≡ settle minor
                  (elim later [ some o ↦ some o | none ↦ if b then some owner else none ])
                  before
        settle_twice minor none true before = refl
        settle_twice minor none false before = refl
        settle_twice minor (some o) false before = refl
        settle_twice (ok m) (some o) true none = refl
        settle_twice (err e) (some o) true none = refl
        settle_twice (ok m) (some o) true (some known) = refl
        settle_twice (err e) (some o) true (some known) = refl

    -- What an update is to make of a GPU, given the answer of the kubelet.
    abbrev pub updated :
        Result (List PodResources) → String → Option (Option Owner) → Option (Option Owner)
    updated (err e) uuid before = before
    updated (ok pods) uuid before =
        settle (minor_of uuid) (last_owner uuid (claims_of pods)) (freed before)

    on_resources-updated :
        (collector : Collector) (r : Result (List PodResources)) (uuid : String)
        → status uuid (on_resources host moment collector r).1.gpu_list
          ≡ updated r uuid (status uuid collector.gpu_list)
    on_resources-updated collector (err e) uuid = refl
    on_resources-updated collector (ok pods) uuid =
        ap (status uuid) (claim_pods-claims host moment pods (reset_gpu_status collector.gpu_list))
        ∙ status-claim_all uuid (claims_of pods) (reset_gpu_status collector.gpu_list)
        ∙ ap (settle (minor_of uuid) (last_owner uuid (claims_of pods)))
            (status-reset uuid collector.gpu_list)

  -- An update leaves each GPU, known before or not, as the answer of the kubelet says: with the owner
  -- that lists it last, else free if it was known. A GPU that is listed and was not known is passed
  -- over if NVML gives no minor number for it. If the kubelet does not answer, each stays as it was.
  pub update_gpu_status-updated :
      (collector : Collector) (uuid : String)
      → let moment = host.moment collector.updates in
        status uuid (update_gpu_status host collector).1.gpu_list
        ≡ updated moment moment.list_pod_resources uuid (status uuid collector.gpu_list)
  unfolding update_gpu_status
  update_gpu_status-updated collector uuid =
      on_resources-updated (host.moment collector.updates) collector
        (host.moment collector.updates).list_pod_resources uuid
