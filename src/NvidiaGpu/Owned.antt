-- ===== src/NvidiaGpu/Owned.antt =====
-- Whose GPUs the plugin of pkg/devices/nvidia/gpu takes for those of its slave pods.
use mathlib.Core.Path.{subst}
use device_mounter.Base.{
  ℕ, suc, String, Bool, true, some, List, [], ◌∷◌, ◌≡◌, ◌≢◌, ◌⊎◌, refl, sym, ap, ◌∙◌, eqs, eqs→eq,
  Bool-cases, inl, inr, keep, arith, get_elem?, All, All-append,
}
use device_mounter.Api.{Result, ok, err, Pod}
use device_mounter.NvidiaGpu.{
  Owner, NvidiaGpu, PodResources, Moment, Host, Collector, no_owner, new,
}
use device_mounter.NvidiaGpu.Status.{
  search_gpu_minor_by_uuid, reset_gpu_status, get_gpu_by_uuid, allocate, allocate_first, discover,
  on_gpu, claim, on_resources, update_gpu_status, claim_pods, owned_by, select,
  get_pod_gpu_resources,
}
use device_mounter.NvidiaGpu.Claims.{Claim, claims_of, claim_all, claim_pods-claims}
use device_mounter.NvidiaGpu.Plugin.{
  char_device, gpu_info, more_gpus, slave_gpus, with_version, append_driver_files, on_owned,
  on_slave_gpus, get_device_infos_to_mount,
}
use device_mounter.NvidiaGpu.Plugin

abbrev pub IsIn {ℓ} : {A : Type ℓ} → A → List A → Type ℓ
IsIn x xs = (i : ℕ) × (get_elem? xs i ≡ some x)

All-weaken {ℓ κ} :
    {A : Type ℓ} (P Q : A → Type κ) (xs : List A) → ((x : A) → P x → Q x) → All P xs → All Q xs
All-weaken P Q [] f h = tt
All-weaken P Q (x ∷ xs) f h = (f x h.0, All-weaken P Q xs f h.1)

All-IsIn {ℓ} : {A : Type ℓ} (xs : List A) → All (λ x. IsIn x xs) xs
All-IsIn [] = tt
All-IsIn (x ∷ xs) = (
  (0, refl),
  All-weaken (λ y. IsIn y xs) (λ y. IsIn y (x ∷ xs)) xs (λ y h. (suc h.0, h.1)) (All-IsIn xs),
)

-- The kubelet lists the GPU with its owner, or it has none.
abbrev IsOwned : List Claim → NvidiaGpu → Type 0
IsOwned claims gpu = IsIn (gpu.uuid, gpu.owner) claims ⊎ (gpu.owner ≡ no_owner)

reset-IsOwned :
    (claims : List Claim) (gpus : List NvidiaGpu) → All (IsOwned claims) (reset_gpu_status gpus)
unfolding reset_gpu_status
reset-IsOwned claims [] = tt
reset-IsOwned claims (gpu ∷ gpus) = (inr refl, reset-IsOwned claims gpus)

allocate_first-IsOwned :
    (claims : List Claim) (owner : Owner) (uuid : String) (gpus : List NvidiaGpu)
    → IsIn (uuid, owner) claims
    → All (IsOwned claims) gpus
    → All (IsOwned claims) (allocate_first owner uuid gpus)
unfolding allocate_first
allocate_first-IsOwned claims owner uuid [] listed h = tt
allocate_first-IsOwned claims owner uuid (gpu ∷ gpus) listed h =
    elim (Bool-cases (eqs gpu.uuid uuid)) [
      | inl same ↦
          rw same (
            inl (subst (λ u. IsIn (u, owner) claims) (sym (eqs→eq gpu.uuid uuid same)) listed),
            h.1,
          )
      | inr other ↦ rw other (h.0, allocate_first-IsOwned claims owner uuid gpus listed h.1)
    ]

module _ (host : Host) where
  on_gpu-IsOwned :
      (moment : Moment) (claims : List Claim) (owner : Owner) (uuid : String)
      (gpus : List NvidiaGpu) (r : Result NvidiaGpu)
      → IsIn (uuid, owner) claims
      → All (IsOwned claims) gpus
      → All (IsOwned claims) (on_gpu host moment owner uuid gpus r)
  unfolding new
  on_gpu-IsOwned moment claims owner uuid gpus (ok gpu) listed h =
      allocate_first-IsOwned claims owner uuid gpus listed h
  on_gpu-IsOwned moment claims owner uuid gpus (err e) listed h =
      by_minor (search_gpu_minor_by_uuid moment.nvml uuid)
    where
      by_minor : (minor : Result ℕ) → All (IsOwned claims) (discover host owner uuid gpus minor)
      by_minor (err e) = h
      by_minor (ok minor) =
          All-append (IsOwned claims) gpus (allocate owner (new host minor uuid) ∷ []) h
            (inl listed, tt)

  claim_all-IsOwned :
      (moment : Moment) (claims rest : List Claim) (gpus : List NvidiaGpu)
      → All (λ c. IsIn c claims) rest
      → All (IsOwned claims) gpus
      → All (IsOwned claims) (claim_all host moment rest gpus)
  unfolding claim
  claim_all-IsOwned moment claims [] gpus listed h = h
  claim_all-IsOwned moment claims ((uuid, owner) ∷ rest) gpus listed h =
      claim_all-IsOwned moment claims rest (claim host moment owner uuid gpus) listed.1
        (on_gpu-IsOwned moment claims owner uuid gpus (get_gpu_by_uuid uuid gpus) listed.0 h)

  -- The kubelet said at some moment that the GPU is given to the pod.
  pub record IsGiven (name namespace : String) (gpu : NvidiaGpu) : Type 0 where
    pub at : ℕ
    pub pods : List PodResources
    pub answered : (host.moment at).list_pod_resources ≡ ok pods
    pub owner : Owner
    pub listed : IsIn (gpu.uuid, owner) (claims_of pods)
    pub pod_named : owner.pod_name ≡ name
    pub in_namespace : owner.pod_namespace ≡ namespace

  keep-All {ℓ} :
      {A : Type 0} (P Q : A → Type ℓ) (test : A → Bool) (xs : List A)
      → ((x : A) → P x → test x ≡ true → Q x)
      → All P xs
      → All Q (keep test xs)
  keep-All P Q test [] f h = tt
  keep-All P Q test (x ∷ xs) f h = elim (Bool-cases (test x)) [
    | inl passes ↦ rw passes (f x h.0 passes, keep-All P Q test xs f h.1)
    | inr fails ↦ rw fails (keep-All P Q test xs f h.1)
  ]

  -- Every element of a result without an error.
  abbrev pub AllOk : {A B : Type 0} → (A → Type 0) → Result (List A) × B → Type 0
  AllOk P (ok xs, state) = All P xs
  AllOk P (err e, state) = Unit

  select-IsGiven :
      (name namespace : String) (at : ℕ) (collector : Collector) (r : Result (List PodResources))
      → name ≢ ""
      → (host.moment at).list_pod_resources ≡ r
      → AllOk (IsGiven name namespace) (
          select host
            (owned_by host name namespace)
            (on_resources host (host.moment at) collector r))
  select-IsGiven name namespace at collector (err e) named answered = tt
  select-IsGiven name namespace at collector (ok pods) named answered =
      keep-All (IsOwned (claims_of pods)) (IsGiven name namespace) (owned_by host name namespace)
        (claim_pods host (host.moment at) pods (reset_gpu_status collector.gpu_list)) given
        (subst (All (IsOwned (claims_of pods)))
          (sym (claim_pods-claims host (host.moment at) pods (reset_gpu_status collector.gpu_list)))
          (claim_all-IsOwned (host.moment at) (claims_of pods) (claims_of pods)
            (reset_gpu_status collector.gpu_list) (All-IsIn (claims_of pods))
            (reset-IsOwned (claims_of pods) collector.gpu_list)))
    where
      given :
          (gpu : NvidiaGpu)
          → IsOwned (claims_of pods) gpu
          → owned_by host name namespace gpu ≡ true
          → IsGiven name namespace gpu
      given gpu (inr unowned) owned = absurd (
          named
            (sym (eqs→eq gpu.owner.pod_name name (ground arith)) ∙ ap (λ o. o.pod_name) unowned))
      given gpu (inl listed) owned = record {
        at = at;
        pods = pods;
        answered = answered;
        owner = gpu.owner;
        listed = listed;
        pod_named = eqs→eq gpu.owner.pod_name name (ground arith);
        in_namespace = eqs→eq gpu.owner.pod_namespace namespace (ground arith);
      }

  get_pod_gpu_resources-IsGiven :
      (name namespace : String) (collector : Collector)
      → name ≢ ""
      → AllOk (IsGiven name namespace) (get_pod_gpu_resources host name namespace collector)
  unfolding get_pod_gpu_resources update_gpu_status
  get_pod_gpu_resources-IsGiven name namespace collector named =
      select-IsGiven name namespace collector.updates collector
        (host.moment collector.updates).list_pod_resources named refl

  -- The kubelet said at some moment that the GPU is given to one of the pods.
  abbrev pub IsOfPods : List Pod → NvidiaGpu → Type 0
  IsOfPods slave_pods gpu = (pod : Pod) × IsIn pod slave_pods × IsGiven pod.name pod.namespace gpu

  more_gpus-IsOfPods :
      (slave_pods : List Pod) (gpus : List NvidiaGpu) (r : Result (List NvidiaGpu) × Collector)
      → All (IsOfPods slave_pods) gpus
      → AllOk (IsOfPods slave_pods) r
      → AllOk (IsOfPods slave_pods) (more_gpus host gpus r)
  more_gpus-IsOfPods slave_pods gpus (err e, collector) h k = tt
  more_gpus-IsOfPods slave_pods gpus (ok rest, collector) h k =
      All-append (IsOfPods slave_pods) gpus rest h k

  later_pods :
      (pod : Pod) (slave_pods : List Pod) (r : Result (List NvidiaGpu) × Collector)
      → AllOk (IsOfPods slave_pods) r
      → AllOk (IsOfPods (pod ∷ slave_pods)) r
  later_pods pod slave_pods (err e, collector) h = tt
  later_pods pod slave_pods (ok gpus, collector) h =
      All-weaken (IsOfPods slave_pods) (IsOfPods (pod ∷ slave_pods)) gpus
        (λ gpu (p, (i, at), given). (p, (suc i, at), given)) h

  on_resources-IsOfPods :
      (pod : Pod) (slave_pods : List Pod) (rest : Collector → Result (List NvidiaGpu) × Collector)
      (r : Result (List NvidiaGpu) × Collector)
      → ((collector : Collector) → AllOk (IsOfPods slave_pods) (rest collector))
      → AllOk (IsGiven pod.name pod.namespace) r
      → AllOk (IsOfPods (pod ∷ slave_pods)) (Plugin.on_resources host rest r)
  on_resources-IsOfPods pod slave_pods rest (err e, collector) others given = tt
  on_resources-IsOfPods pod slave_pods rest (ok gpus, collector) others given =
      more_gpus-IsOfPods (pod ∷ slave_pods) gpus (rest collector)
        (All-weaken (IsGiven pod.name pod.namespace) (IsOfPods (pod ∷ slave_pods)) gpus
          (λ gpu h. (pod, (0, refl), h)) given)
        (later_pods pod slave_pods (rest collector) (others collector))

  pub slave_gpus-IsOfPods :
      (slave_pods : List Pod) (collector : Collector)
      → All (λ pod. pod.name ≢ "") slave_pods
      → AllOk (IsOfPods slave_pods) (slave_gpus host slave_pods collector)
  unfolding slave_gpus
  slave_gpus-IsOfPods [] collector named = tt
  slave_gpus-IsOfPods (pod ∷ slave_pods) collector named =
      on_resources-IsOfPods pod slave_pods (slave_gpus host slave_pods)
        (get_pod_gpu_resources host pod.name pod.namespace collector)
        (λ c. slave_gpus-IsOfPods slave_pods c named.1)
        (get_pod_gpu_resources-IsGiven pod.name pod.namespace collector named.0)
