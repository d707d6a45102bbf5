-- ===== src/Server/Requests/Target.antt =====
-- What `CheckPodContainer` (pkg/server/mounter/util.go) has found when it ends without an error.
use device_mounter.Base.{
  ℕ, suc, ◌+◌, ◌<◌, String, false, ◌&&◌, some, List, [], ◌∷◌, ◌≡◌, refl, arith, get_elem?, length,
  eqs, eqs→eq, Bool-cases, ◌⊎◌, inl, inr, ◌==◌,
}
use device_mounter.Api.{ok, Container, Pod, PodContainer}
use device_mounter.Server.Requests.{is_sidecar, find_container, check_pod_container, target}

-- The container at the index of the result is the one that it names, and no sidecar. It has the name of
-- the request, or the request has no name and this index.
pub record IsFound (containers : List PodContainer) (base : ℕ) (cont found : Container)
    : Type 0 where
  pub offset : ℕ
  pub at : found.index ≡ base + offset
  pub container : PodContainer
  pub is_there : get_elem? containers offset ≡ some container
  pub named : container.name ≡ found.name
  pub no_sidecar : is_sidecar container ≡ false
  pub wanted : (found.name ≡ cont.name) ⊎ ((cont.name ≡ "") × (found.index ≡ cont.index))

target-IsFound :
    (c : PodContainer) (name : String) (i : ℕ) (containers : List PodContainer)
    (cont found : Container)
    → c.name ≡ name
    → (name ≡ cont.name) ⊎ ((cont.name ≡ "") × (i ≡ cont.index))
    → target c name i ≡ ok found
    → IsFound (c ∷ containers) i cont found
target-IsFound c name i containers cont found same request e = elim (Bool-cases (is_sidecar c)) [
  | inl sidecar ↦ absurd (ground arith)
  | inr app ↦ record {
    offset = 0;
    at = ground arith;
    container = c;
    is_there = refl;
    named = ground arith;
    no_sidecar = app;
    wanted = ground arith;
  }
]

shift :
    (c : PodContainer) (i : ℕ) (containers : List PodContainer) (cont found : Container)
    → IsFound containers (i + 1) cont found
    → IsFound (c ∷ containers) i cont found
shift c i containers cont found h = record {
  offset = suc h.offset;
  at = omega (arith, h.at);
  container = h.container;
  is_there = h.is_there;
  named = h.named;
  no_sidecar = h.no_sidecar;
  wanted = h.wanted;
}

module _ (show_container : Container → String) where
  find_container-IsFound :
      (cont : Container) (i : ℕ) (containers : List PodContainer) (found : Container)
      → i + length containers < 4294967296
      → find_container show_container cont i containers ≡ ok found
      → IsFound containers i cont found
  unfolding find_container
  find_container-IsFound cont i [] found small e = absurd (ground arith)
  find_container-IsFound cont i (c ∷ containers) found small e =
      elim (Bool-cases (eqs c.name cont.name)) [
        | inl same ↦
            target-IsFound c cont.name i containers cont found (eqs→eq c.name cont.name same)
              (inl refl) (ground arith)
        | inr other ↦ elim (Bool-cases (eqs cont.name "" && cont.index == i)) [
          | inl indexed ↦
              target-IsFound c c.name i containers cont found refl
                (inr (eqs→eq cont.name "" (ground arith), ground arith)) (ground arith)
          | inr no_index ↦
              shift c i containers cont found
                (find_container-IsFound cont (i + 1) containers found (omega arith) (ground arith))
        ]
      ]

  -- The container found for the container of a request, in a pod of fewer than 2^32 containers: the
  -- index of the result is that of a container of the pod, the result has its name, and it is no
  -- sidecar. The name is that of the request, or the request has no name and the index is that of the
  -- request.
  pub check_pod_container-IsFound :
      (pod : Pod) (cont found : Container)
      → length pod.containers < 4294967296
      → check_pod_container show_container (some pod) (some cont) ≡ ok found
      → IsFound pod.containers 0 cont found
  unfolding check_pod_container
  check_pod_container-IsFound pod cont found small e =
      find_container-IsFound cont 0 pod.containers found (omega arith) e
