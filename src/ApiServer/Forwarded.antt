-- ===== src/ApiServer/Forwarded.antt =====
-- What the handlers of pkg/server/apiserver send to a mounter, and when.
use mathlib.Core.Path.{subst}
use device_mounter.Base.{
  ℕ, suc, String, ◌<>◌, true, some, List, [], ◌∷◌, ◌≡◌, refl, ap, ◌∙◌, ◌⊎◌, inl, inr, arith, eqs→eq,
  get_elem?, All, Bool-cases,
}
use device_mounter.Api.{GoError, Result, ok, err, Pod, ContainerStatus}
use device_mounter.AuthConfig.{ConfigMap}
use device_mounter.ApiServer.{HttpRequest, Call, Reply, Service, Environment, State}
use device_mounter.ApiServer.Handlers.{
  Next, go, stop, Run, ◌>>=◌, or_pod_error, pod_error, asked, all_ready, on_node, find_mounter_pod,
  on_list, on_dial, end_with, check, get_pod, forward, get_mounter_pod_on_node_name, serve,
}
use device_mounter.ApiServer.Steps.{
  Ends, >>=-Ends, IsError, asked-Ends, IsAuthenticated, IsKnown, check-Ends,
}

abbrev IsReady : ContainerStatus → Type 0
IsReady status = status.ready ≡ true

-- A pod of a list that runs on the node, with every container ready.
pub record IsMounter (node : String) (pods : List Pod) (pod : Pod) : Type 0 where
  pub place : ℕ
  pub listed : get_elem? pods place ≡ some pod
  pub here : pod.node_name ≡ node
  pub runs : pod.phase ≡ "Running"
  pub ready : All IsReady pod.container_statuses

all_ready-All : (statuses : List ContainerStatus) → all_ready statuses ≡ true → All IsReady statuses
unfolding all_ready
all_ready-All [] e = tt
all_ready-All (status ∷ statuses) e = ground (arith, all_ready-All statuses)

later :
    (node : String) (x : Pod) (pods : List Pod) (pod : Pod)
    → IsMounter node pods pod
    → IsMounter node (x ∷ pods) pod
later node x pods pod h = record {
  place = suc h.place;
  listed = h.listed;
  here = h.here;
  runs = h.runs;
  ready = h.ready;
}

find_mounter_pod-IsMounter :
    (node : String) (pods : List Pod) (pod : Pod)
    → find_mounter_pod node pods ≡ ok pod
    → IsMounter node pods pod
unfolding find_mounter_pod
find_mounter_pod-IsMounter node [] pod e = absurd (ground arith)
find_mounter_pod-IsMounter node (x ∷ pods) pod e = elim (Bool-cases (on_node node x)) [
  | inr other ↦ later node x pods pod (find_mounter_pod-IsMounter node pods pod (ground arith))
  | inl fits ↦ elim (Bool-cases (all_ready x.container_statuses)) [
    | inr waiting ↦ absurd (ground arith)
    | inl ready ↦
        let same : x ≡ pod = ground arith in
        subst (λ p. IsMounter node (x ∷ pods) p) same
          (record {
            place = 0;
            listed = refl;
            here = eqs→eq x.node_name node (ground arith);
            runs = eqs→eq x.phase "Running" (ground arith);
            ready = all_ready-All x.container_statuses ready;
          })
  ]
]

on_list-IsMounter :
    (node : String) (r : Result (List Pod)) (pod : Pod)
    → on_list node r ≡ ok pod
    → (pods : List Pod) × (r ≡ ok pods) × IsMounter node pods pod
on_list-IsMounter node (err e) pod h = absurd (ground arith)
on_list-IsMounter node (ok pods) pod h = (pods, refl, find_mounter_pod-IsMounter node pods pod h)

module _ (env : Environment) where
  -- The reply to an answer of the API server that has no pod.
  abbrev pub IsPodError : String → String → Reply → Type 0
  IsPodError namespace name reply =
      (now : ℕ) × (e : GoError) × (env.get_pod now namespace name ≡ err e) × (reply ≡ pod_error e)

  pub get_pod-Ends :
      (namespace name : String) (s : State)
      → Ends
          (IsPodError namespace name)
          (λ pod. env.get_pod s.clock namespace name ≡ ok pod)
          s
          (get_pod env namespace name s)
  unfolding get_pod
  get_pod-Ends namespace name s = by_result (env.get_pod s.clock namespace name) refl
    where
      by_result :
          (r : Result Pod)
          → env.get_pod s.clock namespace name ≡ r
          → Ends
              (IsPodError namespace name)
              (λ pod. env.get_pod s.clock namespace name ≡ ok pod)
              s
              (or_pod_error r, record s { clock = suc s.clock })
      by_result (ok pod) at = (refl, at)
      by_result (err e) at = (refl, (s.clock, e, at, refl))

  module _ (service : Service) where
    -- What is known of a call of a mounter for a pod: the request is authenticated, the pod was found,
    -- and the address is that of a mounter on its node, found under the selector of the service.
    pub record IsForwarded (start : ℕ) (request : HttpRequest) (namespace name address : String)
        : Type 0 where
      pub authenticated : IsAuthenticated env start request.header
      pub pod : Pod
      pub found : (now : ℕ) × (env.get_pod now namespace name ≡ ok pod)
      pub pods : List Pod
      pub listed :
          (now : ℕ) × (env.list_pods now service.target_namespace service.label_selector ≡ ok pods)
      pub mounter : Pod
      pub is_mounter : IsMounter pod.node_name pods mounter
      pub reached : address ≡ mounter.pod_ip <> service.target_server_port

    -- Behind a state nothing more is sent, or this one call.
    abbrev pub SendsOnly : ℕ → HttpRequest → String → String → Call → State → State → Type 0
    SendsOnly start request namespace name call s s' =
        (s'.sent ≡ s.sent)
        ⊎ ((address : String) × (s'.sent ≡ (address, call) ∷ s.sent)
            × IsForwarded start request namespace name address)

    module _ (start : ℕ) (request : HttpRequest) (namespace name : String) (call : Call) where
      sends_along :
          (s s₁ s' : State)
          → s₁.sent ≡ s.sent
          → SendsOnly start request namespace name call s₁ s'
          → SendsOnly start request namespace name call s s'
      sends_along s s₁ s' kept (inl same) = inl (same ∙ kept)
      sends_along s s₁ s' kept (inr (address, more, h)) =
          inr (address, more ∙ ap (λ sent. (address, call) ∷ sent) kept, h)

      then-Sends :
          {A : Type 0} (F : Reply → Type 0) (Q : A → Type 0) (m : Run A) (f : A → Run Reply)
          (s : State)
          → Ends F Q s (m s)
          → ((a : A) (s₁ : State) → Q a → SendsOnly start request namespace name call s₁ (f a s₁).1)
          → SendsOnly start request namespace name call s ((m >>= f) s).1
      then-Sends F Q m f s h gone =
          >>=-Ends F Q (λ x. SendsOnly start request namespace name call s x.1) m f s h
            (λ reply s₁ kept failed. inl kept)
            (λ a s₁ kept q. sends_along s s₁ (f a s₁).1 kept (gone a s₁ q))

      forward-Sends :
          IsAuthenticated env start request.header
          → (pod : Pod) → ((now : ℕ) × (env.get_pod now namespace name ≡ ok pod))
          → (m : Pod) (now : ℕ) → get_mounter_pod_on_node_name env service pod.node_name now ≡ ok m
          → (s : State)
          → SendsOnly start request namespace name call s
              (forward env (m.pod_ip <> service.target_server_port) call s).1
      unfolding forward get_mounter_pod_on_node_name
      forward-Sends authenticated pod found m now at s =
          let (pods, listed, is_mounter) =
            on_list-IsMounter pod.node_name
              (env.list_pods now service.target_namespace service.label_selector) m at in
          inr (
            m.pod_ip <> service.target_server_port,
            refl,
            record {
              authenticated = authenticated;
              pod = pod;
              found = found;
              pods = pods;
              listed = (now, listed);
              mounter = m;
              is_mounter = is_mounter;
              reached = refl;
            },
          )

      pub serve-Sends :
          (versions : String → ConfigMap) (s : State)
          → IsKnown env versions s
          → s.clock ≡ start
          → SendsOnly start request namespace name call s
              (serve env service request namespace name call s).1
      unfolding serve
      serve-Sends versions s known at_start =
          then-Sends (IsError 400) _ (check env request) _ s (check-Ends env request s)
            λ u s₁ authenticated.
              then-Sends (IsPodError namespace name)
                (λ pod. env.get_pod s₁.clock namespace name ≡ ok pod) (get_pod env namespace name) _
                s₁ (get_pod-Ends namespace name s₁)
                λ pod s₂ found.
                  then-Sends (IsError 500)
                    (λ m. get_mounter_pod_on_node_name env service pod.node_name s₂.clock ≡ ok m)
                    (asked 500 (get_mounter_pod_on_node_name env service pod.node_name)) _ s₂
                    (asked-Ends 500 (get_mounter_pod_on_node_name env service pod.node_name) s₂)
                    λ m s₃ at.
                      then-Sends (IsError 500) _
                        (asked 500 (λ now. on_dial (env.dial now (address m)))) _ s₃
                        (asked-Ends 500 (λ now. on_dial (env.dial now (address m))) s₃)
                        λ v s₄ connected.
                          forward-Sends
                            (subst (λ t. IsAuthenticated env t request.header) at_start
                              (authenticated versions known))
                            pod (s₁.clock, found) m s₂.clock at s₄
        where
          address : Pod → String
          address m = m.pod_ip <> service.target_server_port

    pub end_with-state : (x : Next Reply × State) → (end_with x).1 ≡ x.1
    end_with-state (go reply, s) = refl
    end_with-state (stop reply, s) = refl

    -- What a handler may send for parameters that are read with a result `r`.
    abbrev pub SendsFor :
        {A : Type 0}
        → HttpRequest
        → Result A
        → (A → String)
        → (A → String)
        → (A → Call)
        → State
        → State
        → Type 0
    SendsFor {A} request r namespace name call s s' =
        (s'.sent ≡ s.sent)
        ⊎ ((params : A) × (r ≡ ok params)
            × (address : String) × (s'.sent ≡ (address, call params) ∷ s.sent)
            × IsForwarded s.clock request (namespace params) (name params) address)
