-- ===== src/ApiServer/Answered.antt =====
-- Which reply the handlers of pkg/server/apiserver write.

use device_mounter.Base.{ℕ, String, ◌<>◌, ◌∷◌, ◌≡◌, ◌≢◌, refl, ap, ◌∙◌, ◌⊎◌, inl, inr, arith}
use device_mounter.Api.{mounter_error, not_found_error, other_error, Result, ok, err, ResultCode}
use device_mounter.Server.Mount.{DeviceResponse}
use device_mounter.ApiServer.{
  HttpRequest, Call, Reply, written, write_error, Service, Environment, State,
}
use device_mounter.ApiServer.Params.{read_mount_request_parameters, read_unmount_request_parameters}
use device_mounter.ApiServer.Handlers.{
  Next, go, stop, Run, ◌>>=◌, checked, asked, on_dial, mount_call, unmount_call, end_with, check,
  get_pod, respond, forward, get_mounter_pod_on_node_name, serve, mount_device, unmount_device,
}
use device_mounter.ApiServer.Steps.{Ends, >>=-Ends, IsError, asked-Ends, check-Ends}
use device_mounter.ApiServer.Forwarded.{IsPodError, get_pod-Ends}

module _ (env : Environment) where
  -- The reply to the answer of a mounter: only a success is written as such.
  abbrev pub IsAnswer : Result DeviceResponse → Reply → Type 0
  IsAnswer (ok response) (written text) =
      (response.result ≡ ResultCode.success) × (text ≡ response.message)
  IsAnswer (ok response) (write_error status e) =
      (response.result ≢ ResultCode.success)
      × (status ≡ 400)
      × (e ≡ other_error (env.errorf response.message))
  IsAnswer (err e) (written text) = ⊥
  IsAnswer (err e) (write_error status e') = (status ≡ 500) × (e' ≡ e)

  respond-IsAnswer : (r : Result DeviceResponse) → IsAnswer r (respond env r)
  respond-IsAnswer (err e) = (refl, refl)
  respond-IsAnswer (ok response) = by_code response.result refl
    where
      by_code :
          (code : ResultCode)
          → response.result ≡ code
          → IsAnswer (ok response) (elim code [
            | ResultCode.success ↦ written response.message
            | _ ↦ write_error 400 (other_error (env.errorf response.message))
          ])
      by_code ResultCode.success e = (e, refl)
      by_code ResultCode.fail e = (ground arith, refl, refl)
      by_code ResultCode.insufficient e = (ground arith, refl, refl)
      by_code ResultCode.not_found e = (ground arith, refl, refl)
      by_code ResultCode.device_busy e = (ground arith, refl, refl)
      by_code ResultCode.invalid e = (ground arith, refl, refl)
      by_code ResultCode.unknown e = (ground arith, refl, refl)

  -- A reply without a call of a mounter.
  abbrev pub IsRefusal : String → String → Reply → Type 0
  IsRefusal namespace name reply =
      (IsError 400 reply ⊎ IsError 500 reply)
      ⊎ (IsError 404 reply
          × ((now : ℕ) × (m : String) × (env.get_pod now namespace name ≡ err (not_found_error m))))

  -- Either nothing was sent and the reply is a refusal, or the one call was sent and the reply is made
  -- of its answer.
  abbrev pub Explained : String → String → Call → State → Reply × State → Type 0
  Explained namespace name call s (reply, s') =
      ((s'.sent ≡ s.sent) × IsRefusal namespace name reply)
      ⊎ ((now : ℕ) × (address : String) × (s'.sent ≡ (address, call) ∷ s.sent)
          × IsAnswer (env.call now address call) reply)

  module _ (namespace name : String) (call : Call) where
    abbrev ExplainedEnd : State → Next Reply × State → Type 0
    ExplainedEnd s x = Explained namespace name call s (end_with x)

    explained_along :
        (s s₁ : State) (x : Next Reply × State)
        → s₁.sent ≡ s.sent
        → ExplainedEnd s₁ x
        → ExplainedEnd s x
    explained_along s s₁ (go reply, s') kept (inl (same, h)) = inl (same ∙ kept, h)
    explained_along s s₁ (stop reply, s') kept (inl (same, h)) = inl (same ∙ kept, h)
    explained_along s s₁ (go reply, s') kept (inr (now, address, more, h)) =
        inr (now, address, more ∙ ap (λ sent. (address, call) ∷ sent) kept, h)
    explained_along s s₁ (stop reply, s') kept (inr (now, address, more, h)) =
        inr (now, address, more ∙ ap (λ sent. (address, call) ∷ sent) kept, h)

    then-Explained :
        {A : Type 0} (F : Reply → Type 0) (Q : A → Type 0) (m : Run A) (f : A → Run Reply)
        (s : State)
        → Ends F Q s (m s)
        → ((reply : Reply) → F reply → IsRefusal namespace name reply)
        → ((a : A) (s₁ : State) → ExplainedEnd s₁ (f a s₁))
        → ExplainedEnd s ((m >>= f) s)
    then-Explained F Q m f s h refused gone =
        >>=-Ends F Q (ExplainedEnd s) m f s h
          (λ reply s₁ kept failed. inl (kept, refused reply failed))
          (λ a s₁ kept q. explained_along s s₁ (f a s₁) kept (gone a s₁))

    pod_error-IsRefusal :
        (reply : Reply) → IsPodError env namespace name reply → IsRefusal namespace name reply
    pod_error-IsRefusal reply (now, not_found_error m, found, at) =
        inr ((not_found_error ("target pod does not exist: " <> m), at), (now, m, found))
    pod_error-IsRefusal reply (now, mounter_error code m, found, at) =
        inl (inr (other_error ("error getting Pod: " <> m), at))
    pod_error-IsRefusal reply (now, other_error m, found, at) =
        inl (inr (other_error ("error getting Pod: " <> m), at))

    forward-Explained : (address : String) (s : State) → ExplainedEnd s (forward env address call s)
    unfolding forward
    forward-Explained address s =
        inr (s.clock, address, refl, respond-IsAnswer (env.call s.clock address call))

    serve-Explained :
        (service : Service) (request : HttpRequest) (s : State)
        → ExplainedEnd s (serve env service request namespace name call s)
    unfolding serve
    serve-Explained service request s =
        then-Explained (IsError 400) _ (check env request) _ s (check-Ends env request s)
          (λ reply failed. inl (inl failed))
          λ u s₁.
            then-Explained (IsPodError env namespace name)
              (λ pod. env.get_pod s₁.clock namespace name ≡ ok pod) (get_pod env namespace name) _
              s₁ (get_pod-Ends env namespace name s₁) pod_error-IsRefusal
              λ pod s₂.
                then-Explained (IsError 500) _
                  (asked 500 (get_mounter_pod_on_node_name env service pod.node_name)) _ s₂
                  (asked-Ends 500 (get_mounter_pod_on_node_name env service pod.node_name) s₂)
                  (λ reply failed. inl (inr failed))
                  λ m s₃.
                    then-Explained (IsError 500) _
                      (asked 500
                        (λ now. on_dial (env.dial now (m.pod_ip <> service.target_server_port))))
                      _ s₃
                      (asked-Ends 500
                        (λ now. on_dial (env.dial now (m.pod_ip <> service.target_server_port))) s₃)
                      (λ reply failed. inl (inr failed))
                      λ v s₄. forward-Explained (m.pod_ip <> service.target_server_port) s₄

  -- Parameters that cannot be read are refused with the status 400.
  abbrev pub ExplainedFor :
      {A : Type 0}
      → Result A
      → (A → String)
      → (A → String)
      → (A → Call)
      → State
      → Reply × State
      → Type 0
  ExplainedFor (err e) namespace name call s (reply, s') =
      (reply ≡ write_error 400 e) × (s'.sent ≡ s.sent)
  ExplainedFor (ok params) namespace name call s x =
      Explained (namespace params) (name params) (call params) s x

  handler-Explained :
      {A : Type 0} (service : Service) (request : HttpRequest) (r : Result A)
      (namespace name : A → String) (call : A → Call) (s : State)
      → ExplainedFor r namespace name call s (
          end_with (
            (checked 400 r >>= λ params.
            serve env service request (namespace params) (name params) (call params))
              s))
  unfolding ◌>>=◌ checked
  handler-Explained service request (err e) namespace name call s = (refl, refl)
  handler-Explained service request (ok params) namespace name call s =
      serve-Explained (namespace params) (name params) (call params) service request s

  -- Parameters that cannot be read are answered by 400. Otherwise no call is sent and the reply is an
  -- error with the status 400, 500 or, if the pod was not found, 404; or the one call is sent, and
  -- the reply is the message of a mounter that reports success, 400 with the message of any other,
  -- and 500 for an error of the call.
  pub mount_device-answers :
      (service : Service) (request : HttpRequest) (s : State)
      → ExplainedFor
          (read_mount_request_parameters env request)
          (λ p. p.namespace)
          (λ p. p.name)
          mount_call
          s
          (mount_device env service request s)
        × ExplainedFor
            (read_unmount_request_parameters env request)
            (λ p. p.namespace)
            (λ p. p.name)
            unmount_call
            s
            (unmount_device env service request s)
  unfolding mount_device unmount_device
  mount_device-answers service request s = (
    handler-Explained service request (read_mount_request_parameters env request) (λ p. p.namespace)
        (λ p. p.name) mount_call s,
    handler-Explained service request (read_unmount_request_parameters env request)
        (λ p. p.namespace) (λ p. p.name) unmount_call s,
  )
