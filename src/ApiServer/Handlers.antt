-- ===== src/ApiServer/Handlers.antt =====
-- pkg/server/apiserver: the handlers `MountDevice` and `UnMountDevice`, step by step.
use device_mounter.Base.{
  ℕ, suc, String, ◌<>◌, Bool, true, ◌&&◌, Option, none, some, List, [], ◌∷◌, eqs, if◌then◌else◌,
}
use device_mounter.Api.{
  GoError, mounter_error, not_found_error, other_error, message, Result, ok, err, ResultCode,
  Container, ContainerStatus, Pod,
}
use device_mounter.AuthConfig.{
  Cache, Stored, get_user_headers, get_group_headers, get_extra_header_prefixes,
}
use device_mounter.Server.Requests.{MountDeviceRequest, UnMountDeviceRequest}
use device_mounter.Server.Mount.{DeviceResponse}
use device_mounter.ApiServer.{
  HttpRequest, RequestMountParams, RequestUnMountParams, Call, mount, unmount, Reply, written,
  write_error, Service, Environment, State,
}
use device_mounter.ApiServer.Headers.{find_username, find_groups, require_groups, collect_extras}
use device_mounter.ApiServer.Params.{read_mount_request_parameters, read_unmount_request_parameters}

-- A step goes on with a value, or writes the reply and ends the handler.
pub data Next (A : Type 0) : Type 0 where
  go : A → Next A
  stop : Reply → Next A

abbrev pub Run : Type 0 → Type 0
Run A = State → Next A × State

abbrev pub and_then : {A B : Type 0} → (A → Run B) → Next A × State → Next B × State
and_then f (go a, s) = f a s
and_then f (stop reply, s) = (stop reply, s)

-- Shut in proofs, so that a block keeps its shape.
infixl 5 ◌>>=◌
unfoldable pub ◌>>=◌ : {A B : Type 0} → Run A → (A → Run B) → Run B
◌>>=◌ m f s = and_then f (m s)

abbrev pub advance : State → State
advance s = record s { clock = suc s.clock }

abbrev pub or_stop : {A : Type 0} → ℕ → Result A → Next A
or_stop status (ok a) = go a
or_stop status (err e) = stop (write_error status e)

-- A result that needs no call.
unfoldable pub checked : {A : Type 0} → ℕ → Result A → Run A
checked status r s = (or_stop status r, s)

-- The answer to a call that sends nothing to a mounter.
unfoldable pub asked : {A : Type 0} → ℕ → (ℕ → Result A) → Run A
asked status f s = (or_stop status (f s.clock), advance s)

-- Only an error for which `IsNotFound` holds has the status 404.
abbrev pub pod_error : GoError → Reply
pod_error (not_found_error m) =
    write_error 404 (not_found_error ("target pod does not exist: " <> m))
pod_error (mounter_error code m) = write_error 500 (other_error ("error getting Pod: " <> m))
pod_error (other_error m) = write_error 500 (other_error ("error getting Pod: " <> m))

abbrev pub or_pod_error : Result Pod → Next Pod
or_pod_error (ok pod) = go pod
or_pod_error (err e) = stop (pod_error e)

-- The loop over the statuses of a mounter pod.
unfoldable pub all_ready : List ContainerStatus → Bool
all_ready [] = true
all_ready (status ∷ statuses) = status.ready && all_ready statuses

abbrev pub on_node : String → Pod → Bool
on_node node pod = eqs pod.node_name node && eqs pod.phase "Running"

-- The loop of `GetMounterPodOnNodeName`; the test of the phase behind it finds it running.
unfoldable pub find_mounter_pod : String → List Pod → Result Pod
unfolding all_ready
find_mounter_pod node [] =
    err (other_error ("there is no device mounter on the target node " <> node))
find_mounter_pod node (pod ∷ pods) =
    let rest = find_mounter_pod node pods in
    if on_node node pod
    then if all_ready pod.container_statuses
      then ok pod
      else err (other_error ("the device mounter is not ready on the target node " <> node))
    else rest

abbrev pub on_list : String → Result (List Pod) → Result Pod
on_list node (err e) = err (other_error ("error getting device mounter Pod: " <> message e))
on_list node (ok pods) = find_mounter_pod node pods

abbrev pub on_dial : Option GoError → Result (Unit {0})
on_dial none = ok tt
on_dial (some e) = err (other_error ("failed to connect to device mounter: " <> message e))

-- The container of a request to a mounter; without a name there is none.
abbrev pub named_container : String → Option Container
named_container name = if eqs name "" then none else some (record { name = name; index = 0 })

abbrev pub mount_request : RequestMountParams → MountDeviceRequest
mount_request params = record {
  pod_name = params.name;
  pod_namespace = params.namespace;
  container = named_container params.container;
  resources = params.mount_body.resources;
  annotations = params.mount_body.annotations;
  labels = params.mount_body.labels;
  device_type = params.device_type;
  patches = params.mount_body.patches;
}

abbrev pub mount_call : RequestMountParams → Call
mount_call params = mount params.timeout_seconds (mount_request params)

abbrev pub unmount_request : RequestUnMountParams → UnMountDeviceRequest
unmount_request params = record {
  pod_name = params.name;
  pod_namespace = params.namespace;
  container = named_container params.container;
  device_type = params.device_type;
  force = params.force;
}

abbrev pub unmount_call : RequestUnMountParams → Call
unmount_call params = unmount params.timeout_seconds (unmount_request params)

abbrev pub end_with : Next Reply × State → Reply × State
end_with (go reply, s) = (reply, s)
end_with (stop reply, s) = (reply, s)

module _ (env : Environment) where
  -- A read of the authentication configuration.
  unfoldable pub configured : (Stored → Cache → Result (List String) × Cache) → Run (List String)
  configured read s =
      let (r, cache) = read (env.stored_config s.clock) s.cache in
      (or_stop 400 r, advance (record s { cache = cache }))

  -- `check` with `getAuthUsername`, `getAuthGroups` and `getAuthExtraHeaders`; what they return is
  -- only logged.
  unfoldable pub check : HttpRequest → Run (Unit {0})
  check request = do
    user_headers ← configured (get_user_headers env.decoders)
    _ ← checked 400 (find_username request.header user_headers)
    group_headers ← configured (get_group_headers env.decoders)
    _ ← checked 400 (require_groups (find_groups request.header group_headers))
    prefixes ← configured (get_extra_header_prefixes env.decoders)
    _ ← checked 400 (ok (collect_extras request.header prefixes []))
    checked 400 (ok tt)

  unfoldable pub get_pod : String → String → Run Pod
  get_pod namespace name s = (or_pod_error (env.get_pod s.clock namespace name), advance s)

  abbrev pub respond : Result DeviceResponse → Reply
  respond (err e) = write_error 500 e
  respond (ok response) = elim (response.result) [
    | ResultCode.success ↦ written response.message
    | _ ↦ write_error 400 (other_error (env.errorf response.message))
  ]

  -- The call of the mounter, and the reply made of its response.
  unfoldable pub forward : String → Call → Run Reply
  forward address call s = (
    go (respond (env.call s.clock address call)),
    advance (record s { sent = (address, call) ∷ s.sent }),
  )

  module _ (service : Service) where
    -- `GetMounterPodOnNodeName`
    unfoldable pub get_mounter_pod_on_node_name : String → ℕ → Result Pod
    unfolding find_mounter_pod
    get_mounter_pod_on_node_name node now =
        on_list node (env.list_pods now service.target_namespace service.label_selector)

    -- The part that both handlers have behind the parameters.
    unfoldable pub serve : HttpRequest → String → String → Call → Run Reply
    serve request namespace name call = do
      _ ← check request
      pod ← get_pod namespace name
      mounter ← asked 500 (get_mounter_pod_on_node_name pod.node_name)
      let address = mounter.pod_ip <> service.target_server_port
      _ ← asked 500 (λ now. on_dial (env.dial now address))
      forward address call

    -- `MountDevice`
    unfoldable pub mount_device : HttpRequest → State → Reply × State
    mount_device request s = end_with (
        (do
          params ← checked 400 (read_mount_request_parameters env request)
          serve request params.namespace params.name (mount_call params))
          s)

    -- `UnMountDevice`
    unfoldable pub unmount_device : HttpRequest → State → Reply × State
    unmount_device request s = end_with (
        (do
          params ← checked 400 (read_unmount_request_parameters env request)
          serve request params.namespace params.name (unmount_call params))
          s)
