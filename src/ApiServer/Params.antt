-- ===== src/ApiServer/Params.antt =====
-- pkg/server/apiserver/server.go: the parameters of a request.
use device_mounter.Base.{
  String, ◌<>◌, Bool, true, false, ◌||◌, Option, none, some, eqs, if◌then◌else◌,
}
use device_mounter.Base.Dict.{at_key}
use device_mounter.Base.Int.{ℤ, pos, negsuc, uint32}
use device_mounter.Base.Numbers.{exact_int32}
use device_mounter.Base.Split.{trim_space, equal_fold}
use device_mounter.Api.{other_error, Result, ok, err, ◌>>=◌}
use device_mounter.ApiServer.{HttpRequest, RequestMountParams, RequestUnMountParams, Environment}

abbrev pub refuse_empty : Bool → String → Result (Unit {0})
refuse_empty true text = err (other_error text)
refuse_empty false text = ok tt

module _ (env : Environment) where
  abbrev pub parsed_timeout : String → Option ℤ → Result ℤ
  parsed_timeout text none = err (other_error ("failed to parse timeout: " <> env.parse_error text))
  parsed_timeout text (some (pos n)) = ok (pos n)
  parsed_timeout text (some (negsuc n)) =
      err (other_error "the timeout value can only be a positive integer")

  -- `getWaitTimeoutSecond`
  unfoldable pub get_wait_timeout_second : HttpRequest → Result ℤ
  get_wait_timeout_second request =
      let text = at_key "wait_second" request.query_parameters in
      if eqs text "" then ok (pos 10) else parsed_timeout text (exact_int32 text)

  -- `readMountRequestParameters`
  unfoldable pub read_mount_request_parameters : HttpRequest → Result RequestMountParams
  read_mount_request_parameters request = do
    let namespace = trim_space (at_key "namespace" request.path_parameters)
    let name = trim_space (at_key "name" request.path_parameters)
    _ ← refuse_empty (eqs namespace "" || eqs name "") "namespace and name parameters are required"
    let container = trim_space (at_key "container" request.query_parameters)
    let device_type = trim_space (at_key "device_type" request.query_parameters)
    _ ← refuse_empty (eqs device_type "") "device_type parameters are required"
    timeout ← get_wait_timeout_second request
    text ← request.body
    body ← env.decode_body text
    ok (record {
      mount_body = body;
      container = container;
      device_type = device_type;
      name = name;
      namespace = namespace;
      timeout_seconds = uint32 timeout;
    })

  -- `readUnMountRequestParameters`; the lower-case text is "true" exactly if the two are equal under
  -- folding.
  unfoldable pub read_unmount_request_parameters : HttpRequest → Result RequestUnMountParams
  read_unmount_request_parameters request = do
    let namespace = trim_space (at_key "namespace" request.path_parameters)
    let name = trim_space (at_key "name" request.path_parameters)
    _ ← refuse_empty (eqs namespace "" || eqs name "") "namespace and name parameters are required"
    let container = trim_space (at_key "container" request.query_parameters)
    let device_type = trim_space (at_key "device_type" request.query_parameters)
    _ ← refuse_empty (eqs device_type "") "device_type parameters are required"
    timeout ← get_wait_timeout_second request
    ok (record {
      name = name;
      namespace = namespace;
      container = container;
      device_type = device_type;
      timeout_seconds = uint32 timeout;
      force = equal_fold (at_key "force" request.query_parameters) "true";
    })
