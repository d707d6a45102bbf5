-- ===== src/ApiServer.antt =====
-- pkg/server/apiserver: the HTTP server in front of the mounters. What it calls outside is a record
-- of functions of a clock, which counts the calls, so two calls of one kind may differ.
pub mod Headers
pub mod Params
pub mod Selector
pub mod Handlers
pub mod Steps
pub mod Forwarded
pub mod Answered
pub mod Accepted
mod Tests
use device_mounter.Base.{ℕ, String, Bool, true, false, Option, none, some, List, [], ◌∷◌}
use device_mounter.Base.Dict.{Dict}
use device_mounter.Api.{GoError, other_error, Result, ok, err, Pod}
use device_mounter.AuthConfig.{Decoders, Cache, Stored}
use device_mounter.Server.Requests.{MountDeviceRequest, UnMountDeviceRequest}
use device_mounter.Server.Mount.{DeviceResponse}

-- What the handlers read of a `restful.Request`: a missing parameter is the empty text, and the body
-- is read once.
pub record HttpRequest : Type 0 where
  pub path_parameters : Dict String
  pub query_parameters : Dict String
  pub header : Dict (List String)
  pub body : Result String

-- `requestMountBody`
pub record RequestMountBody : Type 0 where
  pub resources : Dict String
  pub annotations : Dict String
  pub labels : Dict String
  pub patches : List String

-- `requestMountParams`
pub record RequestMountParams : Type 0 where
  pub mount_body : RequestMountBody
  pub container : String
  pub device_type : String
  pub name : String
  pub namespace : String
  pub timeout_seconds : ℕ

-- `requestUnMountParams`
pub record RequestUnMountParams : Type 0 where
  pub name : String
  pub namespace : String
  pub container : String
  pub device_type : String
  pub timeout_seconds : ℕ
  pub force : Bool

-- A call of a mounter, with the seconds until its context ends.
pub data Call : Type 0 where
  mount : ℕ → MountDeviceRequest → Call
  unmount : ℕ → UnMountDeviceRequest → Call

-- What is written to the client: the body of a success, or a status with an error.
pub data Reply : Type 0 where
  written : String → Reply
  write_error : ℕ → GoError → Reply

-- The fields of `service`; a selector is its labels.
pub record Service : Type 0 where
  pub target_server_port : String
  pub target_namespace : String
  pub label_selector : Dict String

pub record Environment : Type 0 where
  pub decoders : Decoders
  -- The informer's store behind the reader of the authentication configuration.
  pub stored_config : ℕ → Stored
  pub get_pod : ℕ → String → String → Result Pod
  pub list_pods : ℕ → String → Dict String → Result (List Pod)
  pub dial : ℕ → String → Option GoError
  pub call : ℕ → String → Call → Result DeviceResponse
  -- encoding/json for the body of a mount, and the texts of strconv's errors.
  pub decode_body : String → Result RequestMountBody
  pub parse_error : String → String
  -- `fmt.Errorf` of a format without arguments.
  pub errorf : String → String

-- The calls that were sent are the newest first, each with the address of its mounter.
pub record State : Type 0 where
  pub clock : ℕ
  pub cache : Cache
  pub sent : List (String × Call)

-- `NewService`; `Empty` of a selector made from a set of labels is true if there are none.
unfoldable pub new_service : String → String → Dict String → Result Service
new_service port namespace [] =
    err (other_error "The label selector of the device mounter cannot be empty")
new_service port namespace (label ∷ labels) = ok (record {
  target_server_port = port;
  target_namespace = namespace;
  label_selector = label ∷ labels;
})
