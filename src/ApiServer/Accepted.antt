-- ===== src/ApiServer/Accepted.antt =====
-- The parameters that pkg/server/apiserver reads against what pkg/server/mounter accepts.
use device_mounter.Base.{
  ℕ, ◌<◌, String, false, ◌||◌, Option, none, some, [], ◌∷◌, ◌≡◌, refl, ◌⊎◌, inl, inr, arith, eqs,
  Bool-cases,
}
use device_mounter.Base.Dict.{Dict, at_key}
use device_mounter.Base.Int.{ℤ, pos, negsuc, uint32}
use device_mounter.Base.Numbers.{exact_int32, exact_int32_bounds}
use device_mounter.Api.{GoError, Result, ok, err}
use device_mounter.Server.Requests.{
  check_mount_device_request, check_unmount_device_request, default_container,
}
use device_mounter.ApiServer.{HttpRequest, RequestMountParams, RequestUnMountParams, Environment}
use device_mounter.ApiServer.Params.{
  parsed_timeout, get_wait_timeout_second, read_mount_request_parameters,
  read_unmount_request_parameters,
}
use device_mounter.ApiServer.Handlers.{mount_request, unmount_request}

Result-cases : {A : Type 0} (r : Result A) → ((a : A) × (r ≡ ok a)) ⊎ ((e : GoError) × (r ≡ err e))
Result-cases (ok a) = inl (a, refl)
Result-cases (err e) = inr (e, refl)

-- What is read of a mount: a device type, a time in 31 bits, and a request that the mounter
-- accepts unless it asks for no resources.
pub record IsMountable (params : RequestMountParams) : Type 0 where
  pub typed : eqs params.device_type "" ≡ false
  pub in_time : params.timeout_seconds < 2147483648
  pub accepted :
      (params.mount_body.resources ≡ [])
      ⊎ (check_mount_device_request (mount_request params)
          ≡ ok (record (mount_request params) {
            container = default_container (mount_request params).container;
          }))

pub record IsUnmountable (params : RequestUnMountParams) : Type 0 where
  pub typed : eqs params.device_type "" ≡ false
  pub in_time : params.timeout_seconds < 2147483648
  pub accepted :
      check_unmount_device_request (unmount_request params)
      ≡ ok (record (unmount_request params) {
        container = default_container (unmount_request params).container;
      })

module _ (env : Environment) where
  parsed_timeout_bounds :
      (text : String) (number : Option ℤ) (timeout : ℤ)
      → ((n : ℕ) → number ≡ some (pos n) → n < 2147483648)
      → parsed_timeout env text number ≡ ok timeout
      → uint32 timeout < 2147483648
  unfolding uint32
  parsed_timeout_bounds text none timeout small e = absurd (ground arith)
  parsed_timeout_bounds text (some (pos n)) timeout small e = ground (arith, small n refl)
  parsed_timeout_bounds text (some (negsuc n)) timeout small e = absurd (ground arith)

  get_wait_timeout_second_bounds :
      (request : HttpRequest) (timeout : ℤ)
      → get_wait_timeout_second env request ≡ ok timeout
      → uint32 timeout < 2147483648
  unfolding get_wait_timeout_second uint32
  get_wait_timeout_second_bounds request timeout e =
      let text = at_key "wait_second" request.query_parameters in
      elim (Bool-cases (eqs text "")) [
        | inl unset ↦ ground arith
        | inr given ↦
            parsed_timeout_bounds text (exact_int32 text) timeout (exact_int32_bounds text)
              (ground arith)
      ]

  mountable :
      (params : RequestMountParams)
      → (eqs params.namespace "" || eqs params.name "") ≡ false
      → (params.mount_body.resources ≡ [])
        ⊎ (check_mount_device_request (mount_request params)
            ≡ ok (record (mount_request params) {
              container = default_container (mount_request params).container;
            }))
  unfolding check_mount_device_request
  mountable params named = by_resources params.mount_body.resources refl
    where
      by_resources :
          (resources : Dict String)
          → params.mount_body.resources ≡ resources
          → (params.mount_body.resources ≡ [])
            ⊎ (check_mount_device_request (mount_request params)
                ≡ ok (record (mount_request params) {
                  container = default_container (mount_request params).container;
                }))
      by_resources [] e = inl e
      by_resources (r ∷ resources) e = inr (ground arith)

  unmountable :
      (params : RequestUnMountParams)
      → (eqs params.namespace "" || eqs params.name "") ≡ false
      → check_unmount_device_request (unmount_request params)
        ≡ ok (record (unmount_request params) {
          container = default_container (unmount_request params).container;
        })
  unfolding check_unmount_device_request
  unmountable params named = ground arith

  pub read_mount_request_parameters-IsMountable :
      (request : HttpRequest) (params : RequestMountParams)
      → read_mount_request_parameters env request ≡ ok params
      → IsMountable params
  unfolding read_mount_request_parameters
  read_mount_request_parameters-IsMountable request params e = record {
    typed = ground arith;
    in_time = elim (Result-cases (get_wait_timeout_second env request)) [
      | inl (timeout, read) ↦ ground (arith, get_wait_timeout_second_bounds request timeout read)
      | inr (failure, failed) ↦ absurd (ground arith)
    ];
    accepted = mountable params (ground arith);
  }

  pub read_unmount_request_parameters-IsUnmountable :
      (request : HttpRequest) (params : RequestUnMountParams)
      → read_unmount_request_parameters env request ≡ ok params
      → IsUnmountable params
  unfolding read_unmount_request_parameters
  read_unmount_request_parameters-IsUnmountable request params e = record {
    typed = ground arith;
    in_time = elim (Result-cases (get_wait_timeout_second env request)) [
      | inl (timeout, read) ↦ ground (arith, get_wait_timeout_second_bounds request timeout read)
      | inr (failure, failed) ↦ absurd (ground arith)
    ];
    accepted = unmountable params (ground arith);
  }
