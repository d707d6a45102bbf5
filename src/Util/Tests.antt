-- ===== src/Util/Tests.antt =====
-- Runs of the utilities on small inputs.
use device_mounter.Base.{
  ℕ, suc, ltb, Bool, false, Option, none, [], ◌∷◌, ◌≡◌, refl, keep, every, contains, ◌&&◌, ◌||◌,
}
use device_mounter.Base.Dict.{Dict, lookup}
use device_mounter.Base.Int.{pos}
use device_mounter.Api.{GoError, other_error, Quantity}
use device_mounter.Util.{delete_slice_func, check_resources_in_slice, is_given, loop_retry}
use device_mounter.Util.Compact.{delete_slice_func-keep}
use device_mounter.Util.Resources.{check_resources_in_slice-every}
use device_mounter.Util.Retry.{IsMet, loop_retry-IsMet}

delete_slice_func-keep_example :
    delete_slice_func (ltb 2) (1 ∷ 3 ∷ 2 ∷ 5 ∷ []) ≡ keep (ltb 2) (1 ∷ 3 ∷ 2 ∷ 5 ∷ [])
delete_slice_func-keep_example = delete_slice_func-keep (ltb 2) (1 ∷ 3 ∷ 2 ∷ 5 ∷ [])

abbrev one : Quantity
one = record { value = pos 1; is_zero = false }

abbrev resources : Dict Quantity
resources = ("nvidia.com/gpu", one) ∷ ("cpu", one) ∷ []

check_resources_in_slice-every_example :
    check_resources_in_slice resources ("nvidia.com/gpu" ∷ []) ("cpu" ∷ []) ≡ (
      every (λ s. is_given (lookup s resources)) ("nvidia.com/gpu" ∷ [])
      && every
          (λ (name, quantity). contains ("nvidia.com/gpu" ∷ []) name || contains ("cpu" ∷ []) name)
          resources)
check_resources_in_slice-every_example =
    check_resources_in_slice-every resources ("nvidia.com/gpu" ∷ []) ("cpu" ∷ [])

-- Counts its calls and is met from the second one on.
abbrev second_call : ℕ → (Bool × Option GoError) × ℕ
second_call calls = ((ltb 0 calls, none), suc calls)

abbrev timeout : GoError
timeout = other_error "unable to complete after 3 retries"

retried : (loop_retry second_call timeout 3 0).0 ≡ none
unfolding loop_retry
retried = refl

loop_retry-IsMet_example : IsMet second_call timeout (loop_retry second_call timeout 3 0).1
loop_retry-IsMet_example = loop_retry-IsMet second_call timeout 2 0 retried
