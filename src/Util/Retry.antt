-- ===== src/Util/Retry.antt =====
-- What the end of `LoopRetry` in pkg/util/util.go says of its condition.
use mathlib.Core.Option.{some-ne-none}
use device_mounter.Base.{ℕ, zero, suc, Bool, true, false, Option, none, some, ◌≡◌, refl}
use device_mounter.Api.{GoError}
use device_mounter.Util.{on_attempt, loop_retry}

module _ {S : Type 0} (condition : S → (Bool × Option GoError) × S) (gave_up : GoError) where
  -- Some attempt has met the condition, and it was the last one.
  abbrev pub IsMet : S → Type 0
  IsMet end = (s : S) × (condition s ≡ ((true, none), end))

  last_attempt-IsMet :
      (start : S) (r : (Bool × Option GoError) × S)
      → condition start ≡ r
      → (on_attempt condition gave_up (loop_retry condition gave_up 0) 0 r).0 ≡ none
      → IsMet (on_attempt condition gave_up (loop_retry condition gave_up 0) 0 r).1
  last_attempt-IsMet start ((done, some e), s) was ended = absurd (some-ne-none _ ended)
  last_attempt-IsMet start ((true, none), s) was ended = (start, was)
  last_attempt-IsMet start ((false, none), s) was ended = absurd (some-ne-none _ ended)

  on_attempt-IsMet :
      (n : ℕ) (again : S → Option GoError × S)
      → ((s : S) → (again s).0 ≡ none → IsMet (again s).1)
      → (start : S) (r : (Bool × Option GoError) × S) → condition start ≡ r
      → (on_attempt condition gave_up again (suc n) r).0 ≡ none
      → IsMet (on_attempt condition gave_up again (suc n) r).1
  on_attempt-IsMet n again h start ((done, some e), s) was ended = absurd (some-ne-none _ ended)
  on_attempt-IsMet n again h start ((true, none), s) was ended = (start, was)
  on_attempt-IsMet n again h start ((false, none), s) was ended = h s ended

  -- If at least one attempt is allowed and the loop ends without an error, its last attempt met the
  -- condition without an error.
  pub loop_retry-IsMet :
      (n : ℕ) (s : S)
      → (loop_retry condition gave_up (suc n) s).0 ≡ none
      → IsMet (loop_retry condition gave_up (suc n) s).1
  unfolding loop_retry
  loop_retry-IsMet zero s ended = last_attempt-IsMet s (condition s) refl ended
  loop_retry-IsMet (suc n) s ended =
      on_attempt-IsMet n (loop_retry condition gave_up (suc n)) (loop_retry-IsMet n) s (condition s)
        refl ended
