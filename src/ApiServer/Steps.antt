-- ===== src/ApiServer/Steps.antt =====
-- What the steps of a handler (pkg/server/apiserver) in front of the call of a mounter do: they send
-- nothing, and each has a postcondition.

use device_mounter.Base.{
  ℕ, suc, String, true, Option, none, some, List, [], ◌∷◌, ◌≡◌, refl, sym, ◌∙◌, inl, inr, arith,
  contains, eqs_refl, Option-cases,
}
use device_mounter.Base.Dict.{Dict, lookup}
use device_mounter.Api.{GoError, Result, ok, err}
use device_mounter.AuthConfig.{
  ConfigMap, Cache, Stored, get_config_map, get_user_headers, get_group_headers,
  get_extra_header_prefixes,
}
use device_mounter.AuthConfig.Refined.{
  IsVersion, IsFaithful, fresh, IsRead, get_user_headers-IsRead, get_group_headers-IsRead,
  get_extra_header_prefixes-IsRead,
}
use device_mounter.ApiServer.{HttpRequest, Reply, write_error, Environment, State}
use device_mounter.ApiServer.Headers.{
  first_value, find_username, find_groups, with_values, require_groups, collect_extras,
}
use device_mounter.ApiServer.Handlers.{
  Next, go, stop, Run, and_then, ◌>>=◌, or_stop, checked, asked, configured, check,
}

-- A step that ends in front of the call: `F` holds of the reply that it stops with and `Q` of the
-- value that it goes on with, and nothing was sent.
abbrev pub Ends : {A : Type 0} → (Reply → Type 0) → (A → Type 0) → State → Next A × State → Type 0
Ends F Q s (go a, s') = (s'.sent ≡ s.sent) × Q a
Ends F Q s (stop reply, s') = (s'.sent ≡ s.sent) × F reply

-- The rule for two steps, for any property of the end of the second.
pub >>=-Ends :
    {A B : Type 0} (F : Reply → Type 0) (Q : A → Type 0) (P : Next B × State → Type 0) (m : Run A)
    (f : A → Run B) (s : State)
    → Ends F Q s (m s)
    → ((reply : Reply) (s' : State) → s'.sent ≡ s.sent → F reply → P (stop reply, s'))
    → ((a : A) (s' : State) → s'.sent ≡ s.sent → Q a → P (f a s'))
    → P ((m >>= f) s)
unfolding ◌>>=◌
>>=-Ends F Q P m f s h stopped gone = both (m s) h
  where
    both : (x : Next _ × State) → Ends F Q s x → P (and_then f x)
    both (go a, s') h = gone a s' h.0 h.1
    both (stop reply, s') h = stopped reply s' h.0 h.1

along :
    {A : Type 0} (F : Reply → Type 0) (Q : A → Type 0) (s s' : State) (x : Next A × State)
    → s'.sent ≡ s.sent
    → Ends F Q s' x
    → Ends F Q s x
along F Q s s' (go a, s₂) kept h = (h.0 ∙ kept, h.1)
along F Q s s' (stop reply, s₂) kept h = (h.0 ∙ kept, h.1)

-- The rule for two steps, where the second starts in the state that the first leaves.
pub >>=-At :
    {A B : Type 0} (F : Reply → Type 0) (Q : A → Type 0) (P : Next B × State → Type 0) (m : Run A)
    (f : A → Run B) (s : State)
    → Ends F Q s (m s)
    → ((reply : Reply) → (m s).1.sent ≡ s.sent → F reply → P (stop reply, (m s).1))
    → ((a : A) → (m s).1.sent ≡ s.sent → Q a → P (f a (m s).1))
    → P ((m >>= f) s)
unfolding ◌>>=◌
>>=-At F Q P m f s h stopped gone = both (m s) h stopped gone
  where
    both :
        (x : Next _ × State)
        → Ends F Q s x
        → ((reply : Reply) → x.1.sent ≡ s.sent → F reply → P (stop reply, x.1))
        → ((a : _) → x.1.sent ≡ s.sent → Q a → P (f a x.1))
        → P (and_then f x)
    both (go a, s') h stopped gone = gone a h.0 h.1
    both (stop reply, s') h stopped gone = stopped reply h.0 h.1

then-At :
    {A B : Type 0} (F : Reply → Type 0) (Q : A → Type 0) (R : B → Type 0) (m : Run A)
    (f : A → Run B) (s : State)
    → Ends F Q s (m s)
    → ((a : A) → Q a → Ends F R (m s).1 (f a (m s).1))
    → Ends F R s ((m >>= f) s)
then-At F Q R m f s h gone =
    >>=-At F Q (Ends F R s) m f s h (λ reply kept failed. (kept, failed))
      (λ a kept q. along F R s (m s).1 (f a (m s).1) kept (gone a q))

-- The rule for two steps that both end in front of the call.
pub then-Ends :
    {A B : Type 0} (F : Reply → Type 0) (Q : A → Type 0) (R : B → Type 0) (m : Run A)
    (f : A → Run B) (s : State)
    → Ends F Q s (m s)
    → ((a : A) (s' : State) → Q a → Ends F R s' (f a s'))
    → Ends F R s ((m >>= f) s)
then-Ends F Q R m f s h gone =
    >>=-Ends F Q (Ends F R s) m f s h (λ reply s' kept failed. (kept, failed))
      (λ a s' kept q. along F R s s' (f a s') kept (gone a s' q))

abbrev pub IsError : ℕ → Reply → Type 0
IsError status reply = (e : GoError) × (reply ≡ write_error status e)

or_stop-Ends :
    {A : Type 0} (status : ℕ) (r : Result A) (s s' : State)
    → s'.sent ≡ s.sent
    → Ends (IsError status) (λ a. r ≡ ok a) s (or_stop status r, s')
or_stop-Ends status (ok a) s s' kept = (kept, refl)
or_stop-Ends status (err e) s s' kept = (kept, (e, refl))

pub checked-Ends :
    {A : Type 0} (status : ℕ) (r : Result A) (s : State)
    → Ends (IsError status) (λ a. r ≡ ok a) s (checked status r s)
unfolding checked
checked-Ends status r s = or_stop-Ends status r s s refl

done-Ends :
    {A : Type 0} (status : ℕ) (a : A) (F : Reply → Type 0) (Q : A → Type 0) (s : State)
    → Q a
    → Ends F Q s (checked status (ok a) s)
unfolding checked
done-Ends status a F Q s h = (refl, h)

pub asked-Ends :
    {A : Type 0} (status : ℕ) (f : ℕ → Result A) (s : State)
    → Ends (IsError status) (λ a. f s.clock ≡ ok a) s (asked status f s)
unfolding asked
asked-Ends status f s = or_stop-Ends status (f s.clock) s _ refl

-- A user header of the list has a value, the first of which is the user.
pub record HasUser (header : Dict (List String)) (names : List String) : Type 0 where
  pub name : String
  pub user : String
  pub others : List String
  pub listed : contains names name ≡ true
  pub present : lookup name header ≡ some (user ∷ others)

-- A group header of the list is there.
pub record HasGroup (header : Dict (List String)) (names : List String) : Type 0 where
  pub name : String
  pub groups : List String
  pub listed : contains names name ≡ true
  pub present : lookup name header ≡ some groups

contains-first : (name : String) (names : List String) → contains (name ∷ names) name ≡ true
contains-first name names = rw (eqs_refl name) refl

contains-later :
    (x name : String) (names : List String)
    → contains names name ≡ true
    → contains (x ∷ names) name ≡ true
contains-later x name names h = ground arith

later_user :
    (header : Dict (List String)) (x : String) (names : List String)
    → HasUser header names
    → HasUser header (x ∷ names)
later_user header x names h = record {
  name = h.name;
  user = h.user;
  others = h.others;
  listed = contains-later x h.name names h.listed;
  present = h.present;
}

first_value-HasUser :
    (header : Dict (List String)) (name : String) (names : List String)
    (vals : Option (List String)) (rest : Result String) (user : String)
    → lookup name header ≡ vals
    → ((user : String) → rest ≡ ok user → HasUser header names)
    → first_value vals rest ≡ ok user
    → HasUser header (name ∷ names)
first_value-HasUser header name names none rest user at later e =
    later_user header name names (later user e)
first_value-HasUser header name names (some []) rest user at later e =
    later_user header name names (later user e)
first_value-HasUser header name names (some (first ∷ others)) rest user at later e = record {
  name = name;
  user = first;
  others = others;
  listed = contains-first name names;
  present = at;
}

find_username-HasUser :
    (header : Dict (List String)) (names : List String) (user : String)
    → find_username header names ≡ ok user
    → HasUser header names
unfolding find_username
find_username-HasUser header [] user e = absurd (ground arith)
find_username-HasUser header (name ∷ names) user e =
    first_value-HasUser header name names (lookup name header) (find_username header names) user
      refl (find_username-HasUser header names) e

with_values-HasGroup :
    (header : Dict (List String)) (name : String) (names : List String)
    (vals rest : Option (List String)) (groups : List String)
    → lookup name header ≡ vals
    → ((groups : List String) → rest ≡ some groups → HasGroup header names)
    → with_values vals rest ≡ some groups
    → HasGroup header (name ∷ names)
with_values-HasGroup header name names none rest groups at later e =
    let h = later groups e in
    record {
      name = h.name;
      groups = h.groups;
      listed = contains-later name h.name names h.listed;
      present = h.present;
    }
with_values-HasGroup header name names (some vals) rest groups at later e = record {
  name = name;
  groups = vals;
  listed = contains-first name names;
  present = at;
}

find_groups-HasGroup :
    (header : Dict (List String)) (names groups : List String)
    → find_groups header names ≡ some groups
    → HasGroup header names
unfolding find_groups
find_groups-HasGroup header [] groups e = absurd (ground arith)
find_groups-HasGroup header (name ∷ names) groups e =
    with_values-HasGroup header name names (lookup name header) (find_groups header names) groups
      refl (find_groups-HasGroup header names) e

require_groups-HasGroup :
    (header : Dict (List String)) (names groups : List String)
    → require_groups (find_groups header names) ≡ ok groups
    → HasGroup header names
require_groups-HasGroup header names groups e = elim (Option-cases (find_groups header names)) [
  | inl missing ↦ absurd (ground arith)
  | inr (found, at) ↦ find_groups-HasGroup header names found at
]

module _ (env : Environment) where
  -- The names that the config map that is stored at a moment has, when it is decoded.
  abbrev pub IsConfigured : ℕ → (Cache → List String) → List String → Type 0
  IsConfigured now field names =
      fresh env.decoders field (get_config_map (env.stored_config now)) ≡ ok names

  -- The request has a user and a group under headers that the configuration names, as it is stored at
  -- the first moment for the user and at the next for the group.
  pub record IsAuthenticated (start : ℕ) (header : Dict (List String)) : Type 0 where
    pub user_headers : List String
    pub users_configured : IsConfigured start (λ c. c.user_headers) user_headers
    pub user : HasUser header user_headers
    pub group_headers : List String
    pub groups_configured : IsConfigured (suc start) (λ c. c.group_headers) group_headers
    pub group : HasGroup header group_headers

  -- Each revision belongs to one object, and the cache holds what was decoded under its revision.
  abbrev pub IsKnown : (String → ConfigMap) → State → Type 0
  IsKnown versions s =
      ((now : ℕ) → IsVersion versions (env.stored_config now))
      × IsFaithful env.decoders versions s.cache

  module _ (field : Cache → List String) (read : Stored → Cache → Result (List String) × Cache)
      (reads : IsRead env.decoders field read) where
    configured-Ends :
        (s : State)
        → Ends
            (IsError 400)
            (λ names.
              (versions : String → ConfigMap)
              → IsKnown versions s
              → IsConfigured s.clock field names)
            s
            (configured env read s)
    unfolding configured
    configured-Ends s = by_result (read (env.stored_config s.clock) s.cache).0 refl
      where
        by_result :
            (r : Result (List String))
            → (read (env.stored_config s.clock) s.cache).0 ≡ r
            → Ends
                (IsError 400)
                (λ names.
                  (versions : String → ConfigMap)
                  → IsKnown versions s
                  → IsConfigured s.clock field names)
                s
                (or_stop 400 r, (configured env read s).1)
        by_result (ok names) e = (
          refl,
          λ versions known.
              sym (
                reads.read_fresh versions (env.stored_config s.clock) s.cache (known.0 s.clock)
                  known.1)
              ∙ e,
        )
        by_result (err e) at = (refl, (e, refl))

    configured-IsKnown :
        (versions : String → ConfigMap) (s : State)
        → IsKnown versions s
        → IsKnown versions (configured env read s).1
    unfolding configured
    configured-IsKnown versions s known =
        (known.0, reads.kept versions (env.stored_config s.clock) s.cache (known.0 s.clock) known.1)

  -- The headers with extra values are collected behind the authentication.
  extras-Ends :
      (request : HttpRequest) (s : State) (Q : Type 0)
      → Q
      → Ends
          (IsError 400)
          (λ (u : Unit {0}). Q)
          s
          ((configured env (get_extra_header_prefixes env.decoders) >>= λ prefixes.
              checked 400 (ok (collect_extras request.header prefixes [])) >>= λ _.
              checked 400 (ok tt))
            s)
  extras-Ends request s Q h =
      then-Ends (IsError 400) _ (λ u. Q) (configured env (get_extra_header_prefixes env.decoders)) _
        s
        (configured-Ends (λ c. c.extra_prefix_headers) (get_extra_header_prefixes env.decoders)
          (get_extra_header_prefixes-IsRead env.decoders) s)
        λ prefixes s₁ read.
          then-Ends (IsError 400) (λ e. ok (collect_extras request.header prefixes []) ≡ ok e)
            (λ u. Q) (checked 400 (ok (collect_extras request.header prefixes []))) _ s₁
            (checked-Ends 400 (ok (collect_extras request.header prefixes [])) s₁)
            λ extras s₂ collected. done-Ends 400 tt (IsError 400) (λ u. Q) s₂ h

  -- If the cache is faithful at the start, a check that passes has found a user and a group.
  pub check-Ends :
      (request : HttpRequest) (s : State)
      → Ends
          (IsError 400)
          (λ _.
            (versions : String → ConfigMap)
            → IsKnown versions s
            → IsAuthenticated s.clock request.header)
          s
          (check env request s)
  unfolding check checked configured
  check-Ends request s =
      then-At (IsError 400) _ Passed (configured env (get_user_headers env.decoders)) _ s
        (configured-Ends (λ c. c.user_headers) (get_user_headers env.decoders)
          (get_user_headers-IsRead env.decoders) s)
        λ users users_configured.
          then-At (IsError 400) (λ u. find_username request.header users ≡ ok u) Passed
            (checked 400 (find_username request.header users)) _ s₁
            (checked-Ends 400 (find_username request.header users) s₁)
            λ u user.
              then-Ends (IsError 400) _ Passed (configured env (get_group_headers env.decoders)) _
                s₁
                (configured-Ends (λ c. c.group_headers) (get_group_headers env.decoders)
                  (get_group_headers-IsRead env.decoders) s₁)
                λ names s₃ groups_configured.
                  then-Ends (IsError 400)
                    (λ g. require_groups (find_groups request.header names) ≡ ok g) Passed
                    (checked 400 (require_groups (find_groups request.header names))) _ s₃
                    (checked-Ends 400 (require_groups (find_groups request.header names)) s₃)
                    λ g s₄ group. extras-Ends request s₄ _ λ versions known. record {
                      user_headers = users;
                      users_configured = users_configured versions known;
                      user = find_username-HasUser request.header users u user;
                      group_headers = names;
                      groups_configured = groups_configured versions (
                          configured-IsKnown (λ c. c.user_headers) (get_user_headers env.decoders)
                            (get_user_headers-IsRead env.decoders) versions s known);
                      group = require_groups-HasGroup request.header names g group;
                    }
    where
      Passed : Unit {0} → Type 0
      Passed _ =
          (versions : String → ConfigMap)
          → IsKnown versions s
          → IsAuthenticated s.clock request.header

      s₁ : State
      s₁ = (configured env (get_user_headers env.decoders) s).1
