-- ===== src/ApiServer/Headers.antt =====
-- pkg/server/apiserver/util.go: the headers that authenticate a request.
use device_mounter.Base.{String, Option, none, some, List, [], ◌∷◌, ◌++◌}
use device_mounter.Base.Dict.{Dict, lookup, insert}
use device_mounter.Base.Split.{strip_prefix}
use device_mounter.Api.{other_error, Result, ok, err}

-- The first value of a header, or what the headers behind it give.
abbrev pub first_value : Option (List String) → Result String → Result String
first_value none rest = rest
first_value (some []) rest = rest
first_value (some (username ∷ usernames)) rest = ok username

-- The loop of `getAuthUsername`.
unfoldable pub find_username : Dict (List String) → List String → Result String
find_username header [] = err (other_error "a valid user header is required")
find_username header (name ∷ names) = first_value (lookup name header) (find_username header names)

abbrev pub with_values : Option (List String) → Option (List String) → Option (List String)
with_values none rest = rest
with_values (some vals) none = some vals
with_values (some vals) (some rest) = some (vals ++ rest)

-- The loop of `getAuthGroups`; none is that no header was found.
unfoldable pub find_groups : Dict (List String) → List String → Option (List String)
find_groups header [] = none
find_groups header (name ∷ names) = with_values (lookup name header) (find_groups header names)

-- The end of `getAuthGroups`
abbrev pub require_groups : Option (List String) → Result (List String)
require_groups none = err (other_error "a valid group header is required")
require_groups (some groups) = ok groups

-- The inner loop of `getAuthExtraHeaders`: the key behind the first prefix that it has.
unfoldable pub extra_key : String → List String → Option String
extra_key key [] = none
extra_key key (prefix ∷ prefixes) =
    let rest = extra_key key prefixes in
    elim (strip_prefix key prefix) [ none ↦ rest | some extra ↦ some extra ]

-- The outer loop of `getAuthExtraHeaders`
unfoldable pub collect_extras :
    Dict (List String) → List String → Dict (List String) → Dict (List String)
unfolding extra_key
collect_extras [] prefixes extras = extras
collect_extras ((key, values) ∷ header) prefixes extras =
    collect_extras header prefixes
      (elim (extra_key key prefixes) [ none ↦ extras | some extra ↦ insert extra values extras ])
