-- ===== src/AuthConfig.antt =====
-- pkg/authConfig/authConfig.go: the reader of the request-header configuration and its cache. The
-- informer's store is an argument of each read, since it changes between two of them.
pub mod Refined
mod Tests
use device_mounter.Base.{String, ◌<>◌, Option, none, some, List, [], ◌∷◌, ◌++◌, eqs, if◌then◌else◌}
use device_mounter.Base.Dict.{Dict, lookup}
use device_mounter.Api.{GoError, other_error, Result, ok, err, ◌>>=◌}

-- What the reader keeps of a `v1.ConfigMap`: its revision and its entries.
pub record ConfigMap : Type 0 where
  pub resource_version : String
  pub content : Dict String

-- encoding/json for a list of texts, and `cert.ParseCertsPEM`; a certificate is its text.
pub record Decoders : Type 0 where
  pub decode_strings : String → Result (List String)
  pub parse_certs : String → Result (List String)

-- The cached fields of `reader`; an empty `last_revision` is a cache that was never filled.
pub record Cache : Type 0 where
  pub last_revision : String
  pub user_headers : List String
  pub group_headers : List String
  pub extra_prefix_headers : List String
  pub client_ca : List String

abbrev pub empty_cache : Cache
empty_cache = record {
  last_revision = "";
  user_headers = [];
  group_headers = [];
  extra_prefix_headers = [];
  client_ca = [];
}

abbrev pub default_user_header : String
default_user_header = "X-Remote-User"

abbrev pub default_group_header : String
default_group_header = "X-Remote-Group"

abbrev pub default_extra_header_prefix : String
default_extra_header_prefix = "X-Remote-Extra-"

abbrev in_config_map : String
in_config_map = " not found in configmap kube-system/extension-apiserver-authentication"

-- The answer of the informer's store: an error, no such object, or the object.
abbrev pub Stored : Type 0
Stored = Result (Option ConfigMap)

-- `getConfigMap`
unfoldable pub get_config_map : Stored → Result ConfigMap
get_config_map (err e) = err e
get_config_map (ok none) =
    err (other_error "configmap kube-system/extension-apiserver-authentication not found")
get_config_map (ok (some config_map)) = ok config_map

module _ (decoders : Decoders) where
  -- `getStringsFromConfigMap`
  unfoldable pub get_strings_from_config_map : ConfigMap → String → Result (List String)
  get_strings_from_config_map config_map key = elim (lookup key config_map.content) [
    | none ↦ err (other_error (key <> in_config_map))
    | some text ↦ if eqs text "" then ok [] else decoders.decode_strings text
  ]

  abbrev client_ca_text : ConfigMap → Result String
  client_ca_text config_map = elim (lookup "requestheader-client-ca-file" config_map.content) [
    | none ↦ err (other_error ("requestheader-client-ca-file" <> in_config_map))
    | some text ↦ ok text
  ]

  -- The part of `refreshCache` that reads a new revision.
  unfoldable pub read_config_map : ConfigMap → Result Cache
  unfolding get_strings_from_config_map
  read_config_map config_map = do
    users ← get_strings_from_config_map config_map "requestheader-username-headers"
    groups ← get_strings_from_config_map config_map "requestheader-group-headers"
    prefixes ← get_strings_from_config_map config_map "requestheader-extra-headers-prefix"
    ca ← client_ca_text config_map
    certs ← decoders.parse_certs ca
    ok (record {
      last_revision = config_map.resource_version;
      user_headers = users ++ default_user_header ∷ [];
      group_headers = groups ++ default_group_header ∷ [];
      extra_prefix_headers = prefixes ++ default_extra_header_prefix ∷ [];
      client_ca = certs;
    })

  abbrev pub take_new : Cache → Result Cache → Option GoError × Cache
  take_new cache (err e) = (some e, cache)
  take_new cache (ok new) = (none, new)

  abbrev pub on_config_map : Cache → Result ConfigMap → Option GoError × Cache
  on_config_map cache (err e) = (some e, cache)
  on_config_map cache (ok config_map) =
      if eqs cache.last_revision config_map.resource_version
      then (none, cache)
      else take_new cache (read_config_map config_map)

  -- `refreshCache`
  unfoldable pub refresh_cache : Stored → Cache → Option GoError × Cache
  unfolding get_config_map read_config_map
  refresh_cache stored cache = on_config_map cache (get_config_map stored)

  abbrev pub answer : {A : Type 0} → (Cache → A) → Option GoError × Cache → Result A × Cache
  answer field (some e, cache) = (err e, cache)
  answer field (none, cache) = (ok (field cache), cache)

  -- `GetUserHeaders`
  unfoldable pub get_user_headers : Stored → Cache → Result (List String) × Cache
  unfolding refresh_cache
  get_user_headers stored cache = answer (λ c. c.user_headers) (refresh_cache stored cache)

  -- `GetGroupHeaders`
  unfoldable pub get_group_headers : Stored → Cache → Result (List String) × Cache
  unfolding refresh_cache
  get_group_headers stored cache = answer (λ c. c.group_headers) (refresh_cache stored cache)

  -- `GetExtraHeaderPrefixes`
  unfoldable pub get_extra_header_prefixes : Stored → Cache → Result (List String) × Cache
  unfolding refresh_cache
  get_extra_header_prefixes stored cache =
      answer (λ c. c.extra_prefix_headers) (refresh_cache stored cache)

  -- `GetClientCA`
  unfoldable pub get_client_ca : Stored → Cache → Result (List String) × Cache
  unfolding refresh_cache
  get_client_ca stored cache = answer (λ c. c.client_ca) (refresh_cache stored cache)
