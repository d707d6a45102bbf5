-- ===== src/AuthConfig/Tests.antt =====
-- Reads of a small configuration.
use device_mounter.Base.{String, none, some, List, [], ◌∷◌, ◌≡◌, ◌≢◌, refl, string_dec, eqs→ne}
use device_mounter.Base.Dict.{lookup}
use device_mounter.Api.{ok}
use device_mounter.AuthConfig.{
  ConfigMap, Decoders, Stored, get_config_map, get_user_headers, get_group_headers,
  get_extra_header_prefixes, get_client_ca,
}
use device_mounter.AuthConfig.Refined.{after_reads, fresh, after_reads-fresh}

-- A decoder that takes a text for a list of one.
abbrev decoders : Decoders
decoders = record { decode_strings = λ s. ok (s ∷ []); parse_certs = λ s. ok (s ∷ []) }

abbrev configured : String → ConfigMap
configured revision = record {
  resource_version = revision;
  content =
      ("requestheader-username-headers", "User")
      ∷ ("requestheader-group-headers", "")
      ∷ ("requestheader-extra-headers-prefix", "Extra-")
      ∷ ("requestheader-client-ca-file", "CA")
      ∷ [];
}

abbrev stored : String → Stored
stored revision = ok (some (configured revision))

abbrev earlier : List Stored
earlier = ok none ∷ stored "6" ∷ []

revision_given : (configured "7").resource_version ≢ ""
unfolding string_dec
revision_given = eqs→ne "7" "" refl

first_revision_given : (configured "6").resource_version ≢ ""
unfolding string_dec
first_revision_given = eqs→ne "6" "" refl

users :
    (get_user_headers decoders (stored "7") (after_reads decoders [])).0
    ≡ ok ("User" ∷ "X-Remote-User" ∷ [])
unfolding get_user_headers lookup string_dec
users = refl

-- A read of the second revision, behind one of the first and one that found nothing.
after_reads-fresh_example :
    ((get_user_headers decoders (stored "7") (after_reads decoders earlier)).0
      ≡ fresh decoders (λ c. c.user_headers) (get_config_map (stored "7")))
    × ((get_group_headers decoders (stored "7") (after_reads decoders earlier)).0
        ≡ fresh decoders (λ c. c.group_headers) (get_config_map (stored "7")))
    × ((get_extra_header_prefixes decoders (stored "7") (after_reads decoders earlier)).0
        ≡ fresh decoders (λ c. c.extra_prefix_headers) (get_config_map (stored "7")))
    × ((get_client_ca decoders (stored "7") (after_reads decoders earlier)).0
        ≡ fresh decoders (λ c. c.client_ca) (get_config_map (stored "7")))
after_reads-fresh_example =
    after_reads-fresh decoders configured earlier (stored "7")
      ((refl, revision_given), (tt, ((refl, first_revision_given), tt)))
