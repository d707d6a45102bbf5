-- ===== src/AuthConfig/Refined.antt =====
-- The cached reader (pkg/authConfig/authConfig.go) against a reader without a cache.
use mathlib.Core.Path.{subst}
use device_mounter.Base.{
  String, Option, none, some, List, [], ◌∷◌, ◌≡◌, ◌≢◌, refl, ap, sym, ◌∙◌, ◌⊎◌, inl, inr, arith,
  All, eqs, eqs→eq, Bool-cases,
}
use device_mounter.Api.{GoError, Result, ok, err}
use device_mounter.AuthConfig.{
  ConfigMap, Decoders, Cache, Stored, empty_cache, get_config_map, read_config_map, take_new,
  refresh_cache, answer, get_user_headers, get_group_headers, get_extra_header_prefixes,
  get_client_ca,
}

-- An object of the store is the one that the API server gave its revision to.
abbrev pub IsVersion : (String → ConfigMap) → Stored → Type 0
IsVersion versions (err e) = Unit
IsVersion versions (ok none) = Unit
IsVersion versions (ok (some config_map)) =
    (versions config_map.resource_version ≡ config_map) × (config_map.resource_version ≢ "")

module _ (decoders : Decoders) where
  abbrev pub take_field : {A : Type 0} → (Cache → A) → Result Cache → Result A
  take_field field (err e) = err e
  take_field field (ok cache) = ok (field cache)

  -- A read without a cache: every time the config map is decoded.
  abbrev pub fresh : {A : Type 0} → (Cache → A) → Result ConfigMap → Result A
  fresh field (err e) = err e
  fresh field (ok config_map) = take_field field (read_config_map decoders config_map)

  -- The cache after reads of the store at several moments.
  abbrev pub after_reads : List Stored → Cache
  after_reads [] = empty_cache
  after_reads (stored ∷ earlier) = (refresh_cache decoders stored (after_reads earlier)).1

  abbrev pub IsFaithful : (String → ConfigMap) → Cache → Type 0
  IsFaithful versions cache =
      (cache.last_revision ≡ "")
      ⊎ (read_config_map decoders (versions cache.last_revision) ≡ ok cache)

  read_config_map-revision :
      (config_map : ConfigMap) (cache : Cache)
      → read_config_map decoders config_map ≡ ok cache
      → cache.last_revision ≡ config_map.resource_version
  unfolding read_config_map
  read_config_map-revision config_map cache e = ground arith

  -- What a faithful cache holds under the revision of the store.
  same-faithful :
      (versions : String → ConfigMap) (cache : Cache) (config_map : ConfigMap)
      → IsVersion versions (ok (some config_map))
      → IsFaithful versions cache
      → cache.last_revision ≡ config_map.resource_version
      → read_config_map decoders config_map ≡ ok cache
  same-faithful versions cache config_map v (inl never) same = absurd (v.1 (sym same ∙ never))
  same-faithful versions cache config_map v (inr faithful) same =
      ap (read_config_map decoders) (sym v.0 ∙ ap versions (sym same)) ∙ faithful

  take_new-IsFaithful :
      (versions : String → ConfigMap) (cache : Cache) (config_map : ConfigMap) (r : Result Cache)
      → IsVersion versions (ok (some config_map))
      → IsFaithful versions cache
      → read_config_map decoders config_map ≡ r
      → IsFaithful versions (take_new decoders cache r).1
  take_new-IsFaithful versions cache config_map (err e) v faithful read = faithful
  take_new-IsFaithful versions cache config_map (ok new) v faithful read = inr (
      ap (λ revision. read_config_map decoders (versions revision))
        (read_config_map-revision config_map new read)
      ∙ ap (read_config_map decoders) v.0
      ∙ read)

  refresh_cache-IsFaithful :
      (versions : String → ConfigMap) (cache : Cache) (stored : Stored)
      → IsVersion versions stored
      → IsFaithful versions cache
      → IsFaithful versions (refresh_cache decoders stored cache).1
  unfolding refresh_cache get_config_map
  refresh_cache-IsFaithful versions cache (err e) v faithful = faithful
  refresh_cache-IsFaithful versions cache (ok none) v faithful = faithful
  refresh_cache-IsFaithful versions cache (ok (some config_map)) v faithful =
      elim (Bool-cases (eqs cache.last_revision config_map.resource_version)) [
        | inl same ↦ rw same faithful
        | inr changed ↦ rw changed (
            take_new-IsFaithful versions cache config_map (read_config_map decoders config_map) v
              faithful refl)
      ]

  pub after_reads-IsFaithful :
      (versions : String → ConfigMap) (earlier : List Stored)
      → All (IsVersion versions) earlier
      → IsFaithful versions (after_reads earlier)
  after_reads-IsFaithful versions [] h = inl refl
  after_reads-IsFaithful versions (stored ∷ earlier) h =
      refresh_cache-IsFaithful versions (after_reads earlier) stored h.0
        (after_reads-IsFaithful versions earlier h.1)

  answer-take_new :
      {A : Type 0} (field : Cache → A) (cache : Cache) (config_map : ConfigMap)
      → (answer decoders field (take_new decoders cache (read_config_map decoders config_map))).0
        ≡ fresh field (ok config_map)
  answer-take_new field cache config_map = ground arith

  -- One read of a faithful cache.
  answer-fresh :
      {A : Type 0} (field : Cache → A) (versions : String → ConfigMap) (cache : Cache)
      (stored : Stored)
      → IsVersion versions stored
      → IsFaithful versions cache
      → (answer decoders field (refresh_cache decoders stored cache)).0
        ≡ fresh field (get_config_map stored)
  unfolding refresh_cache get_config_map
  answer-fresh field versions cache (err e) v faithful = refl
  answer-fresh field versions cache (ok none) v faithful = refl
  answer-fresh field versions cache (ok (some config_map)) v faithful =
      elim (Bool-cases (eqs cache.last_revision config_map.resource_version)) [
        | inl same ↦ rw same (
            sym (
              ap (take_field field) (
                same-faithful versions cache config_map v faithful
                  (eqs→eq cache.last_revision config_map.resource_version same))))
        | inr changed ↦ rw changed (answer-take_new field cache config_map)
      ]

  answer-cache :
      {A : Type 0} (field : Cache → A) (x : Option GoError × Cache)
      → (answer decoders field x).1 ≡ x.1
  answer-cache field (none, cache) = refl
  answer-cache field (some e, cache) = refl

  -- A read that answers as one without a cache if the cache is faithful, and leaves it so.
  pub record IsRead {A : Type 0} (field : Cache → A) (read : Stored → Cache → Result A × Cache)
      : Type 0 where
    pub read_fresh :
        (versions : String → ConfigMap) (stored : Stored) (cache : Cache)
        → IsVersion versions stored
        → IsFaithful versions cache
        → (read stored cache).0 ≡ fresh field (get_config_map stored)
    pub kept :
        (versions : String → ConfigMap) (stored : Stored) (cache : Cache)
        → IsVersion versions stored
        → IsFaithful versions cache
        → IsFaithful versions (read stored cache).1

  answer-IsRead :
      {A : Type 0} (field : Cache → A)
      → IsRead field (λ stored cache. answer decoders field (refresh_cache decoders stored cache))
  answer-IsRead field = record {
    read_fresh =
        λ versions stored cache v faithful. answer-fresh field versions cache stored v faithful;
    kept = λ versions stored cache v faithful.
        subst (IsFaithful versions) (sym (answer-cache field (refresh_cache decoders stored cache)))
          (refresh_cache-IsFaithful versions cache stored v faithful);
  }

  pub get_user_headers-IsRead : IsRead (λ c. c.user_headers) (get_user_headers decoders)
  unfolding get_user_headers
  get_user_headers-IsRead = answer-IsRead (λ c. c.user_headers)

  pub get_group_headers-IsRead : IsRead (λ c. c.group_headers) (get_group_headers decoders)
  unfolding get_group_headers
  get_group_headers-IsRead = answer-IsRead (λ c. c.group_headers)

  pub get_extra_header_prefixes-IsRead :
      IsRead (λ c. c.extra_prefix_headers) (get_extra_header_prefixes decoders)
  unfolding get_extra_header_prefixes
  get_extra_header_prefixes-IsRead = answer-IsRead (λ c. c.extra_prefix_headers)

  -- Whatever was read from the store before, each of the four reads answers what decoding the config
  -- map of the moment gives, errors included. A revision that is not empty belongs to one object.
  pub after_reads-fresh :
      (versions : String → ConfigMap) (earlier : List Stored) (stored : Stored)
      → All (IsVersion versions) (stored ∷ earlier)
      → ((get_user_headers decoders stored (after_reads earlier)).0
          ≡ fresh (λ c. c.user_headers) (get_config_map stored))
        × ((get_group_headers decoders stored (after_reads earlier)).0
            ≡ fresh (λ c. c.group_headers) (get_config_map stored))
        × ((get_extra_header_prefixes decoders stored (after_reads earlier)).0
            ≡ fresh (λ c. c.extra_prefix_headers) (get_config_map stored))
        × ((get_client_ca decoders stored (after_reads earlier)).0
            ≡ fresh (λ c. c.client_ca) (get_config_map stored))
  unfolding get_user_headers get_group_headers get_extra_header_prefixes get_client_ca
  after_reads-fresh versions earlier stored h =
      let faithful : IsFaithful versions (after_reads earlier) =
        after_reads-IsFaithful versions earlier h.1 in
      (
        answer-fresh (λ c. c.user_headers) versions (after_reads earlier) stored h.0 faithful,
        answer-fresh (λ c. c.group_headers) versions (after_reads earlier) stored h.0 faithful,
        answer-fresh (λ c. c.extra_prefix_headers) versions (after_reads earlier) stored h.0
            faithful,
        answer-fresh (λ c. c.client_ca) versions (after_reads earlier) stored h.0 faithful,
      )
