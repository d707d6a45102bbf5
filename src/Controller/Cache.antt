-- ===== src/Controller/Cache.antt =====
-- What `Get` of pkg/controller/types.go answers behind `Set`, `Delete` and `Done`.
use device_mounter.Base.{
  String, Bool, true, false, Option, none, some, ◌≡◌, refl, ◌∙◌, ap, arith, eqs, if◌then◌else◌,
}
use device_mounter.Base.Dict.{lookup, erase, lookup-insert, lookup-erase}
use device_mounter.Controller.{
  Key, key_string, Metadata, no_metadata, Codec, MetadataCache, done, set, get, loaded,
  load_or_store, compare_and_delete,
}

module _ (codec : Codec) where
  loaded-if :
      (b : Bool) (x y : Option String)
      → loaded codec (if b then x else y) ≡ (if b then loaded codec x else loaded codec y)
  loaded-if true x y = refl
  loaded-if false x y = refl

  get-load_or_store :
      (cache : MetadataCache) (key other : Key) (encoded : String) (old : Option String)
      → get codec (load_or_store codec cache key encoded old) other ≡ (
          if eqs (key_string other) (key_string key)
          then elim old [ none ↦ (codec.unmarshal encoded, true) | some x ↦ get codec cache other ]
          else get codec cache other)
  unfolding get
  get-load_or_store cache key other encoded none =
      ap (loaded codec) (lookup-insert (key_string other) (key_string key) encoded cache.texts)
      ∙ loaded-if (eqs (key_string other) (key_string key)) (some encoded)
          (lookup (key_string other) cache.texts)
  get-load_or_store cache key other encoded (some x) = ground arith

  -- `Set` is seen by `Get` for the keys of the same text if there was no entry, as the data encoded
  -- and decoded again. If there was an entry, `Get` answers for every key what it did before.
  pub get-set :
      (cache : MetadataCache) (key other : Key) (metadata : Metadata)
      → get codec (set codec cache key metadata) other ≡ (
          if eqs (key_string other) (key_string key)
          then elim (lookup (key_string key) cache.texts) [
            | none ↦ (codec.unmarshal (codec.marshal metadata), true)
            | some x ↦ get codec cache other
          ]
          else get codec cache other)
  unfolding set
  get-set cache key other metadata =
      get-load_or_store cache key other (codec.marshal metadata)
        (lookup (key_string key) cache.texts)

  get-compare_and_delete :
      (cache : MetadataCache) (key other : Key) (encoded : String) (old : Option String)
      → get codec (compare_and_delete codec cache (key_string key) encoded old) other ≡ (
          if eqs (key_string other) (key_string key)
          then elim old [
            | none ↦ get codec cache other
            | some x ↦ if eqs x encoded then (no_metadata, false) else get codec cache other
          ]
          else get codec cache other)
  unfolding get
  get-compare_and_delete cache key other encoded none = ground arith
  get-compare_and_delete cache key other encoded (some x) = go (eqs x encoded)
    where
      go :
          (same : Bool)
          → get codec
              (if same then record cache { texts = erase (key_string key) cache.texts } else cache)
              other
            ≡ (if eqs (key_string other) (key_string key)
                then (if same then (no_metadata, false) else get codec cache other)
                else get codec cache other)
      go true =
          ap (loaded codec) (lookup-erase (key_string other) (key_string key) cache.texts)
          ∙ loaded-if (eqs (key_string other) (key_string key)) none
              (lookup (key_string other) cache.texts)
      go false = ground arith

  -- `Done` removes the entry of a key exactly if the entry is the encoding of the metadata that are
  -- done, and leaves the entries of other keys.
  pub get-done :
      (cache : MetadataCache) (key other : Key) (metadata : Metadata)
      → get codec (done codec cache key metadata) other ≡ (
          if eqs (key_string other) (key_string key)
          then elim (lookup (key_string key) cache.texts) [
            | none ↦ get codec cache other
            | some x ↦
                if eqs x (codec.marshal metadata)
                then (no_metadata, false)
                else get codec cache other
          ]
          else get codec cache other)
  unfolding done
  get-done cache key other metadata =
      get-compare_and_delete cache key other (codec.marshal metadata)
        (lookup (key_string key) cache.texts)
