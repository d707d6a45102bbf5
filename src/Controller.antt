-- ===== src/Controller.antt =====
-- pkg/controller/types.go: the cache of the metadata that a pod is to keep.
pub mod Cache
pub mod Repair
pub mod Events
pub mod Work
mod Tests
mod Runs
use device_mounter.Base.{
  String, ◌<>◌, Bool, true, false, Option, none, some, List, [], ◌∷◌, eqs, if◌then◌else◌,
}
use device_mounter.Base.Dict.{Dict, lookup, insert, erase}
use device_mounter.Api.{OwnerReference}

-- `client.ObjectKey`
pub record Key : Type 0 where
  pub namespace : String
  pub name : String

-- `key.String()`
abbrev pub key_string : Key → String
key_string key = key.namespace <> ("/" <> key.name)

pub record Metadata : Type 0 where
  pub labels : Dict String
  pub annotations : Dict String
  pub owner_references : List OwnerReference

abbrev pub no_metadata : Metadata
no_metadata = record { labels = []; annotations = []; owner_references = [] }

-- `encoding/json`
pub record Codec : Type 0 where
  pub marshal : Metadata → String
  pub unmarshal : String → Metadata

-- A `sync.Map` tells a text from a structure among its keys: the entries under each kind of key.
pub record MetadataCache : Type 0 where
  pub texts : Dict String
  pub structures : List (Key × String)

abbrev pub delete : MetadataCache → Key → MetadataCache
delete cache key = record cache { texts = erase (key_string key) cache.texts }

module _ (codec : Codec) where
  abbrev pub compare_and_delete : MetadataCache → String → String → Option String → MetadataCache
  compare_and_delete cache text encoded none = cache
  compare_and_delete cache text encoded (some old) =
      if eqs old encoded then record cache { texts = erase text cache.texts } else cache

  -- `Done`
  unfoldable pub done : MetadataCache → Key → Metadata → MetadataCache
  done cache key metadata =
      compare_and_delete cache (key_string key) (codec.marshal metadata)
        (lookup (key_string key) cache.texts)

  abbrev pub load_or_store : MetadataCache → Key → String → Option String → MetadataCache
  load_or_store cache key encoded none = record cache {
    texts = insert (key_string key) encoded cache.texts;
  }
  load_or_store cache key encoded (some old) = record cache {
    structures = (key, encoded) ∷ cache.structures;
  }

  -- `Set`: a text that is there already is left, and the data stored under the structure.
  unfoldable pub set : MetadataCache → Key → Metadata → MetadataCache
  set cache key metadata =
      load_or_store cache key (codec.marshal metadata) (lookup (key_string key) cache.texts)

  abbrev pub loaded : Option String → Metadata × Bool
  loaded none = (no_metadata, false)
  loaded (some encoded) = (codec.unmarshal encoded, true)

  -- `Get`
  unfoldable pub get : MetadataCache → Key → Metadata × Bool
  get cache key = loaded (lookup (key_string key) cache.texts)
