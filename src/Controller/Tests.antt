-- ===== src/Controller/Tests.antt =====
-- The cache with one pod in it.
use device_mounter.Base.{
  String, true, false, none, some, [], ◌∷◌, ◌≡◌, refl, eqs, string_dec, if◌then◌else◌,
}
use device_mounter.Base.Dict.{lookup}
use device_mounter.Controller.{Key, Metadata, no_metadata, Codec, MetadataCache, done, set, get}
use device_mounter.Controller.Cache.{get-set, get-done}

-- An encoding that keeps the first label only.
abbrev codec : Codec
codec = record {
  marshal = λ m. elim (m.labels) [ [] ↦ "" | (k, v) ∷ rest ↦ v ];
  unmarshal = λ text. record no_metadata { labels = ("a", text) ∷ [] };
}

abbrev app : Key
app = record { namespace = "default"; name = "app" }

abbrev marked : String → Metadata
marked v = record no_metadata { labels = ("a", v) ∷ [] }

abbrev cache : MetadataCache
cache = record { texts = ("default/app", "one") ∷ []; structures = [] }

get-set_example : get codec (set codec cache app (marked "two")) app ≡ (
    if eqs "default/app" "default/app"
    then elim (lookup "default/app" cache.texts) [
      | none ↦ (marked "two", true)
      | some x ↦ get codec cache app
    ]
    else get codec cache app)
get-set_example = get-set codec cache app app (marked "two")

get-done_example : get codec (done codec cache app (marked "one")) app ≡ (
    if eqs "default/app" "default/app"
    then elim (lookup "default/app" cache.texts) [
      | none ↦ get codec cache app
      | some x ↦ if eqs x "one" then (no_metadata, false) else get codec cache app
    ]
    else get codec cache app)
get-done_example = get-done codec cache app app (marked "one")

-- The second metadata stored for a pod are not the ones read.
update_lost : get codec (set codec cache app (marked "two")) app ≡ (marked "one", true)
unfolding get set lookup string_dec
update_lost = refl
