-- ===== src/Ingest/Cache.antt =====
-- The key cache of packages/obs-collector/src/auth/ingest-auth.ts: a `Map` from the hash of a key to its
-- project, as the entries in the order of insertion. Times are `Date.now()` in milliseconds.
use obs_unified.Common.{ℕ, ◌+◌, List, [], ◌∷◌, Option, none, some, length, leb, if◌then◌else◌}
use obs_unified.Common.Text.{Text, text_eq}

abbrev pub cache_ttl_ms : ℕ
cache_ttl_ms = 60000

abbrev pub cache_max_entries : ℕ
cache_max_entries = 500

pub record Entry : Type 0 where
  pub project_id : Text
  pub expires_at : ℕ

abbrev pub Cache : Type 0
Cache = List (Text × Entry)

unfoldable pub prune_key_cache : ℕ → Cache → Cache
prune_key_cache now [] = []
prune_key_cache now ((hash, entry) ∷ cache) =
    let rest = prune_key_cache now cache in
    if leb entry.expires_at now then rest else (hash, entry) ∷ rest

-- `map.get(hash)`
unfoldable pub map_get : Text → Cache → Option Entry
map_get hash [] = none
map_get hash ((other, entry) ∷ cache) =
    if text_eq other hash then some entry else map_get hash cache

-- `map.delete(hash)`
unfoldable pub map_delete : Text → Cache → Cache
map_delete hash [] = []
map_delete hash ((other, entry) ∷ cache) =
    let rest = map_delete hash cache in if text_eq other hash then rest else (other, entry) ∷ rest

-- `map.set(hash, entry)`: a key that is there keeps its place.
unfoldable pub map_put : Text → Entry → Cache → Cache
map_put hash entry [] = (hash, entry) ∷ []
map_put hash entry ((other, old) ∷ cache) =
    if text_eq other hash then (hash, entry) ∷ cache else (other, old) ∷ map_put hash entry cache

-- The project found, and the cache as it is left
unfoldable pub get_cached : Cache → Text → ℕ → Option Text × Cache
unfolding prune_key_cache map_get map_delete
get_cached cache hash now =
    let pruned = prune_key_cache now cache in
    elim (map_get hash pruned) [
      | none ↦ (none, pruned)
      | some entry ↦
          if leb entry.expires_at now
          then (none, map_delete hash pruned)
          else (some entry.project_id, pruned)
    ]

-- `while (cache.size >= CACHE_MAX_ENTRIES)`: the oldest key is the first, and deleting it leaves the
-- others, since a `Map` holds no key twice. An empty key ends the loop.
unfoldable pub evict_oldest : Cache → Cache
evict_oldest [] = []
evict_oldest ((oldest, entry) ∷ cache) =
    let rest = evict_oldest cache in
    if leb cache_max_entries (length ((oldest, entry) ∷ cache))
    then (if text_eq oldest [] then (oldest, entry) ∷ cache else rest)
    else (oldest, entry) ∷ cache

unfoldable pub set_cached : Cache → Text → Text → ℕ → Cache
unfolding prune_key_cache evict_oldest map_put
set_cached cache hash project_id now =
    map_put hash (record { project_id = project_id; expires_at = now + cache_ttl_ms })
      (evict_oldest (prune_key_cache now cache))
