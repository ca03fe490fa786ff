-- ===== src/Ingest/CacheLaws.antt =====
-- What the operations of the key cache in packages/obs-collector/src/auth/ingest-auth.ts keep.
use mathlib.Core.Path.{subst}
use obs_unified.Common.{
  ℕ, ◌+◌, ◌≤◌, ◌<◌, ◌≡◌, ◌≢◌, refl, [], ◌∷◌, none, some, inl, inr, length, All, Bool-cases,
  Option-cases, arith, leb,
}
use obs_unified.Common.Text.{Text, text_eq, text_eq_iff}
use obs_unified.Ingest.Cache.{
  Entry, Cache, cache_ttl_ms, cache_max_entries, prune_key_cache, map_get, map_delete, map_put,
  get_cached, evict_oldest, set_cached,
}

-- A predicate of every entry
module _ (P : Text × Entry → Type 0) where
  prune-All : (now : ℕ) (cache : Cache) → All P cache → All P (prune_key_cache now cache)
  unfolding prune_key_cache
  prune-All now [] h = tt
  prune-All now ((k, entry) ∷ cache) h = elim (Bool-cases (leb entry.expires_at now)) [
    | inl old ↦ rw old (prune-All now cache h.1)
    | inr live ↦ rw live (h.0, prune-All now cache h.1)
  ]

  delete-All : (hash : Text) (cache : Cache) → All P cache → All P (map_delete hash cache)
  unfolding map_delete
  delete-All hash [] h = tt
  delete-All hash ((k, entry) ∷ cache) h = elim (Bool-cases (text_eq k hash)) [
    | inl same ↦ rw same (delete-All hash cache h.1)
    | inr other ↦ rw other (h.0, delete-All hash cache h.1)
  ]

  evict-All : (cache : Cache) → All P cache → All P (evict_oldest cache)
  unfolding evict_oldest
  evict-All [] h = tt
  evict-All ((k, entry) ∷ cache) h =
      elim (Bool-cases (leb cache_max_entries (length ((k, entry) ∷ cache)))) [
        | inl full ↦ elim (Bool-cases (text_eq k [])) [
          | inl e ↦ rw (full, e) h
          | inr e ↦ rw (full, e) (evict-All cache h.1)
        ]
        | inr room ↦ rw room h
      ]

  put-All :
      (hash : Text) (entry : Entry) (cache : Cache)
      → P (hash, entry)
      → All P cache
      → All P (map_put hash entry cache)
  unfolding map_put
  put-All hash entry [] new h = (new, tt)
  put-All hash entry ((k, old) ∷ cache) new h = elim (Bool-cases (text_eq k hash)) [
    | inl same ↦ rw same (new, h.1)
    | inr other ↦ rw other (h.0, put-All hash entry cache new h.1)
  ]

  pub get_cached-All :
      (cache : Cache) (hash : Text) (now : ℕ) → All P cache → All P (get_cached cache hash now).1
  unfolding get_cached
  get_cached-All cache hash now h =
      let pruned = prune-All now cache h in
      elim (Option-cases (map_get hash (prune_key_cache now cache))) [
        | inl miss ↦ rw (miss, get_cached) pruned
        | inr (entry, hit) ↦ elim (Bool-cases (leb entry.expires_at now)) [
          | inl old ↦ rw (hit, get_cached, old) (delete-All hash (prune_key_cache now cache) pruned)
          | inr live ↦ rw (hit, get_cached, live) pruned
        ]
      ]

  pub set_cached-All :
      (cache : Cache) (hash project_id : Text) (now : ℕ)
      → P (hash, record { project_id = project_id; expires_at = now + cache_ttl_ms })
      → All P cache
      → All P (set_cached cache hash project_id now)
  unfolding set_cached
  set_cached-All cache hash project_id now new h =
      put-All hash _ _ new (evict-All _ (prune-All now cache h))

-- Entries of the hash that expire by `limit`
abbrev pub ExpiresBy : Text → ℕ → Text × Entry → Type 0
ExpiresBy hash limit e = e.0 ≡ hash → e.1.expires_at ≤ limit

get-prune :
    (hash : Text) (limit now : ℕ) (cache : Cache)
    → limit ≤ now
    → All (ExpiresBy hash limit) cache
    → map_get hash (prune_key_cache now cache) ≡ none
unfolding prune_key_cache map_get
get-prune hash limit now [] le h = refl
get-prune hash limit now ((k, entry) ∷ cache) le h = elim (Bool-cases (leb entry.expires_at now)) [
  | inl old ↦ rw old (get-prune hash limit now cache le h.1)
  | inr live ↦ elim (Bool-cases (text_eq k hash)) [
    | inl same ↦ let by_limit = h.0 ((text_eq_iff k hash).0 same) in absurd (ground arith)
    | inr other ↦ rw (live, other) (get-prune hash limit now cache le h.1)
  ]
]

-- Past its limit a hash is not found.
pub get_cached_expired :
    (hash : Text) (limit now : ℕ) (cache : Cache)
    → limit ≤ now
    → All (ExpiresBy hash limit) cache
    → (get_cached cache hash now).0 ≡ none
unfolding get_cached
get_cached_expired hash limit now cache le h = rw (get-prune hash limit now cache le h, get_cached)

-- A hit is an entry of the cache.
get_of_All :
    (P : Text × Entry → Type 0) (hash : Text) (entry : Entry) (cache : Cache)
    → All P cache
    → map_get hash cache ≡ some entry
    → P (hash, entry)
unfolding map_get
get_of_All P hash entry [] h found = cc
get_of_All P hash entry ((k, e) ∷ cache) h found = elim (Bool-cases (text_eq k hash)) [
  | inl same ↦
      let key = (text_eq_iff k hash).0 same in
      let value : some e ≡ some entry = rw same at found in subst P (cc) h.0
  | inr other ↦ get_of_All P hash entry cache h.1 (rw other at found)
]

pub get_cached_hit :
    (P : Text × Entry → Type 0) (hash project_id : Text) (now : ℕ) (cache : Cache)
    → All P cache
    → (get_cached cache hash now).0 ≡ some project_id
    → (entry : Entry) × P (hash, entry) × (entry.project_id ≡ project_id)
unfolding get_cached
get_cached_hit P hash project_id now cache h hit =
    elim (Option-cases (map_get hash (prune_key_cache now cache))) [
      | inl miss ↦ absurd (cc (rw (miss, get_cached) at hit))
      | inr (entry, found) ↦ elim (Bool-cases (leb entry.expires_at now)) [
        | inl old ↦ absurd (cc (rw (found, get_cached, old) at hit))
        | inr live ↦
            let value : some entry.project_id ≡ some project_id =
              rw (found, get_cached, live) at hit in
            (
              entry,
              get_of_All P hash entry (prune_key_cache now cache) (prune-All P now cache h) found,
              cc,
            )
      ]
    ]

-- Sizes: a `Map` of hashes, none empty, below the bound
abbrev pub HasKey : Text × Entry → Type 0
HasKey e = e.0 ≢ []

length-prune-le : (now : ℕ) (c : Cache) → length (prune_key_cache now c) ≤ length c
unfolding prune_key_cache
length-prune-le now [] = omega arith
length-prune-le now ((k, entry) ∷ c) = ground (arith, length-prune-le now c)

length-delete-le : (hash : Text) (c : Cache) → length (map_delete hash c) ≤ length c
unfolding map_delete
length-delete-le hash [] = omega arith
length-delete-le hash ((k, entry) ∷ c) = ground (arith, length-delete-le hash c)

length-put-le :
    (hash : Text) (entry : Entry) (c : Cache) → length (map_put hash entry c) ≤ length c + 1
unfolding map_put
length-put-le hash entry [] = omega arith
length-put-le hash entry ((k, old) ∷ c) = ground (arith, length-put-le hash entry c)

length-evict-lt : (c : Cache) → All HasKey c → length (evict_oldest c) < cache_max_entries
unfolding evict_oldest
length-evict-lt [] h = omega arith
length-evict-lt ((k, entry) ∷ c) h = elim (Bool-cases (text_eq k [])) [
  | inl empty ↦ absurd (h.0 ((text_eq_iff k []).0 empty))
  | inr e ↦ rw e (ground (arith, length-evict-lt c h.1))
]

pub length-set_cached-le :
    (cache : Cache) (hash project_id : Text) (now : ℕ)
    → All HasKey cache
    → length (set_cached cache hash project_id now) ≤ cache_max_entries
unfolding set_cached
length-set_cached-le cache hash project_id now h =
    let kept = prune-All HasKey now cache h in
    omega (
      arith,
      length-put-le hash (record { project_id = project_id; expires_at = now + cache_ttl_ms })
          (evict_oldest (prune_key_cache now cache)),
      length-evict-lt (prune_key_cache now cache) kept,
    )

pub length-get_cached-le :
    (cache : Cache) (hash : Text) (now : ℕ) → length (get_cached cache hash now).1 ≤ length cache
unfolding get_cached
length-get_cached-le cache hash now =
    let pruned = prune_key_cache now cache in
    elim (Option-cases (map_get hash pruned)) [
      | inl miss ↦ rw (miss, get_cached) (length-prune-le now cache)
      | inr (entry, hit) ↦ elim (Bool-cases (leb entry.expires_at now)) [
        | inl old ↦
            rw (hit, get_cached, old)
              (omega (arith, length-delete-le hash pruned, length-prune-le now cache))
        | inr live ↦ rw (hit, get_cached, live) (length-prune-le now cache)
      ]
    ]
