-- ===== src/Ingest/Revocation.antt =====
-- How long a revoked key is accepted by packages/obs-collector/src/auth/ingest-auth.ts.
use obs_unified.Common.{
  ℕ, ◌+◌, ◌≤◌, ◌≡◌, ◌∙◌, true, ◌⊎◌, List, [], ◌∷◌, none, some, inl, inr, All, Bool-cases,
  Option-cases, arith, if◌then◌else◌,
}
use obs_unified.Common.Text.{Text, truthy, or_else}
use obs_unified.Ingest.Keys.{find_by_key_hash, has_hash, revoke_key, bootstrap_env_key}
use obs_unified.Ingest.Cache.{Entry, Cache, cache_ttl_ms, get_cached, set_cached}
use obs_unified.Ingest.Auth.{
  World, Request, unauthorized, server_error, bootstrap, token_of, look_up, check_token,
  ingest_auth,
}
use obs_unified.Ingest.CacheLaws.{ExpiresBy, get_cached-All, set_cached-All, get_cached_expired}
use obs_unified.Ingest.KeyLaws.{find-bootstrap_known, find-revoke_rows}
use obs_unified.Ingest.Serve.{serve, serve_keeps}

-- The operator revokes a key.
unfoldable pub revoke : World → ℕ → Text → World
revoke w now key_id = record w { db = (revoke_key now w.db key_id).0 }

-- Every entry of the cache expires by `limit`.
ExpireBy : ℕ → World → Type 0
ExpireBy limit w = All (λ e. e.1.expires_at ≤ limit) w.cache

-- A hash that is on record and not active, and cached until `limit` at most
record IsGone (hash : Text) (limit : ℕ) (w : World) : Type 0 where
  entries : All (ExpiresBy hash limit) w.cache
  gone : find_by_key_hash w.db hash ≡ none
  known : has_hash hash w.db.ingest_keys ≡ true

module _ (sha256_hex : Text → Text) where
  pub cache-bootstrap : (w : World) (r : Request) → (bootstrap sha256_hex w r).cache ≡ w.cache
  unfolding bootstrap
  cache-bootstrap w r = ground arith

  -- The bootstrap leaves the database, or registers the legacy key.
  pub db-bootstrap :
      (w : World) (r : Request)
      → ((bootstrap sha256_hex w r).db ≡ w.db)
        ⊎ ((legacy : Text) × ((bootstrap sha256_hex w r).db
              ≡ bootstrap_env_key sha256_hex r.now r.random_id w.db legacy))
  unfolding bootstrap
  db-bootstrap w r = elim (Bool-cases w.bootstrap_done) [
    | inl done ↦ inl (rw done)
    | inr first ↦ elim (Option-cases (or_else r.env_ingest_key r.env_telemetry_ingest_token)) [
      | inl nothing ↦ inl (rw (first, nothing))
      | inr (legacy, given) ↦ elim (Bool-cases (truthy (some legacy))) [
        | inl filled ↦ elim (Bool-cases r.bootstrap_fails) [
          | inl fails ↦ inl (rw (first, given, filled, fails))
          | inr up ↦ inr (legacy, rw (first, given, filled, up))
        ]
        | inr empty ↦ inl (rw (first, given, empty))
      ]
    ]
  ]

  bootstrap-IsGone :
      (hash : Text) (limit : ℕ) (w : World) (r : Request)
      → IsGone hash limit w
      → IsGone hash limit (bootstrap sha256_hex w r)
  bootstrap-IsGone hash limit w r i =
      let entries : All (ExpiresBy hash limit) (bootstrap sha256_hex w r).cache =
        rw (cache-bootstrap w r) i.entries in
      elim (db-bootstrap w r) [
        | inl same ↦ record { entries = entries; gone = rw same i.gone; known = rw same i.known }
        | inr (legacy, booted) ↦
            let (found, on_record) =
              find-bootstrap_known sha256_hex r.now r.random_id w.db hash legacy i.known in
            record {
              entries = entries;
              gone = rw booted (found ∙ i.gone);
              known = rw booted on_record;
            }
      ]

  add-IsGone :
      (hash : Text) (limit : ℕ) (w : World) (other project_id : Text) (now : ℕ)
      → find_by_key_hash w.db other ≡ some project_id
      → IsGone hash limit w
      → IsGone hash limit (record w { cache = set_cached w.cache other project_id now })
  add-IsGone hash limit w other project_id now found i = record {
    entries =
        set_cached-All (ExpiresBy hash limit) w.cache other project_id now
          (λ same.
            let e : find_by_key_hash w.db hash ≡ some project_id = rw same at found in
            absurd (ground (arith, i.gone)))
          i.entries;
    gone = i.gone;
    known = i.known;
  }

  pub All-tt : {A : Type 0} (xs : List A) → All (λ _. Unit {0}) xs
  All-tt [] = tt
  All-tt (x ∷ xs) = (tt, All-tt xs)

  IsGone-serve :
      (hash : Text) (limit : ℕ) (w : World) (requests : List Request)
      → IsGone hash limit w
      → IsGone hash limit (serve sha256_hex w requests)
  IsGone-serve hash limit w requests i =
      serve_keeps sha256_hex (IsGone hash limit) (λ _. Unit)
        (λ w' r _ j. bootstrap-IsGone hash limit w' r j)
        (λ w' other r _ j. record {
          entries = get_cached-All (ExpiresBy hash limit) w'.cache other r.now j.entries;
          gone = j.gone;
          known = j.known;
        })
        (λ w' token project_id r _ found j.
          add-IsGone hash limit w' (sha256_hex token) project_id r.now found j)
        w requests (All-tt requests) i

  IsGone-refused :
      (hash : Text) (limit : ℕ) (w : World) (r : Request) (token : Text)
      → IsGone hash limit w
      → token_of r ≡ some token
      → truthy (some token) ≡ true
      → sha256_hex token ≡ hash
      → limit ≤ r.now
      → (ingest_auth sha256_hex w r).0 ≡ (if r.lookup_fails then server_error else unauthorized)
  unfolding ingest_auth check_token look_up
  IsGone-refused hash limit w r token i given filled ours late =
      let j = bootstrap-IsGone hash limit w r i in
      let booted = bootstrap sha256_hex w r in
      let miss : (get_cached booted.cache (sha256_hex token) r.now).0 ≡ none =
        rw ours (get_cached_expired hash limit r.now booted.cache late j.entries) in
      let gone : find_by_key_hash booted.db (sha256_hex token) ≡ none = rw ours j.gone in
      elim (Bool-cases r.lookup_fails) [
        | inl fails ↦ rw (given, ingest_auth, filled, check_token, miss, fails)
        | inr up ↦ rw (given, ingest_auth, filled, check_token, miss, up, gone)
      ]

  ExpireBy-serve :
      (time : ℕ) (w : World) (requests : List Request)
      → All (λ r. r.now ≤ time) requests
      → ExpireBy (time + cache_ttl_ms) w
      → ExpireBy (time + cache_ttl_ms) (serve sha256_hex w requests)
  unfolding ExpireBy
  ExpireBy-serve time w requests before i =
      let P : Text × Entry → Type 0 = λ e. e.1.expires_at ≤ time + cache_ttl_ms in
      serve_keeps sha256_hex (ExpireBy (time + cache_ttl_ms)) (λ r. r.now ≤ time)
        (λ w' r _ j. rw (cache-bootstrap w' r) j)
        (λ w' hash r _ j. get_cached-All P w'.cache hash r.now j)
        (λ w' token project_id r early _ j.
          set_cached-All P w'.cache (sha256_hex token) project_id r.now (omega arith) j)
        w requests before i

  weaken :
      (hash : Text) (limit : ℕ) (cache : Cache)
      → All (λ e. e.1.expires_at ≤ limit) cache
      → All (ExpiresBy hash limit) cache
  weaken hash limit [] h = tt
  weaken hash limit (e ∷ cache) h = ((λ _. h.0), weaken hash limit cache h.1)

  -- A key revoked at `time` is refused from `time + 60 s` on. The isolate starts with an empty cache
  -- and serves any requests, with clocks up to `time` before the revocation and any clocks after it;
  -- the key is on record, and no row of its hash has another id (the column is unique). Where the
  -- database is up the answer is 401, and where it is down an error: never the handler.
  pub revoke-refused :
      (w : World) (before : List Request) (time : ℕ) (key_id hash : Text) (after : List Request)
      (r : Request) (token : Text)
      → w.cache ≡ []
      → All (λ b. b.now ≤ time) before
      → All
          (λ row. row.key_hash ≡ hash → row.id ≡ key_id)
          (serve sha256_hex w before).db.ingest_keys
      → has_hash hash (serve sha256_hex w before).db.ingest_keys ≡ true
      → token_of r ≡ some token
      → truthy (some token) ≡ true
      → sha256_hex token ≡ hash
      → time + cache_ttl_ms ≤ r.now
      → (ingest_auth sha256_hex
          (serve sha256_hex (revoke (serve sha256_hex w before) time key_id) after)
          r).0
        ≡ (if r.lookup_fails then server_error else unauthorized)
  unfolding revoke revoke_key ExpireBy
  revoke-refused w before time key_id hash after r token empty early only known given filled ours
        late =
      let w' = serve sha256_hex w before in
      let start : ExpireBy (time + cache_ttl_ms) w = rw empty tt in
      let expire = ExpireBy-serve time w before early start in
      let (gone, on_record) = find-revoke_rows time key_id hash w'.db.ingest_keys only in
      let i : IsGone hash (time + cache_ttl_ms) (revoke w' time key_id) = record {
        entries = weaken hash (time + cache_ttl_ms) w'.cache expire;
        gone = gone;
        known = on_record ∙ known;
      } in
      IsGone-refused hash (time + cache_ttl_ms) _ r token (IsGone-serve hash _ _ after i) given
        filled ours late
