-- ===== src/Ingest/Transparent.antt =====
-- The key cache of packages/obs-collector/src/auth/ingest-auth.ts over runs of requests: its size, and
-- the answers with it and without it.
use obs_unified.Common.{
  ◌≤◌, ◌≡◌, ◌≢◌, refl, ◌∙◌, sym, ap, false, List, [], ◌∷◌, some, inl, inr, length, All, Bool-cases,
  Option-cases, arith,
}
use obs_unified.Common.Text.{Text, truthy}
use obs_unified.Ingest.Keys.{find_by_key_hash}
use obs_unified.Ingest.Cache.{Cache, cache_max_entries, get_cached}
use obs_unified.Ingest.Auth.{
  World, Request, bootstrap, token_of, may_pass, look_up, check_token, ingest_auth,
}
use obs_unified.Ingest.CacheLaws.{
  get_cached-All, set_cached-All, get_cached_hit, HasKey, length-set_cached-le,
  length-get_cached-le,
}
use obs_unified.Ingest.KeyLaws.{find-bootstrap_found}
use obs_unified.Ingest.Serve.{serve, serve_keeps}
use obs_unified.Ingest.Revocation.{cache-bootstrap, db-bootstrap, All-tt}

record IsBounded (w : World) : Type 0 where
  keys : All HasKey w.cache
  size : length w.cache ≤ cache_max_entries

-- What is cached is what the table says.
InSync : World → Type 0
InSync w = All (λ e. find_by_key_hash w.db e.0 ≡ some e.1.project_id) w.cache

module _ (sha256_hex : Text → Text) where
  -- From an empty cache no run of requests fills the cache beyond its bound, since no hash is empty.
  pub length-serve-le :
      (w : World) (requests : List Request)
      → ((token : Text) → sha256_hex token ≢ [])
      → w.cache ≡ []
      → length (serve sha256_hex w requests).cache ≤ cache_max_entries
  length-serve-le w requests hashes empty =
      (serve_keeps sha256_hex IsBounded (λ _. Unit)
        (λ w' r _ j.
          let e = cache-bootstrap sha256_hex w' r in
          record { keys = rw e j.keys; size = rw e j.size })
        (λ w' hash r _ j. record {
          keys = get_cached-All HasKey w'.cache hash r.now j.keys;
          size = omega (arith, length-get_cached-le w'.cache hash r.now, j.size);
        })
        (λ w' token project_id r _ found j. record {
          keys =
              set_cached-All HasKey w'.cache (sha256_hex token) project_id r.now (hashes token)
                j.keys;
          size = length-set_cached-le w'.cache (sha256_hex token) project_id r.now j.keys;
        })
        w requests (All-tt sha256_hex requests)
        (record { keys = rw empty tt; size = rw empty (omega arith) })).size

  entries-bootstrap :
      (w : World) (r : Request) (cache : Cache)
      → All (λ e. find_by_key_hash w.db e.0 ≡ some e.1.project_id) cache
      → All (λ e. find_by_key_hash (bootstrap sha256_hex w r).db e.0 ≡ some e.1.project_id) cache
  entries-bootstrap w r [] h = tt
  entries-bootstrap w r ((hash, entry) ∷ cache) h =
      let rest = entries-bootstrap w r cache h.1 in
      elim (db-bootstrap sha256_hex w r) [
        | inl same ↦ (rw same h.0, rest)
        | inr (legacy, booted) ↦ (
          rw booted (find-bootstrap_found sha256_hex r.now r.random_id w.db hash legacy h.0),
          rest,
        )
      ]

  bootstrap-InSync : (w : World) (r : Request) → InSync w → InSync (bootstrap sha256_hex w r)
  unfolding InSync
  bootstrap-InSync w r h = rw (cache-bootstrap sha256_hex w r) (entries-bootstrap w r w.cache h)

  serve-InSync :
      (w : World) (requests : List Request) → InSync w → InSync (serve sha256_hex w requests)
  unfolding InSync
  serve-InSync w requests h =
      serve_keeps sha256_hex InSync (λ _. Unit) (λ w' r _ j. bootstrap-InSync w' r j)
        (λ w' hash r _ j. get_cached-All _ w'.cache hash r.now j)
        (λ w' token project_id r _ found j.
          set_cached-All _ w'.cache (sha256_hex token) project_id r.now found j)
        w requests (All-tt sha256_hex requests) h

  -- An answer of the table depends on the table alone.
  look_up_same_db :
      (w w' : World) (hash : Text) (r : Request)
      → w.db ≡ w'.db
      → (look_up sha256_hex w hash r).0 ≡ (look_up sha256_hex w' hash r).0
  unfolding look_up
  look_up_same_db w w' hash r same = elim (Bool-cases r.lookup_fails) [
    | inl fails ↦ rw fails
    | inr up ↦ elim (Option-cases (find_by_key_hash w'.db hash)) [
      | inl miss ↦ rw (up, same, miss)
      | inr (project_id, found) ↦ rw (up, same, found)
    ]
  ]

  -- What the table answers, whatever is cached
  check_token-InSync :
      (w : World) (token : Text) (r : Request)
      → r.lookup_fails ≡ false
      → InSync w
      → (check_token sha256_hex w token r).0 ≡ (look_up sha256_hex w (sha256_hex token) r).0
  unfolding InSync check_token look_up
  check_token-InSync w token r up h =
      elim (Option-cases (get_cached w.cache (sha256_hex token) r.now).0) [
        | inl miss ↦
            rw (check_token, miss)
              (look_up_same_db
                (record w { cache = (get_cached w.cache (sha256_hex token) r.now).1 }) w
                (sha256_hex token) r refl)
        | inr (project_id, hit) ↦
            let (entry, found, same) =
              get_cached_hit (λ e. find_by_key_hash w.db e.0 ≡ some e.1.project_id)
                (sha256_hex token) project_id r.now w.cache h hit in
            let found' : find_by_key_hash w.db (sha256_hex token) ≡ some project_id =
              found ∙ ap some same in
            elim (Bool-cases (truthy (some project_id))) [
              | inl filled ↦ rw (check_token, hit, filled, up, found')
              | inr empty ↦ rw (check_token, hit, empty, up, found')
            ]
      ]

  db-bootstrap_uncached :
      (w : World) (r : Request)
      → (bootstrap sha256_hex (record w { cache = [] }) r).db ≡ (bootstrap sha256_hex w r).db
  unfolding bootstrap
  db-bootstrap_uncached w r = ground arith

  check_token_uncached :
      (w : World) (token : Text) (r : Request)
      → r.lookup_fails ≡ false
      → InSync w
      → (check_token sha256_hex (bootstrap sha256_hex w r) token r).0
        ≡ (check_token sha256_hex (bootstrap sha256_hex (record w { cache = [] }) r) token r).0
  unfolding InSync
  check_token_uncached w token r up h =
      let bare : World = record w { cache = [] } in
      check_token-InSync (bootstrap sha256_hex w r) token r up (bootstrap-InSync w r h)
      ∙ look_up_same_db _ _ (sha256_hex token) r (sym (db-bootstrap_uncached w r))
      ∙ sym
          (check_token-InSync (bootstrap sha256_hex bare r) token r up (bootstrap-InSync bare r tt))

  -- With the table up and no revocation since the cache was empty, every request is answered as if
  -- there were no cache: the same project, or the same refusal.
  pub ingest_auth_uncached :
      (w : World) (requests : List Request) (r : Request)
      → w.cache ≡ []
      → r.lookup_fails ≡ false
      → (ingest_auth sha256_hex (serve sha256_hex w requests) r).0
        ≡ (ingest_auth sha256_hex (record (serve sha256_hex w requests) { cache = [] }) r).0
  unfolding InSync ingest_auth
  ingest_auth_uncached w requests r empty up =
      let start : InSync w = rw empty tt in
      let served = serve-InSync w requests start in
      elim (Option-cases (token_of r)) [
        | inl missing ↦ elim (Bool-cases (may_pass r)) [
          | inl m ↦ rw (missing, ingest_auth, m)
          | inr m ↦ rw (missing, ingest_auth, m)
        ]
        | inr (token, given) ↦ elim (Bool-cases (truthy (some token))) [
          | inl filled ↦
              rw (given, ingest_auth, filled)
                (check_token_uncached (serve sha256_hex w requests) token r up served)
          | inr blank ↦ elim (Bool-cases (may_pass r)) [
            | inl m ↦ rw (given, ingest_auth, blank, m)
            | inr m ↦ rw (given, ingest_auth, blank, m)
          ]
        ]
      ]
