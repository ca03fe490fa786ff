-- ===== src/Ingest/Serve.antt =====
-- Runs of the middleware of packages/obs-collector/src/auth/ingest-auth.ts, and the rule by which its
-- invariants are proved.
use obs_unified.Common.{◌≡◌, List, [], ◌∷◌, some, inl, inr, All, Bool-cases, Option-cases}
use obs_unified.Common.Text.{Text, truthy}
use obs_unified.Ingest.Keys.{find_by_key_hash}
use obs_unified.Ingest.Cache.{get_cached, set_cached}
use obs_unified.Ingest.Auth.{
  World, Request, bootstrap, token_of, may_pass, look_up, check_token, ingest_auth,
}

-- The middleware on one request after the other
unfoldable pub serve : (Text → Text) → World → List Request → World
serve sha256_hex w [] = w
serve sha256_hex w (r ∷ requests) = serve sha256_hex (ingest_auth sha256_hex w r).1 requests

-- An invariant of the middleware, from its parts: the world after the bootstrap, the cache after a
-- lookup in it, and the cache after an entry is added for a key that was found.
module _ (sha256_hex : Text → Text) (I : World → Type 0) (P : Request → Type 0)
    (boot : (w : World) (r : Request) → P r → I w → I (bootstrap sha256_hex w r))
    (hit : (w : World) (hash : Text) (r : Request)
      → P r
      → I w
      → I (record w { cache = (get_cached w.cache hash r.now).1 }))
    (add : (w : World) (token project_id : Text) (r : Request)
      → P r
      → find_by_key_hash w.db (sha256_hex token) ≡ some project_id
      → I w
      → I (record w { cache = set_cached w.cache (sha256_hex token) project_id r.now })) where
  look_up_keeps :
      (w : World) (token : Text) (r : Request)
      → P r
      → I w
      → I (look_up sha256_hex w (sha256_hex token) r).1
  unfolding look_up
  look_up_keeps w token r p i = elim (Bool-cases r.lookup_fails) [
    | inl fails ↦ rw fails i
    | inr up ↦ elim (Option-cases (find_by_key_hash w.db (sha256_hex token))) [
      | inl miss ↦ rw (up, miss) i
      | inr (project_id, found) ↦ rw (up, found) (add w token project_id r p found i)
    ]
  ]

  check_token_keeps :
      (w : World) (token : Text) (r : Request) → P r → I w → I (check_token sha256_hex w token r).1
  unfolding check_token
  check_token_keeps w token r p i =
      let hash = sha256_hex token in
      let i' = hit w hash r p i in
      elim (Option-cases (get_cached w.cache hash r.now).0) [
        | inl miss ↦
            rw (miss, check_token)
              (look_up_keeps (record w { cache = (get_cached w.cache hash r.now).1 }) token r p i')
        | inr (project_id, cached) ↦ elim (Bool-cases (truthy (some project_id))) [
          | inl yes_id ↦ rw (cached, check_token, yes_id) i'
          | inr no_id ↦
              rw (cached, check_token, no_id)
                (look_up_keeps (record w { cache = (get_cached w.cache hash r.now).1 }) token r p
                  i')
        ]
      ]

  pub ingest_auth_keeps : (w : World) (r : Request) → P r → I w → I (ingest_auth sha256_hex w r).1
  unfolding ingest_auth
  ingest_auth_keeps w r p i =
      let i' = boot w r p i in
      elim (Option-cases (token_of r)) [
        | inl missing ↦ elim (Bool-cases (may_pass r)) [
          | inl m ↦ rw (missing, ingest_auth, m) i'
          | inr m ↦ rw (missing, ingest_auth, m) i'
        ]
        | inr (token, given) ↦ elim (Bool-cases (truthy (some token))) [
          | inl t ↦
              rw (given, ingest_auth, t) (check_token_keeps (bootstrap sha256_hex w r) token r p i')
          | inr t ↦ elim (Bool-cases (may_pass r)) [
            | inl m ↦ rw (given, ingest_auth, t, m) i'
            | inr m ↦ rw (given, ingest_auth, t, m) i'
          ]
        ]
      ]

  pub serve_keeps :
      (w : World) (requests : List Request) → All P requests → I w → I (serve sha256_hex w requests)
  unfolding serve
  serve_keeps w [] p i = i
  serve_keeps w (r ∷ requests) p i =
      serve_keeps (ingest_auth sha256_hex w r).1 requests p.1 (ingest_auth_keeps w r p.0 i)
