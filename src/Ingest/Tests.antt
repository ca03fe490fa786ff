-- ===== src/Ingest/Tests.antt =====
-- The theorems about packages/obs-collector/src/auth/ingest-auth.ts at concrete inputs, and runs of it.
use obs_unified.Common.{ℕ, ◌≤◌, ◌≡◌, refl, false, [], ◌∷◌, none, some, length, arith}
use obs_unified.Common.Text.{Text, lit, text_eq, is_space}
use obs_unified.Ingest.Keys.{
  KeyRow, find_in, has_hash, revoke_rows, revoke_key, has_default, ensure_default_project,
  bootstrap_env_key,
}
use obs_unified.Ingest.Cache.{
  cache_max_entries, prune_key_cache, map_get, map_delete, map_put, get_cached, evict_oldest,
  set_cached,
}
use obs_unified.Ingest.Auth.{
  World, Request, next, unauthorized, drop_spaces, after_word, strip_bearer, bootstrap, token_of,
  may_pass, look_up, check_token, ingest_auth,
}
use obs_unified.Ingest.Serve.{serve}
use obs_unified.Ingest.Revocation.{revoke, revoke-refused}
use obs_unified.Ingest.Transparent.{length-serve-le, ingest_auth_uncached}

program : Unit {0}
unfolding text_eq find_in has_hash revoke_rows revoke_key has_default ensure_default_project
    bootstrap_env_key prune_key_cache map_get map_delete map_put get_cached evict_oldest set_cached
    is_space drop_spaces after_word strip_bearer bootstrap token_of may_pass look_up check_token
    ingest_auth serve revoke
program = tt

-- A toy hash
abbrev digest : Text → Text
digest token = b'#' ∷ token

abbrev row : KeyRow
row = record {
  id = lit "k1";
  project_id = lit "shop";
  key_hash = digest (lit "secret");
  key_prefix = lit "secret";
  name = lit "web";
  created_at = 0;
  revoked_at = none;
}

abbrev world : World
world = record {
  db = record { projects = []; ingest_keys = row ∷ [] };
  bootstrap_done = false;
  cache = [];
}

abbrev request_at : ℕ → Request
request_at now = record {
  config_allow_unauthenticated = false;
  env_ingest_key = some (lit "legacy");
  env_telemetry_ingest_token = none;
  env_allow_unauthenticated = none;
  authorization = some (lit "Bearer  secret");
  api_key = none;
  now = now;
  random_id = lit "k2";
  bootstrap_fails = false;
  lookup_fails = false;
}

accepted : (ingest_auth digest world (request_at 1000)).0 ≡ next (lit "shop")
unfolding program
accepted = refl

-- Within the minute a revoked key still passes, from the cache.
abbrev revoked : World
revoked = revoke (serve digest world (request_at 1000 ∷ [])) 2000 (lit "k1")

stale : (ingest_auth digest revoked (request_at 60999)).0 ≡ next (lit "shop")
unfolding program
stale = refl

revoke-refused_example :
    (ingest_auth digest (serve digest revoked (request_at 30000 ∷ [])) (request_at 62000)).0
    ≡ unauthorized
unfolding program
revoke-refused_example =
    revoke-refused digest world (request_at 1000 ∷ []) 2000 (lit "k1") (digest (lit "secret"))
      (request_at 30000 ∷ []) (request_at 62000) (lit "secret") refl (omega arith, tt)
      ((λ e. refl), ((λ e. ground arith), tt)) refl refl refl refl (omega arith)

length-serve-le_example :
    length (serve digest world (request_at 1000 ∷ request_at 90000 ∷ [])).cache ≤ cache_max_entries
length-serve-le_example =
    length-serve-le digest world (request_at 1000 ∷ request_at 90000 ∷ []) (λ token e. cc) refl

ingest_auth_uncached_example :
    (ingest_auth digest (serve digest world (request_at 1000 ∷ [])) (request_at 2000)).0
    ≡ (ingest_auth digest
        (record (serve digest world (request_at 1000 ∷ [])) { cache = [] })
        (request_at 2000)).0
ingest_auth_uncached_example =
    ingest_auth_uncached digest world (request_at 1000 ∷ []) (request_at 2000) refl refl
