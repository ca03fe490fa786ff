-- ===== src/Ingest/Auth.antt =====
-- `createIngestAuth` of packages/obs-collector/src/auth/ingest-auth.ts.
use obs_unified.Common.{
  ℕ, ◌-◌, Bool, true, false, ◌||◌, [], ◌∷◌, Option, none, some, ◌==◌, if◌then◌else◌,
}
use mathlib.Core.Option
use obs_unified.Common.Text.{Text, lit, text_eq, truthy, or_else, is_space}
use obs_unified.Ingest.Keys.{Db, find_by_key_hash, bootstrap_env_key}
use obs_unified.Ingest.Cache.{Cache, get_cached, set_cached}

-- the ASCII letter `lower` in either case
abbrev pub is_letter : ℕ → ℕ → Bool
is_letter lower c = c == lower || c == lower - 32

unfoldable pub drop_spaces : Text → Text
unfolding is_space
drop_spaces [] = []
drop_spaces (c ∷ s) = if is_space c then drop_spaces s else c ∷ s

-- The prefix `word` of the text in any case, followed by a space: what stands behind the spaces
unfoldable pub after_word : Text → Text → Option Text
unfolding drop_spaces
after_word [] [] = none
after_word [] (c ∷ s) = if is_space c then some (drop_spaces s) else none
after_word (w ∷ word) [] = none
after_word (w ∷ word) (c ∷ s) = if is_letter w c then after_word word s else none

-- `.replace(/^Bearer\s+/i, "")`
unfoldable pub strip_bearer : Text → Text
unfolding after_word
strip_bearer header = elim (after_word (lit "bearer") header) [ none ↦ header | some rest ↦ rest ]

-- The state of an isolate and the database behind it. `keyCaches` holds one cache for each database
-- object; this is the cache of the one that the isolate is bound to.
pub record World : Type 0 where
  pub db : Db
  pub bootstrap_done : Bool
  pub cache : Cache

-- What the middleware reads: the configuration and the environment, the headers, the clock, what
-- `randomHex` draws for a new row, and whether the database fails at either of its two calls.
pub record Request : Type 0 where
  pub config_allow_unauthenticated : Bool
  pub env_ingest_key : Option Text
  pub env_telemetry_ingest_token : Option Text
  pub env_allow_unauthenticated : Option Text
  pub authorization : Option Text
  pub api_key : Option Text
  pub now : ℕ
  pub random_id : Text
  pub bootstrap_fails : Bool
  pub lookup_fails : Bool

pub data Response : Type 0 where
  -- the handler behind the middleware runs with this project
  next : Text → Response
  unauthorized : Response
  -- an exception leaves the middleware
  server_error : Response

-- `bearer || apiKey`
unfoldable pub token_of : Request → Option Text
unfolding strip_bearer
token_of r = or_else (Option.map strip_bearer r.authorization) r.api_key

unfoldable pub may_pass : Request → Bool
may_pass r =
    r.config_allow_unauthenticated
    || elim r.env_allow_unauthenticated [ none ↦ false | some v ↦ text_eq v (lit "true") ]

module _ (sha256_hex : Text → Text) where
  -- A bootstrap that fails changes nothing here; the source may have inserted the default project before,
  -- which no lookup of a key reads.
  unfoldable pub bootstrap : World → Request → World
  bootstrap w r =
      if w.bootstrap_done then w else elim (or_else r.env_ingest_key r.env_telemetry_ingest_token) [
        | none ↦ record w { bootstrap_done = true }
        | some legacy ↦
            if truthy (some legacy)
            then (if r.bootstrap_fails then w else record w {
              db = bootstrap_env_key sha256_hex r.now r.random_id w.db legacy;
              bootstrap_done = true;
            })
            else record w { bootstrap_done = true }
      ]

  -- behind the cache
  unfoldable pub look_up : World → Text → Request → Response × World
  look_up w hash r =
      if r.lookup_fails then (server_error, w) else elim (find_by_key_hash w.db hash) [
        | none ↦ (unauthorized, w)
        | some project_id ↦
            (next project_id, record w { cache = set_cached w.cache hash project_id r.now })
      ]

  unfoldable pub check_token : World → Text → Request → Response × World
  unfolding look_up
  check_token w token r =
      let hash = sha256_hex token in
      let (cached, cache) = get_cached w.cache hash r.now in
      let w' = record w { cache = cache } in
      elim cached [
        | none ↦ look_up w' hash r
        | some project_id ↦
            if truthy (some project_id) then (next project_id, w') else look_up w' hash r
      ]

  unfoldable pub ingest_auth : World → Request → Response × World
  unfolding bootstrap token_of may_pass check_token
  ingest_auth w r =
      let w' = bootstrap w r in
      elim (token_of r) [
        | none ↦ if may_pass r then (next (lit "default"), w') else (unauthorized, w')
        | some token ↦
            if truthy (some token)
            then check_token w' token r
            else if may_pass r
            then (next (lit "default"), w')
            else (unauthorized, w')
      ]
