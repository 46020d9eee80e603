-- ===== src/Auth/Admin.antt =====
-- internal/server/admin.go: the handlers of the operator.
use llm_inference_gateway.Base.{
  ℕ, Bool, not, ◌||◌, [], ◌∷◌, Option, none, some, if◌then◌else◌, Text, codes, text_eq, ◌==◌,
}
use llm_inference_gateway.Base.Int.{ℤ, pos, ◌-ℤ◌, ltb_ℤ}
use llm_inference_gateway.Exact.{Redis, purge_tenant}
use llm_inference_gateway.Auth.{Codec, Cache, invalidate}
use llm_inference_gateway.Auth.Keys.{
  Database, KeyRow, KeyRequest, Revocation, database_error, no_such_key, revoked, issue_key,
  revoke_key,
}

-- `parse_uuid` is third-party. `none` is a body that does not decode; the answer is a status, with the
-- plaintext and the row of a key that was issued.
unfoldable pub handle_issue_key :
    (parse_uuid : Text → Option Text)
    → (hash base64 : Text → Text) → Option Text
    → Option Text
    → Option KeyRequest
    → Database
    → Database × ℕ × Option (Text × KeyRow)
unfolding issue_key
handle_issue_key parse_uuid hash base64 raw inserted none db = (db, 400, none)
handle_issue_key parse_uuid hash base64 raw inserted (some q) db = elim (parse_uuid q.team_id) [
  | none ↦ (db, 400, none)
  | some team_id ↦
      let result = issue_key hash base64 raw inserted (record q { team_id = team_id }) db in
      elim result.1 [ none ↦ (result.0, 500, none) | some issued ↦ (result.0, 201, some issued) ]
]

-- The answer to a revocation; the cache's error is ignored.
unfoldable pub after_revocation : Codec → Bool → Cache → Revocation → Cache × ℕ
unfolding invalidate
after_revocation k cache_up cache database_error = (cache, 500)
after_revocation k cache_up cache no_such_key = (cache, 404)
after_revocation k cache_up cache (revoked hash) = ((invalidate k cache_up hash cache).0, 204)

unfoldable pub handle_revoke_key :
    (parse_uuid : Text → Option Text)
    → Codec
    → (database_up cache_up : Bool) → Text
    → ℕ
    → Database
    → Cache
    → Database × Cache × ℕ
unfolding revoke_key after_revocation
handle_revoke_key parse_uuid k database_up cache_up path now db cache = elim (parse_uuid path) [
  | none ↦ (db, cache, 400)
  | some id ↦
      let result = revoke_key database_up id now db in
      let answer = after_revocation k cache_up cache result.1 in (result.0, answer.0, answer.1)
]

-- The tenant of the body, if it decodes; the answer has the number of entries deleted.
unfoldable pub handle_purge_cache :
    (redis : Redis) → Option Text → redis.State → redis.State × ℕ × Option ℕ
unfolding purge_tenant
handle_purge_cache redis none s = (s, 400, none)
handle_purge_cache redis (some []) s = (s, 400, none)
handle_purge_cache redis (some (c ∷ tenant)) s =
    let (s', deleted, done) = purge_tenant redis (c ∷ tenant) s in
    if done then (s', 200, some deleted) else (s', 500, none)

-- The query of a request for usage; a parameter that is missing is empty.
pub record UsageQuery : Type 0 where
  pub scope : Text
  pub id : Text
  pub since : Text
  pub until : Text

abbrev pub valid_scope : Text → Bool
valid_scope s = s == codes "org" || s == codes "team" || s == codes "key"

-- A time of the query, or the default if it is missing; `none` is an error.
abbrev pub time_or : (Text → Option ℤ) → ℤ → Text → Option ℤ
time_or parse_time default [] = some default
time_or parse_time default (c ∷ raw) = parse_time (c ∷ raw)

-- `since` before `until`, and the aggregator's answer.
abbrev pub aggregate_between : {A : Type 0} → (ℤ → ℤ → Option A) → Option ℤ → ℤ → ℕ × Option A
aggregate_between aggregate none until = (400, none)
aggregate_between aggregate (some since) until =
    if not (ltb_ℤ since until)
    then (400, none)
    else (elim (aggregate since until) [ none ↦ (500, none) | some a ↦ (200, some a) ])

-- Times are nanoseconds; the window is a day up to now, where the query does not say otherwise.
unfoldable pub handle_usage :
    {A : Type 0}
    → Option (Text → Text → ℤ → ℤ → Option A)
    → (parse_uuid : Text → Option Text) → (parse_time : Text → Option ℤ) → ℤ
    → UsageQuery
    → ℕ × Option A
handle_usage none parse_uuid parse_time now q = (503, none)
handle_usage (some aggregate) parse_uuid parse_time now q =
    if not (valid_scope q.scope) then (400, none) else (elim (parse_uuid q.id) [
      | none ↦ (400, none)
      | some id ↦ elim (time_or parse_time now q.until) [
        | none ↦ (400, none)
        | some until ↦
            aggregate_between (aggregate q.scope id)
              (time_or parse_time (until -ℤ pos 86400000000000) q.since) until
      ]
    ])
