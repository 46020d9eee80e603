-- ===== src/Auth/Keys.antt =====
-- internal/auth/store.go and internal/auth/key.go: issuing, revoking and resolving keys. The statements
-- are functions of the tables; base64 is a parameter, and so is what the database answers to an insert.
use llm_inference_gateway.Base.{
  ℕ, Bool, true, false, ◌&&◌, List, [], ◌∷◌, ◌++◌, Option, none, some, if◌then◌else◌, Text, codes,
  text_eq, ◌==◌, leb, length,
}
use llm_inference_gateway.Base.Dict.{lookup}
use llm_inference_gateway.Base.Keys.{keep}
use llm_inference_gateway.Base.Int.{ℤ}
use llm_inference_gateway.Auth.{Identity, Answer, known, absent, failing}

pub record KeyRow : Type 0 where
  pub id : Text
  pub team_id : Text
  pub key_hash : Text
  pub key_prefix : Text
  pub label : Text
  pub allowed_models : List Text
  pub tpm_limit : Option ℤ
  pub revoked_at : Option ℕ

-- A team joined with its org.
pub record TeamRow : Type 0 where
  pub org_id : Text
  pub org_tpm_limit : ℤ
  pub team_tpm_limit : ℤ

pub record Database : Type 0 where
  pub keys : List KeyRow
  pub teams : List (Text × TeamRow)

-- `generateKey`, on the random bytes if there are any.
abbrev pub generate_key : (Text → Text) → Option Text → Option Text
generate_key base64 none = none
generate_key base64 (some raw) = some (codes "sk-vk-" ++ base64 raw)

abbrev pub display_prefix : Text → Text
display_prefix plaintext = if leb (length plaintext) 8 then plaintext else keep 8 plaintext

-- What a client asks for.
pub record KeyRequest : Type 0 where
  pub team_id : Text
  pub label : Text
  pub allowed_models : List Text
  pub tpm_limit : Option ℤ

-- `Store.IssueKey`: `inserted` is the id that the database gives the row, unless it refuses it.
unfoldable pub issue_key :
    (hash base64 : Text → Text)
    → Option Text
    → Option Text
    → KeyRequest
    → Database
    → Database × Option (Text × KeyRow)
issue_key hash base64 raw inserted q db = elim (generate_key base64 raw) [
  | none ↦ (db, none)
  | some plaintext ↦ elim inserted [
    | none ↦ (db, none)
    | some id ↦
        let row : KeyRow = record {
          id = id;
          team_id = q.team_id;
          key_hash = hash plaintext;
          key_prefix = display_prefix plaintext;
          label = q.label;
          allowed_models = q.allowed_models;
          tpm_limit = q.tpm_limit;
          revoked_at = none;
        } in
        (record db { keys = db.keys ++ row ∷ [] }, some (plaintext, row))
  ]
]

abbrev pub is_active : Option ℕ → Bool
is_active none = true
is_active (some t) = false

-- The UPDATE: the hash of the row that it changed. The id is the table's primary key.
unfoldable pub revoke_in : Text → ℕ → List KeyRow → List KeyRow × Option Text
revoke_in id now [] = ([], none)
revoke_in id now (row ∷ rows) =
    let rest = revoke_in id now rows in
    if row.id == id && is_active row.revoked_at
    then (record row { revoked_at = some now } ∷ rows, some row.key_hash)
    else (row ∷ rest.0, rest.1)

-- `Store.RevokeKey`: a failure of the database, `ErrNotFound`, or the hash.
pub data Revocation : Type 0 where
  database_error no_such_key : Revocation
  revoked : Text → Revocation

abbrev pub revocation_of : Option Text → Revocation
revocation_of none = no_such_key
revocation_of (some hash) = revoked hash

unfoldable pub revoke_key : Bool → Text → ℕ → Database → Database × Revocation
unfolding revoke_in
revoke_key false id now db = (db, database_error)
revoke_key true id now db =
    let result = revoke_in id now db.keys in (record db { keys = result.0 }, revocation_of result.1)

unfoldable pub find_key : Text → List KeyRow → Option KeyRow
find_key hash [] = none
find_key hash (row ∷ rows) = if row.key_hash == hash then some row else find_key hash rows

abbrev pub identity_of : KeyRow → TeamRow → Identity
identity_of row team = record {
  org_id = team.org_id;
  team_id = row.team_id;
  key_id = row.id;
  allowed_models = row.allowed_models;
  org_tpm_limit = team.org_tpm_limit;
  team_tpm_limit = team.team_tpm_limit;
  key_tpm_limit = row.tpm_limit;
}

-- `Store.Resolve`; the hashes are unique.
abbrev pub answer_of : List (Text × TeamRow) → Option KeyRow → Answer
answer_of teams none = absent
answer_of teams (some row) = elim (lookup row.team_id teams) [
  | none ↦ absent
  | some team ↦ known (identity_of row team) (elim row.revoked_at [ none ↦ false | some t ↦ true ])
]

unfoldable pub resolve_key : Bool → Database → Text → Answer
unfolding find_key
resolve_key false db hash = failing
resolve_key true db hash = answer_of db.teams (find_key hash db.keys)
