-- ===== src/RateLimit/Atomic.antt =====
-- internal/ratelimit/reserve.lua: the three scopes of a reservation together.
use llm_inference_gateway.Base.{ℕ, ◌≡◌, true, false, inl, inr, arith, Bool-cases}
use llm_inference_gateway.Base.Int.{ℤ, ◌-ℤ◌, ◌≤ℤ◌, ltb_ℤ}
use llm_inference_gateway.RateLimit.{
  org, team, key, Buckets, Capacities, live, balance, store, Reply, reserved, limited, check,
  retry_after_ms, reserve_script,
}

-- What a request sees in the three scopes.
pub org_balance : ℕ → Capacities → Buckets → ℤ
org_balance now caps bs = balance now caps.org_capacity (live now bs.org_bucket)

pub team_balance : ℕ → Capacities → Buckets → ℤ
team_balance now caps bs = balance now caps.team_capacity (live now bs.team_bucket)

pub key_balance : ℕ → Capacities → Buckets → ℤ
key_balance now caps bs = balance now caps.key_capacity (live now bs.key_bucket)

-- `Settled now ttl caps cost bs out`: the outcome of a reservation, by its branch. A scope that is
-- short leaves all buckets alone, is the outermost such scope, and is reported with its own delay;
-- otherwise every scope covers the cost and loses exactly the cost.
pub data Settled (now ttl : ℕ) (caps : Capacities) (cost : ℤ) (bs : Buckets)
    : Buckets × Reply → Type 0 where
  short_org :
      (cost ≤ℤ org_balance now caps bs → ⊥)
      → Settled now ttl caps cost bs
          (bs, limited (retry_after_ms (cost -ℤ org_balance now caps bs) caps.org_capacity) org)
  short_team :
      cost ≤ℤ org_balance now caps bs
      → (cost ≤ℤ team_balance now caps bs → ⊥)
      → Settled now ttl caps cost bs
          (bs, limited (retry_after_ms (cost -ℤ team_balance now caps bs) caps.team_capacity) team)
  short_key :
      cost ≤ℤ org_balance now caps bs
      → cost ≤ℤ team_balance now caps bs
      → (cost ≤ℤ key_balance now caps bs → ⊥)
      → Settled now ttl caps cost bs
          (bs, limited (retry_after_ms (cost -ℤ key_balance now caps bs) caps.key_capacity) key)
  granted :
      cost ≤ℤ org_balance now caps bs
      → cost ≤ℤ team_balance now caps bs
      → cost ≤ℤ key_balance now caps bs
      → Settled now ttl caps cost bs (
        record {
          org_bucket = store now ttl (org_balance now caps bs -ℤ cost);
          team_bucket = store now ttl (team_balance now caps bs -ℤ cost);
          key_bucket = store now ttl (key_balance now caps bs -ℤ cost);
        },
        reserved (key_balance now caps bs -ℤ cost),
      )

not_short : (a b : ℤ) → ltb_ℤ a b ≡ false → b ≤ℤ a
not_short a b e = ground arith

is_short : (a b : ℤ) → ltb_ℤ a b ≡ true → b ≤ℤ a → ⊥
is_short a b e h = absurd (ground arith)

-- Every run of the script is settled in one of these ways: it reserves in all three scopes or in
-- none, and a rejection names the outermost scope that is short.
pub reserve_script-Settled :
    (now ttl : ℕ) (caps : Capacities) (cost : ℤ) (bs : Buckets)
    → Settled now ttl caps cost bs (reserve_script now ttl caps cost bs)
unfolding reserve_script check org_balance team_balance key_balance
reserve_script-Settled now ttl caps cost bs =
    elim (Bool-cases (ltb_ℤ (org_balance now caps bs) cost)) [
      | inl o ↦
          rw (o, reserve_script) (Settled.short_org (is_short (org_balance now caps bs) cost o))
      | inr o ↦ elim (Bool-cases (ltb_ℤ (team_balance now caps bs) cost)) [
        | inl t ↦
            rw (o, t, reserve_script)
              (Settled.short_team (not_short (org_balance now caps bs) cost o)
                (is_short (team_balance now caps bs) cost t))
        | inr t ↦ elim (Bool-cases (ltb_ℤ (key_balance now caps bs) cost)) [
          | inl k ↦
              rw (o, t, k, reserve_script)
                (Settled.short_key (not_short (org_balance now caps bs) cost o)
                  (not_short (team_balance now caps bs) cost t)
                  (is_short (key_balance now caps bs) cost k))
          | inr k ↦
              rw (o, t, k, reserve_script)
                (Settled.granted (not_short (org_balance now caps bs) cost o)
                  (not_short (team_balance now caps bs) cost t)
                  (not_short (key_balance now caps bs) cost k))
        ]
      ]
    ]
