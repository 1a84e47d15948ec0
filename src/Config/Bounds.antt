-- ===== src/Config/Bounds.antt =====
-- config.go: the ranges of what the fallbacks and the clamps yield.
use dagworker.Base.{false, ◌==◌, ℕ, ◌≤◌, ◌≡◌, refl, ℤ, pos, ◌≤ℤ◌, leb_ℤ, arith}
use dagworker.Errors.{ok}
use dagworker.Backoff.{default_retry_base_delay, default_retry_max_delay}
use dagworker.Config.{
  ScopeConfig, default_lease_timeout, default_min_lease_timeout, default_max_lease_timeout,
  default_max_attempts, default_payload_cap, default_max_batch_size, default_max_claim_batch,
  default_sweep_batch_size, default_sweep_interval, or_default, or_count, resolved, validate_config,
  clamp_claim_batch, clamp_lease,
}

or_default-again :
    (x fallback : ℤ)
    → leb_ℤ fallback (pos 0) ≡ false
    → or_default (or_default x fallback) fallback ≡ or_default x fallback
unfolding or_default
or_default-again x fallback h = ground arith

or_count-again :
    (n fallback : ℕ)
    → (fallback == 0) ≡ false
    → or_count (or_count n fallback) fallback ≡ or_count n fallback
unfolding or_count
or_count-again n fallback h = ground arith

-- Resolving a resolved configuration changes nothing.
resolved_idempotent : (c : ScopeConfig) → resolved (resolved c) ≡ resolved c
unfolding resolved
resolved_idempotent c i = record c {
  default_lease_timeout = or_default-again c.default_lease_timeout default_lease_timeout refl i;
  min_lease_timeout = or_default-again c.min_lease_timeout default_min_lease_timeout refl i;
  max_lease_timeout = or_default-again c.max_lease_timeout default_max_lease_timeout refl i;
  max_attempts = or_count-again c.max_attempts default_max_attempts refl i;
  retry_base_delay = or_default-again c.retry_base_delay (pos default_retry_base_delay) refl i;
  retry_max_delay = or_default-again c.retry_max_delay (pos default_retry_max_delay) refl i;
  payload_cap = or_default-again c.payload_cap default_payload_cap refl i;
  max_batch_size = or_default-again c.max_batch_size default_max_batch_size refl i;
  max_claim_batch = or_default-again c.max_claim_batch default_max_claim_batch refl i;
  sweep_batch_size = or_default-again c.sweep_batch_size default_sweep_batch_size refl i;
  sweep_interval = or_default-again c.sweep_interval default_sweep_interval refl i;
  partition_count = or_count-again c.partition_count 1 refl i;
}

-- The fields that zero does not disable are all positive once resolved.
pub record IsPositive (c : ScopeConfig) : Type 0 where
  pub default_lease : pos 1 ≤ℤ c.default_lease_timeout
  pub min_lease : pos 1 ≤ℤ c.min_lease_timeout
  pub max_lease : pos 1 ≤ℤ c.max_lease_timeout
  pub attempts : 1 ≤ c.max_attempts
  pub base_delay : pos 1 ≤ℤ c.retry_base_delay
  pub max_delay : pos 1 ≤ℤ c.retry_max_delay
  pub payload : pos 1 ≤ℤ c.payload_cap
  pub batch : pos 1 ≤ℤ c.max_batch_size
  pub claim_batch : pos 1 ≤ℤ c.max_claim_batch
  pub sweep_batch : pos 1 ≤ℤ c.sweep_batch_size
  pub interval : pos 1 ≤ℤ c.sweep_interval
  pub partitions : 1 ≤ c.partition_count

pub resolved-IsPositive : (c : ScopeConfig) → IsPositive (resolved c)
unfolding resolved or_default or_count
resolved-IsPositive c = ground arith

-- Whatever duration is asked for, the lease granted under a configuration that validates lies
-- between the resolved minimum and maximum of the configuration.
clamp_lease-within :
    (c : ScopeConfig) (d : ℤ)
    → validate_config c ≡ ok tt
    → ((resolved c).min_lease_timeout ≤ℤ clamp_lease c d)
      × (clamp_lease c d ≤ℤ (resolved c).max_lease_timeout)
unfolding clamp_lease validate_config
clamp_lease-within c d v = ground arith

pub clamp_lease-pos : (c : ScopeConfig) (d : ℤ) → pos 1 ≤ℤ clamp_lease c d
unfolding clamp_lease
clamp_lease-pos c d =
    let p = resolved-IsPositive c in ground (arith, p.default_lease, p.min_lease, p.max_lease)

-- A claim asks for one node at least, and never for more than the resolved maximum of the
-- configuration.
clamp_claim_batch-bounds :
    (c : ScopeConfig) (n : ℤ)
    → (pos 1 ≤ℤ clamp_claim_batch c n) × (clamp_claim_batch c n ≤ℤ (resolved c).max_claim_batch)
unfolding clamp_claim_batch
clamp_claim_batch-bounds c n = let p = resolved-IsPositive c in ground (arith, p.claim_batch)
