-- ===== src/Config.antt =====
-- config.go: the per-scope policy, its fallbacks, its validation and its clamps.
-- A time.Duration and an int are integers; the sizes of the constants are the source's.
pub mod Bounds
use dagworker.Base.{ℕ, ◌*◌, ℤ, pos, Bool, ◌||◌, leb_ℤ, ltb_ℤ, min_ℤ, max_ℤ, ◌==◌, if◌then◌else◌}
use dagworker.Errors.{Result, ok, err, invalid_argument_error}
use dagworker.Backoff.{second, default_retry_base_delay, default_retry_max_delay}

abbrev pub default_lease_timeout : ℤ
default_lease_timeout = pos (30 * second)

abbrev pub default_min_lease_timeout : ℤ
default_min_lease_timeout = pos second

abbrev pub default_max_lease_timeout : ℤ
default_max_lease_timeout = pos (24 * 60 * 60 * second)

abbrev pub default_max_attempts : ℕ
default_max_attempts = 3

abbrev pub default_payload_cap : ℤ
default_payload_cap = pos (256 * 1024)

abbrev pub default_max_batch_size : ℤ
default_max_batch_size = pos 1000

abbrev pub default_max_claim_batch : ℤ
default_max_claim_batch = pos 1000

abbrev pub default_sweep_batch_size : ℤ
default_sweep_batch_size = pos 100

abbrev pub default_sweep_interval : ℤ
default_sweep_interval = pos (5 * second)

pub record ScopeConfig : Type 0 where
  pub default_lease_timeout : ℤ
  pub min_lease_timeout : ℤ
  pub max_lease_timeout : ℤ
  pub max_attempts : ℕ
  pub retry_base_delay : ℤ
  pub retry_max_delay : ℤ
  pub terminal_retention : ℤ
  pub max_subscriber_lag : ℤ
  pub max_in_flight : ℕ
  pub payload_cap : ℤ
  pub max_batch_size : ℤ
  pub max_claim_batch : ℤ
  pub sweep_batch_size : ℤ
  pub sweep_interval : ℤ
  pub partition_count : ℕ

-- if x <= 0 { x = fallback }
unfoldable pub or_default : ℤ → ℤ → ℤ
or_default x fallback = if leb_ℤ x (pos 0) then fallback else x

-- if n == 0 { n = fallback }
unfoldable pub or_count : ℕ → ℕ → ℕ
or_count n fallback = if n == 0 then fallback else n

unfoldable pub resolved : ScopeConfig → ScopeConfig
resolved c = record c {
  default_lease_timeout = or_default c.default_lease_timeout default_lease_timeout;
  min_lease_timeout = or_default c.min_lease_timeout default_min_lease_timeout;
  max_lease_timeout = or_default c.max_lease_timeout default_max_lease_timeout;
  max_attempts = or_count c.max_attempts default_max_attempts;
  retry_base_delay = or_default c.retry_base_delay (pos default_retry_base_delay);
  retry_max_delay = or_default c.retry_max_delay (pos default_retry_max_delay);
  payload_cap = or_default c.payload_cap default_payload_cap;
  max_batch_size = or_default c.max_batch_size default_max_batch_size;
  max_claim_batch = or_default c.max_claim_batch default_max_claim_batch;
  sweep_batch_size = or_default c.sweep_batch_size default_sweep_batch_size;
  sweep_interval = or_default c.sweep_interval default_sweep_interval;
  partition_count = or_count c.partition_count 1;
}

pub validate_config : ScopeConfig → Result (Unit {0})
validate_config c =
    let r = resolved c in
    if ltb_ℤ r.max_lease_timeout r.min_lease_timeout
    then invalid
    else if ltb_ℤ r.default_lease_timeout r.min_lease_timeout
        || ltb_ℤ r.max_lease_timeout r.default_lease_timeout
    then invalid
    else if ltb_ℤ r.retry_max_delay r.retry_base_delay
    then invalid
    else if ltb_ℤ c.terminal_retention (pos 0)
    then invalid
    else if ltb_ℤ c.max_subscriber_lag (pos 0)
    then invalid
    else ok tt
  where
    invalid : Result (Unit {0})
    invalid = err (invalid_argument_error "scope config")

unfoldable pub clamp_claim_batch : ScopeConfig → ℤ → ℤ
clamp_claim_batch c n = min_ℤ (max_ℤ n (pos 1)) (resolved c).max_claim_batch

unfoldable pub clamp_lease : ScopeConfig → ℤ → ℤ
clamp_lease c d =
    let r = resolved c in
    let d' = if leb_ℤ d (pos 0) then r.default_lease_timeout else d in
    min_ℤ (max_ℤ d' r.min_lease_timeout) r.max_lease_timeout
