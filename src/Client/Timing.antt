-- ===== src/Client/Timing.antt =====
-- Timeouts, delays and the rotation of SNI names: `connect_attempt_timeout_for`,
-- `retry_max_backoff_delay` and `select_sni_name` of src/client.rs.
use rstun.Base.{
  ℕ, ◌+◌, ◌*◌, ◌-◌, ◌%◌, ◌^◌, min, max, Option, some, List, [], ◌∷◌, length, get_elem?,
}
use rstun.Net.{Text}

-- In seconds. `1 << shift` and `saturating_mul` on `u64`.
unfoldable pub connect_attempt_timeout_for : ℕ → ℕ
connect_attempt_timeout_for attempt =
    let shift = min attempt 63 in min (min (3 * 2 ^ shift) (2 ^ 64 - 1)) 15

-- In milliseconds.
unfoldable pub retry_max_backoff_delay : ℕ → ℕ
retry_max_backoff_delay wait_before_retry_ms = max wait_before_retry_ms 300

-- The rotation counter wraps around on a `usize`.
pub record Selected : Type 0 where
  pub name : Option Text
  pub sni_rotation : ℕ

unfoldable pub select_sni_name : List Text → Text → ℕ → Selected
select_sni_name [] verify_name sni_rotation = record {
  name = some verify_name;
  sni_rotation = sni_rotation;
}
select_sni_name (n ∷ names) verify_name sni_rotation = record {
  name = get_elem? (n ∷ names) (sni_rotation % length (n ∷ names));
  sni_rotation = (sni_rotation + 1) % 2 ^ 64;
}
