-- ===== src/Notification/Worker/Retries.antt =====
-- The delays between the attempts of a delivery.
use match_mate_dating_web.Base.{ℕ, zero, suc, ◌+◌, ◌*◌, ◌^◌, ◌≤◌, ◌<◌, ◌≡◌, arith}
use match_mate_dating_web.Notification.Domain.{retry_delay, shift}

shift_le : (attempt : ℕ) → shift attempt ≤ 6
shift_le zero = omega arith
shift_le (suc n) = ground arith

power_le : (base s : ℕ) → s ≤ 6 → (base ≤ base * 2 ^ s) × (base * 2 ^ s ≤ base * 64)
power_le base zero h = (omega arith, omega arith)
power_le base (suc zero) h = (omega arith, omega arith)
power_le base (suc (suc zero)) h = (omega arith, omega arith)
power_le base (suc (suc (suc zero))) h = (omega arith, omega arith)
power_le base (suc (suc (suc (suc zero)))) h = (omega arith, omega arith)
power_le base (suc (suc (suc (suc (suc zero))))) h = (omega arith, omega arith)
power_le base (suc (suc (suc (suc (suc (suc zero)))))) h = (omega arith, omega arith)
power_le base (suc (suc (suc (suc (suc (suc (suc n))))))) h = absurd (omega arith)

exact :
    (base attempt : ℕ) → base * 64 < 2 ^ 63 → retry_delay base attempt ≡ base * 2 ^ shift attempt
unfolding retry_delay
exact base attempt h = omega (arith, power_le base (shift attempt) (shift_le attempt))

doubled : (base n : ℕ) → n < 6 → base * 2 ^ shift (n + 2) ≡ 2 * (base * 2 ^ shift (n + 1))
doubled base zero h = omega arith
doubled base (suc zero) h = omega arith
doubled base (suc (suc zero)) h = omega arith
doubled base (suc (suc (suc zero))) h = omega arith
doubled base (suc (suc (suc (suc zero)))) h = omega arith
doubled base (suc (suc (suc (suc (suc zero))))) h = omega arith
doubled base (suc (suc (suc (suc (suc (suc n)))))) h = absurd (omega arith)

-- For a base delay whose 64-fold is an `int64`, the delay after any attempt is at least the base
-- and at most 64 times the base, the first is the base itself, and each of the first six is doubled
-- by the next.
pub retry_delay-bounds :
    (base attempt n : ℕ)
    → base * 64 < 2 ^ 63
    → n < 6
    → (retry_delay base 1 ≡ base)
      × ((base ≤ retry_delay base attempt) × (retry_delay base attempt ≤ base * 64))
      × (retry_delay base (n + 2) ≡ 2 * retry_delay base (n + 1))
retry_delay-bounds base attempt n h k = (
  rw (exact base 1 h) (omega arith),
  rw (exact base attempt h) (power_le base (shift attempt) (shift_le attempt)),
  rw (exact base (n + 2) h, exact base (n + 1) h) (doubled base n k),
)
