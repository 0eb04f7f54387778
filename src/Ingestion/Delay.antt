-- ===== src/Ingestion/Delay.antt =====
-- How long a failed attempt waits for its next one.
use Prim.Native.Nat.{◌^◌}
use Prim.Native.Nat.pow
use learning_qa_assistant.Base.{ℕ, zero, suc, ◌*◌, ◌≤◌, leb, if◌then◌else◌, arith}
use learning_qa_assistant.Ingestion.Finish.{retry_delay}

power_positive : (n : ℕ) → 1 ≤ 2 ^ n
power_positive zero = rw (pow.zero 2) (omega arith)
power_positive (suc n) = rw (pow.suc 2 n) (omega (arith, power_positive n))

capped-bounds :
    (p : ℕ)
    → 1 ≤ p
    → let d = 5000000 * p in
      let e = 5000000 * (p * 2) in
      let cap : ℕ → ℕ = λ x. if leb 300000000 x then 300000000 else x in
      (2500000 ≤ cap d) × (cap d ≤ 300000000) × (cap d ≤ cap e)
capped-bounds p h = (ground arith, ground arith, ground arith)

-- The wait before another attempt is at least two and a half seconds and at most five minutes,
-- and it does not get shorter as the attempts grow.
pub retry_delay_bounds :
    (attempts : ℕ)
    → (2500000 ≤ retry_delay attempts)
      × (retry_delay attempts ≤ 300000000)
      × (retry_delay attempts ≤ retry_delay (suc attempts))
unfolding retry_delay
retry_delay_bounds zero = (omega arith, omega arith, omega arith)
retry_delay_bounds (suc n) = rw (pow.suc 2 n) (capped-bounds (2 ^ n) (power_positive n))
