-- ===== src/Billing/Plans/Amounts.antt =====
-- What `calculate_billed_amount` bills (app/billing/plans.py).
use multi_agent_ai_system.Prelude.{ℕ, ◌+◌, ◌*◌, ◌/◌, ◌≤◌, ◌<◌, String, ◌≡◌, true, arith}
use multi_agent_ai_system.Prelude.Text.{upper}
use multi_agent_ai_system.Prelude.Int.{pos, ltb_ℤ}
use multi_agent_ai_system.Billing.Plans.{calculate_billed_amount}

-- Of a price of n hundredths a month, a year is billed at 85 % of twelve months, to the nearest
-- hundredth (five times the bill is within 2 of 51 times n), and never at more than twelve months. The
-- case of the letters in the cycle's name does not matter.
pub yearly_bill_bounds :
    (n : ℕ) (cycle : String)
    → upper cycle ≡ "YEARLY"
    → (b : ℕ) × (calculate_billed_amount (pos n) cycle ≡ pos b)
      × (5 * b ≤ 51 * n + 2)
      × (51 * n ≤ 5 * b + 2)
      × (b ≤ 12 * n)
unfolding calculate_billed_amount
yearly_bill_bounds n cycle h =
    ((n * 102 + 5) / 10, rw (h, calculate_billed_amount), omega arith, omega arith, omega arith)

-- A positive price makes a positive bill, in every cycle, so that no paid plan is billed at nothing.
pub bill_positive :
    (n : ℕ) (cycle : String) → 0 < n → ltb_ℤ (pos 0) (calculate_billed_amount (pos n) cycle) ≡ true
unfolding calculate_billed_amount
bill_positive n cycle h = ground arith
