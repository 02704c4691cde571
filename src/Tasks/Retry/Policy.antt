-- ===== src/Tasks/Retry/Policy.antt =====
-- The waiting times of backend/app/core/retry.py.
use ops_monitor.Common.{ℕ, ◌≤◌, ◌≡◌, arith, refl, suc, ◌⊎◌, inl, inr, ◌-◌, zero}
use Prim.Native.Nat.{min}
use ops_monitor.Tasks.Retry.{backoff_seconds}

-- The values, by the attempt.
abbrev pub IsBackoff : ℕ → ℕ → Type 0
IsBackoff n m =
    ((n ≤ 1) × (m ≡ 5)) ⊎ ((n ≡ 2) × (m ≡ 10)) ⊎ ((n ≡ 3) × (m ≡ 30)) ⊎ ((4 ≤ n) × (m ≡ 60))

pub backoff_seconds-IsBackoff : (n : ℕ) → IsBackoff n (backoff_seconds n)
unfolding backoff_seconds
backoff_seconds-IsBackoff zero = inl (omega arith, refl)
backoff_seconds-IsBackoff (suc zero) = inl (omega arith, refl)
backoff_seconds-IsBackoff (suc (suc zero)) = inr (inl (refl, refl))
backoff_seconds-IsBackoff (suc (suc (suc zero))) = inr (inr (inl (refl, refl)))
backoff_seconds-IsBackoff (suc (suc (suc (suc n)))) =
    let q : min (suc (suc (suc (suc n))) - 1) 3 ≡ 3 = omega arith in
    inr (inr (inr (omega arith, rw q refl)))
