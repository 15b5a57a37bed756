-- ===== src/Dispatch/Retry.antt =====
-- The time of the next attempt.
use personal_assistant.Common.{
  ℕ, ◌+◌, ◌*◌, ◌≤◌, ◌≡◌, refl, inl, inr, ◌⊎◌, Option, none, some, arith, leb, Bool-cases,
}
use personal_assistant.Common.Time.{Instant, second, max_instant, add_seconds}
use personal_assistant.Dispatch.Helpers.{longest, retry_time}

longest-le : (d : ℕ) (o : Option ℕ) → d ≤ longest d o
longest-le d none = omega arith
longest-le d (some r) = ground arith

longest-some : (d r : ℕ) → r ≤ longest d (some r)
longest-some d r = ground arith

-- The next attempt is at `datetime.max`, or it is not before the default delay has passed and, if
-- the provider asks for a longer one, not before that; it is never past `datetime.max`.
pub retry_time_bounds :
    (now : Instant) (default_delay : ℕ) (retry_after : Option ℕ)
    → (retry_time now default_delay retry_after ≤ max_instant)
      × ((retry_time now default_delay retry_after ≡ max_instant)
          ⊎ ((now + default_delay * second ≤ retry_time now default_delay retry_after)
              × ((r : ℕ)
                  → retry_after ≡ some r
                  → now + r * second ≤ retry_time now default_delay retry_after)))
unfolding retry_time add_seconds
retry_time_bounds now d o = elim (Bool-cases (leb (now + longest d o * second) max_instant)) [
  | inr late ↦ rw late (omega arith, inl refl)
  | inl fits ↦ rw fits (ground arith, inr (omega (arith, longest-le d o), λ r e. asked r e))
]
  where
    asked : (r : ℕ) → o ≡ some r → now + r * second ≤ now + longest d o * second
    asked r e = rw e (omega (arith, longest-some d r))
