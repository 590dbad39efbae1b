-- ===== src/Engine/Failure/Tiers.antt =====
-- The delay tier of a retry, for every attempt: 1 << (attempt - 2) at type int, capped at 16.
use flowscale.Prelude.{
  ℕ, zero, suc, ◌+◌, ◌^◌, ◌≤◌, ◌<◌, ◌≡◌, refl, inl, inr, Bool, true, false, ltb, arith, any, ◌&&◌,
  ◌⊎◌,
}
use native.Mathlib.Nat.{pow-suc}
use flowscale.Models.{pos}
use flowscale.Queue.{retry_tiers}
use flowscale.Repository.Sql.{fits_int32}
use flowscale.Engine.Failure.{shift_one, retry_tier}

-- The power of two that the retry of this attempt waits, in seconds, at most 16.
abbrev pub backoff : ℕ → ℕ
backoff zero = 1
backoff (suc zero) = 2
backoff (suc (suc zero)) = 4
backoff (suc (suc (suc zero))) = 8
backoff _ = 16

abbrev pub same : ℕ → ℕ → Bool
same a b = ltb a (b + 1) && ltb b (a + 1)

pow-16 : (k : ℕ) → 16 ≤ 2 ^ suc (suc (suc (suc k)))
pow-16 zero = omega arith
pow-16 (suc k) = omega (arith, pow-16 k, pow-suc 2 (suc (suc (suc (suc k)))))

backoff-tier : (n : ℕ) → any (same (backoff n)) retry_tiers ≡ true
unfolding any retry_tiers
backoff-tier zero = refl
backoff-tier (suc zero) = refl
backoff-tier (suc (suc zero)) = refl
backoff-tier (suc (suc (suc zero))) = refl
backoff-tier (suc (suc (suc (suc n)))) = refl

short : (n : ℕ) → n < 63 → retry_tier (n + 2) ≡ pos (backoff n)
unfolding retry_tier shift_one
short zero h = refl
short (suc zero) h = refl
short (suc (suc zero)) h = refl
short (suc (suc (suc zero))) h = refl
short (suc (suc (suc (suc n)))) h = ground (arith, pow-16 n)

compare_cases : (n : ℕ) → (n < 63) ⊎ (n ≡ 63) ⊎ (63 < n)
compare_cases n = omega arith

-- The attempt that follows the n-th failure but one: for the first 63 failures its tier is one of
-- the declared tiers, and doubles up to 16; at the 64th the shift has reached the sign bit and
-- gives a number that the column `tier` does not hold; above, the tier is 0, a publication without
-- any delay.
pub retry_tier-table :
    (n : ℕ)
    → ((n < 63)
        × (retry_tier (n + 2) ≡ pos (backoff n))
        × (any (same (backoff n)) retry_tiers ≡ true))
      ⊎ ((n ≡ 63) × (fits_int32 (retry_tier (n + 2)) ≡ false))
      ⊎ ((63 < n) × (retry_tier (n + 2) ≡ pos 0))
unfolding retry_tier shift_one
retry_tier-table n = elim (compare_cases n) [
  | inl h ↦ inl (h, short n h, backoff-tier n)
  | inr (inl e) ↦ inr (inl (e, rw e refl))
  | inr (inr h) ↦ inr (inr (h, ground arith))
]
