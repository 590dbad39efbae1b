-- ===== src/Format.antt =====
-- fmt.Sprintf as the engine uses it: a number in decimal, and the idempotency key "%s-%s-%d".
use Prim.Native.String.{◌++◌}
use flowscale.Prelude.{ℕ, zero, suc, ◌/◌, ◌%◌, String, List, [], ◌∷◌, ltb, if◌then◌else◌}

digit_or : List String → ℕ → String
digit_or [] n = ""
digit_or (d ∷ ds) zero = d
digit_or (d ∷ ds) (suc n) = digit_or ds n

digit : ℕ → String
unfolding digit_or
digit = digit_or ("0" ∷ "1" ∷ "2" ∷ "3" ∷ "4" ∷ "5" ∷ "6" ∷ "7" ∷ "8" ∷ "9" ∷ [])

-- The fuel bounds the number of digits; `suc n` is more than n has.
show_fuel : ℕ → ℕ → String → String
unfolding digit
show_fuel zero n out = out
show_fuel (suc fuel) n out =
    let rest = show_fuel fuel (n / 10) (digit (n % 10) ++ out) in
    if ltb n 10 then digit n ++ out else rest

unfoldable pub show : ℕ → String
unfolding show_fuel
show n = show_fuel (suc n) n ""

unfoldable pub idempotency_key : String → String → ℕ → String
unfolding show
idempotency_key execution_id activity_name attempt =
    execution_id ++ "-" ++ activity_name ++ "-" ++ show attempt
