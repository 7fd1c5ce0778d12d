-- ===== src/Base/Decimal.antt =====
-- strconv's decimal text of a natural number, for the %d of package fmt.
use notai_api.Base.{ℕ, zero, suc, ◌+◌, ◌/◌, ◌%◌, ltb, ◌++◌, [], ◌∷◌, if◌then◌else◌}
use notai_api.Base.Text.{Text}

-- One digit for each unit of fuel; a number has fewer digits than its value plus one.
unfoldable pub decimal_with : ℕ → ℕ → Text
decimal_with zero n = []
decimal_with (suc f) n =
    let rest = decimal_with f (n / 10) ++ ((48 + n % 10) ∷ []) in
    if ltb n 10 then (48 + n) ∷ [] else rest

unfoldable pub decimal : ℕ → Text
unfolding decimal_with
decimal n = decimal_with (n + 1) n
