-- ===== src/Game/Float.antt =====
-- The `float` arithmetic of Room.cpp: what a result of a subtraction or a division is rounded to, to the
-- nearest number with 24 significant bits and on a tie to the even one. Denormal numbers and infinities
-- do not come up: a result is a whole number of 65536ths, or it is made an `int`.
pub mod Bounds
use rio_iocp_server.Prelude.{
  ℕ, zero, suc, ◌+◌, ◌-◌, ◌*◌, ◌/◌, ◌%◌, if◌then◌else◌, ltb, ◌==◌, ℤ, pos, negsuc, ◌-ℤ◌,
}

-- How far apart the numbers with 24 significant bits are around `n`, for `n` below 2 ^ (24 + fuel).
unfoldable pub spacing : ℕ → ℕ → ℕ
spacing zero n = 1
spacing (suc fuel) n =
    let wider : ℕ = 2 * spacing fuel (n / 2) in if ltb n 16777216 then 1 else wider

-- A multiple of `step` that is nearest to `n`.
unfoldable pub nearest : ℕ → ℕ → ℕ
nearest step n =
    let below : ℕ = n / step in
    let rest : ℕ = n % step in
    let up = if 2 * rest == step then (below % 2 == 1) else ltb step (2 * rest) in
    if up then (below + 1) * step else below * step

-- 160 halvings are enough: a `float` is below 2 ^ 128, which is 2 ^ 144 65536ths and 2 ^ 169 of the units of
-- `quotient`, and nothing is lost with a quotient of more than 2 ^ 143, as that is no `int`.
unfoldable pub round_float : ℕ → ℕ
round_float n = nearest (spacing 160 n) n

-- `x` rounded
unfoldable pub float_of : ℤ → ℤ
float_of (pos n) = pos (round_float n)
float_of (negsuc n) = negsuc (round_float (n + 1) - 1)

-- The quotient of two numbers, in units of 2 ^ -41; the last bit is set when something is left of it, so
-- that it rounds as the quotient itself does.
unfoldable pub quotient : ℕ → ℕ → ℕ
quotient n m =
    let scaled : ℕ = n * 1099511627776 in 2 * (scaled / m) + (if scaled % m == 0 then 0 else 1)

-- The quotient, rounded and then made an `int`.
unfoldable pub int_of_quotient : ℕ → ℕ → ℕ
int_of_quotient n m = round_float (quotient n m) / 2199023255552

-- Of a number that is not negative or of one that is.
unfoldable pub int_of_quotient_ℤ : ℤ → ℕ → ℤ
int_of_quotient_ℤ (pos n) m = pos (int_of_quotient n m)
int_of_quotient_ℤ (negsuc n) m = pos 0 -ℤ pos (int_of_quotient (n + 1) m)
