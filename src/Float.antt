-- ===== src/Float.antt =====
-- The float64 values of sample rates, as bit patterns (no NaN: encoding/json produces none), and
-- sampleToKeepEvery of internal/filter/engine.go, which divides them as IEEE 754 says.
use ot_collector.Prelude.{
  ℕ, ◌+◌, ◌-◌, ◌*◌, ◌/◌, ◌%◌, ◌^◌, Bool, ◌&&◌, ◌||◌, ◌≡◌, refl, ltb, leb, ◌==◌, if◌then◌else◌, ℤ,
  pos, negsuc,
}

abbrev pub Float64 : Type 0
Float64 = ℕ

abbrev pub zero_rate : Float64
zero_rate = 0

abbrev pub tenth : Float64
tenth = 4591870180066957722

abbrev pub one_rate : Float64
one_rate = 0x3ff0_0000_0000_0000

-- x <= 0: the zeros and what has the sign bit.
abbrev pub le_zero : Float64 → Bool
le_zero x = x == 0 || leb (2 ^ 63) x

-- x >= 1, for an x without the sign bit: the patterns are in the order of the values.
abbrev pub ge_one : Float64 → Bool
ge_one x = ltb x (2 ^ 63) && leb one_rate x

-- 2 ^ 105 / m to the nearest integer, ties to even.
unfoldable pub nearest_quotient : ℕ → ℕ
nearest_quotient m =
    let q = 2 ^ 105 / m in
    let r = 2 * (2 ^ 105 % m) in if ltb m r || (r == m && q % 2 == 1) then q + 1 else q

-- int(1 / x) for 0 < x < 1. A quotient of 2 ^ 63 and more converts to the least int64, as it does
-- on amd64.
unfoldable pub trunc_reciprocal : Float64 → ℤ
trunc_reciprocal x =
    let e = x / 2 ^ 52 in
    let m = 2 ^ 52 + x % 2 ^ 52 in
    if leb x (960 * 2 ^ 52)
    then negsuc (2 ^ 63 - 1)
    else pos (nearest_quotient m * 2 ^ (970 - e) / 2 ^ (e - 970))

unfoldable pub sample_to_keep_every : Float64 → ℤ
sample_to_keep_every rate =
    if le_zero rate then pos 10 else if ge_one rate then pos 1 else trunc_reciprocal rate

-- The rates of the default rules.
rates :
    (sample_to_keep_every 4581421828931458171 ≡ pos 50)
    × (sample_to_keep_every 4587366580439587226 ≡ pos 20)
    × (sample_to_keep_every 4596373779694328218 ≡ pos 5)
    × (sample_to_keep_every 4598175219545276416 ≡ pos 4)
    × (sample_to_keep_every 4599075939470750515 ≡ pos 3)
    × (sample_to_keep_every tenth ≡ pos 10)
unfolding sample_to_keep_every trunc_reciprocal nearest_quotient
rates = (refl, refl, refl, refl, refl, refl)
