-- ===== src/Raydium/Quote.antt =====
-- Facts of constant-product quotes that both pools use.
use girasolbot.Prelude.{ℕ, ◌+◌, ◌-◌, ◌*◌, ◌/◌, ◌^◌, ◌≤◌, ◌<◌, ◌≡◌, arith, wrap64, u64_mod}
use native.Mathlib.Nat.{div-le_of_le-mul, mul-le-mul, mul-sub, mul-div-le}

-- The output of a constant-product swap is at most the reserve.
pub quote-within : (r_in r_out a : ℕ) → 0 < r_in + a → r_out * a / (r_in + a) ≤ r_out
quote-within r_in r_out a h = div-le_of_le-mul (r_in + a) (omega arith)

-- The product of the reserves does not fall.
pub quote-product :
    (r_in r_out a b : ℕ)
    → 0 < r_in + a
    → a ≤ b
    → r_in * r_out ≤ (r_in + b) * (r_out - r_out * a / (r_in + a))
quote-product r_in r_out a b h le =
    let q = r_out * a / (r_in + a) in
    omega (
      arith,
      mul-le-mul {n₁ = r_in + a} {m₁ = r_out - q} {n₂ = r_in + b} {m₂ = r_out - q} (omega arith)
          (omega arith),
      mul-sub (r_in + a) r_out q,
      mul-div-le (r_out * a) (r_in + a),
    )

-- The slippage of an output, as both pools compute it, with and without the wrap-around.
pub slippage_lem :
    (out s : ℕ)
    → s ≤ 10000
    → out * 10000 < 2 ^ 64
    → (wrap64 (out * wrap64 (10000 + u64_mod - s)) / 10000 ≡ out * (10000 - s) / 10000)
      × (wrap64 (out * wrap64 (10000 + u64_mod - s)) / 10000 ≤ out)
slippage_lem out s hs fits =
    let factor : wrap64 (10000 + u64_mod - s) ≡ 10000 - s = omega arith in
    let below : out * (10000 - s) ≤ out * 10000 =
      mul-le-mul {n₁ = out} {m₁ = 10000 - s} {n₂ = out} {m₂ = 10000} (omega arith) (omega arith) in
    rw factor (omega (arith, below, fits), omega (arith, below, fits))
