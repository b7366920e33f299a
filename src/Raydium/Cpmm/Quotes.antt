-- ===== src/Raydium/Cpmm/Quotes.antt =====
-- The quotes of `compute_swap_amount` of src/raydium_cpmm.rs.
use girasolbot.Prelude.{
  ℕ, ◌+◌, ◌-◌, ◌*◌, ◌/◌, ◌^◌, ◌≤◌, ◌<◌, ◌≡◌, arith, Bool, true, false, if◌then◌else◌, ltb, ltb→lt,
  ltb→le, Bool-cases, inl, inr,
}
use girasolbot.Raydium.Quote.{quote-within, quote-product, slippage_lem}
use girasolbot.Raydium.Cpmm.{after_fee, quote, compute_swap_amount}

after_fee-le : (n : ℕ) → after_fee n ≤ n
after_fee-le n = omega arith

quote-constant_product :
    (r_in r_out a b : ℕ)
    → a ≤ b
    → r_out < 2 ^ 64
    → (quote r_in r_out a ≤ r_out) × (r_in * r_out ≤ (r_in + b) * (r_out - quote r_in r_out a))
quote-constant_product r_in r_out a b le fits = elim (Bool-cases (ltb 0 (r_in + a))) [
  | inl e ↦
      let full = ltb→lt 0 (r_in + a) e in
      let below = quote-within r_in r_out a full in
      let same : quote r_in r_out a ≡ r_out * a / (r_in + a) = ground (arith, below, fits, e) in
      rw same (below, quote-product r_in r_out a b full le)
  | inr e ↦
      let empty = ltb→le 0 (r_in + a) e in
      let same : quote r_in r_out a ≡ 0 = ground (arith, e) in
      let none_in : r_in ≡ 0 = omega (arith, empty) in rw (same, none_in) (omega arith, omega arith)
]

-- On the CPMM, with reserves that fit a u64: the quote is never more than the pool holds of what
-- goes out, and the product of the two reserves does not fall with the amount in and the quote out.
pub compute_swap_amount-keeps_product :
    (reserve_0 reserve_1 : ℕ) (is_base_in : Bool) (amount_in slippage_bps : ℕ)
    → reserve_0 < 2 ^ 64
    → reserve_1 < 2 ^ 64
    → let out = (compute_swap_amount reserve_0 reserve_1 is_base_in amount_in slippage_bps).0 in
      let r_in = (if is_base_in then reserve_0 else reserve_1) in
      let r_out = (if is_base_in then reserve_1 else reserve_0) in
      (out ≤ r_out) × (r_in * r_out ≤ (r_in + amount_in) * (r_out - out))
unfolding compute_swap_amount
compute_swap_amount-keeps_product reserve_0 reserve_1 true amount_in s hc hp =
    quote-constant_product reserve_0 reserve_1 (after_fee amount_in) amount_in
      (after_fee-le amount_in) hp
compute_swap_amount-keeps_product reserve_0 reserve_1 false amount_in s hc hp =
    quote-constant_product reserve_1 reserve_0 (after_fee amount_in) amount_in
      (after_fee-le amount_in) hc

-- With at most 100% of slippage, and an output that 10000 times over still fits a u64, the minimum
-- is the output less the slippage, rounded down, and so at most the output.
pub compute_swap_amount-floor :
    (reserve_0 reserve_1 : ℕ) (is_base_in : Bool) (amount_in slippage_bps : ℕ)
    → slippage_bps ≤ 10000
    → (compute_swap_amount reserve_0 reserve_1 is_base_in amount_in slippage_bps).0 * 10000 < 2 ^ 64
    → let q = compute_swap_amount reserve_0 reserve_1 is_base_in amount_in slippage_bps in
      (q.1 ≡ q.0 * (10000 - slippage_bps) / 10000) × (q.1 ≤ q.0)
unfolding compute_swap_amount
compute_swap_amount-floor reserve_0 reserve_1 is_base_in amount_in s hs fits =
    slippage_lem _ s hs fits
