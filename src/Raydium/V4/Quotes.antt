-- ===== src/Raydium/V4/Quotes.antt =====
-- The quotes of `compute_swap_amount` of src/raydium_v4.rs.
use girasolbot.Prelude.{
  ℕ, zero, suc, ◌+◌, ◌-◌, ◌*◌, ◌/◌, ◌^◌, ◌≤◌, ◌<◌, ◌≡◌, arith, Bool, true, false, if◌then◌else◌,
}
use girasolbot.Raydium.Quote.{quote-within, quote-product, slippage_lem}
use girasolbot.Raydium.V4.{after_fee, quote, compute_swap_amount}

after_fee-le : (n : ℕ) → after_fee n ≤ n
after_fee-le n = omega arith

quote-constant_product :
    (r_in r_out a b : ℕ)
    → a ≤ b
    → r_out < 2 ^ 64
    → (quote r_in r_out a ≤ r_out) × (r_in * r_out ≤ (r_in + b) * (r_out - quote r_in r_out a))
quote-constant_product zero r_out a b le fits = (omega arith, omega arith)
quote-constant_product (suc r) r_out a b le fits =
    let below = quote-within (suc r) r_out a (omega arith) in
    let same : quote (suc r) r_out a ≡ r_out * a / (suc r + a) = ground (arith, below, fits) in
    rw same (below, quote-product (suc r) r_out a b (omega arith) le)

-- For reserves that fit a u64, the pool is never asked for more than it holds, and the product of its reserves does not fall.
pub compute_swap_amount-constant_product :
    (coin pc : ℕ) (is_base_in : Bool) (amount_in slippage_bps : ℕ)
    → coin < 2 ^ 64
    → pc < 2 ^ 64
    → let out = (compute_swap_amount coin pc is_base_in amount_in slippage_bps).0 in
      let r_in = (if is_base_in then coin else pc) in
      let r_out = (if is_base_in then pc else coin) in
      (out ≤ r_out) × (r_in * r_out ≤ (r_in + amount_in) * (r_out - out))
unfolding compute_swap_amount
compute_swap_amount-constant_product coin pc true amount_in s hc hp =
    quote-constant_product coin pc (after_fee amount_in) amount_in (after_fee-le amount_in) hp
compute_swap_amount-constant_product coin pc false amount_in s hc hp =
    quote-constant_product pc coin (after_fee amount_in) amount_in (after_fee-le amount_in) hc

-- With at most 100% of slippage, and an output that 10000 times over still fits a u64, the minimum
-- is the output less the slippage, rounded down, and so at most the output.
pub compute_swap_amount-minimum :
    (coin pc : ℕ) (is_base_in : Bool) (amount_in slippage_bps : ℕ)
    → slippage_bps ≤ 10000
    → (compute_swap_amount coin pc is_base_in amount_in slippage_bps).0 * 10000 < 2 ^ 64
    → let q = compute_swap_amount coin pc is_base_in amount_in slippage_bps in
      (q.1 ≡ q.0 * (10000 - slippage_bps) / 10000) × (q.1 ≤ q.0)
unfolding compute_swap_amount
compute_swap_amount-minimum coin pc is_base_in amount_in s hs fits = slippage_lem _ s hs fits
