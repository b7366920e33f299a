-- ===== src/Tests/Pools.antt =====
-- Tests of the swap quotes and of the swap instructions.
use girasolbot.Prelude.{◌+◌, ◌-◌, ◌*◌, ◌^◌, ◌≤◌, ◌<◌, ◌≡◌, refl, true, false, arith}
use girasolbot.Raydium.V4
use girasolbot.Raydium.V4.Quotes.{compute_swap_amount-constant_product}
use girasolbot.Raydium.Cpmm
use girasolbot.Raydium.Cpmm.Quotes.{compute_swap_amount-keeps_product}
use girasolbot.Raydium.Cpmm.Swaps.{build_sell_instructions-Swaps}

-- The example of the source's own test.
source_example : V4.compute_swap_amount 1000000000 2000000000 true 1000000 500 ≡ (1993011, 1893360)
unfolding V4.compute_swap_amount
source_example = refl

compute_swap_amount-constant_product_example :
    let out = (V4.compute_swap_amount 1000000000 2000000000 true 1000000 500).0 in
    (out ≤ 2000000000) × (1000000000 * 2000000000 ≤ (1000000000 + 1000000) * (2000000000 - out))
compute_swap_amount-constant_product_example =
    compute_swap_amount-constant_product 1000000000 2000000000 true 1000000 500 (omega arith)
      (omega arith)

small : (V4.compute_swap_amount 1000000000 2000000000 true 1000000 500).0 * 10000 < 2 ^ 64
unfolding V4.compute_swap_amount
small = omega arith

compute_swap_amount-keeps_product_example :
    let out = (Cpmm.compute_swap_amount 1000000000 2000000000 false 1000000 500).0 in
    (out ≤ 1000000000) × (2000000000 * 1000000000 ≤ (2000000000 + 1000000) * (1000000000 - out))
compute_swap_amount-keeps_product_example =
    compute_swap_amount-keeps_product 1000000000 2000000000 false 1000000 500 (omega arith)
      (omega arith)

small_cpmm : (Cpmm.compute_swap_amount 1000000000 2000000000 true 1000000 500).0 * 10000 < 2 ^ 64
unfolding Cpmm.compute_swap_amount
small_cpmm = omega arith
