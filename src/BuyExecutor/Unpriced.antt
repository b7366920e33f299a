-- ===== src/BuyExecutor/Unpriced.antt =====
-- The buys of src/main.rs on the pools, and the monitor of src/position_monitor.rs that is to sell
-- them.
use girasolbot.Prelude.{
  ℕ, ◌≡◌, refl, ap, Bool, true, false, not, ◌&&◌, Option, none, some, List, ◌∷◌, arith, eq_refl,
  String, Bytes, Pubkey, leb, Bool-cases, Option-cases, inl, inr,
}
use girasolbot.Prelude.Options.{◌or_else◌}
use girasolbot.Prelude.Dict
use girasolbot.Prelude.Dict.{get-insert}
use girasolbot.Float.{Float, IsOrdered}
use girasolbot.Chain.{Chain, Result, ok, err, Instruction}
use girasolbot.Raydium.V4
use girasolbot.Raydium.V4.{AmmInfo}
use girasolbot.Raydium.Cpmm
use girasolbot.Raydium.Cpmm.{CpmmPoolState}
use girasolbot.Settings.{Settings}
use girasolbot.CopyEngine.Types.{
  DexType, pump_fun, pump_fun_amm, raydium_v4, raydium_cpmm, jupiter, unknown,
}
use girasolbot.CopyEngine.Fetch.{DetectedBuy}
use girasolbot.Position.State.{Holding, PositionMonitor, acquired}
use girasolbot.Position.Ops.{
  has_position, position_count, member, try_acquire_buy, release_buy, add_position, persist,
}
use girasolbot.Position.Orders.{Quote, World}
use girasolbot.Position.Tick.{check_position}
use girasolbot.Position.Tick.Unpriced.{check_position-unpriced}
use girasolbot.PumpSwap
use girasolbot.Replay.{sol_to_spend}
use girasolbot.SellExecutor.{Config}
use girasolbot.BuyExecutor.{
  BuyAnswers, BuyOutcome, skipped, interrupted, failed, bought, buy_built, placed, raydium_buy,
  mirrored, pumpswap_buy, route, buy_outcome, sent_signature, Buyer, run_buy, settle_buy, register,
}

-- The exchanges whose buys main.rs makes by itself.
abbrev pub is_pool : DexType → Bool
is_pool pump_fun = false
is_pool pump_fun_amm = true
is_pool raydium_v4 = true
is_pool raydium_cpmm = true
is_pool jupiter = false
is_pool (unknown id) = false

module _ (F : Float) where
  open F use {of_u64, fle}

  -- A buy without tokens and without a price.
  IsEmpty : BuyOutcome F → Type 0
  IsEmpty skipped = Unit
  IsEmpty interrupted = Unit
  IsEmpty failed = Unit
  IsEmpty (bought h) = (h.amount ≡ 0) × (h.buy_price ≡ of_u64 0)

  module _ (chain : Chain) (decode_amm : Bytes → Option AmmInfo)
      (decode_pool : Bytes → Option CpmmPoolState) (config : Config) (s : Settings F) where
    built-IsEmpty :
        (a : BuyAnswers F) (holding : Option F.F64 → Option String → Holding F) (sol : F.F64)
        (r : Result (List Instruction))
        → ((c : Option F.F64) (sig : Option String) → IsEmpty (bought (holding c sig)))
        → IsEmpty (buy_built F chain decode_amm decode_pool config s a holding sol r)
    unfolding buy_built IsEmpty
    built-IsEmpty a holding sol (err e) empty = tt
    built-IsEmpty a holding sol (ok instructions) empty = elim (Bool-cases config.is_real) [
      | inl real ↦ elim (Bool-cases (a.signed instructions)) [
        | inl signed ↦
            elim (Option-cases (sent_signature F chain decode_amm decode_pool config s a)) [
              | inl lost ↦ rw (real, signed, lost) tt
              | inr (signature, sent) ↦ rw (real, signed, sent) (empty (some sol) (some signature))
            ]
        | inr unsigned ↦ rw (real, unsigned) tt
      ]
      | inr dry ↦ rw dry (empty none none)
    ]

    raydium_buy-IsEmpty :
        (a : BuyAnswers F) (detected : DetectedBuy F) (dex : String)
        (build : String → String → F.F64 → ℕ → Pubkey → Result (List Instruction))
        (amm_pool : Option String) (keypair : Option Pubkey)
        → IsEmpty (
            raydium_buy F chain decode_amm decode_pool config s a detected dex build amm_pool
              keypair)
    unfolding raydium_buy IsEmpty placed
    raydium_buy-IsEmpty a detected dex build none keypair = tt
    raydium_buy-IsEmpty a detected dex build (some amm_pool) none = tt
    raydium_buy-IsEmpty a detected dex build (some amm_pool) (some payer) =
        let sol = sol_to_spend F s detected in
        built-IsEmpty a
          (λ cost signature.
            placed F chain decode_amm decode_pool config s a detected 9 dex amm_pool none cost none)
          sol (build amm_pool detected.mint sol s.slippage_bps payer)
          (λ cost signature. (refl, refl))

    pumpswap_buy-IsEmpty :
        (a : BuyAnswers F) (detected : DetectedBuy F) (accounts : Option (List String))
        (keypair : Option Pubkey)
        → IsEmpty (pumpswap_buy F chain decode_amm decode_pool config s a detected accounts keypair)
    unfolding pumpswap_buy IsEmpty placed
    pumpswap_buy-IsEmpty a detected none keypair = tt
    pumpswap_buy-IsEmpty a detected (some accounts) none = tt
    pumpswap_buy-IsEmpty a detected (some accounts) (some payer) =
        let target = mirrored F chain decode_amm decode_pool config s detected accounts in
        built-IsEmpty a
          (placed F chain decode_amm decode_pool config s a detected 6 "pumpswap" target.pool
            (some accounts))
          (sol_to_spend F s detected)
          (PumpSwap.build_buy_instructions chain target target.sol_amount target.token_amount payer
            s.slippage_bps)
          (λ cost signature. (refl, refl))

    route-IsEmpty :
        (a : BuyAnswers F) (detected : DetectedBuy F) (dex : DexType)
        → is_pool dex ≡ true
        → IsEmpty (route F chain decode_amm decode_pool config s a detected dex)
    unfolding route
    route-IsEmpty a detected pump_fun pool = cc
    route-IsEmpty a detected pump_fun_amm pool = pumpswap_buy-IsEmpty a detected _ config.keypair
    route-IsEmpty a detected raydium_v4 pool =
        raydium_buy-IsEmpty a detected "raydium_v4" (V4.build_buy_instructions F chain decode_amm)
          detected.amm_pool config.keypair
    route-IsEmpty a detected raydium_cpmm pool =
        raydium_buy-IsEmpty a detected "raydium_cpmm"
          (Cpmm.build_buy_instructions F chain decode_pool) detected.amm_pool config.keypair
    route-IsEmpty a detected jupiter pool = cc
    route-IsEmpty a detected (unknown id) pool = cc

    buy_outcome-IsEmpty :
        (a : BuyAnswers F) (m : PositionMonitor F) (detected : DetectedBuy F)
        → is_pool detected.dex ≡ true
        → IsEmpty (buy_outcome F chain decode_amm decode_pool config s a m detected)
    unfolding buy_outcome IsEmpty
    buy_outcome-IsEmpty a m detected pool =
        elim (Bool-cases
          (not (has_position F m detected.mint) && leb s.max_holded_coins (position_count F m))) [
            | inl full ↦ rw full tt
            | inr room ↦ elim (Bool-cases a.safe) [
              | inl safe ↦ rw (room, safe) (route-IsEmpty a detected detected.dex pool)
              | inr unsafe ↦ rw (room, unsafe) tt
            ]
          ]

    bought-IsEmpty :
        (a : BuyAnswers F) (m : PositionMonitor F) (detected : DetectedBuy F) (h : Holding F)
        → is_pool detected.dex ≡ true
        → buy_outcome F chain decode_amm decode_pool config s a m detected ≡ bought h
        → IsEmpty (bought h)
    bought-IsEmpty a m detected h pool ended = rw ended at (buy_outcome-IsEmpty a m detected pool)

    acquires :
        (m : PositionMonitor F) (mint : String)
        → has_position F m mint ≡ false
        → member mint m.pending_buys ≡ false
        → try_acquire_buy F m mint s.allow_accumulate
          ≡ (record m { pending_buys = mint ∷ m.pending_buys }, acquired)
    unfolding try_acquire_buy
    acquires m mint new free = ground arith

    settled :
        (x : Buyer F) (detected : DetectedBuy F) (h : Holding F)
        → has_position F x.monitor detected.mint ≡ false
        → let x' : Buyer F = record x {
          monitor = record x.monitor { pending_buys = detected.mint ∷ x.monitor.pending_buys };
        } in
          let done = settle_buy F chain decode_amm decode_pool config s x' detected (bought h) in
          Dict.get (release_buy F done.monitor detected.mint).positions detected.mint
          ≡ some
              (record h { target_buy_tokens = h.target_buy_tokens or_else detected.token_amount })
    unfolding settle_buy register release_buy add_position persist
    settled x detected h new =
        let own : Holding F = record h {
          target_buy_tokens = h.target_buy_tokens or_else detected.token_amount;
        } in
        rw new (
          rw (get-insert x.monitor.positions detected.mint detected.mint own, eq_refl detected.mint)
            refl)

    -- A task that reserves a mint which is not held, and whose buy is made.
    registered :
        (a : BuyAnswers F) (x : Buyer F) (detected : DetectedBuy F) (h : Holding F)
        → has_position F x.monitor detected.mint ≡ false
        → member detected.mint x.monitor.pending_buys ≡ false
        → buy_outcome F chain decode_amm decode_pool config s a
            (record x.monitor { pending_buys = detected.mint ∷ x.monitor.pending_buys })
            detected
          ≡ bought h
        → Dict.get
            (run_buy F chain decode_amm decode_pool config s a x detected).monitor.positions
            detected.mint
          ≡ some
              (record h { target_buy_tokens = h.target_buy_tokens or_else detected.token_amount })
    unfolding run_buy
    registered a x detected h new free ended =
        let taken = acquires x.monitor detected.mint new free in
        rw (run_buy, taken) (rw (ap (λ r. r.0) taken, ended) (settled x detected h new))

    -- On Raydium or PumpSwap, the task of a buy that is made, of a mint without a position and that no
    -- other task buys, registers a position of no tokens at the price zero, also where the transaction
    -- is sent; and a pass of the monitor over that position queues no order, at whatever quote.
    pub run_buy-unsold :
        IsOrdered F
        → (a : BuyAnswers F) (x : Buyer F) (detected : DetectedBuy F) (h : Holding F) (q : Quote F)
          (w : World F)
        → is_pool detected.dex ≡ true
        → has_position F x.monitor detected.mint ≡ false
        → member detected.mint x.monitor.pending_buys ≡ false
        → buy_outcome F chain decode_amm decode_pool config s a
            (record x.monitor { pending_buys = detected.mint ∷ x.monitor.pending_buys })
            detected
          ≡ bought h
        → let after = run_buy F chain decode_amm decode_pool config s a x detected in
          (h' : Holding F) × (Dict.get after.monitor.positions detected.mint ≡ some h')
          × (h'.amount ≡ 0)
          × (h'.buy_price ≡ of_u64 0)
          × ((check_position F s q detected.mint h' w).queue ≡ w.queue)
    unfolding IsEmpty
    run_buy-unsold law a x detected h q w pool new free ended =
        let empty = bought-IsEmpty a _ detected h pool ended in
        (
          _,
          registered a x detected h new free ended,
          empty.0,
          empty.1,
          check_position-unpriced F s q detected.mint _ w (rw empty.1 (law.of_u64_self 0)),
        )
