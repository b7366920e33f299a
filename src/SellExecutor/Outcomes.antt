-- ===== src/SellExecutor/Outcomes.antt =====
-- What an order that is not sent leaves behind, and that a position is not sold twice.
use girasolbot.Prelude.{
  ◌≤◌, ◌≡◌, refl, true, ◌&&◌, ◌||◌, Pubkey, false, Option, some, List, [], ◌∷◌, String, str_eq, All,
  arith, if◌then◌else◌, Bytes,
}
use girasolbot.Prelude.Dict
use girasolbot.Prelude.Dict.{get-modify}
use girasolbot.Float.{Float}
use girasolbot.Chain.{Chain, Instruction, ok}
use girasolbot.Raydium.V4
use girasolbot.Raydium.Cpmm
use girasolbot.Settings.{Settings}
use girasolbot.Position.Orders.{Quote, World}
use girasolbot.Position.Tick.{check_position}
use girasolbot.Raydium.V4.{AmmInfo}
use girasolbot.Raydium.Cpmm.{CpmmPoolState}
use girasolbot.Position.State.{SellOrder, Holding}
use girasolbot.Position.Ops.{has_position}
use girasolbot.Position.Ops.Selling.{has_position-update_after_sell}
use girasolbot.SellExecutor.{
  Config, Answers, abandoned, executed, Executor, outcome_of, settle_outcome, execute_order,
  run_sell_executor, sell_built, send_transaction, raydium_sell, raydium_instructions,
}

module _ (F : Float) where
  module _ (chain : Chain) (decode_amm : Bytes → Option AmmInfo)
      (decode_pool : Bytes → Option CpmmPoolState) (config : Config) where
    sell_built-unsent :
        (a : Answers F) (instructions : List Instruction)
        → config.is_real ≡ true
        → a.signed instructions ≡ true
        → (if config.has_swqos then a.swqos_sent else a.http_sent && a.http_json) ≡ false
        → sell_built F chain decode_amm decode_pool config a (ok instructions) ≡ abandoned false
    unfolding sell_built send_transaction
    sell_built-unsent a instructions real signed unsent = ground arith

    -- An order to sell a held position on Raydium, in real trading, whose instructions are built and
    -- signed, but whose transaction cannot be sent: the executor leaves everything as it was and counts
    -- no failure. So the mark of a sell in flight, which the monitor set when it queued the order, stays,
    -- and a pass of the monitor over the position does nothing, whatever the quote.
    pub execute_order-unsent :
        (a : Answers F) (x : Executor F) (o : SellOrder F) (h : Holding F) (amm_pool : String)
        (payer : Pubkey) (instructions : List Instruction) (s : Settings F) (q : Quote F)
        (w : World F)
        → Dict.get x.monitor.positions o.mint ≡ some h
        → h.pending_sell ≡ true
        → (str_eq o.dex "raydium_v4" || str_eq o.dex "raydium_cpmm") ≡ true
        → o.amm_pool ≡ some amm_pool
        → config.keypair ≡ some payer
        → config.is_real ≡ true
        → (if str_eq o.dex "raydium_cpmm"
            then Cpmm.build_sell_instructions F chain decode_pool amm_pool o.mint o.amount
                config.slippage_bps payer
            else V4.build_sell_instructions F chain decode_amm amm_pool o.mint o.amount
                config.slippage_bps payer)
          ≡ ok instructions
        → a.signed instructions ≡ true
        → (if config.has_swqos then a.swqos_sent else a.http_sent && a.http_json) ≡ false
        → (execute_order F chain decode_amm decode_pool config a x o ≡ x)
          × (check_position F s q o.mint h w ≡ w)
    unfolding execute_order outcome_of settle_outcome raydium_sell raydium_instructions
        check_position
    execute_order-unsent a x o h amm_pool payer instructions s q w held pending raydium pool key
          real built signed unsent =
        (
          rw (held, raydium, pool, key, built, sell_built-unsent a instructions real signed unsent)
              refl,
          ground (arith, pending),
        )

    execute_order-skipped :
        (a : Answers F) (x : Executor F) (o : SellOrder F)
        → has_position F x.monitor o.mint ≡ false
        → execute_order F chain decode_amm decode_pool config a x o ≡ x
    unfolding execute_order outcome_of settle_outcome
    execute_order-skipped a x o gone = rw gone refl

    run_sell_executor-gone :
        (mint : String) (x : Executor F) (orders : List (Answers F × SellOrder F))
        → has_position F x.monitor mint ≡ false
        → All (λ e. e.1.mint ≡ mint) orders
        → run_sell_executor F chain decode_amm decode_pool config x orders ≡ x
    unfolding run_sell_executor
    run_sell_executor-gone mint x [] gone all = refl
    run_sell_executor-gone mint x ((a, o) ∷ orders) gone all =
        let here = execute_order-skipped a x o (rw all.0 gone) in
        rw here (run_sell_executor-gone mint x orders gone all.1)

    -- A sale of all that is held leaves no position.
    execute_order-gone :
        (a : Answers F) (x : Executor F) (o : SellOrder F) (h : Holding F) (change : Option F.F64)
        → Dict.get x.monitor.positions o.mint ≡ some h
        → h.amount ≤ o.amount
        → outcome_of F chain decode_amm decode_pool config a x.monitor o ≡ executed change
        → has_position F (execute_order F chain decode_amm decode_pool config a x o).monitor o.mint
          ≡ false
    unfolding execute_order settle_outcome
    execute_order-gone a x o h change e all_of done =
        let left =
          has_position-update_after_sell F x.monitor o.mint o.amount o.reason o.level_index h e in
        rw done (ground (arith, left))

    -- Once a sale of all that is held is executed, no further order for the mint, of which any number may
    -- be in the queue and whatever their answers are, does anything: nothing is sold, counted or marked.
    pub run_sell_executor-once :
        (a : Answers F) (x : Executor F) (o : SellOrder F) (h : Holding F) (change : Option F.F64)
        (orders : List (Answers F × SellOrder F))
        → Dict.get x.monitor.positions o.mint ≡ some h
        → h.amount ≤ o.amount
        → outcome_of F chain decode_amm decode_pool config a x.monitor o ≡ executed change
        → All (λ e. e.1.mint ≡ o.mint) orders
        → run_sell_executor F chain decode_amm decode_pool config x ((a, o) ∷ orders)
          ≡ execute_order F chain decode_amm decode_pool config a x o
    unfolding run_sell_executor
    run_sell_executor-once a x o h change orders e all_of done same =
        run_sell_executor-gone o.mint _ orders (execute_order-gone a x o h change e all_of done)
          same
