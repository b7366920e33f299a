-- ===== src/SellExecutor.antt =====
-- src/main.rs: the executor of sell orders. Whether a call to the network succeeds is data
-- (`Answers`), as is the result of `rpc::sell_token`.
pub mod Outcomes
pub mod MirrorSell
use girasolbot.Prelude.{
  ℕ, ◌+◌, ◌-◌, ◌≡◌, Bool, true, false, not, ◌||◌, Option, none, some, List, [], ◌∷◌, ◌++◌, String,
  str_eq, Bytes, Pubkey, length, ltb, get_or, if◌then◌else◌,
}
use girasolbot.Float.{Float}
use girasolbot.Chain.{Chain, Result, ok, err, Instruction}
use girasolbot.Raydium.V4
use girasolbot.Raydium.V4.{AmmInfo}
use girasolbot.Raydium.Cpmm
use girasolbot.Raydium.Cpmm.{CpmmPoolState}
use girasolbot.PumpSwap
use girasolbot.PumpSwap.{PumpSwapAccounts}
use girasolbot.Position.State.{SellOrder, SellReason, PositionMonitor}
use girasolbot.Position.Ops.{has_position, update_after_sell, clear_pending_sell}

-- The arguments of the executor that do not change, with the slippage of the settings.
pub record Config : Type 0 where
  pub is_real : Bool
  pub keypair : Option Pubkey
  pub has_swqos : Bool
  pub slippage_bps : ℕ

module _ (F : Float) where
  -- `signed`: `build_signed_transaction` succeeds. `sell_token`: the change of the SOL balance, if the
  -- sell succeeds and there is one.
  pub record Answers : Type 0 where
    pub signed : List Instruction → Bool
    pub swqos_sent : Bool
    pub http_sent : Bool
    pub http_json : Bool
    pub sell_token : Option (Option F.F64)

  -- How the body of the loop ends. `abandoned` is a `continue` before the result is looked at, and
  -- says whether a failure is counted.
  pub data Outcome : Type 0 where
    skipped failed : Outcome
    abandoned : Bool → Outcome
    executed : Option F.F64 → Outcome

  -- `realized` has the changes that are added to the total, the last one first.
  pub record Stats : Type 0 where
    pub total_sells : ℕ
    pub total_sell_failures : ℕ
    pub realized : List F.F64

  pub record Executor : Type 0 where
    pub monitor : PositionMonitor F
    pub stats : Stats

  realize : Option F.F64 → List F.F64 → List F.F64
  realize none realized = realized
  realize (some change) realized = change ∷ realized

  count_failure : Bool → Stats → Stats
  count_failure false s = s
  count_failure true s = record s { total_sell_failures = s.total_sell_failures + 1 }

  unfoldable pub settle_outcome : Executor → SellOrder F → Outcome → Executor
  unfolding update_after_sell clear_pending_sell realize count_failure
  settle_outcome x order skipped = x
  settle_outcome x order (abandoned counted) = record x { stats = count_failure counted x.stats }
  settle_outcome x order failed = record {
    monitor = clear_pending_sell F x.monitor order.mint;
    stats = count_failure true x.stats;
  }
  settle_outcome x order (executed change) = record {
    monitor = update_after_sell F x.monitor order.mint order.amount order.reason order.level_index;
    stats = record {
      total_sells = x.stats.total_sells + 1;
      total_sell_failures = x.stats.total_sell_failures;
      realized = realize change x.stats.realized;
    };
  }

  module _ (chain : Chain) (decode_amm : Bytes → Option AmmInfo)
      (decode_pool : Bytes → Option CpmmPoolState) (config : Config) where
    open F use {F64, of_u64, to_u64, fmul, fsub, fdiv}

    -- The transaction goes to the providers or to the one endpoint. An answer of the endpoint without
    -- a result counts as sent.
    send_transaction : Answers → Outcome
    send_transaction a =
        if config.has_swqos
        then (if a.swqos_sent then executed none else abandoned false)
        else if a.http_sent
        then (if a.http_json then executed none else abandoned false)
        else abandoned false

    -- From the built instructions on.
    sell_built : Answers → Result (List Instruction) → Outcome
    unfolding send_transaction
    sell_built a (err e) = failed
    sell_built a (ok instructions) =
        if not config.is_real
        then executed none
        else if a.signed instructions
        then send_transaction a
        else failed

    raydium_instructions : SellOrder F → String → Pubkey → Result (List Instruction)
    raydium_instructions order amm_pool payer =
        if str_eq order.dex "raydium_cpmm"
        then Cpmm.build_sell_instructions F chain decode_pool amm_pool order.mint order.amount
            config.slippage_bps payer
        else V4.build_sell_instructions F chain decode_amm amm_pool order.mint order.amount
            config.slippage_bps payer

    raydium_sell : Answers → SellOrder F → Option String → Option Pubkey → Outcome
    unfolding sell_built raydium_instructions
    raydium_sell a order none keypair = abandoned true
    raydium_sell a order (some amm_pool) none = abandoned true
    raydium_sell a order (some amm_pool) (some payer) =
        sell_built a (raydium_instructions order amm_pool payer)

    min_sol_out : SellOrder F → ℕ
    min_sol_out order =
        let gross = fmul order.current_price (of_u64 order.amount) in
        let factor = fsub (of_u64 1) (fdiv (of_u64 config.slippage_bps) (of_u64 10000)) in
        to_u64 (fmul (fmul gross factor) (of_u64 1000000000))

    stored : SellOrder F → List String → PumpSwapAccounts
    stored order accounts = record {
      accounts = accounts;
      pool = get_or accounts 0 "";
      base_mint = get_or accounts 3 "";
      quote_mint = get_or accounts 4 "";
      token_amount = order.amount;
      sol_amount = 0;
    }

    pumpswap_payer : Answers → SellOrder F → List String → Option Pubkey → Outcome
    unfolding sell_built min_sol_out stored
    pumpswap_payer a order accounts none = abandoned true
    pumpswap_payer a order accounts (some payer) = sell_built a (
        PumpSwap.build_sell_instructions chain (stored order accounts) order.amount
          (min_sol_out order) payer)

    pumpswap_sell : Answers → SellOrder F → Option (List String) → Outcome
    unfolding pumpswap_payer
    pumpswap_sell a order none = abandoned true
    pumpswap_sell a order (some accounts) =
        if ltb (length accounts) 17
        then abandoned true
        else pumpswap_payer a order accounts config.keypair

    pump_fun_sell : Option (Option F64) → Outcome
    pump_fun_sell none = failed
    pump_fun_sell (some change) = executed change

    -- How the executor ends with an order.
    unfoldable pub outcome_of : Answers → PositionMonitor F → SellOrder F → Outcome
    unfolding raydium_sell pumpswap_sell pump_fun_sell
    outcome_of a m order =
        if not (has_position F m order.mint)
        then skipped
        else if str_eq order.dex "raydium_v4" || str_eq order.dex "raydium_cpmm"
        then raydium_sell a order order.amm_pool config.keypair
        else if str_eq order.dex "pumpswap"
        then pumpswap_sell a order order.pumpswap_accounts
        else pump_fun_sell a.sell_token

    -- One pass of the loop of `run_sell_executor`.
    unfoldable pub execute_order : Answers → Executor → SellOrder F → Executor
    unfolding outcome_of settle_outcome
    execute_order a x order = settle_outcome x order (outcome_of a x.monitor order)

    -- The loop, with the answers that each order meets.
    unfoldable pub run_sell_executor : Executor → List (Answers × SellOrder F) → Executor
    unfolding execute_order
    run_sell_executor x [] = x
    run_sell_executor x ((a, order) ∷ orders) = run_sell_executor (execute_order a x order) orders
