-- ===== src/BuyExecutor.antt =====
-- src/main.rs: the task of one buy, from its reservation to its release. Whether a call to the network
-- succeeds is data (`BuyAnswers`), as are the safety check and the result of `buyer::buy_token`.
-- Nothing else runs in between.
pub mod Unpriced
use girasolbot.Prelude.{
  ℕ, ◌+◌, ◌*◌, Bool, true, false, not, ◌&&◌, Option, none, some, List, [], ◌∷◌, String, Bytes,
  Pubkey, length, leb, ltb, max, get_or, if◌then◌else◌,
}
use girasolbot.Prelude.Options.{◌>>=◌, unwrap_or, filter, ◌or_else◌}
use mathlib.Core.Option
use girasolbot.Float.{Float}
use girasolbot.Chain.{Chain, Result, ok, err, Instruction}
use girasolbot.Raydium.V4
use girasolbot.Raydium.V4.{AmmInfo}
use girasolbot.Raydium.Cpmm
use girasolbot.Raydium.Cpmm.{CpmmPoolState}
use girasolbot.PumpSwap
use girasolbot.PumpSwap.{PumpSwapAccounts}
use girasolbot.Settings.{Settings}
use girasolbot.CopyEngine.Types.{
  DexType, pump_fun, pump_fun_amm, raydium_v4, raydium_cpmm, jupiter, unknown,
}
use girasolbot.CopyEngine.Fetch.{DetectedBuy}
use girasolbot.Position.State.{Holding, PositionMonitor, already_holding, acquired, busy}
use girasolbot.Position.Ops.{
  has_position, position_count, try_acquire_buy, release_buy, add_position, accumulate_position,
}
use girasolbot.Replay.{replay_size, sol_to_spend}
use girasolbot.SellExecutor.{Config}

module _ (F : Float) where
  open F use {F64, of_u64, to_u64, fmul, fdiv, flt}

  -- `http` is the answer of the one endpoint, with its result. `bought_at` is the time.
  pub record BuyAnswers : Type 0 where
    pub safe : Bool
    pub signed : List Instruction → Bool
    pub swqos : Option String
    pub http : Option (Option String)
    pub buy_token : Option (Holding F)
    pub bought_at : ℕ

  -- How the task ends. `interrupted` is an error that leaves the task, uncounted.
  pub data BuyOutcome : Type 0 where
    skipped interrupted failed : BuyOutcome
    bought : Holding F → BuyOutcome

  pub record BuyStats : Type 0 where
    pub total_skipped : ℕ
    pub total_buys : ℕ
    pub total_buy_failures : ℕ

  pub record Buyer : Type 0 where
    pub monitor : PositionMonitor F
    pub stats : BuyStats

  module _ (chain : Chain) (decode_amm : Bytes → Option AmmInfo)
      (decode_pool : Bytes → Option CpmmPoolState) (config : Config) (s : Settings F) where
    -- The signature, where the transaction is sent.
    sent_signature : BuyAnswers → Option String
    sent_signature a =
        if config.has_swqos then a.swqos else Option.map (λ r. unwrap_or r "unknown") a.http

    -- From the built instructions on; `holding` takes the cost and the signature.
    buy_built :
        BuyAnswers
        → (Option F64 → Option String → Holding F)
        → F64
        → Result (List Instruction)
        → BuyOutcome
    unfolding sent_signature
    buy_built a holding sol (err e) = failed
    buy_built a holding sol (ok instructions) =
        if not config.is_real
        then bought (holding none none)
        else if a.signed instructions
        then elim (sent_signature a) [
          | none ↦ interrupted
          | some signature ↦ bought (holding (some sol) (some signature))
        ]
        else interrupted

    placed :
        BuyAnswers
        → DetectedBuy F
        → ℕ
        → String
        → String
        → Option (List String)
        → Option F64
        → Option String
        → Holding F
    placed a detected decimals dex amm_pool accounts cost signature = record {
      amount = 0;
      original_amount = 0;
      buy_price = of_u64 0;
      buy_time = a.bought_at;
      high_watermark = none;
      entry_liquidity_sol = none;
      decimals = decimals;
      buy_cost_sol = cost;
      triggered_tp_levels = [];
      triggered_sl_levels = [];
      migrated = false;
      pending_sell = false;
      dex = dex;
      amm_pool = some amm_pool;
      target_buy_tokens = detected.token_amount;
      extra_pump_account = none;
      pumpswap_accounts = accounts;
      buy_signature = signature;
    }

    raydium_buy :
        BuyAnswers
        → DetectedBuy F
        → String
        → (String → String → F64 → ℕ → Pubkey → Result (List Instruction))
        → Option String
        → Option Pubkey
        → BuyOutcome
    unfolding buy_built placed sol_to_spend
    raydium_buy a detected dex build none keypair = skipped
    raydium_buy a detected dex build (some amm_pool) none = skipped
    raydium_buy a detected dex build (some amm_pool) (some payer) =
        let sol = sol_to_spend F s detected in
        buy_built a (λ cost signature. placed a detected 9 dex amm_pool none cost none) sol
          (build amm_pool detected.mint sol s.slippage_bps payer)

    -- Without a size of the replay mode: in proportion to the target's trade, less a tenth.
    scaled_amount : DetectedBuy F → ℕ
    unfolding sol_to_spend
    scaled_amount detected =
        unwrap_or
          (do
            target_sol ← filter (flt (of_u64 0)) detected.sol_amount
            target_tokens ← filter (ltb 0) detected.token_amount
            some (
                max
                  (to_u64 (
                    fmul (fmul (of_u64 target_tokens) (fdiv (sol_to_spend F s detected) target_sol))
                      (fdiv (of_u64 9) (of_u64 10))))
                  1))
          1

    our_sol_lamports : DetectedBuy F → ℕ
    unfolding replay_size sol_to_spend
    our_sol_lamports detected =
        unwrap_or (Option.map (λ size. size.sol_lamports) (replay_size F s detected))
          (to_u64 (fmul (sol_to_spend F s detected) (of_u64 1000000000)))

    our_token_amount : DetectedBuy F → ℕ
    unfolding replay_size scaled_amount
    our_token_amount detected =
        unwrap_or (Option.map (λ size. size.token_amount) (replay_size F s detected))
          (scaled_amount detected)

    mirrored : DetectedBuy F → List String → PumpSwapAccounts
    unfolding our_sol_lamports our_token_amount
    mirrored detected accounts = record {
      accounts = accounts;
      pool = unwrap_or detected.amm_pool (get_or accounts 0 "");
      base_mint = get_or accounts 3 "";
      quote_mint = get_or accounts 4 "";
      token_amount = our_token_amount detected;
      sol_amount = our_sol_lamports detected;
    }

    pumpswap_buy : BuyAnswers → DetectedBuy F → Option (List String) → Option Pubkey → BuyOutcome
    unfolding buy_built placed mirrored sol_to_spend
    pumpswap_buy a detected none keypair = skipped
    pumpswap_buy a detected (some accounts) none = skipped
    pumpswap_buy a detected (some accounts) (some payer) =
        let target = mirrored detected accounts in
        buy_built a (placed a detected 6 "pumpswap" target.pool (some accounts))
          (sol_to_spend F s detected)
          (PumpSwap.build_buy_instructions chain target target.sol_amount target.token_amount payer
            s.slippage_bps)

    pump_fun_buy : Option (Holding F) → BuyOutcome
    pump_fun_buy none = failed
    pump_fun_buy (some h) = bought h

    -- The buyer of each exchange; the last two are not supported.
    route : BuyAnswers → DetectedBuy F → DexType → BuyOutcome
    unfolding raydium_buy pumpswap_buy pump_fun_buy
    route a detected pump_fun = pump_fun_buy a.buy_token
    route a detected pump_fun_amm =
        pumpswap_buy a detected (filter (λ l. leb 17 (length l)) detected.target_pump_accounts)
          config.keypair
    route a detected raydium_v4 =
        raydium_buy a detected "raydium_v4" (V4.build_buy_instructions F chain decode_amm)
          detected.amm_pool config.keypair
    route a detected raydium_cpmm =
        raydium_buy a detected "raydium_cpmm" (Cpmm.build_buy_instructions F chain decode_pool)
          detected.amm_pool config.keypair
    route a detected jupiter = skipped
    route a detected (unknown id) = skipped

    -- How a task ends that has reserved its mint.
    unfoldable pub buy_outcome : BuyAnswers → PositionMonitor F → DetectedBuy F → BuyOutcome
    unfolding route
    buy_outcome a m detected =
        if not (has_position F m detected.mint) && leb s.max_holded_coins (position_count F m)
        then skipped
        else if not a.safe
        then skipped
        else route a detected detected.dex

    register : PositionMonitor F → DetectedBuy F → Holding F → PositionMonitor F
    unfolding accumulate_position add_position
    register m detected h =
        if has_position F m detected.mint
        then accumulate_position F m detected.mint h.amount h.buy_price h.buy_cost_sol
        else add_position F m detected.mint
            (record h { target_buy_tokens = h.target_buy_tokens or_else detected.token_amount })

    unfoldable pub settle_buy : Buyer → DetectedBuy F → BuyOutcome → Buyer
    unfolding register
    settle_buy x detected skipped = record x {
      stats = record x.stats { total_skipped = x.stats.total_skipped + 1 };
    }
    settle_buy x detected interrupted = x
    settle_buy x detected failed = record x {
      stats = record x.stats { total_buy_failures = x.stats.total_buy_failures + 1 };
    }
    settle_buy x detected (bought h) = record {
      monitor = register x.monitor detected h;
      stats = record x.stats { total_buys = x.stats.total_buys + 1 };
    }

    -- One task, on a detection that the loop passes on.
    unfoldable pub run_buy : BuyAnswers → Buyer → DetectedBuy F → Buyer
    unfolding try_acquire_buy buy_outcome settle_buy release_buy
    run_buy a x detected =
        let (m, acquire) = try_acquire_buy F x.monitor detected.mint s.allow_accumulate in
        elim acquire [
          | already_holding ↦ settle_buy x detected skipped
          | busy ↦ settle_buy x detected skipped
          | acquired ↦
              let ended =
                settle_buy (record x { monitor = m }) detected (buy_outcome a m detected) in
              record ended { monitor = release_buy F ended.monitor detected.mint }
        ]
