-- ===== src/Tests/Buying.antt =====
-- Tests of the task of a buy.
use girasolbot.Prelude.{◌≡◌, refl, ◌∷◌, true, false, some, none, Option, [], Bytes, bytes_eq}
use girasolbot.Prelude.Dict
use girasolbot.Float.Fixed.{fixed, fixed-IsOrdered}
use girasolbot.Prelude.Texts.{chars}
use girasolbot.Raydium.V4
use girasolbot.Raydium.Cpmm.{CpmmPoolState}
use girasolbot.CopyEngine.Types.{raydium_v4}
use girasolbot.CopyEngine.Fetch.{DetectedBuy}
use girasolbot.Position.State.{Holding, PositionMonitor}
use girasolbot.Position.Ops.{has_position, member}
use girasolbot.Position.Tick.{check_position}
use girasolbot.SellExecutor.{Config}
use girasolbot.BuyExecutor.{BuyAnswers, bought, buy_outcome, Buyer, run_buy}
use girasolbot.BuyExecutor.Unpriced.{run_buy-unsold}
use girasolbot.Tests.Data.{chain, wallet, num, amm, settings, doubled, world}

abbrev config : Config
config = record { is_real = true; keypair = some wallet; has_swqos = true; slippage_bps = 500 }

abbrev decode_pool : Bytes → Option CpmmPoolState
decode_pool bs = none

abbrev answers : BuyAnswers fixed
answers = record {
  safe = true;
  signed = λ is. true;
  swqos = some "signature";
  http = none;
  buy_token = none;
  bought_at = 7;
}

abbrev none_held : PositionMonitor fixed
none_held = record { positions = []; pending_buys = []; file = [] }

abbrev detected : DetectedBuy fixed
detected = record {
  signature = "target";
  mint = "mint";
  dex = raydium_v4;
  sol_amount = some (num 2);
  token_amount = some 1000;
  slot = some 5;
  amm_pool = some "amm";
  target_pump_accounts = none;
}

-- The position that is registered for a transaction that is sent.
abbrev empty : Holding fixed
empty = record {
  amount = 0;
  original_amount = 0;
  buy_price = num 0;
  buy_time = 7;
  high_watermark = none;
  entry_liquidity_sol = none;
  decimals = 9;
  buy_cost_sol = some (num 1);
  triggered_tp_levels = [];
  triggered_sl_levels = [];
  migrated = false;
  pending_sell = false;
  dex = "raydium_v4";
  amm_pool = some "amm";
  target_buy_tokens = some 1000;
  extra_pump_account = none;
  pumpswap_accounts = none;
  buy_signature = none;
}

sent :
    buy_outcome fixed chain
      (λ bs. some amm)
      decode_pool
      config
      settings
      answers
      (record none_held { pending_buys = "mint" ∷ [] })
      detected
    ≡ bought empty
unfolding buy_outcome Dict.get V4.build_buy_instructions bytes_eq chars
sent = refl

abbrev buyer : Buyer fixed
buyer = record {
  monitor = none_held;
  stats = record { total_skipped = 0; total_buys = 0; total_buy_failures = 0 };
}

not_held : has_position fixed none_held "mint" ≡ false
unfolding Dict.get
not_held = refl

not_pending : member "mint" none_held.pending_buys ≡ false
unfolding member
not_pending = refl

run_buy-unsold_example :
    let after =
      run_buy fixed chain (λ bs. some amm) decode_pool config settings answers buyer detected in
    (h' : Holding fixed) × (Dict.get after.monitor.positions "mint" ≡ some h')
    × (h'.amount ≡ 0)
    × (h'.buy_price ≡ fixed.of_u64 0)
    × ((check_position fixed settings doubled "mint" h' world).queue ≡ world.queue)
run_buy-unsold_example =
    run_buy-unsold fixed chain (λ bs. some amm) decode_pool config settings fixed-IsOrdered answers
      buyer detected empty doubled world refl not_held not_pending sent
