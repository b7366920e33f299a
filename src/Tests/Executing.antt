-- ===== src/Tests/Executing.antt =====
-- Tests of the executor of sells.
use girasolbot.Prelude.{
  ◌≤◌, ◌≡◌, refl, true, false, not, some, none, Option, [], ◌∷◌, List, Bytes, bytes_eq, arith,
}
use girasolbot.Prelude.Dict
use girasolbot.Float.Fixed.{fixed}
use girasolbot.Prelude.Texts.{chars}
use girasolbot.Chain.{Instruction, ok, err}
use girasolbot.Position.Tick.{check_position}
use girasolbot.Raydium.V4
use girasolbot.Raydium.V4.{AmmInfo}
use girasolbot.Raydium.Cpmm.{CpmmPoolState}
use girasolbot.Position.State.{SellOrder, Holding, mirror_sell}
use girasolbot.Position.Ops.{has_position, update_after_sell}
use girasolbot.SellExecutor.{
  Config, Answers, Executor, abandoned, outcome_of, execute_order, run_sell_executor,
}
use girasolbot.SellExecutor.Outcomes.{execute_order-unsent, run_sell_executor-once}
use girasolbot.SellExecutor.MirrorSell.{mirror_order_for, mirror_order_for-bounds}
use girasolbot.Tests.Data.{monitor, holding, chain, wallet, num, amm, settings, doubled, world}

abbrev config : Config
config = record { is_real = true; keypair = some wallet; has_swqos = true; slippage_bps = 500 }

abbrev executor : Executor fixed
executor = record {
  monitor = monitor;
  stats = record { total_sells = 0; total_sell_failures = 0; realized = [] };
}

abbrev order : SellOrder fixed
order = record {
  mint = "mint";
  amount = 1000;
  current_price = num 4;
  decimals = 6;
  reason = mirror_sell;
  level_index = 0;
  is_final = true;
  dex = "pumpfun";
  amm_pool = none;
  extra_pump_account = none;
  pumpswap_accounts = none;
}

abbrev answers : Answers fixed
answers = record {
  signed = λ is. true;
  swqos_sent = false;
  http_sent = true;
  http_json = true;
  sell_token = some (some (num 3));
}

abbrev decode_amm : Bytes → Option AmmInfo
decode_amm bs = none

abbrev decode_pool : Bytes → Option CpmmPoolState
decode_pool bs = none

-- A sell at Raydium whose position has no pool is given up.
raydium_abandoned :
    outcome_of fixed chain decode_amm decode_pool config answers monitor
      (record order { dex = "raydium_v4" })
    ≡ abandoned true
unfolding outcome_of Dict.get
raydium_abandoned = refl

abbrev pending : Holding fixed
pending = record holding { pending_sell = true }

abbrev waiting : Executor fixed
waiting = record {
  monitor = record monitor { positions = ("mint", pending) ∷ [] };
  stats = record { total_sells = 0; total_sell_failures = 0; realized = [] };
}

abbrev raydium_order : SellOrder fixed
raydium_order = record order { dex = "raydium_v4"; amm_pool = some "amm" }

abbrev decode_some : Bytes → Option AmmInfo
decode_some bs = some amm

abbrev instructions : List Instruction
instructions =
    elim (V4.build_sell_instructions fixed chain decode_some "amm" "mint" 1000 500 wallet) [
      | ok is ↦ is
      | err e ↦ []
    ]

built :
    V4.build_sell_instructions fixed chain decode_some "amm" "mint" 1000 500 wallet
    ≡ ok instructions
unfolding V4.build_sell_instructions bytes_eq chars
built = refl

held : Dict.get waiting.monitor.positions "mint" ≡ some pending
unfolding Dict.get
held = refl

execute_order-unsent_example :
    (execute_order fixed chain decode_some decode_pool config answers waiting raydium_order
      ≡ waiting)
    × (check_position fixed settings doubled "mint" pending world ≡ world)
execute_order-unsent_example =
    execute_order-unsent fixed chain decode_some decode_pool config answers waiting raydium_order
      pending "amm" wallet instructions settings doubled world held refl refl refl refl refl built
      refl refl

run_sell_executor-once_example :
    run_sell_executor fixed chain decode_amm decode_pool config executor
      ((answers, order) ∷ (answers, order) ∷ [])
    ≡ execute_order fixed chain decode_amm decode_pool config answers executor order
unfolding outcome_of Dict.get
run_sell_executor-once_example =
    run_sell_executor-once fixed chain decode_amm decode_pool config answers executor order holding
      (some (num 3)) ((answers, order) ∷ []) refl (omega arith) refl (refl, tt)

mirror_order_for-bounds_example :
    (o : SellOrder fixed) × (mirror_order_for fixed monitor "mint" (some 10) ≡ some o)
    × (o.mint ≡ "mint")
    × (1 ≤ o.amount)
    × (o.amount ≤ 1000)
    × (o.is_final
        ≡ not (
            has_position fixed
              (update_after_sell fixed monitor "mint" o.amount o.reason o.level_index)
              "mint"))
unfolding Dict.get
mirror_order_for-bounds_example =
    mirror_order_for-bounds fixed monitor "mint" (some 10) holding refl (omega arith)
