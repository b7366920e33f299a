-- ===== src/Tests/Data.antt =====
-- The data of the tests: prices in the fixed-point floats, one position, and a chain that answers.
use girasolbot.Prelude.{
  ℕ, true, false, none, [], ◌∷◌, str_eq, if◌then◌else◌, pos, Pubkey, replicate,
}
use girasolbot.Float.Fixed.{fixed, Fixed}
use girasolbot.Settings.{Settings}
use girasolbot.Position.State.{Holding, PositionMonitor}
use girasolbot.Position.Orders.{Quote, World, ok}
use girasolbot.Chain.{Chain, Instruction, Result}
use girasolbot.Chain
use girasolbot.Raydium.V4.{AmmInfo, wsol_mint_id}
use girasolbot.Raydium.Cpmm.{CpmmPoolState}

abbrev pub num : ℕ → Fixed
num n = fixed.of_u64 n

abbrev pub settings : Settings fixed
settings = record {
  tp_levels = record { trigger_percent = num 50; sell_percent = num 60 } ∷ [];
  sl_levels = record { trigger_percent = fixed.fneg (num 20); sell_percent = num 100 } ∷ [];
  timeout_secs = pos 30;
  cache_capacity = 10;
  buy_amount = num 1;
  max_holded_coins = 3;
  min_tokens_threshold = 1000;
  max_sol_per_token = num 1;
  slippage_bps = 500;
  enable_safer_sniping = true;
  min_liquidity_sol = num 1;
  max_liquidity_sol = num 100;
  reject_mint_authority = true;
  reject_freeze_authority = true;
  reject_mutable_metadata = false;
  reject_transfer_fee = true;
  max_transfer_fee_bps = 100;
  trailing_stop_bps = 0;
  rug_detector_enabled = false;
  rug_price_drop_bps = 5000;
  rug_liquidity_drop_bps = 5000;
  rug_window_secs = 60;
  copy_mode = "mirror";
  replay_size_mode = "proportional";
  pump_fun_program = "program";
  mirror_percent = num 10;
  allow_accumulate = false;
  mirror_sells = true;
  max_position_sol = num 10;
}

abbrev pub holding : Holding fixed
holding = record {
  amount = 1000;
  original_amount = 1000;
  buy_price = num 2;
  buy_time = 0;
  high_watermark = none;
  entry_liquidity_sol = none;
  decimals = 6;
  buy_cost_sol = none;
  triggered_tp_levels = [];
  triggered_sl_levels = [];
  migrated = false;
  pending_sell = false;
  dex = "pumpfun";
  amm_pool = none;
  target_buy_tokens = none;
  extra_pump_account = none;
  pumpswap_accounts = none;
  buy_signature = none;
}

abbrev pub monitor : PositionMonitor fixed
monitor = record {
  positions = ("mint", holding) ∷ [];
  pending_buys = [];
  file = ("mint", holding) ∷ [];
}

abbrev pub world : World fixed
world = record { positions = ("mint", holding) ∷ []; queue = []; is_open = true }

-- The price has doubled.
abbrev pub doubled : Quote fixed
doubled = record { price = ok (num 4); age_secs = pos 10; real_sol_reserves = none }

abbrev pub wsol : Pubkey
wsol = replicate 32 1

abbrev pub token : Pubkey
token = replicate 32 2

abbrev pub wallet : Pubkey
wallet = replicate 32 3

abbrev pub program : Instruction
program = record { program_id = wallet; accounts = []; data_bytes = [] }

-- Every account has 752 zero bytes, and every token account a million units.
abbrev pub chain : Chain
chain = record {
  from_str = λ s. if str_eq s wsol_mint_id then Chain.ok wsol else Chain.ok token;
  ata = λ owner mint. mint;
  ata_with_program = λ owner mint p. mint;
  create_ata = λ a b c d. program;
  transfer = λ a b n. program;
  sync_native = λ a b. Chain.ok program;
  close_account = λ a b c d. Chain.ok program;
  account_data = λ s. Chain.ok (replicate 752 0);
  token_balance = λ k. Chain.ok 1000000;
}

abbrev pub amm : AmmInfo
amm = record { token_coin = wsol; token_pc = token; coin_mint = wsol; pc_mint = token }

abbrev pub pool : CpmmPoolState
pool = record {
  amm_config = token;
  token0_vault = wsol;
  token1_vault = token;
  token0_mint = wsol;
  token1_mint = token;
  token0_program = wallet;
  token1_program = wallet;
  observation_key = token;
}
