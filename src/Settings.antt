-- ===== src/Settings.antt =====
-- src/settings.rs: the fields of trading and screening, and `Settings::validate`.
-- The checks of the program id, the keypairs and the URLs call other crates and are parameters.
pub mod Validated
use girasolbot.Prelude.{
  ℕ, ◌+◌, Bool, false, not, ◌&&◌, ◌||◌, Option, none, some, List, [], ◌∷◌, String, length, ltb,
  ◌==◌, str_eq, if◌then◌else◌, ℤ, pos, negsuc,
}
use girasolbot.Float.{Float}

-- `TpLevel` and `SlLevel`, which have the same fields.
pub record Level (F : Float) : Type 0 where
  pub trigger_percent : F.F64
  pub sell_percent : F.F64

pub record Settings (F : Float) : Type 0 where
  pub tp_levels : List (Level F)
  pub sl_levels : List (Level F)
  pub timeout_secs : ℤ
  pub cache_capacity : ℕ
  pub buy_amount : F.F64
  pub max_holded_coins : ℕ
  pub min_tokens_threshold : ℕ
  pub max_sol_per_token : F.F64
  pub slippage_bps : ℕ
  pub enable_safer_sniping : Bool
  pub min_liquidity_sol : F.F64
  pub max_liquidity_sol : F.F64
  pub reject_mint_authority : Bool
  pub reject_freeze_authority : Bool
  pub reject_mutable_metadata : Bool
  pub reject_transfer_fee : Bool
  pub max_transfer_fee_bps : ℕ
  pub trailing_stop_bps : ℕ
  pub rug_detector_enabled : Bool
  pub rug_price_drop_bps : ℕ
  pub rug_liquidity_drop_bps : ℕ
  pub rug_window_secs : ℕ
  pub copy_mode : String
  pub replay_size_mode : String
  pub pump_fun_program : String
  pub mirror_percent : F.F64
  pub allow_accumulate : Bool
  pub mirror_sells : Bool
  pub max_position_sol : F.F64

-- Why settings are refused, in the order of the checks.
pub data Invalid : Type 0 where
  no_tp_level too_many_tp_levels tp_sum no_sl_level too_many_sl_levels sl_sum : Invalid
  tp_trigger tp_sell sl_trigger sl_sell : ℕ → Invalid
  buy_amount timeout_secs cache_capacity max_holded_coins liquidity_range : Invalid
  copy_mode replay_size_mode pump_fun_program keypairs urls : Invalid

module _ (F : Float) where
  open F use {F64, of_u64, fadd, epsilon, flt, fle}

  -- The loop over the levels: `inl` is the error that it returns, `inr` the sum of `sell_percent`.
  abbrev pub Checked : Type 0
  Checked = Option Invalid × F64

  unfoldable pub check_levels :
      (F64 → Bool) → (ℕ → Invalid) → (ℕ → Invalid) → ℕ → List (Level F) → F64 → Checked
  check_levels bad_trigger on_trigger on_sell i [] sum = (none, sum)
  check_levels bad_trigger on_trigger on_sell i (level ∷ rest) sum =
      let later =
        check_levels bad_trigger on_trigger on_sell (i + 1) rest (fadd sum level.sell_percent) in
      if bad_trigger level.trigger_percent
      then (some (on_trigger i), sum)
      else if fle level.sell_percent (of_u64 0) || flt (of_u64 100) level.sell_percent
      then (some (on_sell i), sum)
      else later

  abbrev pub bad_tp : F64 → Bool
  bad_tp t = fle t (of_u64 0)

  abbrev pub bad_sl : F64 → Bool
  bad_sl t = fle (of_u64 0) t

  -- The checks stand in the order of the source; the first that fails is returned.
  first_error : List (Option Invalid) → Option Invalid
  first_error [] = none
  first_error (some e ∷ rest) = some e
  first_error (none ∷ rest) = first_error rest

  refuse_if : Bool → Invalid → Option Invalid
  refuse_if b e = if b then some e else none

  validate_levels : Checked → Invalid → Option Invalid
  validate_levels (some e, sum) too_much = some e
  validate_levels (none, sum) too_much = refuse_if (flt (fadd (of_u64 100) epsilon) sum) too_much

  is_positive : ℤ → Bool
  is_positive (pos n) = ltb 0 n
  is_positive (negsuc n) = false

  is_copy_mode : String → Bool
  is_copy_mode mode = str_eq mode "mirror" || str_eq mode "replay"

  is_size_mode : String → Bool
  is_size_mode mode = str_eq mode "proportional" || str_eq mode "one_to_one"

  -- The last arguments are the results of `Pubkey::from_str` on the program id,
  -- `validate_keypairs` and `validate_urls`.
  checks : Settings F → Bool → Bool → Bool → List (Option Invalid)
  unfolding refuse_if validate_levels is_positive is_copy_mode is_size_mode
  checks s program_ok keypairs_ok urls_ok =
      refuse_if (length s.tp_levels == 0) no_tp_level
      ∷ refuse_if (ltb 4 (length s.tp_levels)) too_many_tp_levels
      ∷ validate_levels (check_levels bad_tp tp_trigger tp_sell 0 s.tp_levels (of_u64 0)) tp_sum
      ∷ refuse_if (length s.sl_levels == 0) no_sl_level
      ∷ refuse_if (ltb 4 (length s.sl_levels)) too_many_sl_levels
      ∷ validate_levels (check_levels bad_sl sl_trigger sl_sell 0 s.sl_levels (of_u64 0)) sl_sum
      ∷ refuse_if (fle s.buy_amount (of_u64 0)) Invalid.buy_amount
      ∷ refuse_if (not (is_positive s.timeout_secs)) Invalid.timeout_secs
      ∷ refuse_if (s.cache_capacity == 0) Invalid.cache_capacity
      ∷ refuse_if (s.max_holded_coins == 0) Invalid.max_holded_coins
      ∷ refuse_if (flt s.max_liquidity_sol s.min_liquidity_sol) liquidity_range
      ∷ refuse_if (not (is_copy_mode s.copy_mode)) Invalid.copy_mode
      ∷ refuse_if (not (is_size_mode s.replay_size_mode)) Invalid.replay_size_mode
      ∷ refuse_if (not program_ok) Invalid.pump_fun_program
      ∷ refuse_if (not keypairs_ok) keypairs
      ∷ refuse_if (not urls_ok) urls
      ∷ []

  -- `none` is `Ok(())`.
  unfoldable pub validate : Settings F → Bool → Bool → Bool → Option Invalid
  unfolding first_error checks
  validate s program_ok keypairs_ok urls_ok = first_error (checks s program_ok keypairs_ok urls_ok)
