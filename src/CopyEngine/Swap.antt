-- ===== src/CopyEngine/Swap.antt =====
-- src/copy_engine.rs: `try_parse_raydium_swap`. The order in which a hash set yields its elements is
-- a parameter.
pub mod Direction
use mathlib.Core.Option
use girasolbot.Prelude.{ℕ, ◌-◌, Option, none, some, List, [], ◌∷◌, ◌++◌, String, ltb, if◌then◌else◌}
use girasolbot.Prelude.Options.{◌>>=◌, unwrap_or, filter}
use girasolbot.Prelude.Dict
use girasolbot.Prelude.Dict.{Dict}
use girasolbot.Float.{Float}
use girasolbot.Json.{Json}
use girasolbot.CopyEngine.Types.{ParsedBuy, ParsedSell, SolDelta, position}
use girasolbot.CopyEngine.Balances.{balances_of}

pub data RaydiumSwapResult (F : Float) : Type 0 where
  bought : ParsedBuy F → RaydiumSwapResult F
  sold : ParsedSell F → RaydiumSwapResult F

unfoldable pub mints_of : Dict ℕ → List String
mints_of [] = []
mints_of ((mint, n) ∷ m) = mint ∷ mints_of m

abbrev pub amount_in : Dict ℕ → String → ℕ
amount_in m mint = unwrap_or (Dict.get m mint) 0

module _ (F : Float) where
  open F use {F64, of_u64, flt}

  unfoldable pub positive : Option F64 → Option F64
  positive amount = filter (λ s. flt (of_u64 0) s) amount

  abbrev pub received_of : SolDelta F → Option F64
  received_of none = none
  received_of (some (received, spent)) = some received

  abbrev pub spent_of : SolDelta F → Option F64
  spent_of none = none
  spent_of (some (received, spent)) = some spent

  -- The first mint of which the target holds another amount afterwards.
  unfoldable pub first_change :
      Dict ℕ → Dict ℕ → SolDelta F → Option String → List String → Option (RaydiumSwapResult F)
  unfolding positive
  first_change pre_map post_map sol_delta amm_pool [] = none
  first_change pre_map post_map sol_delta amm_pool (mint ∷ mints) =
      let later = first_change pre_map post_map sol_delta amm_pool mints in
      let pre_amt = amount_in pre_map mint in
      let post_amt = amount_in post_map mint in
      if ltb pre_amt post_amt
      then some (
          bought (record {
            mint = mint;
            sol_amount = positive (spent_of sol_delta);
            token_amount = some (post_amt - pre_amt);
            amm_pool = amm_pool;
            target_pump_accounts = none;
          }))
      else if ltb post_amt pre_amt
      then some (
          sold (record {
            mint = mint;
            token_amount = some (pre_amt - post_amt);
            sol_received = positive (received_of sol_delta);
            amm_pool = amm_pool;
          }))
      else later

  module _ (j : Json) (set_order : List String → List String) where
    unfoldable pub try_parse_raydium_swap :
        j.Value → List String → String → SolDelta F → Option String → Option (RaydiumSwapResult F)
    unfolding first_change balances_of mints_of
    try_parse_raydium_swap result account_keys target_wallet sol_delta amm_pool = do
      target_idx ← position target_wallet account_keys
      pre_map ← balances_of j target_wallet account_keys result "preTokenBalances"
      post_map ← balances_of j target_wallet account_keys result "postTokenBalances"
      first_change pre_map post_map sol_delta amm_pool
          (set_order (mints_of pre_map ++ mints_of post_map))
