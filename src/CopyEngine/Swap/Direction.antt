-- ===== src/CopyEngine/Swap/Direction.antt =====
-- In which direction a Raydium swap of the target went.
use girasolbot.Prelude.{
  ℕ, ◌-◌, ◌<◌, ◌≡◌, refl, Bool, true, false, not, Option, none, some, List, [], ◌∷◌, ◌++◌, String,
  ◌==◌, any, arith,
}
use girasolbot.Prelude.Dict.{Dict}
use girasolbot.Float.{Float}
use girasolbot.Json.{Json}
use girasolbot.CopyEngine.Types.{SolDelta, position}
use girasolbot.CopyEngine.Balances.{balances_of}
use girasolbot.CopyEngine.Swap.{
  RaydiumSwapResult, bought, sold, mints_of, amount_in, first_change, try_parse_raydium_swap,
}

abbrev pub changed : Dict ℕ → Dict ℕ → String → Bool
changed pre_map post_map mint = not (amount_in pre_map mint == amount_in post_map mint)

module _ (F : Float) where
  -- A buy is of a mint of which the target holds more afterwards, and a sell of one of which it holds
  -- less, with the difference as the amount.
  abbrev pub IsTradeOf : Dict ℕ → Dict ℕ → RaydiumSwapResult F → Type 0
  IsTradeOf pre_map post_map (bought b) =
      (amount_in pre_map b.mint < amount_in post_map b.mint)
      × (b.token_amount ≡ some (amount_in post_map b.mint - amount_in pre_map b.mint))
  IsTradeOf pre_map post_map (sold s) =
      (amount_in post_map s.mint < amount_in pre_map s.mint)
      × (s.token_amount ≡ some (amount_in pre_map s.mint - amount_in post_map s.mint))

  -- A trade is found exactly where a change is looked for, and is a trade of the maps.
  abbrev pub IsFound : Dict ℕ → Dict ℕ → Bool → Option (RaydiumSwapResult F) → Type 0
  IsFound pre_map post_map b none = b ≡ false
  IsFound pre_map post_map b (some r) = (b ≡ true) × IsTradeOf pre_map post_map r

  first_change-IsFound :
      (pre_map post_map : Dict ℕ) (d : SolDelta F) (pool : Option String) (mints : List String)
      → IsFound pre_map post_map
          (any (changed pre_map post_map) mints)
          (first_change F pre_map post_map d pool mints)
  unfolding first_change
  first_change-IsFound pre_map post_map d pool [] = refl
  first_change-IsFound pre_map post_map d pool (mint ∷ mints) =
      let later = first_change-IsFound pre_map post_map d pool mints in ground arith

  -- For a transaction with the target among its keys and both lists of token balances, whatever the
  -- order of the hash set: a swap is found exactly when some mint of the two maps of balances has
  -- another amount in the second than in the first, and then it is a buy of a mint of which there is
  -- more, or a sell of one of which there is less, of just the difference. This follows from the
  -- token balances alone, whether SOL was lost or gained.
  pub try_parse_raydium_swap-IsFound :
      (j : Json) (set_order : List String → List String) (result : j.Value)
      (account_keys : List String) (target_wallet : String) (d : SolDelta F) (pool : Option String)
      (idx : ℕ) (pre_map post_map : Dict ℕ)
      → ((p : String → Bool) (xs : List String) → any p (set_order xs) ≡ any p xs)
      → position target_wallet account_keys ≡ some idx
      → balances_of j target_wallet account_keys result "preTokenBalances" ≡ some pre_map
      → balances_of j target_wallet account_keys result "postTokenBalances" ≡ some post_map
      → IsFound pre_map post_map
          (any (changed pre_map post_map) (mints_of pre_map ++ mints_of post_map))
          (try_parse_raydium_swap F j set_order result account_keys target_wallet d pool)
  unfolding try_parse_raydium_swap
  try_parse_raydium_swap-IsFound j set_order result account_keys target_wallet d pool idx pre_map
        post_map same_elements at_idx before after =
      let mints = mints_of pre_map ++ mints_of post_map in
      rw (at_idx, before, after, ← same_elements (changed pre_map post_map) mints)
        (first_change-IsFound pre_map post_map d pool (set_order mints))
