-- ===== src/Geyser/Swap.antt =====
-- src/geyser_listener.rs: a swap on Raydium, by the token balances. The order in which a hash set
-- yields its elements is a parameter.
use girasolbot.Prelude.{
  ℕ, ◌-◌, Bool, not, ◌||◌, ◌&&◌, Option, none, some, List, [], ◌∷◌, ◌++◌, String, str_eq, Pubkey,
  ltb, ◌==◌, get_elem?, if◌then◌else◌,
}
use girasolbot.Prelude.Options.{◌>>=◌, unwrap_or}
use girasolbot.Prelude.Dict
use girasolbot.Prelude.Dict.{Dict}
use girasolbot.Float.{Float}
use girasolbot.CopyEngine.Types.{
  DexType, pump_fun, pump_fun_amm, raydium_v4, raydium_cpmm, jupiter, unknown, wsol_mint,
}
use girasolbot.CopyEngine.Balances.{parse_u64}
use girasolbot.CopyEngine.Fetch.{DetectedBuy, DetectedSell}
use girasolbot.CopyEngine.Swap.{mints_of, amount_in}
use girasolbot.Shreds.Parse.{key_position}
use girasolbot.Geyser.{
  ProgramIds, Instruction, TokenBalance, SubscribeUpdateTransactionInfo, message_of,
  find_target_index, compute_sol_delta,
}

unfoldable pub raydium_program_bytes : ProgramIds → DexType → Option Pubkey
raydium_program_bytes ids pump_fun = none
raydium_program_bytes ids pump_fun_amm = none
raydium_program_bytes ids raydium_v4 = some ids.raydium_v4
raydium_program_bytes ids raydium_cpmm = some ids.raydium_cpmm
raydium_program_bytes ids jupiter = none
raydium_program_bytes ids (unknown id) = none

amount_of : TokenBalance → ℕ
unfolding parse_u64
amount_of entry = unwrap_or (entry.ui_amount >>= parse_u64) 0

-- The amounts of the target by mint; of two entries for one mint the later one counts.
unfoldable pub token_map : String → Dict ℕ → List TokenBalance → Dict ℕ
unfolding amount_of
token_map target_wallet m [] = m
token_map target_wallet m (entry ∷ rest) =
    token_map target_wallet
      (if not (str_eq entry.owner target_wallet) || str_eq entry.mint wsol_mint
        then m
        else Dict.insert m entry.mint (amount_of entry))
      rest

module _ (F : Float) (encode : Pubkey → String) (set_order : List String → List String) where
  open F use {F64, of_u64, flt}

  pool_at : List Pubkey → ℕ → List Instruction → Option String
  pool_at all_keys program_idx [] = none
  pool_at all_keys program_idx (ix ∷ ixs) =
      let later = pool_at all_keys program_idx ixs in
      if ix.program_id_index == program_idx
      then elim (get_elem? ix.accounts 1 >>= get_elem? all_keys) [
        | some amm ↦ some (encode amm)
        | none ↦ later
      ]
      else later

  -- The second account of the first instruction of the program that has one.
  unfoldable pub extract_amm_pool_from_proto :
      SubscribeUpdateTransactionInfo → List Pubkey → Pubkey → Option String
  unfolding pool_at key_position
  extract_amm_pool_from_proto tx_info all_keys raydium_program = do
    msg ← message_of tx_info
    program_idx ← key_position 0 raydium_program all_keys
    pool_at all_keys program_idx msg.instructions

  -- The first mint whose balance changed the other way than the SOL did.
  unfoldable pub first_swap :
      (String × ℕ × DexType)
      → Bool
      → Option String
      → Dict ℕ
      → Dict ℕ
      → F64 × F64
      → List String
      → Option (DetectedBuy F) × Option (DetectedSell F)
  first_swap (sig, slot, dex) mirrors amm_pool pre_map post_map (sol_received, sol_spent) [] =
      (none, none)
  first_swap (sig, slot, dex) mirrors amm_pool pre_map post_map (sol_received, sol_spent)
        (mint ∷ mints) =
      let later =
        first_swap (sig, slot, dex) mirrors amm_pool pre_map post_map (sol_received, sol_spent)
          mints in
      let pre_amt = amount_in pre_map mint in
      let post_amt = amount_in post_map mint in
      if ltb pre_amt post_amt && flt (of_u64 0) sol_spent
      then (
        some (record {
          signature = sig;
          mint = mint;
          dex = dex;
          sol_amount = some sol_spent;
          token_amount = some (post_amt - pre_amt);
          slot = some slot;
          amm_pool = amm_pool;
          target_pump_accounts = none;
        }),
        none,
      )
      else if ltb post_amt pre_amt && flt (of_u64 0) sol_received
      then (
        none,
        (if mirrors
            then some (record {
              signature = sig;
              mint = mint;
              dex = dex;
              sol_received = some sol_received;
              token_amount = some (pre_amt - post_amt);
              slot = some slot;
              amm_pool = amm_pool;
            })
            else none),
      )
      else later

  unfoldable pub swap_between :
      (String × ℕ × DexType)
      → Bool
      → Dict ℕ
      → Dict ℕ
      → Option String
      → F64 × F64
      → Option (DetectedBuy F) × Option (DetectedSell F)
  unfolding first_swap mints_of
  swap_between tx mirrors pre_map post_map amm_pool sol_delta =
      first_swap tx mirrors amm_pool pre_map post_map sol_delta
        (set_order (mints_of pre_map ++ mints_of post_map))

  -- What is sent to the channels of buys and sells.
  unfoldable pub parse_raydium_from_proto :
      ProgramIds
      → Bool
      → SubscribeUpdateTransactionInfo
      → List Pubkey
      → Pubkey
      → String
      → ℕ
      → DexType
      → Option (DetectedBuy F) × Option (DetectedSell F)
  unfolding raydium_program_bytes extract_amm_pool_from_proto token_map swap_between
      compute_sol_delta find_target_index
  parse_raydium_from_proto ids mirrors tx_info all_keys target_bytes sig slot dex =
      unwrap_or
        (do
          meta ← tx_info.meta
          target_idx ← find_target_index all_keys target_bytes
          program ← raydium_program_bytes ids dex
          some (
              swap_between (sig, slot, dex) mirrors
                (token_map (encode target_bytes) [] meta.pre_token_balances)
                (token_map (encode target_bytes) [] meta.post_token_balances)
                (extract_amm_pool_from_proto tx_info all_keys program)
                (compute_sol_delta F meta target_idx)))
        (none, none)
