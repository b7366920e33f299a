-- ===== src/Geyser.antt =====
-- src/geyser_listener.rs: the messages of the Geyser stream, the keys and the balances of a
-- transaction, and the scan of its instructions for the first buy and the first sell.
pub mod Pump
pub mod Swap
pub mod Stream
pub mod First
pub mod Agreement
use girasolbot.Prelude.{
  ℕ, ◌+◌, ◌-◌, Bool, true, false, Option, none, some, List, [], ◌∷◌, ◌++◌, String, Bytes, Pubkey,
  length, ltb, get_elem?, bytes_eq, if◌then◌else◌, is_some,
}
use girasolbot.Prelude.Options.{◌>>=◌, unwrap_or}
use mathlib.Core.Option
use girasolbot.Float.{Float}
use girasolbot.CopyEngine.Types.{
  DexType, pump_fun, pump_fun_amm, raydium_v4, raydium_cpmm, jupiter, unknown, SolDelta,
}
use girasolbot.CopyEngine.Fetch.{DetectedBuy, DetectedSell}
use girasolbot.Shreds.Parse.{key_position}

pub record ProgramIds : Type 0 where
  pub pump_fun : Pubkey
  pub pump_fun_amm : Pubkey
  pub raydium_v4 : Pubkey
  pub raydium_cpmm : Pubkey

pub record Instruction : Type 0 where
  pub program_id_index : ℕ
  pub accounts : List ℕ
  pub data_bytes : Bytes

-- `ui_amount` is the text of the amount, where there is one.
pub record TokenBalance : Type 0 where
  pub mint : String
  pub owner : String
  pub ui_amount : Option String

pub record TransactionStatusMeta : Type 0 where
  pub failed : Bool
  pub pre_balances : List ℕ
  pub post_balances : List ℕ
  -- The instructions of each group.
  pub inner_instructions : List (List Instruction)
  pub pre_token_balances : List TokenBalance
  pub post_token_balances : List TokenBalance
  pub loaded_writable_addresses : List Pubkey
  pub loaded_readonly_addresses : List Pubkey

pub record TransactionMessage : Type 0 where
  pub account_keys : List Pubkey
  pub instructions : List Instruction

pub record Transaction : Type 0 where
  pub message : Option TransactionMessage

pub record SubscribeUpdateTransactionInfo : Type 0 where
  pub signature : Bytes
  pub transaction : Option Transaction
  pub meta : Option TransactionStatusMeta

abbrev pub message_of : SubscribeUpdateTransactionInfo → Option TransactionMessage
message_of tx_info = tx_info.transaction >>= λ t. t.message

unfoldable pub detect_dex : ProgramIds → List Pubkey → DexType
detect_dex ids [] = unknown "none"
detect_dex ids (key ∷ keys) =
    let later = detect_dex ids keys in
    if bytes_eq key ids.pump_fun
    then pump_fun
    else if bytes_eq key ids.pump_fun_amm
    then pump_fun_amm
    else if bytes_eq key ids.raydium_v4
    then raydium_v4
    else if bytes_eq key ids.raydium_cpmm
    then raydium_cpmm
    else later

unfoldable pub find_program_index : ProgramIds → List Pubkey → DexType → Option ℕ
unfolding key_position
find_program_index ids keys pump_fun = key_position 0 ids.pump_fun keys
find_program_index ids keys pump_fun_amm = key_position 0 ids.pump_fun_amm keys
find_program_index ids keys raydium_v4 = key_position 0 ids.raydium_v4 keys
find_program_index ids keys raydium_cpmm = key_position 0 ids.raydium_cpmm keys
find_program_index ids keys jupiter = none
find_program_index ids keys (unknown id) = none

-- The static keys, then the loaded addresses.
unfoldable pub build_account_keys : SubscribeUpdateTransactionInfo → Option (List Pubkey)
build_account_keys tx_info = do
  msg ← message_of tx_info
  meta ← tx_info.meta
  some (msg.account_keys ++ meta.loaded_writable_addresses ++ meta.loaded_readonly_addresses)

unfoldable pub find_target_index : List Pubkey → Pubkey → Option ℕ
unfolding key_position
find_target_index keys target = key_position 0 target keys

unfoldable pub inner_of : List (List Instruction) → List Instruction
inner_of [] = []
inner_of (group ∷ groups) = group ++ inner_of groups

-- The instructions of the message, then the inner ones.
unfoldable pub every_instruction :
    SubscribeUpdateTransactionInfo → TransactionMessage → List Instruction
unfolding inner_of
every_instruction tx_info msg =
    msg.instructions
    ++ elim tx_info.meta [ some meta ↦ inner_of meta.inner_instructions | none ↦ [] ]

module _ (F : Float) where
  open F use {F64, of_u64, fdiv}

  -- SOL received, then SOL spent.
  unfoldable pub compute_sol_delta : TransactionStatusMeta → ℕ → F64 × F64
  compute_sol_delta meta target_idx =
      let pre = unwrap_or (get_elem? meta.pre_balances target_idx) 0 in
      let post = unwrap_or (get_elem? meta.post_balances target_idx) 0 in
      if ltb post pre
      then (of_u64 0, fdiv (of_u64 (pre - post)) (of_u64 1000000000))
      else (fdiv (of_u64 (post - pre)) (of_u64 1000000000), of_u64 0)

  unfoldable pub sol_delta_of : SubscribeUpdateTransactionInfo → List Pubkey → Pubkey → SolDelta F
  unfolding compute_sol_delta find_target_index
  sol_delta_of tx_info all_keys target_bytes = do
    idx ← find_target_index all_keys target_bytes
    Option.map (λ meta. compute_sol_delta meta idx) tx_info.meta

  -- What is found and what is sent to the two channels.
  pub record Scan : Type 0 where
    pub found_buy : Bool
    pub found_sell : Bool
    pub buys : List (DetectedBuy F)
    pub sells : List (DetectedSell F)

  abbrev pub nothing_found : Scan
  nothing_found = record { found_buy = false; found_sell = false; buys = []; sells = [] }

  unfoldable pub take_buy : Option (DetectedBuy F) → Scan → Scan
  take_buy none s = s
  take_buy (some b) s = if s.found_buy then s else record {
    found_buy = true;
    found_sell = s.found_sell;
    buys = s.buys ++ b ∷ [];
    sells = s.sells;
  }

  -- `mirrors` says whether there is a channel of sells.
  unfoldable pub take_sell : Bool → Option (DetectedSell F) → Scan → Scan
  take_sell mirrors none s = s
  take_sell mirrors (some x) s = if s.found_sell then s else record {
    found_buy = s.found_buy;
    found_sell = true;
    buys = s.buys;
    sells = if mirrors then s.sells ++ x ∷ [] else s.sells;
  }

  unfoldable pub scan :
      Bool
      → (Instruction → Option (DetectedBuy F) × Option (DetectedSell F))
      → List Instruction
      → Scan
      → Scan
  unfolding take_buy take_sell
  scan mirrors check [] s = s
  scan mirrors check (ix ∷ ixs) s =
      scan mirrors check ixs (take_sell mirrors (check ix).1 (take_buy (check ix).0 s))
