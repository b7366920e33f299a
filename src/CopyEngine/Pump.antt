-- ===== src/CopyEngine/Pump.antt =====
-- src/copy_engine.rs: one instruction of the pump.fun program. No path of these two functions
-- returns an error, so their `Result<Option<_>>` is an option here.
pub mod Encoded
use girasolbot.Prelude.{
  ℕ, Bool, not, ◌||◌, Option, none, some, List, String, Bytes, length, ltb, ◌==◌, take, get_elem?,
  filter_map, bytes_eq, if◌then◌else◌,
}
use girasolbot.Prelude.Options.{◌>>=◌}
use mathlib.Core.Option
use girasolbot.Float.{Float}
use girasolbot.Json.{Json}
use girasolbot.CopyEngine.Types.{
  Decoders, ParsedBuy, ParsedSell, buy_discriminator, sell_discriminator, u64_at, program_index,
  account_indices,
}

module _ (F : Float) (j : Json) (dec : Decoders j) where
  open F use {of_u64, fdiv}

  -- The data of an instruction of the program whose first eight bytes are as given.
  unfoldable pub pump_data : Bytes → j.Value → ℕ → Option Bytes
  pump_data discriminator instr pump_program_idx =
      if program_index j instr == pump_program_idx
      then (do
        data_value ← j.get instr "data"
        data_str ← j.as_str data_value
        data_bytes ← dec.bs58 data_str
        if ltb (length data_bytes) 8 || not (bytes_eq (take 8 data_bytes) discriminator)
            then none
            else some data_bytes)
      else none

  -- The third account, where it is a key of the transaction.
  unfoldable pub mint_of : List ℕ → List String → Option String
  mint_of accounts account_keys = if ltb (length accounts) 3 then none else (do
    mint_key_idx ← get_elem? accounts 2
    mint ← get_elem? account_keys mint_key_idx
    if dec.is_pubkey mint then some mint else none)

  unfoldable pub kept_accounts : List ℕ → List String → Option (List String)
  kept_accounts accounts account_keys =
      let names = filter_map (get_elem? account_keys) accounts in
      if ltb 16 (length names) then some names else none

  unfoldable pub try_parse_pump_buy_instruction : j.Value → ℕ → List String → Option (ParsedBuy F)
  unfolding pump_data mint_of kept_accounts account_indices u64_at
  try_parse_pump_buy_instruction instr pump_program_idx account_keys = do
    data_bytes ← pump_data buy_discriminator instr pump_program_idx
    let accounts = account_indices j instr in
        do
          mint ← mint_of accounts account_keys
          some (record {
            mint = mint;
            sol_amount =
                Option.map (λ cost. fdiv (of_u64 cost) (of_u64 1000000000)) (u64_at data_bytes 16);
            token_amount = u64_at data_bytes 8;
            amm_pool = none;
            target_pump_accounts = kept_accounts accounts account_keys;
          })

  unfoldable pub try_parse_pump_sell_instruction : j.Value → ℕ → List String → Option (ParsedSell F)
  unfolding pump_data mint_of account_indices u64_at
  try_parse_pump_sell_instruction instr pump_program_idx account_keys = do
    data_bytes ← pump_data sell_discriminator instr pump_program_idx
    mint ← mint_of (account_indices j instr) account_keys
    some (record {
      mint = mint;
      token_amount = u64_at data_bytes 8;
      sol_received = none;
      amm_pool = none;
    })
