-- ===== src/Geyser/Pump.antt =====
-- src/geyser_listener.rs: the trades on pump.fun and on PumpSwap in one transaction.
use girasolbot.Prelude.{
  ℕ, ◌+◌, Bool, not, ◌||◌, ◌&&◌, Option, none, some, List, String, Pubkey, length, ltb, leb, ◌==◌,
  take, get_elem?, filter_map, map, bytes_eq, slice, from_le_bytes, if◌then◌else◌,
}
use girasolbot.Prelude.Options.{◌>>=◌, ◌or_else◌, unwrap_or}
use mathlib.Core.Option
use girasolbot.Float.{Float}
use girasolbot.CopyEngine.Types.{
  buy_discriminator, sell_discriminator, u64_at, pump_fun, pump_fun_amm, SolDelta,
}
use girasolbot.CopyEngine.Fetch.{DetectedBuy, DetectedSell}
use girasolbot.CopyEngine.Swap.{positive, received_of, spent_of}
use girasolbot.Geyser.{
  ProgramIds, Instruction, SubscribeUpdateTransactionInfo, message_of, find_program_index,
  every_instruction, sol_delta_of, Scan, nothing_found, scan,
}

-- `bs58::encode` of a key, the text of the signature and the slot.
module _ (F : Float) (encode : Pubkey → String) (sig : String) (slot : ℕ) where
  open F use {of_u64, fdiv}

  unfoldable pub lamports : ℕ → F.F64
  lamports n = fdiv (of_u64 n) (of_u64 1000000000)

  unfoldable pub names_of : List Pubkey → List ℕ → List String
  names_of all_keys accounts = map encode (filter_map (get_elem? all_keys) accounts)

  unfoldable pub pump_buy :
      List Pubkey → SolDelta F → Instruction → Option Pubkey → Option (DetectedBuy F)
  unfolding lamports names_of u64_at positive
  pump_buy all_keys sol_delta ix none = none
  pump_buy all_keys sol_delta ix (some mint) =
      let pump_accounts = names_of all_keys ix.accounts in
      some (record {
        signature = sig;
        mint = encode mint;
        dex = pump_fun;
        sol_amount =
            positive F (spent_of F sol_delta) or_else Option.map lamports (u64_at ix.data_bytes 16);
        token_amount = u64_at ix.data_bytes 8;
        slot = some slot;
        amm_pool = none;
        target_pump_accounts = if ltb 16 (length pump_accounts) then some pump_accounts else none;
      })

  unfoldable pub pump_sell : SolDelta F → Instruction → Option Pubkey → Option (DetectedSell F)
  unfolding u64_at positive
  pump_sell sol_delta ix none = none
  pump_sell sol_delta ix (some mint) = some (record {
    signature = sig;
    mint = encode mint;
    dex = pump_fun;
    sol_received = positive F (received_of F sol_delta);
    token_amount = u64_at ix.data_bytes 8;
    slot = some slot;
    amm_pool = none;
  })

  -- The closure of `parse_pump_from_proto`, with the message that is made of its result.
  unfoldable pub check_instruction :
      List Pubkey → SolDelta F → ℕ → Instruction → Option (DetectedBuy F) × Option (DetectedSell F)
  unfolding pump_buy pump_sell
  check_instruction all_keys sol_delta pump_idx ix =
      let mint = get_elem? ix.accounts 2 >>= get_elem? all_keys in
      if not (ix.program_id_index == pump_idx) || ltb (length ix.data_bytes) 8
      then (none, none)
      else if bytes_eq (take 8 ix.data_bytes) buy_discriminator && leb 3 (length ix.accounts)
      then (pump_buy all_keys sol_delta ix mint, none)
      else if bytes_eq (take 8 ix.data_bytes) sell_discriminator && leb 3 (length ix.accounts)
      then (none, pump_sell sol_delta ix mint)
      else (none, none)

  unfoldable pub parse_pump_from_proto :
      ProgramIds → Bool → SubscribeUpdateTransactionInfo → List Pubkey → Pubkey → Scan F
  unfolding check_instruction find_program_index sol_delta_of every_instruction scan
  parse_pump_from_proto ids mirrors tx_info all_keys target_bytes =
      unwrap_or
        (do
          pump_idx ← find_program_index ids all_keys pump_fun
          msg ← message_of tx_info
          some (
              scan F mirrors
                (check_instruction all_keys (sol_delta_of F tx_info all_keys target_bytes) pump_idx)
                (every_instruction tx_info msg) (nothing_found F)))
        (nothing_found F)

  -- The eight bytes of the data from `offset`.
  abbrev amount_at : Instruction → ℕ → ℕ
  amount_at ix offset = from_le_bytes (slice ix.data_bytes offset (offset + 8))

  pumpswap_trade :
      List Pubkey
      → SolDelta F
      → Instruction
      → Bool
      → Option Pubkey
      → Option (DetectedBuy F) × Option (DetectedSell F)
  unfolding lamports names_of positive
  pumpswap_trade all_keys sol_delta ix is_buy none = (none, none)
  pumpswap_trade all_keys sol_delta ix is_buy (some mint) =
      let pumpswap_accounts = names_of all_keys ix.accounts in
      let pool =
        unwrap_or (Option.map encode (get_elem? ix.accounts 0 >>= get_elem? all_keys)) "" in
      if is_buy
      then (
        some (record {
          signature = sig;
          mint = encode mint;
          dex = pump_fun_amm;
          sol_amount = positive F (spent_of F sol_delta) or_else some (lamports (amount_at ix 16));
          token_amount = some (amount_at ix 8);
          slot = some slot;
          amm_pool = some pool;
          target_pump_accounts =
              if leb 17 (length pumpswap_accounts) then some pumpswap_accounts else none;
        }),
        none,
      )
      else (
        none,
        some (record {
          signature = sig;
          mint = encode mint;
          dex = pump_fun_amm;
          sol_received =
              positive F (received_of F sol_delta) or_else some (lamports (amount_at ix 16));
          token_amount = some (amount_at ix 8);
          slot = some slot;
          amm_pool = none;
        }),
      )

  -- The closure of `parse_pumpswap_from_proto`, with the message that is made of its result.
  unfoldable pub check_pumpswap_ix :
      List Pubkey → SolDelta F → ℕ → Instruction → Option (DetectedBuy F) × Option (DetectedSell F)
  unfolding pumpswap_trade
  check_pumpswap_ix all_keys sol_delta amm_idx ix =
      let disc = take 8 ix.data_bytes in
      let is_buy = bytes_eq disc buy_discriminator in
      let is_sell = bytes_eq disc sell_discriminator in
      let mint = get_elem? ix.accounts 3 >>= get_elem? all_keys in
      if not (ix.program_id_index == amm_idx) || ltb (length ix.data_bytes) 24
      then (none, none)
      else if ltb (length ix.accounts) 17
      then (none, none)
      else if not is_buy && not is_sell
      then (none, none)
      else pumpswap_trade all_keys sol_delta ix is_buy mint

  unfoldable pub parse_pumpswap_from_proto :
      ProgramIds → Bool → SubscribeUpdateTransactionInfo → List Pubkey → Pubkey → Scan F
  unfolding check_pumpswap_ix find_program_index sol_delta_of every_instruction scan
  parse_pumpswap_from_proto ids mirrors tx_info all_keys target_bytes =
      unwrap_or
        (do
          amm_idx ← find_program_index ids all_keys pump_fun_amm
          msg ← message_of tx_info
          some (
              scan F mirrors
                (check_pumpswap_ix all_keys (sol_delta_of F tx_info all_keys target_bytes) amm_idx)
                (every_instruction tx_info msg) (nothing_found F)))
        (nothing_found F)
