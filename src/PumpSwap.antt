-- ===== src/PumpSwap.antt =====
-- src/pumpswap.rs: the builders of instructions that mirror those of the target.
pub mod Parser
pub mod Mirror
use girasolbot.Prelude.{
  ℕ, ◌+◌, ◌*◌, ◌/◌, Bool, not, ◌&&◌, ◌||◌, true, false, Option, none, some, List, [], ◌∷◌, ◌++◌,
  String, Bytes, Pubkey, length, ltb, leb, ◌==◌, take, drop, get_elem?, get_or, filter_map,
  bytes_eq, map, replicate, to_le_bytes, wrap64, if◌then◌else◌,
}
use girasolbot.Chain.{
  Chain, Result, ok, err, too_small, ◌>>=◌, AccountMeta, writable, readonly, Instruction,
}
use girasolbot.CopyEngine.Types.{buy_discriminator, sell_discriminator}

abbrev pub pumpswap_program : String
pumpswap_program = "pAMMBay6oceH9fJKBRHGP5D4bD4sWpmSwMn52FMfXEA"

abbrev pub ata_program : String
ata_program = "ATokenGPvbdGVxr1b2hvZbsiqW5xWH25efTNsLJA8knL"

abbrev pub system_program_id : Pubkey
system_program_id = replicate 32 0

pub record PumpSwapAccounts : Type 0 where
  pub accounts : List String
  pub pool : String
  pub base_mint : String
  pub quote_mint : String
  pub token_amount : ℕ
  pub sol_amount : ℕ

-- The addresses that both builders work out first.
pub record Keys : Type 0 where
  pub base_mint : Pubkey
  pub quote_mint : Pubkey
  pub base_token_program : Pubkey
  pub quote_token_program : Pubkey
  pub program_id : Pubkey

-- Discriminator and two amounts.
unfoldable pub swap_data : Bytes → ℕ → ℕ → Bytes
swap_data discriminator a b = discriminator ++ to_le_bytes 8 a ++ to_le_bytes 8 b

unfoldable pub max_quote : ℕ → ℕ → ℕ
max_quote our_sol_lamports slippage_bps =
    wrap64 (our_sol_lamports + wrap64 (our_sol_lamports * slippage_bps) / 10000)

module _ (chain : Chain) where
  open chain use {from_str, ata_with_program, create_ata}

  abbrev pub account : PumpSwapAccounts → ℕ → Result Pubkey
  account target i = from_str (get_or target.accounts i "")

  unfoldable pub read_keys : PumpSwapAccounts → Result Keys
  read_keys target = do
    base_mint ← from_str target.base_mint
    quote_mint ← from_str target.quote_mint
    base_token_program ← account target 11
    quote_token_program ← account target 12
    program_id ← from_str pumpswap_program
    ok (record {
      base_mint = base_mint;
      quote_mint = quote_mint;
      base_token_program = base_token_program;
      quote_token_program = quote_token_program;
      program_id = program_id;
    })

  -- The accounts past the seventeenth, without those that are no address.
  unfoldable pub extra_accounts : List String → List AccountMeta
  extra_accounts [] = []
  extra_accounts (name ∷ names) =
      let rest = extra_accounts names in
      elim (from_str name) [ ok pk ↦ readonly pk false ∷ rest | err e ↦ rest ]

  unfoldable pub mirrored_accounts : PumpSwapAccounts → Pubkey → Keys → Result (List AccountMeta)
  unfolding extra_accounts
  mirrored_accounts target payer k = do
    pool ← account target 0
    global_config ← account target 2
    pool_base ← account target 7
    pool_quote ← account target 8
    fee_recipient ← account target 9
    fee_recipient_token ← account target 10
    ata_id ← from_str ata_program
    event_authority ← account target 15
    ok (
        readonly pool false
        ∷ writable payer true
        ∷ readonly global_config false
        ∷ readonly k.base_mint false
        ∷ readonly k.quote_mint false
        ∷ writable (ata_with_program payer k.base_mint k.base_token_program) false
        ∷ writable (ata_with_program payer k.quote_mint k.quote_token_program) false
        ∷ writable pool_base false
        ∷ writable pool_quote false
        ∷ readonly fee_recipient false
        ∷ writable fee_recipient_token false
        ∷ readonly k.base_token_program false
        ∷ readonly k.quote_token_program false
        ∷ readonly system_program_id false
        ∷ readonly ata_id false
        ∷ readonly event_authority false
        ∷ readonly k.program_id false
        ∷ extra_accounts (drop 17 target.accounts))

  unfoldable pub build_buy_instructions :
      PumpSwapAccounts → ℕ → ℕ → Pubkey → ℕ → Result (List Instruction)
  unfolding read_keys mirrored_accounts swap_data max_quote
  build_buy_instructions target our_sol_lamports our_token_amount payer slippage_bps =
      if ltb (length target.accounts) 17 then err (too_small 17 (length target.accounts)) else (do
        k ← read_keys target
        accounts ← mirrored_accounts target payer k
        ok (
            create_ata payer payer k.base_mint k.base_token_program
            ∷ create_ata payer payer k.quote_mint k.quote_token_program
            ∷ record {
              program_id = k.program_id;
              accounts = accounts;
              data_bytes =
                  swap_data buy_discriminator our_token_amount
                    (max_quote our_sol_lamports slippage_bps);
            }
            ∷ []))

  unfoldable pub build_sell_instructions :
      PumpSwapAccounts → ℕ → ℕ → Pubkey → Result (List Instruction)
  unfolding read_keys mirrored_accounts swap_data
  build_sell_instructions target token_amount min_sol_out payer =
      if ltb (length target.accounts) 17 then err (too_small 17 (length target.accounts)) else (do
        k ← read_keys target
        accounts ← mirrored_accounts target payer k
        ok (
            record {
              program_id = k.program_id;
              accounts = accounts;
              data_bytes = swap_data sell_discriminator token_amount min_sol_out;
            }
            ∷ []))
