-- ===== src/TxBuilder.antt =====
-- src/tx_builder.rs: the buy and sell instructions of pump.fun.
pub mod Template
pub mod Same
pub mod Recognized
use girasolbot.Prelude.{
  ℕ, Bool, true, false, not, Option, none, some, List, [], ◌∷◌, ◌++◌, String, Bytes, Pubkey,
  bytes_eq, filter_by, if◌then◌else◌,
}
use girasolbot.Prelude.Options.{unwrap_or}
use girasolbot.Prelude.Dict.{Dict}
use girasolbot.Chain.{
  Chain, Result, ok, err, bad_instruction, ◌>>=◌, AccountMeta, writable, readonly, Instruction,
}

-- `Pubkey::find_program_address` of seeds and a program, without the bump; `borsh::to_vec` of the
-- arguments of a buy, whose `track_volume` is `None`, and of a sell; the bytes of a text; and
-- `compute_anchor_discriminator`.
pub record Programs : Type 0 where
  pub find_address : List Bytes → Pubkey → Pubkey
  pub buy_args : ℕ → ℕ → Bytes
  pub sell_args : ℕ → ℕ → Bytes
  pub text_bytes : String → Bytes
  pub anchor_discriminator : String → Bytes

-- The interface descriptions that `load_all_idls` gives: their address, the accounts of an
-- instruction in a context, and its discriminator.
pub record Idls : Type 1 where
  pub SimpleIdl : Type 0
  pub get_idl : String → Option SimpleIdl
  pub address : SimpleIdl → Pubkey
  pub build_accounts_for : SimpleIdl → String → Dict Pubkey → Option (List AccountMeta)
  pub discriminator_of : SimpleIdl → String → Option Bytes

abbrev pub system_program : String
system_program = "11111111111111111111111111111111"

abbrev pub token_2022_program : String
token_2022_program = "TokenzQdBNbLqP5VEhdkAS6EPFLC1PHnBqCXEpPxuEb"

abbrev pub fee_program : String
fee_program = "pfeeUxB6jkeY1Hxd7CsFCAjcbHA9rWtchMGdZ6VojVZ"

abbrev pub fee_config_seed : Bytes
fee_config_seed =
    1 ∷ 86 ∷ 224 ∷ 246 ∷ 147 ∷ 102 ∷ 90 ∷ 207 ∷ 68 ∷ 219 ∷ 21 ∷ 104 ∷ 191 ∷ 23 ∷ 91 ∷ 170 ∷ 81 ∷ 137
    ∷ 203 ∷ 151 ∷ 245 ∷ 210 ∷ 255 ∷ 59 ∷ 101 ∷ 93 ∷ 43 ∷ 182 ∷ 253 ∷ 109 ∷ 24 ∷ 176 ∷ []

abbrev pub preferred : List String
preferred = "pumpfun" ∷ "pumpfunamm" ∷ "pumpfunfees" ∷ []

-- `creator_pubkey.ok_or(..)?`
abbrev pub required : Option Pubkey → Result Pubkey
required none = err bad_instruction
required (some c) = ok c

module _ (chain : Chain) (progs : Programs) (idls : Idls) where
  open chain use {from_str, ata_with_program}
  open progs use {find_address, buy_args, sell_args, text_bytes, anchor_discriminator}
  open idls use {SimpleIdl, get_idl, address, build_accounts_for, discriminator_of}

  -- `get_buy_discriminator` and `get_sell_discriminator`.
  unfoldable pub discriminator : Option SimpleIdl → String → Bytes
  discriminator none ix = anchor_discriminator ix
  discriminator (some idl) ix = unwrap_or (discriminator_of idl ix) (anchor_discriminator ix)

  -- The first preferred description that gives the accounts of an instruction.
  unfoldable pub first_idl :
      String → Dict Pubkey → List String → Option (SimpleIdl × List AccountMeta)
  first_idl ix context [] = none
  first_idl ix context (key ∷ keys) =
      let later = first_idl ix context keys in
      elim (get_idl key) [
        | none ↦ later
        | some idl ↦ elim (build_accounts_for idl ix context) [
          | none ↦ later
          | some metas ↦ some (idl, metas)
        ]
      ]

  -- The instruction by a description: the fee program is no account of it.
  unfoldable pub by_idl : String → Bytes → SimpleIdl × List AccountMeta → Result Instruction
  unfolding discriminator
  by_idl ix args (idl, metas) = do
    fee_pk ← from_str fee_program
    ok (record {
      program_id = address idl;
      accounts = filter_by (λ m. not (bytes_eq m.pubkey fee_pk)) metas;
      data_bytes = discriminator (some idl) ix ++ args;
    })

  unfoldable pub common_context : Pubkey → Pubkey → Pubkey → Pubkey → Dict Pubkey
  common_context mint user creator fee_recipient =
      ("mint", mint)
      ∷ ("user", user)
      ∷ ("bonding_curve.creator", creator)
      ∷ ("bondingCurve.creator", creator)
      ∷ ("fee_recipient", fee_recipient)
      ∷ ("feeRecipient", fee_recipient)
      ∷ []

  unfoldable pub derive_fee_config_pda : Result Pubkey
  derive_fee_config_pda = do
    program ← from_str fee_program
    ok (find_address (text_bytes "fee_config" ∷ fee_config_seed ∷ []) program)

  -- The accounts without a description.
  unfoldable pub buy_accounts :
      Pubkey → Pubkey → Pubkey → Pubkey → Pubkey → Result (List AccountMeta)
  unfolding derive_fee_config_pda
  buy_accounts program mint user fee_recipient creator = do
    token_program ← from_str token_2022_program
    system ← from_str system_program
    fee_config ← derive_fee_config_pda
    fee_pk ← from_str fee_program
    let curve = find_address (text_bytes "bonding-curve" ∷ mint ∷ []) program in
        ok (
          readonly (find_address (text_bytes "global" ∷ []) program) false
          ∷ writable fee_recipient false
          ∷ readonly mint false
          ∷ writable curve false
          ∷ writable (ata_with_program curve mint token_program) false
          ∷ writable (ata_with_program user mint token_program) false
          ∷ writable user true
          ∷ readonly system false
          ∷ readonly token_program false
          ∷ writable (find_address (text_bytes "creator-vault" ∷ creator ∷ []) program) false
          ∷ readonly (find_address (text_bytes "__event_authority" ∷ []) program) false
          ∷ readonly program false
          ∷ writable (find_address (text_bytes "global_volume_accumulator" ∷ []) program) false
          ∷ writable (find_address (text_bytes "user_volume_accumulator" ∷ user ∷ []) program) false
          ∷ readonly fee_config false
          ∷ readonly fee_pk false
          ∷ [])

  unfoldable pub build_buy_instruction :
      Pubkey → String → ℕ → ℕ → Pubkey → Pubkey → Option Pubkey → Result Instruction
  unfolding first_idl by_idl common_context buy_accounts discriminator
  build_buy_instruction program_id mint amount max_sol_cost user fee_recipient creator_pubkey = do
    mint_pk ← from_str mint
    creator ← required creator_pubkey
    elim (first_idl "buy" (common_context mint_pk user creator fee_recipient) preferred) [
      | some found ↦ by_idl "buy" (buy_args amount max_sol_cost) found
      | none ↦ buy_accounts program_id mint_pk user fee_recipient creator >>= λ accounts.
          ok (record {
            program_id = program_id;
            accounts = accounts;
            data_bytes = discriminator none "buy" ++ buy_args amount max_sol_cost;
          })
    ]

  unfoldable pub sell_accounts :
      Pubkey → Pubkey → Pubkey → Pubkey → Pubkey → Result (List AccountMeta)
  unfolding derive_fee_config_pda
  sell_accounts program mint user fee_recipient creator = do
    token_program ← from_str token_2022_program
    system ← from_str system_program
    fee_config ← derive_fee_config_pda
    fee_pk ← from_str fee_program
    let curve = find_address (text_bytes "bonding-curve" ∷ mint ∷ []) program in
        ok (
          readonly (find_address (text_bytes "global" ∷ []) program) false
          ∷ writable fee_recipient false
          ∷ readonly mint false
          ∷ writable curve false
          ∷ writable (ata_with_program curve mint token_program) false
          ∷ writable (ata_with_program user mint token_program) false
          ∷ writable user true
          ∷ readonly system false
          ∷ writable (find_address (text_bytes "creator-vault" ∷ creator ∷ []) program) false
          ∷ readonly token_program false
          ∷ readonly (find_address (text_bytes "__event_authority" ∷ []) program) false
          ∷ readonly program false
          ∷ readonly fee_config false
          ∷ readonly fee_pk false
          ∷ [])

  unfoldable pub build_sell_instruction :
      Pubkey → String → ℕ → ℕ → Pubkey → Pubkey → Option Pubkey → Result Instruction
  unfolding first_idl by_idl common_context sell_accounts discriminator
  build_sell_instruction program_id mint amount min_sol_output user fee_recipient creator_pubkey =
      do
        mint_pk ← from_str mint
        creator ← required creator_pubkey
        fee_pk ← from_str fee_program
        let context =
              common_context mint_pk user creator fee_recipient
              ++ ("fee_program", fee_pk) ∷ ("feeProgram", fee_pk) ∷ [] in
            elim (first_idl "sell" context preferred) [
              | some found ↦ by_idl "sell" (sell_args amount min_sol_output) found
              | none ↦ sell_accounts program_id mint_pk user fee_recipient creator >>= λ accounts.
                  ok (record {
                    program_id = program_id;
                    accounts = accounts;
                    data_bytes = discriminator none "sell" ++ sell_args amount min_sol_output;
                  })
            ]
