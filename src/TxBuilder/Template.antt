-- ===== src/TxBuilder/Template.antt =====
-- src/tx_template.rs: what a buy of pump.fun needs and no mint changes is worked out once, and the
-- rest for each buy.
use girasolbot.Prelude.{
  ℕ, Bool, true, false, Option, none, some, List, [], ◌∷◌, ◌++◌, String, Bytes, Pubkey,
  if◌then◌else◌,
}
use girasolbot.Float.{Float}
use girasolbot.Prelude.Dict.{Dict}
use girasolbot.Chain.{Chain, Result, ok, ◌>>=◌, AccountMeta, writable, readonly, Instruction}
use girasolbot.TxBuilder.{
  Programs, Idls, system_program, token_2022_program, fee_program, fee_config_seed, preferred,
  required, discriminator,
}

abbrev pub rent_sysvar_id : String
rent_sysvar_id = "SysvarRent111111111111111111111111111111111"

-- The compute-budget instructions of the Solana crates.
pub record ComputeBudget : Type 0 where
  pub set_compute_unit_limit : ℕ → Instruction
  pub set_compute_unit_price : ℕ → Instruction

-- A transaction before it is signed.
pub record Transaction : Type 0 where
  pub instructions : List Instruction
  pub payer : Pubkey
  pub recent_blockhash : Bytes

module _ (F : Float) (chain : Chain) (progs : Programs) (idls : Idls) where
  open F use {of_u64, to_u64, fadd, fmul, fdiv}
  open chain use {from_str, ata_with_program, create_ata}
  open progs use {find_address, buy_args, text_bytes, anchor_discriminator}
  open idls use {SimpleIdl, get_idl, address, build_accounts_for}

  pub record BuyTemplate : Type 0 where
    pub payer_pubkey : Pubkey
    pub pump_program : Pubkey
    pub token_program : Pubkey
    pub system_program_pk : Pubkey
    pub rent_sysvar : Pubkey
    pub fee_program_pk : Pubkey
    pub fee_config_pda : Pubkey
    pub global_pda : Pubkey
    pub event_authority : Pubkey
    pub global_vol_acc : Pubkey
    pub user_vol_acc : Pubkey
    pub buy_discriminator : Bytes
    pub idl_program_id : Pubkey
    pub fee_recipient_normal : Pubkey
    pub fee_recipient_mayhem : Pubkey
    pub compute_unit_limit : ℕ
    pub idl : Option SimpleIdl

  -- The first preferred description that is there.
  unfoldable pub best_idl : List String → Option SimpleIdl
  best_idl [] = none
  best_idl (key ∷ keys) =
      let later = best_idl keys in elim (get_idl key) [ some idl ↦ some idl | none ↦ later ]

  unfoldable pub idl_address : Pubkey → Option SimpleIdl → Pubkey
  idl_address pump_program none = pump_program
  idl_address pump_program (some idl) = address idl

  unfoldable pub new_template : Pubkey → String → Pubkey → Pubkey → Result BuyTemplate
  unfolding best_idl idl_address discriminator
  new_template payer pump_fun_program normal mayhem = do
    pump_program ← from_str pump_fun_program
    token_program ← from_str token_2022_program
    system ← from_str system_program
    rent ← from_str rent_sysvar_id
    fee_pk ← from_str fee_program
    let best = best_idl preferred in
        ok (record {
          payer_pubkey = payer;
          pump_program = pump_program;
          token_program = token_program;
          system_program_pk = system;
          rent_sysvar = rent;
          fee_program_pk = fee_pk;
          fee_config_pda = find_address (text_bytes "fee_config" ∷ fee_config_seed ∷ []) fee_pk;
          global_pda = find_address (text_bytes "global" ∷ []) pump_program;
          event_authority = find_address (text_bytes "__event_authority" ∷ []) pump_program;
          global_vol_acc = find_address (text_bytes "global_volume_accumulator" ∷ []) pump_program;
          user_vol_acc =
              find_address (text_bytes "user_volume_accumulator" ∷ payer ∷ []) pump_program;
          buy_discriminator = discriminator chain progs idls best "buy";
          idl_program_id = idl_address pump_program best;
          fee_recipient_normal = normal;
          fee_recipient_mayhem = mayhem;
          compute_unit_limit = 250000;
          idl = best;
        })

  unfoldable pub creator_vault : BuyTemplate → Pubkey → Pubkey
  creator_vault t creator = find_address (text_bytes "creator-vault" ∷ creator ∷ []) t.pump_program

  unfoldable pub build_fallback_instruction :
      BuyTemplate
      → Pubkey
      → Pubkey
      → Pubkey
      → Pubkey
      → Pubkey
      → Option Pubkey
      → Bytes
      → Result Instruction
  unfolding creator_vault
  build_fallback_instruction t mint bonding_curve bonding_curve_ata user_ata fee_recipient creator
        bytes =
      do
        creator_pk ← required creator
        ok (record {
          program_id = t.pump_program;
          accounts =
              readonly t.global_pda false
              ∷ writable fee_recipient false
              ∷ readonly mint false
              ∷ writable bonding_curve false
              ∷ writable bonding_curve_ata false
              ∷ writable user_ata false
              ∷ writable t.payer_pubkey true
              ∷ readonly t.system_program_pk false
              ∷ readonly t.token_program false
              ∷ writable (creator_vault t creator_pk) false
              ∷ readonly t.event_authority false
              ∷ readonly t.pump_program false
              ∷ writable t.global_vol_acc false
              ∷ writable t.user_vol_acc false
              ∷ readonly t.fee_config_pda false
              ∷ readonly t.fee_program_pk false
              ∷ [];
          data_bytes = bytes;
        })

  unfoldable pub creator_context : BuyTemplate → Option Pubkey → Dict Pubkey
  unfolding creator_vault
  creator_context t none = []
  creator_context t (some c) =
      ("bonding_curve.creator", c)
      ∷ ("bondingCurve.creator", c)
      ∷ ("creator_vault", creator_vault t c)
      ∷ []

  unfoldable pub template_context :
      BuyTemplate → Pubkey → Pubkey → Pubkey → Option Pubkey → Dict Pubkey
  unfolding creator_context
  template_context t mint fee_recipient bonding_curve creator =
      ("mint", mint)
      ∷ ("user", t.payer_pubkey)
      ∷ ("fee_recipient", fee_recipient)
      ∷ ("token_program", t.token_program)
      ∷ ("bonding_curve", bonding_curve)
      ∷ creator_context t creator

  -- The accounts that the description of the template gives, if it has one and gives them.
  unfoldable pub described :
      BuyTemplate → Pubkey → Pubkey → Pubkey → Option Pubkey → Option (List AccountMeta)
  unfolding template_context
  described t mint fee_recipient bonding_curve creator = elim t.idl [
    | none ↦ none
    | some idl ↦
        build_accounts_for idl "buy" (template_context t mint fee_recipient bonding_curve creator)
  ]

  unfoldable pub max_sol_cost : F.F64 → ℕ → ℕ
  max_sol_cost sol_amount slippage_bps =
      let base = to_u64 (fmul sol_amount (of_u64 1000000000)) in
      to_u64 (fmul (of_u64 base) (fadd (of_u64 1) (fdiv (of_u64 slippage_bps) (of_u64 10000))))

  unfoldable pub build_buy_instructions :
      BuyTemplate → Pubkey → ℕ → F.F64 → ℕ → Bool → Option Pubkey → Result (List Instruction)
  unfolding build_fallback_instruction described max_sol_cost
  build_buy_instructions t mint token_amount sol_amount slippage_bps is_mayhem creator =
      let fee_recipient = if is_mayhem then t.fee_recipient_mayhem else t.fee_recipient_normal in
      let curve = find_address (text_bytes "bonding-curve" ∷ mint ∷ []) t.pump_program in
      let bytes =
        t.buy_discriminator ++ buy_args token_amount (max_sol_cost sol_amount slippage_bps) in
      let built : Result Instruction = elim (described t mint fee_recipient curve creator) [
        | some metas ↦
            ok (record { program_id = t.idl_program_id; accounts = metas; data_bytes = bytes })
        | none ↦
            build_fallback_instruction t mint curve (ata_with_program curve mint t.token_program)
              (ata_with_program t.payer_pubkey mint t.token_program) fee_recipient creator bytes
      ] in
      built >>= λ buy_instruction.
      ok (create_ata t.payer_pubkey t.payer_pubkey mint t.token_program ∷ buy_instruction ∷ [])

  unfoldable pub build_buy_tx :
      ComputeBudget
      → BuyTemplate
      → Pubkey
      → ℕ
      → F.F64
      → ℕ
      → Bool
      → Option Pubkey
      → Bytes
      → ℕ
      → Result Transaction
  unfolding build_buy_instructions
  build_buy_tx budget t mint token_amount sol_amount slippage_bps is_mayhem creator blockhash
        priority_fee =
      do
        buy_instructions ←
            build_buy_instructions t mint token_amount sol_amount slippage_bps is_mayhem creator
        ok (record {
          instructions =
              budget.set_compute_unit_limit t.compute_unit_limit
              ∷ budget.set_compute_unit_price priority_fee
              ∷ buy_instructions;
          payer = t.payer_pubkey;
          recent_blockhash = blockhash;
        })
