-- ===== src/Raydium/V4.antt =====
-- src/raydium_v4.rs: the swap quote, the swap instruction and the buy and sell builders.
pub mod Quotes
pub mod Swaps
use girasolbot.Prelude.{
  ℕ, ◌+◌, ◌-◌, ◌*◌, ◌/◌, ◌^◌, Bool, true, false, Option, none, some, List, [], ◌∷◌, ◌++◌, String,
  ltb, if◌then◌else◌, wrap64, u64_mod, Bytes, Pubkey, bytes_eq, to_le_bytes, length, take,
}
use girasolbot.Float.{Float}
use girasolbot.Chain.{
  Error, too_small, undecodable, Result, ok, err, ◌>>=◌, AccountMeta, writable, readonly,
  Instruction, Chain,
}

abbrev trade_fee_numerator : ℕ
trade_fee_numerator = 25

abbrev trade_fee_denominator : ℕ
trade_fee_denominator = 10000

abbrev amm_info_size : ℕ
amm_info_size = 752

abbrev pub raydium_amm_v4_program : String
raydium_amm_v4_program = "675kPX9MHTjS2zt1qfr1NYHuzeLXfQM9H24wFSUt1Mp8"

abbrev pub raydium_authority : String
raydium_authority = "5Q544fKrFoe6tsEbD7S8EmxGTJYAKtTVhAW5Q5pge4j1"

abbrev pub token_program_id : String
token_program_id = "TokenkegQfeZyiNwAJbNbGKPFXCWuBvf9Ss623VQ5DA"

abbrev pub wsol_mint_id : String
wsol_mint_id = "So11111111111111111111111111111111111111112"

-- `10000 - slippage_bps` on u64, which wraps.
abbrev pub slippage_factor : ℕ → ℕ
slippage_factor slippage_bps = wrap64 (10000 + u64_mod - slippage_bps)

-- The amount that is swapped once the fee is taken.
abbrev pub after_fee : ℕ → ℕ
after_fee amount_in = amount_in - wrap64 (amount_in * trade_fee_numerator) / trade_fee_denominator

abbrev pub quote : ℕ → ℕ → ℕ → ℕ
quote reserve_in reserve_out a =
    if ltb 0 reserve_in then wrap64 (reserve_out * a / (reserve_in + a)) else 0

-- `amount_out` and `min_amount_out`. The products of the quote fit in the u128 of the source.
unfoldable pub compute_swap_amount : ℕ → ℕ → Bool → ℕ → ℕ → ℕ × ℕ
compute_swap_amount coin_reserve pc_reserve is_base_in amount_in slippage_bps =
    let reserve_in = (if is_base_in then coin_reserve else pc_reserve) in
    let reserve_out = (if is_base_in then pc_reserve else coin_reserve) in
    let amount_out = quote reserve_in reserve_out (after_fee amount_in) in
    (amount_out, wrap64 (amount_out * slippage_factor slippage_bps) / 10000)

-- `AmmInfo`: the fields that the builders read.
pub record AmmInfo : Type 0 where
  pub token_coin : Pubkey
  pub token_pc : Pubkey
  pub coin_mint : Pubkey
  pub pc_mint : Pubkey

-- `decode` is the derived borsh decoder of `AmmInfo`.
module _ (F : Float) (chain : Chain) (decode : Bytes → Option AmmInfo) where
  open F use {F64, of_u64, to_u64, fmul}
  open chain use {
    from_str, ata, create_ata, transfer, sync_native, close_account, account_data, token_balance,
  }

  decoded : Option AmmInfo → Result AmmInfo
  decoded none = err undecodable
  decoded (some i) = ok i

  unfoldable pub fetch_amm_info : String → Result AmmInfo
  unfolding decoded
  fetch_amm_info amm_address = do
    bytes ← account_data amm_address
    if ltb (length bytes) amm_info_size
        then err (too_small (length bytes) amm_info_size)
        else decoded (decode (take amm_info_size bytes))

  abbrev pub swap_accounts :
      Pubkey → Pubkey → Pubkey → AmmInfo → Pubkey → Pubkey → Pubkey → List AccountMeta
  swap_accounts token_program authority amm info source dest user =
      readonly token_program false
      ∷ writable amm false
      ∷ readonly authority false
      ∷ writable amm false
      ∷ writable info.token_coin false
      ∷ writable info.token_pc false
      ∷ writable amm false
      ∷ writable amm false
      ∷ writable amm false
      ∷ writable amm false
      ∷ writable amm false
      ∷ writable amm false
      ∷ writable amm false
      ∷ writable amm false
      ∷ writable source false
      ∷ writable dest false
      ∷ writable user true
      ∷ []

  unfoldable pub build_swap_base_in_instruction :
      Pubkey → AmmInfo → Pubkey → Pubkey → Pubkey → ℕ → ℕ → Result Instruction
  build_swap_base_in_instruction amm info source dest user amount_in min_amount_out = do
    program ← from_str raydium_amm_v4_program
    authority ← from_str raydium_authority
    token_program ← from_str token_program_id
    ok (record {
      program_id = program;
      accounts = swap_accounts token_program authority amm info source dest user;
      data_bytes = 9 ∷ to_le_bytes 8 amount_in ++ to_le_bytes 8 min_amount_out;
    })

  -- `(sol_amount * 1_000_000_000.0) as u64`
  abbrev pub lamports : F64 → ℕ
  lamports sol_amount = to_u64 (fmul sol_amount (of_u64 1000000000))

  unfoldable pub build_buy_instructions :
      String → String → F64 → ℕ → Pubkey → Result (List Instruction)
  unfolding fetch_amm_info compute_swap_amount build_swap_base_in_instruction
  build_buy_instructions amm_address mint sol_amount slippage_bps payer = do
    amm ← from_str amm_address
    mint_pk ← from_str mint
    wsol_mint ← from_str wsol_mint_id
    token_program ← from_str token_program_id
    info ← fetch_amm_info amm_address
    coin_reserve ← token_balance info.token_coin
    pc_reserve ← token_balance info.token_pc
    let is_base_in = bytes_eq info.coin_mint wsol_mint
    let amount_in = lamports sol_amount
    let min_amount_out =
        (compute_swap_amount coin_reserve pc_reserve is_base_in amount_in slippage_bps).1
    let user_wsol_ata = ata payer wsol_mint
    let user_token_ata = ata payer mint_pk
    let source = (if is_base_in then user_wsol_ata else user_token_ata)
    let dest = (if is_base_in then user_token_ata else user_wsol_ata)
    sync ← sync_native token_program user_wsol_ata
    swap ← build_swap_base_in_instruction amm info source dest payer amount_in min_amount_out
    close ← close_account token_program user_wsol_ata payer payer
    ok (
        create_ata payer payer wsol_mint token_program
        ∷ transfer payer user_wsol_ata amount_in
        ∷ sync
        ∷ create_ata payer payer mint_pk token_program
        ∷ swap
        ∷ close
        ∷ [])

  unfoldable pub build_sell_instructions :
      String → String → ℕ → ℕ → Pubkey → Result (List Instruction)
  unfolding fetch_amm_info compute_swap_amount build_swap_base_in_instruction
  build_sell_instructions amm_address mint token_amount slippage_bps payer = do
    amm ← from_str amm_address
    mint_pk ← from_str mint
    wsol_mint ← from_str wsol_mint_id
    token_program ← from_str token_program_id
    info ← fetch_amm_info amm_address
    coin_reserve ← token_balance info.token_coin
    pc_reserve ← token_balance info.token_pc
    let is_base_in = bytes_eq info.coin_mint mint_pk
    let min_amount_out =
        (compute_swap_amount coin_reserve pc_reserve is_base_in token_amount slippage_bps).1
    let user_wsol_ata = ata payer wsol_mint
    let user_token_ata = ata payer mint_pk
    swap ←
        build_swap_base_in_instruction amm info user_token_ata user_wsol_ata payer token_amount
          min_amount_out
    close ← close_account token_program user_wsol_ata payer payer
    ok (
        create_ata payer payer wsol_mint token_program
        ∷ create_ata payer payer mint_pk token_program
        ∷ swap
        ∷ close
        ∷ [])
