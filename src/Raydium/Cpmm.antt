-- ===== src/Raydium/Cpmm.antt =====
-- src/raydium_cpmm.rs: the swap quote, the swap instruction and the buy and sell builders.
pub mod Quotes
pub mod Swaps
use girasolbot.Prelude.{
  ℕ, ◌+◌, ◌-◌, ◌*◌, ◌/◌, Bool, true, false, Option, none, some, List, [], ◌∷◌, ◌++◌, String, ltb,
  if◌then◌else◌, wrap64, u64_mod, Bytes, Pubkey, bytes_eq, to_le_bytes, length, slice,
}
use girasolbot.Float.{Float}
use girasolbot.Chain.{
  too_small, undecodable, Result, ok, err, ◌>>=◌, AccountMeta, writable, readonly, Instruction,
  Chain,
}

abbrev pub raydium_cpmm_program : String
raydium_cpmm_program = "CPMMoo8L3F4NbTegBCKVNunggL7H1ZpdTHKxQB5qKP1C"

abbrev pub cpmm_authority : String
cpmm_authority = "GpMZbSM2GgvTKHJirzeGfMFoaZ8UR2X7F4v8vHTvxFbL"

abbrev pub token_program_id : String
token_program_id = "TokenkegQfeZyiNwAJbNbGKPFXCWuBvf9Ss623VQ5DA"

abbrev pub wsol_mint_id : String
wsol_mint_id = "So11111111111111111111111111111111111111112"

abbrev pub swap_base_in_discriminator : Bytes
swap_base_in_discriminator = 143 ∷ 190 ∷ 90 ∷ 218 ∷ 196 ∷ 30 ∷ 51 ∷ 222 ∷ []

abbrev pool_state_size : ℕ
pool_state_size = 629

abbrev pub after_fee : ℕ → ℕ
after_fee amount_in = amount_in - wrap64 (amount_in * 25) / 10000

abbrev pub quote : ℕ → ℕ → ℕ → ℕ
quote r_in r_out a = if ltb 0 (r_in + a) then wrap64 (r_out * a / (r_in + a)) else 0

-- `amount_out` and `min_amount_out`.
unfoldable pub compute_swap_amount : ℕ → ℕ → Bool → ℕ → ℕ → ℕ × ℕ
compute_swap_amount reserve_0 reserve_1 is_base_in amount_in slippage_bps =
    let r_in = (if is_base_in then reserve_0 else reserve_1) in
    let r_out = (if is_base_in then reserve_1 else reserve_0) in
    let amount_out = quote r_in r_out (after_fee amount_in) in
    (amount_out, wrap64 (amount_out * wrap64 (10000 + u64_mod - slippage_bps)) / 10000)

-- `CpmmPoolState`: the fields that the builders read.
pub record CpmmPoolState : Type 0 where
  pub amm_config : Pubkey
  pub token0_vault : Pubkey
  pub token1_vault : Pubkey
  pub token0_mint : Pubkey
  pub token1_mint : Pubkey
  pub token0_program : Pubkey
  pub token1_program : Pubkey
  pub observation_key : Pubkey

-- `decode` is the derived borsh decoder of `CpmmPoolState`.
module _ (F : Float) (chain : Chain) (decode : Bytes → Option CpmmPoolState) where
  open F use {F64, of_u64, to_u64, fmul}
  open chain use {
    from_str, ata, ata_with_program, create_ata, transfer, sync_native, close_account, account_data,
    token_balance,
  }

  decoded : Option CpmmPoolState → Result CpmmPoolState
  decoded none = err undecodable
  decoded (some p) = ok p

  unfoldable pub fetch_pool_state : String → Result CpmmPoolState
  unfolding decoded
  fetch_pool_state pool_address = do
    bytes ← account_data pool_address
    if ltb (length bytes) (8 + pool_state_size)
        then err (too_small (length bytes) (8 + pool_state_size))
        else decoded (decode (slice bytes 8 (8 + pool_state_size)))

  -- One side of a swap: the user's account, the vault, the token program and the mint.
  pub record Side : Type 0 where
    pub user_ata : Pubkey
    pub vault : Pubkey
    pub program : Pubkey
    pub mint : Pubkey

  unfoldable pub build_swap_instruction :
      Pubkey → CpmmPoolState → Pubkey → Side → Side → ℕ → ℕ → Result Instruction
  build_swap_instruction pool_pk pool payer input output amount_in min_amount_out = do
    program ← from_str raydium_cpmm_program
    authority ← from_str cpmm_authority
    ok (record {
      program_id = program;
      accounts =
          writable payer true
          ∷ readonly authority false
          ∷ writable pool.amm_config false
          ∷ writable pool_pk false
          ∷ writable input.user_ata false
          ∷ writable output.user_ata false
          ∷ writable input.vault false
          ∷ writable output.vault false
          ∷ readonly input.program false
          ∷ readonly output.program false
          ∷ readonly input.mint false
          ∷ readonly output.mint false
          ∷ writable pool.observation_key false
          ∷ [];
      data_bytes =
          swap_base_in_discriminator ++ to_le_bytes 8 amount_in ++ to_le_bytes 8 min_amount_out;
    })

  -- `(sol_amount * 1_000_000_000.0) as u64`
  abbrev pub lamports : F64 → ℕ
  lamports sol_amount = to_u64 (fmul sol_amount (of_u64 1000000000))

  -- The sides of a buy, with the token programs as the source picks them.
  abbrev pub buy_input : CpmmPoolState → Pubkey → Pubkey → Pubkey → Side
  buy_input pool wsol_mint token_program user_ata =
      let is_base_in = bytes_eq pool.token0_mint wsol_mint in
      record {
        user_ata = user_ata;
        vault = if is_base_in then pool.token0_vault else pool.token1_vault;
        program = if is_base_in then token_program else pool.token0_program;
        mint = wsol_mint;
      }

  abbrev pub buy_output : CpmmPoolState → Pubkey → Pubkey → Pubkey → Pubkey → Side
  buy_output pool wsol_mint token_program user_ata mint_pk =
      let is_base_in = bytes_eq pool.token0_mint wsol_mint in
      record {
        user_ata = user_ata;
        vault = if is_base_in then pool.token1_vault else pool.token0_vault;
        program = if is_base_in then pool.token1_program else token_program;
        mint = mint_pk;
      }

  unfoldable pub build_buy_instructions :
      String → String → F64 → ℕ → Pubkey → Result (List Instruction)
  unfolding fetch_pool_state compute_swap_amount build_swap_instruction
  build_buy_instructions pool_address mint sol_amount slippage_bps payer = do
    pool_pk ← from_str pool_address
    mint_pk ← from_str mint
    wsol_mint ← from_str wsol_mint_id
    token_program ← from_str token_program_id
    pool ← fetch_pool_state pool_address
    reserve_0 ← token_balance pool.token0_vault
    reserve_1 ← token_balance pool.token1_vault
    let is_base_in = bytes_eq pool.token0_mint wsol_mint
    let amount_in = lamports sol_amount
    let min_amount_out =
        (compute_swap_amount reserve_0 reserve_1 is_base_in amount_in slippage_bps).1
    let user_wsol_ata = ata payer wsol_mint
    let mint_program = (if is_base_in then pool.token1_program else pool.token0_program)
    let user_token_ata = ata_with_program payer mint_pk mint_program
    let input = buy_input pool wsol_mint token_program user_wsol_ata
    let output = buy_output pool wsol_mint token_program user_token_ata mint_pk
    sync ← sync_native token_program user_wsol_ata
    swap ← build_swap_instruction pool_pk pool payer input output amount_in min_amount_out
    close ← close_account token_program user_wsol_ata payer payer
    ok (
        create_ata payer payer wsol_mint token_program
        ∷ transfer payer user_wsol_ata amount_in
        ∷ sync
        ∷ create_ata payer payer mint_pk output.program
        ∷ swap
        ∷ close
        ∷ [])

  -- The sides of a sell.
  abbrev pub sell_input : CpmmPoolState → Pubkey → Pubkey → Side
  sell_input pool mint_pk user_ata =
      let is_base_in = bytes_eq pool.token0_mint mint_pk in
      record {
        user_ata = user_ata;
        vault = if is_base_in then pool.token0_vault else pool.token1_vault;
        program = if is_base_in then pool.token0_program else pool.token1_program;
        mint = mint_pk;
      }

  abbrev pub sell_output : CpmmPoolState → Pubkey → Pubkey → Pubkey → Pubkey → Side
  sell_output pool mint_pk token_program user_ata wsol_mint =
      let is_base_in = bytes_eq pool.token0_mint mint_pk in
      record {
        user_ata = user_ata;
        vault = if is_base_in then pool.token1_vault else pool.token0_vault;
        program = token_program;
        mint = wsol_mint;
      }

  unfoldable pub build_sell_instructions :
      String → String → ℕ → ℕ → Pubkey → Result (List Instruction)
  unfolding fetch_pool_state compute_swap_amount build_swap_instruction
  build_sell_instructions pool_address mint token_amount slippage_bps payer = do
    pool_pk ← from_str pool_address
    mint_pk ← from_str mint
    wsol_mint ← from_str wsol_mint_id
    token_program ← from_str token_program_id
    pool ← fetch_pool_state pool_address
    reserve_0 ← token_balance pool.token0_vault
    reserve_1 ← token_balance pool.token1_vault
    let is_base_in = bytes_eq pool.token0_mint mint_pk
    let min_amount_out =
        (compute_swap_amount reserve_0 reserve_1 is_base_in token_amount slippage_bps).1
    let mint_token_program = (if is_base_in then pool.token0_program else pool.token1_program)
    let user_token_ata = ata_with_program payer mint_pk mint_token_program
    let user_wsol_ata = ata payer wsol_mint
    let input = sell_input pool mint_pk user_token_ata
    let output = sell_output pool mint_pk token_program user_wsol_ata wsol_mint
    swap ← build_swap_instruction pool_pk pool payer input output token_amount min_amount_out
    close ← close_account token_program user_wsol_ata payer payer
    ok (create_ata payer payer wsol_mint token_program ∷ swap ∷ close ∷ [])
