-- ===== src/Raydium/Cpmm/Swaps.antt =====
-- What the builders of src/raydium_cpmm.rs hand to the pool.
use girasolbot.Prelude.{
  ℕ, ◌/◌, ◌^◌, ◌<◌, ◌≡◌, refl, arith, true, false, wrap64, List, [], ◌∷◌, if◌then◌else◌, Option,
  some, String, Bytes, Pubkey, bytes_eq, get_elem?, drop, take, length, to_le_bytes, from_le_bytes,
  from_le_bytes-to_le_bytes, ◌++◌,
}
use girasolbot.Float.{Float}
use girasolbot.Chain.{ok, Yields, Yields-bind, Yields→, Instruction, writable, readonly, Chain}
use girasolbot.Raydium.Cpmm.{
  CpmmPoolState, Side, build_swap_instruction, build_sell_instructions, lamports, fetch_pool_state,
  compute_swap_amount, wsol_mint_id, token_program_id, swap_base_in_discriminator, sell_input,
  sell_output,
}

abbrev pub amount_at : ℕ → Bytes → ℕ
amount_at place bs = from_le_bytes (take 8 (drop place bs))

amounts_lem :
    (a b : ℕ)
    → a < 2 ^ 64
    → b < 2 ^ 64
    → let bs = swap_base_in_discriminator ++ to_le_bytes 8 a ++ to_le_bytes 8 b in
      (take 8 bs ≡ swap_base_in_discriminator)
      × (amount_at 8 bs ≡ a)
      × (amount_at 16 bs ≡ b)
      × (length bs ≡ 24)
unfolding to_le_bytes
amounts_lem a b ha hb = (
  refl,
  from_le_bytes-to_le_bytes 8 a (omega arith),
  from_le_bytes-to_le_bytes 8 b (omega arith),
  refl,
)

module _ (F : Float) (chain : Chain) (decode : Bytes → Option CpmmPoolState) where
  open chain use {from_str, ata, ata_with_program, sync_native, close_account, token_balance}

  -- A swap instruction of a pool between two sides: each side's accounts are at its places, and the
  -- two amounts follow the tag in the data.
  abbrev pub IsSwap :
      Side F chain decode → Side F chain decode → Pubkey → ℕ → ℕ → Instruction → Type 0
  IsSwap input output payer a b i =
      (get_elem? i.accounts 0 ≡ some (writable payer true))
      × (drop 4 (take 12 i.accounts)
          ≡ writable input.user_ata false
            ∷ writable output.user_ata false
            ∷ writable input.vault false
            ∷ writable output.vault false
            ∷ readonly input.program false
            ∷ readonly output.program false
            ∷ readonly input.mint false
            ∷ readonly output.mint false
            ∷ [])
      × (length i.accounts ≡ 13)
      × (take 8 i.data_bytes ≡ swap_base_in_discriminator)
      × (amount_at 8 i.data_bytes ≡ a)
      × (amount_at 16 i.data_bytes ≡ b)
      × (length i.data_bytes ≡ 24)

  pub build_swap_instruction-IsSwap :
      (pool_pk : Pubkey) (pool : CpmmPoolState) (payer : Pubkey)
      (input output : Side F chain decode) (a b : ℕ)
      → a < 2 ^ 64
      → b < 2 ^ 64
      → Yields
          (IsSwap input output payer a b)
          (build_swap_instruction F chain decode pool_pk pool payer input output a b)
  unfolding build_swap_instruction
  build_swap_instruction-IsSwap pool_pk pool payer input output a b ha hb =
      Yields-bind _ (from_str _) _ (λ p ep.
        Yields-bind _ (from_str _) _ (λ q eq.
          let lem = amounts_lem a b ha hb in (refl, refl, refl, lem.0, lem.1, lem.2, lem.3)))

  -- The instruction at a place of the list.
  abbrev pub SwapsAt : ℕ → (Instruction → Type 0) → List Instruction → Type 0
  SwapsAt n P is = (i : Instruction) × (get_elem? is n ≡ some i) × P i

  min_bound : (x : ℕ) → wrap64 x / 10000 < 2 ^ 64
  min_bound x = omega arith

  -- The three instructions of a sell: at the second place, a swap of the whole token amount.
  abbrev pub BuildsSell : String → String → ℕ → ℕ → Pubkey → List Instruction → Type 0
  BuildsSell pool_address mint token_amount slippage_bps payer is =
      (mint_pk : Pubkey) × (wsol : Pubkey) × (program : Pubkey) × (pool : CpmmPoolState) × (r0 : ℕ)
      × (r1 : ℕ) × (from_str mint ≡ ok mint_pk)
      × (from_str wsol_mint_id ≡ ok wsol)
      × (from_str token_program_id ≡ ok program)
      × (fetch_pool_state F chain decode pool_address ≡ ok pool)
      × (token_balance pool.token0_vault ≡ ok r0)
      × (token_balance pool.token1_vault ≡ ok r1)
      × (length is ≡ 3)
      × (let is_base_in = bytes_eq pool.token0_mint mint_pk in
          let own = (if is_base_in then pool.token0_program else pool.token1_program) in
          let input = sell_input F chain decode pool mint_pk (ata_with_program payer mint_pk own) in
          let output = sell_output F chain decode pool mint_pk program (ata payer wsol) wsol in
          let quote = compute_swap_amount r0 r1 is_base_in token_amount slippage_bps in
          SwapsAt 1 (IsSwap input output payer token_amount quote.1) is)

  -- Whenever `build_sell_instructions` of the CPMM returns, its second of three instructions swaps
  -- the whole token amount: the payer's token account, the vault and the token program of the side
  -- that holds the mint are the input, the WSOL account and the other vault the output, and the
  -- minimum is the one of the quote at the current reserves.
  pub build_sell_instructions-Swaps :
      (pool_address mint : String) (token_amount slippage_bps : ℕ) (payer : Pubkey)
      → token_amount < 2 ^ 64
      → Yields
          (BuildsSell pool_address mint token_amount slippage_bps payer)
          (build_sell_instructions F chain decode pool_address mint token_amount slippage_bps payer)
  unfolding build_sell_instructions compute_swap_amount
  build_sell_instructions-Swaps pool_address mint token_amount slippage_bps payer h =
      Yields-bind _ (from_str _) _ (λ key e1. Yields-bind _ (from_str _) _ (λ mint_pk e2.
        Yields-bind _ (from_str _) _ (λ wsol e3. Yields-bind _ (from_str _) _ (λ program e4.
          Yields-bind _ (fetch_pool_state F chain decode pool_address) _ (λ pool e5.
            Yields-bind _ (token_balance _) _ (λ r0 e6. Yields-bind _ (token_balance _) _ (λ r1 e7.
              Yields-bind _ (build_swap_instruction F chain decode _ pool _ _ _ _ _) _ (λ swap e8.
                Yields-bind _ (close_account _ _ _ _) _ (λ close e9. (
                  mint_pk,
                  wsol,
                  program,
                  pool,
                  r0,
                  r1,
                  e2,
                  e3,
                  e4,
                  e5,
                  e6,
                  e7,
                  refl,
                  (
                    swap,
                    refl,
                    Yields→ _ _ swap
                        (build_swap_instruction-IsSwap key pool payer _ _ _ _ h (min_bound _)) e8,
                  ),
                ))))))))))

  -- The six instructions of a buy: at the fifth place, a swap of the lamports.
  abbrev pub BuildsBuy : String → String → F.F64 → ℕ → Pubkey → List Instruction → Type 0
  BuildsBuy pool_address mint sol_amount slippage_bps payer is =
      (mint_pk : Pubkey) × (wsol : Pubkey) × (program : Pubkey) × (pool : CpmmPoolState) × (r0 : ℕ)
      × (r1 : ℕ) × (from_str mint ≡ ok mint_pk)
      × (from_str wsol_mint_id ≡ ok wsol)
      × (from_str token_program_id ≡ ok program)
      × (fetch_pool_state F chain decode pool_address ≡ ok pool)
      × (token_balance pool.token0_vault ≡ ok r0)
      × (token_balance pool.token1_vault ≡ ok r1)
      × (length is ≡ 6)
      × (let is_base_in = bytes_eq pool.token0_mint wsol in
          let amount_in = lamports F chain decode sol_amount in
          let own = (if is_base_in then pool.token1_program else pool.token0_program) in
          let input : Side F chain decode = record {
            user_ata = ata payer wsol;
            vault = if is_base_in then pool.token0_vault else pool.token1_vault;
            program = if is_base_in then program else pool.token0_program;
            mint = wsol;
          } in
          let output : Side F chain decode = record {
            user_ata = ata_with_program payer mint_pk own;
            vault = if is_base_in then pool.token1_vault else pool.token0_vault;
            program = if is_base_in then pool.token1_program else program;
            mint = mint_pk;
          } in
          let quote = compute_swap_amount r0 r1 is_base_in amount_in slippage_bps in
          SwapsAt 4 (IsSwap input output payer amount_in quote.1) is)
