-- ===== src/Raydium/V4/Swaps.antt =====
-- What the builders of src/raydium_v4.rs hand to the pool.
use girasolbot.Prelude.{
  ℕ, ◌^◌, ◌<◌, ◌≡◌, refl, arith, true, false, List, [], ◌∷◌, if◌then◌else◌, Option, some, String,
  Bytes, Pubkey, bytes_eq, get_elem?, replicate, drop, take, length, to_le_bytes, from_le_bytes,
  from_le_bytes-to_le_bytes, ◌++◌, map,
}
use girasolbot.Float.{Float}
use girasolbot.Chain.{ok, Yields, Yields-bind, Instruction, writable, Chain}
use girasolbot.Raydium.V4.{
  AmmInfo, build_swap_base_in_instruction, fetch_amm_info, compute_swap_amount, lamports,
  wsol_mint_id,
}

-- The two amounts, as the program reads them out of the 17 bytes of instruction data.
abbrev pub amount_at : ℕ → Bytes → ℕ
amount_at place bs = from_le_bytes (take 8 (drop place bs))

amounts_lem :
    (a b : ℕ)
    → a < 2 ^ 64
    → b < 2 ^ 64
    → let bs = 9 ∷ to_le_bytes 8 a ++ to_le_bytes 8 b in
      (amount_at 1 bs ≡ a) × (amount_at 9 bs ≡ b) × (length bs ≡ 17)
unfolding to_le_bytes
amounts_lem a b ha hb =
    (from_le_bytes-to_le_bytes 8 a (omega arith), from_le_bytes-to_le_bytes 8 b (omega arith), refl)

-- A swap instruction of a pool: source and destination at the accounts 14 and 15, the user as the
-- one signer at 16, and the tag 9 and the two amounts as data.
abbrev pub IsSwap : Pubkey → Pubkey → Pubkey → ℕ → ℕ → Instruction → Type 0
IsSwap source dest user a b i =
    (drop 14 i.accounts ≡ writable source false ∷ writable dest false ∷ writable user true ∷ [])
    × (map (λ m. m.is_signer) (take 14 i.accounts) ≡ replicate 14 false)
    × (take 1 i.data_bytes ≡ 9 ∷ [])
    × (amount_at 1 i.data_bytes ≡ a)
    × (amount_at 9 i.data_bytes ≡ b)
    × (length i.data_bytes ≡ 17)

module _ (F : Float) (chain : Chain) (decode : Bytes → Option AmmInfo) where
  open chain use {from_str, ata, sync_native, close_account, token_balance}

  pub build_swap_base_in_instruction-IsSwap :
      (amm : Pubkey) (info : AmmInfo) (source dest user : Pubkey) (a b : ℕ)
      → a < 2 ^ 64
      → b < 2 ^ 64
      → Yields
          (IsSwap source dest user a b)
          (build_swap_base_in_instruction F chain decode amm info source dest user a b)
  unfolding build_swap_base_in_instruction
  build_swap_base_in_instruction-IsSwap amm info source dest user a b ha hb =
      Yields-bind _ (from_str _) _ (λ p ep. Yields-bind _ (from_str _) _ (λ q eq.
        Yields-bind _ (from_str _) _
          (λ r er. let lem = amounts_lem a b ha hb in (refl, refl, refl, lem.0, lem.1, lem.2))))

  -- The instruction at a place of the list.
  abbrev pub SwapsAt : ℕ → (Instruction → Type 0) → List Instruction → Type 0
  SwapsAt n P is = (i : Instruction) × (get_elem? is n ≡ some i) × P i

  -- The four instructions of a sell: at the third place, a swap of the whole token amount.
  abbrev pub BuildsSell : String → String → ℕ → ℕ → Pubkey → List Instruction → Type 0
  BuildsSell amm_address mint token_amount slippage_bps payer is =
      (mint_pk : Pubkey) × (wsol : Pubkey) × (info : AmmInfo) × (coin : ℕ) × (pc : ℕ) × (from_str
          mint
        ≡ ok mint_pk)
      × (from_str wsol_mint_id ≡ ok wsol)
      × (fetch_amm_info F chain decode amm_address ≡ ok info)
      × (token_balance info.token_coin ≡ ok coin)
      × (token_balance info.token_pc ≡ ok pc)
      × (length is ≡ 4)
      × (let is_base_in = bytes_eq info.coin_mint mint_pk in
          let quote = compute_swap_amount coin pc is_base_in token_amount slippage_bps in
          SwapsAt 2 (IsSwap (ata payer mint_pk) (ata payer wsol) payer token_amount quote.1) is)

  -- The six instructions of a buy: at the fifth place, a swap of the lamports.
  abbrev pub BuildsBuy : String → String → F.F64 → ℕ → Pubkey → List Instruction → Type 0
  BuildsBuy amm_address mint sol_amount slippage_bps payer is =
      (mint_pk : Pubkey) × (wsol : Pubkey) × (info : AmmInfo) × (coin : ℕ) × (pc : ℕ) × (from_str
          mint
        ≡ ok mint_pk)
      × (from_str wsol_mint_id ≡ ok wsol)
      × (fetch_amm_info F chain decode amm_address ≡ ok info)
      × (token_balance info.token_coin ≡ ok coin)
      × (token_balance info.token_pc ≡ ok pc)
      × (length is ≡ 6)
      × (let is_base_in = bytes_eq info.coin_mint wsol in
          let amount_in = lamports F chain decode sol_amount in
          let quote = compute_swap_amount coin pc is_base_in amount_in slippage_bps in
          let source = (if is_base_in then ata payer wsol else ata payer mint_pk) in
          let dest = (if is_base_in then ata payer mint_pk else ata payer wsol) in
          SwapsAt 4 (IsSwap source dest payer amount_in quote.1) is)
