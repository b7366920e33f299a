-- ===== src/PumpSwap/Parser.antt =====
-- src/pumpswap.rs: `parse_pumpswap_instruction`.
use girasolbot.Prelude.{
  ℕ, Bool, not, ◌&&◌, ◌||◌, Option, none, some, List, String, Bytes, length, ltb, leb, ◌==◌, take,
  get_elem?, filter_map, bytes_eq, if◌then◌else◌,
}
use girasolbot.Prelude.Options.{◌>>=◌, ◌or_else◌, filter}
use girasolbot.Json.{Json}
use girasolbot.CopyEngine.Types.{Decoders, buy_discriminator, sell_discriminator, u64_at}
use girasolbot.PumpSwap.{PumpSwapAccounts}

-- Whether the data are those of a buy, and the two amounts.
unfoldable pub amounts_of : Bytes → Option (Bool × ℕ × ℕ)
unfolding u64_at
amounts_of bs =
    let disc = take 8 bs in
    let is_buy = bytes_eq disc buy_discriminator in
    let is_sell = bytes_eq disc sell_discriminator in
    if ltb (length bs) 24 || not is_buy && not is_sell
    then none
    else (do amount1 ← u64_at bs 8; amount2 ← u64_at bs 16; some (is_buy, amount1, amount2))

unfoldable pub named_accounts : List ℕ → List String → Option (List String)
named_accounts indices account_keys =
    let names = filter_map (get_elem? account_keys) indices in
    if ltb (length indices) 17 || ltb (length names) 17 then none else some names

module _ (j : Json) (dec : Decoders j) where
  -- Base64 first, where it gives 24 bytes or more, then base58.
  unfoldable pub decode_data : String → Option Bytes
  decode_data data_str =
      filter (λ decoded. leb 24 (length decoded)) (dec.base64 data_str) or_else dec.bs58 data_str

  unfoldable pub parse_pumpswap_instruction :
      j.Value → ℕ → List String → Option (Bool × PumpSwapAccounts)
  unfolding decode_data amounts_of named_accounts
  parse_pumpswap_instruction instruction pumpswap_idx account_keys = do
    program_id_idx ← j.get instruction "programIdIndex" >>= j.as_u64
    if program_id_idx == pumpswap_idx
        then (do
          data_str ← j.get instruction "data" >>= j.as_str
          data_bytes ← decode_data data_str
          (is_buy, token_amount, sol_amount) ← amounts_of data_bytes
          indices ← j.get instruction "accounts" >>= j.as_array
          let account_list = filter_map j.as_u64 indices in
              do
                accounts ← named_accounts account_list account_keys
                pool ← get_elem? account_list 0 >>= get_elem? account_keys
                base_mint ← get_elem? account_list 3 >>= get_elem? account_keys
                quote_mint ← get_elem? account_list 4 >>= get_elem? account_keys
                some (
                  is_buy,
                  record {
                    accounts = accounts;
                    pool = pool;
                    base_mint = base_mint;
                    quote_mint = quote_mint;
                    token_amount = token_amount;
                    sol_amount = sol_amount;
                  },
                ))
        else none
