-- ===== src/CopyEngine/Pump/Encoded.antt =====
-- The two parsers of pump.fun instructions on the instructions that the program defines.

use girasolbot.Prelude.{
  ℕ, ◌^◌, ◌<◌, ◌≡◌, refl, ap, true, Option, some, none, List, [], ◌∷◌, ◌++◌, String, Bytes, map,
  get_elem?, filter_map, to_le_bytes, from_le_bytes-to_le_bytes, bytes_eq, arith, if◌then◌else◌,
  ltb, not, ◌||◌, length, take,
}
use girasolbot.Float.{Float}
use girasolbot.Json.Tree.{
  Tree, number, text, array, object, end, field, items_of, list_of, get_field, array_of, tree_json,
}
use girasolbot.CopyEngine.Types.{
  Decoders, buy_discriminator, sell_discriminator, u64_at, account_indices,
}
use girasolbot.CopyEngine.Pump.{
  pump_data, mint_of, kept_accounts, try_parse_pump_buy_instruction,
  try_parse_pump_sell_instruction,
}

-- An instruction as the node shows it: the index of its program, its data, and its accounts.
unfoldable pub instruction_tree : ℕ → String → List ℕ → Tree
instruction_tree idx data_text accounts = object (
    field "programIdIndex" (number idx) (
      field "data" (text data_text)
        (field "accounts" (array (items_of (map number accounts))) end)))

-- The data of an instruction with two amounts, as the layout of the source says.
abbrev pub with_amounts : Bytes → ℕ → ℕ → Bytes
with_amounts discriminator a b = discriminator ++ to_le_bytes 8 a ++ to_le_bytes 8 b

module _ (F : Float) (trees : String → Option Tree) (dec : Decoders (tree_json trees)) where
  open F use {of_u64, fdiv}

  numbers_back :
      (xs : List ℕ) → filter_map (tree_json trees).as_u64 (list_of (items_of (map number xs))) ≡ xs
  unfolding list_of items_of
  numbers_back [] = refl
  numbers_back (x ∷ xs) = ap (◌∷◌ x) (numbers_back xs)

  pub account_indices-tree :
      (idx : ℕ) (data_text : String) (accounts : List ℕ)
      → account_indices (tree_json trees) (instruction_tree idx data_text accounts) ≡ accounts
  unfolding account_indices instruction_tree get_field array_of
  account_indices-tree idx data_text accounts = numbers_back accounts

  pump_data-tree :
      (discriminator bs : Bytes) (idx : ℕ) (data_text : String) (accounts : List ℕ)
      → dec.bs58 data_text ≡ some bs
      → pump_data F
          (tree_json trees)
          dec
          discriminator
          (instruction_tree idx data_text accounts)
          idx
        ≡ (if ltb (length bs) 8 || not (bytes_eq (take 8 bs) discriminator) then none else some bs)
  unfolding pump_data instruction_tree get_field
  pump_data-tree discriminator bs idx data_text accounts e = grind arith

  mint_of-third :
      (accounts : List ℕ) (keys : List String) (third : ℕ) (mint : String)
      → get_elem? accounts 2 ≡ some third
      → get_elem? keys third ≡ some mint
      → dec.is_pubkey mint ≡ true
      → mint_of F (tree_json trees) dec accounts keys ≡ some mint
  unfolding mint_of
  mint_of-third [] keys third mint e2 ek valid = cc
  mint_of-third (a ∷ []) keys third mint e2 ek valid = cc
  mint_of-third (a ∷ b ∷ []) keys third mint e2 ek valid = cc
  mint_of-third (a ∷ b ∷ c ∷ accounts) keys third mint e2 ek valid = grind arith

  -- The data of either kind are those of that kind and not of the other.
  pump_data-with_amounts :
      (idx a b : ℕ) (buy_text sell_text : String) (accounts : List ℕ)
      → dec.bs58 buy_text ≡ some (with_amounts buy_discriminator a b)
      → dec.bs58 sell_text ≡ some (with_amounts sell_discriminator a b)
      → let data_of = pump_data F (tree_json trees) dec in
        (data_of buy_discriminator (instruction_tree idx buy_text accounts) idx
          ≡ some (with_amounts buy_discriminator a b))
        × (data_of sell_discriminator (instruction_tree idx buy_text accounts) idx ≡ none)
        × (data_of sell_discriminator (instruction_tree idx sell_text accounts) idx
            ≡ some (with_amounts sell_discriminator a b))
        × (data_of buy_discriminator (instruction_tree idx sell_text accounts) idx ≡ none)
  unfolding bytes_eq to_le_bytes
  pump_data-with_amounts idx a b buy_text sell_text accounts eb es = (
    pump_data-tree buy_discriminator _ idx buy_text accounts eb,
    pump_data-tree sell_discriminator _ idx buy_text accounts eb,
    pump_data-tree sell_discriminator _ idx sell_text accounts es,
    pump_data-tree buy_discriminator _ idx sell_text accounts es,
  )

  u64_at-with_amounts :
      (a b : ℕ)
      → a < 2 ^ 64
      → b < 2 ^ 64
      → (u64_at (with_amounts buy_discriminator a b) 8 ≡ some a)
        × (u64_at (with_amounts buy_discriminator a b) 16 ≡ some b)
        × (u64_at (with_amounts sell_discriminator a b) 8 ≡ some a)
  unfolding u64_at to_le_bytes
  u64_at-with_amounts a b ha hb =
      let first = from_le_bytes-to_le_bytes 8 a (omega arith) in
      let second = from_le_bytes-to_le_bytes 8 b (omega arith) in
      (ap some first, ap some second, ap some first)

  -- An instruction of pump.fun with a buy of `a` tokens for at most `b` lamports, whose third account
  -- is an address of the transaction, is parsed as the buy of that mint with these amounts, and is no
  -- sell; with the discriminator of a sell it is parsed as the sell of `a` tokens, and is no buy.
  pub try_parse_pump-encoded :
      (idx a b third : ℕ) (buy_text sell_text mint : String) (accounts : List ℕ)
      (keys : List String)
      → a < 2 ^ 64
      → b < 2 ^ 64
      → dec.bs58 buy_text ≡ some (with_amounts buy_discriminator a b)
      → dec.bs58 sell_text ≡ some (with_amounts sell_discriminator a b)
      → get_elem? accounts 2 ≡ some third
      → get_elem? keys third ≡ some mint
      → dec.is_pubkey mint ≡ true
      → let as_buy = try_parse_pump_buy_instruction F (tree_json trees) dec in
        let as_sell = try_parse_pump_sell_instruction F (tree_json trees) dec in
        (as_buy (instruction_tree idx buy_text accounts) idx keys
          ≡ some (record {
            mint = mint;
            sol_amount = some (fdiv (of_u64 b) (of_u64 1000000000));
            token_amount = some a;
            amm_pool = none;
            target_pump_accounts = kept_accounts F (tree_json trees) dec accounts keys;
          }))
        × (as_sell (instruction_tree idx buy_text accounts) idx keys ≡ none)
        × (as_sell (instruction_tree idx sell_text accounts) idx keys
            ≡ some (record {
              mint = mint;
              token_amount = some a;
              sol_received = none;
              amm_pool = none;
            }))
        × (as_buy (instruction_tree idx sell_text accounts) idx keys ≡ none)
  unfolding try_parse_pump_buy_instruction try_parse_pump_sell_instruction
  try_parse_pump-encoded idx a b third buy_text sell_text mint accounts keys ha hb eb es e2 ek
        valid =
      let (buys, no_sell, sells, no_buy) =
        pump_data-with_amounts idx a b buy_text sell_text accounts eb es in
      let found = mint_of-third accounts keys third mint e2 ek valid in
      let (tokens, cost, sold_tokens) = u64_at-with_amounts a b ha hb in
      (
        rw (buys, account_indices-tree idx buy_text accounts, found, tokens, cost) refl,
        rw no_sell refl,
        rw (sells, account_indices-tree idx sell_text accounts, found, sold_tokens) refl,
        rw no_buy refl,
      )
