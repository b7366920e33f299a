-- ===== src/Shreds/Parse/Agreement.antt =====
-- The parser of src/shreds_listener.rs against those of src/copy_engine.rs.
use girasolbot.Prelude.{
  ℕ, zero, suc, ◌≡◌, refl, true, false, not, ◌||◌, Option, none, some, List, [], ◌∷◌, ◌++◌, String,
  Bytes, Pubkey, length, ltb, leb, ◌==◌, take, get_elem?, filter_map, map, bytes_eq, bytes_eq-eq,
  if◌then◌else◌, arith, Bool-cases, inl, inr, Option-cases,
}
use girasolbot.Prelude.Options.{◌>>=◌}
use mathlib.Core.Option
use mathlib.Core.Path.{fun_ext}
use girasolbot.Float.{Float}
use girasolbot.Json.Tree.{Tree, get_field, tree_json}
use girasolbot.CopyEngine.Types.{Decoders, buy_discriminator, sell_discriminator, pump_fun}
use girasolbot.CopyEngine.Notification.{LogsNotification}
use girasolbot.CopyEngine.Fetch.{DetectedBuy, DetectedSell, detected_buy, detected_sell}
use girasolbot.CopyEngine.Pump.{
  pump_data, mint_of, kept_accounts, try_parse_pump_buy_instruction,
  try_parse_pump_sell_instruction,
}
use girasolbot.CopyEngine.Pump.Encoded.{instruction_tree, account_indices-tree}
use girasolbot.Shreds.Parse.{
  CompiledInstruction, ResolvedKeys, get_key, Found, skip, unresolved, bought, sold, pump_accounts,
  found_buy, found_sell, parse_instruction,
}

get_elem?-within :
    (xs ys : List Pubkey) (i : ℕ)
    → ltb i (length xs) ≡ true
    → get_elem? xs i ≡ get_elem? (xs ++ ys) i
get_elem?-within [] ys zero h = cc
get_elem?-within [] ys (suc i) h = ground arith
get_elem?-within (x ∷ xs) ys zero h = refl
get_elem?-within (x ∷ xs) ys (suc i) h = get_elem?-within xs ys i (ground arith)

-- The keys of a message that is resolved, or has no tables: one list.
pub get_key-append :
    (static_keys more : List Pubkey) (idx : ℕ)
    → get_key (record { static_keys = static_keys; full_keys = some (static_keys ++ more) }) idx
      ≡ get_elem? (static_keys ++ more) idx
unfolding get_key
get_key-append static_keys more idx = elim (Bool-cases (ltb idx (length static_keys))) [
  | inl e ↦ rw e (get_elem?-within static_keys more idx e)
  | inr e ↦ rw e refl
]

map-get_elem? :
    (f : Pubkey → String) (keys : List Pubkey) (i : ℕ)
    → get_elem? (map f keys) i ≡ Option.map f (get_elem? keys i)
map-get_elem? f [] i = refl
map-get_elem? f (k ∷ keys) zero = refl
map-get_elem? f (k ∷ keys) (suc i) = map-get_elem? f keys i

names_lem :
    (f : Pubkey → String) (keys : List Pubkey) (accounts : List ℕ)
    → filter_map (get_elem? (map f keys)) accounts ≡ map f (filter_map (get_elem? keys) accounts)
names_lem f keys [] = refl
names_lem f keys (a ∷ accounts) = elim (Option-cases (get_elem? keys a)) [
  | inl missing ↦ ground (arith, map-get_elem? f keys a, names_lem f keys accounts)
  | inr (k, found) ↦ ground (arith, map-get_elem? f keys a, names_lem f keys accounts)
]

-- The trades that an instruction is found to be.
abbrev pub buy_of : {F : Float} → Found F → Option (DetectedBuy F)
buy_of skip = none
buy_of unresolved = none
buy_of (bought b) = some b
buy_of (sold s) = none

abbrev pub sell_of : {F : Float} → Found F → Option (DetectedSell F)
sell_of skip = none
sell_of unresolved = none
sell_of (bought b) = none
sell_of (sold s) = some s

module _ (F : Float) (trees : String → Option Tree) (dec : Decoders (tree_json trees))
    (set_order : List String → List String) (to_string : Pubkey → String)
    (valid : (k : Pubkey) → dec.is_pubkey (to_string k) ≡ true) where
  mint_of-third :
      (accounts : List ℕ) (keys : List Pubkey)
      → mint_of F (tree_json trees) dec accounts (map to_string keys) ≡ (
          if leb 3 (length accounts)
          then Option.map to_string (get_elem? accounts 2 >>= get_elem? keys)
          else none)
  unfolding mint_of
  mint_of-third [] keys = refl
  mint_of-third (a ∷ []) keys = refl
  mint_of-third (a ∷ b ∷ []) keys = refl
  mint_of-third (a ∷ b ∷ c ∷ accounts) keys = elim (Option-cases (get_elem? keys c)) [
    | inl missing ↦ ground (arith, map-get_elem? to_string keys c)
    | inr (k, found) ↦ ground (arith, map-get_elem? to_string keys c, valid k)
  ]

  pump_data-tree :
      (discriminator bs : Bytes) (idx pump_idx : ℕ) (data_text : String) (accounts : List ℕ)
      → dec.bs58 data_text ≡ some bs
      → pump_data F
          (tree_json trees)
          dec
          discriminator
          (instruction_tree idx data_text accounts)
          pump_idx
        ≡ (if not (idx == pump_idx) || ltb (length bs) 8
            then none
            else if bytes_eq (take 8 bs) discriminator
            then some bs
            else none)
  unfolding pump_data instruction_tree get_field
  pump_data-tree discriminator bs idx pump_idx data_text accounts e = grind arith

  kept_lem :
      (r : ResolvedKeys) (keys : List Pubkey) (accounts : List ℕ)
      → ((i : ℕ) → get_key r i ≡ get_elem? keys i)
      → kept_accounts F (tree_json trees) dec accounts (map to_string keys)
        ≡ pump_accounts F to_string r accounts
  unfolding kept_accounts pump_accounts
  kept_lem r keys accounts same = rw (names_lem to_string keys accounts, fun_ext same) refl

  -- No instruction is both a buy and a sell.
  one_kind :
      (bs : Bytes) → bytes_eq bs buy_discriminator ≡ true → bytes_eq bs sell_discriminator ≡ false
  unfolding bytes_eq
  one_kind bs h = rw (bytes_eq-eq bs buy_discriminator h) refl

  -- On an instruction of a message whose address tables are resolved, the listener to the shreds
  -- finds a buy, or a sell, exactly where the copy engine does on the same instruction as the node
  -- shows it, with the same mint, amounts and accounts.
  pub parse_instruction-agrees :
      (notif : LogsNotification (tree_json trees)) (slot : ℕ) (ix : CompiledInstruction)
      (data_text : String) (static_keys more : List Pubkey) (pump_idx : ℕ)
      → notif.slot ≡ some slot
      → dec.bs58 data_text ≡ some ix.data_bytes
      → let keys = map to_string (static_keys ++ more) in
        let tree = instruction_tree ix.program_id_index data_text ix.accounts in
        let r : ResolvedKeys = record {
          static_keys = static_keys;
          full_keys = some (static_keys ++ more);
        } in
        let found = parse_instruction F to_string r pump_idx notif.signature slot ix in
        (buy_of found
          ≡ Option.map
              (detected_buy F (tree_json trees) dec set_order notif pump_fun)
              (try_parse_pump_buy_instruction F (tree_json trees) dec tree pump_idx keys))
        × (sell_of found
            ≡ Option.map
                (detected_sell F (tree_json trees) dec set_order notif pump_fun)
                (try_parse_pump_sell_instruction F (tree_json trees) dec tree pump_idx keys))
  unfolding parse_instruction found_buy found_sell detected_buy detected_sell
      try_parse_pump_buy_instruction try_parse_pump_sell_instruction
  parse_instruction-agrees notif slot ix data_text static_keys more pump_idx at_slot decoded =
      let all = static_keys ++ more in
      let r : ResolvedKeys = record { static_keys = static_keys; full_keys = some all } in
      let same : (i : ℕ) → get_key r i ≡ get_elem? all i = get_key-append static_keys more in
      let data_of = λ (d : Bytes).
        pump_data-tree d ix.data_bytes ix.program_id_index pump_idx data_text ix.accounts decoded in
      rw
        (
          data_of buy_discriminator,
          data_of sell_discriminator,
          account_indices-tree F trees dec ix.program_id_index data_text ix.accounts,
          mint_of-third ix.accounts all,
          fun_ext same,
          kept_lem r all ix.accounts same,
          at_slot,
        )
        (elim (Bool-cases (not (ix.program_id_index == pump_idx) || ltb (length ix.data_bytes) 8)) [
          | inl other ↦ rw other (refl, refl)
          | inr ours ↦ elim (Bool-cases (bytes_eq (take 8 ix.data_bytes) buy_discriminator)) [
            | inl buys ↦ elim (Bool-cases (leb 3 (length ix.accounts))) [
              | inl enough ↦ elim (Option-cases (get_elem? ix.accounts 2 >>= get_elem? all)) [
                | inl missing ↦ rw (ours, buys, one_kind _ buys, enough, missing) (refl, refl)
                | inr (mint, found) ↦ rw (ours, buys, one_kind _ buys, enough, found) (refl, refl)
              ]
              | inr few ↦ rw (ours, buys, one_kind _ buys, few) (refl, refl)
            ]
            | inr no_buy ↦ elim (Bool-cases (bytes_eq (take 8 ix.data_bytes) sell_discriminator)) [
              | inl sells ↦ elim (Bool-cases (leb 3 (length ix.accounts))) [
                | inl enough ↦ elim (Option-cases (get_elem? ix.accounts 2 >>= get_elem? all)) [
                  | inl missing ↦ rw (ours, no_buy, sells, enough, missing) (refl, refl)
                  | inr (mint, found) ↦ rw (ours, no_buy, sells, enough, found) (refl, refl)
                ]
                | inr few ↦ rw (ours, no_buy, sells, few) (refl, refl)
              ]
              | inr no_sell ↦ rw (ours, no_buy, no_sell) (refl, refl)
            ]
          ]
        ])
