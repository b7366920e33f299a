-- ===== src/Tests/Copying.antt =====
-- Tests of the copy engine and of the PumpSwap builders.
use mathlib.Core.Option
use girasolbot.Prelude.{
  ◌*◌, ◌/◌, ◌%◌, ◌^◌, ◌+◌, ℕ, zero, suc, ◌≡◌, ◌<◌, refl, true, false, some, none, Option, List, [],
  ◌∷◌, ◌++◌, String, str_eq, if◌then◌else◌, replicate, any, inl, arith,
}
use girasolbot.Prelude.Dict
use girasolbot.Prelude.Texts.{chars}
use girasolbot.Float.Fixed.{fixed}
use girasolbot.Json.Tree.{
  Tree, null, text, array, object, nil, cons, end, field, lookup, get_field, array_of, list_of,
  tree_json,
}
use girasolbot.Chain.{Yields, ok}
use girasolbot.CopyEngine.Types.{
  Decoders, buy_discriminator, sell_discriminator, position_from, pump_fun, ParsedTransaction,
}
use girasolbot.CopyEngine.Notification.{on_message}
use girasolbot.CopyEngine.Notification.Wanted.{IsWanted, on_message-IsWanted}
use girasolbot.CopyEngine.Pump.{
  try_parse_pump_buy_instruction, try_parse_pump_sell_instruction, kept_accounts,
}
use girasolbot.CopyEngine.Pump.Encoded.{instruction_tree, with_amounts, try_parse_pump-encoded}
use girasolbot.CopyEngine.Balances.{balances_of}
use girasolbot.CopyEngine.Swap.{try_parse_raydium_swap, mints_of}
use girasolbot.CopyEngine.Swap.Direction.{IsFound, changed, try_parse_raydium_swap-IsFound}
use girasolbot.CopyEngine.Fetch.{Fetched, parsed, failed, is_429, fetch_and_parse_with_retry}
use girasolbot.CopyEngine.Fetch.Retry.{is_limited, fetch_and_parse_with_retry-first}
use girasolbot.PumpSwap.{PumpSwapAccounts, build_buy_instructions, build_sell_instructions}
use girasolbot.PumpSwap.Parser.{amounts_of}
use girasolbot.PumpSwap.Mirror.{HasAt, IsMirror, build_instructions-IsMirror}
use girasolbot.Tests.Data.{num, chain, wallet}

-- A notification of a buy at pump.fun.
abbrev notification : Tree
notification = object (
    field "params"
      (object (
        field "result"
          (object (
            field "value"
              (object (
                field "signature" (text "5sig") (
                  field "err" null (
                    field "logs"
                      (array (
                        cons (text "Program 6EF8rrecthR5Dkzon8Nwu78hRvfCKubJ14M5uBEwF6P invoke [1]")
                          (cons (text "Program log: Instruction: Buy") nil)))
                      end))))
              end))
          end))
      end)

abbrev trees : String → Option Tree
trees s = if str_eq s "notification" then some notification else none

-- "buy" and "sell" decode to the data of a buy and of a sell of 5000 tokens for 7 lamports.
abbrev decoders : Decoders (tree_json trees)
decoders = record {
  bs58 = λ s.
      if str_eq s "buy"
      then some (with_amounts buy_discriminator 5000 7)
      else if str_eq s "sell"
      then some (with_amounts sell_discriminator 5000 7)
      else none;
  base64 = λ s. none;
  is_pubkey = λ s. str_eq s "mint";
  show = λ v. "error";
}

on_message_fetches :
    Option.map (λ p. p.1) (on_message (tree_json trees) "notification") ≡ some pump_fun
unfolding on_message get_field lookup list_of array_of
on_message_fetches = refl

on_message-IsWanted_example :
    IsWanted (tree_json trees) "notification" (on_message (tree_json trees) "notification")
on_message-IsWanted_example = on_message-IsWanted (tree_json trees) "notification"

abbrev keys : List String
keys = "global" ∷ "fee" ∷ "program" ∷ "mint" ∷ "target" ∷ []

abbrev account_list : List ℕ
account_list = 0 ∷ 1 ∷ 3 ∷ 4 ∷ []

try_parse_pump-encoded_example :
    let as_buy = try_parse_pump_buy_instruction fixed (tree_json trees) decoders in
    let as_sell = try_parse_pump_sell_instruction fixed (tree_json trees) decoders in
    (as_buy (instruction_tree 2 "buy" account_list) 2 keys
      ≡ some (record {
        mint = "mint";
        sol_amount = some (fixed.fdiv (num 7) (num 1000000000));
        token_amount = some 5000;
        amm_pool = none;
        target_pump_accounts = kept_accounts fixed (tree_json trees) decoders account_list keys;
      }))
    × (as_sell (instruction_tree 2 "buy" account_list) 2 keys ≡ none)
    × (as_sell (instruction_tree 2 "sell" account_list) 2 keys
        ≡ some (record {
          mint = "mint";
          token_amount = some 5000;
          sol_received = none;
          amm_pool = none;
        }))
    × (as_buy (instruction_tree 2 "sell" account_list) 2 keys ≡ none)
try_parse_pump-encoded_example =
    try_parse_pump-encoded fixed trees decoders 2 5000 7 3 "buy" "sell" "mint" account_list keys
      (omega arith) (omega arith) refl refl refl refl refl

-- The node limits two requests and answers the third.
abbrev nothing_found : ParsedTransaction fixed
nothing_found = record { buy = none; sell = none }

abbrev replies : ℕ → Fetched fixed
replies zero = failed "429 Too many requests"
replies (suc zero) = failed "429 Too many requests"
replies (suc (suc n)) = parsed nothing_found

limited : (i : ℕ) → i < 2 → is_limited fixed (replies i) ≡ true
unfolding is_429
limited zero h = refl
limited (suc zero) h = refl
limited (suc (suc i)) h = ground arith

fetch_and_parse_with_retry-first_example :
    fetch_and_parse_with_retry fixed replies ≡ (parsed nothing_found, 200 ∷ 500 ∷ [])
fetch_and_parse_with_retry-first_example =
    fetch_and_parse_with_retry-first fixed replies 2 (omega arith) limited (inl refl)

-- The target, at the last key, gained 40 units of a mint of which it had 60.
abbrev balance : String → Tree
balance amount = object (
    field "owner" (text "target") (
      field "mint" (text "mint")
        (field "uiTokenAmount" (object (field "amount" (text amount) end)) end)))

abbrev swapped : Tree
swapped = object (
    field "meta"
      (object (
        field "preTokenBalances" (array (cons (balance "60") nil))
          (field "postTokenBalances" (array (cons (balance "100") nil)) end)))
      end)

try_parse_raydium_swap-IsFound_example :
    IsFound fixed
      (("mint", 60) ∷ [])
      (("mint", 100) ∷ [])
      (any
        (changed (("mint", 60) ∷ []) (("mint", 100) ∷ []))
        (mints_of (("mint", 60) ∷ []) ++ mints_of (("mint", 100) ∷ [])))
      (try_parse_raydium_swap fixed (tree_json trees) (λ xs. xs) swapped keys "target" none none)
unfolding balances_of Dict.insert get_field lookup array_of list_of position_from chars
try_parse_raydium_swap-IsFound_example =
    try_parse_raydium_swap-IsFound fixed (tree_json trees) (λ xs. xs) swapped keys "target" none
      none 4 (("mint", 60) ∷ []) (("mint", 100) ∷ []) (λ p xs. refl) refl refl refl

abbrev target_swap : PumpSwapAccounts
target_swap = record {
  accounts = replicate 18 "address";
  pool = "address";
  base_mint = "address";
  quote_mint = "So11111111111111111111111111111111111111112";
  token_amount = 100;
  sol_amount = 200;
}

build_instructions-IsMirror_example :
    Yields
      (HasAt 2 (λ i.
        (chain.from_str "pAMMBay6oceH9fJKBRHGP5D4bD4sWpmSwMn52FMfXEA" ≡ ok i.program_id)
        × IsMirror chain target_swap wallet i.accounts
        × (amounts_of i.data_bytes
            ≡ some (true, 300, (1000 + 1000 * 500 % 2 ^ 64 / 10000) % 2 ^ 64))))
      (build_buy_instructions chain target_swap 1000 300 wallet 500)
    × Yields
        (HasAt 0 (λ i.
          (chain.from_str "pAMMBay6oceH9fJKBRHGP5D4bD4sWpmSwMn52FMfXEA" ≡ ok i.program_id)
          × IsMirror chain target_swap wallet i.accounts
          × (amounts_of i.data_bytes ≡ some (false, 300, 10))))
        (build_sell_instructions chain target_swap 300 10 wallet)
build_instructions-IsMirror_example =
    build_instructions-IsMirror chain target_swap 1000 300 500 10 wallet (omega arith) (omega arith)
