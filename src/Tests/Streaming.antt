-- ===== src/Tests/Streaming.antt =====
-- Tests of the Geyser listener.
use girasolbot.Prelude.{
  ℕ, ◌≡◌, refl, map, true, false, some, Option, List, [], ◌∷◌, ◌++◌, String, Pubkey, bytes_eq,
  from_le_bytes,
}
use mathlib.Core.Option
use girasolbot.Float.Fixed.{fixed}
use girasolbot.Tests.Data.{num}
use girasolbot.CopyEngine.Types.{buy_discriminator, sell_discriminator, pump_fun, SolDelta}
use girasolbot.CopyEngine.Fetch.{DetectedBuy}
use girasolbot.Shreds.Parse.{ResolvedKeys, parse_instruction}
use girasolbot.Shreds.Parse.Agreement.{buy_of, sell_of}
use girasolbot.Geyser.{
  ProgramIds, Instruction, TransactionStatusMeta, TransactionMessage,
  SubscribeUpdateTransactionInfo,
}
use girasolbot.Geyser.Pump.{check_instruction}
use girasolbot.Geyser.Agreement.{compiled, but_spent, but_received, check_instruction-agrees}
use girasolbot.Geyser.Stream.{SubscribeUpdate, on_update}
use girasolbot.Geyser.Stream.Single.{IsSingle, on_update-IsSingle}

abbrev encode : Pubkey → String
encode key = "key"

abbrev ids : ProgramIds
ids = record {
  pump_fun = 1 ∷ [];
  pump_fun_amm = 2 ∷ [];
  raydium_v4 = 3 ∷ [];
  raydium_cpmm = 4 ∷ [];
}

abbrev amounts : List ℕ
amounts = 5 ∷ 0 ∷ 0 ∷ 0 ∷ 0 ∷ 0 ∷ 0 ∷ 0 ∷ 9 ∷ 0 ∷ 0 ∷ 0 ∷ 0 ∷ 0 ∷ 0 ∷ 0 ∷ []

abbrev buys : Instruction
buys = record {
  program_id_index = 1;
  accounts = 0 ∷ 0 ∷ 2 ∷ [];
  data_bytes = buy_discriminator ++ amounts;
}

abbrev sells : Instruction
sells = record {
  program_id_index = 1;
  accounts = 0 ∷ 0 ∷ 2 ∷ [];
  data_bytes = sell_discriminator ++ amounts;
}

abbrev meta : TransactionStatusMeta
meta = record {
  failed = false;
  pre_balances = 4000000000 ∷ [];
  post_balances = 1000000000 ∷ [];
  inner_instructions = (sells ∷ buys ∷ []) ∷ [];
  pre_token_balances = [];
  post_token_balances = [];
  loaded_writable_addresses = [];
  loaded_readonly_addresses = (8 ∷ []) ∷ [];
}

abbrev message : TransactionMessage
message = record { account_keys = (7 ∷ []) ∷ (1 ∷ []) ∷ []; instructions = buys ∷ buys ∷ [] }

abbrev tx : SubscribeUpdateTransactionInfo
tx = record {
  signature = 6 ∷ [];
  transaction = some (record { message = some message });
  meta = some meta;
}

abbrev update : SubscribeUpdate
update = record {
  pong = false;
  slot = false;
  transaction = some (record { slot = 12; transaction = some tx });
}

abbrev keys : List Pubkey
keys = (7 ∷ []) ∷ (1 ∷ []) ∷ (8 ∷ []) ∷ []

-- The amount of a buy, and the number of lamports that it is said to cost.
abbrev shown : DetectedBuy fixed → Option ℕ × Option ℕ
shown b = (b.token_amount, Option.map fixed.to_u64 b.sol_amount)

on_update-test :
    let sent = on_update fixed encode (λ mints. mints) ids true (7 ∷ []) update in
    map shown sent.0 ≡ (some 5, some 3) ∷ []
unfolding on_update bytes_eq from_le_bytes
on_update-test = refl

on_update-IsSingle_example :
    IsSingle fixed true (on_update fixed encode (λ mints. mints) ids true (7 ∷ []) update)
on_update-IsSingle_example =
    on_update-IsSingle fixed encode (λ mints. mints) ids true (7 ∷ []) update

abbrev resolved : ResolvedKeys
resolved = record { static_keys = (7 ∷ []) ∷ (1 ∷ []) ∷ []; full_keys = some keys }

check_instruction-agrees_example :
    let delta : SolDelta fixed = some (num 0, num 3) in
    let found = parse_instruction fixed encode resolved 1 "sig" 12 (compiled buys) in
    let checked = check_instruction fixed encode "sig" 12 keys delta 1 buys in
    (checked.0 ≡ Option.map (but_spent fixed delta) (buy_of found))
    × (checked.1 ≡ Option.map (but_received fixed delta) (sell_of found))
check_instruction-agrees_example =
    check_instruction-agrees fixed encode "sig" 12 ((7 ∷ []) ∷ (1 ∷ []) ∷ []) ((8 ∷ []) ∷ [])
      (some (num 0, num 3)) 1 buys
