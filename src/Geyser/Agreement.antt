-- ===== src/Geyser/Agreement.antt =====
-- The check of src/geyser_listener.rs for a trade on pump.fun against that of
-- src/shreds_listener.rs.
use girasolbot.Prelude.{
  ℕ, ◌≡◌, refl, not, ◌||◌, some, List, ◌++◌, String, Pubkey, length, ltb, leb, ◌==◌, take,
  get_elem?, bytes_eq, Bool-cases, inl, inr, Option-cases,
}
use girasolbot.Prelude.Options.{◌>>=◌, ◌or_else◌}
use mathlib.Core.Option
use mathlib.Core.Path.{fun_ext}
use girasolbot.Float.{Float}
use girasolbot.CopyEngine.Types.{buy_discriminator, sell_discriminator, SolDelta}
use girasolbot.CopyEngine.Fetch.{DetectedBuy, DetectedSell}
use girasolbot.CopyEngine.Swap.{positive, received_of, spent_of}
use girasolbot.Shreds.Parse.{
  CompiledInstruction, ResolvedKeys, get_key, pump_accounts, found_buy, found_sell,
  parse_instruction,
}
use girasolbot.Shreds.Parse.Agreement.{buy_of, sell_of, get_key-append}
use girasolbot.Geyser.{Instruction}
use girasolbot.Geyser.Pump.{check_instruction, pump_buy, pump_sell, lamports, names_of}

-- The instruction as the shreds carry it.
abbrev pub compiled : Instruction → CompiledInstruction
compiled ix = record {
  program_id_index = ix.program_id_index;
  accounts = ix.accounts;
  data_bytes = ix.data_bytes;
}

module _ (F : Float) where
  -- A buy whose SOL amount is what the target spent, where that is known to be positive.
  abbrev pub but_spent : SolDelta F → DetectedBuy F → DetectedBuy F
  but_spent delta b = record {
    signature = b.signature;
    mint = b.mint;
    dex = b.dex;
    sol_amount = positive F (spent_of F delta) or_else b.sol_amount;
    token_amount = b.token_amount;
    slot = b.slot;
    amm_pool = b.amm_pool;
    target_pump_accounts = b.target_pump_accounts;
  }

  -- A sell with what the target received, where that is known to be positive.
  abbrev pub but_received : SolDelta F → DetectedSell F → DetectedSell F
  but_received delta s = record {
    signature = s.signature;
    mint = s.mint;
    dex = s.dex;
    sol_received = positive F (received_of F delta);
    token_amount = s.token_amount;
    slot = s.slot;
    amm_pool = s.amm_pool;
  }

  module _ (encode : Pubkey → String) where
    -- On one instruction of a transaction whose address tables are resolved, the Geyser listener
    -- finds a buy, or a sell, exactly where the listener to the shreds does, with the same message
    -- up to the SOL amount: the Geyser listener takes what the target spent or received, where the
    -- balances show it, and for a buy the limit in the instruction otherwise.
    pub check_instruction-agrees :
        (sig : String) (slot : ℕ) (static_keys more : List Pubkey) (delta : SolDelta F)
        (pump_idx : ℕ) (ix : Instruction)
        → let r : ResolvedKeys = record {
          static_keys = static_keys;
          full_keys = some (static_keys ++ more);
        } in
          let found = parse_instruction F encode r pump_idx sig slot (compiled ix) in
          let checked =
            check_instruction F encode sig slot (static_keys ++ more) delta pump_idx ix in
          (checked.0 ≡ Option.map (but_spent delta) (buy_of found))
          × (checked.1 ≡ Option.map (but_received delta) (sell_of found))
    unfolding parse_instruction found_buy found_sell pump_accounts check_instruction pump_buy
        pump_sell lamports names_of
    check_instruction-agrees sig slot static_keys more delta pump_idx ix =
        let all = static_keys ++ more in
        let r : ResolvedKeys = record { static_keys = static_keys; full_keys = some all } in
        let same : (i : ℕ) → get_key r i ≡ get_elem? all i = get_key-append static_keys more in
        rw (fun_ext same)
          (elim (Bool-cases
            (not (ix.program_id_index == pump_idx) || ltb (length ix.data_bytes) 8)) [
              | inl other ↦ rw other (refl, refl)
              | inr ours ↦ elim (Bool-cases (bytes_eq (take 8 ix.data_bytes) buy_discriminator)) [
                | inl buys ↦ elim (Bool-cases (leb 3 (length ix.accounts))) [
                  | inl enough ↦ elim (Option-cases (get_elem? ix.accounts 2 >>= get_elem? all)) [
                    | inl missing ↦ rw (ours, buys, enough, missing) (refl, refl)
                    | inr (mint, found) ↦ rw (ours, buys, enough, found, fun_ext same) (refl, refl)
                  ]
                  | inr few ↦
                      elim (Bool-cases (bytes_eq (take 8 ix.data_bytes) sell_discriminator)) [
                        | inl sells ↦ rw (ours, buys, few, sells) (refl, refl)
                        | inr no_sell ↦ rw (ours, buys, few, no_sell) (refl, refl)
                      ]
                ]
                | inr no_buy ↦
                    elim (Bool-cases (bytes_eq (take 8 ix.data_bytes) sell_discriminator)) [
                      | inl sells ↦ elim (Bool-cases (leb 3 (length ix.accounts))) [
                        | inl enough ↦
                            elim (Option-cases (get_elem? ix.accounts 2 >>= get_elem? all)) [
                              | inl missing ↦ rw (ours, no_buy, sells, enough, missing) (refl, refl)
                              | inr (mint, found) ↦
                                  rw (ours, no_buy, sells, enough, found) (refl, refl)
                            ]
                        | inr few ↦ rw (ours, no_buy, sells, few) (refl, refl)
                      ]
                      | inr no_sell ↦ rw (ours, no_buy, no_sell) (refl, refl)
                    ]
              ]
            ])
