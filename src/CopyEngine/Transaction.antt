-- ===== src/CopyEngine/Transaction.antt =====
-- src/copy_engine.rs: the trades in a transaction, looked for at pump.fun, then at PumpSwap, then at
-- Raydium.
use girasolbot.Prelude.{
  ℕ, Bool, true, false, ◌&&◌, ◌||◌, Option, none, some, List, [], ◌∷◌, String, str_eq, any, is_some,
  length, leb, ltb, if◌then◌else◌,
}
use girasolbot.Prelude.Options.{◌>>=◌, ◌or_else◌}
use girasolbot.Float.{Float}
use girasolbot.Json.{Json}
use girasolbot.PumpSwap.{PumpSwapAccounts, pumpswap_program}
use girasolbot.PumpSwap.Parser.{parse_pumpswap_instruction}
use girasolbot.CopyEngine.Types.{
  Decoders, ParsedBuy, ParsedSell, ParsedTransaction, SolDelta, position, pump_fun_program,
  raydium_v4_program, raydium_cpmm_program,
}
use girasolbot.CopyEngine.Pump.{try_parse_pump_buy_instruction, try_parse_pump_sell_instruction}
use girasolbot.CopyEngine.Balances.{extract_raydium_amm_pool}
use girasolbot.CopyEngine.Swap.{
  RaydiumSwapResult, bought, sold, try_parse_raydium_swap, positive, spent_of, received_of,
}

abbrev pub found_any : {F : Float} → ParsedTransaction F → Bool
found_any t = is_some t.buy || is_some t.sell

module _ (F : Float) (j : Json) (dec : Decoders j) where
  open F use {F64, of_u64, fdiv}

  abbrev nothing : ParsedTransaction F
  nothing = record { buy = none; sell = none }

  with_spent : SolDelta F → ParsedBuy F → ParsedBuy F
  unfolding positive
  with_spent d b = record b { sol_amount = positive F (spent_of F d) or_else b.sol_amount }

  with_received : SolDelta F → ParsedSell F → ParsedSell F
  unfolding positive
  with_received d s = record s {
    sol_received = positive F (received_of F d) or_else s.sol_received;
  }

  -- One pass of the loop over the instructions: a buy, and a sell, if there was none before.
  unfoldable pub pump_pass :
      ℕ → List String → SolDelta F → ParsedTransaction F → j.Value → ParsedTransaction F
  unfolding with_spent with_received
  pump_pass idx keys d found instr = record {
    buy = found.buy or_else (do
      b ← try_parse_pump_buy_instruction F j dec instr idx keys
      some (with_spent d b));
    sell = found.sell or_else (do
      s ← try_parse_pump_sell_instruction F j dec instr idx keys
      some (with_received d s));
  }

  unfoldable pub pump_trades :
      ℕ → List String → SolDelta F → ParsedTransaction F → List j.Value → ParsedTransaction F
  unfolding pump_pass
  pump_trades idx keys d found [] = found
  pump_trades idx keys d found (instr ∷ instrs) =
      let next = pump_pass idx keys d found instr in
      let later = pump_trades idx keys d next instrs in
      if is_some next.buy && is_some next.sell then next else later

  fallback_amount : ℕ → Option F64
  fallback_amount lamports =
      if ltb 0 lamports then some (fdiv (of_u64 lamports) (of_u64 1000000000)) else none

  swap_trade : SolDelta F → Bool × PumpSwapAccounts → ParsedTransaction F
  unfolding fallback_amount positive
  swap_trade d (true, p) = record {
    buy = some (record {
      mint = p.base_mint;
      sol_amount = positive F (spent_of F d) or_else fallback_amount p.sol_amount;
      token_amount = some p.token_amount;
      amm_pool = some p.pool;
      target_pump_accounts = if leb 17 (length p.accounts) then some p.accounts else none;
    });
    sell = none;
  }
  swap_trade d (false, p) = record {
    buy = none;
    sell = some (record {
      mint = p.base_mint;
      token_amount = some p.token_amount;
      sol_received = positive F (received_of F d);
      amm_pool = some p.pool;
    });
  }

  -- The first instruction of the PumpSwap program decides.
  unfoldable pub pumpswap_trades : ℕ → List String → SolDelta F → List j.Value → ParsedTransaction F
  unfolding swap_trade
  pumpswap_trades idx keys d [] = nothing
  pumpswap_trades idx keys d (instr ∷ instrs) =
      let later = pumpswap_trades idx keys d instrs in
      elim (parse_pumpswap_instruction j dec instr idx keys) [
        | some trade ↦ swap_trade d trade
        | none ↦ later
      ]

  raydium_program : List String → Option String
  raydium_program keys =
      if any (λ k. str_eq k raydium_v4_program) keys
      then some raydium_v4_program
      else if any (λ k. str_eq k raydium_cpmm_program) keys
      then some raydium_cpmm_program
      else none

  of_swap : RaydiumSwapResult F → ParsedTransaction F
  of_swap (bought b) = record { buy = some b; sell = none }
  of_swap (sold s) = record { buy = none; sell = some s }

  module _ (set_order : List String → List String) where
    unfoldable pub raydium_trades :
        j.Value → List String → String → SolDelta F → List j.Value → ParsedTransaction F
    unfolding raydium_program of_swap
    raydium_trades result keys target_wallet d instrs =
        elim (do
          program_id ← raydium_program keys
          try_parse_raydium_swap F j set_order result keys target_wallet d
              (extract_raydium_amm_pool j instrs keys program_id)) [
                | some trade ↦ of_swap trade
                | none ↦ nothing
              ]

    -- Where the program is among the keys, what is found at it.
    at_program : String → List String → (ℕ → ParsedTransaction F) → ParsedTransaction F
    at_program program keys trades = elim (position program keys) [
      | some idx ↦ trades idx
      | none ↦ nothing
    ]

    -- The part of `fetch_and_parse_transaction` after the keys and the balance are known.
    unfoldable pub trades_of :
        j.Value → List String → String → SolDelta F → List j.Value → ParsedTransaction F
    unfolding pump_trades pumpswap_trades raydium_trades at_program
    trades_of result keys target_wallet d instrs =
        let pump =
          at_program pump_fun_program keys (λ idx. pump_trades idx keys d nothing instrs) in
        let swap = at_program pumpswap_program keys (λ idx. pumpswap_trades idx keys d instrs) in
        if found_any pump
        then pump
        else if found_any swap
        then swap
        else raydium_trades result keys target_wallet d instrs
