-- ===== src/CopyEngine/Fetch.antt =====
-- src/copy_engine.rs: the fetch of a transaction with its retries, and the loop's handling of one
-- message. Times are left out.
pub mod Retry
use mathlib.Core.Option
use Prim.Native.String
use girasolbot.Prelude.{
  ℕ, zero, suc, ◌+◌, Bool, true, false, ◌&&◌, ◌||◌, Option, none, some, List, [], ◌∷◌, String, ltb,
  get_or, length, if◌then◌else◌,
}
use girasolbot.Prelude.Options.{◌>>=◌, unwrap_or}
use girasolbot.Prelude.Texts.{contains}
use girasolbot.Float.{Float}
use girasolbot.Json.{Json}
use girasolbot.CopyEngine.Types.{Decoders, DexType, ParsedTransaction, ParsedBuy, ParsedSell}
use girasolbot.CopyEngine.Notification.{LogsNotification, on_message}
use girasolbot.CopyEngine.Balances.{extract_account_keys, all_instructions, compute_sol_delta}
use girasolbot.CopyEngine.Transaction.{trades_of}

abbrev pub retry_delays_ms : List ℕ
retry_delays_ms = 200 ∷ 500 ∷ 1000 ∷ []

-- The answer of the RPC node to one request.
pub data Response (j : Json) : Type 0 where
  unreachable status_429 not_json : Response j
  body : j.Value → Response j

-- A parsed transaction, or an error with its text.
pub data Fetched (F : Float) : Type 0 where
  parsed : ParsedTransaction F → Fetched F
  failed : String → Fetched F

unfoldable pub is_429 : String → Bool
is_429 err_str =
    contains err_str "429"
    || contains err_str "Too many requests"
    || contains err_str "too many requests"
    || contains err_str "rate limit"

module _ (F : Float) where
  -- The attempts from `attempt` on, of which `left` are left, with the result and the delays
  -- between them.
  unfoldable pub retry : (ℕ → Fetched F) → ℕ → ℕ → Option String → Fetched F × List ℕ
  unfolding is_429
  retry replies zero attempt last_err = (failed (unwrap_or last_err "Retry exhausted"), [])
  retry replies (suc left) attempt last_err = elim (replies attempt) [
    | parsed t ↦ (parsed t, [])
    | failed e ↦
        let later = retry replies left (attempt + 1) (some e) in
        if is_429 e && ltb attempt (length retry_delays_ms)
        then (later.0, get_or retry_delays_ms attempt 0 ∷ later.1)
        else (failed e, [])
  ]

  -- `replies` are the results of `fetch_and_parse_transaction` at each attempt.
  unfoldable pub fetch_and_parse_with_retry : (ℕ → Fetched F) → Fetched F × List ℕ
  unfolding retry
  fetch_and_parse_with_retry replies = retry replies (length retry_delays_ms + 1) 0 none

  pub record DetectedBuy : Type 0 where
    pub signature : String
    pub mint : String
    pub dex : DexType
    pub sol_amount : Option F.F64
    pub token_amount : Option ℕ
    pub slot : Option ℕ
    pub amm_pool : Option String
    pub target_pump_accounts : Option (List String)

  pub record DetectedSell : Type 0 where
    pub signature : String
    pub mint : String
    pub dex : DexType
    pub sol_received : Option F.F64
    pub token_amount : Option ℕ
    pub slot : Option ℕ
    pub amm_pool : Option String

  module _ (j : Json) (dec : Decoders j) (set_order : List String → List String) where
    parse_result : j.Value → String → Fetched F
    unfolding extract_account_keys compute_sol_delta all_instructions trades_of
    parse_result result target_wallet = elim (extract_account_keys j result) [
      | some keys ↦ parsed (
          trades_of F j dec set_order result keys target_wallet
            (compute_sol_delta j F result keys target_wallet) (all_instructions j result))
      | none ↦ failed "No account keys found in transaction"
    ]

    parse_non_null : Option j.Value → String → Fetched F
    unfolding parse_result
    parse_non_null none target_wallet = failed "Transaction not found (null result)"
    parse_non_null (some r) target_wallet =
        if j.is_null r
        then failed "Transaction not found (null result)"
        else parse_result r target_wallet

    unfoldable pub fetch_and_parse_transaction : Response j → String → Fetched F
    unfolding parse_non_null
    fetch_and_parse_transaction unreachable target_wallet = failed "getTransaction request failed"
    fetch_and_parse_transaction status_429 target_wallet = failed "429 Too many requests"
    fetch_and_parse_transaction not_json target_wallet =
        failed "Failed to parse getTransaction response"
    fetch_and_parse_transaction (body json) target_wallet = elim (j.get json "error") [
      | some e ↦ failed (String.◌++◌ "RPC error: " (dec.show e))
      | none ↦ parse_non_null (j.get json "result") target_wallet
    ]

    unfoldable pub detected_buy : LogsNotification j → DexType → ParsedBuy F → DetectedBuy
    detected_buy notif dex b = record {
      signature = notif.signature;
      mint = b.mint;
      dex = dex;
      sol_amount = b.sol_amount;
      token_amount = b.token_amount;
      slot = notif.slot;
      amm_pool = b.amm_pool;
      target_pump_accounts = b.target_pump_accounts;
    }

    unfoldable pub detected_sell : LogsNotification j → DexType → ParsedSell F → DetectedSell
    detected_sell notif dex s = record {
      signature = notif.signature;
      mint = s.mint;
      dex = dex;
      sol_received = s.sol_received;
      token_amount = s.token_amount;
      slot = notif.slot;
      amm_pool = s.amm_pool;
    }

    -- What the spawned task sends to the channels of buys and sells; `mirrors` says whether there
    -- is a channel of sells.
    unfoldable pub dispatch :
        Bool → LogsNotification j → DexType → Fetched F → Option DetectedBuy × Option DetectedSell
    unfolding detected_buy detected_sell
    dispatch mirrors notif dex (failed e) = (none, none)
    dispatch mirrors notif dex (parsed t) = (
      Option.map (detected_buy notif dex) t.buy,
      (if mirrors then Option.map (detected_sell notif dex) t.sell else none),
    )

    -- One message of the loop of `run_copy_engine`, with the node's answers to the attempts.
    unfoldable pub handle_message :
        Bool → String → (ℕ → Response j) → String → Option DetectedBuy × Option DetectedSell
    unfolding on_message fetch_and_parse_with_retry fetch_and_parse_transaction dispatch
    handle_message mirrors target_wallet responses message = elim (on_message j message) [
      | none ↦ (none, none)
      | some (notif, dex) ↦
          dispatch mirrors notif dex
            (fetch_and_parse_with_retry
              (λ attempt. fetch_and_parse_transaction (responses attempt) target_wallet)).0
    ]
