-- ===== src/CopyEngine/Notification.antt =====
-- src/copy_engine.rs: the notifications of the log subscription and the choice of the exchange.
use girasolbot.Prelude.{
  ℕ, Bool, true, false, not, ◌&&◌, ◌||◌, Option, none, some, List, [], ◌∷◌, String, any, filter_map,
  if◌then◌else◌, is_some,
}
pub mod Wanted
use mathlib.Core.Option
use girasolbot.Prelude.Options.{◌>>=◌, ◌or_else◌, unwrap_or}
use girasolbot.Prelude.Texts.{contains, is_empty}
use girasolbot.Json.{Json}
use girasolbot.CopyEngine.Types.{
  DexType, pump_fun, pump_fun_amm, raydium_v4, raydium_cpmm, jupiter, unknown, pump_fun_program,
  pump_fun_amm_program, raydium_v4_program, raydium_cpmm_program, jupiter_v6_program, get_path,
}

module _ (j : Json) where
  pub record LogsNotification : Type 0 where
    pub signature : String
    pub slot : Option ℕ
    pub err : Option j.Value
    pub logs : List String

  -- The three results of `parse_logs_notification`: an error, `None`, and a notification.
  pub data Notice : Type 0 where
    malformed ignored : Notice
    notice : LogsNotification → Notice

  not_null : j.Value → Option j.Value
  not_null v = if j.is_null v then none else some v

  pub notice_of : j.Value → j.Value → String → Notice
  unfolding get_path not_null
  notice_of value inner signature =
      if is_empty signature
      then ignored
      else notice (record {
        signature = signature;
        slot = get_path j value ("params" ∷ "result" ∷ "context" ∷ "slot" ∷ []) >>= j.as_u64;
        err = j.get inner "err" >>= not_null;
        logs =
            unwrap_or (j.get inner "logs" >>= λ l. Option.map (filter_map j.as_str) (j.as_array l))
              [];
      })

  pub notice_in : j.Value → Option j.Value → Notice
  unfolding notice_of
  notice_in value none = ignored
  notice_in value (some inner) =
      notice_of value inner (unwrap_or (j.get inner "signature" >>= j.as_str) "")

  pub notice_of_json : Option j.Value → Notice
  unfolding notice_in get_path
  notice_of_json none = malformed
  notice_of_json (some value) =
      notice_in value (get_path j value ("params" ∷ "result" ∷ "value" ∷ []))

  unfoldable pub parse_logs_notification : String → Notice
  unfolding notice_of_json
  parse_logs_notification message = notice_of_json (j.from_str message)

says_buy : String → Bool
says_buy log = contains log "Instruction: Buy" || contains log "Instruction: buy"

says_sell : String → Bool
says_sell log = contains log "Instruction: Sell" || contains log "Instruction: sell"

-- The exchange that one line names, in the first pass.
unfoldable pub dex_of_log : String → Option DexType
unfolding says_buy
dex_of_log log =
    if contains log pump_fun_program && says_buy log
    then some pump_fun
    else if contains log pump_fun_amm_program
    then some pump_fun_amm
    else if contains log raydium_v4_program
    then some raydium_v4
    else if contains log raydium_cpmm_program
    then some raydium_cpmm
    else if contains log jupiter_v6_program
    then some jupiter
    else none

unfoldable pub first_pass : List String → Option DexType
unfolding dex_of_log
first_pass [] = none
first_pass (log ∷ logs) = let later = first_pass logs in dex_of_log log or_else later

unfoldable pub second_pass : List String → DexType
second_pass logs =
    if any (λ log. contains log pump_fun_program) logs then pump_fun else unknown "none"

unfoldable pub detect_dex : List String → DexType
unfolding first_pass second_pass
detect_dex logs = unwrap_or (first_pass logs) (second_pass logs)

unfoldable pub is_potential_trade : DexType → List String → Bool
unfolding says_buy says_sell
is_potential_trade pump_fun logs = any (λ log. says_buy log || says_sell log) logs
is_potential_trade pump_fun_amm logs = true
is_potential_trade raydium_v4 logs = true
is_potential_trade raydium_cpmm logs = true
is_potential_trade jupiter logs = true
is_potential_trade (unknown id) logs = false

abbrev pub is_jupiter : DexType → Bool
is_jupiter jupiter = true
is_jupiter _ = false

module _ (j : Json) where
  pub wanted : LogsNotification j → DexType → Option (LogsNotification j × DexType)
  unfolding is_potential_trade
  wanted n dex =
      if is_some n.err
      then none
      else if is_potential_trade dex n.logs && not (is_jupiter dex)
      then some (n, dex)
      else none

  pub on_notice : Notice j → Option (LogsNotification j × DexType)
  unfolding wanted detect_dex
  on_notice (notice n) = wanted n (detect_dex n.logs)
  on_notice malformed = none
  on_notice ignored = none

  -- The body of the loop of `run_copy_engine` up to the fetch: the notification of a transaction
  -- that is fetched, with its exchange.
  unfoldable pub on_message : String → Option (LogsNotification j × DexType)
  unfolding parse_logs_notification on_notice
  on_message message = on_notice (parse_logs_notification j message)
