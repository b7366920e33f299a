-- ===== src/CopyEngine/Notification/Wanted.antt =====
-- Which transactions are fetched.
use girasolbot.Prelude.{
  ◌≡◌, refl, true, false, Option, none, some, String, List, [], ◌∷◌, sym, filter_map, is_some, not,
  ◌&&◌, arith, Option-cases, Bool-cases, inl, inr,
}
use mathlib.Core.Option
use girasolbot.Prelude.Options.{◌>>=◌, unwrap_or}
use girasolbot.Prelude.Texts.{is_empty}
use girasolbot.Json.{Json}
use girasolbot.CopyEngine.Types.{
  DexType, pump_fun, pump_fun_amm, raydium_v4, raydium_cpmm, jupiter, unknown,
  is_execution_supported, get_path,
}
use girasolbot.CopyEngine.Notification.{
  LogsNotification, Notice, malformed, ignored, notice, notice_of, notice_in, notice_of_json,
  not_null, on_notice, wanted, is_jupiter, parse_logs_notification, detect_dex, is_potential_trade,
  on_message,
}

tradable :
    (dex : DexType) (logs : List String)
    → is_potential_trade dex logs ≡ true
    → is_jupiter dex ≡ false
    → is_execution_supported dex ≡ true
unfolding is_potential_trade
tradable pump_fun logs h k = refl
tradable pump_fun_amm logs h k = refl
tradable raydium_v4 logs h k = refl
tradable raydium_cpmm logs h k = refl
tradable jupiter logs h k = cc
tradable (unknown id) logs h k = cc

module _ (j : Json) where
  -- The value of "err" of a transaction that did not fail: missing, or null.
  abbrev pub DidNotFail : Option j.Value → Type 0
  DidNotFail none = Unit
  DidNotFail (some e) = j.is_null e ≡ true

  -- The texts of an array; what is no text is left out.
  abbrev pub texts_of : Option j.Value → List String
  texts_of v = unwrap_or (Option.map (filter_map j.as_str) (v >>= j.as_array)) []

  -- The value at params.result.value of a message.
  abbrev pub value_of : j.Value → Option j.Value
  value_of message = do
    params ← j.get message "params"
    result ← j.get params "result"
    j.get result "value"

  abbrev pub IsWanted : String → Option (LogsNotification j × DexType) → Type 0
  IsWanted message none = Unit
  IsWanted message (some (n, dex)) =
      (value : j.Value) × (inner : j.Value) × (j.from_str message ≡ some value)
      × (value_of value ≡ some inner)
      × ((j.get inner "signature" >>= j.as_str) ≡ some n.signature)
      × (is_empty n.signature ≡ false)
      × DidNotFail (j.get inner "err")
      × (n.logs ≡ texts_of (j.get inner "logs"))
      × (dex ≡ detect_dex n.logs)
      × (is_execution_supported dex ≡ true)

  -- A notice of the value at params.result.value.
  IsNoticeOf : j.Value → Notice j → Type 0
  IsNoticeOf value malformed = Unit
  IsNoticeOf value ignored = Unit
  IsNoticeOf value (notice n) =
      (inner : j.Value) × (value_of value ≡ some inner)
      × ((j.get inner "signature" >>= j.as_str) ≡ some n.signature)
      × (is_empty n.signature ≡ false)
      × ((is_some n.err ≡ false) → DidNotFail (j.get inner "err"))
      × (n.logs ≡ texts_of (j.get inner "logs"))

  bind_some : (o : Option j.Value) → (o >>= λ v. some v) ≡ o
  bind_some none = refl
  bind_some (some v) = refl

  last_lem :
      (o : Option j.Value)
      → (o >>= λ r. j.get r "value" >>= λ v. some v) ≡ (o >>= λ r. j.get r "value")
  last_lem none = refl
  last_lem (some r) = bind_some (j.get r "value")

  inner_lem :
      (o : Option j.Value)
      → (o >>= λ p. j.get p "result" >>= λ r. j.get r "value" >>= λ v. some v)
        ≡ (o >>= λ p. j.get p "result" >>= λ r. j.get r "value")
  inner_lem none = refl
  inner_lem (some p) = last_lem (j.get p "result")

  path_lem :
      (value : j.Value) → value_of value ≡ get_path j value ("params" ∷ "result" ∷ "value" ∷ [])
  unfolding get_path
  path_lem value = sym (inner_lem (j.get value "params"))

  signed_lem : (o : Option String) → is_empty (unwrap_or o "") ≡ false → o ≡ some (unwrap_or o "")
  signed_lem none h = cc
  signed_lem (some text) h = refl

  err_lem : (o : Option j.Value) → is_some (o >>= not_null j) ≡ false → DidNotFail o
  unfolding not_null
  err_lem none h = tt
  err_lem (some e) h = ground arith

  logs_lem :
      (o : Option j.Value)
      → unwrap_or (o >>= λ l. Option.map (filter_map j.as_str) (j.as_array l)) [] ≡ texts_of o
  logs_lem none = refl
  logs_lem (some l) = refl

  notice_of-IsNoticeOf :
      (value inner : j.Value) (signature : String)
      → value_of value ≡ some inner
      → signature ≡ unwrap_or (j.get inner "signature" >>= j.as_str) ""
      → IsNoticeOf value (notice_of j value inner signature)
  unfolding notice_of IsNoticeOf
  notice_of-IsNoticeOf value inner signature at from = elim (Bool-cases (is_empty signature)) [
    | inl e ↦ rw e tt
    | inr e ↦
        let found = signed_lem (j.get inner "signature" >>= j.as_str) (rw (← from) e) in
        rw e
          (inner, at, rw from found, e, err_lem (j.get inner "err"), logs_lem (j.get inner "logs"))
  ]

  notice_in-IsNoticeOf :
      (value : j.Value) (o : Option j.Value)
      → value_of value ≡ o
      → IsNoticeOf value (notice_in j value o)
  unfolding notice_in IsNoticeOf
  notice_in-IsNoticeOf value none at = tt
  notice_in-IsNoticeOf value (some inner) at = notice_of-IsNoticeOf value inner _ at refl

  wanted-IsWanted :
      (message : String) (value : j.Value) (n : LogsNotification j)
      → j.from_str message ≡ some value
      → IsNoticeOf value (notice n)
      → IsWanted message (wanted j n (detect_dex n.logs))
  unfolding wanted IsNoticeOf
  wanted-IsWanted message value n read of =
      let dex = detect_dex n.logs in
      elim (Bool-cases (is_some n.err)) [
        | inl failed ↦ rw failed tt
        | inr fine ↦ elim (Bool-cases (is_potential_trade dex n.logs && not (is_jupiter dex))) [
          | inl wants ↦
              let good = tradable dex n.logs (ground arith) (ground arith) in
              let (inner, at, signature, signed, did_not_fail, logs) = of in
              rw (fine, wants)
                (value, inner, read, at, signature, signed, did_not_fail fine, logs, refl, good)
          | inr useless ↦ rw (fine, useless) tt
        ]
      ]

  on_notice-IsWanted :
      (message : String) (value : j.Value) (n : Notice j)
      → j.from_str message ≡ some value
      → IsNoticeOf value n
      → IsWanted message (on_notice j n)
  unfolding on_notice
  on_notice-IsWanted message value malformed read h = tt
  on_notice-IsWanted message value ignored read h = tt
  on_notice-IsWanted message value (notice n) read h = wanted-IsWanted message value n read h

  -- A transaction that is fetched is that of the message's params.result.value: it has the signature
  -- and the logs that stand there, the signature is not empty, the "err" there is missing or null, and
  -- the exchange is the one that the logs name, and one on which the bot can trade.
  pub on_message-IsWanted : (message : String) → IsWanted message (on_message j message)
  unfolding on_message parse_logs_notification notice_of_json
  on_message-IsWanted message = elim (Option-cases (j.from_str message)) [
    | inl broken ↦ rw broken tt
    | inr (value, read) ↦
        rw read
          (on_notice-IsWanted message value _ read (notice_in-IsNoticeOf value _ (path_lem value)))
  ]
