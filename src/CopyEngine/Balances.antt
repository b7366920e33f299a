-- ===== src/CopyEngine/Balances.antt =====
-- src/copy_engine.rs: what the balances of a transaction say of the target wallet.
use Prim.Native.Char.{Char, code}
use girasolbot.Prelude.{
  ℕ, ◌+◌, ◌-◌, ◌*◌, ◌^◌, Bool, false, ◌&&◌, ◌||◌, Option, none, some, List, [], ◌∷◌, ◌++◌, String,
  str_eq, leb, ltb, ◌==◌, get_elem?, if◌then◌else◌,
}
use girasolbot.Prelude.Options.{◌>>=◌, unwrap_or}
use girasolbot.Prelude.Texts.{chars}
use girasolbot.Prelude.Dict
use girasolbot.Prelude.Dict.{Dict}
use girasolbot.Float.{Float}
use girasolbot.Json.{Json, u64_max}
use girasolbot.CopyEngine.Types.{SolDelta, wsol_mint, position, get_path}

-- `u64::from_str`: digits, with a plus sign before them at most, and no overflow.
unfoldable pub digits : ℕ → List Char → Option ℕ
digits n [] = some n
digits n (c ∷ cs) =
    let d = code c - 48 in
    let next = n * 10 + d in
    let rest = digits next cs in
    if leb 48 (code c) && leb (code c) 57 && ltb next (2 ^ 64) then rest else none

without_plus : List Char → List Char
without_plus [] = []
without_plus (c ∷ cs) = if code c == 43 then cs else c ∷ cs

unfoldable pub parse_u64 : String → Option ℕ
unfolding digits without_plus
parse_u64 s = elim (without_plus (chars s)) [ [] ↦ none | c ∷ cs ↦ digits 0 (c ∷ cs) ]

module _ (j : Json) where
  keys_in : List j.Value → List String
  keys_in [] = []
  keys_in (key ∷ rest) =
      let later = keys_in rest in
      elim (j.as_str key) [
        | some s ↦ s ∷ later
        | none ↦ elim (j.get key "pubkey" >>= j.as_str) [ some pk ↦ pk ∷ later | none ↦ later ]
      ]

  texts_in : List j.Value → List String
  texts_in [] = []
  texts_in (addr ∷ rest) =
      let later = texts_in rest in elim (j.as_str addr) [ some s ↦ s ∷ later | none ↦ later ]

  array_at : j.Value → List String → List j.Value
  unfolding get_path
  array_at v path = unwrap_or (get_path j v path >>= j.as_array) []

  -- The keys of the message, then those of its lookup tables; `none` is the error.
  unfoldable pub extract_account_keys : j.Value → Option (List String)
  unfolding keys_in texts_in array_at
  extract_account_keys result =
      let keys =
        keys_in (array_at result ("transaction" ∷ "message" ∷ "accountKeys" ∷ []))
        ++ texts_in (array_at result ("meta" ∷ "loadedAddresses" ∷ "writable" ∷ []))
        ++ texts_in (array_at result ("meta" ∷ "loadedAddresses" ∷ "readonly" ∷ [])) in
      elim keys [ [] ↦ none | k ∷ rest ↦ some (k ∷ rest) ]

  instructions_of : List j.Value → List j.Value
  unfolding array_at
  instructions_of [] = []
  instructions_of (group ∷ groups) = array_at group ("instructions" ∷ []) ++ instructions_of groups

  -- The instructions of the message, then the inner ones.
  unfoldable pub all_instructions : j.Value → List j.Value
  unfolding instructions_of array_at
  all_instructions result =
      array_at result ("transaction" ∷ "message" ∷ "instructions" ∷ [])
      ++ instructions_of (array_at result ("meta" ∷ "innerInstructions" ∷ []))

  -- The second account of the first instruction of the program that has one. An instruction
  -- without an index or without accounts ends the search.
  pool_in : ℕ → List String → List j.Value → Option String
  pool_in program_idx account_keys [] = none
  pool_in program_idx account_keys (instr ∷ rest) =
      let later = pool_in program_idx account_keys rest in
      do
        pid ← j.get instr "programIdIndex" >>= j.as_u64
        if pid == program_idx
            then (do
              accounts ← j.get instr "accounts" >>= j.as_array
              elim (get_elem? accounts 1) [
                | none ↦ later
                | some v ↦ do
                  amm_idx ← j.as_u64 v
                  elim (get_elem? account_keys amm_idx) [ some pool ↦ some pool | none ↦ later ]
              ])
            else later

  unfoldable pub extract_raydium_amm_pool : List j.Value → List String → String → Option String
  unfolding pool_in
  extract_raydium_amm_pool instructions account_keys raydium_program = do
    program_idx ← position raydium_program account_keys
    pool_in program_idx account_keys instructions

  -- Whether a token balance is one of the target: by its owner, or by its account.
  unfoldable pub is_of_target : String → List String → j.Value → Bool
  is_of_target target_wallet account_keys entry =
      str_eq (unwrap_or (j.get entry "owner" >>= j.as_str) "") target_wallet
      || elim (get_elem? account_keys
          (unwrap_or (j.get entry "accountIndex" >>= j.as_u64) u64_max)) [
            | some key ↦ str_eq key target_wallet
            | none ↦ false
          ]

  amount_of : j.Value → ℕ
  unfolding parse_u64 get_path
  amount_of entry =
      unwrap_or (get_path j entry ("uiTokenAmount" ∷ "amount" ∷ []) >>= j.as_str >>= parse_u64) 0

  add_mint : Dict ℕ → j.Value → Option String → Dict ℕ
  unfolding amount_of
  add_mint m entry none = m
  add_mint m entry (some mint) =
      if str_eq mint wsol_mint then m else Dict.insert m mint (amount_of entry)

  -- The amounts of the target by mint; of two accounts for one mint the later one counts.
  unfoldable pub balance_map : String → List String → Dict ℕ → List j.Value → Dict ℕ
  unfolding is_of_target add_mint
  balance_map target_wallet account_keys m [] = m
  balance_map target_wallet account_keys m (entry ∷ rest) =
      balance_map target_wallet account_keys
        (if is_of_target target_wallet account_keys entry
          then add_mint m entry (j.get entry "mint" >>= j.as_str)
          else m)
        rest

  unfoldable pub balances_of : String → List String → j.Value → String → Option (Dict ℕ)
  unfolding balance_map get_path
  balances_of target_wallet account_keys result field = do
    entries ← get_path j result ("meta" ∷ field ∷ []) >>= j.as_array
    some (balance_map target_wallet account_keys [] entries)

  module _ (F : Float) where
    open F use {of_u64, fdiv}

    -- SOL received, then SOL spent; one of them is zero.
    unfoldable pub compute_sol_delta : j.Value → List String → String → SolDelta F
    unfolding get_path
    compute_sol_delta result account_keys target_wallet = do
      target_idx ← position target_wallet account_keys
      pre_balances ← get_path j result ("meta" ∷ "preBalances" ∷ []) >>= j.as_array
      post_balances ← get_path j result ("meta" ∷ "postBalances" ∷ []) >>= j.as_array
      pre ← get_elem? pre_balances target_idx >>= j.as_u64
      post ← get_elem? post_balances target_idx >>= j.as_u64
      some (
          if ltb post pre
          then (of_u64 0, fdiv (of_u64 (pre - post)) (of_u64 1000000000))
          else (fdiv (of_u64 (post - pre)) (of_u64 1000000000), of_u64 0))
