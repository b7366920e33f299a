-- ===== src/CopyEngine/Types.antt =====
-- src/copy_engine.rs: the data types, and the functions of other crates that the parsers call.
use girasolbot.Prelude.{
  ℕ, ◌+◌, Bool, true, false, Option, none, some, List, String, str_eq, Bytes, length, leb, slice,
  from_le_bytes, if◌then◌else◌, filter_map, [], ◌∷◌,
}
use girasolbot.Prelude.Options.{◌>>=◌, unwrap_or}
use girasolbot.Float.{Float}
use girasolbot.Json.{Json, u64_max}

pub data DexType : Type 0 where
  pump_fun pump_fun_amm raydium_v4 raydium_cpmm jupiter : DexType
  unknown : String → DexType

abbrev pub is_execution_supported : DexType → Bool
is_execution_supported pump_fun = true
is_execution_supported pump_fun_amm = true
is_execution_supported raydium_v4 = true
is_execution_supported raydium_cpmm = true
is_execution_supported jupiter = false
is_execution_supported (unknown id) = false

abbrev pub pump_fun_program : String
pump_fun_program = "6EF8rrecthR5Dkzon8Nwu78hRvfCKubJ14M5uBEwF6P"

abbrev pub pump_fun_amm_program : String
pump_fun_amm_program = "pAMMBay6oceH9fJKBRHGP5D4bD4sWpmSwMn52FMfXEA"

abbrev pub raydium_v4_program : String
raydium_v4_program = "675kPX9MHTjS2zt1qfr1NYHuzeLXfQM9H24wFSUt1Mp8"

abbrev pub raydium_cpmm_program : String
raydium_cpmm_program = "CPMMoo8L3F4NbTegBCKVNunggL7H1ZpdTHKxQB5qKP1C"

abbrev pub jupiter_v6_program : String
jupiter_v6_program = "JUP6LkbZbjS1jKKwapdHNy74zcZ3tLUZoi5QNyVTaV4"

abbrev pub wsol_mint : String
wsol_mint = "So11111111111111111111111111111111111111112"

abbrev pub buy_discriminator : Bytes
buy_discriminator = 102 ∷ 6 ∷ 61 ∷ 18 ∷ 1 ∷ 218 ∷ 235 ∷ 234 ∷ []

abbrev pub sell_discriminator : Bytes
sell_discriminator = 51 ∷ 230 ∷ 133 ∷ 164 ∷ 1 ∷ 127 ∷ 131 ∷ 173 ∷ []

-- `bs58::decode`, the standard base64 decoder, whether `Pubkey::from_str` succeeds, and the text
-- of a JSON value.
pub record Decoders (j : Json) : Type 0 where
  pub bs58 : String → Option Bytes
  pub base64 : String → Option Bytes
  pub is_pubkey : String → Bool
  pub show : j.Value → String

module _ (F : Float) where
  pub record ParsedBuy : Type 0 where
    pub mint : String
    pub sol_amount : Option F.F64
    pub token_amount : Option ℕ
    pub amm_pool : Option String
    pub target_pump_accounts : Option (List String)

  pub record ParsedSell : Type 0 where
    pub mint : String
    pub token_amount : Option ℕ
    pub sol_received : Option F.F64
    pub amm_pool : Option String

  pub record ParsedTransaction : Type 0 where
    pub buy : Option ParsedBuy
    pub sell : Option ParsedSell

  -- SOL received and SOL spent by the target wallet.
  abbrev pub SolDelta : Type 0
  SolDelta = Option (F.F64 × F.F64)

-- `arr.iter().position(|k| k == key)`, counted from `i`.
unfoldable pub position_from : ℕ → String → List String → Option ℕ
position_from i key [] = none
position_from i key (k ∷ keys) =
    let later = position_from (i + 1) key keys in if str_eq k key then some i else later

abbrev pub position : String → List String → Option ℕ
position key keys = position_from 0 key keys

-- `u64::from_le_bytes` of eight bytes, if there are so many.
unfoldable pub u64_at : Bytes → ℕ → Option ℕ
u64_at bs offset =
    if leb (offset + 8) (length bs)
    then some (from_le_bytes (slice bs offset (offset + 8)))
    else none

module _ (j : Json) where
  -- A field of a field, down a path.
  unfoldable pub get_path : j.Value → List String → Option j.Value
  get_path v [] = some v
  get_path v (field ∷ path) = j.get v field >>= λ inner. get_path inner path

  -- The index of the program of an instruction, or `u64::MAX`.
  abbrev pub program_index : j.Value → ℕ
  program_index instr = unwrap_or (j.get instr "programIdIndex" >>= j.as_u64) u64_max

  unfoldable pub account_indices : j.Value → List ℕ
  account_indices instr = filter_map j.as_u64 (unwrap_or (j.get instr "accounts" >>= j.as_array) [])
