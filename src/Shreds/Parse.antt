-- ===== src/Shreds/Parse.antt =====
-- src/shreds_listener.rs: the search for a trade on pump.fun in one transaction of an entry, and the
-- loop over the transactions.
pub mod Agreement
use girasolbot.Prelude.{
  ℕ, ◌+◌, Bool, true, false, not, ◌||◌, ◌&&◌, Option, none, some, List, [], ◌∷◌, ◌++◌, String,
  Bytes, Pubkey, length, ltb, leb, ◌==◌, take, get_elem?, filter_map, map, bytes_eq, any,
  if◌then◌else◌,
}
use girasolbot.Prelude.Options.{◌>>=◌, unwrap_or}
use mathlib.Core.Option
use girasolbot.Float.{Float}
use girasolbot.CopyEngine.Types.{buy_discriminator, sell_discriminator, u64_at, pump_fun}
use girasolbot.CopyEngine.Fetch.{DetectedBuy, DetectedSell}
use girasolbot.Shreds.{LruCache, AltCache, VersionedMessage, resolve_keys}

pub record CompiledInstruction : Type 0 where
  pub program_id_index : ℕ
  pub accounts : List ℕ
  pub data_bytes : Bytes

pub record VersionedTransaction : Type 0 where
  -- The texts of the signatures.
  pub signatures : List String
  pub static_keys : List Pubkey
  pub message : VersionedMessage
  pub instructions : List CompiledInstruction

pub record ResolvedKeys : Type 0 where
  pub static_keys : List Pubkey
  pub full_keys : Option (List Pubkey)

unfoldable pub get_key : ResolvedKeys → ℕ → Option Pubkey
get_key r idx =
    if ltb idx (length r.static_keys)
    then get_elem? r.static_keys idx
    else r.full_keys >>= λ full. get_elem? full idx

-- `static_keys.iter().position(|k| k == key)`, counted from `i`.
unfoldable pub key_position : ℕ → Pubkey → List Pubkey → Option ℕ
key_position i key [] = none
key_position i key (k ∷ keys) =
    let later = key_position (i + 1) key keys in if bytes_eq k key then some i else later

-- What an instruction is found to be: nothing of interest, a trade whose mint is not resolved, at
-- which the search ends, or a trade, which is sent.
pub data Found (F : Float) : Type 0 where
  skip unresolved : Found F
  bought : DetectedBuy F → Found F
  sold : DetectedSell F → Found F

-- `Pubkey::to_string`
module _ (F : Float) (to_string : Pubkey → String) where
  open F use {of_u64, fdiv}

  unfoldable pub pump_accounts : ResolvedKeys → List ℕ → Option (List String)
  unfolding get_key
  pump_accounts r accounts =
      let names = map to_string (filter_map (get_key r) accounts) in
      if ltb 16 (length names) then some names else none

  unfoldable pub found_buy :
      ResolvedKeys → String → ℕ → CompiledInstruction → Option Pubkey → Found F
  unfolding pump_accounts u64_at
  found_buy r sig slot ix none = unresolved
  found_buy r sig slot ix (some mint) = bought (record {
    signature = sig;
    mint = to_string mint;
    dex = pump_fun;
    sol_amount =
        Option.map (λ lamports. fdiv (of_u64 lamports) (of_u64 1000000000))
          (u64_at ix.data_bytes 16);
    token_amount = u64_at ix.data_bytes 8;
    slot = some slot;
    amm_pool = none;
    target_pump_accounts = pump_accounts r ix.accounts;
  })

  unfoldable pub found_sell : String → ℕ → CompiledInstruction → Option Pubkey → Found F
  unfolding u64_at
  found_sell sig slot ix none = unresolved
  found_sell sig slot ix (some mint) = sold (record {
    signature = sig;
    mint = to_string mint;
    dex = pump_fun;
    sol_received = none;
    token_amount = u64_at ix.data_bytes 8;
    slot = some slot;
    amm_pool = none;
  })

  -- The body of the loop over the instructions.
  unfoldable pub parse_instruction : ResolvedKeys → ℕ → String → ℕ → CompiledInstruction → Found F
  unfolding found_buy found_sell get_key
  parse_instruction r pump_idx sig slot ix =
      let mint = get_elem? ix.accounts 2 >>= get_key r in
      if not (ix.program_id_index == pump_idx) || ltb (length ix.data_bytes) 8
      then skip
      else if bytes_eq (take 8 ix.data_bytes) buy_discriminator && leb 3 (length ix.accounts)
      then found_buy r sig slot ix mint
      else if bytes_eq (take 8 ix.data_bytes) sell_discriminator && leb 3 (length ix.accounts)
      then found_sell sig slot ix mint
      else skip

  unfoldable pub parse_instructions :
      ResolvedKeys → ℕ → String → ℕ → List CompiledInstruction → Found F
  unfolding parse_instruction
  parse_instructions r pump_idx sig slot [] = skip
  parse_instructions r pump_idx sig slot (ix ∷ ixs) =
      let rest = parse_instructions r pump_idx sig slot ixs in
      elim (parse_instruction r pump_idx sig slot ix) [
        | skip ↦ rest
        | unresolved ↦ unresolved
        | bought b ↦ bought b
        | sold s ↦ sold s
      ]

  unfoldable pub parse_pump_from_vtx :
      VersionedTransaction → ResolvedKeys → Pubkey → String → ℕ → Found F
  unfolding parse_instructions key_position
  parse_pump_from_vtx vtx r pump_program sig slot =
      elim (key_position 0 pump_program r.static_keys) [
        | none ↦ skip
        | some pump_idx ↦ parse_instructions r pump_idx sig slot vtx.instructions
      ]

  module _ (L : LruCache) (meanwhile : ℕ → L.Cache → L.Cache) where
    -- One transaction of the loop of `connect_and_stream`.
    unfoldable pub on_transaction :
        Pubkey → Pubkey → ℕ → VersionedTransaction → AltCache L → Found F × AltCache L
    unfolding parse_pump_from_vtx resolve_keys
    on_transaction target pump_program slot vtx w =
        if any (λ k. bytes_eq k target) vtx.static_keys
        then (let (full_keys, after) = resolve_keys L meanwhile vtx.message vtx.static_keys w in
            let sig = unwrap_or (get_elem? vtx.signatures 0) "" in
            let resolved : ResolvedKeys = record {
              static_keys = vtx.static_keys;
              full_keys = full_keys;
            } in
            (parse_pump_from_vtx vtx resolved pump_program sig slot, after))
        else (skip, w)
