-- ===== src/Tests/Listening.antt =====
-- Tests of the listener to the shreds.
use girasolbot.Prelude.{
  ℕ, ◌≡◌, refl, true, ◌||◌, some, none, Option, List, [], ◌∷◌, String, Pubkey, str_eq, bytes_eq,
  if◌then◌else◌, Bool-cases, inl, inr, map,
}
use mathlib.Core.Option
use girasolbot.Float.Fixed.{fixed}
use girasolbot.Json.Tree.{Tree, tree_json}
use girasolbot.CopyEngine.Types.{Decoders, buy_discriminator, pump_fun}
use girasolbot.CopyEngine.Notification.{LogsNotification}
use girasolbot.CopyEngine.Fetch.{detected_buy, detected_sell}
use girasolbot.CopyEngine.Pump.{try_parse_pump_buy_instruction, try_parse_pump_sell_instruction}
use girasolbot.CopyEngine.Pump.Encoded.{instruction_tree, with_amounts}
use girasolbot.Shreds.{
  LruCache, MessageAddressTableLookup, v0, AltCache, resolve_keys, extend, push_keys,
}
use girasolbot.Shreds.Resolve.{IsFaithful, IsResolution, resolve_keys-IsResolution}
use girasolbot.Shreds.Prefetch.{Event, spawn, enter, answer, finish, no_fetches, fetch_run}
use girasolbot.Shreds.Prefetch.Exclusive.{IsExclusive, fetch_run-IsExclusive}
use girasolbot.Shreds.Parse.{CompiledInstruction, ResolvedKeys, parse_instruction}
use girasolbot.Shreds.Parse.Agreement.{buy_of, sell_of, parse_instruction-agrees}

-- A cache that keeps every table.
abbrev find : List (Pubkey × List Pubkey) → Pubkey → Option (List Pubkey)
find [] key = none
find ((k, t) ∷ rest) key = let later = find rest key in if bytes_eq k key then some t else later

abbrev erase : List (Pubkey × List Pubkey) → Pubkey → List (Pubkey × List Pubkey)
erase [] key = []
erase ((k, t) ∷ rest) key =
    let later = erase rest key in if bytes_eq k key then later else (k, t) ∷ later

abbrev keeps_all : LruCache
keeps_all = record {
  Cache = List (Pubkey × List Pubkey);
  peek = find;
  touch = λ c key. c;
  put = λ c key t. (key, t) ∷ erase c key;
  pop = erase;
}

-- The table [1] on the chain has a key more than in the cache.
abbrev truth : Pubkey → List Pubkey
truth key = (10 ∷ []) ∷ (11 ∷ []) ∷ (12 ∷ []) ∷ []

abbrev cached : AltCache keeps_all
cached = record { cache = ((1 ∷ []), (10 ∷ []) ∷ (11 ∷ []) ∷ []) ∷ []; prefetched = [] }

cached-IsFaithful : IsFaithful truth keeps_all (λ i c. c) cached.cache
unfolding bytes_eq
cached-IsFaithful key t e = elim (Bool-cases (bytes_eq (1 ∷ []) key)) [
  | inl same ↦
      let here = rw same at e in
      let table : (10 ∷ []) ∷ (11 ∷ []) ∷ [] ≡ t = cc in ((12 ∷ []) ∷ [], rw (← table) refl)
  | inr other ↦ let missing = rw other at e in cc
]

abbrev lookup : ℕ → ℕ → MessageAddressTableLookup
lookup w r = record { account_key = 1 ∷ []; writable_indexes = w ∷ []; readonly_indexes = r ∷ [] }

-- The keys are found; an index that the cached table has not leads to a fetch.
two_messages :
    ((resolve_keys keeps_all (λ i c. c) (v0 (lookup 1 0 ∷ [])) ((7 ∷ []) ∷ []) cached).0
      ≡ some ((7 ∷ []) ∷ (11 ∷ []) ∷ (10 ∷ []) ∷ []))
    × (resolve_keys keeps_all (λ i c. c) (v0 (lookup 1 2 ∷ [])) ((7 ∷ []) ∷ []) cached
        ≡ (none, record { cache = []; prefetched = (1 ∷ []) ∷ [] }))
unfolding resolve_keys bytes_eq extend push_keys
two_messages = (refl, refl)

resolve_keys-IsResolution_example :
    IsResolution truth keeps_all
      (λ i c. c)
      ((7 ∷ []) ∷ [])
      (lookup 1 0 ∷ [])
      cached
      (resolve_keys keeps_all (λ i c. c) (v0 (lookup 1 0 ∷ [])) ((7 ∷ []) ∷ []) cached)
resolve_keys-IsResolution_example =
    resolve_keys-IsResolution truth keeps_all (λ i c. c) (λ c key h. h) (λ i c h. h) ((7 ∷ []) ∷ [])
      (lookup 1 0 ∷ []) cached cached-IsFaithful

-- Two tasks for one table: the second ends at once, and the set is empty at the end.
abbrev events : List (Event keeps_all)
events =
    spawn 0 (1 ∷ [])
    ∷ spawn 1 (1 ∷ [])
    ∷ enter 0
    ∷ enter 1
    ∷ answer 0 (some ((10 ∷ []) ∷ []))
    ∷ finish 0
    ∷ []

fetched_once :
    ((fetch_run keeps_all (no_fetches keeps_all []) events).in_flight ≡ [])
    × ((fetch_run keeps_all (no_fetches keeps_all []) events).cache
        ≡ ((1 ∷ []), (10 ∷ []) ∷ []) ∷ [])
unfolding fetch_run bytes_eq
fetched_once = (refl, refl)

fetch_run-IsExclusive_example :
    IsExclusive keeps_all (fetch_run keeps_all (no_fetches keeps_all []) events)
fetch_run-IsExclusive_example = fetch_run-IsExclusive keeps_all [] events

abbrev to_string : Pubkey → String
to_string key = if bytes_eq key (9 ∷ []) then "mint" else "key"

abbrev trees : String → Option Tree
trees s = none

abbrev decoders : Decoders (tree_json trees)
decoders = record {
  bs58 = λ s. some (with_amounts buy_discriminator 5000 7);
  base64 = λ s. none;
  is_pubkey = λ s. str_eq s "mint" || str_eq s "key";
  show = λ v. "error";
}

to_string-is_pubkey : (key : Pubkey) → decoders.is_pubkey (to_string key) ≡ true
to_string-is_pubkey key = elim (Bool-cases (bytes_eq key (9 ∷ []))) [
  | inl e ↦ rw e refl
  | inr e ↦ rw e refl
]

abbrev notif : LogsNotification (tree_json trees)
notif = record { signature = "5sig"; slot = some 77; err = none; logs = [] }

abbrev buy_instruction : CompiledInstruction
buy_instruction = record {
  program_id_index = 1;
  accounts = 0 ∷ 0 ∷ 2 ∷ [];
  data_bytes = with_amounts buy_discriminator 5000 7;
}

abbrev buy_keys : List Pubkey
buy_keys = (7 ∷ []) ∷ (8 ∷ []) ∷ (9 ∷ []) ∷ []

parse_instruction-agrees_example :
    let keys = map to_string buy_keys in
    let tree = instruction_tree 1 "data" (0 ∷ 0 ∷ 2 ∷ []) in
    let r : ResolvedKeys = record {
      static_keys = (7 ∷ []) ∷ (8 ∷ []) ∷ [];
      full_keys = some buy_keys;
    } in
    let found = parse_instruction fixed to_string r 1 "5sig" 77 buy_instruction in
    (buy_of found
      ≡ Option.map
          (detected_buy fixed (tree_json trees) decoders (λ s. s) notif pump_fun)
          (try_parse_pump_buy_instruction fixed (tree_json trees) decoders tree 1 keys))
    × (sell_of found
        ≡ Option.map
            (detected_sell fixed (tree_json trees) decoders (λ s. s) notif pump_fun)
            (try_parse_pump_sell_instruction fixed (tree_json trees) decoders tree 1 keys))
parse_instruction-agrees_example =
    parse_instruction-agrees fixed trees decoders (λ s. s) to_string to_string-is_pubkey notif 77
      buy_instruction "data" ((7 ∷ []) ∷ (8 ∷ []) ∷ []) ((9 ∷ []) ∷ []) 1 refl refl
