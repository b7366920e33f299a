-- ===== src/Shreds.antt =====
-- src/shreds_listener.rs: the listener to the shred stream. A message is resolved against a cache of
-- address lookup tables, and searched for trades on pump.fun. Background tasks change the cache
-- between two locks of it: `meanwhile i` is what they have done before the lock with number `i`.

pub mod Parse
pub mod Prefetch
pub mod Resolve
use girasolbot.Prelude.{
  ℕ, ◌+◌, Bool, true, false, Option, none, some, List, [], ◌∷◌, ◌++◌, Pubkey, length, get_elem?,
  if◌then◌else◌,
}
use girasolbot.Prelude.Options.{◌>>=◌}

-- The crate `lru`: what `get` returns and what it leaves, `put` and `pop`.
pub record LruCache : Type 1 where
  pub Cache : Type 0
  pub peek : Cache → Pubkey → Option (List Pubkey)
  pub touch : Cache → Pubkey → Cache
  pub put : Cache → Pubkey → List Pubkey → Cache
  pub pop : Cache → Pubkey → Cache

pub record MessageAddressTableLookup : Type 0 where
  pub account_key : Pubkey
  pub writable_indexes : List ℕ
  pub readonly_indexes : List ℕ

-- The lookups of a message.
pub data VersionedMessage : Type 0 where
  legacy : VersionedMessage
  v0 : List MessageAddressTableLookup → VersionedMessage

-- A cached table with the lookup that names it.
abbrev pub ResolvedTable : Type 0
ResolvedTable = List Pubkey × MessageAddressTableLookup

-- The list of keys so far, or the table that has no entry at an index.
pub data Extended : Type 0 where
  extended : List Pubkey → Extended
  stale : Pubkey → Extended

unfoldable pub push_keys : List Pubkey → List ℕ → List Pubkey → Option (List Pubkey)
push_keys addresses [] full = some full
push_keys addresses (idx ∷ indexes) full =
    get_elem? addresses idx >>= λ pk. push_keys addresses indexes (full ++ pk ∷ [])

unfoldable pub extend :
    (MessageAddressTableLookup → List ℕ) → List ResolvedTable → List Pubkey → Extended
extend indexes_of [] full = extended full
extend indexes_of ((addresses, lookup) ∷ tables) full =
    elim (push_keys addresses (indexes_of lookup) full) [
      | none ↦ stale lookup.account_key
      | some more ↦ extend indexes_of tables more
    ]

-- The static keys, the writable keys of every table, and the readonly keys of every table.
unfoldable pub build_full : List Pubkey → List ResolvedTable → Extended
build_full static_keys tables = elim (extend (λ l. l.writable_indexes) tables static_keys) [
  | stale key ↦ stale key
  | extended full ↦ extend (λ l. l.readonly_indexes) tables full
]

module _ (L : LruCache) where
  open L use {Cache, peek, touch, pop}

  -- The cache, and the tables for which a background fetch was started, in order.
  pub record AltCache : Type 0 where
    pub cache : Cache
    pub prefetched : List Pubkey

  unfoldable pub prefetch : AltCache → Pubkey → AltCache
  prefetch w key = record w { prefetched = w.prefetched ++ key ∷ [] }

  module _ (meanwhile : ℕ → Cache → Cache) where
    -- The tables that are cached, and whether all are.
    unfoldable pub resolve_tables :
        ℕ → List MessageAddressTableLookup → AltCache → List ResolvedTable × Bool × AltCache
    unfolding prefetch
    resolve_tables i [] w = ([], true, w)
    resolve_tables i (l ∷ lookups) w =
        let c = meanwhile i w.cache in
        let looked = record w { cache = touch c l.account_key } in
        elim (peek c l.account_key) [
          | some table ↦
              let (tables, all_cached, after) = resolve_tables (i + 1) lookups looked in
              ((table, l) ∷ tables, all_cached, after)
          | none ↦
              let (tables, all_cached, after) =
                resolve_tables (i + 1) lookups (prefetch looked l.account_key) in
              (tables, false, after)
        ]

    -- A table that was extended since it was cached is dropped and fetched again.
    unfoldable pub assemble : ℕ → Extended → AltCache → Option (List Pubkey) × AltCache
    unfolding prefetch
    assemble i (extended full) w = (some full, w)
    assemble i (stale key) w =
        (none, prefetch (record w { cache = pop (meanwhile i w.cache) key }) key)

    -- The field `full_keys`.
    unfoldable pub resolve_keys :
        VersionedMessage → List Pubkey → AltCache → Option (List Pubkey) × AltCache
    unfolding resolve_tables assemble build_full
    resolve_keys legacy static_keys w = (none, w)
    resolve_keys (v0 []) static_keys w = (some static_keys, w)
    resolve_keys (v0 (l ∷ lookups)) static_keys w =
        let (tables, all_cached, after) = resolve_tables 0 (l ∷ lookups) w in
        if all_cached
        then assemble (length (l ∷ lookups)) (build_full static_keys tables) after
        else (none, after)
