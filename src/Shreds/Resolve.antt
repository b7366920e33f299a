-- ===== src/Shreds/Resolve.antt =====
-- The keys that the listener of src/shreds_listener.rs works with, against the tables on the chain.
use girasolbot.Prelude.{
  ℕ, zero, suc, ◌+◌, ◌≡◌, refl, ap, sym, ◌∙◌, true, false, Option, none, some, List, [], ◌∷◌, ◌++◌,
  Pubkey, get_elem?, length, map, All, Option-cases, ◌⊎◌, Bool-cases, inl, inr,
}
use mathlib.Core.List.{append_assoc, append-nil}
use girasolbot.Prelude.Options.{◌>>=◌, bind-some}
use girasolbot.Shreds.{
  LruCache, MessageAddressTableLookup, v0, ResolvedTable, Extended, extended, stale, push_keys,
  extend, build_full, AltCache, prefetch, resolve_tables, assemble, resolve_keys,
}

-- The entries of a table at some indexes, if all are there.
abbrev pub pick : List Pubkey → List ℕ → Option (List Pubkey)
pick table [] = some []
pick table (i ∷ is) = do x ← get_elem? table i; xs ← pick table is; some (x ∷ xs)

get_elem?-append :
    (t rest : List Pubkey) (i : ℕ) (x : Pubkey)
    → get_elem? t i ≡ some x
    → get_elem? (t ++ rest) i ≡ some x
get_elem?-append [] rest i x h = cc
get_elem?-append (y ∷ t) rest zero x h = h
get_elem?-append (y ∷ t) rest (suc i) x h = get_elem?-append t rest i x h

push_keys-pick :
    (t rest : List Pubkey) (is : List ℕ) (full f : List Pubkey)
    → push_keys t is full ≡ some f
    → (xs : List Pubkey) × (pick (t ++ rest) is ≡ some xs) × (f ≡ full ++ xs)
unfolding push_keys
push_keys-pick t rest [] full f h =
    let same : full ≡ f = cc in ([], refl, sym same ∙ sym (append-nil full))
push_keys-pick t rest (i ∷ is) full f h =
    let (x, found, more) = bind-some (get_elem? t i) _ f h in
    let (xs, picked, joined) = push_keys-pick t rest is (full ++ x ∷ []) f more in
    (
      x ∷ xs,
      rw (get_elem?-append t rest i x found, picked) refl,
      joined ∙ append_assoc full (x ∷ []) xs,
    )

-- A list that has grown by some entries and one more has grown by at least one.
snoc_lem :
    (base keys : List Pubkey) (key : Pubkey)
    → (k : Pubkey) × (ks : List Pubkey) × ((base ++ keys) ++ key ∷ [] ≡ base ++ k ∷ ks)
snoc_lem base [] key = (key, [], ap (λ r. r ++ key ∷ []) (append-nil base))
snoc_lem base (k ∷ ks) key = (k, ks ++ key ∷ [], append_assoc base (k ∷ ks) (key ∷ []))

Extended-cases :
    (e : Extended) → ((key : Pubkey) × (e ≡ stale key)) ⊎ ((f : List Pubkey) × (e ≡ extended f))
Extended-cases (stale key) = inl (key, refl)
Extended-cases (extended f) = inr (f, refl)

module _ (truth : Pubkey → List Pubkey) where
  -- What the lookups of a message select from the tables on the chain.
  abbrev pub pick_all :
      (MessageAddressTableLookup → List ℕ) → List MessageAddressTableLookup → Option (List Pubkey)
  pick_all indexes_of [] = some []
  pick_all indexes_of (l ∷ lookups) = do
    xs ← pick (truth l.account_key) (indexes_of l)
    ys ← pick_all indexes_of lookups
    some (xs ++ ys)

  -- The order of the keys of a message: the static keys, the writable ones and the readonly ones.
  abbrev pub canonical : List Pubkey → List MessageAddressTableLookup → Option (List Pubkey)
  canonical static_keys lookups = do
    writable ← pick_all (λ l. l.writable_indexes) lookups
    readonly ← pick_all (λ l. l.readonly_indexes) lookups
    some (static_keys ++ (writable ++ readonly))

  -- A cached table is the first part of the table on the chain, which only grows.
  abbrev pub IsPrefix : Pubkey → List Pubkey → Type 0
  IsPrefix key t = (rest : List Pubkey) × (t ++ rest ≡ truth key)

  extend-pick_all :
      (indexes_of : MessageAddressTableLookup → List ℕ) (tables : List ResolvedTable)
      (full f : List Pubkey)
      → All (λ p. IsPrefix p.1.account_key p.0) tables
      → extend indexes_of tables full ≡ extended f
      → (xs : List Pubkey) × (pick_all indexes_of (map (λ p. p.1) tables) ≡ some xs)
        × (f ≡ full ++ xs)
  unfolding extend
  extend-pick_all indexes_of [] full f h e =
      let same : full ≡ f = cc in ([], refl, sym same ∙ sym (append-nil full))
  extend-pick_all indexes_of ((t, l) ∷ tables) full f h e =
      elim (Option-cases (push_keys t (indexes_of l) full)) [
        | inl missing ↦ let bad = rw (missing, extend) at e in cc
        | inr (more, pushed) ↦
            let (xs, picked, joined) = push_keys-pick t h.0.0 (indexes_of l) full more pushed in
            let (ys, others, rest) =
              extend-pick_all indexes_of tables more f h.1 (rw (pushed, extend) at e) in
            (
              xs ++ ys,
              rw (sym h.0.1, picked, others) refl,
              rest ∙ ap (λ r. r ++ ys) joined ∙ append_assoc full xs ys,
            )
      ]

  build_full-canonical :
      (tables : List ResolvedTable) (static_keys f : List Pubkey)
      → All (λ p. IsPrefix p.1.account_key p.0) tables
      → build_full static_keys tables ≡ extended f
      → canonical static_keys (map (λ p. p.1) tables) ≡ some f
  unfolding build_full
  build_full-canonical tables static_keys f h e =
      elim (Extended-cases (extend (λ l. l.writable_indexes) tables static_keys)) [
        | inl (key, gone) ↦ let bad = rw (gone, build_full) at e in cc
        | inr (mid, first) ↦
            let (xs, writable, joined) = extend-pick_all _ tables static_keys mid h first in
            let (ys, readonly, last) =
              extend-pick_all _ tables mid f h (rw (first, build_full) at e) in
            rw (writable, readonly)
              (ap some (sym (last ∙ ap (λ r. r ++ ys) joined ∙ append_assoc static_keys xs ys)))
      ]

  module _ (L : LruCache) (meanwhile : ℕ → L.Cache → L.Cache) where
    open L use {Cache, peek, touch, pop}

    -- Every cached table is the first part of the table on the chain.
    abbrev pub IsFaithful : Cache → Type 0
    IsFaithful c = (key : Pubkey) (t : List Pubkey) → peek c key ≡ some t → IsPrefix key t

    -- What a step leaves of the tables that are being fetched: more of them, in order.
    abbrev pub Grows : AltCache L → AltCache L → Type 0
    Grows w after = (keys : List Pubkey) × (after.prefetched ≡ w.prefetched ++ keys)

    abbrev pub GrowsStrictly : AltCache L → AltCache L → Type 0
    GrowsStrictly w after =
        (key : Pubkey) × (keys : List Pubkey) × (after.prefetched ≡ w.prefetched ++ key ∷ keys)

    -- The keys are those of the message on the chain, or a table is being fetched.
    abbrev pub IsResolution :
        List Pubkey
        → List MessageAddressTableLookup
        → AltCache L
        → Option (List Pubkey) × AltCache L
        → Type 0
    IsResolution static_keys lookups w (some keys, after) =
        canonical static_keys lookups ≡ some keys
    IsResolution static_keys lookups w (none, after) = GrowsStrictly w after

    module _ (touched : (c : Cache) (key : Pubkey) → IsFaithful c → IsFaithful (touch c key))
        (others : (i : ℕ) (c : Cache) → IsFaithful c → IsFaithful (meanwhile i c)) where
      resolve_tables-lookups :
          (i : ℕ) (lookups : List MessageAddressTableLookup) (w : AltCache L)
          → IsFaithful w.cache
          → (resolve_tables L meanwhile i lookups w).1 ≡ true
          → (map (λ p. p.1) (resolve_tables L meanwhile i lookups w).0 ≡ lookups)
            × All (λ p. IsPrefix p.1.account_key p.0) (resolve_tables L meanwhile i lookups w).0
      unfolding resolve_tables
      resolve_tables-lookups i [] w h e = (refl, tt)
      resolve_tables-lookups i (l ∷ lookups) w h e =
          elim (Option-cases (peek (meanwhile i w.cache) l.account_key)) [
            | inl missing ↦ let bad = rw (missing, resolve_tables) at e in cc
            | inr (t, found) ↦
                let c = meanwhile i w.cache in
                let (same, prefixes) =
                  resolve_tables-lookups (i + 1) lookups
                    (record w { cache = touch c l.account_key })
                    (touched c l.account_key (others i w.cache h))
                    (rw (found, resolve_tables) at e) in
                rw (found, resolve_tables)
                  (ap (◌∷◌ l) same, (others i w.cache h l.account_key t found, prefixes))
          ]

      after_prefetch :
          (w after : AltCache L) (key : Pubkey) (c : Cache)
          → Grows (prefetch L (record w { cache = c }) key) after
          → GrowsStrictly w after
      unfolding prefetch
      after_prefetch w after key c g = (key, g.0, g.1 ∙ append_assoc w.prefetched (key ∷ []) g.0)

      resolve_tables-Grows :
          (i : ℕ) (lookups : List MessageAddressTableLookup) (w : AltCache L)
          → Grows w (resolve_tables L meanwhile i lookups w).2
      unfolding resolve_tables
      resolve_tables-Grows i [] w = ([], sym (append-nil w.prefetched))
      resolve_tables-Grows i (l ∷ lookups) w =
          let c = meanwhile i w.cache in
          let looked : AltCache L = record w { cache = touch c l.account_key } in
          elim (Option-cases (peek c l.account_key)) [
            | inl missing ↦
                let (key, keys, e) =
                  after_prefetch w
                    (resolve_tables L meanwhile (i + 1) lookups (prefetch L looked l.account_key)).2
                    l.account_key (touch c l.account_key)
                    (resolve_tables-Grows (i + 1) lookups (prefetch L looked l.account_key)) in
                rw (missing, resolve_tables) (key ∷ keys, e)
            | inr (t, found) ↦
                rw (found, resolve_tables) (resolve_tables-Grows (i + 1) lookups looked)
          ]

      resolve_tables-GrowsStrictly :
          (i : ℕ) (lookups : List MessageAddressTableLookup) (w : AltCache L)
          → (resolve_tables L meanwhile i lookups w).1 ≡ false
          → GrowsStrictly w (resolve_tables L meanwhile i lookups w).2
      unfolding resolve_tables
      resolve_tables-GrowsStrictly i [] w e = cc
      resolve_tables-GrowsStrictly i (l ∷ lookups) w e =
          let c = meanwhile i w.cache in
          let looked : AltCache L = record w { cache = touch c l.account_key } in
          elim (Option-cases (peek c l.account_key)) [
            | inl missing ↦
                rw (missing, resolve_tables)
                  (after_prefetch w
                    (resolve_tables L meanwhile (i + 1) lookups (prefetch L looked l.account_key)).2
                    l.account_key (touch c l.account_key)
                    (resolve_tables-Grows (i + 1) lookups (prefetch L looked l.account_key)))
            | inr (t, found) ↦
                rw (found, resolve_tables)
                  (resolve_tables-GrowsStrictly (i + 1) lookups looked
                    (rw (found, resolve_tables) at e))
          ]

      assemble-IsResolution :
          (i : ℕ) (static_keys : List Pubkey) (lookups : List MessageAddressTableLookup)
          (e : Extended) (w after : AltCache L)
          → ((f : List Pubkey) → e ≡ extended f → canonical static_keys lookups ≡ some f)
          → Grows w after
          → IsResolution static_keys lookups w (assemble L meanwhile i e after)
      unfolding assemble
      assemble-IsResolution i static_keys lookups (extended f) w after right g = right f refl
      assemble-IsResolution i static_keys lookups (stale key) w after right g =
          let (k, ks, e) = snoc_lem w.prefetched g.0 key in (k, ks, ap (λ r. r ++ key ∷ []) g.1 ∙ e)

      -- For a message with address tables, where every cached table is the first part of the table
      -- on the chain and the other tasks keep it so: either the keys are found, and are the static
      -- keys, the writable keys of every table and the readonly keys of every table, as the chain
      -- resolves them; or no keys are found, and the fetch of at least one more table was started.
      pub resolve_keys-IsResolution :
          (static_keys : List Pubkey) (lookups : List MessageAddressTableLookup) (w : AltCache L)
          → IsFaithful w.cache
          → IsResolution static_keys lookups w (resolve_keys L meanwhile (v0 lookups) static_keys w)
      unfolding resolve_keys
      resolve_keys-IsResolution static_keys [] w h = ap some (append-nil static_keys)
      resolve_keys-IsResolution static_keys (l ∷ lookups) w h =
          let (tables, all_cached, after) = resolve_tables L meanwhile 0 (l ∷ lookups) w in
          elim (Bool-cases all_cached) [
            | inl cached ↦
                let (same, prefixes) = resolve_tables-lookups 0 (l ∷ lookups) w h cached in
                rw cached (
                  assemble-IsResolution (length (l ∷ lookups)) static_keys (l ∷ lookups)
                    (build_full static_keys tables) w after
                    (λ f e.
                      ap (canonical static_keys) (sym same)
                      ∙ build_full-canonical tables static_keys f prefixes e)
                    (resolve_tables-Grows 0 (l ∷ lookups) w))
            | inr missing ↦ rw missing (resolve_tables-GrowsStrictly 0 (l ∷ lookups) w missing)
          ]
