-- ===== src/Shreds/Prefetch.antt =====
-- `AltCache::prefetch` of src/shreds_listener.rs: the background tasks that fill the cache, as events
-- that interleave with one another and with the main loop. An event that is not possible in a state
-- leaves it as it is.
pub mod Exclusive
use girasolbot.Prelude.{
  ℕ, Bool, true, false, ◌||◌, Option, none, some, List, [], ◌∷◌, Pubkey, bytes_eq, ◌==◌, is_some,
  if◌then◌else◌,
}
use girasolbot.Shreds.{LruCache}

-- The `HashSet` of keys.
pub contains : List Pubkey → Pubkey → Bool
contains [] key = false
contains (k ∷ keys) key = bytes_eq k key || contains keys key

pub remove : List Pubkey → Pubkey → List Pubkey
remove [] key = []
remove (k ∷ keys) key = let rest = remove keys key in if bytes_eq k key then rest else k ∷ rest

-- A task before it is started; before it looks at the set; while it waits for the account; when
-- the table is stored or the fetch has failed; and at its end.
pub data Task : Type 0 where
  unborn ended : Task
  spawned fetching settled : Pubkey → Task

module _ (L : LruCache) where
  open L use {Cache, peek, put}

  pub record Fetches : Type 0 where
    pub cache : Cache
    pub in_flight : List Pubkey
    pub tasks : ℕ → Task

  -- `main_loop` is any `get` or `pop` of the main loop.
  pub data Event : Type 0 where
    spawn : ℕ → Pubkey → Event
    enter finish : ℕ → Event
    answer : ℕ → Option (List Pubkey) → Event
    main_loop : (Cache → Cache) → Event

  abbrev pub no_fetches : Cache → Fetches
  no_fetches c = record { cache = c; in_flight = []; tasks = λ i. unborn }

  pub set_task : Fetches → ℕ → Task → Fetches
  set_task s i t = record s { tasks = λ u. if i == u then t else s.tasks u }

  pub start : Fetches → ℕ → Pubkey → Task → Fetches
  unfolding set_task
  start s i key unborn = set_task s i (spawned key)
  start s i key _ = s

  -- One section under the lock of the set, which holds the lock of the cache as well.
  pub look : Fetches → ℕ → Task → Fetches
  unfolding set_task contains
  look s i (spawned key) =
      if contains s.in_flight key
      then set_task s i ended
      else if is_some (peek s.cache key)
      then set_task s i ended
      else set_task (record s { in_flight = key ∷ s.in_flight }) i (fetching key)
  look s i _ = s

  pub store : Cache → Pubkey → Option (List Pubkey) → Cache
  store c key none = c
  store c key (some table) = put c key table

  -- The answer of the node, or `none` where it is an error or no lookup table.
  pub take_answer : Fetches → ℕ → Option (List Pubkey) → Task → Fetches
  unfolding set_task store
  take_answer s i table (fetching key) =
      set_task (record s { cache = store s.cache key table }) i (settled key)
  take_answer s i table _ = s

  pub clear : Fetches → ℕ → Task → Fetches
  unfolding set_task remove
  clear s i (settled key) = set_task (record s { in_flight = remove s.in_flight key }) i ended
  clear s i _ = s

  unfoldable pub fetch_step : Fetches → Event → Fetches
  unfolding start look take_answer clear
  fetch_step s (spawn i key) = start s i key (s.tasks i)
  fetch_step s (enter i) = look s i (s.tasks i)
  fetch_step s (answer i table) = take_answer s i table (s.tasks i)
  fetch_step s (finish i) = clear s i (s.tasks i)
  fetch_step s (main_loop f) = record s { cache = f s.cache }

  unfoldable pub fetch_run : Fetches → List Event → Fetches
  unfolding fetch_step
  fetch_run s [] = s
  fetch_run s (e ∷ es) = fetch_run (fetch_step s e) es
