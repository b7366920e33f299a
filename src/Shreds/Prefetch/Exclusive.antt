-- ===== src/Shreds/Prefetch/Exclusive.antt =====
-- Which tables the tasks of `AltCache::prefetch` fetch at a time.
use girasolbot.Prelude.{
  ==_refl, ℕ, ◌≡◌, ◌≢◌, refl, sym, ap, ◌∙◌, Bool, true, false, ◌||◌, Option, none, some, List, [],
  ◌∷◌, Pubkey, bytes_eq, bytes_eq-eq, bytes_eq_refl, ◌==◌, ==→eq, is_some, if◌then◌else◌, arith,
  Bool-cases, ◌⊎◌, inl, inr,
}
use girasolbot.Shreds.{LruCache}
use girasolbot.Shreds.Prefetch.{
  contains, remove, Task, unborn, ended, spawned, fetching, settled, Fetches, Event, spawn, enter,
  finish, answer, main_loop, no_fetches, set_task, start, look, take_answer, clear, fetch_step,
  fetch_run,
}

-- The table that a task has taken upon itself.
abbrev pub table_of : Task → Option Pubkey
table_of unborn = none
table_of ended = none
table_of (spawned key) = none
table_of (fetching key) = some key
table_of (settled key) = some key

or_true : (b : Bool) → (b || true) ≡ true
or_true true = refl
or_true false = refl

contains-remove :
    (keys : List Pubkey) (key k : Pubkey)
    → contains (remove keys key) k ≡ (if bytes_eq key k then false else contains keys k)
unfolding contains remove
contains-remove [] key k = ground arith
contains-remove (x ∷ keys) key k = elim (Bool-cases (bytes_eq x key)) [
  | inl e ↦
      let same = bytes_eq-eq x key e in rw (e, same, contains-remove keys key k) (ground arith)
  | inr e ↦ elim (Bool-cases (bytes_eq key k)) [
    | inl e' ↦
        let same = bytes_eq-eq key k e' in rw (e, e') (grind (arith, contains-remove keys key k))
    | inr e' ↦ rw (e, e') (grind (arith, contains-remove keys key k))
  ]
]

-- Whoever has a table after one task was set: that task, or another that had it before.
updated_task :
    (f : ℕ → Task) (i : ℕ) (t : Task) (u : ℕ) (k : Pubkey)
    → table_of (if i == u then t else f u) ≡ some k
    → ((i ≡ u) × (table_of t ≡ some k)) ⊎ (((i == u) ≡ false) × (table_of (f u) ≡ some k))
updated_task f i t u k h = elim (Bool-cases (i == u)) [
  | inl e ↦ inl (==→eq i u e, rw e at h)
  | inr e ↦ inr (e, rw e at h)
]

other_task :
    (f : ℕ → Task) (i : ℕ) (t : Task) (u : ℕ)
    → (i == u) ≡ false
    → table_of (if i == u then t else f u) ≡ table_of (f u)
other_task f i t u e = rw e refl

module _ (L : LruCache) where
  open L use {Cache}

  -- A table has at most one task, which the set knows, and the set holds no other table.
  pub record IsExclusive (s : Fetches L) : Type 0 where
    pub sole :
        (i j : ℕ) (key : Pubkey)
        → table_of (s.tasks i) ≡ some key
        → table_of (s.tasks j) ≡ some key
        → i ≡ j
    pub known :
        (i : ℕ) (key : Pubkey) → table_of (s.tasks i) ≡ some key → contains s.in_flight key ≡ true
    pub owned :
        (key : Pubkey)
        → contains s.in_flight key ≡ true
        → (i : ℕ) × (table_of (s.tasks i) ≡ some key)

  no_fetches-IsExclusive : (c : L.Cache) → IsExclusive (no_fetches L c)
  unfolding contains
  no_fetches-IsExclusive c = record {
    sole = λ i j key e e'. cc;
    known = λ i key e. cc;
    owned = λ key e. cc;
  }

  -- A step of a task that neither takes a table nor gives one up.
  set_task-IsExclusive :
      (s : Fetches L) (c : L.Cache) (i : ℕ) (t : Task)
      → table_of t ≡ table_of (s.tasks i)
      → IsExclusive s
      → IsExclusive (set_task L (record s { cache = c }) i t)
  unfolding set_task
  set_task-IsExclusive s c i t e h =
      let same : (u : ℕ) → table_of (if i == u then t else s.tasks u) ≡ table_of (s.tasks u) = λ u.
        elim (Bool-cases (i == u)) [
          | inl here ↦ rw here (e ∙ ap (λ v. table_of (s.tasks v)) (==→eq i u here))
          | inr there ↦ rw there refl
        ] in
      record {
        sole = λ u v key e e'. h.sole u v key (sym (same u) ∙ e) (sym (same v) ∙ e');
        known = λ u key e. h.known u key (sym (same u) ∙ e);
        owned = λ key e. let (u, o) = h.owned key e in (u, same u ∙ o);
      }

  take_up-IsExclusive :
      (s : Fetches L) (i : ℕ) (key : Pubkey)
      → table_of (s.tasks i) ≡ none
      → contains s.in_flight key ≡ false
      → IsExclusive s
      → IsExclusive (set_task L (record s { in_flight = key ∷ s.in_flight }) i (fetching key))
  unfolding set_task contains
  take_up-IsExclusive s i key e new h =
      let unowned : (u : ℕ) → table_of (s.tasks u) ≢ some key = λ u o. cc (h.known u key o, new) in
      record {
        sole = λ u v k o o'. elim (updated_task s.tasks i (fetching key) u k o) [
          | inl (a, b) ↦ elim (updated_task s.tasks i (fetching key) v k o') [
            | inl (a', b') ↦ sym a ∙ a'
            | inr (a', b') ↦ absurd (unowned v (b' ∙ sym b))
          ]
          | inr (a, b) ↦ elim (updated_task s.tasks i (fetching key) v k o') [
            | inl (a', b') ↦ absurd (unowned u (b ∙ sym b'))
            | inr (a', b') ↦ h.sole u v k b b'
          ]
        ];
        known = λ u k o. elim (updated_task s.tasks i (fetching key) u k o) [
          | inl (a, b) ↦ let same : key ≡ k = cc in rw (← same) (rw (bytes_eq_refl key) refl)
          | inr (a, b) ↦ rw (h.known u k b) (or_true (bytes_eq key k))
        ];
        owned = λ k o. elim (Bool-cases (bytes_eq key k)) [
          | inl same ↦ (i, rw (==_refl i) (ap some (bytes_eq-eq key k same)))
          | inr apart ↦
              let (u, held) = h.owned k (rw apart at o) in
              elim (Bool-cases (i == u)) [
                | inl here ↦
                    let bad =
                      sym held ∙ ap (λ v. table_of (s.tasks v)) (sym (==→eq i u here)) ∙ e in
                    cc
                | inr there ↦ (u, other_task s.tasks i (fetching key) u there ∙ held)
              ]
        ];
      }

  give_up-IsExclusive :
      (s : Fetches L) (i : ℕ) (key : Pubkey)
      → table_of (s.tasks i) ≡ some key
      → IsExclusive s
      → IsExclusive (set_task L (record s { in_flight = remove s.in_flight key }) i ended)
  unfolding set_task
  give_up-IsExclusive s i key e h = record {
    sole = λ u v k o o'. elim (updated_task s.tasks i ended u k o) [
      | inl (a, b) ↦ cc
      | inr (a, b) ↦ elim (updated_task s.tasks i ended v k o') [
        | inl (a', b') ↦ cc
        | inr (a', b') ↦ h.sole u v k b b'
      ]
    ];
    known = λ u k o. elim (updated_task s.tasks i ended u k o) [
      | inl (a, b) ↦ cc
      | inr (a, b) ↦ elim (Bool-cases (bytes_eq key k)) [
        | inl same ↦
            let mine = e ∙ ap some (bytes_eq-eq key k same) in
            let bad = h.sole i u k mine b in let here : (i == u) ≡ true = ground arith in cc
        | inr apart ↦ contains-remove s.in_flight key k ∙ rw apart (h.known u k b)
      ]
    ];
    owned = λ k o.
        let left = sym (contains-remove s.in_flight key k) ∙ o in
        elim (Bool-cases (bytes_eq key k)) [
          | inl same ↦ let bad = rw same at left in cc
          | inr apart ↦
              let (u, held) = h.owned k (rw apart at left) in
              elim (Bool-cases (i == u)) [
                | inl here ↦
                    let mine = sym e ∙ ap (λ v. table_of (s.tasks v)) (==→eq i u here) ∙ held in
                    let same : key ≡ k = cc in
                    let bad = sym apart ∙ ap (bytes_eq key) (sym same) ∙ bytes_eq_refl key in cc
                | inr there ↦ (u, other_task s.tasks i ended u there ∙ held)
              ]
        ];
  }

  start-IsExclusive :
      (s : Fetches L) (i : ℕ) (key : Pubkey) (t : Task)
      → t ≡ s.tasks i
      → IsExclusive s
      → IsExclusive (start L s i key t)
  unfolding start
  start-IsExclusive s i key unborn e h =
      set_task-IsExclusive s s.cache i (spawned key) (ap table_of e) h
  start-IsExclusive s i key ended e h = h
  start-IsExclusive s i key (spawned k) e h = h
  start-IsExclusive s i key (fetching k) e h = h
  start-IsExclusive s i key (settled k) e h = h

  look-IsExclusive :
      (s : Fetches L) (i : ℕ) (t : Task)
      → t ≡ s.tasks i
      → IsExclusive s
      → IsExclusive (look L s i t)
  unfolding look
  look-IsExclusive s i unborn e h = h
  look-IsExclusive s i ended e h = h
  look-IsExclusive s i (fetching k) e h = h
  look-IsExclusive s i (settled k) e h = h
  look-IsExclusive s i (spawned key) e h = elim (Bool-cases (contains s.in_flight key)) [
    | inl taken ↦ rw taken (set_task-IsExclusive s s.cache i ended (ap table_of e) h)
    | inr free ↦ elim (Bool-cases (is_some (L.peek s.cache key))) [
      | inl cached ↦ rw (free, cached) (set_task-IsExclusive s s.cache i ended (ap table_of e) h)
      | inr missing ↦ rw (free, missing) (take_up-IsExclusive s i key (ap table_of (sym e)) free h)
    ]
  ]

  take_answer-IsExclusive :
      (s : Fetches L) (i : ℕ) (table : Option (List Pubkey)) (t : Task)
      → t ≡ s.tasks i
      → IsExclusive s
      → IsExclusive (take_answer L s i table t)
  unfolding take_answer
  take_answer-IsExclusive s i table unborn e h = h
  take_answer-IsExclusive s i table ended e h = h
  take_answer-IsExclusive s i table (spawned k) e h = h
  take_answer-IsExclusive s i table (settled k) e h = h
  take_answer-IsExclusive s i table (fetching key) e h =
      set_task-IsExclusive s _ i (settled key) (ap table_of e) h

  clear-IsExclusive :
      (s : Fetches L) (i : ℕ) (t : Task)
      → t ≡ s.tasks i
      → IsExclusive s
      → IsExclusive (clear L s i t)
  unfolding clear
  clear-IsExclusive s i unborn e h = h
  clear-IsExclusive s i ended e h = h
  clear-IsExclusive s i (spawned k) e h = h
  clear-IsExclusive s i (fetching k) e h = h
  clear-IsExclusive s i (settled key) e h = give_up-IsExclusive s i key (ap table_of (sym e)) h

  fetch_step-IsExclusive :
      (s : Fetches L) (e : Event L) → IsExclusive s → IsExclusive (fetch_step L s e)
  unfolding fetch_step
  fetch_step-IsExclusive s (spawn i key) h = start-IsExclusive s i key (s.tasks i) refl h
  fetch_step-IsExclusive s (enter i) h = look-IsExclusive s i (s.tasks i) refl h
  fetch_step-IsExclusive s (answer i table) h = take_answer-IsExclusive s i table (s.tasks i) refl h
  fetch_step-IsExclusive s (finish i) h = clear-IsExclusive s i (s.tasks i) refl h
  fetch_step-IsExclusive s (main_loop f) h = record {
    sole = h.sole;
    known = h.known;
    owned = h.owned;
  }

  run-IsExclusive :
      (s : Fetches L) (es : List (Event L)) → IsExclusive s → IsExclusive (fetch_run L s es)
  unfolding fetch_run
  run-IsExclusive s [] h = h
  run-IsExclusive s (e ∷ es) h =
      run-IsExclusive (fetch_step L s e) es (fetch_step-IsExclusive s e h)

  -- Whatever the order of events, no table is fetched by two tasks at a time, a table that a task
  -- fetches is in the set, and every table in the set belongs to a task that fetches it or has still
  -- to take it out. Whether that task ever gets its answer is not a part of this.
  pub fetch_run-IsExclusive :
      (c : L.Cache) (es : List (Event L)) → IsExclusive (fetch_run L (no_fetches L c) es)
  fetch_run-IsExclusive c es = run-IsExclusive (no_fetches L c) es (no_fetches-IsExclusive c)
