-- ===== src/Position/Buying/Exclusion.antt =====
-- At most one task buys a mint, and no buy overwrites a position.
use girasolbot.Prelude.{
  ℕ, ◌≡◌, refl, ap, true, false, Option, none, some, List, [], ◌∷◌, String, arith, str_eq, eq_iff,
  if◌then◌else◌,
}
use girasolbot.Prelude.Dict.{get-insert, get-remove, get-modify}
use girasolbot.Float.{Float}
use girasolbot.Position.State.{acquired, SellReason, Holding, PositionMonitor}
use girasolbot.Position.Ops.{
  add_position, remove_position, clear_pending_sell, update_after_sell, has_position,
  try_acquire_buy, release_buy, member, discard,
}
use girasolbot.Position.Ops.Selling.{update_after_sell-opens_none}
use girasolbot.Position.Buying.{
  Task, idle, reserved, checked, registered, System, assign, Step, acquire, check, add, give_up,
  fail, finish, sell, close, retry, Reach, here, next,
}

pub member-discard :
    (k j : String) (xs : List String)
    → member j (discard k xs) ≡ (if str_eq k j then false else member j xs)
unfolding member discard
member-discard k j [] = ground arith
member-discard k j (i ∷ xs) =
    ground (arith, member-discard k j xs, eq_iff i k, eq_iff i j, eq_iff k j)

-- The mint that a task holds.
abbrev pub holds : Task → Option String
holds idle = none
holds (reserved m) = some m
holds (checked m) = some m
holds (registered m) = some m

-- The mint that a task is still to add.
abbrev pub awaits : Task → Option String
awaits idle = none
awaits (reserved m) = some m
awaits (checked m) = some m
awaits (registered m) = none

module _ (F : Float) where
  pub record IsExclusive (s : System F) : Type 0 where
    -- No two tasks hold one mint.
    pub unique :
        (t u : ℕ) (m : String) → holds (s.tasks t) ≡ some m → holds (s.tasks u) ≡ some m → t ≡ u
    -- A mint that is held is in `pending_buys`.
    pub pending :
        (t : ℕ) (m : String) → holds (s.tasks t) ≡ some m → member m s.monitor.pending_buys ≡ true
    -- A mint that is being bought has no position yet.
    pub absent :
        (t : ℕ) (m : String) → awaits (s.tasks t) ≡ some m → has_position F s.monitor m ≡ false

  acquired_lem :
      (m m' : PositionMonitor F) (mint : String)
      → try_acquire_buy F m mint false ≡ (m', acquired)
      → (has_position F m mint ≡ false)
        × (member mint m.pending_buys ≡ false)
        × (m' ≡ record m { pending_buys = mint ∷ m.pending_buys })
  unfolding try_acquire_buy
  acquired_lem m m' mint e = ground arith

  acquire-IsExclusive :
      (s : System F) (t : ℕ) (mint : String)
      → s.tasks t ≡ idle
      → has_position F s.monitor mint ≡ false
      → member mint s.monitor.pending_buys ≡ false
      → IsExclusive s
      → IsExclusive (record {
        monitor = record s.monitor { pending_buys = mint ∷ s.monitor.pending_buys };
        tasks = assign F s.tasks t (reserved mint);
      })
  unfolding member
  acquire-IsExclusive s t mint e unheld fresh v = record {
    unique = λ a b m ha hb. ground (arith, v.unique a b m, v.pending a m, v.pending b m);
    pending = λ a m ha. ground (arith, v.pending a m, eq_iff mint m);
    absent = λ a m ha. ground (arith, v.absent a m);
  }

  awaits→holds : (k : Task) (m : String) → awaits k ≡ some m → holds k ≡ some m
  awaits→holds idle m e = cc
  awaits→holds (reserved x) m e = e
  awaits→holds (checked x) m e = e
  awaits→holds (registered x) m e = cc

  check-IsExclusive :
      (s : System F) (t : ℕ) (mint : String)
      → s.tasks t ≡ reserved mint
      → IsExclusive s
      → IsExclusive (record s { tasks = assign F s.tasks t (checked mint) })
  check-IsExclusive s t mint e v = record {
    unique = λ a b m ha hb. ground (arith, v.unique a b m);
    pending = λ a m ha. ground (arith, v.pending a m);
    absent = λ a m ha. ground (arith, v.absent a m);
  }

  add-IsExclusive :
      (s : System F) (t : ℕ) (mint : String) (h : Holding F)
      → s.tasks t ≡ checked mint
      → IsExclusive s
      → IsExclusive (record {
        monitor = add_position F s.monitor mint h;
        tasks = assign F s.tasks t (registered mint);
      })
  unfolding add_position
  add-IsExclusive s t mint h e v = record {
    unique = λ a b m ha hb. ground (arith, v.unique a b m);
    pending = λ a m ha. ground (arith, v.pending a m);
    absent = λ a m ha. ground (
      arith,
      v.absent a m,
      v.unique a t m,
      awaits→holds (s.tasks a) m,
      eq_iff mint m,
      get-insert s.monitor.positions mint m h,
    );
  }

  release-IsExclusive :
      (s : System F) (t : ℕ) (mint : String)
      → holds (s.tasks t) ≡ some mint
      → IsExclusive s
      → IsExclusive
          (record { monitor = release_buy F s.monitor mint; tasks = assign F s.tasks t idle })
  unfolding release_buy
  release-IsExclusive s t mint e v = record {
    unique = λ a b m ha hb. ground (arith, v.unique a b m);
    pending = λ a m ha. ground (
      arith,
      v.pending a m,
      v.unique a t m,
      eq_iff mint m,
      member-discard mint m s.monitor.pending_buys,
    );
    absent = λ a m ha. ground (arith, v.absent a m);
  }

  -- The sell side opens no position and keeps the reservations.
  record Shrinks (m m' : PositionMonitor F) : Type 0 where
    reservations : m'.pending_buys ≡ m.pending_buys
    gone : (k : String) → has_position F m k ≡ false → has_position F m' k ≡ false

  shrink-IsExclusive :
      (s : System F) (m : PositionMonitor F)
      → Shrinks s.monitor m
      → IsExclusive s
      → IsExclusive (record s { monitor = m })
  shrink-IsExclusive s m sh v = record {
    unique = v.unique;
    pending = λ a k ha. rw sh.reservations (v.pending a k ha);
    absent = λ a k ha. sh.gone k (v.absent a k ha);
  }

  sell-Shrinks :
      (m : PositionMonitor F) (mint : String) (n : ℕ) (why : SellReason F) (level : ℕ)
      → Shrinks m (update_after_sell F m mint n why level)
  unfolding update_after_sell
  sell-Shrinks m mint n why level = record {
    reservations = refl;
    gone = λ k e. update_after_sell-opens_none F m mint n why level k e;
  }

  close-Shrinks : (m : PositionMonitor F) (mint : String) → Shrinks m (remove_position F m mint)
  unfolding remove_position
  close-Shrinks m mint = record {
    reservations = ground arith;
    gone = λ k e. ground (arith, get-remove m.positions mint k);
  }

  retry-Shrinks : (m : PositionMonitor F) (mint : String) → Shrinks m (clear_pending_sell F m mint)
  unfolding clear_pending_sell
  retry-Shrinks m mint = record {
    reservations = refl;
    gone = λ k e.
        ground (arith, get-modify m.positions mint k (λ h. record h { pending_sell = false }));
  }

  -- Every step, of a task or of the sell side, keeps the reservations exclusive.
  pub Step-IsExclusive :
      (limit : ℕ) (s s' : System F) → IsExclusive s → Step F limit s s' → IsExclusive s'
  Step-IsExclusive limit s s' v (acquire t mint m e got eq) =
      let lem = acquired_lem s.monitor m mint got in
      rw (eq, lem.2) (acquire-IsExclusive s t mint e lem.0 lem.1 v)
  Step-IsExclusive limit s s' v (check t mint e below eq) = rw eq (check-IsExclusive s t mint e v)
  Step-IsExclusive limit s s' v (add t mint h e eq) = rw eq (add-IsExclusive s t mint h e v)
  Step-IsExclusive limit s s' v (give_up t mint e eq) =
      rw eq (release-IsExclusive s t mint (ap holds e) v)
  Step-IsExclusive limit s s' v (fail t mint e eq) =
      rw eq (release-IsExclusive s t mint (ap holds e) v)
  Step-IsExclusive limit s s' v (finish t mint e eq) =
      rw eq (release-IsExclusive s t mint (ap holds e) v)
  Step-IsExclusive limit s s' v (sell mint n why level eq) =
      rw eq (shrink-IsExclusive s _ (sell-Shrinks s.monitor mint n why level) v)
  Step-IsExclusive limit s s' v (close mint eq) =
      rw eq (shrink-IsExclusive s _ (close-Shrinks s.monitor mint) v)
  Step-IsExclusive limit s s' v (retry mint eq) =
      rw eq (shrink-IsExclusive s _ (retry-Shrinks s.monitor mint) v)

  -- From a state with exclusive reservations, every state that tasks without `allow_accumulate` (its
  -- default) reach has them: no two tasks hold one mint, a held mint is in `pending_buys`, and a mint
  -- still to be added has no position, so that `add_position` never overwrites one.
  pub Reach-IsExclusive :
      (limit : ℕ) (s s' : System F) → IsExclusive s → Reach F limit s s' → IsExclusive s'
  Reach-IsExclusive limit s _ v here = v
  Reach-IsExclusive limit s _ v (next {t} {u} before step) =
      Step-IsExclusive limit t u (Reach-IsExclusive limit s t v before) step
