-- ===== src/Position/Revalidate/Stale.antt =====
-- Which positions the checks against the chain remove.
use girasolbot.Prelude.{
  ◌≡◌, refl, Bool, true, false, ◌&&◌, Option, none, ◌==◌, List, [], ◌∷◌, String, arith, eq_iff,
  if◌then◌else◌,
}
use girasolbot.Prelude.Dict
use girasolbot.Prelude.Dict.{Dict, get-remove}
use girasolbot.Float.{Float}
use girasolbot.Position.State.{Holding, PositionMonitor}
use girasolbot.Position.Ops.{persist, member}
use girasolbot.Position.Revalidate.{
  Answer, no_account, unknown, amount, is_gone, keys, idle_keys, remove_stale, unless_empty,
  validate_positions_on_startup, revalidate,
}

module _ (F : Float) where
  get-remove_stale :
      (answers : String → Answer) (mints : List String) (ps : Dict (Holding F)) (k : String)
      → Dict.get (remove_stale F answers mints ps) k
        ≡ (if member k mints && is_gone (answers k) then none else Dict.get ps k)
  unfolding remove_stale member
  get-remove_stale answers [] ps k = refl
  get-remove_stale answers (mint ∷ rest) ps k =
      let here = if is_gone (answers mint) then Dict.remove ps mint else ps in
      ground (arith, get-remove_stale answers rest here k, get-remove ps mint k, eq_iff mint k)

  get-keys : (ps : Dict (Holding F)) (k : String) → member k (keys F ps) ≡ Dict.contains_key ps k
  unfolding member Dict.get
  get-keys [] k = refl
  get-keys ((j, h) ∷ ps) k = ground (arith, get-keys ps k)

  nothing_left :
      (b : Bool) (k : String)
      → Dict.get {V = Holding F} [] k ≡ (if b then none else Dict.get {V = Holding F} [] k)
  unfolding Dict.get
  nothing_left true k = refl
  nothing_left false k = refl

  unless_empty-cases :
      (ps : Dict (Holding F)) (m later : PositionMonitor F) (P : PositionMonitor F → Type 0)
      → (ps ≡ [] → P m)
      → P later
      → P (unless_empty F ps m later)
  unfolding unless_empty
  unless_empty-cases [] m later P h k = h refl
  unless_empty-cases (e ∷ rest) m later P h k = k

  gone_lem :
      (a : Answer) (o : Option (Holding F))
      → (if is_gone a then none else o)
        ≡ elim a [ no_account ↦ none | unknown ↦ o | amount n ↦ if n == 0 then none else o ]
  gone_lem no_account o = refl
  gone_lem unknown o = refl
  gone_lem (amount n) o = refl

  -- From positions that are those of the file, the check at the start removes exactly the mints for
  -- which the node says that the wallet has no token account or one with the amount 0, keeps every
  -- other position, those for which the node gave no answer among them, and saves what is left.
  pub get-validate_positions_on_startup :
      (answers : String → Answer) (m : PositionMonitor F) (k : String)
      → m.file ≡ m.positions
      → let after = validate_positions_on_startup F answers m in
        (Dict.get after.positions k ≡ elim (answers k) [
          | no_account ↦ none
          | unknown ↦ Dict.get m.positions k
          | amount n ↦ if n == 0 then none else Dict.get m.positions k
        ])
        × (after.file ≡ after.positions)
  unfolding validate_positions_on_startup persist
  get-validate_positions_on_startup answers m k e =
      rw (← gone_lem (answers k) (Dict.get m.positions k)) (
        unless_empty-cases m.positions m _
          (λ r.
            (Dict.get r.positions k
              ≡ (if is_gone (answers k) then none else Dict.get m.positions k))
            × (r.file ≡ r.positions))
          (λ empty. (rw empty (nothing_left (is_gone (answers k)) k), e))
          (
            ground (
              arith,
              get-remove_stale answers (keys F m.positions) m.positions k,
              get-keys m.positions k,
            ),
            refl,
          ))

  -- The revalidation removes exactly the mints with nothing on the chain that have an entry with no
  -- sell in flight, and saves what is left.
  pub get-revalidate :
      (answers : String → Answer) (m : PositionMonitor F) (k : String)
      → m.file ≡ m.positions
      → let after = revalidate F answers m in
        (Dict.get after.positions k ≡ (
          if member k (idle_keys F m.positions) && is_gone (answers k)
          then none
          else Dict.get m.positions k))
        × (after.file ≡ after.positions)
  unfolding revalidate persist
  get-revalidate answers m k e =
      unless_empty-cases m.positions m _
        (λ r.
          (Dict.get r.positions k ≡ (
            if member k (idle_keys F m.positions) && is_gone (answers k)
            then none
            else Dict.get m.positions k))
          × (r.file ≡ r.positions))
        (λ empty. (rw empty (nothing_left (member k (idle_keys F []) && is_gone (answers k)) k), e))
        (get-remove_stale answers (idle_keys F m.positions) m.positions k, refl)
