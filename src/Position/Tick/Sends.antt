-- ===== src/Position/Tick/Sends.antt =====
-- What it means that a pass over a position queues sound orders, and how such passes are put together.
use mathlib.Core.List.{append-nil, append_assoc}
use girasolbot.Prelude.{
  ℕ, ◌≤◌, ◌≡◌, refl, sym, ◌∙◌, ◌⊎◌, inl, inr, Bool, true, false, some, List, [], ◌∷◌, ◌++◌, String,
  arith, if◌then◌else◌, All, All-append, ◌==◌, eq_refl, Option-cases,
}
use girasolbot.Prelude.Dict
use girasolbot.Prelude.Dict.{Dict, get-modify}
use girasolbot.Float.{Float}
use girasolbot.Position.State.{
  SellReason, take_profit, stop_loss, trailing_stop, rug_detected, mirror_sell, SellOrder, Holding,
}
use girasolbot.Position.Ops.{contains_index, set_pending_sell}
use girasolbot.Position.Orders.{World, send_order, order_for}

module _ (F : Float) where
  -- A level order is for a level that has not fired before.
  abbrev pub IsFresh : Holding F → SellReason F → ℕ → Type 0
  IsFresh h (take_profit _) i = contains_index h.triggered_tp_levels i ≡ false
  IsFresh h (stop_loss _) i = contains_index h.triggered_sl_levels i ≡ false
  IsFresh h (trailing_stop _) i = Unit {0}
  IsFresh h (rug_detected _) i = Unit {0}
  IsFresh h mirror_sell i = ⊥

  -- An order that the position can meet, routed to the pool where it was bought.
  pub record IsSound (mint : String) (h : Holding F) (o : SellOrder F) : Type 0 where
    pub same_mint : o.mint ≡ mint
    pub within : o.amount ≤ h.amount
    pub final : o.is_final ≡ (o.amount == h.amount)
    pub fresh : IsFresh h o.reason o.level_index
    pub same_dex : o.dex ≡ h.dex
    pub same_pool : o.amm_pool ≡ h.amm_pool
    pub same_accounts : o.pumpswap_accounts ≡ h.pumpswap_accounts

  -- If the mint has a position, a sell of it is pending.
  abbrev pub IsMarked : Dict (Holding F) → String → Type 0
  IsMarked ps mint = (h : Holding F) → Dict.get ps mint ≡ some h → h.pending_sell ≡ true

  -- `w'` is `w` after sound orders for one mint were queued and, if there were any, marked.
  pub record Sends (mint : String) (h : Holding F) (w w' : World F) : Type 0 where
    pub orders : List (SellOrder F)
    pub queued : w'.queue ≡ w.queue ++ orders
    pub sound : All (IsSound mint h) orders
    pub marked : (orders ≡ []) ⊎ IsMarked w'.positions mint
    pub keeps : IsMarked w.positions mint → IsMarked w'.positions mint

  -- A change of a field other than `pending_sell` keeps the marks.
  pub modify-IsMarked :
      (ps : Dict (Holding F)) (mint : String) (f : Holding F → Holding F)
      → ((h : Holding F) → (f h).pending_sell ≡ h.pending_sell)
      → IsMarked ps mint
      → IsMarked (Dict.modify ps mint f) mint
  modify-IsMarked ps mint f same m h e = elim (Option-cases (Dict.get ps mint)) [
    | inl p ↦ ground (arith, get-modify ps mint mint f, eq_refl mint)
    | inr (h₀, p) ↦ ground (arith, get-modify ps mint mint f, eq_refl mint, same h₀, m h₀ p)
  ]

  pub set_pending_sell-IsMarked :
      (ps : Dict (Holding F)) (mint : String) → IsMarked (set_pending_sell F ps mint) mint
  unfolding set_pending_sell
  set_pending_sell-IsMarked ps mint h e = elim (Option-cases (Dict.get ps mint)) [
    | inl p ↦
        ground
          (arith, get-modify ps mint mint (λ h. record h { pending_sell = true }), eq_refl mint)
    | inr (h₀, p) ↦
        ground
          (arith, get-modify ps mint mint (λ h. record h { pending_sell = true }), eq_refl mint)
  ]

  pub Sends-none :
      (mint : String) (h : Holding F) (w w' : World F)
      → w'.queue ≡ w.queue
      → (IsMarked w.positions mint → IsMarked w'.positions mint)
      → Sends mint h w w'
  Sends-none mint h w w' e k = record {
    orders = [];
    queued = e ∙ sym (append-nil w.queue);
    sound = tt;
    marked = inl refl;
    keeps = k;
  }

  pub Sends-trans :
      {mint : String} {h : Holding F} {w w' w'' : World F}
      → Sends mint h w w'
      → Sends mint h w' w''
      → Sends mint h w w''
  Sends-trans {mint} {h} {w} {w'} {w''} a b = record {
    orders = a.orders ++ b.orders;
    queued = rw (b.queued, a.queued) (append_assoc w.queue a.orders b.orders);
    sound = All-append (IsSound mint h) a.orders b.orders a.sound b.sound;
    marked = elim a.marked [
      | inr m ↦ inr (b.keeps m)
      | inl e ↦ elim b.marked [ inl f ↦ inl (rw (e, f)) | inr m ↦ inr m ]
    ];
    keeps = λ m. b.keeps (a.keeps m);
  }

  pub Sends-if :
      {mint : String} {h : Holding F} {w x y : World F} (b : Bool)
      → (b ≡ true → Sends mint h w x)
      → (b ≡ false → Sends mint h w y)
      → Sends mint h w (if b then x else y)
  Sends-if true f g = f refl
  Sends-if false f g = g refl

  pub send_order-Sends :
      (mint : String) (h : Holding F) (w : World F) (o : SellOrder F)
      → IsSound mint h o
      → Sends mint h w (send_order F w o)
  unfolding send_order
  send_order-Sends mint h w o v =
      let marks : IsMarked (set_pending_sell F w.positions o.mint) mint =
        rw v.same_mint (set_pending_sell-IsMarked w.positions mint) in
      Sends-if w.is_open
        (λ _. record {
          orders = o ∷ [];
          queued = refl;
          sound = (v, tt);
          marked = inr marks;
          keeps = λ _. marks;
        })
        (λ _. Sends-none mint h w w refl (λ m. m))

  pub whole-IsSound :
      (mint : String) (h : Holding F) (price : F.F64) (why : SellReason F)
      → IsFresh h why 0
      → IsSound mint h (order_for F mint h price h.amount why 0 true)
  unfolding order_for
  whole-IsSound mint h price why fr = record {
    same_mint = refl;
    within = omega arith;
    final = ground arith;
    fresh = fr;
    same_dex = refl;
    same_pool = refl;
    same_accounts = refl;
  }
