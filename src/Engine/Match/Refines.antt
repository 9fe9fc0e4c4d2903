-- ===== src/Engine/Match/Refines.antt =====
-- `match_level` and `match_levels` implement price-time priority, and log what they trade.
use mathlib.Core.List.{append-nil, append_assoc}
use elsa_fyp.Prelude.{
  ℕ, ◌-◌, ◌<◌, ◌≡◌, refl, sym, ap, ◌∙◌, false, List, [], ◌∷◌, ◌++◌, length, arith, ok, Ensures,
  Ensures-bind, Ensures-if, Ensures-step, Ensures-require, Ensures-mono, leb, ◌==◌, erase, ◌||◌,
  nat_eq,
}
use elsa_fyp.Engine.Order.{Order, Trade, Stamp, fill, create_trade}
use elsa_fyp.Engine.Book.{SideContainer}
use elsa_fyp.Engine.Match.{Taker, Desk, stops, record_trade, match_level, match_levels}
use elsa_fyp.Engine.Match.Spec.{
  Trades, Fills, used_up, satisfied, whole, part, Sweeps, emptied, stopped, through, within,
}

-- What a desk has after the trades `xs`.
pub record Logged (d : Desk) (xs : List Trade) (d' : Desk) : Type 0 where
  pub queued : d'.trade_events ≡ d.trade_events ++ xs
  pub published : d'.published ≡ d.published ++ xs

Logged-append :
    {d e f : Desk} (xs ys : List Trade) → Logged d xs e → Logged e ys f → Logged d (xs ++ ys) f
Logged-append {d} xs ys h k = record {
  queued = k.queued ∙ ap (λ l. l ++ ys) h.queued ∙ append_assoc d.trade_events xs ys;
  published = k.published ∙ ap (λ l. l ++ ys) h.published ∙ append_assoc d.published xs ys;
}

Logged-none : (d : Desk) → Logged d [] d
Logged-none d = record { queued = sym (append-nil _); published = sym (append-nil _) }

create_trade-Trades :
    (t : Taker) (o : Order) (q : ℕ) (s : Stamp) {x : Trade}
    → create_trade s t.order_id o.order_id t.broker_id o.trader_id t.ticker o.price q t.side ≡ ok x
    → Trades t o q x
unfolding create_trade
create_trade-Trades t o q s e = ground arith

-- What one trade leaves on the desk.
abbrev Recorded : Taker → Order → ℕ → Desk → Desk → Type 0
Recorded t o q d d' =
    (x : Trade) × Trades t o q x × Logged d (x ∷ []) d' × (d'.order_id_map ≡ d.order_id_map)

record_trade-Recorded :
    (t : Taker) (o : Order) (q : ℕ) (d : Desk) → Ensures (Recorded t o q d) (record_trade t o q d)
unfolding record_trade
record_trade-Recorded t o q d =
    Ensures-step (Recorded t o q d) _
      (λ x.
        ok
          (record d { trade_events = d.trade_events ++ x ∷ []; published = d.published ++ x ∷ [] }))
      λ x made. (
        x,
        create_trade-Trades t o q (t.stamp (length d.published)) made,
        record { queued = refl; published = refl },
        refl,
      )

abbrev Filled : Order → ℕ → Order → Type 0
Filled o n o' = o' ≡ record o { quantity = o.quantity - n }

fill-Filled : (o : Order) (n : ℕ) → Ensures (Filled o n) (fill o n)
unfolding fill
fill-Filled o n = Ensures-require (Filled o n) (leb n o.quantity) _ (ok _) λ _. refl

-- The abstract matching of a level, with the log.
abbrev pub LevelFilled : Taker → List Order → ℕ → Desk → List Order × ℕ × Desk → Type 0
LevelFilled t os r d (os', r', d') = (xs : List Trade) × Fills t os r os' r' xs × Logged d xs d'

pub match_level-Fills :
    (t : Taker) (os : List Order) (r : ℕ) (d : Desk)
    → Ensures (LevelFilled t os r d) (match_level t os r d)
unfolding match_level
match_level-Fills t [] r d = ([], used_up, Logged-none d)
match_level-Fills t (o ∷ os) r d =
    Ensures-if P (r == 0) _ _ (λ z. ([], satisfied (ground arith), Logged-none d))
      λ nz.
        Ensures-if P (leb o.quantity r) _ _
          (λ le.
            Ensures-bind P (Recorded t o o.quantity d) _ _ (record_trade-Recorded t o o.quantity d)
              λ e (x, tr, lg, same).
                let e' = record e { order_id_map = erase o.order_id e.order_id_map } in
                Ensures-mono P (LevelFilled t os (r - o.quantity) e') _
                  (match_level-Fills t os (r - o.quantity) e')
                  λ _ (xs, fl, lg'). (
                    x ∷ xs,
                    whole (ground arith) (ground arith) tr fl,
                    Logged-append {e = e'} (x ∷ []) xs
                        (record { queued = lg.queued; published = lg.published }) lg',
                  ))
          λ gt. Ensures-bind P (Filled o r) _ _ (fill-Filled o r) λ o' filled.
            Ensures-bind P (Recorded t o r d) _ (λ e. ok (o' ∷ os, 0, e))
              (record_trade-Recorded t o r d)
              λ e (x, tr, lg, same). (x ∷ [], part (ground arith) (ground arith) tr filled refl, lg)
  where
    P : List Order × ℕ × Desk → Type 0
    P = LevelFilled t (o ∷ os) r d

abbrev pub LevelsSwept : Taker → SideContainer → ℕ → Desk → SideContainer × ℕ × Desk → Type 0
LevelsSwept t ls r d (ls', r', d') = (xs : List Trade) × Sweeps t ls r ls' r' xs × Logged d xs d'

-- What `match_levels` does once the best level has been matched.
module _ (t : Taker) (p : ℕ) (os : List Order) (ls : SideContainer) (r : ℕ) (d : Desk) where
  after_level :
      (open_level : (0 < r) × (stops t p ≡ false)) (os' : List Order) (r' : ℕ) (e : Desk)
      → LevelFilled t os r d (os', r', e)
      → Ensures (LevelsSwept t ls r' e) (match_levels t ls r' e)
      → Ensures
          (LevelsSwept t ((p, os) ∷ ls) r d)
          (elim os' [ [] ↦ match_levels t ls r' e | o ∷ rest ↦ ok ((p, o ∷ rest) ∷ ls, r', e) ])
  after_level (some_left, admits) [] r' e (xs, fl, lg) ih =
      Ensures-mono (LevelsSwept t ((p, os) ∷ ls) r d) (LevelsSwept t ls r' e) _ ih
        λ _ (ys, sw, lg'). (xs ++ ys, through some_left admits fl sw, Logged-append xs ys lg lg')
  after_level (some_left, admits) (o ∷ rest) r' e (xs, fl, lg) ih =
      (xs, within some_left admits fl, lg)

pub match_levels-Sweeps :
    (t : Taker) (ls : SideContainer) (r : ℕ) (d : Desk)
    → Ensures (LevelsSwept t ls r d) (match_levels t ls r d)
unfolding match_levels
match_levels-Sweeps t [] r d = ([], emptied, Logged-none d)
match_levels-Sweeps t ((p, os) ∷ ls) r d =
    Ensures-if P (r == 0 || stops t p) _ _ (λ h. ([], stopped (ground arith), Logged-none d))
      λ h.
        Ensures-bind P (LevelFilled t os r d) _ _ (match_level-Fills t os r d)
          λ (os', r', e) filled.
            unfold match_levels in
            after_level t p os ls r d (ground arith, ground arith) os' r' e filled
              (match_levels-Sweeps t ls r' e)
  where
    P : SideContainer × ℕ × Desk → Type 0
    P = LevelsSwept t ((p, os) ∷ ls) r d
