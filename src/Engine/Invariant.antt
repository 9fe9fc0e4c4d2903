-- ===== src/Engine/Invariant.antt =====
-- The invariant of a limit order book: each side in order of price with no empty level, orders
-- that belong where they rest, and no bid as high as an ask.
pub mod Far
pub mod Near
pub mod Add
pub mod Levels
pub mod Cancel
use elsa_fyp.Prelude.{ℕ, ◌≤◌, ◌<◌, ◌≡◌, ◌≢◌, Bool, true, false, List, [], ◌∷◌, All}
use elsa_fyp.Core.Orders.{Side}
use elsa_fyp.Engine.Order.{Order}
use elsa_fyp.Engine.Book.{Level, SideContainer, LimitOrderBook, better}

-- Every price of the best level comes after `p`.
abbrev pub Behind : Side → ℕ → SideContainer → Type 0
Behind s p [] = Unit {0}
Behind s p ((q, os) ∷ ls) = better s p q ≡ true

abbrev pub Ordered : Side → SideContainer → Type 0
Ordered s [] = Unit {0}
Ordered s ((p, os) ∷ ls) = Behind s p ls × Ordered s ls

pub record RestsAt (s : Side) (p : ℕ) (o : Order) : Type 0 where
  pub price : o.price ≡ p
  pub side : o.side ≡ s
  pub quantity : 0 < o.quantity

abbrev pub IsNonempty : List Order → Type 0
IsNonempty [] = ⊥
IsNonempty (o ∷ os) = Unit {0}

pub record IsLevel (s : Side) (l : Level) : Type 0 where
  pub nonempty : IsNonempty l.1
  pub price : 0 < l.0
  pub orders : All (RestsAt s l.0) l.1

pub record IsSide (s : Side) (ls : SideContainer) : Type 0 where
  pub ordered : Ordered s ls
  pub levels : All (IsLevel s) ls

abbrev pub Uncrossed : SideContainer → SideContainer → Type 0
Uncrossed [] asks = Unit {0}
Uncrossed (b ∷ bids) [] = Unit {0}
Uncrossed ((p, os) ∷ bids) ((q, xs) ∷ asks) = p < q

pub record IsValid (b : LimitOrderBook) : Type 0 where
  pub bids : IsSide Side.bid b.bids
  pub asks : IsSide Side.ask b.asks
  pub uncrossed : Uncrossed b.bids b.asks
