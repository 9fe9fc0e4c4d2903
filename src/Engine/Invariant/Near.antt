-- ===== src/Engine/Invariant/Near.antt =====
-- A new resting order keeps the near side in shape, and both sides apart.
use elsa_fyp.Prelude.{
  ℕ, ◌<◌, ◌≡◌, inl, inr, ◌==◌, true, false, List, [], ◌∷◌, arith, All, Bool-cases, ◌≢◌,
}
use elsa_fyp.Core.Orders.{Side, opposite}
use elsa_fyp.Engine.Order.{Order}
use elsa_fyp.Engine.Book.{
  SideContainer, LimitOrderBook, get_side, better, emplace_order, append_order,
}
use elsa_fyp.Engine.Invariant.{
  Behind, Ordered, RestsAt, IsLevel, IsSide, IsNonempty, Uncrossed, IsValid,
}

append-RestsAt :
    (s : Side) (p : ℕ) (os : List Order) (o : Order)
    → All (RestsAt s p) os
    → RestsAt s p o
    → All (RestsAt s p) (append_order os o)
unfolding append_order
append-RestsAt s p [] o h k = (k, tt)
append-RestsAt s p (x ∷ xs) o h k = (h.0, append-RestsAt s p xs o h.1 k)

append-IsNonempty : (os : List Order) (o : Order) → IsNonempty (append_order os o)
unfolding append_order
append-IsNonempty [] o = tt
append-IsNonempty (x ∷ xs) o = tt

-- Trichotomy of prices, as the tests see it.
better_of_not : (s : Side) (p q : ℕ) → p ≢ q → better s q p ≡ false → better s p q ≡ true
better_of_not Side.bid p q h k = ground arith
better_of_not Side.ask p q h k = ground arith

emplace-levels :
    (s : Side) (o : Order) (ls : SideContainer)
    → 0 < o.price
    → RestsAt s o.price o
    → All (IsLevel s) ls
    → All (IsLevel s) (emplace_order s o ls)
unfolding emplace_order
emplace-levels s o [] pp r h = (record { nonempty = tt; price = pp; orders = (r, tt) }, tt)
emplace-levels s o ((q, os) ∷ ls) pp r h = elim (Bool-cases (q == o.price)) [
  | inl e ↦
      unfold emplace_order in
      rw e (
        record {
          nonempty = append-IsNonempty os o;
          price = h.0.price;
          orders =
              append-RestsAt s q os o h.0.orders
                (record { price = ground arith; side = r.side; quantity = r.quantity });
        },
        h.1,
      )
  | inr ne ↦
      unfold emplace_order in
      rw ne (elim (Bool-cases (better s o.price q)) [
        | inl e ↦ rw e (record { nonempty = tt; price = pp; orders = (r, tt) }, h)
        | inr w ↦ rw w (h.0, emplace-levels s o ls pp r h.1)
      ])
]

emplace-Behind :
    (s : Side) (p : ℕ) (o : Order) (ls : SideContainer)
    → better s p o.price ≡ true
    → Behind s p ls
    → Behind s p (emplace_order s o ls)
unfolding emplace_order
emplace-Behind s p o [] h k = h
emplace-Behind s p o ((q, os) ∷ ls) h k = elim (Bool-cases (q == o.price)) [
  | inl e ↦ rw e k
  | inr ne ↦ rw ne (elim (Bool-cases (better s o.price q)) [ inl e ↦ rw e h | inr w ↦ rw w k ])
]

emplace-Ordered :
    (s : Side) (o : Order) (ls : SideContainer) → Ordered s ls → Ordered s (emplace_order s o ls)
unfolding emplace_order
emplace-Ordered s o [] h = (tt, tt)
emplace-Ordered s o ((q, os) ∷ ls) h = elim (Bool-cases (q == o.price)) [
  | inl e ↦ rw e h
  | inr ne ↦ rw ne (elim (Bool-cases (better s o.price q)) [
    | inl e ↦ rw e (e, h)
    | inr w ↦ rw w (
      emplace-Behind s q o ls (better_of_not s q o.price (ground arith) w) h.0,
      emplace-Ordered s o ls h.1,
    )
  ])
]

pub emplace-IsSide :
    (s : Side) (o : Order) (ls : SideContainer)
    → 0 < o.price
    → RestsAt s o.price o
    → IsSide s ls
    → IsSide s (emplace_order s o ls)
emplace-IsSide s o ls pp r h = record {
  ordered = emplace-Ordered s o ls h.ordered;
  levels = emplace-levels s o ls pp r h.levels;
}

-- `Uncrossed`, seen from the side `s`.
abbrev pub Apart : Side → SideContainer → SideContainer → Type 0
Apart Side.bid near far = Uncrossed near far
Apart Side.ask near far = Uncrossed far near

pub Apart-of-Behind :
    (s : Side) (p : ℕ) (os : List Order) (near far : SideContainer)
    → Behind (opposite s) p far
    → Apart s ((p, os) ∷ near) far
Apart-of-Behind Side.bid p os near [] h = tt
Apart-of-Behind Side.bid p os near ((q, xs) ∷ far) h = ground arith
Apart-of-Behind Side.ask p os near [] h = tt
Apart-of-Behind Side.ask p os near ((q, xs) ∷ far) h = ground arith

pub Behind-of-Apart :
    (s : Side) (p : ℕ) (os : List Order) (near far : SideContainer)
    → Apart s ((p, os) ∷ near) far
    → Behind (opposite s) p far
Behind-of-Apart Side.bid p os near [] h = tt
Behind-of-Apart Side.bid p os near ((q, xs) ∷ far) h = ground arith
Behind-of-Apart Side.ask p os near [] h = tt
Behind-of-Apart Side.ask p os near ((q, xs) ∷ far) h = ground arith

pub Apart-none : (s : Side) (far : SideContainer) → Apart s [] far
Apart-none Side.bid far = tt
Apart-none Side.ask [] = tt
Apart-none Side.ask (l ∷ far) = tt

pub emplace-Apart :
    (s : Side) (o : Order) (near far : SideContainer)
    → Behind (opposite s) o.price far
    → Apart s near far
    → Apart s (emplace_order s o near) far
unfolding emplace_order
emplace-Apart s o [] far h k = Apart-of-Behind s o.price _ _ far h
emplace-Apart s o ((q, os) ∷ ls) far h k =
    let kept = Behind-of-Apart s q os ls far k in
    elim (Bool-cases (q == o.price)) [
      | inl e ↦ rw e (Apart-of-Behind s q _ ls far kept)
      | inr ne ↦ rw ne (elim (Bool-cases (better s o.price q)) [
        | inl e ↦ rw e (Apart-of-Behind s o.price _ _ far h)
        | inr w ↦ rw w (Apart-of-Behind s q os _ far kept)
      ])
    ]

pub IsValid-of-sides :
    (s : Side) (b : LimitOrderBook)
    → IsSide s (get_side b s)
    → IsSide (opposite s) (get_side b (opposite s))
    → Apart s (get_side b s) (get_side b (opposite s))
    → IsValid b
IsValid-of-sides Side.bid b n f a = record { bids = n; asks = f; uncrossed = a }
IsValid-of-sides Side.ask b n f a = record { bids = f; asks = n; uncrossed = a }

pub near-IsSide : (s : Side) {b : LimitOrderBook} → IsValid b → IsSide s (get_side b s)
near-IsSide Side.bid v = v.bids
near-IsSide Side.ask v = v.asks

pub sides-Apart :
    (s : Side) {b : LimitOrderBook} → IsValid b → Apart s (get_side b s) (get_side b (opposite s))
sides-Apart Side.bid v = v.uncrossed
sides-Apart Side.ask v = v.uncrossed

pub far-IsSide :
    (s : Side) {b : LimitOrderBook} → IsValid b → IsSide (opposite s) (get_side b (opposite s))
far-IsSide Side.bid v = v.asks
far-IsSide Side.ask v = v.bids
