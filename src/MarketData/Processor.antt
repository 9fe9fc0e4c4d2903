-- ===== src/MarketData/Processor.antt =====
-- market_data_processor.cpp: the rounds of its loop. A buffer is the list of its values, the oldest
-- first, as its single consumer sees it while nothing is pushed. What is logged is left out, and a
-- failure to send to some of the clients, which is only logged.
use elsa_fyp.Prelude.{
  ℕ, zero, suc, ◌+◌, ◌≤◌, ◌≡◌, refl, ap, List, [], ◌∷◌, ◌++◌, map, Option, none, some, length, All,
  arith,
}
use elsa_fyp.Core.ThreadSafeQueue.{pop_front}

pub record MarketDataProcessor (S T : Type 0) : Type 0 where
  pub orderbook_snapshot_ring_buffers : List (List S)
  pub trade_ring_buffers : List (List T)

-- What is sent to all clients, as text.
pub data Publication (S T : Type 0) : Type 0 where
  orderbook_snapshot : S → Publication S T
  public_trade : T → Publication S T

-- One of the two inner loops: a value of each buffer that has one, and what is left.
abbrev pub publish_one :
    {A : Type 0} → Option (A × List A) → List A × List (List A) → List A × List (List A)
publish_one none (sent, rest) = (sent, [] ∷ rest)
publish_one (some (value, left)) (sent, rest) = (value ∷ sent, left ∷ rest)

unfoldable pub publish : {A : Type 0} → List (List A) → List A × List (List A)
publish [] = ([], [])
publish (buffer ∷ buffers) = publish_one (pop_front buffer) (publish buffers)

module _ {S T : Type 0} where
  -- The body of `while (true)`
  unfoldable pub round : MarketDataProcessor S T → List (Publication S T) × MarketDataProcessor S T
  unfolding publish
  round p =
      let (snapshots, snapshot_buffers) = publish p.orderbook_snapshot_ring_buffers in
      let (trades, trade_buffers) = publish p.trade_ring_buffers in
      (
        map orderbook_snapshot snapshots ++ map public_trade trades,
        record {
          orderbook_snapshot_ring_buffers = snapshot_buffers;
          trade_ring_buffers = trade_buffers;
        },
      )

  unfoldable pub rounds :
      ℕ → MarketDataProcessor S T → List (Publication S T) × MarketDataProcessor S T
  unfolding round
  rounds zero p = ([], p)
  rounds (suc k) p =
      let (first, p1) = round p in let (rest, p2) = rounds k p1 in (first ++ rest, p2)

-- The weight of a list, for any weights of its values: with weight 1 for one value and 0 for the
-- others, how often the value occurs.
abbrev pub total : {A : Type 0} → (A → ℕ) → List A → ℕ
total f [] = 0
total f (a ∷ l) = f a + total f l

abbrev pub total_all : {A : Type 0} → (A → ℕ) → List (List A) → ℕ
total_all f = total (total f)

total-append : {A : Type 0} (f : A → ℕ) (l m : List A) → total f (l ++ m) ≡ total f l + total f m
total-append f [] m = omega arith
total-append f (a ∷ l) m = omega (arith, total-append f l m)

total-map :
    {A B : Type 0} (f : B → ℕ) (g : A → B) (l : List A) → total f (map g l) ≡ total (λ a. f (g a)) l
total-map f g [] = refl
total-map f g (a ∷ l) = ap (λ n. f (g a) + n) (total-map f g l)

publish-total :
    {A : Type 0} (f : A → ℕ) (buffers : List (List A))
    → total f (publish buffers).0 + total_all f (publish buffers).1 ≡ total_all f buffers
unfolding publish
publish-total f [] = refl
publish-total f ([] ∷ buffers) = omega (arith, publish-total f buffers)
publish-total f ((value ∷ left) ∷ buffers) = omega (arith, publish-total f buffers)

-- A round takes a value of every buffer that has one.
publish-length_le :
    {A : Type 0} (k : ℕ) (buffers : List (List A))
    → All (λ b. length b ≤ suc k) buffers
    → All (λ b. length b ≤ k) (publish buffers).1
unfolding publish
publish-length_le k [] h = tt
publish-length_le k ([] ∷ buffers) h = (omega arith, publish-length_le k buffers h.1)
publish-length_le k ((value ∷ left) ∷ buffers) h =
    (omega (arith, h.0), publish-length_le k buffers h.1)

total_all-empty :
    {A : Type 0} (f : A → ℕ) (buffers : List (List A))
    → All (λ b. length b ≤ 0) buffers
    → total_all f buffers ≡ 0
total_all-empty f [] h = refl
total_all-empty f ([] ∷ buffers) h = omega (arith, total_all-empty f buffers h.1)
total_all-empty f ((a ∷ l) ∷ buffers) h = absurd (omega (arith, h.0))

module _ {S T : Type 0} (f : Publication S T → ℕ) where
  -- All that is in the buffers.
  abbrev pub waiting : MarketDataProcessor S T → ℕ
  waiting p =
      total_all (λ s. f (orderbook_snapshot s)) p.orderbook_snapshot_ring_buffers
      + total_all (λ t. f (public_trade t)) p.trade_ring_buffers

  round-total :
      (p : MarketDataProcessor S T) → total f (round p).0 + waiting (round p).1 ≡ waiting p
  unfolding round
  round-total p = omega (
    arith,
    total-append f (map orderbook_snapshot (publish p.orderbook_snapshot_ring_buffers).0)
        (map public_trade (publish p.trade_ring_buffers).0),
    total-map f orderbook_snapshot (publish p.orderbook_snapshot_ring_buffers).0,
    total-map f public_trade (publish p.trade_ring_buffers).0,
    publish-total (λ s. f (orderbook_snapshot s)) p.orderbook_snapshot_ring_buffers,
    publish-total (λ t. f (public_trade t)) p.trade_ring_buffers,
  )

  rounds-total :
      (k : ℕ) (p : MarketDataProcessor S T)
      → total f (rounds k p).0 + waiting (rounds k p).1 ≡ waiting p
  unfolding rounds
  rounds-total zero p = omega arith
  rounds-total (suc k) p = omega (
    arith,
    total-append f (round p).0 (rounds k (round p).1).0,
    round-total p,
    rounds-total k (round p).1,
  )

-- The buffers have at most `k` values each.
pub record Within {S T : Type 0} (k : ℕ) (p : MarketDataProcessor S T) : Type 0 where
  pub snapshots : All (λ b. length b ≤ k) p.orderbook_snapshot_ring_buffers
  pub trades : All (λ b. length b ≤ k) p.trade_ring_buffers

rounds-Within :
    {S T : Type 0} (k : ℕ) (p : MarketDataProcessor S T) → Within k p → Within 0 (rounds k p).1
unfolding rounds round
rounds-Within zero p h = h
rounds-Within (suc k) p h = rounds-Within k (round p).1 (record {
  snapshots = publish-length_le k p.orderbook_snapshot_ring_buffers h.snapshots;
  trades = publish-length_le k p.trade_ring_buffers h.trades;
})

-- After as many rounds as any buffer has values, every value of every buffer was published as often
-- as it stood there: for any weights of publications, their total is that of the buffers. Nothing is
-- pushed meanwhile.
pub rounds_complete :
    {S T : Type 0} (k : ℕ) (p : MarketDataProcessor S T)
    → Within k p
    → (f : Publication S T → ℕ) → total f (rounds k p).0 ≡ waiting f p
rounds_complete k p h f =
    let empty = rounds-Within k p h in
    omega (
      arith,
      rounds-total f k p,
      total_all-empty (λ s. f (orderbook_snapshot s)) (rounds k p).1.orderbook_snapshot_ring_buffers
          empty.snapshots,
      total_all-empty (λ t. f (public_trade t)) (rounds k p).1.trade_ring_buffers empty.trades,
    )
