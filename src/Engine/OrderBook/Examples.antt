-- ===== src/Engine/OrderBook/Examples.antt =====
-- A book with three asks and a bid, the properties at it, and runs of the matching algorithms.
use titan_x.Prelude.{
  ◌+◌, ◌*◌, ◌≡◌, ◌<◌, ◌≤◌, ◌⊎◌, refl, true, false, [], ◌∷◌, some, none, map, ◌++◌, arith,
}
use titan_x.Prelude.Int.{ℤ, pos, min_ℤ, ◌-ℤ◌}
use titan_x.Prelude.Text.{Text, codes, text_eq}
use titan_x.Prelude.Map.{lookup, insert, erase}
use titan_x.Model.World.{World}
use titan_x.Model.OrderSide.{OrderSide, buy, sell}
use titan_x.Model.OrderType.{OrderType, market, limit, ioc, fok}
use titan_x.Model.OrderStatus.{pending}
use titan_x.Model.Order.{Order}
use titan_x.Engine.Levels.{flat, put_back, push_back}
use titan_x.Engine.Sweep.Index.{find}
use titan_x.Model.Order
use titan_x.Model.Trade
use titan_x.Engine.Sweep.Execution.{filled, entries, execute, remainder, volume}
use titan_x.Engine.Sweep.{match_levels, match_level, fill}
use titan_x.Engine.OrderBook.{
  OrderBook, init, match, match_limit, sweep, insert_into_book, match_market, match_fok, match_ioc,
  crosses, remove_from_book,
}
use titan_x.Engine.OrderBook.Priority.{accepts_at, match_limit-refines, match_market-refines}
use titan_x.Engine.OrderBook.{snapshot}
use titan_x.Engine.OrderBook.Snapshot.{shown, snapshot-shown}
use titan_x.Prelude.{take}
use titan_x.Engine.OrderBook.Fok.{reach, accepts, match_fok_lem}
use titan_x.Engine.OrderBook.Ioc.{match_ioc_lem}
use titan_x.Engine.OrderBook.Cancel.{remove_from_book_at_zero}
use titan_x.Engine.OrderBook.Validity.{IsValid, orders, init-IsValid, insert_into_book-IsValid}
use titan_x.Engine.OrderBook.Match.{match-IsValid}

abbrev world : World
world = record { random = λ n. 7 * n; clock = λ n. 1000 + n; drawn = 0; ticks = 0 }

abbrev order : Text → OrderSide → OrderType → ℤ → ℤ → Order
order id side type price quantity = record {
  order_id = id;
  account_id = codes "acc";
  symbol = codes "AAPL";
  side = side;
  type = type;
  price = price;
  stop_price = pos 0;
  quantity = quantity;
  remaining_quantity = quantity;
  status = pending;
  created_at = 0;
  updated_at = 0;
}

abbrev ask1 : Order
ask1 = order (codes "1") sell limit (pos 100) (pos 5)

abbrev ask2 : Order
ask2 = order (codes "2") sell limit (pos 100) (pos 3)

abbrev ask3 : Order
ask3 = order (codes "3") sell limit (pos 101) (pos 10)

abbrev bid4 : Order
bid4 = order (codes "4") buy limit (pos 99) (pos 4)

abbrev book : OrderBook
book = record {
  symbol = codes "AAPL";
  bids = record { price = pos 99; queue = bid4 ∷ [] } ∷ [];
  asks =
      record { price = pos 100; queue = ask1 ∷ ask2 ∷ [] }
      ∷ record { price = pos 101; queue = ask3 ∷ [] }
      ∷ [];
  order_index = (codes "4", bid4) ∷ (codes "1", ask1) ∷ (codes "2", ask2) ∷ (codes "3", ask3) ∷ [];
  last_trade_price = none;
}

book-IsValid : IsValid book
unfolding lookup find flat text_eq
book-IsValid = record {
  bids = ground arith;
  asks = ground arith;
  full_bids = (λ e. cc, tt);
  full_asks = (λ e. cc, (λ e. cc, tt));
  uncrossed = ground arith;
  agrees = record { finds = λ id. refl; distinct = (refl, (refl, (refl, (refl, tt)))) };
}

-- Buys 10 up to 100: both asks at 100, and 2 come to rest.
abbrev lifting : Order
lifting = order (codes "5") buy limit (pos 100) (pos 10)

lifts :
    let (trades, b, _) = match lifting book world in
    (map filled trades
      ≡ record { price = pos 100; order_id = codes "1"; account_id = codes "acc"; amount = 5 }
        ∷ record { price = pos 100; order_id = codes "2"; account_id = codes "acc"; amount = 3 }
        ∷ [])
    × (map {B = Text × ℤ}
          (λ (o : Order). (o.order_id, o.remaining_quantity))
          (flat b.bids ++ flat b.asks)
        ≡ (codes "5", pos 2) ∷ (codes "4", pos 4) ∷ (codes "3", pos 10) ∷ [])
    × (b.last_trade_price ≡ some (pos 100))
unfolding match match_limit sweep match_levels match_level fill Trade.create
    Order.with_remaining_quantity put_back erase insert text_eq min_ℤ ◌-ℤ◌ insert_into_book
    push_back flat
lifts = (refl, refl, refl)

match-IsValid_example : IsValid (match lifting book world).1
match-IsValid_example =
    match-IsValid lifting book world book-IsValid (omega arith) (unfold lookup text_eq in refl)
      (λ e. cc)

abbrev fok_order : Order
fok_order = order (codes "6") buy fok (pos 100) (pos 8)

abbrev market_order : Order
market_order = order (codes "7") sell market (pos 0) (pos 9)

abbrev ioc_order : Order
ioc_order = order (codes "8") buy ioc (pos 100) (pos 20)

fresh_ioc : lookup ioc_order.order_id book.order_index ≡ none
unfolding lookup text_eq
fresh_ioc = refl

fresh_lifting : lookup lifting.order_id book.order_index ≡ none
unfolding lookup text_eq
fresh_lifting = refl

match_limit-refines_example :
    map filled (match_limit lifting book world).0
    ≡ execute (accepts_at buy (pos 100)) 10 (entries book.asks)
match_limit-refines_example =
    (match_limit-refines lifting book world book-IsValid (omega arith) fresh_lifting).0

match_market-refines_example :
    map filled (match_market market_order book world).0 ≡ execute (λ _. true) 9 (entries book.bids)
match_market-refines_example =
    (match_market-refines market_order book world book-IsValid (omega arith)).0

match_fok_example :
    let es = entries book.asks in
    let (trades, b', _) = match_fok fok_order book world in
    ((8 ≤ reach (accepts fok_order) es)
      × (map filled trades ≡ execute (accepts fok_order) 8 es)
      × (volume (map filled trades) ≡ 8)
      × (entries b'.asks ≡ remainder (accepts fok_order) 8 es))
    ⊎ ((reach (accepts fok_order) es < 8) × (match_fok fok_order book world ≡ ([], book, world)))
match_fok_example =
    match_fok_lem fok_order book world book-IsValid (omega arith) refl
      (unfold volume in omega arith)

match_ioc_example :
    let (trades, b', _) = match_ioc ioc_order book world in
    (trades ≡ (match_limit ioc_order book world).0)
    × IsValid b'
    × (orders b' ≡ orders (sweep (crosses ioc_order) ioc_order book world).1)
    × (lookup ioc_order.order_id b'.order_index ≡ none)
match_ioc_example = match_ioc_lem ioc_order book world book-IsValid (omega arith) fresh_ioc refl

-- A bid at price 0, as the gateway makes of a LIMIT order without a price.
abbrev zero_bid : Order
zero_bid = order (codes "9") buy limit (pos 0) (pos 5)

abbrev empty_book : OrderBook
empty_book = init (codes "AAPL")

zero_book-IsValid : IsValid (insert_into_book zero_bid empty_book)
unfolding init find flat
zero_book-IsValid =
    insert_into_book-IsValid zero_bid empty_book (init-IsValid (codes "AAPL")) (omega arith) refl tt

remove_from_book_at_zero_example :
    let b = insert_into_book zero_bid empty_book in
    let (b', removed) = remove_from_book (codes "9") b in
    (removed ≡ false)
    × (lookup (codes "9") b'.order_index ≡ none)
    × (orders b' ≡ orders b)
    × (find (codes "9") (orders b') ≡ some zero_bid)
    × (¬ IsValid b')
remove_from_book_at_zero_example =
    remove_from_book_at_zero (codes "9") zero_bid (insert_into_book zero_bid empty_book)
      zero_book-IsValid (unfold init insert_into_book lookup insert text_eq in refl) refl

snapshot-shown_example : snapshot book (pos 5) ≡ record {
  symbol = book.symbol;
  bids = map shown (take 5 book.bids);
  asks = map shown (take 5 book.asks);
  last_trade_price = book.last_trade_price;
}
snapshot-shown_example =
    snapshot-shown book 5 book-IsValid (unfold volume in omega arith) (unfold volume in omega arith)
