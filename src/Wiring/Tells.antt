-- ===== src/Wiring/Tells.antt =====
-- What the consumers of `main` are told between two states: the events that the event store gets,
-- and the moves and messages that the position cache gets.
use titan_x.Prelude.{
  ◌≡◌, refl, sym, ap, ◌∙◌, List, [], ◌∷◌, ◌++◌, map, map-append, append_assoc, append-nil, Option,
  none, some, if◌then◌else◌,
}
use titan_x.Prelude.Int.{ℤ, pos, ◌-ℤ◌}
use titan_x.Prelude.Text.{Text}
use titan_x.Model.World.{World}
use titan_x.Model.Order.{Order}
use titan_x.Model.Trade.{Trade}
use titan_x.Event.OrderEvent.{
  OrderEvent, EventType, Build, order_received, order_filled, order_resting, order_rejected,
}
use titan_x.Engine.MatchingEngine.{Exchange, emit, is_limit}
use titan_x.Wiring.{Calls, consumers, on_event, signed}

-- An event without what is drawn or read from a clock: its id, its time and the latency.
pub record Note : Type 0 where
  pub type : EventType
  pub order : Order
  pub trade : Option Trade
  pub reason : Text

abbrev pub note_of : OrderEvent → Note
note_of e = record {
  type = e.type;
  order = e.order_snapshot;
  trade = e.trade;
  reason = e.rejection_reason;
}

abbrev pub note : EventType → Order → Note
note type o = record { type = type; order = o; trade = none; reason = [] }

abbrev pub rejection : Order → Text → List Note
rejection o reason = record (note order_rejected o) { reason = reason } ∷ []

abbrev pub fill_note : Order → Trade → Note
fill_note o t = record (note order_filled o) { trade = some t }

-- An approved order is received; then each trade is a fill; and a LIMIT order without a trade
-- rests.
abbrev pub confirmation : Order → List Trade → List Note
confirmation o [] = if is_limit o.type then note order_resting o ∷ [] else []
confirmation o (t ∷ ts) = []

abbrev pub story : Order → List Trade → List Note
story o ts = note order_received o ∷ (map (fill_note o) ts ++ confirmation o ts)

-- The two moves of each trade.
unfoldable pub moves : List Trade → List (Text × Text × ℤ)
moves [] = []
moves (t ∷ ts) =
    let delta = signed t.aggressor_side t.quantity in
    (t.aggressor_account_id, t.symbol, delta)
    ∷ (t.passive_account_id, t.symbol, pos 0 -ℤ delta)
    ∷ moves ts

-- What was told between two states of the consumers.
pub record Tells (s s' : Calls) (notes : List Note) (ts : List Trade) : Type 0 where
  pub events : map note_of s'.appended ≡ map note_of s.appended ++ notes
  pub updates : s'.position_updates ≡ s.position_updates ++ moves ts
  pub messages : s'.published ≡ s.published ++ map (λ t. (t.symbol, t)) ts

pub Tells-emit :
    (b : Build) (n : Note) (x : Exchange Calls)
    → ((w : World) → note_of (b w).0 ≡ n)
    → Tells x.outside (emit consumers b x).outside (n ∷ []) []
unfolding emit consumers on_event moves
Tells-emit b n x h = record {
  events = map-append _ _ _ ∙ ap (λ m. map note_of x.outside.appended ++ m ∷ []) (h x.world);
  updates = sym (append-nil _);
  messages = sym (append-nil _);
}

pub Tells-none : (s s' : Calls) → s' ≡ s → Tells s s' [] []
unfolding moves
Tells-none s s' e = rw e (record {
  events = sym (append-nil _);
  updates = sym (append-nil _);
  messages = sym (append-nil _);
})

moves-append : (ts us : List Trade) → moves (ts ++ us) ≡ moves ts ++ moves us
unfolding moves
moves-append [] us = refl
moves-append (t ∷ ts) us = rw (moves-append ts us) refl

pub Tells-trans :
    (s t u : Calls) (m n : List Note) (ts us : List Trade)
    → Tells s t m ts
    → Tells t u n us
    → Tells s u (m ++ n) (ts ++ us)
Tells-trans s t u m n ts us a b = record {
  events = b.events ∙ ap (λ l. l ++ n) a.events ∙ append_assoc _ m n;
  updates =
      b.updates
      ∙ ap (λ l. l ++ moves us) a.updates
      ∙ append_assoc _ (moves ts) (moves us)
      ∙ ap (λ l. s.position_updates ++ l) (sym (moves-append ts us));
  messages =
      b.messages
      ∙ ap (λ l. l ++ map (λ t. (t.symbol, t)) us) a.messages
      ∙ append_assoc _ (map (λ t. (t.symbol, t)) ts) (map (λ t. (t.symbol, t)) us)
      ∙ ap (λ l. s.published ++ l) (sym (map-append _ ts us));
}
