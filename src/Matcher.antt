-- ===== src/Matcher.antt =====
-- services/virtualMatching/CfdVirtualMatcher.ts and types.ts: the in-memory engine that matches the
-- virtual orders of all CFD instances. The two maps are dictionaries in insertion order, `unsubs` is
-- the list of its keys (the functions that it holds only detach the market stream), and the events
-- that `emit` hands to the listeners are appended to `events`; listeners that call back into the
-- engine while it emits are not modelled, nor is the event's `filledAt`.
pub mod Effects
pub mod Progress
pub mod Lifecycle
pub mod Stored
pub mod Fills
pub mod Ticks
pub mod Reduce
pub mod Tests
use velotradex.Base.{
  String, Bool, true, false, ◌&&◌, ◌||◌, not, Option, none, some, List, [], ◌∷◌, ◌++◌, foldl, keep,
  if◌then◌else◌, is_some, str_eq, Outcome, ok, throws,
}
use velotradex.Dict.{Dict, get, put, values}
use velotradex.Number.{Number, int, le, not_positive, of_optional, min_number}
use velotradex.Text.{normalize_symbol_case}

pub data Side : Type 0 where
  buy sell : Side

pub data OrderType : Type 0 where
  market limit : OrderType

pub data OrderRole : Type 0 where
  entry close sl tp : OrderRole

-- `opened` is the status 'open', a reserved word here.
pub data OrderStatus : Type 0 where
  opened filled cancelled : OrderStatus

-- `CfdVirtualOrder`; `createdAt` is not read by the engine
pub record VirtualOrder : Type 0 where
  pub id : String
  pub symbol : String
  pub side : Side
  pub type : OrderType
  pub role : OrderRole
  pub price : Option String
  pub amount : String
  pub parent_id : Option String
  pub status : OrderStatus

-- `CfdPositionState`
pub record PositionState (N : Type 0) : Type 0 where
  pub size : N
  pub entry_price : N

-- `CfdFillEvent`
pub record FillEvent (N : Type 0) : Type 0 where
  pub order_id : String
  pub parent_id : Option String
  pub symbol : String
  pub side : Side
  pub role : OrderRole
  pub fill_price : String
  pub last_price : String
  pub amount : String
  pub realized_pnl : N
  pub position_size : String

pub record Matcher (N : Type 0) : Type 0 where
  pub orders : Dict VirtualOrder
  pub positions : Dict (PositionState N)
  pub unsubs : List String
  pub started : Bool
  pub events : List (FillEvent N)
  pub multiplier : String → N

abbrev pub is_open : OrderStatus → Bool
is_open opened = true
is_open filled = false
is_open cancelled = false

abbrev pub is_buy : Side → Bool
is_buy buy = true
is_buy sell = false

abbrev pub opposite : Side → Side
opposite buy = sell
opposite sell = buy

abbrev pub is_limit : OrderType → Bool
is_limit market = false
is_limit limit = true

abbrev pub is_entry : OrderRole → Bool
is_entry entry = true
is_entry _ = false

abbrev pub is_protection : OrderRole → Bool
is_protection sl = true
is_protection tp = true
is_protection _ = false

unfoldable pub contains : List String → String → Bool
contains [] a = false
contains (x ∷ xs) a = str_eq x a || contains xs a

-- the side of the entry that an order protects; without it, the side opposite to the order's own
abbrev side_or : Side → Option VirtualOrder → Side
side_or side none = side
side_or side (some parent) = parent.side

abbrev parent_of : Option String → Dict VirtualOrder → Option VirtualOrder
parent_of none orders = none
parent_of (some p) orders = if str_eq p "" then none else get p orders

abbrev pub parent_side : VirtualOrder → Dict VirtualOrder → Side
parent_side order orders = side_or (opposite order.side) (parent_of order.parent_id orders)

abbrev pub open_for : String → VirtualOrder → Bool
open_for symbol o = str_eq o.symbol symbol && is_open o.status

abbrev pub normalized : VirtualOrder → VirtualOrder
normalized order = record order { symbol = normalize_symbol_case order.symbol; status = opened }

-- an empty symbol, or one of blanks, lists the orders of all symbols
abbrev listed : Option String → VirtualOrder → Bool
listed none o = is_open o.status
listed (some symbol) o =
    let wanted = normalize_symbol_case symbol in
    is_open o.status && (str_eq wanted "" || str_eq o.symbol wanted)

module _ {N : Type 0} ⦃num : Number N⦄ where
  open num use {lt, eq, sign, abs, neg, add, sub, mul, div, to_text, to_fixed, of_text, is_finite}

  abbrev pub set_status : VirtualOrder → OrderStatus → Matcher N → Matcher N
  set_status o s m = record m { orders = put o.id (record o { status = s }) m.orders }

  abbrev pub set_position : String → PositionState N → Matcher N → Matcher N
  set_position symbol p m = record m { positions = put symbol p m.positions }

  abbrev pub signed : Side → N → N
  signed side amount = if is_buy side then amount else neg amount

  abbrev pub same_sign : N → N → Bool
  same_sign a b = eq (sign a) (sign b)

  -- `fmt`
  abbrev pub fmt : N → String
  fmt value = to_text (of_text (to_fixed value (int 12)))

  abbrev pub flat : PositionState N
  flat = record { size = int 0; entry_price = int 0 }

  abbrev pub or_flat : Option (PositionState N) → PositionState N
  or_flat none = flat
  or_flat (some p) = p

  abbrev pub get_position : String → Matcher N → PositionState N
  get_position symbol m = or_flat (get (normalize_symbol_case symbol) m.positions)

  unfoldable pub calc_pnl : PositionState N → N → N → N → N
  calc_pnl position price closing multiplier =
      if lt (int 0) position.size
      then mul (mul (sub price position.entry_price) closing) multiplier
      else if lt position.size (int 0)
      then mul (mul (sub position.entry_price price) closing) multiplier
      else int 0

  unfoldable pub should_fill_limit : VirtualOrder → N → Bool
  should_fill_limit order last_price =
      let price = of_optional order.price in
      if not_positive price
      then false
      else if is_buy order.side
      then le last_price price
      else le price last_price

  abbrev protects : OrderRole → Side → N → N → Bool
  protects sl buy last trigger = le last trigger
  protects sl sell last trigger = le trigger last
  protects tp buy last trigger = le trigger last
  protects tp sell last trigger = le last trigger
  protects _ _ last trigger = false

  unfoldable pub should_trigger_protection : VirtualOrder → N → Dict VirtualOrder → Bool
  should_trigger_protection order last_price orders =
      let trigger = of_optional order.price in
      if not_positive trigger
      then false
      else protects order.role (parent_side order orders) last_price trigger

  -- the position after an entry order, and its profit
  unfoldable pub entry_fill : PositionState N → Side → N → N → N → PositionState N × N
  entry_fill position side amount price multiplier =
      let signed_amount = signed side amount in
      let next_size = add position.size signed_amount in
      if eq position.size (int 0) || same_sign position.size signed_amount
      then (let total_abs = add (abs position.size) amount in
          (
            record {
              size = next_size;
              entry_price =
                  if lt (int 0) total_abs
                  then div (add (mul (abs position.size) position.entry_price) (mul amount price))
                      total_abs
                  else int 0;
            },
            int 0,
          ))
      else (
        record {
          size = next_size;
          entry_price =
              if eq next_size (int 0)
              then int 0
              else if same_sign next_size position.size
              then position.entry_price
              else price;
        },
        calc_pnl position price (min_number (abs position.size) amount) multiplier,
      )

  -- the position after an order that closes `closing` of it
  unfoldable pub reduced : PositionState N → N → PositionState N
  reduced position closing =
      let next_size = mul (sign position.size) (sub (abs position.size) closing) in
      record {
        size = next_size;
        entry_price = if eq next_size (int 0) then int 0 else position.entry_price;
      }

  -- `events.emit('fill', …)`
  unfoldable pub emit_fill : VirtualOrder → N → String → N → N → Matcher N → Matcher N
  emit_fill order price last_price filled_amount pnl m = record m {
    events =
        m.events
        ++ (record {
          order_id = order.id;
          parent_id = order.parent_id;
          symbol = order.symbol;
          side = order.side;
          role = order.role;
          fill_price = fmt price;
          last_price = last_price;
          amount = fmt filled_amount;
          realized_pnl = of_text (to_fixed pnl (int 12));
          position_size = fmt (or_flat (get order.symbol m.positions)).size;
        }
            ∷ []);
  }

  unfoldable pub fill_entry : VirtualOrder → N → N → String → N → Matcher N → Matcher N
  fill_entry order amount price last_price multiplier m =
      let next = entry_fill (get_position order.symbol m) order.side amount price multiplier in
      emit_fill order price last_price amount next.1 (set_position order.symbol next.0 m)

  -- an order in the direction of the position, or with no position, is cancelled
  unfoldable pub fill_reduce : VirtualOrder → N → N → String → N → Matcher N → Matcher N
  fill_reduce order amount price last_price multiplier m =
      let position = get_position order.symbol m in
      let closing = min_number (abs position.size) amount in
      if eq position.size (int 0) || same_sign position.size (signed order.side amount)
      then set_status order cancelled m
      else emit_fill order price last_price closing (calc_pnl position price closing multiplier)
          (set_position order.symbol (reduced position closing) m)

  -- the part of `fillOrder` behind the assignment of the status
  unfoldable pub settle : VirtualOrder → N → String → Matcher N → Matcher N
  settle order price last_price m =
      let amount = of_text order.amount in
      let multiplier = m.multiplier order.symbol in
      if not_positive amount || not_positive multiplier
      then m
      else if is_entry order.role
      then fill_entry order amount price last_price multiplier m
      else fill_reduce order amount price last_price multiplier m

  -- `fillOrder` of a stored order
  unfoldable pub fill_found : N → String → Matcher N → Option VirtualOrder → Matcher N
  fill_found price last_price m none = m
  fill_found price last_price m (some o) =
      if is_open o.status
      then settle (record o { status = filled }) price last_price (set_status o filled m)
      else m

  -- The loop of `handleTick` holds references: the status is read when the call is made.
  unfoldable pub fill_order : String → N → String → Matcher N → Matcher N
  fill_order id price last_price m = fill_found price last_price m (get id m.orders)

  -- one round of the loop of `handleTick`
  unfoldable pub tick_order : N → String → Matcher N → VirtualOrder → Matcher N
  tick_order price last_price m o =
      if is_protection o.role
      then (if should_trigger_protection o price m.orders
          then fill_order o.id price last_price m
          else m)
      else if is_limit o.type && should_fill_limit o price
      then fill_order o.id price last_price m
      else m

  unfoldable pub handle_tick : String → String → Matcher N → Matcher N
  handle_tick symbol last_price m =
      let price = of_text last_price in
      if not m.started || not_positive price
      then m
      else foldl (tick_order price last_price) m (keep (open_for symbol) (values m.orders))

  -- `new CfdVirtualMatcher(stream, options)`
  unfoldable pub new : (String → N) → Matcher N
  new multiplier = record {
    orders = [];
    positions = [];
    unsubs = [];
    started = false;
    events = [];
    multiplier = multiplier;
  }

  unfoldable pub start : Matcher N → Matcher N
  start m = record m { started = true }

  unfoldable pub stop : Matcher N → Matcher N
  stop m = record m { orders = []; positions = []; unsubs = []; started = false }

  unfoldable pub ensure_subscribed : String → Matcher N → Matcher N
  ensure_subscribed symbol m =
      if contains m.unsubs symbol then m else record m { unsubs = m.unsubs ++ (symbol ∷ []) }

  -- a market entry is filled at once; `latest` is the last price of the stream's latest tick
  unfoldable pub fill_at_once : VirtualOrder → Option String → Matcher N → Matcher N
  fill_at_once o latest m =
      let price = of_optional latest in
      if (not (is_limit o.type) && is_entry o.role) && not (not_positive price)
      then fill_order o.id price (to_text price) m
      else m

  unfoldable pub enroll : VirtualOrder → Matcher N → Matcher N
  enroll o m = record (ensure_subscribed o.symbol (record m { orders = put o.id o m.orders })) {
    started = true;
  }

  -- `latest_tick` is the last price that the market stream holds for a symbol
  unfoldable pub register_order :
      (latest_tick : String → Option String) → VirtualOrder → Matcher N → Outcome (Matcher N)
  register_order latest_tick order m =
      if is_some (get order.id m.orders)
      then throws "duplicate order id"
      else (let o = normalized order in ok (fill_at_once o (latest_tick o.symbol) (enroll o m)))

  unfoldable pub cancel_found : Matcher N → Option VirtualOrder → Matcher N
  cancel_found m none = m
  cancel_found m (some o) = if is_open o.status then set_status o cancelled m else m

  unfoldable pub cancel_order : String → Matcher N → Matcher N
  cancel_order id m = cancel_found m (get id m.orders)

  unfoldable pub get_order : String → Matcher N → Option VirtualOrder
  get_order id m = get id m.orders

  unfoldable pub list_open_orders : Option String → Matcher N → List VirtualOrder
  list_open_orders symbol m = keep (listed symbol) (values m.orders)
