-- ===== src/TakeProfit.antt =====
-- services/TpSlCalculator.ts: the take-profit orders of a position, and how its amount is split among
-- them. Prices are sorted by a stable insertion; a price that is no number has no place in the order
-- that JavaScript's `sort` would promise.
pub mod Split
pub mod Tests
use velotradex.Base.{
  ℕ, zero, suc, String, Bool, true, false, not, ◌&&◌, ◌||◌, Option, none, some, is_some, List, [],
  ◌∷◌, ◌++◌, map, foldl, length, ltb, leb, if◌then◌else◌,
}
use velotradex.Number.{Number, int, le, min_number, max_number}

pub record TpSlInput (N : Type 0) : Type 0 where
  pub entry_price : N
  pub stop_loss : N
  pub is_long : Bool
  pub targets : List String
  pub tp_distribution : Option (List N)
  pub tp_padding_r : N
  pub fixed_risk_reward_close : Option N

pub record TpOrder : Type 0 where
  pub price : String
  pub amount : String

pub record TpSlResult (N : Type 0) : Type 0 where
  pub targets : List String
  pub distribution : List N
  pub allocated : List N
  pub tp_orders : List TpOrder

-- `slice(0, n)`
abbrev pub first {ℓ} : {A : Type ℓ} → ℕ → List A → List A
first zero xs = []
first (suc n) [] = []
first (suc n) (x ∷ xs) = x ∷ first n xs

abbrev smaller : ℕ → ℕ → ℕ
smaller a b = if leb a b then a else b

module _ {N : Type 0} ⦃num : Number N⦄ where
  open num use {
    lt, eq, add, sub, mul, div, abs, pow, round, neg, literal, parse_float, to_text, to_fixed,
  }

  -- A number that counts as true
  abbrev is_truthy : N → Bool
  is_truthy a = eq a a && not (eq a (int 0))

  abbrev ahead : Bool → N → N → N
  ahead true a d = add a d
  ahead false a d = sub a d

  abbrev behind : Bool → N → N → N
  behind true a d = sub a d
  behind false a d = add a d

  abbrev fixed_target : TpSlInput N → N → Option N → List String
  fixed_target input r none = []
  fixed_target input r (some ratio) =
      if is_truthy ratio && lt (int 0) r
      then to_text (ahead input.is_long input.entry_price (mul r ratio)) ∷ []
      else []

  abbrev or_one_to_one : TpSlInput N → N → List String → List String
  or_one_to_one input r [] = to_text (ahead input.is_long input.entry_price r) ∷ []
  or_one_to_one input r (t ∷ ts) = t ∷ ts

  abbrev comes_before : Bool → N → N → Bool
  comes_before true a b = lt a b
  comes_before false a b = lt b a

  unfoldable pub insert : Bool → N → List N → List N
  insert is_long a [] = a ∷ []
  insert is_long a (b ∷ bs) =
      let rest = insert is_long a bs in if comes_before is_long a b then a ∷ b ∷ bs else b ∷ rest

  unfoldable pub sort : Bool → List N → List N
  sort is_long xs = foldl (λ sorted a. insert is_long a sorted) [] xs

  unfoldable pub targets_of : TpSlInput N → N → List String
  targets_of input r = map to_text (
      sort input.is_long (
        map parse_float (
          or_one_to_one input r
            (input.targets ++ fixed_target input r input.fixed_risk_reward_close))))

  -- `Array(n).fill(share)`
  abbrev filled {ℓ} : {A : Type ℓ} → List A → N → List N
  filled [] share = []
  filled (x ∷ xs) share = share ∷ filled xs share

  abbrev natural : List String → N
  natural ts = int (length ts)

  abbrev own_distribution : List String → Bool → Option (List N) → List N
  own_distribution targets true d = filled targets (div (int 1) (natural targets))
  own_distribution targets false none = filled targets (div (int 1) (natural targets))
  own_distribution targets false (some []) = filled targets (div (int 1) (natural targets))
  own_distribution targets false (some (x ∷ xs)) = x ∷ xs

  abbrev normalized : List N → List N
  normalized d =
      let sum = foldl add (int 0) d in
      if lt (int 0) sum && lt (literal 1 2) (abs (sub sum (int 1)))
      then map (λ x. div x sum) d
      else d

  unfoldable pub distribution_of : TpSlInput N → List String → List N
  distribution_of input targets =
      normalized
        (own_distribution targets (is_some input.fixed_risk_reward_close) input.tp_distribution)

  -- `Math.min(...ratios)`
  abbrev smallest : List N → N
  smallest ratios = foldl min_number num.infinity ratios

  -- How many take profits the amount is split among
  unfoldable pub count_of : N → ℕ → List String → List N → ℕ
  count_of total precision targets distribution =
      let n = smaller (length targets) (length distribution) in
      if ltb 1 n
        && lt (mul total (smallest (first n distribution))) (pow (int 10) (neg (int precision)))
      then 1
      else n

  abbrev pub share_of : N → N → N → N
  share_of total remaining ratio =
      min_number (max_number (int 0) (round (mul total ratio))) remaining

  -- The units of each take profit; the last one gets what is left.
  unfoldable pub allocate_units : N → N → List N → List N
  allocate_units total remaining [] = []
  allocate_units total remaining (ratio ∷ []) = remaining ∷ []
  allocate_units total remaining (ratio ∷ next ∷ ratios) =
      let share = share_of total remaining ratio in
      share ∷ allocate_units total (sub remaining share) (next ∷ ratios)

  abbrev pub units_of : N → ℕ → N
  units_of total precision = round (mul total (pow (int 10) (int precision)))

  unfoldable pub allocate_amount_by_distribution : N → List N → ℕ → List N
  allocate_amount_by_distribution total distribution precision =
      let units = units_of total precision in
      if le units (int 0)
      then map (λ ratio. int 0) distribution
      else map (λ share. div share (pow (int 10) (int precision)))
          (allocate_units units units distribution)

  abbrev padded : TpSlInput N → N → N → N
  padded input r price =
      if lt (int 0) r && lt (int 0) input.tp_padding_r
      then behind input.is_long price (mul r input.tp_padding_r)
      else price

  -- `allocated[i] || 0` decides whether there is an order.
  unfoldable pub orders_of : TpSlInput N → N → ℕ → ℕ → List String → List N → List TpOrder
  orders_of input r price_precision amount_precision [] amounts = []
  orders_of input r price_precision amount_precision (t ∷ ts) [] = []
  orders_of input r price_precision amount_precision (t ∷ ts) (a ∷ amounts) =
      let rest = orders_of input r price_precision amount_precision ts amounts in
      if not (is_truthy a) || le a (int 0)
      then rest
      else record {
        price = to_fixed (padded input r (parse_float t)) (int price_precision);
        amount = to_fixed a (int amount_precision);
      }
        ∷ rest

  unfoldable pub calculate : TpSlInput N → N → ℕ → ℕ → TpSlResult N
  calculate input total price_precision amount_precision =
      let r = abs (sub input.entry_price input.stop_loss) in
      let targets = targets_of input r in
      let distribution = distribution_of input targets in
      let n = count_of total amount_precision targets distribution in
      let allocated =
        allocate_amount_by_distribution total (first n distribution) amount_precision in
      record {
        targets = targets;
        distribution = distribution;
        allocated = allocated;
        tp_orders = orders_of input r price_precision amount_precision (first n targets) allocated;
      }
