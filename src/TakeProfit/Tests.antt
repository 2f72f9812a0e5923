-- ===== src/TakeProfit/Tests.antt =====
-- An amount of ten, split among three take profits of which the first asks for all of it.
use velotradex.Base.{◌≡◌, refl, true, none, some, List, [], ◌∷◌, map, length}
use velotradex.Number.{int}
use velotradex.Number.Int.{pos}
use velotradex.Number.Whole.{
  Whole, whole, whole_number, Whole-IsOrdered, Whole-HasSigns, Whole-HasBounds,
}
use velotradex.TakeProfit.{
  TpSlInput, insert, sort, targets_of, distribution_of, count_of, allocate_units, units_of,
  allocate_amount_by_distribution, orders_of, calculate,
}
use velotradex.TakeProfit.Split.{IsSplit, allocate-IsSplit}

take_profit : Unit {0}
unfolding insert sort targets_of distribution_of count_of allocate_units
    allocate_amount_by_distribution orders_of calculate whole
take_profit = tt

abbrev input : TpSlInput Whole
input = record {
  entry_price = some (pos 100);
  stop_loss = some (pos 90);
  is_long = true;
  targets = "130" ∷ "110" ∷ [];
  tp_distribution = some (some (pos 1) ∷ some (pos 0) ∷ []);
  tp_padding_r = some (pos 0);
  fixed_risk_reward_close = none;
}

sorted : (calculate input (some (pos 10)) 0 0).targets ≡ "110" ∷ "130" ∷ []
unfolding take_profit
sorted = refl

abbrev ratios : List Whole
ratios = some (pos 1) ∷ some (pos 0) ∷ some (pos 2) ∷ []

allocated :
    allocate_amount_by_distribution (some (pos 10)) ratios 0
    ≡ some (pos 10) ∷ some (pos 0) ∷ some (pos 0) ∷ []
unfolding take_profit
allocated = refl

allocate-IsSplit_example :
    (shares : List Whole) × (allocate_amount_by_distribution (some (pos 10)) ratios 0
      ≡ map (λ share. whole_number.div share (whole_number.pow (int 10) (int 0))) shares)
    × (length shares ≡ length ratios)
    × IsSplit (units_of (some (pos 10)) 0) shares
unfolding take_profit
allocate-IsSplit_example =
    allocate-IsSplit Whole-IsOrdered Whole-HasSigns Whole-HasBounds (some (pos 10)) ratios 0 refl
      refl (refl, (refl, (refl, tt)))
