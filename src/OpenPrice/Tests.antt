-- ===== src/OpenPrice/Tests.antt =====
-- A buy at 100 whose entry is moved back by 5, with a stop loss 10 below it.
use velotradex.Base.{◌≡◌, refl, ◌⊎◌, none, some, ℕ}
use velotradex.Number.Int.{pos}
use velotradex.Number.Whole.{Whole, whole, whole_number, Whole-IsOrdered}
use velotradex.OpenPrice.{
  OpenPriceAdjustmentInput, Side, Mode, InvalidReason, to_positive_finite, adjust_by_r,
  adjust_by_amounts, invalid_reason_of, apply_open_price_adjustments,
}
use velotradex.OpenPrice.Sides.{Tells, apply_open_price_adjustments-Tells}

adjustment : Unit {0}
unfolding to_positive_finite adjust_by_r adjust_by_amounts invalid_reason_of
    apply_open_price_adjustments whole
adjustment = tt

abbrev w : ℕ → Whole
w n = some (pos n)

abbrev order : OpenPriceAdjustmentInput Whole
order = record {
  side = Side.buy;
  entry_price = w 100;
  stop_loss = w 98;
  take_profit = none;
  risk_unit = w 2;
  current_price = some (w 97);
  risk_config = record {
    padding_mode = some "fixed";
    entry_padding_r = none;
    tp_padding_r = none;
    sl_padding_r = none;
    entry_offset_fixed = some (w 5);
    fixed_sl_distance = some (w 10);
    sl_back_offset_fixed = none;
  };
  defaults = record { entry = w 0; tp = w 0; sl = w 0 };
}

abbrev kept_stop : OpenPriceAdjustmentInput Whole
kept_stop = record order { risk_config = record order.risk_config { fixed_sl_distance = none } }

moved : (apply_open_price_adjustments order).stop_loss ≡ w 85
unfolding adjustment
moved = refl

refused : (apply_open_price_adjustments kept_stop).invalid_reason ≡ some InvalidReason.crosses_entry
unfolding adjustment
refused = refl

apply_open_price_adjustments-Tells_example :
    let o = apply_open_price_adjustments order in
    ((o.mode ≡ Mode.fixed)
      × Tells Side.buy o.stop_loss o.entry_price (some (w 97)) o.invalid_reason)
    ⊎ ((o.mode ≡ Mode.r) × (o.invalid_reason ≡ none))
apply_open_price_adjustments-Tells_example =
    apply_open_price_adjustments-Tells Whole-IsOrdered order
