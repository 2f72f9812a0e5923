-- ===== src/OpenPrice.antt =====
-- services/OpenPriceAdjustment.ts: the entry, stop loss and take profit of an opening order are moved,
-- either by shares of the risk unit R or by fixed amounts, and a stop loss that then crosses the
-- entry or the current price makes the order invalid. The texts of the refusals are the cases of
-- `InvalidReason`; optional settings are options.
pub mod Sides
pub mod Tests
use velotradex.Base.{
  Bool, true, false, not, ◌&&◌, Option, none, some, String, str_eq, if◌then◌else◌,
}
use velotradex.Number.{Number, int, le, positive}

pub data Side : Type 0 where
  buy : Side
  sell : Side

pub data Mode : Type 0 where
  r : Mode
  fixed : Mode

pub data InvalidReason : Type 0 where
  crosses_entry : InvalidReason
  crosses_current : InvalidReason

-- The fields of the route's risk settings that the adjustment reads.
pub record RiskConfig (N : Type 0) : Type 0 where
  pub padding_mode : Option String
  pub entry_padding_r : Option N
  pub tp_padding_r : Option N
  pub sl_padding_r : Option N
  pub entry_offset_fixed : Option N
  pub fixed_sl_distance : Option N
  pub sl_back_offset_fixed : Option N

pub record Defaults (N : Type 0) : Type 0 where
  pub entry : N
  pub tp : N
  pub sl : N

pub record OpenPriceAdjustmentInput (N : Type 0) : Type 0 where
  pub side : Side
  pub entry_price : N
  pub stop_loss : N
  pub take_profit : Option N
  pub risk_unit : N
  pub current_price : Option N
  pub risk_config : RiskConfig N
  pub defaults : Defaults N

-- The settings that took effect.
pub record Applied (N : Type 0) : Type 0 where
  pub entry_padding_r : Option N
  pub tp_padding_r : Option N
  pub sl_padding_r : Option N
  pub entry_offset_fixed : Option N
  pub fixed_sl_distance : Option N
  pub sl_back_offset_fixed : Option N

pub record OpenPriceAdjustmentResult (N : Type 0) : Type 0 where
  pub entry_price : N
  pub stop_loss : N
  pub take_profit : Option N
  pub mode : Mode
  pub invalid_reason : Option InvalidReason
  pub applied : Applied N

abbrev pub is_fixed : Option String → Bool
is_fixed none = false
is_fixed (some mode) = str_eq mode "fixed"

module _ {N : Type 0} ⦃num : Number N⦄ where
  open num use {add, sub, mul, is_finite}

  abbrev pub is_usable : N → Bool
  is_usable price = is_finite price && positive price

  unfoldable pub to_positive_finite : Option N → Option N
  to_positive_finite none = none
  to_positive_finite (some value) = if is_usable value then some value else none

  -- towards higher prices for a buy, lower ones for a sell, and the other way round
  abbrev pub forward : Side → N → N → N
  forward buy price distance = add price distance
  forward sell price distance = sub price distance

  abbrev pub backward : Side → N → N → N
  backward buy price distance = sub price distance
  backward sell price distance = add price distance

  abbrev pub or_default : Option N → N → N
  or_default none d = d
  or_default (some v) d = v

  abbrev shifted_back : Side → Option N → N → Option N
  shifted_back side none distance = none
  shifted_back side (some price) distance = some (backward side price distance)

  -- `paddingMode` 'r'
  unfoldable pub adjust_by_r : OpenPriceAdjustmentInput N → OpenPriceAdjustmentResult N
  adjust_by_r input =
      let entry_padding = or_default input.risk_config.entry_padding_r input.defaults.entry in
      let tp_padding = or_default input.risk_config.tp_padding_r input.defaults.tp in
      let sl_padding = or_default input.risk_config.sl_padding_r input.defaults.sl in
      record {
        entry_price = forward input.side input.entry_price (mul input.risk_unit entry_padding);
        stop_loss = backward input.side input.stop_loss (mul input.risk_unit sl_padding);
        take_profit = shifted_back input.side input.take_profit (mul input.risk_unit tp_padding);
        mode = r;
        invalid_reason = none;
        applied = record {
          entry_padding_r = some entry_padding;
          tp_padding_r = some tp_padding;
          sl_padding_r = some sl_padding;
          entry_offset_fixed = none;
          fixed_sl_distance = none;
          sl_back_offset_fixed = none;
        };
      }

  abbrev pub back_by : Side → N → Option N → N
  back_by side price none = price
  back_by side price (some distance) = backward side price distance

  abbrev pub fixed_stop : Side → N → N → Option N → N
  fixed_stop side entry stop none = stop
  fixed_stop side entry stop (some distance) = backward side entry distance

  -- `stop >= price` for a buy, `stop <= price` for a sell
  abbrev pub crosses : Side → N → N → Bool
  crosses buy stop price = le price stop
  crosses sell stop price = le stop price

  abbrev pub crosses_if_usable : Side → N → N → Bool
  crosses_if_usable side stop price = is_usable stop && is_usable price && crosses side stop price

  abbrev pub crosses_optional : Side → N → Option N → Bool
  crosses_optional side stop none = false
  crosses_optional side stop (some price) = crosses_if_usable side stop price

  unfoldable pub invalid_reason_of : Side → N → N → Option N → Option InvalidReason
  invalid_reason_of side stop entry current =
      if crosses_if_usable side stop entry
      then some crosses_entry
      else if crosses_optional side stop current
      then some crosses_current
      else none

  -- `paddingMode` 'fixed'
  unfoldable pub adjust_by_amounts : OpenPriceAdjustmentInput N → OpenPriceAdjustmentResult N
  adjust_by_amounts input =
      let entry_offset = to_positive_finite input.risk_config.entry_offset_fixed in
      let sl_distance = to_positive_finite input.risk_config.fixed_sl_distance in
      let sl_back = to_positive_finite input.risk_config.sl_back_offset_fixed in
      let entry = back_by input.side input.entry_price entry_offset in
      let stop =
        back_by input.side (fixed_stop input.side entry input.stop_loss sl_distance) sl_back in
      record {
        entry_price = entry;
        stop_loss = stop;
        take_profit = input.take_profit;
        mode = fixed;
        invalid_reason = invalid_reason_of input.side stop entry input.current_price;
        applied = record {
          entry_padding_r = none;
          tp_padding_r = none;
          sl_padding_r = none;
          entry_offset_fixed = entry_offset;
          fixed_sl_distance = sl_distance;
          sl_back_offset_fixed = sl_back;
        };
      }

  unfoldable pub apply_open_price_adjustments :
      OpenPriceAdjustmentInput N → OpenPriceAdjustmentResult N
  apply_open_price_adjustments input =
      if is_fixed input.risk_config.padding_mode then adjust_by_amounts input else adjust_by_r input
