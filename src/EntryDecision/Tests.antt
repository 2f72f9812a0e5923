-- ===== src/EntryDecision/Tests.antt =====
-- A buy at 100 with a tolerance of 3, decided at a snapshot price of 102; and the fills of orders.
use velotradex.Base.{◌≡◌, refl, ◌↔◌, true, false, some, ℕ}
use velotradex.Number.Int.{pos}
use velotradex.Number.Whole.{Whole, whole, whole_number, Whole-IsOrdered, Whole-HasDifferences}
use velotradex.EntryDecision.{
  Side, snapshot, MarketEntryCheck, select_entry_decision_price, is_market_entry_price,
  compute_gate_filled_qty,
}
use velotradex.EntryDecision.Slippage.{IsChosen, IsAcceptable, is_market_entry_price_iff}

decision : Unit {0}
unfolding select_entry_decision_price is_market_entry_price compute_gate_filled_qty whole
decision = tt

abbrev w : ℕ → Whole
w n = some (pos n)

abbrev entry_check : MarketEntryCheck Whole
entry_check = record {
  side = Side.buy;
  current_price = w 102;
  entry_price = w 100;
  tolerance = w 3;
}

too_far : is_market_entry_price (record entry_check { current_price = w 104 }) ≡ false
unfolding decision
too_far = refl

cancelled_unfilled : compute_gate_filled_qty "49" (some "-49") ≡ w 0
unfolding decision
cancelled_unfilled = refl

-- A sell that is 2 below the entry is a market order, and one that is 4 below is not.
sells :
    (is_market_entry_price (record entry_check { side = Side.sell; current_price = w 98 }) ≡ true)
    × (is_market_entry_price (record entry_check { side = Side.sell; current_price = w 96 })
        ≡ false)
unfolding decision
sells = (refl, refl)

is_market_entry_price_iff_example :
    IsChosen (w 110) (some (w 102)) (record { price = w 102; source = snapshot })
    × ((is_market_entry_price entry_check ≡ true) ↔ IsAcceptable Side.buy (w 102) (w 100) (w 3))
unfolding decision
is_market_entry_price_iff_example =
    is_market_entry_price_iff Whole-IsOrdered Whole-HasDifferences (w 110) (some (w 102)) Side.buy
      (w 100) (w 3)
