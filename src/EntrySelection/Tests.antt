-- ===== src/EntrySelection/Tests.antt =====
-- A buy with stop loss 90 and entries at 110, at the market and at 100: the third entry is kept.
use velotradex.Base.{ℕ, ◌≡◌, refl, ◌≢◌, ◌⊎◌, true, false, none, some, List, [], ◌∷◌}
use velotradex.Number.{int}
use velotradex.Number.Int.{pos}
use velotradex.Number.Whole.{Whole, whole, whole_number, Whole-IsOrdered}
use velotradex.EntrySelection.{
  ParsedStrategy, Entry, OrderType, nearest_sl_entry_index, parse_price, select_in_group,
  select_in_entries, from_entries, from_group, apply_entry_selection,
}
use velotradex.EntrySelection.Nearest.{IsAt, NoneCloser}
use velotradex.EntrySelection.Group.{IsEntryOf, prices, apply_entry_selection-IsChoice}

selection : Unit {0}
unfolding nearest_sl_entry_index parse_price select_in_group select_in_entries from_entries
    from_group apply_entry_selection whole
selection = tt

abbrev w : ℕ → Whole
w n = some (pos n)

abbrev entry_of : ℕ → Entry Whole
entry_of n = record { type = OrderType.limit; price = some (w n) }

abbrev group : List (Entry Whole)
group = entry_of 110 ∷ record { type = OrderType.market; price = none } ∷ entry_of 100 ∷ []

abbrev signal : ℕ → ParsedStrategy Whole
signal i = record {
  action = "open";
  entry_price = none;
  stop_loss = some "90";
  order_type = none;
  weight = none;
  average_entry_price = some (w 105);
  entries = none;
  entry_index = some i;
  entry_count = some 3;
  group_entries = some group;
}

first_filtered : (apply_entry_selection (signal 0) (some "nearest_sl")).filtered ≡ true
unfolding selection
first_filtered = refl

third_kept : (apply_entry_selection (signal 2) (some "nearest_sl")).filtered ≡ false
unfolding selection
third_kept = refl

apply_entry_selection-IsChoice_example :
    (((i : ℕ) (p : ParsedStrategy Whole)
        → IsEntryOf group (w 90) i p
        → apply_entry_selection p (some "nearest_sl") ≡ record { parsed = p; filtered = false })
      × NoneCloser (w 90) whole_number.infinity (prices group))
    ⊎ ((k : ℕ) × ((d : Whole) × IsAt (w 90) (prices group) k d × NoneCloser (w 90) d (prices group))
        × ((i : ℕ) (p : ParsedStrategy Whole)
            → IsEntryOf group (w 90) i p
            → ((i ≢ k)
                × (apply_entry_selection p (some "nearest_sl")
                    ≡ record { parsed = p; filtered = true }))
              ⊎ ((i ≡ k)
                  × (apply_entry_selection p (some "nearest_sl") ≡ record {
                    parsed = record p { weight = some (int 1); average_entry_price = none };
                    filtered = false;
                  }))))
apply_entry_selection-IsChoice_example = apply_entry_selection-IsChoice Whole-IsOrdered group (w 90)
