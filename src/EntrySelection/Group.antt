-- ===== src/EntrySelection/Group.antt =====
-- What becomes of the entries of a signal that its parser split.
use velotradex.Base.{
  ℕ, ◌<◌, ◌≡◌, refl, ◌≢◌, true, false, Option, none, some, List, map, arith, length, ◌==◌, ==_iff,
  Bool-cases, Option-cases, ltb, ◌⊎◌, inl, inr, ◌∙◌,
}
use velotradex.Number.{Number, int}
use velotradex.Number.Laws.{IsOrdered}
use velotradex.EntrySelection.{
  ParsedStrategy, Entry, finite_price, parse_price, nearest_sl_entry_index, select_in_group,
  from_group, apply_entry_selection,
}
use velotradex.EntrySelection.Nearest.{
  IsAt, NoneCloser, nearest_sl_entry_index-IsNearest, nearest_sl_entry_index-none,
}

module _ {N : Type 0} ⦃num : Number N⦄ where
  open num use {infinity}

  abbrev pub prices : List (Entry N) → List (Option N)
  prices group = map (λ e. finite_price e.price) group

  -- An opening signal that is the entry `i` of a group of several.
  pub record IsEntryOf (group : List (Entry N)) (stop_loss : N) (i : ℕ) (p : ParsedStrategy N)
      : Type 0 where
    pub action : p.action ≡ "open"
    pub stop : parse_price p.stop_loss ≡ some stop_loss
    pub several : 1 < length group
    pub count : p.entry_count ≡ some (length group)
    pub all : p.group_entries ≡ some group
    pub index : p.entry_index ≡ some i

  apply_entry_selection-eq :
      (group : List (Entry N)) (stop_loss : N) (i : ℕ) (p : ParsedStrategy N)
      → IsEntryOf group stop_loss i p
      → apply_entry_selection p (some "nearest_sl")
        ≡ select_in_group p i (nearest_sl_entry_index (prices group) stop_loss)
  unfolding apply_entry_selection from_group
  apply_entry_selection-eq group stop_loss i p e =
      let many : ltb 1 (length group) ≡ true = ground (arith, e.several) in
      let same : (length group == length group) ≡ true =
        (==_iff (length group) (length group)).1 refl in
      simp (e.action, e.stop, e.count, e.all, e.index, many, same)

  -- What the selection of the entry nearest to the stop loss does with an entry of a group: either no
  -- positive finite price of the group is at less than an infinite distance from the stop loss, and
  -- every signal of the group is left as it is; or there is one index, of an entry with a positive
  -- finite price that no other such price is nearer than, and the signal of exactly this index is kept,
  -- with the full weight and without the average price, while all others are filtered.
  pub apply_entry_selection-IsChoice :
      IsOrdered N
      → (group : List (Entry N)) (stop_loss : N)
      → (((i : ℕ) (p : ParsedStrategy N)
            → IsEntryOf group stop_loss i p
            → apply_entry_selection p (some "nearest_sl") ≡ record { parsed = p; filtered = false })
          × NoneCloser stop_loss infinity (prices group))
        ⊎ ((k : ℕ) × ((d : N) × IsAt stop_loss (prices group) k d
              × NoneCloser stop_loss d (prices group))
            × ((i : ℕ) (p : ParsedStrategy N)
                → IsEntryOf group stop_loss i p
                → ((i ≢ k)
                    × (apply_entry_selection p (some "nearest_sl")
                        ≡ record { parsed = p; filtered = true }))
                  ⊎ ((i ≡ k)
                      × (apply_entry_selection p (some "nearest_sl") ≡ record {
                        parsed = record p { weight = some (int 1); average_entry_price = none };
                        filtered = false;
                      }))))
  unfolding select_in_group
  apply_entry_selection-IsChoice order group stop_loss =
      elim (Option-cases (nearest_sl_entry_index (prices group) stop_loss)) [
        | inl none_found ↦ inl (
          λ i p e. apply_entry_selection-eq group stop_loss i p e ∙ rw none_found refl,
          nearest_sl_entry_index-none order stop_loss (prices group) none_found,
        )
        | inr (k, found) ↦ inr (
          k,
          nearest_sl_entry_index-IsNearest order stop_loss (prices group) k found,
          λ i p e. elim (Bool-cases (i == k)) [
            | inl same ↦ inr (
              (==_iff i k).0 same,
              apply_entry_selection-eq group stop_loss i p e ∙ rw (found, same) refl,
            )
            | inr other ↦ inl (
              λ eq. cc ((==_iff i k).1 eq, other),
              apply_entry_selection-eq group stop_loss i p e ∙ rw (found, other) refl,
            )
          ],
        )
      ]
