-- ===== src/EntrySelection.antt =====
-- services/EntrySelection.ts: of a signal with several entry points, a route may take only the one
-- whose price is nearest to the stop loss. The fields of a parsed signal that the code neither reads
-- nor writes are left out. Prices of text are read by `parseFloat`. The texts of the reasons are left
-- out, since `filtered` tells when there is one.
pub mod Nearest
pub mod Group
pub mod Tests
use velotradex.Base.{
  ℕ, zero, suc, ◌+◌, String, Bool, true, false, not, ◌&&◌, Option, none, some, List, [], ◌∷◌, map,
  str_eq, if◌then◌else◌, ltb, ◌==◌, length,
}
use velotradex.Number.{Number, int, not_positive}

pub data OrderType : Type 0 where
  market : OrderType
  limit : OrderType

-- `GroupEntryLike`
pub record Entry (N : Type 0) : Type 0 where
  pub type : OrderType
  pub price : Option N

pub record ParsedStrategy (N : Type 0) : Type 0 where
  pub action : String
  pub entry_price : Option String
  pub stop_loss : Option String
  pub order_type : Option OrderType
  pub weight : Option N
  pub average_entry_price : Option N
  pub entries : Option (List (Entry N))
  pub entry_index : Option ℕ
  pub entry_count : Option ℕ
  pub group_entries : Option (List (Entry N))

pub record EntrySelectionResult (N : Type 0) : Type 0 where
  pub parsed : ParsedStrategy N
  pub filtered : Bool

-- what the loop keeps: the index of the nearest candidate so far, and its distance
abbrev pub Best : Type 0 → Type 0
Best N = Option ℕ × N

module _ {N : Type 0} ⦃num : Number N⦄ where
  open num use {infinity, abs, sub, lt, is_finite, parse_float, to_text}

  abbrev pub distance : N → N → N
  distance stop_loss price = abs (sub price stop_loss)

  abbrev pub closer : N → ℕ → N → Best N → Best N
  closer stop_loss i price best =
      if not_positive price
      then best
      else if lt (distance stop_loss price) best.1
      then (some i, distance stop_loss price)
      else best

  abbrev pub visit : N → ℕ → Option N → Best N → Best N
  visit stop_loss i none best = best
  visit stop_loss i (some price) best = closer stop_loss i price best

  abbrev pub search_from : N → ℕ → List (Option N) → Best N → Best N
  search_from stop_loss i [] best = best
  search_from stop_loss i (c ∷ cs) best =
      search_from stop_loss (i + 1) cs (visit stop_loss i c best)

  unfoldable pub nearest_sl_entry_index : List (Option N) → N → Option ℕ
  nearest_sl_entry_index candidates stop_loss =
      (search_from stop_loss 0 candidates (none, infinity)).0

  -- `parsePrice` of a text
  unfoldable pub parse_price : Option String → Option N
  parse_price none = none
  parse_price (some text) =
      let price = parse_float text in if is_finite price then some price else none

  abbrev pub finite_price : Option N → Option N
  finite_price none = none
  finite_price (some price) = if is_finite price then some price else none

  abbrev pub entry_at : ℕ → List (Entry N) → Option (Entry N)
  entry_at i [] = none
  entry_at zero (e ∷ es) = some e
  entry_at (suc i) (e ∷ es) = entry_at i es

  abbrev pub candidate_at : ℕ → List (Option N) → Option N
  candidate_at i [] = none
  candidate_at zero (c ∷ cs) = c
  candidate_at (suc i) (c ∷ cs) = candidate_at i cs

  abbrev pub unchanged : ParsedStrategy N → EntrySelectionResult N
  unchanged parsed = record { parsed = parsed; filtered = false }

  -- Case A: the parser split the signal, and this is the entry `i` of the group.
  unfoldable pub select_in_group : ParsedStrategy N → ℕ → Option ℕ → EntrySelectionResult N
  select_in_group parsed i none = unchanged parsed
  select_in_group parsed i (some nearest) =
      if i == nearest
      then unchanged (record parsed { weight = some (int 1); average_entry_price = none })
      else record { parsed = parsed; filtered = true }

  abbrev current_price : OrderType → Option N → Option N
  current_price market price = price
  current_price limit price = none

  -- The price of the first entry, when it is a market entry, is the signal's own.
  abbrev first_candidate : Option N → Entry N → Option N
  first_candidate current e = elim (finite_price e.price) [
    | some p ↦ some p
    | none ↦ current_price e.type current
  ]

  abbrev pub candidates_of : Option N → List (Entry N) → List (Option N)
  candidates_of current [] = []
  candidates_of current (e ∷ es) = first_candidate current e ∷ map (λ x. finite_price x.price) es

  abbrev chosen_entry : ParsedStrategy N → Option (Entry N) → Option N → EntrySelectionResult N
  chosen_entry parsed (some e) (some price) = unchanged (record parsed {
    entries = some (e ∷ []);
    entry_price = some (to_text price);
    order_type = some e.type;
    weight = some (int 1);
    average_entry_price = none;
  })
  chosen_entry parsed _ _ = unchanged parsed

  -- Case B: one signal that carries its entries.
  unfoldable pub select_in_entries :
      ParsedStrategy N → List (Entry N) → List (Option N) → Option ℕ → EntrySelectionResult N
  select_in_entries parsed entries candidates none = unchanged parsed
  select_in_entries parsed entries candidates (some nearest) =
      if nearest == 0
      then unchanged parsed
      else chosen_entry parsed (entry_at nearest entries) (candidate_at nearest candidates)

  unfoldable pub from_entries :
      ParsedStrategy N → N → Option (List (Entry N)) → EntrySelectionResult N
  from_entries parsed stop_loss none = unchanged parsed
  from_entries parsed stop_loss (some entries) =
      let candidates = candidates_of (parse_price parsed.entry_price) entries in
      if ltb 1 (length entries)
      then select_in_entries parsed entries candidates (nearest_sl_entry_index candidates stop_loss)
      else unchanged parsed

  -- the conditions of case A, on the count, the group and the index
  unfoldable pub from_group :
      ParsedStrategy N → N → Option ℕ → Option (List (Entry N)) → Option ℕ → EntrySelectionResult N
  from_group parsed stop_loss (some count) (some group) (some i) =
      if ltb 1 count && (length group == count)
      then select_in_group parsed i
          (nearest_sl_entry_index (map (λ x. finite_price x.price) group) stop_loss)
      else from_entries parsed stop_loss parsed.entries
  from_group parsed stop_loss _ _ _ = from_entries parsed stop_loss parsed.entries

  abbrev with_stop_loss : ParsedStrategy N → Option N → EntrySelectionResult N
  with_stop_loss parsed none = unchanged parsed
  with_stop_loss parsed (some stop_loss) =
      from_group parsed stop_loss parsed.entry_count parsed.group_entries parsed.entry_index

  -- `entry_selection` is the field of the route's risk settings.
  unfoldable pub apply_entry_selection : ParsedStrategy N → Option String → EntrySelectionResult N
  apply_entry_selection parsed none = unchanged parsed
  apply_entry_selection parsed (some entry_selection) =
      if str_eq entry_selection "nearest_sl" && str_eq parsed.action "open"
      then with_stop_loss parsed (parse_price parsed.stop_loss)
      else unchanged parsed
