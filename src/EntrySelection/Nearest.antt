-- ===== src/EntrySelection/Nearest.antt =====
-- The search for the nearest entry.
use velotradex.Base.{
  ℕ, suc, ◌+◌, ◌≡◌, refl, sym, ◌∙◌, length-append, append_assoc, append-nil, true, false, Option,
  none, some, List, [], ◌∷◌, length, All, All-append, All-map, ◌++◌, Bool-cases, some-injective,
  zero, ap, inl, inr,
}
use velotradex.Number.{Number, not_positive}
use velotradex.Number.Laws.{IsOrdered}
use velotradex.EntrySelection.{
  distance, Best, visit, search_from, nearest_sl_entry_index, candidate_at,
}

module _ {N : Type 0} ⦃num : Number N⦄ (order : IsOrdered N) where
  if_less : (a b c : N) → num.lt b c ≡ true → num.lt a c ≡ false → num.lt a b ≡ false
  if_less a b c near far = elim (Bool-cases (num.lt a b)) [
    | inr h ↦ h
    | inl h ↦ cc (order.lt_trans a b c h near, far)
  ]

module _ {N : Type 0} ⦃num : Number N⦄ where
  open num use {lt, infinity}

  -- No comparable price of the list is nearer to the stop loss than `d`.
  abbrev pub NoneCloser : N → N → List (Option N) → Type 0
  NoneCloser stop_loss d cs =
      All (λ c. (p : N) → c ≡ some p → not_positive p ≡ false → lt (distance stop_loss p) d ≡ false)
        cs

  -- The candidate at a place has a price that can be compared, at the distance `d`.
  pub record IsAt (stop_loss : N) (cs : List (Option N)) (k : ℕ) (d : N) : Type 0 where
    pub price : N
    pub found : candidate_at k cs ≡ some price
    pub comparable : not_positive price ≡ false
    pub away : d ≡ distance stop_loss price

  one_more : (xs : List (Option N)) (c : Option N) → length (xs ++ (c ∷ [])) ≡ length xs + 1
  one_more xs c = length-append xs (c ∷ [])

  -- What the loop knows after it went over a list.
  record IsBest (stop_loss : N) (seen : List (Option N)) (best : Best N) : Type 0 where
    pub none_closer : NoneCloser stop_loss best.1 seen
    pub at : (k : ℕ) → best.0 ≡ some k → IsAt stop_loss seen k best.1
    pub far : best.0 ≡ none → best.1 ≡ infinity

  candidate_at-append :
      (xs ys : List (Option N)) (k : ℕ) (p : N)
      → candidate_at k xs ≡ some p
      → candidate_at k (xs ++ ys) ≡ some p
  candidate_at-append [] ys k p h = cc
  candidate_at-append (x ∷ xs) ys zero p h = h
  candidate_at-append (x ∷ xs) ys (suc k) p h = candidate_at-append xs ys k p h

  candidate_at-length :
      (xs : List (Option N)) (c : Option N) → candidate_at (length xs) (xs ++ (c ∷ [])) ≡ c
  candidate_at-length [] c = refl
  candidate_at-length (x ∷ xs) c = candidate_at-length xs c

  IsAt-append :
      (stop_loss : N) (xs ys : List (Option N)) (k : ℕ) (d : N)
      → IsAt stop_loss xs k d
      → IsAt stop_loss (xs ++ ys) k d
  IsAt-append stop_loss xs ys k d a = record {
    price = a.price;
    found = candidate_at-append xs ys k a.price a.found;
    comparable = a.comparable;
    away = a.away;
  }

  module _ (order : IsOrdered N) (stop_loss : N) where
    -- A candidate that is no price, or not closer, changes nothing.
    IsBest-skip :
        (seen : List (Option N)) (c : Option N) (best : Best N)
        → ((p : N) → c ≡ some p → not_positive p ≡ false → lt (distance stop_loss p) best.1 ≡ false)
        → IsBest stop_loss seen best
        → IsBest stop_loss (seen ++ (c ∷ [])) best
    IsBest-skip seen c best far b = record {
      none_closer = All-append _ seen (c ∷ []) b.none_closer (far, tt);
      at = λ k e. IsAt-append stop_loss seen (c ∷ []) k best.1 (b.at k e);
      far = b.far;
    }

    IsBest-take :
        (seen : List (Option N)) (p : N) (best : Best N)
        → not_positive p ≡ false
        → lt (distance stop_loss p) best.1 ≡ true
        → IsBest stop_loss seen best
        → IsBest stop_loss (seen ++ (some p ∷ [])) (some (length seen), distance stop_loss p)
    IsBest-take seen p best comparable near b = record {
      none_closer =
          All-append _ seen (some p ∷ [])
            (All-map seen
              (λ c far q e ok.
                if_less order (distance stop_loss q) (distance stop_loss p) best.1 near
                  (far q e ok))
              b.none_closer)
            (λ q e ok. rw (some-injective e) (order.lt_irrefl (distance stop_loss q)), tt);
      at = λ k e. record {
        price = p;
        found = rw (← some-injective e) (candidate_at-length seen (some p));
        comparable = comparable;
        away = refl;
      };
      far = λ e. cc;
    }

    IsBest-visit :
        (seen : List (Option N)) (c : Option N) (best : Best N)
        → IsBest stop_loss seen best
        → IsBest stop_loss (seen ++ (c ∷ [])) (visit stop_loss (length seen) c best)
    IsBest-visit seen none best b = IsBest-skip seen none best (λ p e ok. cc) b
    IsBest-visit seen (some p) best b = elim (Bool-cases (not_positive p)) [
      | inl bad ↦ rw bad (
          IsBest-skip seen (some p) best
            (λ q e ok.
              let same : p ≡ q = some-injective e in
              let no : true ≡ false = sym bad ∙ (ap not_positive same ∙ ok) in cc)
            b)
      | inr good ↦ elim (Bool-cases (lt (distance stop_loss p) best.1)) [
        | inl near ↦ rw (good, near) (IsBest-take seen p best good near b)
        | inr far ↦
            rw (good, far)
              (IsBest-skip seen (some p) best (λ q e ok. rw (← some-injective e) far) b)
      ]
    ]

    IsBest-search_from :
        (seen cs : List (Option N)) (best : Best N)
        → IsBest stop_loss seen best
        → IsBest stop_loss (seen ++ cs) (search_from stop_loss (length seen) cs best)
    IsBest-search_from seen [] best b = rw append-nil b
    IsBest-search_from seen (c ∷ cs) best b =
        let more : IsBest stop_loss ((seen ++ (c ∷ [])) ++ cs)
            (search_from stop_loss (length seen + 1) cs (visit stop_loss (length seen) c best)) =
          rw (← one_more seen c) (
            IsBest-search_from (seen ++ (c ∷ [])) cs (visit stop_loss (length seen) c best)
              (IsBest-visit seen c best b)) in
        rw (append_assoc) at more

    searched :
        (cs : List (Option N)) → IsBest stop_loss cs (search_from stop_loss 0 cs (none, infinity))
    searched cs =
        IsBest-search_from [] cs (none, infinity)
          (record { none_closer = tt; at = λ j e. cc; far = λ e. refl })

    -- The index that the search returns is the place of a comparable price, and no comparable
    -- price of the list is nearer to the stop loss.
    pub nearest_sl_entry_index-IsNearest :
        (cs : List (Option N)) (k : ℕ)
        → nearest_sl_entry_index cs stop_loss ≡ some k
        → (d : N) × IsAt stop_loss cs k d × NoneCloser stop_loss d cs
    unfolding nearest_sl_entry_index
    nearest_sl_entry_index-IsNearest cs k h = let b = searched cs in (_, b.at k h, b.none_closer)

    -- The search returns no index only if no comparable price is at a finite distance.
    pub nearest_sl_entry_index-none :
        (cs : List (Option N))
        → nearest_sl_entry_index cs stop_loss ≡ none
        → NoneCloser stop_loss infinity cs
    unfolding nearest_sl_entry_index
    nearest_sl_entry_index-none cs h = let b = searched cs in rw (b.far h) at b.none_closer
