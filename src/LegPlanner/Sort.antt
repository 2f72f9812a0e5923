-- ===== src/LegPlanner/Sort.antt =====
-- Merging two legs leaves one leg less.
use velotradex.Base.{
  ◌∙◌, ℕ, suc, ◌+◌, ◌≤◌, ◌≡◌, refl, ◌≢◌, List, [], ◌∷◌, ◌++◌, arith, if◌then◌else◌, ◌==◌, length,
  length-append, indexed, length-indexed, inl, ◌⊎◌,
}
use velotradex.Number.{Number}
use velotradex.LegPlanner.{
  InternalLeg, insert_by, sort_by, without, weight_of, merged_leg, merge_first, merge_two_legs,
}

-- How often a place stands in a list.
count_place {ℓ} : {A : Type ℓ} → ℕ → List (ℕ × A) → ℕ
count_place k [] = 0
count_place k ((i, a) ∷ l) = (if i == k then 1 else 0) + count_place k l

count_place-indexed {ℓ} :
    {A : Type ℓ} (k i : ℕ) (l : List A)
    → (count_place k (indexed i l) ≤ 1) × ((count_place k (indexed i l) ≡ 0) ⊎ (i ≤ k))
unfolding count_place
count_place-indexed k i [] = (omega arith, inl refl)
count_place-indexed k i (x ∷ l) = ground (arith, count_place-indexed k (i + 1) l)

module _ {N : Type 0} ⦃num : Number N⦄ where
  length-insert_by {ℓ} :
      {A : Type ℓ} (key : A → N) (x : A) (l : List A) → length (insert_by key x l) ≡ suc (length l)
  length-insert_by key x [] = refl
  length-insert_by key x (y ∷ l) = ground (arith, length-insert_by key x l)

  pub length-sort_by {ℓ} :
      {A : Type ℓ} (key : A → N) (l : List A) → length (sort_by key l) ≡ length l
  length-sort_by key [] = refl
  length-sort_by key (x ∷ l) =
      omega (arith, length-insert_by key x (sort_by key l), length-sort_by key l)

  count_place-insert_by :
      (k : ℕ) (x : ℕ × InternalLeg N) (l : List (ℕ × InternalLeg N))
      → count_place k (insert_by weight_of x l) ≡ (if x.0 == k then 1 else 0) + count_place k l
  unfolding count_place
  count_place-insert_by k x [] = refl
  count_place-insert_by k x (y ∷ l) = ground (arith, count_place-insert_by k x l)

  count_place-sort_by :
      (k : ℕ) (l : List (ℕ × InternalLeg N)) → count_place k (sort_by weight_of l) ≡ count_place k l
  unfolding count_place
  count_place-sort_by k [] = refl
  count_place-sort_by k (x ∷ l) =
      ground (arith, count_place-insert_by k x (sort_by weight_of l), count_place-sort_by k l)

  length-without :
      (i j : ℕ) (l : List (ℕ × InternalLeg N))
      → i ≢ j
      → length (without i j l) + count_place i l + count_place j l ≡ length l
  unfolding count_place
  length-without i j [] ne = refl
  length-without i j ((k, x) ∷ l) ne = ground (arith, length-without i j l ne)

  length-merge_first :
      (precision : N) (places s : List (ℕ × InternalLeg N))
      → ((k : ℕ) → count_place k s ≡ count_place k places)
      → ((k : ℕ) → count_place k places ≤ 1)
      → 2 ≤ length s
      → length (merge_first precision places s) + 1 ≡ length places
  unfolding count_place
  length-merge_first precision places [] same once h = absurd (omega arith)
  length-merge_first precision places (a ∷ []) same once h = absurd (omega arith)
  length-merge_first precision places (a ∷ b ∷ r) same once h =
      let distinct : a.0 ≢ b.0 = ground (arith, same a.0, once a.0) in
      let last = merged_leg precision a.1 b.1 ∷ [] in
      ground (
        arith,
        length-sort_by (λ (l : InternalLeg N). l.tp_price) (without a.0 b.0 places ++ last),
        length-append (without a.0 b.0 places) last,
        length-without a.0 b.0 places distinct,
        same a.0,
        same b.0,
        once a.0,
        once b.0,
      )

  pub length-merge_two_legs :
      (legs : List (InternalLeg N)) (precision : N)
      → 2 ≤ length legs
      → length (merge_two_legs legs precision) + 1 ≡ length legs
  unfolding merge_two_legs
  length-merge_two_legs legs precision h =
      let places = indexed 0 legs in
      length-merge_first precision places (sort_by weight_of places)
        (λ k. count_place-sort_by k places) (λ k. (count_place-indexed k 0 legs).0)
        (omega (arith, length-sort_by weight_of places, length-indexed 0 legs))
      ∙ length-indexed 0 legs
