-- ===== src/Classifier/Scope.antt =====
-- Which orders a closing signal counts as its own, by the tokens in their texts.
use Prim.Native.Char.{Char}
use Prim.Native.String.append
use velotradex.Base.{
  String, ◌<>◌, ◌≡◌, refl, ap, true, false, List, [], ◌∷◌, Memᴰ, Bool-cases, inl, inr, str_eq,
  eq_iff, arith,
}
use velotradex.Text.{includes, includes-append, starts_with}
use velotradex.Classifier.{Fields, full_text, is_scoped_protection_order, has_token}

starts_with-cons : (c : Char) (s t : String) → starts_with "" (String.◌∷◌ c s <> t) ≡ false
unfolding starts_with
starts_with-cons c s t = rw (append.cons c s t) refl

not_in_empty : (id : String) → includes "" ("-ord-" <> id) ≡ false
unfolding includes
not_in_empty id = starts_with-cons _ "ord-" id

has_token-Memᴰ :
    (text token id : String) (ids : List String)
    → includes text (token <> id) ≡ true
    → Memᴰ id ids
    → has_token text token ids ≡ true
has_token-Memᴰ text token id [] h m = elim m [ ]
has_token-Memᴰ text token id (i ∷ is) h (Memᴰ.head e) =
    let here : includes text (token <> i) ≡ true = rw e at h in rw here refl
has_token-Memᴰ text token id (i ∷ is) h (Memᴰ.tail m) =
    ground (arith, has_token-Memᴰ text token id is h m)

-- An order counts as one of the order `id` whenever its text goes on after the token of `id`: with
-- the id 1 it also counts as an order of 1 when it was placed for 12.
pub is_scoped-Extends :
    (f : Fields) (order_ids strategy_ids : List String) (id before rest : String)
    → Memᴰ id order_ids
    → full_text f ≡ before <> (("-ord-" <> id) <> rest)
    → is_scoped_protection_order f order_ids strategy_ids ≡ true
unfolding is_scoped_protection_order
is_scoped-Extends f order_ids strategy_ids id before rest m h =
    let found : includes (full_text f) ("-ord-" <> id) ≡ true =
      rw h (includes-append before ("-ord-" <> id) rest) in
    let token = has_token-Memᴰ (full_text f) "-ord-" id order_ids found m in
    elim (Bool-cases (str_eq (full_text f) "")) [
      | inl e ↦
          let nothing = (eq_iff (full_text f) "").0 e in
          cc (ap (λ t. includes t ("-ord-" <> id)) nothing, found, not_in_empty id)
      | inr n ↦ rw (n, token) refl
    ]
