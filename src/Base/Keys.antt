-- ===== src/Base/Keys.antt =====
-- The order of the keys of a `std::map`: numbers, and texts byte by byte.
use Prim.Native.Nat.{ℕ, compare, Ordering}
use mathlib.Core.Path.{◌≡◌, refl}
use mathlib.Core.List.{[], ◌∷◌}
use native.Mathlib.Omega.{arith}
use apollolib.Base.Text.{Text}

-- A total order of keys by its comparison.
pub record Key (K : Type 0) : Type 0 where
  pub order : K → K → Ordering
  pub order_refl : (a : K) → order a a ≡ Ordering.eq
  pub eq_of_order : (a b : K) → order a b ≡ Ordering.eq → a ≡ b
  pub order_flip : (a b : K) → order a b ≡ Ordering.gt → order b a ≡ Ordering.lt
  pub order_flip_lt : (a b : K) → order a b ≡ Ordering.lt → order b a ≡ Ordering.gt
  pub order_trans :
      (a b c : K) → order a b ≡ Ordering.lt → order b c ≡ Ordering.lt → order a c ≡ Ordering.lt

pub number_refl : (a : ℕ) → compare a a ≡ Ordering.eq
number_refl a = ground arith

pub eq_of_number : (a b : ℕ) → compare a b ≡ Ordering.eq → a ≡ b
eq_of_number a b h = ground arith

pub number_flip : (a b : ℕ) → compare a b ≡ Ordering.gt → compare b a ≡ Ordering.lt
number_flip a b h = ground arith

pub number_flip_lt : (a b : ℕ) → compare a b ≡ Ordering.lt → compare b a ≡ Ordering.gt
number_flip_lt a b h = ground arith

pub number_trans :
    (a b c : ℕ) → compare a b ≡ Ordering.lt → compare b c ≡ Ordering.lt → compare a c ≡ Ordering.lt
number_trans a b c h k = ground arith

instance abbrev pub number_key : Key ℕ
number_key = record {
  order = compare;
  order_refl = number_refl;
  eq_of_order = eq_of_number;
  order_flip = number_flip;
  order_flip_lt = number_flip_lt;
  order_trans = number_trans;
}

-- `std::string::compare`
unfoldable pub text_order : Text → Text → Ordering
text_order [] [] = Ordering.eq
text_order [] (y ∷ t) = Ordering.lt
text_order (x ∷ s) [] = Ordering.gt
text_order (x ∷ s) (y ∷ t) = elim (compare x y) [
  | Ordering.lt ↦ Ordering.lt
  | Ordering.gt ↦ Ordering.gt
  | Ordering.eq ↦ text_order s t
]

pub text_refl : (s : Text) → text_order s s ≡ Ordering.eq
unfolding text_order
text_refl [] = refl
text_refl (x ∷ s) = ground (arith, text_refl s)

pub eq_of_text : (s t : Text) → text_order s t ≡ Ordering.eq → s ≡ t
unfolding text_order
eq_of_text [] [] h = refl
eq_of_text [] (y ∷ t) h = cc
eq_of_text (x ∷ s) [] h = cc
eq_of_text (x ∷ s) (y ∷ t) h = ground (arith, eq_of_text s t)

pub text_flip : (s t : Text) → text_order s t ≡ Ordering.gt → text_order t s ≡ Ordering.lt
unfolding text_order
text_flip [] [] h = cc
text_flip [] (y ∷ t) h = cc
text_flip (x ∷ s) [] h = refl
text_flip (x ∷ s) (y ∷ t) h = ground (arith, text_flip s t)

pub text_flip_lt : (s t : Text) → text_order s t ≡ Ordering.lt → text_order t s ≡ Ordering.gt
unfolding text_order
text_flip_lt [] [] h = cc
text_flip_lt [] (y ∷ t) h = refl
text_flip_lt (x ∷ s) [] h = cc
text_flip_lt (x ∷ s) (y ∷ t) h = ground (arith, text_flip_lt s t)

pub text_trans :
    (s t u : Text)
    → text_order s t ≡ Ordering.lt
    → text_order t u ≡ Ordering.lt
    → text_order s u ≡ Ordering.lt
unfolding text_order
text_trans [] [] u h k = cc
text_trans (x ∷ s) [] u h k = cc
text_trans [] (y ∷ t) [] h k = cc
text_trans (x ∷ s) (y ∷ t) [] h k = cc
text_trans [] (y ∷ t) (z ∷ u) h k = refl
text_trans (x ∷ s) (y ∷ t) (z ∷ u) h k = ground (arith, text_trans s t u)

instance abbrev pub text_key : Key Text
text_key = record {
  order = text_order;
  order_refl = text_refl;
  eq_of_order = eq_of_text;
  order_flip = text_flip;
  order_flip_lt = text_flip_lt;
  order_trans = text_trans;
}
