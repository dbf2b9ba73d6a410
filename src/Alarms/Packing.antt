-- ===== src/Alarms/Packing.antt =====
-- The 64-bit word in which `toStream` keeps an alarm and `Init` reads it (srv_common/dailyUpdateMgr.cpp).
use apollolib.Base.{
  ℕ, zero, suc, ◌+◌, ◌-◌, ◌*◌, ◌/◌, ◌%◌, ◌^◌, ◌<◌, ◌≡◌, sym, ap, ◌∙◌, bit_and, bit_or, arith, ltb,
  inl, inr, Bool-cases,
}
use mathlib.Core.Path.{ap₂}
use native.Mathlib.Nat.{pow-suc, one-le-pow, mul_assoc}
use apollolib.Base.Bits.{digit, digit-lt, digit-bit_and, eq_of_digits}
use apollolib.Base.Words.{AreDisjoint, bit_or_add, digit-add, digit_high, digit_ones}

-- `timerId << 48 | lastRunTm & 0xffffffffffff`
unfoldable pub pack_event : ℕ → ℕ → ℕ
pack_event id last_run_tm = bit_or (id * 2 ^ 48 % 2 ^ 64) (bit_and last_run_tm (2 ^ 48 - 1))

-- `val >> 48` and `val & 0xffffffffffff`
unfoldable pub unpack_event : ℕ → ℕ × ℕ
unpack_event val = (val / 2 ^ 48, bit_and val (2 ^ 48 - 1))

double_shift : (n x : ℕ) → x * 2 ^ suc n ≡ x * 2 ^ n * 2
double_shift n x = ap (λ p. x * p) (pow-suc 2 n) ∙ sym (mul_assoc x (2 ^ n) 2)

digit_shifted : (n x k : ℕ) → k < n → digit (x * 2 ^ n) k ≡ 0
unfolding digit
digit_shifted zero x k lt = absurd (omega arith)
digit_shifted (suc n) x zero lt = omega (arith, double_shift n x)
digit_shifted (suc n) x (suc k) lt =
    let half : x * 2 ^ suc n / 2 ≡ x * 2 ^ n = omega (arith, double_shift n x) in
    rw half (digit_shifted n x k (omega arith))

low_bits : (n t : ℕ) → t < 2 ^ n → bit_and t (2 ^ n - 1) ≡ t
low_bits n t lt = eq_of_digits (bit_and t (2 ^ n - 1)) t λ k. elim (Bool-cases (ltb k n)) [
  | inl low ↦
      omega (arith, digit-bit_and t (2 ^ n - 1) k, digit_ones n k (ground arith), digit-lt t k)
  | inr high ↦ omega (arith, digit-bit_and t (2 ^ n - 1) k, digit_high n t k lt (ground arith))
]

shifted_disjoint : (n x t : ℕ) → t < 2 ^ n → AreDisjoint (x * 2 ^ n) t
shifted_disjoint n x t lt k = elim (Bool-cases (ltb k n)) [
  | inl low ↦ omega (arith, digit_shifted n x k (ground arith), digit-lt t k)
  | inr high ↦ omega (arith, digit_high n t k lt (ground arith), digit-lt (x * 2 ^ n) k)
]

or_shifted : (n x t : ℕ) → t < 2 ^ n → bit_or (x * 2 ^ n) t ≡ x * 2 ^ n + t
or_shifted n x t lt = bit_or_add (x * 2 ^ n) t (shifted_disjoint n x t lt)

low_of_shifted : (n x t : ℕ) → t < 2 ^ n → bit_and (x * 2 ^ n + t) (2 ^ n - 1) ≡ t
low_of_shifted n x t lt = eq_of_digits (bit_and (x * 2 ^ n + t) (2 ^ n - 1)) t λ k.
    elim (Bool-cases (ltb k n)) [
      | inl low ↦ omega (
        arith,
        digit-bit_and (x * 2 ^ n + t) (2 ^ n - 1) k,
        digit_ones n k (ground arith),
        digit-lt t k,
        digit-add (x * 2 ^ n) t k (shifted_disjoint n x t lt),
        digit_shifted n x k (ground arith),
      )
      | inr high ↦ omega (
        arith,
        digit-bit_and (x * 2 ^ n + t) (2 ^ n - 1) k,
        digit_high n t k lt (ground arith),
        digit_high n (2 ^ n - 1) k (omega (arith, one-le-pow n 2 (omega arith))) (ground arith),
      )
    ]

-- For an id below 2 ^ 16 and a time below 2 ^ 48, `Init` reads from the word that `toStream`
-- writes the same id and the same time.
pub unpack_event-pack_event :
    (id last_run_tm : ℕ)
    → id < 2 ^ 16
    → last_run_tm < 2 ^ 48
    → unpack_event (pack_event id last_run_tm) ≡ (id, last_run_tm)
unfolding pack_event unpack_event
unpack_event-pack_event id t id_fits t_fits =
    let word : bit_or (id * 2 ^ 48 % 2 ^ 64) (bit_and t (2 ^ 48 - 1)) ≡ id * 2 ^ 48 + t =
      ap₂ bit_or (omega arith) (low_bits 48 t t_fits) ∙ or_shifted 48 id t t_fits in
    rw word (ap₂ (λ a b. (a, b)) (omega arith) (low_of_shifted 48 id t t_fits))
