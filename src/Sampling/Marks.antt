-- ===== src/Sampling/Marks.antt =====
-- The marks of `SamplingSpecial` (srv_common/ndrand.cpp).
use apollolib.Base.{
  ℕ, zero, suc, ◌+◌, ◌-◌, ◌≤◌, ◌<◌, ◌≡◌, refl, ap, ◌∙◌, Bool, true, false, List, [], ◌∷◌, ◌==◌, leb,
  length, arith, Array, set, All, inl, inr, Bool-cases,
}
use apollolib.Sampling.Draws.{fill_marks, marked_from}

abbrev pub num : ℕ → ℕ → Array Bool → ℕ
num i n marks = length (marked_from i n marks)

-- Marks outside of the rows do not count.
num_before : (i n v : ℕ) (marks : Array Bool) → v < i → num i n (set marks v true) ≡ num i n marks
unfolding marked_from
num_before i zero v marks lt = refl
num_before i (suc n) v marks lt = ground (arith, num_before (i + 1) n v marks (omega arith))

pub num-set :
    (i n v : ℕ) (marks : Array Bool)
    → i ≤ v
    → v < i + n
    → marks v ≡ false
    → num i n (set marks v true) ≡ num i n marks + 1
unfolding marked_from
num-set i zero v marks lo hi free = absurd (omega arith)
num-set i (suc n) v marks lo hi free = elim (Bool-cases (i == v)) [
  | inl here ↦
      let same : i ≡ v = ground arith in
      let off : marks i ≡ false = rw same free in
      ground (arith, num_before (i + 1) n v marks (omega arith))
  | inr later ↦ ground (arith, num-set (i + 1) n v marks (ground arith) (omega arith) free)
]

fill_before : (i n left j : ℕ) (marks : Array Bool) → j < i → fill_marks i n left marks j ≡ marks j
unfolding fill_marks
fill_before i zero left j marks lt = refl
fill_before i (suc n) left j marks lt = elim (Bool-cases (marks i)) [
  | inl on ↦ rw (on, fill_marks) (fill_before (i + 1) n left j marks (omega arith))
  | inr off ↦ elim (Bool-cases (leb (left - 1) 0)) [
    | inl last ↦ rw (off, last, fill_marks) (ground arith)
    | inr more ↦
        rw (off, more, fill_marks)
          (fill_before (i + 1) n (left - 1) j (set marks i true) (omega arith) ∙ ground arith)
  ]
]

num_on :
    (i n : ℕ) (marks : Array Bool)
    → marks i ≡ true
    → num i (suc n) marks ≡ suc (num (i + 1) n marks)
unfolding marked_from
num_on i n marks on = rw on refl

num_off :
    (i n : ℕ) (marks : Array Bool) → marks i ≡ false → num i (suc n) marks ≡ num (i + 1) n marks
unfolding marked_from
num_off i n marks off = rw off refl

fill_on :
    (i n left : ℕ) (marks : Array Bool)
    → marks i ≡ true
    → fill_marks i (suc n) left marks ≡ fill_marks (i + 1) n left marks
unfolding fill_marks
fill_on i n left marks on = rw on refl

fill_off :
    (i n left : ℕ) (marks : Array Bool)
    → marks i ≡ false
    → leb (left - 1) 0 ≡ false
    → fill_marks i (suc n) left marks ≡ fill_marks (i + 1) n (left - 1) (set marks i true)
unfolding fill_marks
fill_off i n left marks off more = rw (off, more) refl

fill_last :
    (i n left : ℕ) (marks : Array Bool)
    → marks i ≡ false
    → leb (left - 1) 0 ≡ true
    → fill_marks i (suc n) left marks ≡ set marks i true
unfolding fill_marks
fill_last i n left marks off last = rw (off, last) refl

-- The cells that are free are enough for what is left.
pub num-fill_marks :
    (i n left : ℕ) (marks : Array Bool)
    → 0 < left
    → num i n marks + left ≤ n
    → num i n (fill_marks i n left marks) ≡ num i n marks + left
num-fill_marks i zero left marks pos room = absurd (omega arith)
num-fill_marks i (suc n) left marks pos room = elim (Bool-cases (marks i)) [
  | inl on ↦
      let here = num_on i n marks on in
      let filled = fill_marks (i + 1) n left marks in
      let kept : filled i ≡ true = fill_before (i + 1) n left i marks (omega arith) ∙ on in
      let next = num-fill_marks (i + 1) n left marks pos (omega arith) in
      ap (num i (suc n)) (fill_on i n left marks on)
      ∙ omega (arith, next, here, num_on i n filled kept)
  | inr off ↦
      let here = num_off i n marks off in
      elim (Bool-cases (leb (left - 1) 0)) [
        | inl last ↦
            let one : left ≡ 1 = ground arith in
            ap (num i (suc n)) (fill_last i n left marks off last)
            ∙ omega (arith, num-set i (suc n) i marks (omega arith) (omega arith) off)
        | inr more ↦
            let marks' = set marks i true in
            let filled = fill_marks (i + 1) n (left - 1) marks' in
            let marked : filled i ≡ true =
              fill_before (i + 1) n (left - 1) i marks' (omega arith) ∙ ground arith in
            let same = num_before (i + 1) n i marks (omega arith) in
            let next = num-fill_marks (i + 1) n (left - 1) marks' (ground arith) (omega arith) in
            let positive : 1 < left = ground arith in
            ap (num i (suc n)) (fill_off i n left marks off more)
            ∙ omega (arith, next, same, here, num_on i n filled marked)
      ]
]

pub num_all : (i n : ℕ) → num i n (λ _. true) ≡ n
unfolding marked_from
num_all i zero = refl
num_all i (suc n) = omega (arith, num_all (i + 1) n)

-- A list that rises, from `i` on.
abbrev pub IsAscending : ℕ → List ℕ → Type 0
IsAscending i [] = Unit
IsAscending i (x ∷ rest) = (i ≤ x) × IsAscending (suc x) rest

IsAscending-from : (i j : ℕ) (l : List ℕ) → i ≤ j → IsAscending j l → IsAscending i l
IsAscending-from i j [] le a = tt
IsAscending-from i j (x ∷ rest) le (lo, a) = (omega arith, a)

pub marked_from-IsAscending : (i n : ℕ) (marks : Array Bool) → IsAscending i (marked_from i n marks)
unfolding marked_from
marked_from-IsAscending i zero marks = tt
marked_from-IsAscending i (suc n) marks =
    let rest = marked_from-IsAscending (i + 1) n marks in
    elim (Bool-cases (marks i)) [
      | inl on ↦ rw on (
        omega arith,
        IsAscending-from (suc i) (i + 1) (marked_from (i + 1) n marks) (omega arith) rest,
      )
      | inr off ↦
          rw off (IsAscending-from i (i + 1) (marked_from (i + 1) n marks) (omega arith) rest)
    ]

pub marked_from-lt :
    (i n m : ℕ) (marks : Array Bool) → i + n ≤ m → All (λ x. x < m) (marked_from i n marks)
unfolding marked_from
marked_from-lt i zero m marks le = tt
marked_from-lt i (suc n) m marks le =
    let rest = marked_from-lt (i + 1) n m marks (omega arith) in
    elim (Bool-cases (marks i)) [ inl on ↦ rw on (omega arith, rest) | inr off ↦ rw off rest ]
