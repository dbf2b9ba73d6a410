-- ===== src/Status/Entries.antt =====
-- The forbid lists that `load_stat_info` reads (attribute/stat_data.cpp).
use apollolib.Base.{
  ℕ, zero, suc, ◌+◌, ◌*◌, ◌≤◌, ◌<◌, ◌≡◌, refl, some, List, [], ◌∷◌, arith, ◌==◌, length, Array,
  count, All, ◌⊎◌, inl, inr, Bool-cases, Option-cases,
}
use apollolib.Base.Text.{Text, text_eq}
use apollolib.Status.Tables.{IntList, Stat, cells, entries, name_index_from}
use apollolib.Status.Loader.{forbid_index_of, no_entries, read_forbids}
use apollolib.Status.Weight.{total}

name_index_from-lt {ℓ} :
    {A : Type ℓ} (f : A → Text) (l : List A) (name : Text) (i : ℕ) {a : ℕ}
    → name_index_from f l name i ≡ some a
    → a < i + length l
unfolding name_index_from
name_index_from-lt f [] name i h = cc
name_index_from-lt f (x ∷ rest) name i h = elim (Bool-cases (text_eq (f x) name)) [
  | inl hit ↦ ground arith
  | inr miss ↦ omega (arith, name_index_from-lt f rest name (i + 1) (rw miss at h))
]

-- A row under construction: cells that were not written hold 0, and a count above 0 needs an entry.
record IsFilled (names : List Text) (l : IntList ℕ) : Type 0 where
  cells_ok : (j : ℕ) → (l.cell j < length names) ⊎ (l.cell j ≡ 0)
  needs : 0 < l.num → 0 < length names

read_forbids-IsFilled :
    (names : List Text) (n : ℕ) (ws : List Text) (l : IntList ℕ)
    → IsFilled names l
    → IsFilled names (read_forbids names n ws l)
unfolding read_forbids
read_forbids-IsFilled names n [] l v = v
read_forbids-IsFilled names n (w ∷ rest) l v = elim (Option-cases (forbid_index_of names w)) [
  | inl e ↦ rw (e, read_forbids) (read_forbids-IsFilled names (n + 1) rest l v)
  | inr (a, e) ↦
      let small : a < length names =
        omega (arith, name_index_from-lt (λ (s : Text). s) names w 0 e) in
      rw (e, read_forbids)
        (read_forbids-IsFilled names (n + 1) rest _
          (record { cells_ok = λ j. ground (arith, v.cells_ok j); needs = λ _. omega arith }))
]

cells-lt :
    (c : Array ℕ) (bound i n : ℕ)
    → ((j : ℕ) → (c j < bound) ⊎ (c j ≡ 0))
    → 0 < bound
    → All (λ g. g < bound) (cells c i n)
unfolding cells
cells-lt c bound i zero ok pos = tt
cells-lt c bound i (suc n) ok pos = (omega (arith, ok i), cells-lt c bound (i + 1) n ok pos)

entries-lt :
    (names : List Text) (l : IntList ℕ) → IsFilled names l → All (λ g. g < length names) (entries l)
unfolding cells
entries-lt names l v = elim (Bool-cases (l.num == 0)) [
  | inl empty ↦ let e : l.num ≡ 0 = ground arith in rw e tt
  | inr some_entry ↦ cells-lt l.cell (length names) 0 l.num v.cells_ok (v.needs (ground arith))
]

pub read_forbids-lt :
    (names ws : List Text)
    → All (λ g. g < length names) (entries (read_forbids names 0 ws (no_entries 0)))
read_forbids-lt names ws = entries-lt names _ (
    read_forbids-IsFilled names 0 ws (no_entries 0)
      (record { cells_ok = λ j. inr refl; needs = λ h. absurd (omega (arith, h)) }))

count-cells : (f : ℕ) (c : Array ℕ) (i n : ℕ) → count f (cells c i n) ≤ n
unfolding count cells
count-cells f c i zero = omega arith
count-cells f c i (suc n) = ground (arith, count-cells f c (i + 1) n)

-- Lists of at most 32 entries name an entry 32 times a state at most.
pub total-le :
    (l : List Stat) (f : ℕ) → All (λ s. s.forbid_list.num ≤ 32) l → total l f ≤ 32 * length l
unfolding total
total-le [] f h = omega arith
total-le (s ∷ rest) f h =
    omega (arith, h.0, total-le rest f h.1, count-cells f s.forbid_list.cell 0 s.forbid_list.num)
