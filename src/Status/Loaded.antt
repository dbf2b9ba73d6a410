-- ===== src/Status/Loaded.antt =====
-- The tables that `StatMachine::load` returns (attribute/stat_data.cpp).
use apollolib.Base.{
  ℕ, suc, ◌+◌, ◌-◌, ◌^◌, ◌≤◌, ◌<◌, ◌≡◌, refl, ap, subst, ◌∙◌, true, false, not, ◌&&◌, ◌||◌, Option,
  none, some, List, [], ◌∷◌, arith, ◌==◌, if◌then◌else◌, ltb, length, get_elem?, All, ◌⊎◌, inl, inr,
  Bool-cases, Option-cases,
}
use mathlib.Core.Option.{some-injective}
use native.Mathlib.Nat.{pow-le-pow_right}
use apollolib.Base.Text.{Text, text_eq, strncpy}
use apollolib.Status.Tables.{
  OpType, op_val, op_bit, IntList, Stat, MainStat, Tables, cells, entries, get_op_type,
}
use apollolib.Status.Loader.{
  ForbidRow, StatRow, OperateRow, stat_name_size, text_to_string_array, forbids_of, stat_value,
  is_val, add_row, load_stat_rows, load_stat_info, load_forbid_names, load,
}
use apollolib.Status.Weight.{IsDigit}
use apollolib.Status.Entries.{read_forbids-lt, total-le}
use apollolib.Status.Rows.{kind, IsRead, IsLoaded, IsLoaded-same, IsLoaded-new, All-map}
use apollolib.Status.Steps.{IsWellFormed}

is_val_of : (op : OpType) → is_val op ≡ false → op ≡ op_val → ⊥
is_val_of op_val h e = cc
is_val_of op_bit h e = cc

cells_none : (l : IntList ℕ) → l.num ≡ 0 → entries l ≡ []
unfolding cells
cells_none l e = rw e refl

no_forbids :
    (op : OpType) (l : IntList ℕ)
    → (not (l.num == 0) && is_val op) ≡ false
    → op ≡ op_val
    → entries l ≡ []
no_forbids op_val l h e = cells_none l (ground arith)
no_forbids op_bit l h e = cc

abbrev Loads : List Text → ℕ → OpType → ℕ → Option (List MainStat × List Stat) → Type 0
Loads names fields op sub none = Unit
Loads names fields op sub (some (mains, stats)) = IsLoaded names fields op sub mains stats

module _ (str_end : Text → Text × Text) (names : List Text) where
  abbrev stat_of : StatRow → ℕ → OpType → ℕ → Stat
  stat_of r fields op sub = record {
    name = strncpy stat_name_size r.subname;
    field = fields - 1;
    value = stat_value op sub;
    need_counter = r.iscount;
    forbid_list = forbids_of str_end names r;
  }

  listed_in : (r : StatRow) → All (λ g. g < length names) (entries (forbids_of str_end names r))
  listed_in r = read_forbids-lt names (text_to_string_array str_end r.forbid_text)

  new_row :
      (r : StatRow) (fields : ℕ) (op : OpType) (sub : ℕ) (main : MainStat)
      (rest : Option (List MainStat × List Stat))
      → (main.op_type ≡ op_val → entries (forbids_of str_end names r) ≡ [])
      → Loads names (fields + 1) main.op_type 1 rest
      → Loads names fields op sub (add_row true main (stat_of r (fields + 1) main.op_type 0) rest)
  new_row r fields op sub main none idle h = tt
  new_row r fields op sub main (some (mains, stats)) idle h =
      IsLoaded-new names fields op sub main mains (stat_of r (fields + 1) main.op_type 0) stats
        (omega arith) refl idle (listed_in r) h

  same_row :
      (r : StatRow) (fields : ℕ) (op : OpType) (sub : ℕ) (main : MainStat)
      (rest : Option (List MainStat × List Stat))
      → 0 < fields
      → 0 < sub
      → Loads names fields op (sub + 1) rest
      → Loads names fields op sub (add_row false main (stat_of r fields op sub) rest)
  same_row r fields op sub main none f p h = tt
  same_row r fields op sub main (some (mains, stats)) f p h =
      IsLoaded-same names fields op sub mains (stat_of r fields op sub) stats (omega arith) refl p
        (listed_in r) h

  rows-Loads :
      (rows : List StatRow) (fields : ℕ) (last : Text) (op : OpType) (sub : ℕ)
      → (fields ≡ 0) ⊎ (0 < sub)
      → Loads names fields op sub (load_stat_rows str_end names rows fields last op sub)
  unfolding load_stat_rows
  rows-Loads [] fields last op sub start = (tt, tt)
  rows-Loads (r ∷ rows) fields last op sub start =
      elim (Bool-cases (fields == 0 || not (text_eq last r.stname))) [
        | inl new ↦
            let main : MainStat = record {
              name = strncpy stat_name_size r.stname;
              op_type = if r.mutex then op_bit else op_val;
            } in
            elim (Bool-cases (not ((forbids_of str_end names r).num == 0) && is_val main.op_type)) [
              | inl refused ↦ rw (new, refused, load_stat_rows) tt
              | inr taken ↦
                  rw (new, taken, load_stat_rows)
                    (new_row r fields op sub main _
                      (no_forbids main.op_type (forbids_of str_end names r) taken)
                      (rows-Loads rows (fields + 1) r.stname main.op_type 1 (inr (omega arith))))
            ]
        | inr same ↦
            rw (same, load_stat_rows)
              (same_row r fields op sub
                (record { name = strncpy stat_name_size r.stname; op_type = op }) _ (ground arith)
                (ground arith) (rows-Loads rows fields last op (sub + 1) (inr (omega arith))))
      ]

-- The capacities of the arrays of the program, which the readers do not check.
pub record IsFitting (t : Tables) : Type 0 where
  pub states : length t.stats ≤ 64
  pub lists : All (λ s. s.forbid_list.num ≤ 32) t.stats
  pub values : All (λ s. s.value < 2 ^ 32) t.stats

kind_of_table : (t : Tables) (f : ℕ) → kind 0 op_val t.main_stats f ≡ get_op_type t f
unfolding get_op_type
kind_of_table t f =
    let e : f - 0 ≡ f = omega arith in
    let none_yet : (suc f == 0) ≡ false = ground arith in
    rw (none_yet, e) (elim (get_elem? t.main_stats f) [ some m ↦ refl | none ↦ refl ])

pow_bound : (k : ℕ) → 2 ^ k < 2 ^ 32 → k < 32
pow_bound k h = elim (Bool-cases (ltb k 32)) [
  | inl less ↦ ground arith
  | inr more ↦
      let le : 32 ≤ k = ground arith in
      let large : 2 ^ 32 ≤ 2 ^ k = pow-le-pow_right (omega arith) le in
      absurd (omega (arith, large, h))
]

All-map2 :
    {P Q R : Stat → Type 0}
    → ((s : Stat) → P s → Q s → R s)
    → (l : List Stat) → All P l
    → All Q l
    → All R l
All-map2 f [] h g = tt
All-map2 f (s ∷ rest) h g = (f s h.0 g.0, All-map2 f rest h.1 g.1)

module _ (t : Tables) (s : Stat) (r : IsRead t.forbid_names 0 op_val 0 t.main_stats s) where
  value_read : s.value ≡ stat_value (get_op_type t s.field) r.own
  value_read = r.value_of ∙ ap (λ o. stat_value o r.own) (kind_of_table t s.field)

  read-IsDigit : s.value < 2 ^ 32 → IsDigit t s
  unfolding stat_value
  read-IsDigit small op =
      let e : s.value ≡ 2 ^ r.own = value_read ∙ ap (λ o. stat_value o r.own) op in
      (r.own, e, pow_bound r.own (omega arith))

  read-idle : get_op_type t s.field ≡ op_val → s.value ≡ 0 → entries s.forbid_list ≡ []
  unfolding stat_value
  read-idle op z =
      let e : s.value ≡ r.own = value_read ∙ ap (λ o. stat_value o r.own) op in
      r.idle (kind_of_table t s.field ∙ op) (omega arith)

IsLoaded-IsWellFormed :
    (t : Tables)
    → IsLoaded t.forbid_names 0 op_val 0 t.main_stats t.stats
    → IsFitting t
    → IsWellFormed t
IsLoaded-IsWellFormed t (reads, distinct) fits = record {
  distinct = distinct;
  digits = All-map2 (read-IsDigit t) t.stats reads fits.values;
  listed = All-map (λ s r. r.listed) t.stats reads;
  small = λ f. omega (arith, total-le t.stats f fits.lists, fits.states);
  in_range = All-map2 (λ s r v. (omega (arith, r.inside), v)) t.stats reads fits.values;
  idle = All-map (read-idle t) t.stats reads;
}

-- When `load` succeeds and its tables fit in the arrays of the program, they are well formed: no
-- two states share field and value, a state of a field of bits is one of 32 digits, forbid lists
-- name entries that exist, each state lies in a field that exists, the value 0 of a field by
-- value forbids nothing, and all states together cannot overflow a 32-bit counter.
pub load-IsWellFormed :
    (str_end : Text → Text × Text) (forbid_rows : List ForbidRow) (stat_rows : List StatRow)
    (operate_rows : List OperateRow) (t : Tables)
    → load str_end forbid_rows stat_rows operate_rows ≡ some t
    → IsFitting t
    → IsWellFormed t
unfolding load load_stat_info
load-IsWellFormed str_end forbid_rows stat_rows operate_rows t h fits =
    elim (Option-cases (load_forbid_names forbid_rows)) [
      | inl e ↦ let h' = rw (e, load) at h in cc
      | inr (names, e) ↦
          elim (Option-cases (load_stat_rows str_end names stat_rows 0 [] op_val 0)) [
            | inl e2 ↦ let h' = rw (e, e2, load, load_stat_info) at h in cc
            | inr ((mains, stats), e2) ↦
                let made : Loads names 0 op_val 0 (some (mains, stats)) =
                  rw e2 at (rows-Loads str_end names stat_rows 0 [] op_val 0 (inl refl)) in
                subst (λ t. IsFitting t → IsWellFormed t)
                  (some-injective _ t (rw (e, e2, load, load_stat_info) at h))
                  (IsLoaded-IsWellFormed _ made) fits
          ]
    ]
