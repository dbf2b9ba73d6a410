-- ===== src/Status/Steps.antt =====
-- `on_status_set` and `on_status_clear` as changes of the counters (attribute/stat_machine.cpp).
use apollolib.Base.{
  ℕ, ◌+◌, ◌-◌, ◌^◌, ◌≤◌, ◌<◌, ◌≡◌, refl, some, [], arith, get_elem?, All, All-get_elem?, set, Array,
  inl, inr, Option-cases,
}
use apollolib.Base.Bits.{digit, digit-lt, digit-add_pow}
use apollolib.Base.Words.{AreDisjoint, digit-add}
use apollolib.Status.Tables.{
  op_val, op_bit, Tables, forbid_num, main_stat_num, entries, get_op_type, get_state_index,
}
use apollolib.Status.Machine.{
  Machine, change_forbids_values, enter_state, leave_state, on_status_set, on_status_clear,
}
use apollolib.Status.Loop.{Known, each_bit_rule}
use apollolib.Status.Weight.{
  weight, share, total, IsDigit, IsDistinct, find-IsRow, share_unknown, weight-le-total,
  weight-set_bit,
}
use apollolib.Status.Counting.{forbid_buf-inc_forbids, forbid_buf-dec_forbids}

-- What the loader has to ensure of the tables.
pub record IsWellFormed (t : Tables) : Type 0 where
  -- each state has its own field and value
  pub distinct : IsDistinct t.stats
  -- a state of a field of bits is one of 32 digits
  pub digits : All (IsDigit t) t.stats
  -- the lists name entries that exist
  pub listed : All (λ s. All (λ g. g < forbid_num t) (entries s.forbid_list)) t.stats
  -- all states together cannot overflow a counter
  pub small : (f : ℕ) → total t.stats f < 2 ^ 32
  pub in_range : All (λ s. (s.field < main_stat_num t) × (s.value < 2 ^ 32)) t.stats
  -- the value 0, with which a field by value begins, forbids nothing
  pub idle :
      All (λ s. get_op_type t s.field ≡ op_val → s.value ≡ 0 → entries s.forbid_list ≡ []) t.stats

module _ (t : Tables) (wf : IsWellFormed t) (statid : ℕ) where
  pub enter_share :
      (val i f : ℕ) (m : Machine)
      → get_state_index t statid val ≡ some i
      → m.forbid_buf f + share t.stats statid val f < 2 ^ 32
      → (enter_state t i m).forbid_buf f ≡ m.forbid_buf f + share t.stats statid val f
  unfolding enter_state change_forbids_values
  enter_share val i f m e h =
      let (s, w) = find-IsRow t.stats statid val 0 e in
      let row : get_elem? t.stats i ≡ some s =
        let first : i - 0 ≡ i = omega arith in rw first at w.row in
      ground (
        arith,
        w.whole wf.distinct f,
        forbid_buf-inc_forbids t (entries s.forbid_list) i f m
            (All-get_elem? _ t.stats i wf.listed row),
      )

  pub leave_share :
      (val i f : ℕ) (m : Machine)
      → get_state_index t statid val ≡ some i
      → share t.stats statid val f ≤ m.forbid_buf f
      → (leave_state t i m).forbid_buf f + share t.stats statid val f ≡ m.forbid_buf f
  unfolding leave_state change_forbids_values
  leave_share val i f m e h =
      let (s, w) = find-IsRow t.stats statid val 0 e in
      let row : get_elem? t.stats i ≡ some s =
        let first : i - 0 ≡ i = omega arith in rw first at w.row in
      ground (
        arith,
        w.whole wf.distinct f,
        forbid_buf-dec_forbids t (entries s.forbid_list) i f m
            (All-get_elem? _ t.stats i wf.listed row),
      )

  -- A field by value: one state at most.
  pub on_status_set_val :
      (val f : ℕ) (m : Machine)
      → get_op_type t statid ≡ op_val
      → m.forbid_buf f + share t.stats statid val f < 2 ^ 32
      → (on_status_set t statid val m).forbid_buf f ≡ m.forbid_buf f + share t.stats statid val f
  unfolding on_status_set
  on_status_set_val val f m op h = elim (Option-cases (get_state_index t statid val)) [
    | inl e ↦ rw (op, e, on_status_set) (omega (arith, share_unknown t.stats statid val 0 f e))
    | inr (i, e) ↦ rw (op, e, on_status_set) (enter_share val i f m e h)
  ]

  pub on_status_clear_val :
      (val f : ℕ) (m : Machine)
      → get_op_type t statid ≡ op_val
      → share t.stats statid val f ≤ m.forbid_buf f
      → (on_status_clear t statid val m).forbid_buf f + share t.stats statid val f ≡ m.forbid_buf f
  unfolding on_status_clear
  on_status_clear_val val f m op h = elim (Option-cases (get_state_index t statid val)) [
    | inl e ↦ rw (op, e, on_status_clear) (omega (arith, share_unknown t.stats statid val 0 f e))
    | inr (i, e) ↦ rw (op, e, on_status_clear) (leave_share val i f m e h)
  ]

digit_split : (w k j : ℕ) → digit w k ≡ 0 → digit w j ≤ digit (w + 2 ^ k) j
digit_split w k j clear = ground (arith, digit-add_pow w k j clear, digit-lt w j)

digit_top : (w k : ℕ) → digit w k ≡ 0 → digit (w + 2 ^ k) k ≡ 1
digit_top w k clear = ground (arith, digit-add_pow w k k clear)

-- A digit moves from the one word to the other.
disjoint_move :
    (y w k : ℕ)
    → digit w k ≡ 0
    → AreDisjoint y (w + 2 ^ k)
    → (digit y k ≡ 0) × AreDisjoint (y + 2 ^ k) w
disjoint_move y w k clear d =
    let free : digit y k ≡ 0 = omega (arith, d k, digit_top w k clear) in
    (
      free,
      λ j. ground (arith, d j, digit_split w k j clear, digit-add_pow y k j free, digit-lt w j),
    )

-- `Holds t b m`: the counters are what the field values `b` ask for.
abbrev pub Holds : Tables → Array ℕ → Machine → Type 0
Holds t b m = (f : ℕ) → m.forbid_buf f ≡ weight t t.stats b f

module _ (t : Tables) (wf : IsWellFormed t) (statid : ℕ) (op : get_op_type t statid ≡ op_bit)
    (b : Array ℕ) where
  -- One digit more, or one less.
  enter_digit :
      (y k i : ℕ) (m : Machine)
      → digit y k ≡ 0
      → get_state_index t statid (2 ^ k) ≡ some i
      → Holds t (set b statid y) m
      → Holds t (set b statid (y + 2 ^ k)) (enter_state t i m)
  enter_digit y k i m clear e holds f = omega (
    arith,
    holds f,
    weight-set_bit t b statid k y f op clear t.stats wf.digits,
    weight-le-total t t.stats (set b statid (y + 2 ^ k)) f,
    wf.small f,
    enter_share t wf statid (2 ^ k) i f m e,
  )

  leave_digit :
      (y k i : ℕ) (m : Machine)
      → digit y k ≡ 0
      → get_state_index t statid (2 ^ k) ≡ some i
      → Holds t (set b statid (y + 2 ^ k)) m
      → Holds t (set b statid y) (leave_state t i m)
  leave_digit y k i m clear e holds f = omega (
    arith,
    holds f,
    weight-set_bit t b statid k y f op clear t.stats wf.digits,
    leave_share t wf statid (2 ^ k) i f m e,
  )

  abbrev Entered : ℕ → ℕ → Machine → Type 0
  Entered goal w m = (y : ℕ) × (y + w ≡ goal) × AreDisjoint y w × Holds t (set b statid y) m

  enter_round :
      (goal w k i : ℕ) (m : Machine)
      → digit w k ≡ 0
      → get_state_index t statid (2 ^ k) ≡ some i
      → Entered goal (w + 2 ^ k) m
      → Entered goal w (enter_state t i m)
  enter_round goal w k i m clear e (y, sum, d, holds) =
      let (free, d') = disjoint_move y w k clear d in
      (y + 2 ^ k, omega arith, d', enter_digit y k i m free e holds)

  -- The loop of `on_status_set` adds the digits of `v` to the field.
  pub on_status_set_bits :
      (x v : ℕ) (m : Machine)
      → AreDisjoint x v
      → Known t statid v
      → Holds t (set b statid x) m
      → Holds t (set b statid (x + v)) (on_status_set t statid v m)
  unfolding on_status_set
  on_status_set_bits x v m d known holds =
      let (y, sum, _, entered) =
        each_bit_rule t statid (λ _ i. enter_state t i) (Entered (x + v))
          (λ w k i s. enter_round (x + v) w k i s) v v m (omega arith) known (x, refl, d, holds) in
      let e : x + v ≡ y = omega arith in rw (op, on_status_set) (rw e entered)

  abbrev Remaining : ℕ → ℕ → Machine → Type 0
  Remaining z w m = AreDisjoint z w × Holds t (set b statid (z + w)) m

  leave_round :
      (z w k i : ℕ) (m : Machine)
      → digit w k ≡ 0
      → get_state_index t statid (2 ^ k) ≡ some i
      → Remaining z (w + 2 ^ k) m
      → Remaining z w (leave_state t i m)
  leave_round z w k i m clear e (d, holds) =
      let d' : AreDisjoint z w = λ j. omega (arith, d j, digit_split w k j clear) in
      let free : digit (z + w) k ≡ 0 =
        omega (arith, digit-add z w k d', d k, digit_top w k clear) in
      let sum : z + (w + 2 ^ k) ≡ z + w + 2 ^ k = omega arith in
      (d', leave_digit (z + w) k i m free e (rw sum at holds))

  -- The loop of `on_status_clear` takes them away.
  pub on_status_clear_bits :
      (z v : ℕ) (m : Machine)
      → AreDisjoint z v
      → Known t statid v
      → Holds t (set b statid (z + v)) m
      → Holds t (set b statid z) (on_status_clear t statid v m)
  unfolding on_status_clear
  on_status_clear_bits z v m d known holds =
      let (_, left_over) =
        each_bit_rule t statid (λ _ i. leave_state t i) (Remaining z)
          (λ w k i s. leave_round z w k i s) v v m (omega arith) known (d, holds) in
      let e : z + 0 ≡ z = omega arith in rw (op, on_status_clear) (rw e at left_over)
