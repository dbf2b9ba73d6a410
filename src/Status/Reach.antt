-- ===== src/Status/Reach.antt =====
-- Every machine that the methods of `StatMachine` can produce satisfies the invariant.
use apollolib.Base.{
  ℕ, ◌+◌, ◌*◌, ◌^◌, ◌≡◌, refl, sym, ap, some, List, [], ◌∷◌, arith, ltb, get_elem?, count, All,
  All-get_elem?, ◌⊎◌, inl, inr, Bool-cases, Option-cases, bit_and,
}
use apollolib.Base.Text.{Text}
use apollolib.Base.Bits.{digit, digit-zero, bit_and_pow}
use apollolib.Base.Words.{digit_pow}
use apollolib.Status.Tables.{
  OpType, op_val, op_bit, Stat, Tables, main_stat_num, entries, get_op_type, get_state_index,
  get_index, get_main_index,
}
use apollolib.Status.Machine.{Machine, init}
use apollolib.Status.Calls.{
  set_stat, replace, clear_stat, set_by_index, clear_by_index, set_name, clear_name, clear_field,
}
use apollolib.Status.Loader.{ForbidRow, StatRow, OperateRow, load}
use apollolib.Status.Loaded.{IsFitting, load-IsWellFormed}
use apollolib.Status.Weight.{weight, is_active, IsDigit, row_index}
use apollolib.Status.Steps.{IsWellFormed}
use apollolib.Status.Invariant.{Inv, IsArgument, zero-IsArgument, assign_val-Inv, clear_val-Inv}
use apollolib.Status.BitInvariant.{set_bits-Inv, replace_bits-Inv, clear_bits-Inv}

op_cases : (o : OpType) → (o ≡ op_val) ⊎ (o ≡ op_bit)
op_cases op_val = inl refl
op_cases op_bit = inr refl

-- Nothing is forbidden at the start.
weight_start :
    (t : Tables) (l : List Stat) (f : ℕ)
    → All (IsDigit t) l
    → All (λ s. get_op_type t s.field ≡ op_val → s.value ≡ 0 → entries s.forbid_list ≡ []) l
    → weight t l (λ _. 0) f ≡ 0
unfolding weight is_active count
weight_start t [] f d h = refl
weight_start t (s ∷ rest) f d h = elim (op_cases (get_op_type t s.field)) [
  | inl op ↦ ground (arith, h.0 op, weight_start t rest f d.1 h.1)
  | inr op ↦
      let (k, e, _) = d.0 op in
      let idle : bit_and s.value 0 ≡ 0 =
        rw e (
          omega (arith, bit_and_pow k 0, digit-zero k, ap (λ (n : ℕ). n * 2 ^ k) (digit-zero k))) in
      ground (arith, weight_start t rest f d.1 h.1)
]

pub init-Inv : (t : Tables) → IsWellFormed t → Inv t init
unfolding init
init-Inv t wf = record {
  counted = λ f. sym (weight_start t t.stats f wf.digits wf.idle);
  known = λ statid op k on. absurd (omega (arith, on, digit-zero k));
  bounded = λ statid. omega arith;
}

module _ (t : Tables) (wf : IsWellFormed t) where
  module _ (statid val : ℕ) (m : Machine) (v : Inv t m) where
    -- On well-formed tables `SetStat` keeps the invariant (each forbid counter is the number of
    -- times that active states name its entry, fields of bits hold known states alone, values are
    -- 32-bit words), when its argument is a 32-bit word and, for a field of bits, made of known
    -- states.
    pub set_stat-Inv : IsArgument t statid val → Inv t (set_stat t statid val m).1
    unfolding set_stat
    set_stat-Inv arg = elim (Bool-cases (ltb statid (main_stat_num t))) [
      | inr outside ↦ rw outside v
      | inl inside ↦ elim (op_cases (get_op_type t statid)) [
        | inl op ↦ rw (inside, op, set_stat) (assign_val-Inv t statid wf val m op arg v)
        | inr op ↦ rw (inside, op, set_stat) (set_bits-Inv t wf statid op m v val arg)
      ]
    ]

    -- On well-formed tables `Replace` keeps the invariant for every argument that is a 32-bit
    -- word and, for a field of bits, made of known states: the counters follow the states that
    -- the new value adds and those it takes away.
    pub replace-Inv : IsArgument t statid val → Inv t (replace t statid val m).1
    unfolding replace
    replace-Inv arg = elim (Bool-cases (ltb statid (main_stat_num t))) [
      | inr outside ↦ rw outside v
      | inl inside ↦ elim (op_cases (get_op_type t statid)) [
        | inl op ↦ rw (inside, op, replace) (assign_val-Inv t statid wf val m op arg v)
        | inr op ↦ rw (inside, op, replace) (replace_bits-Inv t wf statid op m v val arg)
      ]
    ]

    -- On well-formed tables `ClearStat` keeps the invariant for every argument, unknown digits
    -- and states with a reference count above 1 included.
    pub clear_stat-Inv : Inv t (clear_stat t statid val m).1
    unfolding clear_stat
    clear_stat-Inv = elim (Bool-cases (ltb statid (main_stat_num t))) [
      | inr outside ↦ rw outside v
      | inl inside ↦ elim (op_cases (get_op_type t statid)) [
        | inl op ↦ rw (inside, op, clear_stat) (clear_val-Inv t statid wf val m op v)
        | inr op ↦ rw (inside, op, clear_stat) (clear_bits-Inv t wf statid op m v val)
      ]
    ]

  -- The field and value of a state are an argument for its field.
  pub row-IsArgument :
      (i : ℕ) {s : Stat} → get_elem? t.stats i ≡ some s → IsArgument t s.field s.value
  row-IsArgument i {s} e = record {
    word_size = (All-get_elem? _ t.stats i wf.in_range e).1;
    of_states = λ op j on.
        let (k, v, _) = All-get_elem? (IsDigit t) t.stats i wf.digits e op in
        let found : get_state_index t s.field s.value ≡ some (i + 0) =
          row_index t.stats i 0 wf.distinct e in
        let same : k ≡ j = ground (arith, ap (λ (x : ℕ). digit x j) v, digit_pow k j) in
        (i + 0, rw (← same, ← v) found);
  }

  module _ (m : Machine) (v : Inv t m) where
    set_by_index-Inv : (i : ℕ) → Inv t (set_by_index t i m).1
    unfolding set_by_index
    set_by_index-Inv i = elim (Option-cases (get_elem? t.stats i)) [
      | inl e ↦ rw (e, set_by_index) v
      | inr (s, e) ↦ rw (e, set_by_index) (set_stat-Inv s.field s.value m v (row-IsArgument i e))
    ]

    clear_by_index-Inv : (i : ℕ) → Inv t (clear_by_index t i m).1
    unfolding clear_by_index
    clear_by_index-Inv i = elim (Option-cases (get_elem? t.stats i)) [
      | inl e ↦ rw (e, clear_by_index) v
      | inr (s, e) ↦ rw (e, clear_by_index) (clear_stat-Inv s.field s.value m v)
    ]

    set_name-Inv : (name : Text) → Inv t (set_name t name m).1
    unfolding set_name
    set_name-Inv name = elim (Option-cases (get_index t name)) [
      | inl e ↦ rw (e, set_name) v
      | inr (i, e) ↦ rw (e, set_name) (set_by_index-Inv i)
    ]

    clear_name-Inv : (name : Text) → Inv t (clear_name t name m).1
    unfolding clear_name
    clear_name-Inv name = elim (Option-cases (get_index t name)) [
      | inl e ↦ rw (e, clear_name) v
      | inr (i, e) ↦ rw (e, clear_name) (clear_by_index-Inv i)
    ]

    clear_field-Inv : (name : Text) → Inv t (clear_field t name m).1
    unfolding clear_field
    clear_field-Inv name = elim (Option-cases (get_main_index t name)) [
      | inl e ↦ rw (e, clear_field) v
      | inr (i, e) ↦ rw (e, clear_field) (replace-Inv i 0 m v (zero-IsArgument t i))
    ]

-- The calls of a client that names states and fields.
pub data Call : Type 0 where
  sets clears clears_field : (name : Text) → Call
  sets_index clears_index : (i : ℕ) → Call

unfoldable pub step : Tables → Call → Machine → Machine
step t (sets name) m = (set_name t name m).1
step t (clears name) m = (clear_name t name m).1
step t (clears_field name) m = (clear_field t name m).1
step t (sets_index i) m = (set_by_index t i m).1
step t (clears_index i) m = (clear_by_index t i m).1

unfoldable pub run : Tables → List Call → Machine → Machine
unfolding step
run t [] m = m
run t (c ∷ rest) m = run t rest (step t c m)

step-Inv : (t : Tables) → IsWellFormed t → (c : Call) (m : Machine) → Inv t m → Inv t (step t c m)
unfolding step
step-Inv t wf (sets name) m v = set_name-Inv t wf m v name
step-Inv t wf (clears name) m v = clear_name-Inv t wf m v name
step-Inv t wf (clears_field name) m v = clear_field-Inv t wf m v name
step-Inv t wf (sets_index i) m v = set_by_index-Inv t wf m v i
step-Inv t wf (clears_index i) m v = clear_by_index-Inv t wf m v i

-- After any calls, from any machine that satisfies the invariant.
pub run-Inv :
    (t : Tables) → IsWellFormed t → (cs : List Call) (m : Machine) → Inv t m → Inv t (run t cs m)
unfolding run
run-Inv t wf [] m v = v
run-Inv t wf (c ∷ rest) m v = run-Inv t wf rest (step t c m) (step-Inv t wf c m v)

-- Let `load` succeed with tables that fit in the arrays of the program (at most 64 states, at
-- most 32 words in a forbid list, values below 2^32). Then after any sequence of sets and clears,
-- by name or by index, and of clears of a field, from the constructed machine, every forbid
-- counter is the number of times that the active states name its entry, every field of bits holds
-- known states alone, and every value is a 32-bit word.
pub load-run-Inv :
    (str_end : Text → Text × Text) (forbid_rows : List ForbidRow) (stat_rows : List StatRow)
    (operate_rows : List OperateRow) (t : Tables)
    → load str_end forbid_rows stat_rows operate_rows ≡ some t
    → IsFitting t
    → (cs : List Call) → Inv t (run t cs init)
load-run-Inv str_end forbid_rows stat_rows operate_rows t h fits cs =
    let wf = load-IsWellFormed str_end forbid_rows stat_rows operate_rows t h fits in
    run-Inv t wf cs init (init-Inv t wf)
