-- ===== src/Status/Weight.antt =====
-- How often the active states name a forbid entry: the value that `m_forbid_buf` has to hold.
use apollolib.Base.{
  ℕ, zero, suc, ◌+◌, ◌-◌, ◌*◌, ◌^◌, ◌≤◌, ◌<◌, ◌≡◌, refl, ap, Bool, false, not, none, some, List, [],
  ◌∷◌, arith, bit_and, ◌==◌, ◌&&◌, if◌then◌else◌, Array, set, get_elem?, count, All, All-get_elem?,
  Bool-cases, inl, inr,
}
use mathlib.Core.Option.{some-injective}
use native.Mathlib.Nat.{one-le-pow, pow-suc}
use apollolib.Base.Bits.{digit, digit-lt, digit-add_pow, bit_and_pow}
use apollolib.Status.Tables.{
  OpType, op_val, op_bit, Stat, Tables, entries, get_op_type, state_index_from,
}

-- `CheckStat` on the value of the state's own field.
unfoldable pub is_active : OpType → Stat → ℕ → Bool
is_active op_val s x = s.value == x
is_active op_bit s x = not (bit_and s.value x == 0)

module _ (t : Tables) where
  unfoldable pub weight : List Stat → Array ℕ → ℕ → ℕ
  weight [] b f = 0
  weight (s ∷ rest) b f =
      (if is_active (get_op_type t s.field) s (b s.field)
        then count f (entries s.forbid_list)
        else 0)
      + weight rest b f

-- The share of the states with one value of one field.
unfoldable pub share : List Stat → ℕ → ℕ → ℕ → ℕ
share [] statid val f = 0
share (s ∷ rest) statid val f =
    (if s.field == statid && s.value == val then count f (entries s.forbid_list) else 0)
    + share rest statid val f

-- The share of all states.
unfoldable pub total : List Stat → ℕ → ℕ
total [] f = 0
total (s ∷ rest) f = count f (entries s.forbid_list) + total rest f

pub weight-le-total :
    (t : Tables) (l : List Stat) (b : Array ℕ) (f : ℕ) → weight t l b f ≤ total l f
unfolding weight total
weight-le-total t [] b f = omega arith
weight-le-total t (s ∷ rest) b f = ground (arith, weight-le-total t rest b f)

pub weight-set_val :
    (t : Tables) (l : List Stat) (b : Array ℕ) (statid x y f : ℕ)
    → get_op_type t statid ≡ op_val
    → weight t l (set b statid y) f + share l statid x f
      ≡ weight t l (set b statid x) f + share l statid y f
unfolding weight share is_active
weight-set_val t [] b statid x y f v = refl
weight-set_val t (s ∷ rest) b statid x y f v = elim (Bool-cases (s.field == statid)) [
  | inl same ↦
      let e : s.field ≡ statid = ground arith in
      let q : get_op_type t s.field ≡ op_val = rw e v in
      ground (arith, weight-set_val t rest b statid x y f v)
  | inr other ↦ ground (arith, weight-set_val t rest b statid x y f v)
]

pub share-le-weight :
    (t : Tables) (l : List Stat) (b : Array ℕ) (statid x f : ℕ)
    → get_op_type t statid ≡ op_val
    → share l statid x f ≤ weight t l (set b statid x) f
unfolding share weight is_active
share-le-weight t [] b statid x f v = omega arith
share-le-weight t (s ∷ rest) b statid x f v = elim (Bool-cases (s.field == statid)) [
  | inl same ↦
      let e : s.field ≡ statid = ground arith in
      let q : get_op_type t s.field ≡ op_val = rw e v in
      ground (arith, share-le-weight t rest b statid x f v)
  | inr other ↦ ground (arith, share-le-weight t rest b statid x f v)
]

pub pow_inj : (j k : ℕ) → 2 ^ j ≡ 2 ^ k → j ≡ k
pow_inj zero zero h = refl
pow_inj zero (suc k) h = absurd (omega (arith, pow-suc 2 k, one-le-pow k 2))
pow_inj (suc j) zero h = absurd (omega (arith, pow-suc 2 j, one-le-pow j 2))
pow_inj (suc j) (suc k) h = ap suc (pow_inj j k (omega (arith, pow-suc 2 j, pow-suc 2 k)))

-- A state of a field of bits has one digit.
abbrev pub IsDigit : Tables → Stat → Type 0
IsDigit t s = get_op_type t s.field ≡ op_bit → (k : ℕ) × (s.value ≡ 2 ^ k) × (k < 32)

test_digit : (d p : ℕ) → d < 2 → 0 < p → not (d * p == 0) ≡ (d == 1)
test_digit zero p h q = ground arith
test_digit (suc zero) p h q = ground arith
test_digit (suc (suc d)) p h q = absurd (omega arith)

active_digit : (s : Stat) (k x : ℕ) → s.value ≡ 2 ^ k → is_active op_bit s x ≡ (digit x k == 1)
unfolding is_active
active_digit s k x e =
    rw (e, bit_and_pow)
      (test_digit (digit x k) (2 ^ k) (digit-lt x k) (one-le-pow k 2 (omega arith)))

-- Setting the clear digit `k` activates the states whose value is that digit, and no others.
active_set_bit :
    (s : Stat) (j k x c : ℕ)
    → s.value ≡ 2 ^ j
    → digit x k ≡ 0
    → (if is_active op_bit s (x + 2 ^ k) then c else 0)
      ≡ (if is_active op_bit s x then c else 0) + (if s.value == 2 ^ k then c else 0)
active_set_bit s j k x c e clear =
    rw (active_digit s j (x + 2 ^ k) e, active_digit s j x e)
      (ground (arith, digit-add_pow x k j clear, pow_inj j k, digit-lt x j, ap (λ (n : ℕ). 2 ^ n)))

module _ (t : Tables) (b : Array ℕ) (statid k x f : ℕ) (op : get_op_type t statid ≡ op_bit)
    (clear : digit x k ≡ 0) where
  pub weight-set_bit :
      (l : List Stat)
      → All (IsDigit t) l
      → weight t l (set b statid (x + 2 ^ k)) f
        ≡ weight t l (set b statid x) f + share l statid (2 ^ k) f
  unfolding weight share
  weight-set_bit [] d = refl
  weight-set_bit (s ∷ rest) d = elim (Bool-cases (s.field == statid)) [
    | inl same ↦
        let e : s.field ≡ statid = ground arith in
        let q : get_op_type t s.field ≡ op_bit = rw e op in
        let (j, v, _) = d.0 q in
        ground (
          arith,
          weight-set_bit rest d.1,
          active_set_bit s j k x (count f (entries s.forbid_list)) v clear,
        )
    | inr other ↦ ground (arith, weight-set_bit rest d.1)
  ]

abbrev pub has_key : ℕ → ℕ → Stat → Bool
has_key statid val s = s.field == statid && s.value == val

-- No two states have the same field and value.
abbrev pub IsDistinct : List Stat → Type 0
IsDistinct [] = Unit
IsDistinct (s ∷ rest) = All (λ r. has_key s.field s.value r ≡ false) rest × IsDistinct rest

share_absent :
    (l : List Stat) (statid val f : ℕ)
    → All (λ r. has_key statid val r ≡ false) l
    → share l statid val f ≡ 0
unfolding share
share_absent [] statid val f h = refl
share_absent (s ∷ rest) statid val f h = ground (arith, share_absent rest statid val f h.1)

pub share_unknown :
    (l : List Stat) (statid val n f : ℕ)
    → state_index_from l statid val n ≡ none
    → share l statid val f ≡ 0
unfolding share state_index_from
share_unknown [] statid val n f h = refl
share_unknown (s ∷ rest) statid val n f h = ground (arith, share_unknown rest statid val (n + 1) f)

-- The row that `get_state_index` finds, and its share.
pub record IsRow (l : List Stat) (statid val n i : ℕ) (r : Stat) : Type 0 where
  pub reached : n ≤ i
  pub row : get_elem? l (i - n) ≡ some r
  pub of_field : r.field ≡ statid
  pub of_value : r.value ≡ val
  pub whole : IsDistinct l → (f : ℕ) → share l statid val f ≡ count f (entries r.forbid_list)

IsRow-here :
    (s : Stat) (rest : List Stat) (statid val n i : ℕ)
    → s.field ≡ statid
    → s.value ≡ val
    → n ≡ i
    → IsRow (s ∷ rest) statid val n i s
unfolding share
IsRow-here s rest statid val n i of_field of_value here =
    let e : i - n ≡ 0 = omega arith in
    let absent : IsDistinct (s ∷ rest) → (f : ℕ) → share rest statid val f ≡ 0 =
      λ d f. rw (of_field, of_value) at (share_absent rest s.field s.value f d.0) in
    record {
      reached = omega arith;
      row = rw e;
      of_field = of_field;
      of_value = of_value;
      whole = λ d f. ground (arith, absent d f);
    }

IsRow-later :
    (s r : Stat) (rest : List Stat) (statid val n i : ℕ)
    → has_key statid val s ≡ false
    → IsRow rest statid val (n + 1) i r
    → IsRow (s ∷ rest) statid val n i r
unfolding share
IsRow-later s r rest statid val n i miss w = record {
  reached = omega arith;
  row = let e : i - n ≡ suc (i - (n + 1)) = omega (arith, w.reached) in rw e w.row;
  of_field = w.of_field;
  of_value = w.of_value;
  whole = λ d f. ground (arith, w.whole d.1 f);
}

pub find-IsRow :
    (l : List Stat) (statid val n : ℕ) {i : ℕ}
    → state_index_from l statid val n ≡ some i
    → (r : Stat) × IsRow l statid val n i r
unfolding state_index_from
find-IsRow [] statid val n h = cc
find-IsRow (s ∷ rest) statid val n {i} h = elim (Bool-cases (has_key statid val s)) [
  | inl hit ↦ (s, IsRow-here s rest statid val n i (ground arith) (ground arith) (ground arith))
  | inr miss ↦
      let (r, w) = find-IsRow rest statid val (n + 1) (rw miss at h) in
      (r, IsRow-later s r rest statid val n i miss w)
]

-- `get_state_index` finds each row of distinct states by its own field and value.
pub row_index :
    (l : List Stat) (i n : ℕ) {s : Stat}
    → IsDistinct l
    → get_elem? l i ≡ some s
    → state_index_from l s.field s.value n ≡ some (i + n)
unfolding state_index_from
row_index [] i n d e = cc
row_index (r ∷ rest) zero n {s} d e =
    let same : r ≡ s = some-injective r s e in rw (← same) (ground arith)
row_index (r ∷ rest) (suc i) n {s} d e =
    let other : has_key r.field r.value s ≡ false =
      All-get_elem? (λ x. has_key r.field r.value x ≡ false) rest i d.0 e in
    ground (arith, row_index rest i (n + 1) d.1 e)
