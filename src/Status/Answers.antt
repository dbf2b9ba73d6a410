-- ===== src/Status/Answers.antt =====
-- What the questions of `StatMachine` answer, in terms of the active states
-- (attribute/stat_machine.cpp).
use apollolib.Base.{
  ℕ, zero, suc, ◌<◌, ◌≡◌, refl, true, false, not, Option, none, some, List, [], ◌∷◌, arith, ltb,
  get_elem?, count, Array, ◌↔◌, inl, inr, Bool-cases,
}
use mathlib.Core.Option.{some-injective}
use apollolib.Status.Tables.{Stat, Operate, Tables, cells, forbid_num, entries, get_op_type}
use apollolib.Status.Machine.{Machine}
use apollolib.Status.Forbids.{check_forbid, check_forbids, check_operate}
use apollolib.Status.Weight.{weight, is_active}
use apollolib.Status.Invariant.{Inv}

-- State `i` is active and its list names entry `f`.
pub record IsForbidder (t : Tables) (b : Array ℕ) (l : List Stat) (f i : ℕ) (s : Stat)
    : Type 0 where
  pub row : get_elem? l i ≡ some s
  pub active : is_active (get_op_type t s.field) s (b s.field) ≡ true
  pub names : 0 < count f (entries s.forbid_list)

module _ (t : Tables) (b : Array ℕ) (f : ℕ) where
  IsForbidder-of_weight :
      (l : List Stat) → 0 < weight t l b f → (i : ℕ) × (s : Stat) × IsForbidder t b l f i s
  unfolding weight
  IsForbidder-of_weight [] h = absurd (omega arith)
  IsForbidder-of_weight (s ∷ rest) h =
      elim (Bool-cases (is_active (get_op_type t s.field) s (b s.field))) [
        | inr idle ↦
            let (i, r, w) = IsForbidder-of_weight rest (ground arith) in
            (suc i, r, record { row = w.row; active = w.active; names = w.names })
        | inl active ↦ elim (Bool-cases (ltb 0 (count f (entries s.forbid_list)))) [
          | inl named ↦ (0, s, record { row = refl; active = active; names = ground arith })
          | inr unnamed ↦
              let (i, r, w) = IsForbidder-of_weight rest (ground arith) in
              (suc i, r, record { row = w.row; active = w.active; names = w.names })
        ]
      ]

  weight_of_forbidder :
      (l : List Stat) (i : ℕ) (s : Stat) → IsForbidder t b l f i s → 0 < weight t l b f
  unfolding weight
  weight_of_forbidder [] i s w = cc (w.row)
  weight_of_forbidder (r ∷ rest) zero s w =
      let same : r ≡ s = some-injective r s w.row in
      let active : is_active (get_op_type t r.field) r (b r.field) ≡ true = rw same w.active in
      let names : 0 < count f (entries r.forbid_list) = rw same w.names in ground arith
  weight_of_forbidder (r ∷ rest) (suc i) s w = ground (
    arith,
    weight_of_forbidder rest i s (record { row = w.row; active = w.active; names = w.names }),
  )

-- Some active state forbids entry `f`.
abbrev pub IsForbidden : Tables → Machine → ℕ → Type 0
IsForbidden t m f = (i : ℕ) × (s : Stat) × IsForbidder t m.stbuf t.stats f i s

-- An entry of a check list that some active state forbids.
abbrev pub IsBlocked : Tables → Machine → List (Option ℕ) → Type 0
IsBlocked t m l =
    (j p : ℕ) × (get_elem? l j ≡ some (some p)) × (p < forbid_num t) × IsForbidden t m p

module _ (t : Tables) (m : Machine) (v : Inv t m) where
  -- On a machine that satisfies the invariant, `CheckForbid` is true of an entry that exists
  -- exactly when some active state names it.
  pub check_forbid_iff :
      (f : ℕ) → f < forbid_num t → (check_forbid t f m ≡ true) ↔ IsForbidden t m f
  unfolding check_forbid
  check_forbid_iff f h = (
    λ e. IsForbidder-of_weight t m.stbuf f t.stats (ground (arith, v.counted f)),
    λ (i, s, w). ground (arith, v.counted f, weight_of_forbidder t m.stbuf f t.stats i s w),
  )

  IsBlocked-of_check : (l : List (Option ℕ)) → check_forbids t l m ≡ true → IsBlocked t m l
  unfolding check_forbids
  IsBlocked-of_check [] e = cc
  IsBlocked-of_check (none ∷ rest) e =
      let (j, p, at, lt, w) = IsBlocked-of_check rest e in (suc j, p, at, lt, w)
  IsBlocked-of_check (some p ∷ rest) e = elim (Bool-cases (check_forbid t p m)) [
    | inl here ↦ (
      0,
      p,
      refl,
      unfold check_forbid in ground arith,
      (check_forbid_iff p (unfold check_forbid in ground arith)).0 here,
    )
    | inr later ↦
        let (j, q, at, lt, w) = IsBlocked-of_check rest (unfold check_forbid in ground arith) in
        (suc j, q, at, lt, w)
  ]

  check_of_blocked : (l : List (Option ℕ)) → IsBlocked t m l → check_forbids t l m ≡ true
  unfolding check_forbids
  check_of_blocked [] (j, p, at, lt, w) = cc (at)
  check_of_blocked (none ∷ rest) (zero, p, at, lt, w) = cc (at)
  check_of_blocked (none ∷ rest) (suc j, p, at, lt, w) = check_of_blocked rest (j, p, at, lt, w)
  check_of_blocked (some q ∷ rest) (zero, p, at, lt, w) =
      let same : q ≡ p = some-injective q p (some-injective (some q) (some p) at) in
      let refused : check_forbid t p m ≡ true = (check_forbid_iff p lt).1 w in
      unfold check_forbid in ground arith
  check_of_blocked (some q ∷ rest) (suc j, p, at, lt, w) =
      ground (arith, check_of_blocked rest (j, p, at, lt, w))

  check_operate_lem :
      (op : ℕ) (o : Operate)
      → get_elem? t.operates op ≡ some o
      → check_operate t op m ≡ not (check_forbids t (entries o.check_list) m)
  unfolding check_operate check_forbids cells
  check_operate_lem op o e = elim (Bool-cases (ltb 0 o.check_list.num)) [
    | inl some_entries ↦ rw (e, check_operate) (rw some_entries)
    | inr no_entries ↦
        let empty : o.check_list.num ≡ 0 = ground arith in
        rw (e, check_operate) (rw (no_entries, empty))
  ]

  -- On a machine that satisfies the invariant, `CheckOperate` refuses an operation that exists
  -- exactly when some active state forbids an entry of its check list.
  pub check_operate_iff :
      (op : ℕ) (o : Operate)
      → get_elem? t.operates op ≡ some o
      → (check_operate t op m ≡ false) ↔ IsBlocked t m (entries o.check_list)
  check_operate_iff op o e = (
    λ h. IsBlocked-of_check (entries o.check_list) (ground (arith, check_operate_lem op o e)),
    λ blocked. rw (check_operate_lem op o e, check_of_blocked (entries o.check_list) blocked),
  )
