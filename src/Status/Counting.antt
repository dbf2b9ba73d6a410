-- ===== src/Status/Counting.antt =====
-- What the parts of `on_status_set` and `on_status_clear` do to the counters of `StatMachine`.
use apollolib.Base.{
  ℕ, ◌+◌, ◌-◌, ◌^◌, ◌≤◌, ◌<◌, ◌≡◌, refl, ◌∙◌, none, some, List, [], ◌∷◌, arith, ◌==◌, if◌then◌else◌,
  get_elem?, count, All, inl, inr, Option-cases,
}
use apollolib.Status.Tables.{
  op_val, op_bit, Tables, forbid_num, entries, get_op_type, get_state_index,
}
use apollolib.Status.Machine.{
  Machine, word, inc_forbid, dec_forbid, inc_forbids, dec_forbids, change_forbids_values,
  enter_state, leave_state, each_bit, on_status_set, on_status_clear,
}
use apollolib.Status.Loop.{each_bit_keeps}

module _ (t : Tables) where
  forbid_buf-inc_forbid :
      (g i f : ℕ) (m : Machine)
      → g < forbid_num t
      → (inc_forbid t g i m).forbid_buf f
        ≡ (if g == f then word (m.forbid_buf f + 1) else m.forbid_buf f)
  unfolding inc_forbid
  forbid_buf-inc_forbid g i f m h = ground arith

  forbid_buf-dec_forbid :
      (g i f : ℕ) (m : Machine)
      → g < forbid_num t
      → (dec_forbid t g i m).forbid_buf f ≡ (if g == f then m.forbid_buf f - 1 else m.forbid_buf f)
  unfolding dec_forbid
  forbid_buf-dec_forbid g i f m h = ground arith

  -- Without an overflow, each entry of the list adds one to its counter.
  pub forbid_buf-inc_forbids :
      (l : List ℕ) (i f : ℕ) (m : Machine)
      → All (λ g. g < forbid_num t) l
      → m.forbid_buf f + count f l < 2 ^ 32
      → (inc_forbids t l i m).forbid_buf f ≡ m.forbid_buf f + count f l
  unfolding inc_forbids count
  forbid_buf-inc_forbids [] i f m a h = omega arith
  forbid_buf-inc_forbids (g ∷ rest) i f m a h = ground (
    arith,
    forbid_buf-inc_forbid g i f m a.0,
    forbid_buf-inc_forbids rest i f (inc_forbid t g i m) a.1,
  )

  pub forbid_buf-dec_forbids :
      (l : List ℕ) (i f : ℕ) (m : Machine)
      → All (λ g. g < forbid_num t) l
      → count f l ≤ m.forbid_buf f
      → (dec_forbids t l i m).forbid_buf f + count f l ≡ m.forbid_buf f
  unfolding dec_forbids count
  forbid_buf-dec_forbids [] i f m a h = omega arith
  forbid_buf-dec_forbids (g ∷ rest) i f m a h = ground (
    arith,
    forbid_buf-dec_forbid g i f m a.0,
    forbid_buf-dec_forbids rest i f (dec_forbid t g i m) a.1,
  )

  -- Neither touches the values of the fields.
  stbuf-inc_forbids : (l : List ℕ) (i : ℕ) (m : Machine) → (inc_forbids t l i m).stbuf ≡ m.stbuf
  unfolding inc_forbids inc_forbid
  stbuf-inc_forbids [] i m = refl
  stbuf-inc_forbids (g ∷ rest) i m = ground (arith, stbuf-inc_forbids rest i (inc_forbid t g i m))

  stbuf-dec_forbids : (l : List ℕ) (i : ℕ) (m : Machine) → (dec_forbids t l i m).stbuf ≡ m.stbuf
  unfolding dec_forbids dec_forbid
  stbuf-dec_forbids [] i m = refl
  stbuf-dec_forbids (g ∷ rest) i m = ground (arith, stbuf-dec_forbids rest i (dec_forbid t g i m))

  refcount-inc_forbids :
      (l : List ℕ) (i : ℕ) (m : Machine) → (inc_forbids t l i m).refcount ≡ m.refcount
  unfolding inc_forbids inc_forbid
  refcount-inc_forbids [] i m = refl
  refcount-inc_forbids (g ∷ rest) i m =
      ground (arith, refcount-inc_forbids rest i (inc_forbid t g i m))

  refcount-dec_forbids :
      (l : List ℕ) (i : ℕ) (m : Machine) → (dec_forbids t l i m).refcount ≡ m.refcount
  unfolding dec_forbids dec_forbid
  refcount-dec_forbids [] i m = refl
  refcount-dec_forbids (g ∷ rest) i m =
      ground (arith, refcount-dec_forbids rest i (dec_forbid t g i m))

  pub stbuf-enter_state : (i : ℕ) (m : Machine) → (enter_state t i m).stbuf ≡ m.stbuf
  unfolding enter_state change_forbids_values
  stbuf-enter_state i m = elim (Option-cases (get_elem? t.stats i)) [
    | inl e ↦ ground arith
    | inr (s, e) ↦ ground (arith, stbuf-inc_forbids (entries s.forbid_list) i m)
  ]

  pub stbuf-leave_state : (i : ℕ) (m : Machine) → (leave_state t i m).stbuf ≡ m.stbuf
  unfolding leave_state change_forbids_values
  stbuf-leave_state i m = elim (Option-cases (get_elem? t.stats i)) [
    | inl e ↦ ground arith
    | inr (s, e) ↦ ground (arith, stbuf-dec_forbids (entries s.forbid_list) i m)
  ]

  pub refcount-enter_state :
      (i j : ℕ) (m : Machine)
      → (enter_state t i m).refcount j ≡ (if i == j then 1 else m.refcount j)
  unfolding enter_state change_forbids_values
  refcount-enter_state i j m = elim (Option-cases (get_elem? t.stats i)) [
    | inl e ↦ ground arith
    | inr (s, e) ↦ ground (arith, refcount-inc_forbids (entries s.forbid_list) i m)
  ]

  pub refcount-leave_state :
      (i j : ℕ) (m : Machine)
      → (leave_state t i m).refcount j ≡ (if i == j then 0 else m.refcount j)
  unfolding leave_state change_forbids_values
  refcount-leave_state i j m = elim (Option-cases (get_elem? t.stats i)) [
    | inl e ↦ ground arith
    | inr (s, e) ↦ ground (arith, refcount-dec_forbids (entries s.forbid_list) i m)
  ]

  -- What entering a state keeps, `on_status_set` keeps.
  pub on_status_set_keeps {κ} :
      (Q : Machine → Type κ)
      → ((i : ℕ) (m : Machine) → Q m → Q (enter_state t i m))
      → (statid val : ℕ) (m : Machine) → Q m
      → Q (on_status_set t statid val m)
  unfolding on_status_set
  on_status_set_keeps Q step statid val m q =
      elim (get_op_type t statid)
        as (λ op. Q (elim op [
          | op_val ↦ elim (get_state_index t statid val) [ none ↦ m | some i ↦ enter_state t i m ]
          | op_bit ↦ each_bit t (λ _ i. enter_state t i) statid val val m
        ])) [
          | op_val ↦
              elim (get_state_index t statid val)
                as (λ o. Q (elim o [ none ↦ m | some i ↦ enter_state t i m ])) [
                  | none ↦ q
                  | some i ↦ step i m q
                ]
          | op_bit ↦ each_bit_keeps t statid (λ _ i. enter_state t i) Q (λ _. step) val val m q
        ]

  pub on_status_clear_keeps {κ} :
      (Q : Machine → Type κ)
      → ((i : ℕ) (m : Machine) → Q m → Q (leave_state t i m))
      → (statid val : ℕ) (m : Machine) → Q m
      → Q (on_status_clear t statid val m)
  unfolding on_status_clear
  on_status_clear_keeps Q step statid val m q =
      elim (get_op_type t statid)
        as (λ op. Q (elim op [
          | op_val ↦ elim (get_state_index t statid val) [ none ↦ m | some i ↦ leave_state t i m ]
          | op_bit ↦ each_bit t (λ _ i. leave_state t i) statid val val m
        ])) [
          | op_val ↦
              elim (get_state_index t statid val)
                as (λ o. Q (elim o [ none ↦ m | some i ↦ leave_state t i m ])) [
                  | none ↦ q
                  | some i ↦ step i m q
                ]
          | op_bit ↦ each_bit_keeps t statid (λ _ i. leave_state t i) Q (λ _. step) val val m q
        ]

  pub stbuf-on_status_set :
      (statid val : ℕ) (m : Machine) → (on_status_set t statid val m).stbuf ≡ m.stbuf
  stbuf-on_status_set statid val m =
      on_status_set_keeps (λ m'. m'.stbuf ≡ m.stbuf) (λ i m' h. stbuf-enter_state i m' ∙ h) statid
        val m refl

  pub stbuf-on_status_clear :
      (statid val : ℕ) (m : Machine) → (on_status_clear t statid val m).stbuf ≡ m.stbuf
  stbuf-on_status_clear statid val m =
      on_status_clear_keeps (λ m'. m'.stbuf ≡ m.stbuf) (λ i m' h. stbuf-leave_state i m' ∙ h) statid
        val m refl
