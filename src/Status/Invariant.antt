-- ===== src/Status/Invariant.antt =====
-- The invariant of `StatMachine` and the methods that keep it (attribute/stat_machine.cpp).
use apollolib.Base.{
  ℕ, ◌^◌, ◌<◌, ◌≡◌, ap, subst, fun_ext, ◌∙◌, arith, ◌==◌, set, Array, inl, inr, Bool-cases,
}
use apollolib.Base.Bits.{digit-zero}
use apollolib.Status.Tables.{op_val, op_bit, Tables, get_op_type}
use apollolib.Status.Machine.{Machine, on_status_set, on_status_clear}
use apollolib.Status.Calls.{write_stat, assign_val, clear_val}
use apollolib.Status.Loop.{Known}
use apollolib.Status.Weight.{weight, share-le-weight, weight-set_val, weight-le-total}
use apollolib.Status.Counting.{stbuf-on_status_set, stbuf-on_status_clear}
use apollolib.Status.Steps.{IsWellFormed, Holds, on_status_set_val, on_status_clear_val}

pub record Inv (t : Tables) (m : Machine) : Type 0 where
  -- each counter is the number of times that active states name its entry
  pub counted : Holds t m.stbuf m
  -- a field of bits holds digits of its states alone
  pub known : (statid : ℕ) → get_op_type t statid ≡ op_bit → Known t statid (m.stbuf statid)
  -- the values are 32-bit words
  pub bounded : (statid : ℕ) → m.stbuf statid < 2 ^ 32

pub set_same : (b : Array ℕ) (i : ℕ) → set b i (b i) ≡ b
set_same b i = fun_ext λ j. ground (arith, ap b)

module _ (t : Tables) (statid : ℕ) where
  -- What an argument of `SetStat` and its kin has to be.
  pub record IsArgument (val : ℕ) : Type 0 where
    pub word_size : val < 2 ^ 32
    pub of_states : get_op_type t statid ≡ op_bit → Known t statid val

  Known-set :
      (y j : ℕ) (b : Array ℕ)
      → IsArgument y
      → ((i : ℕ) → get_op_type t i ≡ op_bit → Known t i (b i))
      → get_op_type t j ≡ op_bit
      → Known t j (set b statid y j)
  Known-set y j b arg rest op = elim (Bool-cases (statid == j)) [
    | inl here ↦
        let e : statid ≡ j = ground arith in
        rw here (subst (λ i. Known t i y) e (arg.of_states (rw e op)))
    | inr away ↦ rw away (rest j op)
  ]

  -- A machine that differs in one field, with its counters.
  pub Inv-write :
      (y : ℕ) (m m' : Machine)
      → Inv t m
      → m'.stbuf ≡ set m.stbuf statid y
      → IsArgument y
      → Holds t (set m.stbuf statid y) m'
      → Inv t m'
  Inv-write y m m' v same arg holds = record {
    counted = rw same holds;
    known = λ j op. rw same (Known-set y j m.stbuf arg v.known op);
    bounded = λ j. rw same (ground (arith, v.bounded j, arg.word_size));
  }

  stbuf-assign :
      (x y : ℕ) (m : Machine)
      → (on_status_set t statid y (on_status_clear t statid x (write_stat statid y m))).stbuf
        ≡ set m.stbuf statid y
  stbuf-assign x y m =
      stbuf-on_status_set t statid y _ ∙ stbuf-on_status_clear t statid x (write_stat statid y m)

  pub zero-IsArgument : IsArgument 0
  zero-IsArgument = record {
    word_size = omega arith;
    of_states = λ op k on. absurd (omega (arith, on, digit-zero k));
  }

  module _ (wf : IsWellFormed t) where
    -- Leaving the old value and entering the new one moves the counters along.
    Holds-assign :
        (y : ℕ) (m : Machine)
        → get_op_type t statid ≡ op_val
        → Inv t m
        → Holds t (set m.stbuf statid y) (
            on_status_set t statid y
              (on_status_clear t statid (m.stbuf statid) (write_stat statid y m)))
    Holds-assign y m op v f =
        let x = m.stbuf statid in
        let here : weight t t.stats (set m.stbuf statid x) f ≡ weight t t.stats m.stbuf f =
          rw (set_same m.stbuf statid) in
        omega (
          arith,
          v.counted f,
          here,
          share-le-weight t t.stats m.stbuf statid x f op,
          weight-set_val t t.stats m.stbuf statid x y f op,
          weight-le-total t t.stats (set m.stbuf statid y) f,
          wf.small f,
          on_status_clear_val t wf statid x f (write_stat statid y m) op,
          on_status_set_val t wf statid y f (on_status_clear t statid x (write_stat statid y m)) op,
        )

    pub assign_val-Inv :
        (val : ℕ) (m : Machine)
        → get_op_type t statid ≡ op_val
        → IsArgument val
        → Inv t m
        → Inv t (assign_val t statid val m)
    unfolding assign_val
    assign_val-Inv val m op arg v = elim (Bool-cases (m.stbuf statid == val)) [
      | inl same ↦ rw same v
      | inr new ↦
          rw new (
            Inv-write val m _ v (stbuf-assign (m.stbuf statid) val m) arg (Holds-assign val m op v))
    ]

    pub clear_val-Inv :
        (val : ℕ) (m : Machine)
        → get_op_type t statid ≡ op_val
        → Inv t m
        → Inv t (clear_val t statid val m)
    unfolding clear_val
    clear_val-Inv val m op v = elim (Bool-cases (m.stbuf statid == val)) [
      | inr other ↦ rw other v
      | inl same ↦ elim (Bool-cases (0 == m.stbuf statid)) [
        | inl zero_already ↦ rw (same, zero_already) v
        | inr new ↦
            rw (same, new)
              (Inv-write 0 m _ v (stbuf-assign (m.stbuf statid) 0 m) zero-IsArgument
                (Holds-assign 0 m op v))
      ]
    ]
