-- ===== src/Status/BitInvariant.antt =====
-- The methods of `StatMachine` on a field of bits keep the invariant (attribute/stat_machine.cpp).
use apollolib.Base.{
  ℕ, ◌+◌, ◌%◌, ◌^◌, ◌<◌, ◌≡◌, refl, ap, ◌∙◌, arith, ◌==◌, ltb, get_elem?, set, Array, inl, inr,
  Bool-cases, Option-cases, bit_and, bit_or, bit_xor,
}
use apollolib.Base.Bits.{digit, digit-lt, digit-bit_and, digit-bit_or}
use apollolib.Base.Words.{
  IsWithin, or_split, gained_disjoint, replace_split, set_disjoint, clear_disjoint, keep_disjoint,
  keep_split, keep-IsWithin, le_of_within, bit_or_lt,
}
use apollolib.Status.Tables.{op_bit, Tables, get_op_type}
use apollolib.Status.Machine.{Event, Machine, add_log, complement, each_bit, on_status_clear}
use apollolib.Status.Calls.{write_stat, count_again, set_bits, replace_bits, release, clear_bits}
use apollolib.Status.Loop.{Known, each_bit_keeps}
use apollolib.Status.Counting.{stbuf-on_status_set, stbuf-on_status_clear}
use apollolib.Status.Steps.{IsWellFormed, Holds, on_status_set_bits, on_status_clear_bits}
use apollolib.Status.Invariant.{Inv, Inv-write, IsArgument, set_same}

Known-within : (t : Tables) (statid a b : ℕ) → IsWithin a b → Known t statid b → Known t statid a
Known-within t statid a b within known k on = known k (omega (arith, within k, digit-lt b k))

Inv-refcount :
    (t : Tables) (m : Machine) (r : Array ℕ) → Inv t m → Inv t (record m { refcount = r })
Inv-refcount t m r v = record { counted = v.counted; known = v.known; bounded = v.bounded }

count_again-Inv : (t : Tables) (i : ℕ) (m : Machine) → Inv t m → Inv t (count_again t i m)
unfolding count_again
count_again-Inv t i m v = elim (Option-cases (get_elem? t.stats i)) [
  | inl e ↦ rw (e, count_again) (Inv-refcount t m _ v)
  | inr (s, e) ↦ elim (Bool-cases (s.need_counter == 0)) [
    | inl plain ↦ rw (e, count_again) (rw plain (Inv-refcount t m _ v))
    | inr counts ↦ rw (e, count_again) (rw counts (Inv-refcount t m _ v))
  ]
]

module _ (t : Tables) (wf : IsWellFormed t) (statid : ℕ) (op : get_op_type t statid ≡ op_bit)
    (m : Machine) (v : Inv t m) where
  Holds-here : Holds t (set m.stbuf statid (m.stbuf statid)) m
  Holds-here = rw (set_same m.stbuf statid) v.counted

  module _ (val : ℕ) (arg : IsArgument t statid val) where
    Known-or : Known t statid (bit_or (m.stbuf statid) val)
    Known-or k on = elim (Bool-cases (digit val k == 1)) [
      | inl new ↦ arg.of_states op k (ground arith)
      | inr old ↦ v.known statid op k (
          ground (
            arith,
            on,
            digit-bit_or (m.stbuf statid) val k,
            digit-lt val k,
            digit-lt (m.stbuf statid) k,
          ))
    ]

    pub set_bits-Inv : Inv t (set_bits t statid val m)
    unfolding set_bits
    set_bits-Inv =
        let p = m.stbuf statid in
        let change = bit_and (bit_xor val p) val in
        each_bit_keeps t statid (λ _ i. count_again t i) (Inv t) (λ _ i. count_again-Inv t i) _ _ _
          (elim (Bool-cases (change == 0)) [
            | inl same ↦ rw same v
            | inr new ↦ rw new (
                Inv-write t statid (bit_or p val) m _ v
                  (stbuf-on_status_set t statid change (write_stat statid (bit_or p val) m))
                  (record {
                    word_size = bit_or_lt 32 p val (v.bounded statid) arg.word_size;
                    of_states = λ _. Known-or;
                  })
                  (rw (or_split p val) (
                    on_status_set_bits t wf statid op m.stbuf p change _ (gained_disjoint p val)
                      (Known-within t statid change val
                        (λ k. omega (arith, digit-bit_and (bit_xor val p) val k))
                        (arg.of_states op))
                      Holds-here)))
          ])

    pub replace_bits-Inv : Inv t (replace_bits t statid val m)
    unfolding replace_bits
    replace_bits-Inv =
        let p = m.stbuf statid in
        let x = bit_xor val p in
        elim (Bool-cases (x == 0)) [
          | inl same ↦ rw same v
          | inr new ↦ rw new (
              Inv-write t statid val m _ v
                (stbuf-on_status_clear t statid (bit_and p x) _
                  ∙ ap (λ b. set b statid val) (stbuf-on_status_set t statid (bit_and val x) m))
                arg
                (on_status_clear_bits t wf statid op m.stbuf val (bit_and p x) _
                  (clear_disjoint p val)
                  (Known-within t statid (bit_and p x) p (λ k. omega (arith, digit-bit_and p x k))
                    (v.known statid op))
                  (rw (← replace_split p val) (
                    on_status_set_bits t wf statid op m.stbuf p (bit_and val x) m
                      (set_disjoint p val)
                      (Known-within t statid (bit_and val x) val
                        (λ k. omega (arith, digit-bit_and val x k)) (arg.of_states op))
                      Holds-here))))
        ]

  -- After any rounds of the loop of `ClearStat`: the digits left over are among those of `change`,
  -- and no more than reference counts has been written.
  record Released (change : ℕ) (r : ℕ × Machine) : Type 0 where
    within : IsWithin r.0 change
    same : r.1.stbuf ≡ m.stbuf
    inv : Inv t r.1

  release_round :
      (change index i : ℕ) (r : ℕ × Machine)
      → change < 2 ^ 32
      → Released change r
      → Released change (release t index i r)
  unfolding release
  release_round change index i (c, m') small q =
      elim (Bool-cases (ltb 0 ((m'.refcount i + 255) % 2 ^ 8))) [
        | inl more ↦ rw more (record {
          within = λ k. omega (
            arith,
            q.within k,
            keep-IsWithin c index (omega (arith, small, le_of_within c change q.within)) k,
          );
          same = q.same;
          inv = Inv-refcount t m' _ q.inv;
        })
        | inr last ↦
            rw last (record { within = q.within; same = q.same; inv = Inv-refcount t m' _ q.inv })
      ]

  -- Taking the digits that are left over out of the field.
  dropped :
      (e : Event) (r : ℕ × Machine)
      → Inv t r.1
      → r.1.stbuf ≡ m.stbuf
      → IsWithin r.0 (m.stbuf statid)
      → Inv t (
          add_log e (
            on_status_clear t statid r.0
              (write_stat statid (bit_and (r.1.stbuf statid) (complement r.0)) r.1)))
  dropped e r inv same within =
      let p = r.1.stbuf statid in
      let kept = bit_and p (complement r.0) in
      let small : p < 2 ^ 32 = inv.bounded statid in
      let in_p : IsWithin r.0 p = rw same within in
      let part : IsWithin kept p = keep-IsWithin p r.0 small in
      Inv-write t statid kept r.1 _ inv
        (stbuf-on_status_clear t statid r.0 (write_stat statid kept r.1))
        (record {
          word_size = omega (arith, le_of_within kept p part);
          of_states = λ _. Known-within t statid kept p part (inv.known statid op);
        })
        (on_status_clear_bits t wf statid op r.1.stbuf kept r.0 _ (keep_disjoint p r.0 small)
          (Known-within t statid r.0 p in_p (inv.known statid op))
          (rw (← keep_split p r.0 small in_p, set_same r.1.stbuf statid) inv.counted))

  module _ (val : ℕ) where
    pub clear_bits-Inv : Inv t (clear_bits t statid val m).1
    unfolding clear_bits
    clear_bits-Inv =
        let p = m.stbuf statid in
        let change = bit_and p val in
        let in_p : IsWithin change p = λ k. omega (arith, digit-bit_and p val k) in
        let small : change < 2 ^ 32 = omega (arith, le_of_within change p in_p, v.bounded statid) in
        let start : Released change (change, m) = record {
          within = λ k. omega arith;
          same = refl;
          inv = v;
        } in
        let r = each_bit t (release t) statid change change (change, m) in
        let q : Released change r =
          each_bit_keeps t statid (release t) (Released change)
            (λ index i s. release_round change index i s small) change change (change, m) start in
        let within : IsWithin r.0 p = λ k. omega (arith, q.within k, in_p k) in
        elim (Bool-cases (r.0 == 0)) [
          | inl none_left ↦ rw none_left q.inv
          | inr some_left ↦ rw some_left (dropped _ r q.inv q.same within)
        ]
