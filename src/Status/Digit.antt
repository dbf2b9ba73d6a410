-- ===== src/Status/Digit.antt =====
-- `SetStat` and `ClearStat` on a single state of a field of bits (attribute/stat_machine.cpp).
use apollolib.Base.{
  ℕ, ◌+◌, ◌*◌, ◌%◌, ◌^◌, ◌<◌, ◌≡◌, refl, ap, ◌∙◌, true, false, some, arith, ◌==◌, ltb, set, bit_and,
  bit_or, bit_xor,
}
use apollolib.Base.Bits.{digit, digit-bit_xor}
use apollolib.Base.Words.{pow_bit_and, digit_pow, keep_none, pow_lt_word}
use native.Mathlib.Nat.{one-le-pow}
use apollolib.Status.Tables.{op_bit, Tables, get_op_type, get_state_index}
use apollolib.Status.Machine.{
  Machine, changed, byte, complement, add_log, enter_state, leave_state, each_bit, on_status_set,
  on_status_clear,
}
use apollolib.Status.Calls.{write_stat, count_again, set_bits, release, clear_bits}
use apollolib.Status.Loop.{each_bit_one, each_bit_none}

module _ (t : Tables) (statid k i : ℕ) (op : get_op_type t statid ≡ op_bit)
    (found : get_state_index t statid (2 ^ k) ≡ some i) (m : Machine) where
  pub on_status_set_one : on_status_set t statid (2 ^ k) m ≡ enter_state t i m
  unfolding on_status_set
  on_status_set_one =
      rw (op, on_status_set) (each_bit_one t statid (λ _ i. enter_state t i) k i m found)

  pub on_status_clear_one : on_status_clear t statid (2 ^ k) m ≡ leave_state t i m
  unfolding on_status_clear
  on_status_clear_one =
      rw (op, on_status_clear) (each_bit_one t statid (λ _ i. leave_state t i) k i m found)

module _ (t : Tables) (statid k i : ℕ) (op : get_op_type t statid ≡ op_bit)
    (found : get_state_index t statid (2 ^ k) ≡ some i) (m : Machine) where
  gained :
      bit_and (bit_xor (2 ^ k) (m.stbuf statid)) (2 ^ k)
      ≡ (1 + digit (m.stbuf statid) k) % 2 * 2 ^ k
  gained =
      let x = bit_xor (2 ^ k) (m.stbuf statid) in
      let e : digit x k ≡ (1 + digit (m.stbuf statid) k) % 2 =
        ground (arith, digit-bit_xor (2 ^ k) (m.stbuf statid) k, digit_pow k k) in
      pow_bit_and x k ∙ rw e

  -- Setting a state that is not active enters it.
  pub set_bits_fresh :
      digit (m.stbuf statid) k ≡ 0
      → let p = bit_or (m.stbuf statid) (2 ^ k) in
        set_bits t statid (2 ^ k) m
        ≡ add_log (changed statid p) (enter_state t i (write_stat statid p m))
  unfolding set_bits
  set_bits_fresh off =
      let up : bit_and (bit_xor (2 ^ k) (m.stbuf statid)) (2 ^ k) ≡ 2 ^ k =
        gained ∙ rw off (omega arith) in
      let down : bit_and (m.stbuf statid) (2 ^ k) ≡ 0 =
        pow_bit_and (m.stbuf statid) k ∙ rw off (omega arith) in
      let some_digit : (2 ^ k == 0) ≡ false = ground (arith, one-le-pow k 2) in
      let p = bit_or (m.stbuf statid) (2 ^ k) in
      rw (up, down, some_digit)
        (each_bit_none t statid (λ _ i. count_again t i) 0 _
          ∙ ap (add_log (changed statid p))
              (on_status_set_one t statid k i op found (write_stat statid p m)))

  -- Setting an active state counts it once more.
  pub set_bits_again :
      digit (m.stbuf statid) k ≡ 1 → set_bits t statid (2 ^ k) m ≡ count_again t i m
  unfolding set_bits
  set_bits_again on =
      let up : bit_and (bit_xor (2 ^ k) (m.stbuf statid)) (2 ^ k) ≡ 0 =
        gained ∙ rw on (omega arith) in
      let down : bit_and (m.stbuf statid) (2 ^ k) ≡ 2 ^ k =
        pow_bit_and (m.stbuf statid) k ∙ rw on (omega arith) in
      rw (up, down) (each_bit_one t statid (λ _ i. count_again t i) k i m found)

  -- Clearing a state that is not active changes nothing.
  pub clear_bits_off : digit (m.stbuf statid) k ≡ 0 → clear_bits t statid (2 ^ k) m ≡ (0, m)
  unfolding clear_bits
  clear_bits_off off =
      let down : bit_and (m.stbuf statid) (2 ^ k) ≡ 0 =
        pow_bit_and (m.stbuf statid) k ∙ rw off (omega arith) in
      rw (down, each_bit_none t statid (release t) 0 (0, m)) refl

  module _ (small : k < 32) (on : digit (m.stbuf statid) k ≡ 1) where
    abbrev counted_down : Machine
    counted_down = record m { refcount = set m.refcount i (byte (m.refcount i + 255)) }

    one_round :
        each_bit t
          (release t)
          statid
          (bit_and (m.stbuf statid) (2 ^ k))
          (bit_and (m.stbuf statid) (2 ^ k))
          (bit_and (m.stbuf statid) (2 ^ k), m)
        ≡ release t (2 ^ k) i (2 ^ k, m)
    one_round =
        let down : bit_and (m.stbuf statid) (2 ^ k) ≡ 2 ^ k =
          pow_bit_and (m.stbuf statid) k ∙ rw on (omega arith) in
        rw down (each_bit_one t statid (release t) k i (2 ^ k, m) found)

    -- Clearing a state that was set more than once counts it down.
    pub clear_bits_more :
        ltb 0 (byte (m.refcount i + 255)) ≡ true → clear_bits t statid (2 ^ k) m ≡ (0, counted_down)
    unfolding clear_bits release
    clear_bits_more more =
        let none_left : bit_and (2 ^ k) (complement (2 ^ k)) ≡ 0 =
          keep_none (2 ^ k) (pow_lt_word k small) in
        let round : each_bit t (release t) statid (bit_and (m.stbuf statid) (2 ^ k))
              (bit_and (m.stbuf statid) (2 ^ k)) (bit_and (m.stbuf statid) (2 ^ k), m)
            ≡ (0, counted_down) =
          one_round ∙ rw more (rw none_left) in
        rw round

    -- Clearing it for the last time leaves it.
    pub clear_bits_last :
        ltb 0 (byte (m.refcount i + 255)) ≡ false
        → let p = bit_and (m.stbuf statid) (complement (2 ^ k)) in
          clear_bits t statid (2 ^ k) m
          ≡ (2 ^ k, add_log (changed statid p) (leave_state t i (write_stat statid p counted_down)))
    unfolding clear_bits release
    clear_bits_last last =
        let round : each_bit t (release t) statid (bit_and (m.stbuf statid) (2 ^ k))
              (bit_and (m.stbuf statid) (2 ^ k)) (bit_and (m.stbuf statid) (2 ^ k), m)
            ≡ (2 ^ k, counted_down) =
          one_round ∙ rw last in
        let some_digit : (2 ^ k == 0) ≡ false = ground (arith, one-le-pow k 2) in
        let p = bit_and (m.stbuf statid) (complement (2 ^ k)) in
        rw (round, some_digit)
          (ap (λ m'. (2 ^ k, add_log (changed statid p) m'))
            (on_status_clear_one t statid k i op found (write_stat statid p counted_down)))
