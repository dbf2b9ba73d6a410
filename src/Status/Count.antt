-- ===== src/Status/Count.antt =====
-- The reference counts of `StatMachine` (attribute/stat_machine.cpp): a state with a counter
-- stays active until it has been cleared as often as it was set.
use apollolib.Base.{
  ℕ, zero, suc, ◌+◌, ◌-◌, ◌*◌, ◌^◌, ◌<◌, ◌≡◌, ◌≢◌, refl, ap, ◌∙◌, true, false, not, some, arith,
  ◌==◌, ltb, get_elem?, set, bit_and, bit_or,
}
use apollolib.Base.Bits.{digit, digit-lt, digit-bit_or, bit_and_pow}
use apollolib.Base.Words.{
  digit_pow, digit_keep, pow_lt_word, bit_or_lt, le_of_within, keep-IsWithin,
}
use native.Mathlib.Nat.{one-le-pow}
use apollolib.Status.Tables.{op_bit, Stat, Tables, main_stat_num, get_op_type, get_state_index}
use apollolib.Status.Machine.{Machine, byte, complement}
use apollolib.Status.Calls.{
  write_stat, count_again, set_bits, clear_bits, set_stat, clear_stat, check_stat, set_by_index,
  clear_by_index,
}
use apollolib.Status.Counting.{
  stbuf-enter_state, stbuf-leave_state, refcount-enter_state, refcount-leave_state,
}
use apollolib.Status.Digit.{set_bits_fresh, set_bits_again, clear_bits_more, clear_bits_last}

-- State `i` is digit `k` of a field of bits.
pub record IsBit (t : Tables) (i k : ℕ) (s : Stat) : Type 0 where
  pub row : get_elem? t.stats i ≡ some s
  pub of_bits : get_op_type t s.field ≡ op_bit
  pub weight : s.value ≡ 2 ^ k
  pub small : k < 32
  pub inside : s.field < main_stat_num t
  pub found : get_state_index t s.field (2 ^ k) ≡ some i

-- The state is active, or not, with a reference count.
pub record IsAt (i k : ℕ) (s : Stat) (active count : ℕ) (m : Machine) : Type 0 where
  pub active_digit : digit (m.stbuf s.field) k ≡ active
  pub counter : m.refcount i ≡ count
  pub word_size : m.stbuf s.field < 2 ^ 32

test_active : (d p : ℕ) → d < 2 → 0 < p → not (d * p == 0) ≡ (d == 1)
test_active zero p h q = ground arith
test_active (suc zero) p h q = ground arith
test_active (suc (suc d)) p h q = absurd (omega arith)

module _ (t : Tables) (i k : ℕ) (s : Stat) (b : IsBit t i k s) (m : Machine) where
  set_by_index_bits : (set_by_index t i m).1 ≡ set_bits t s.field (2 ^ k) m
  unfolding set_by_index set_stat
  set_by_index_bits =
      let inside : ltb s.field (main_stat_num t) ≡ true = ground (arith, b.inside) in
      rw (b.row, set_by_index) (rw (inside, b.of_bits, set_stat) (rw b.weight))

  clear_by_index_bits : (clear_by_index t i m).1 ≡ (clear_bits t s.field (2 ^ k) m).1
  unfolding clear_by_index clear_stat
  clear_by_index_bits =
      let inside : ltb s.field (main_stat_num t) ≡ true = ground (arith, b.inside) in
      rw (b.row, clear_by_index) (rw (inside, b.of_bits, clear_stat) (rw b.weight))

  -- The first set makes the state active with the count 1.
  set_first : (c : ℕ) → IsAt i k s 0 c m → IsAt i k s 1 1 (set_by_index t i m).1
  set_first c at =
      let off = at.active_digit in
      let p = bit_or (m.stbuf s.field) (2 ^ k) in
      let step = set_by_index_bits ∙ set_bits_fresh t s.field k i b.of_bits b.found m off in
      rw step (record {
        active_digit = rw (stbuf-enter_state t i (write_stat s.field p m)) (
            ground (
              arith,
              digit-bit_or (m.stbuf s.field) (2 ^ k) k,
              digit_pow k k,
              digit-lt (m.stbuf s.field) k,
            ));
        counter = ground (arith, refcount-enter_state t i i (write_stat s.field p m));
        word_size = rw (stbuf-enter_state t i (write_stat s.field p m)) (
            ground
              (arith, bit_or_lt 32 (m.stbuf s.field) (2 ^ k) at.word_size (pow_lt_word k b.small)));
      })

  -- A later one adds to it, with the overflow of a byte.
  set_again :
      (c : ℕ)
      → s.need_counter ≢ 0
      → IsAt i k s 1 c m
      → IsAt i k s 1 (byte (c + 1)) (set_by_index t i m).1
  unfolding count_again
  set_again c counts at =
      let step =
        set_by_index_bits ∙ set_bits_again t s.field k i b.of_bits b.found m at.active_digit in
      let counted : (s.need_counter == 0) ≡ false = ground arith in
      rw step (
        rw (b.row, count_again)
          (rw counted (record {
            active_digit = at.active_digit;
            counter = ground (arith, at.counter);
            word_size = at.word_size;
          })))

  clear_more :
      (c : ℕ)
      → ltb 0 (byte (c + 255)) ≡ true
      → IsAt i k s 1 c m
      → IsAt i k s 1 (byte (c + 255)) (clear_by_index t i m).1
  clear_more c more at =
      let more' : ltb 0 (byte (m.refcount i + 255)) ≡ true = rw at.counter more in
      let step =
        clear_by_index_bits
        ∙ ap (λ (r : ℕ × Machine). r.1)
            (clear_bits_more t s.field k i b.of_bits b.found m b.small at.active_digit more') in
      rw step (record {
        active_digit = at.active_digit;
        counter = ground (arith, at.counter);
        word_size = at.word_size;
      })

  -- The last clear takes the digit out of the field.
  clear_last : IsAt i k s 1 1 m → IsAt i k s 0 0 (clear_by_index t i m).1
  clear_last at =
      let last : ltb 0 (byte (m.refcount i + 255)) ≡ false = rw at.counter refl in
      let p = bit_and (m.stbuf s.field) (complement (2 ^ k)) in
      let m' = record m { refcount = set m.refcount i (byte (m.refcount i + 255)) } in
      let step =
        clear_by_index_bits
        ∙ ap (λ (r : ℕ × Machine). r.1)
            (clear_bits_last t s.field k i b.of_bits b.found m b.small at.active_digit last) in
      rw step (record {
        active_digit =
            rw (stbuf-leave_state t i (write_stat s.field p m'))
              (ground (arith, digit_keep (m.stbuf s.field) (2 ^ k) k at.word_size, digit_pow k k));
        counter = ground (arith, refcount-leave_state t i i (write_stat s.field p m'));
        word_size = rw (stbuf-leave_state t i (write_stat s.field p m')) (
            ground (
              arith,
              at.word_size,
              le_of_within p (m.stbuf s.field)
                  (keep-IsWithin (m.stbuf s.field) (2 ^ k) at.word_size),
            ));
      })

  -- `CheckStat` reads the digit.
  check_stat_digit :
      (active c : ℕ) → IsAt i k s active c m → check_stat t s.field s.value m ≡ (active == 1)
  unfolding check_stat
  check_stat_digit active c at =
      let inside : ltb s.field (main_stat_num t) ≡ true = ground (arith, b.inside) in
      let e : bit_and s.value (m.stbuf s.field) ≡ active * 2 ^ k =
        rw (b.weight, bit_and_pow) (ap (λ (d : ℕ). d * 2 ^ k) at.active_digit) in
      let two : active < 2 = omega (arith, digit-lt (m.stbuf s.field) k, at.active_digit) in
      rw (inside, b.of_bits, check_stat)
        (rw e (test_active active (2 ^ k) two (one-le-pow k 2 (omega arith))))

-- `n` calls in a row.
unfoldable pub times : ℕ → (Machine → Machine) → Machine → Machine
times zero f m = m
times (suc n) f m = f (times n f m)

abbrev set_call : Tables → ℕ → Machine → Machine
set_call t i m = (set_by_index t i m).1

abbrev clear_call : Tables → ℕ → Machine → Machine
clear_call t i m = (clear_by_index t i m).1

module _ (t : Tables) (i k : ℕ) (s : Stat) (b : IsBit t i k s) (counts : s.need_counter ≢ 0) where
  sets_count :
      (n c : ℕ) (m : Machine)
      → IsAt i k s 0 c m
      → IsAt i k s 1 (byte (suc n)) (times (suc n) (set_call t i) m)
  unfolding times
  sets_count zero c m at = set_first t i k s b m c at
  sets_count (suc n) c m at =
      let next : byte (byte (suc n) + 1) ≡ byte (suc (suc n)) = omega arith in
      rw next at (
        set_again t i k s b (times (suc n) (set_call t i) m) (byte (suc n)) counts
          (sets_count n c m at))

  clears_count :
      (j c : ℕ) (m : Machine)
      → c < 256
      → j < c
      → IsAt i k s 1 c m
      → IsAt i k s 1 (c - j) (times j (clear_call t i) m)
  unfolding times
  clears_count zero c m small lt at = let e : c - 0 ≡ c = omega arith in rw e at
  clears_count (suc j) c m small lt at =
      let e : byte (c - j + 255) ≡ c - suc j = omega arith in
      rw e at (
        clear_more t i k s b (times j (clear_call t i) m) (c - j) (ground arith)
          (clears_count j c m small (omega arith) at))

  -- A state of a field of bits that has a counter, is not active and is then set n times, n <
  -- 256, is still active after j < n clears and is not active after n clears.
  pub cleared_as_often :
      (n j c : ℕ) (m : Machine)
      → j < n
      → n < 256
      → IsAt i k s 0 c m
      → let m' = times n (set_call t i) m in
        (check_stat t s.field s.value (times j (clear_call t i) m') ≡ true)
        × (check_stat t s.field s.value (times n (clear_call t i) m') ≡ false)
  unfolding times
  cleared_as_often zero j c m lt small at = absurd (omega arith)
  cleared_as_often (suc n) j c m lt small at =
      let e : byte (suc n) ≡ suc n = omega arith in
      let m' = times (suc n) (set_call t i) m in
      let set_all : IsAt i k s 1 (suc n) m' = rw e at (sets_count n c m at) in
      let one_left : IsAt i k s 1 1 (times n (clear_call t i) m') =
        let r : suc n - n ≡ 1 = omega arith in
        rw r at (clears_count n (suc n) m' small (omega arith) set_all) in
      (
        check_stat_digit t i k s b (times j (clear_call t i) m') 1 (suc n - j)
            (clears_count j (suc n) m' small lt set_all),
        check_stat_digit t i k s b (times (suc n) (clear_call t i) m') 0 0
            (clear_last t i k s b (times n (clear_call t i) m') one_left),
      )

  -- The reference count is a byte: a state with a counter that is not active and is set 256 * q +
  -- 1 times is no longer active after a single clear.
  pub cleared_too_early :
      (q c : ℕ) (m : Machine)
      → IsAt i k s 0 c m
      → check_stat t s.field s.value (clear_call t i (times (256 * q + 1) (set_call t i) m)) ≡ false
  cleared_too_early q c m at =
      let e : 256 * q + 1 ≡ suc (256 * q) = omega arith in
      let wraps : byte (suc (256 * q)) ≡ 1 = omega arith in
      let m' = times (suc (256 * q)) (set_call t i) m in
      let one_left : IsAt i k s 1 1 m' = rw wraps at (sets_count (256 * q) c m at) in
      rw e (check_stat_digit t i k s b (clear_call t i m') 0 0 (clear_last t i k s b m' one_left))
