-- ===== src/MessageData/Tests.antt =====
-- Game data in a message that has room for 64 bytes.
use apollolib.Base.{
  ℕ, zero, suc, ◌+◌, ◌*◌, ◌/◌, ◌%◌, ◌^◌, ◌<◌, Bool, true, false, [], ◌∷◌, ◌++◌, ◌≡◌, refl, ap, ◌∙◌,
  ltb, if◌then◌else◌, length, take, drop, take_append, drop_append, All, arith,
}
use apollolib.Base.Text.{Text}
use apollolib.GameTables.Files.{done, Reader, ◌>>=◌, give, refused, read_bytes}
use apollolib.GameTables.Reload.{bind_done, read_bytes_append}
use apollolib.MessageData.{
  MsgLib, LogicData, LogicItems, ot_int16, ot_bool, ot_string, ot_user_defined, ot_array, ot_time,
  no_items, item, Format, f_int16, f_bool, f_string, f_int, f_user_defined, f_array, f_time,
  no_formats, member, logic_data_write, write_members, write_elements, logic_data_read,
  read_elements, array_of, count_items,
}
use apollolib.MessageData.Written.{
  IsMsgLib, Fits, fits_int16, fits_bool, fits_string, fits_user, fits_array, fit_none, fit_member,
  fit_end, fit_item,
}
use apollolib.MessageData.RoundTrip.{logic_data_read-logic_data_write}

abbrev big_endian : ℕ → Text → ℕ
big_endian n [] = n
big_endian n (x ∷ s) = big_endian (n * 256 + x) s

abbrev two : ℕ → Text
two n = (n / 256) ∷ ((n % 256) ∷ [])

abbrev four : ℕ → Text
four n = (n / 2 ^ 24) ∷ ((n / 2 ^ 16 % 256) ∷ ((n / 256 % 256) ∷ ((n % 256) ∷ [])))

abbrev number : ℕ → Reader ℕ
number n = read_bytes n >>= λ x. give (big_endian 0 x)

abbrev pub to_zero : Text → Text × Text
to_zero [] = ([], [])
to_zero (zero ∷ s) = ([], s)
to_zero (suc c ∷ s) = let rest = to_zero s in (suc c ∷ rest.0, rest.1)

abbrev sized : Text → Text × Text
sized s = let n = big_endian 0 (take 2 s) in (take n (drop 2 s), drop n (drop 2 s))

abbrev flag_of : ℕ → Bool
flag_of zero = false
flag_of (suc n) = true

abbrev of_flag : Bool → ℕ
of_flag true = 1
of_flag false = 0

abbrev room : Text → Text → Bool × Text
room out x = if ltb 64 (length out + length x) then (false, out) else (true, out ++ x)

abbrev pub messages : MsgLib ℕ Bool
messages = record {
  put = room;
  u8 = λ n. n ∷ [];
  u16 = two;
  u32 = four;
  u64 = λ n. four (n / 2 ^ 32) ++ four (n % 2 ^ 32);
  float_bytes = λ x. x ∷ [];
  var_bytes = λ v. of_flag v ∷ [];
  text_bytes = λ s. s ++ (0 ∷ []);
  bin_bytes = λ s. two (length s) ++ s;
  read8 = number 1;
  read16 = number 2;
  read32 = number 4;
  read64 = number 8;
  read_float = number 1;
  read_var = number 1 >>= λ n. give (flag_of n);
  read_text = to_zero;
  read_bin = sized;
}

number_again : (x r : Text) (v : ℕ) → big_endian 0 x ≡ v → number (length x) (x ++ r) ≡ done v r
unfolding give
number_again x r v h =
    bind_done (read_bytes (length x)) _ _ (read_bytes_append x r) ∙ ap (λ n. done n r) h

room_taken : (out x : Text) → (room out x).0 ≡ true → (room out x).1 ≡ out ++ x
room_taken out x h = ground arith

pub to_zero_again : (s r : Text) → All (λ c. 0 < c) s → to_zero ((s ++ (0 ∷ [])) ++ r) ≡ (s, r)
to_zero_again [] r h = refl
to_zero_again (zero ∷ s) r h = ground arith
to_zero_again (suc c ∷ s) r h = ap (λ p. (suc c ∷ p.0, p.1)) (to_zero_again s r h.1)

two_again : (v : ℕ) → v < 2 ^ 16 → big_endian 0 (two v) ≡ v
two_again v h = omega arith

sized_again : (s r : Text) → length s < 2 ^ 16 → sized ((two (length s) ++ s) ++ r) ≡ (s, r)
sized_again s r h =
    ap (λ n. (take n (s ++ r), drop n (s ++ r))) (two_again (length s) h)
    ∙ ap (λ x. (x, drop (length s) (s ++ r))) (take_append s r)
    ∙ ap (λ x. (s, x)) (drop_append s r)

flag_again : (v : Bool) (r : Text) → (number 1 >>= λ n. give (flag_of n)) (of_flag v ∷ r) ≡ done v r
unfolding give
flag_again true r = bind_done (number 1) _ _ (number_again (1 ∷ []) r 1 refl)
flag_again false r = bind_done (number 1) _ _ (number_again (0 ∷ []) r 0 refl)

pub messages-IsMsgLib : IsMsgLib messages
messages-IsMsgLib = record {
  put-append = room_taken;
  read8-u8 = λ v r h. number_again (v ∷ []) r v (omega arith);
  read16-u16 = λ v r h. number_again (two v) r v (two_again v h);
  read32-u32 = λ v r h. number_again (four v) r v (omega arith);
  read64-u64 = λ v r h. number_again (four (v / 2 ^ 32) ++ four (v % 2 ^ 32)) r v (omega arith);
  read_float-float_bytes = λ v r. number_again (v ∷ []) r v (omega arith);
  read_var-var_bytes = flag_again;
  read_text-text_bytes = λ s r h g. to_zero_again s r h;
  read_bin-bin_bytes = sized_again;
}

-- A structure with a number, a text and an array of flags.
abbrev hero_format : Format
hero_format = f_user_defined (member f_int16 (member f_string (member (f_array f_bool) no_formats)))

abbrev flags : LogicItems ℕ Bool
flags = item (ot_bool 1) (item (ot_bool 0) no_items)

abbrev hero : LogicData ℕ Bool
hero =
    ot_user_defined
      (item (ot_int16 300) (item (ot_string (72 ∷ (105 ∷ []))) (item (ot_array flags) no_items)))

hero-Fits : Fits hero_format hero
unfolding count_items
hero-Fits = fits_user _ _ (
    fit_member _ _ _ _ (fits_int16 300 (omega arith)) (
      fit_member _ _ _ _ (fits_string _ (omega arith, (omega arith, tt)) (omega arith)) (
        fit_member _ _ _ _
          (fits_array f_bool _ _ (omega arith) (
            fit_item _ _ _ (fits_bool 1 (omega arith))
              (fit_item _ _ _ (fits_bool 0 (omega arith)) (fit_end _))))
          fit_none)))

abbrev hero_bytes : Text
hero_bytes = 1 ∷ (44 ∷ (72 ∷ (105 ∷ (0 ∷ (0 ∷ (2 ∷ (1 ∷ (0 ∷ []))))))))

hero_written : logic_data_write messages hero (9 ∷ []) ≡ (true, 9 ∷ hero_bytes)
unfolding logic_data_write write_members write_elements count_items
hero_written = refl

logic_data_read-logic_data_write_example :
    logic_data_read messages hero_format
      (drop 1 (logic_data_write messages hero (9 ∷ [])).1 ++ (7 ∷ []))
    ≡ done hero (7 ∷ [])
logic_data_read-logic_data_write_example =
    logic_data_read-logic_data_write messages messages-IsMsgLib hero_format hero (9 ∷ []) (7 ∷ [])
      hero-Fits (ap (λ p. p.0) hero_written)

-- An array without elements is read as a structure with a number.
empty_array :
    logic_data_read messages (f_array f_int) (0 ∷ (0 ∷ []))
    ≡ done (ot_user_defined (item (ot_int16 0) no_items)) []
unfolding logic_data_read read_elements array_of read_bytes give
empty_array = refl

-- A time is written, and is not read.
time_refused :
    logic_data_read messages f_time (logic_data_write messages (ot_time 5) []).1 ≡ refused
unfolding logic_data_read logic_data_write
time_refused = refl
