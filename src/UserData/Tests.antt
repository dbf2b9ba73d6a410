-- ===== src/UserData/Tests.antt =====
-- Runs of `UserAdditionData` on small data.
use apollolib.Base.{
  ℕ, zero, suc, ◌≤◌, ◌+◌, ◌*◌, ◌/◌, ◌%◌, ◌^◌, ◌<◌, true, false, Option, none, some, List, [], ◌∷◌,
  ◌++◌, ◌≡◌, refl, ap, ltb, if◌then◌else◌, length, take, take_append, All, arith, Bool-cases, inl,
  inr,
}
use apollolib.Base.Text.{Text}
use apollolib.Base.Keys.{text_key, text_order}
use apollolib.Base.Maps.{find, insert, erase, IsAscending}
use apollolib.UserData.Nodes.{
  AdditionDataNode, affair_modify, eao_modified, undo, DataMap, UserAdditionData, make_node,
  get_data, set_data, remove_data, op_write,
}
use apollolib.UserData.Names.{parse_name, strip, print_name, c_str}
use apollolib.UserData.Stream.{
  ValueLib, IsValueLib, finished, failed, written, read_string, from_loop, from_stream, print_entry,
  prepend, and_then, to_stream, convert2node, converted,
}
use apollolib.UserData.History.{Call, set_call, remove_call, write_call, run, replay, run-replay}
use apollolib.UserData.Journal.{redo, run-redo, undo-set_data}
use apollolib.UserData.RoundTrip.{from_stream-to_stream, kept, IsStorable}
use apollolib.UserData.Refusals.{long_name_refused}

-- Values that are texts, with their length in front; the empty text is not valid.
abbrev write_text : ℕ → Text → ℕ → Option Text
write_text order v size = if ltb (length v) size then some (length v ∷ v) else none

abbrev read_text : ℕ → Text → Option (ℕ × Text)
read_text order [] = none
read_text order (k ∷ s) = some (suc k, take k s)

abbrev read_short : ℕ → Text → ℕ
read_short order (h ∷ (l ∷ s)) = h * 256 + l
read_short order (h ∷ []) = 0
read_short order [] = 0

abbrev texts : ValueLib Text
texts = record {
  write16 = λ order n. (n / 256) ∷ ((n % 256) ∷ []);
  read16 = read_short;
  write_stream = write_text;
  read_stream = read_text;
  check_valid = λ v. ltb 0 (length v);
  binary = λ w. w;
  get_binary = λ v. some v;
}

texts_read :
    (order size : ℕ) (v w r : Text)
    → write_text order v size ≡ some w
    → read_text order (w ++ r) ≡ some (length w, v)
texts_read order size v w r h = elim (Bool-cases (ltb (length v) size)) [
  | inl fits ↦
      let form : w ≡ length v ∷ v = ground arith in
      rw form (ap (λ t. some (suc (length v), t)) (take_append v r))
  | inr not_fits ↦ absurd (ground arith)
]

texts-IsValueLib : IsValueLib texts
texts-IsValueLib = record {
  length-write16 = λ order n. omega arith;
  read16-write16 = λ order n r h. omega arith;
  read-write = texts_read;
  get_binary-binary = λ w. refl;
}

abbrev gold : Text
gold = b'g' ∷ b'o' ∷ b'l' ∷ b'd' ∷ []

abbrev level : Text
level = b'l' ∷ b'v' ∷ []

abbrev nothing : UserAdditionData Text
nothing = record { data_map = []; affair = [] }

abbrev calls : List (Call Text)
calls =
    set_call level (7 ∷ []) none
    ∷ write_call (some gold) (3 ∷ 4 ∷ [])
    ∷ set_call level (9 ∷ []) (some gold)
    ∷ remove_call gold
    ∷ []

level_at_end : get_data level (run calls nothing) ≡ some (9 ∷ [])
unfolding get_data set_data op_write remove_data find text_order insert erase make_node
level_at_end = refl

gold_at_end : get_data gold (run calls nothing) ≡ none
unfolding get_data set_data op_write remove_data find text_order insert erase make_node
gold_at_end = refl

abbrev saved : DataMap Text
saved =
    (gold, record { type_name = level; value = 3 ∷ 4 ∷ [] })
    ∷ (level, record { type_name = []; value = 9 ∷ [] })
    ∷ []

abbrev stream : Text
stream =
    0 ∷ 18 ∷ 36 ∷ 110 ∷ 97 ∷ 109 ∷ 101 ∷ 61 ∷ 103 ∷ 111 ∷ 108 ∷ 100 ∷ 36 ∷ 116 ∷ 121 ∷ 112 ∷ 101
    ∷ 61 ∷ 108 ∷ 118 ∷ 2 ∷ 3 ∷ 4 ∷ 0 ∷ 2 ∷ 108 ∷ 118 ∷ 1 ∷ 9 ∷ []

printed : to_stream texts 1 true 100 saved ≡ written stream
unfolding to_stream print_entry prepend and_then print_name
printed = refl

read_again : from_stream texts 1 stream [] ≡ finished 29 saved
unfolding from_stream from_loop read_string parse_name strip c_str insert text_order make_node
read_again = refl

run-replay_example :
    IsAscending (run calls nothing).data_map
    × ((λ i. find i (run calls nothing).data_map) ≡ replay calls (λ i. find i []))
run-replay_example = run-replay calls nothing tt

run-redo_example : redo (run calls nothing).affair [] ≡ (run calls nothing).data_map
run-redo_example = run-redo [] calls nothing (tt, (tt, (tt, (tt, tt)))) refl

abbrev hp : Text
hp = 104 ∷ (112 ∷ [])

abbrev one_value : UserAdditionData Text
one_value = record { data_map = (hp, record { type_name = []; value = 7 ∷ [] }) ∷ []; affair = [] }

undo-set_data_example :
    ((set_data hp (8 ∷ []) none one_value).1.affair
      ≡ affair_modify hp (record { type_name = []; value = 8 ∷ [] }) ∷ [])
    × (find hp
          (undo hp
            (record { type_name = []; value = 8 ∷ [] })
            eao_modified
            (set_data hp (8 ∷ []) none one_value).1).data_map
        ≡ find hp (set_data hp (8 ∷ []) none one_value).1.data_map)
    × (find hp
          (undo hp
            (record { type_name = []; value = 7 ∷ [] })
            eao_modified
            (set_data hp (8 ∷ []) none one_value).1).data_map
        ≡ find hp one_value.data_map)
unfolding make_node find text_order
undo-set_data_example =
    undo-set_data hp hp (8 ∷ []) none (record { type_name = []; value = 7 ∷ [] }) one_value refl

saved-IsAscending : IsAscending saved
unfolding text_order
saved-IsAscending = ((refl, tt), (tt, tt))

saved-IsStorable : All (IsStorable true) saved
unfolding print_name
saved-IsStorable = omega arith

from_stream-to_stream_example : from_stream texts 1 stream [] ≡ finished 29 (kept texts true saved)
from_stream-to_stream_example =
    from_stream-to_stream texts texts-IsValueLib 1 true 100 saved stream saved-IsAscending
      saved-IsStorable printed

-- Converted to a value and read again, whatever was asked for the types.
saved_converted : convert2node texts 1 false saved ≡ converted stream
unfolding convert2node to_stream print_entry prepend and_then print_name
saved_converted = refl

abbrev letters : ℕ → Text
letters zero = []
letters (suc n) = b'a' ∷ letters n

abbrev long_entry : Text
long_entry = 1 ∷ 44 ∷ (letters 300 ++ (1 ∷ 9 ∷ []))

abbrev nine : AdditionDataNode Text
nine = record { type_name = []; value = 9 ∷ [] }

long_entry_written : print_entry texts 1 true 1000 (letters 300) nine ≡ written long_entry
unfolding print_entry print_name
long_entry_written = refl

long_name_long :
    (254 ≤ length (print_name true (letters 300) nine.type_name))
    × (length (print_name true (letters 300) nine.type_name) < 2 ^ 16)
unfolding print_name
long_name_long = omega arith

long_name_refused_example : from_stream texts 1 (long_entry ++ stream) saved ≡ failed saved
long_name_refused_example =
    long_name_refused texts texts-IsValueLib 1 true 1000 (letters 300) nine long_entry stream saved
      long_name_long.0 long_name_long.1 long_entry_written
