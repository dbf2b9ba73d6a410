-- ===== src/Status/Tests.antt =====
-- Runs of the status machine on a small table, with a field by value and a field of bits.
use apollolib.Base.{
  ℕ, ◌<◌, ◌≡◌, refl, Bool, true, false, some, List, [], ◌∷◌, arith, ◌==◌, if◌then◌else◌, get_elem?,
  Array, set, ◌↔◌,
}
use apollolib.Base.Text.{Text, text_eq, strncpy}
use apollolib.Base.Bits.{digit}
use apollolib.Status.Tables.{
  get_operate_index, op_val, op_bit, IntList, Stat, Tables, cells, forbid_num, get_op_type,
  state_index_from, name_index_from,
}
use apollolib.Status.Machine.{Machine, init}
use apollolib.Status.Loader.{
  ForbidRow, StatRow, OperateRow, semicolon, skip_semicolon, words, text_to_string_array,
  load_forbid_names, read_forbids, read_checks, stat_value, load_stat_rows, load_stat_info,
  load_op_info, load,
}
use apollolib.Status.Calls.{set_stat, replace, clear_stat, check_stat, set_by_index, clear_by_index}
use apollolib.Status.Forbids.{check_forbid, check_operate, get_forbid_reason, get_unoperate_reason}
use apollolib.Status.Steps.{IsWellFormed}
use apollolib.Status.Invariant.{Inv, IsArgument}
use apollolib.Status.Loaded.{IsFitting, load-IsWellFormed}
use apollolib.Status.Reach.{
  init-Inv, set_stat-Inv, replace-Inv, clear_stat-Inv, row-IsArgument, Call, sets, clears, run,
  run-Inv, load-run-Inv,
}
use apollolib.Status.Answers.{check_forbid_iff, check_operate_iff, IsForbidden, IsBlocked}
use apollolib.Status.Reasons.{reason_of_one}
use apollolib.Status.Count.{IsBit, IsAt, times, cleared_as_often, cleared_too_early}

-- A reader of one word that splits at the first `;`.
unfoldable split_word : Text → Text × Text
split_word [] = ([], [])
split_word (c ∷ rest) =
    if c == semicolon then ([], c ∷ rest) else (c ∷ (split_word rest).0, (split_word rest).1)

abbrev move : Text
move = b'm' ∷ []

abbrev speak : Text
speak = b's' ∷ []

abbrev alive : Text
alive = b'a' ∷ []

abbrev dead : Text
dead = b'd' ∷ []

abbrev held : Text
held = b'h' ∷ []

abbrev mute : Text
mute = b'u' ∷ []

abbrev pose : Text
pose = b'p' ∷ []

abbrev bonds : Text
bonds = b'b' ∷ []

abbrev walk : Text
walk = b'w' ∷ []

abbrev stat_row : Text → Bool → Text → Text → ℕ → StatRow
stat_row field bits name forbids counted = record {
  stname = field;
  mutex = bits;
  subname = name;
  forbid_text = forbids;
  iscount = counted;
}

abbrev forbid_rows : List ForbidRow
forbid_rows = record { name = some move } ∷ record { name = some speak } ∷ []

abbrev stat_rows : List StatRow
stat_rows =
    stat_row pose false alive [] 0
    ∷ stat_row pose false dead (b'm' ∷ b';' ∷ b's' ∷ []) 0
    ∷ stat_row bonds true held move 1
    ∷ stat_row bonds true mute speak 0
    ∷ []

abbrev operate_rows : List OperateRow
operate_rows = record { name = walk; checklist = move } ∷ []

abbrev list_of : ℕ → Array ℕ → IntList ℕ
list_of n a = record { num = n; cell = a }

abbrev stat_of : Text → ℕ → ℕ → ℕ → IntList ℕ → Stat
stat_of name field value counted forbids = record {
  name = name;
  field = field;
  value = value;
  need_counter = counted;
  forbid_list = forbids;
}

abbrev held_stat : Stat
held_stat = stat_of held 1 1 1 (list_of 1 (set (λ _. 0) 0 0))

-- What `load` makes of the rows.
abbrev tables : Tables
tables = record {
  forbid_names = move ∷ speak ∷ [];
  main_stats =
      record { name = pose; op_type = op_val } ∷ record { name = bonds; op_type = op_bit } ∷ [];
  stats =
      stat_of alive 0 0 0 (list_of 0 (λ _. 0))
      ∷ stat_of dead 0 1 0 (list_of 2 (set (set (λ _. 0) 0 0) 1 1))
      ∷ held_stat
      ∷ stat_of mute 1 2 0 (list_of 1 (set (λ _. 0) 0 1))
      ∷ [];
  operates =
      record { name = walk; check_list = record { num = 1; cell = set (λ _. some 0) 0 (some 0) } }
      ∷ [];
  insted_enter = λ _. false;
  insted_leave = λ _. false;
}

tables-load : load split_word forbid_rows stat_rows operate_rows ≡ some tables
unfolding load load_forbid_names load_stat_info load_stat_rows load_op_info strncpy text_eq
    stat_value read_forbids read_checks words text_to_string_array skip_semicolon split_word
    name_index_from
tables-load = refl

tables_fit : IsFitting tables
tables_fit = record {
  states = omega arith;
  lists = (omega arith, (omega arith, (omega arith, (omega arith, tt))));
  values = (omega arith, (omega arith, (omega arith, (omega arith, tt))));
}

load-IsWellFormed_example : IsWellFormed tables
load-IsWellFormed_example =
    load-IsWellFormed split_word forbid_rows stat_rows operate_rows tables tables-load tables_fit

tables_wf : IsWellFormed tables
tables_wf =
    load-IsWellFormed split_word forbid_rows stat_rows operate_rows tables tables-load tables_fit

abbrev calls : List Call
calls = sets dead ∷ sets held ∷ sets held ∷ clears held ∷ sets mute ∷ []

load-run-Inv_example : Inv tables (run tables calls init)
load-run-Inv_example =
    load-run-Inv split_word forbid_rows stat_rows operate_rows tables tables-load tables_fit calls

run-Inv_example : Inv tables (run tables calls init)
run-Inv_example = run-Inv tables tables_wf calls init (init-Inv tables tables_wf)

held_row : get_elem? tables.stats 2 ≡ some held_stat
held_row = refl

held-IsArgument : IsArgument tables 1 1
held-IsArgument = row-IsArgument tables tables_wf 2 held_row

set_stat-Inv_example : Inv tables (set_stat tables 1 1 init).1
set_stat-Inv_example =
    set_stat-Inv tables tables_wf 1 1 init (init-Inv tables tables_wf) held-IsArgument

replace-Inv_example : Inv tables (replace tables 1 1 init).1
replace-Inv_example =
    replace-Inv tables tables_wf 1 1 init (init-Inv tables tables_wf) held-IsArgument

clear_stat-Inv_example : Inv tables (clear_stat tables 1 1 (set_stat tables 1 1 init).1).1
clear_stat-Inv_example =
    clear_stat-Inv tables tables_wf 1 1 (set_stat tables 1 1 init).1
      (set_stat-Inv tables tables_wf 1 1 init (init-Inv tables tables_wf) held-IsArgument)

abbrev bound : Machine
bound = (set_stat tables 1 1 init).1

bound-Inv : Inv tables bound
bound-Inv = set_stat-Inv tables tables_wf 1 1 init (init-Inv tables tables_wf) held-IsArgument

two_entries : 0 < forbid_num tables
two_entries = omega arith

check_forbid_iff_example : (check_forbid tables 0 bound ≡ true) ↔ IsForbidden tables bound 0
check_forbid_iff_example = check_forbid_iff tables bound bound-Inv 0 two_entries

check_operate_iff_example :
    (check_operate tables 0 bound ≡ false) ↔ IsBlocked tables bound (some 0 ∷ [])
unfolding cells
check_operate_iff_example = check_operate_iff tables bound bound-Inv 0 _ refl

held-IsBit : IsBit tables 2 0 held_stat
unfolding get_op_type state_index_from
held-IsBit = record {
  row = refl;
  of_bits = refl;
  weight = refl;
  small = omega arith;
  inside = omega arith;
  found = refl;
}

held_off : IsAt 2 0 held_stat 0 0 init
unfolding init digit
held_off = record { active_digit = refl; counter = refl; word_size = omega arith }

abbrev set_held : Machine → Machine
set_held m = (set_by_index tables 2 m).1

abbrev clear_held : Machine → Machine
clear_held m = (clear_by_index tables 2 m).1

cleared_as_often_example :
    (check_stat tables 1 1 (times 1 clear_held (times 2 set_held init)) ≡ true)
    × (check_stat tables 1 1 (times 2 clear_held (times 2 set_held init)) ≡ false)
cleared_as_often_example =
    cleared_as_often tables 2 0 held_stat held-IsBit (omega arith) 2 1 0 init (omega arith)
      (omega arith) held_off

cleared_too_early_example : check_stat tables 1 1 (clear_held (times 257 set_held init)) ≡ false
cleared_too_early_example =
    cleared_too_early tables 2 0 held_stat held-IsBit (omega arith) 1 0 init held_off

walk_found : get_operate_index tables walk ≡ some 0
unfolding get_operate_index name_index_from text_eq
walk_found = refl

reason_of_walk :
    get_unoperate_reason tables walk (set_held init) ≡ get_forbid_reason tables 1 (set_held init)
reason_of_walk = reason_of_one tables walk 0 _ (set_held init) walk_found refl refl
