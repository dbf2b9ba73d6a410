-- ===== src/Status/Loader.antt =====
-- `StatMachine::load` and its three readers (attribute/stat_data.cpp). The rows of a table come
-- from the data base library as lists. The arrays of the program have room for 64 states, 32
-- forbid entries, 32 operations and 8 fields, and its readers do not check that the rows fit:
-- here the lists are as long as the rows ask for.
use apollolib.Base.{
  ℕ, zero, suc, ◌+◌, ◌-◌, ◌^◌, Bool, true, false, not, ◌&&◌, ◌||◌, Option, none, some, List, [],
  ◌∷◌, ◌==◌, if◌then◌else◌, length, set,
}
use apollolib.Base.Text.{Text, text_eq, strncpy}
use apollolib.Status.Tables.{
  OpType, op_val, op_bit, IntList, Stat, MainStat, Operate, Tables, name_index_from,
}

-- A row of the forbid list; the name is `none` where `CheckValid` fails.
pub record ForbidRow : Type 0 where
  pub name : Option Text

pub record StatRow : Type 0 where
  pub stname : Text
  pub mutex : Bool
  pub subname : Text
  pub forbid_text : Text
  pub iscount : ℕ

pub record OperateRow : Type 0 where
  pub name : Text
  pub checklist : Text

abbrev pub stat_name_size : ℕ
stat_name_size = 32

abbrev pub semicolon : ℕ
semicolon = b';'

unfoldable pub skip_semicolon : Text → Text
skip_semicolon [] = []
skip_semicolon (c ∷ rest) = if c == semicolon then rest else c ∷ rest

-- The reader of one word up to `;`, `ndstr_str_end`, gives the word and what follows it.
module _ (str_end : Text → Text × Text) where
  -- The loop of `text2StringArray`. Each round takes a character at least.
  unfoldable pub words : ℕ → Text → List Text
  words zero src = []
  words (suc fuel) [] = []
  words (suc fuel) (c ∷ src) =
      let (word, p) = str_end (c ∷ src) in
      let rest = words fuel (skip_semicolon p) in elim word [ [] ↦ rest | b ∷ w ↦ (b ∷ w) ∷ rest ]

  unfoldable pub text_to_string_array : Text → List Text
  text_to_string_array src = words (length src) src

-- `load_forbid_names`; `none` is the result -1.
unfoldable pub load_forbid_names : List ForbidRow → Option (List Text)
load_forbid_names [] = some []
load_forbid_names (r ∷ rows) = elim r.name [
  | none ↦ none
  | some name ↦ elim (load_forbid_names rows) [
    | none ↦ none
    | some names ↦ some (strncpy stat_name_size name ∷ names)
  ]
]

abbrev pub forbid_index_of : List Text → Text → Option ℕ
forbid_index_of names name = name_index_from (λ (s : Text). s) names name 0

abbrev pub no_entries {ℓ} : {A : Type ℓ} → A → IntList A
no_entries a = record { num = 0; cell = λ _. a }

-- The loop over the words of a forbid list, at word `n`: a known word goes to cell n.
unfoldable pub read_forbids : List Text → ℕ → List Text → IntList ℕ → IntList ℕ
read_forbids names n [] l = l
read_forbids names n (w ∷ rest) l =
    read_forbids names (n + 1) rest (elim (forbid_index_of names w) [
      | none ↦ l
      | some a ↦ record { num = l.num + 1; cell = set l.cell n a }
    ])

-- The loop over the words of a check list. Its test holds of every index, -1 included.
unfoldable pub read_checks : List Text → ℕ → List Text → IntList (Option ℕ) → IntList (Option ℕ)
read_checks names n [] l = l
read_checks names n (w ∷ rest) l =
    read_checks names (n + 1) rest
      (record { num = l.num + 1; cell = set l.cell n (forbid_index_of names w) })

unfoldable pub stat_value : OpType → ℕ → ℕ
stat_value op_val sub = sub
stat_value op_bit sub = 2 ^ sub

abbrev pub is_val : OpType → Bool
is_val op_val = true
is_val op_bit = false

-- A row before the rest of the tables.
abbrev pub add_row :
    Bool → MainStat → Stat → Option (List MainStat × List Stat) → Option (List MainStat × List Stat)
add_row is_new_field main stat none = none
add_row is_new_field main stat (some (mains, stats)) =
    some (if is_new_field then main ∷ mains else mains, stat ∷ stats)

module _ (str_end : Text → Text × Text) (names : List Text) where
  abbrev pub forbids_of : StatRow → IntList ℕ
  forbids_of r = read_forbids names 0 (text_to_string_array str_end r.forbid_text) (no_entries 0)

  -- `load_stat_info`, with `cur_main` + 1 fields so far, the name and the kind of the last one and
  -- the number `cur_sub` of its states. `none` is the result -1.
  unfoldable pub load_stat_rows :
      List StatRow → ℕ → Text → OpType → ℕ → Option (List MainStat × List Stat)
  load_stat_rows [] fields last op sub = some ([], [])
  load_stat_rows (r ∷ rows) fields last op sub =
      let is_new_field = fields == 0 || not (text_eq last r.stname) in
      let fields' = if is_new_field then fields + 1 else fields in
      let last' = if is_new_field then r.stname else last in
      let op' = if is_new_field then (if r.mutex then op_bit else op_val) else op in
      let sub' : ℕ = if is_new_field then 0 else sub in
      let main : MainStat = record { name = strncpy stat_name_size r.stname; op_type = op' } in
      let stat : Stat = record {
        name = strncpy stat_name_size r.subname;
        field = fields' - 1;
        value = stat_value op' sub';
        need_counter = r.iscount;
        forbid_list = forbids_of r;
      } in
      let rest = load_stat_rows rows fields' last' op' (sub' + 1) in
      if is_new_field && not ((forbids_of r).num == 0) && is_val op'
      then none
      else add_row is_new_field main stat rest

  unfoldable pub load_stat_info : List StatRow → Option (List MainStat × List Stat)
  load_stat_info rows = load_stat_rows rows 0 [] op_val 0

  unfoldable pub load_op_info : List OperateRow → List Operate
  load_op_info [] = []
  load_op_info (r ∷ rows) =
      record {
        name = strncpy stat_name_size r.name;
        check_list =
            read_checks names 0 (text_to_string_array str_end r.checklist) (no_entries (some 0));
      }
      ∷ load_op_info rows

unfoldable pub load :
    (Text → Text × Text) → List ForbidRow → List StatRow → List OperateRow → Option Tables
load str_end forbid_rows stat_rows operate_rows = elim (load_forbid_names forbid_rows) [
  | none ↦ none
  | some names ↦ elim (load_stat_info str_end names stat_rows) [
    | none ↦ none
    | some (mains, stats) ↦ some (record {
      forbid_names = names;
      main_stats = mains;
      stats = stats;
      operates = load_op_info str_end names operate_rows;
      insted_enter = λ _. false;
      insted_leave = λ _. false;
    })
  ]
]
