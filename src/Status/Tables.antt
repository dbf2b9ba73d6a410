-- ===== src/Status/Tables.antt =====
-- The static tables of `StatMachine` (attribute/stat_machine.h) and the searches in them.
-- Parallel arrays are one list of rows each, and the counts `s_stat_num`, `s_forbid_num`,
-- `s_operate_num` and `s_main_stat_num` are the lengths of the lists. The index -1 is `none`.
use apollolib.Base.{
  ℕ, zero, suc, ◌+◌, Bool, true, Option, none, some, List, [], ◌∷◌, ◌&&◌, ◌==◌, if◌then◌else◌,
  length, get_elem?, Array, set,
}
use apollolib.Base.Text.{Text, text_eq}

-- `E_OP_VAL` and `E_OP_BIT`
pub data OpType : Type 0 where
  op_val op_bit : OpType

-- A C array whose first cell holds the number of the entries behind it.
pub record IntList {ℓ} (A : Type ℓ) : Type ℓ where
  pub num : ℕ
  pub cell : Array A

-- Row i of `s_stat_names`, `s_stat_index_buf`, `s_stat_need_counter` and `s_stat_forbid_buf`.
pub record Stat : Type 0 where
  pub name : Text
  pub field : ℕ
  pub value : ℕ
  pub need_counter : ℕ
  pub forbid_list : IntList ℕ

-- Row i of `s_main_stat_names` and `s_stat_valbit`.
pub record MainStat : Type 0 where
  pub name : Text
  pub op_type : OpType

-- Row i of `s_operate_names` and `s_operate_check_forbid`.
pub record Operate : Type 0 where
  pub name : Text
  pub check_list : IntList (Option ℕ)

pub record Tables : Type 0 where
  pub forbid_names : List Text
  pub main_stats : List MainStat
  pub stats : List Stat
  pub operates : List Operate
  -- whether `s_insted_enter` and `s_insted_leave` hold a function
  pub insted_enter : Array Bool
  pub insted_leave : Array Bool

abbrev pub forbid_num : Tables → ℕ
forbid_num t = length t.forbid_names

abbrev pub main_stat_num : Tables → ℕ
main_stat_num t = length t.main_stats

abbrev pub stat_num : Tables → ℕ
stat_num t = length t.stats

abbrev pub operate_num : Tables → ℕ
operate_num t = length t.operates

-- The entries of a list, from cell `i` on.
unfoldable pub cells {ℓ} : {A : Type ℓ} → Array A → ℕ → ℕ → List A
cells a i zero = []
cells a i (suc n) = a i ∷ cells a (i + 1) n

abbrev pub entries {ℓ} : {A : Type ℓ} → IntList A → List A
entries l = cells l.cell 0 l.num

-- `GetOpType`. Storage that no row fills is zero, which is `E_OP_VAL`.
unfoldable pub get_op_type : Tables → ℕ → OpType
get_op_type t statid = elim (get_elem? t.main_stats statid) [ some m ↦ m.op_type | none ↦ op_val ]

-- `get_state_index`, from row `i` on
unfoldable pub state_index_from : List Stat → ℕ → ℕ → ℕ → Option ℕ
state_index_from [] statid val i = none
state_index_from (s ∷ rest) statid val i =
    if s.field == statid && s.value == val then some i else state_index_from rest statid val (i + 1)

abbrev pub get_state_index : Tables → ℕ → ℕ → Option ℕ
get_state_index t statid val = state_index_from t.stats statid val 0

-- `GET_STAT_INDEX`, over the names from row `i` on
unfoldable pub name_index_from {ℓ} : {A : Type ℓ} → (A → Text) → List A → Text → ℕ → Option ℕ
name_index_from f [] name i = none
name_index_from f (x ∷ rest) name i =
    if text_eq (f x) name then some i else name_index_from f rest name (i + 1)

unfoldable pub get_index : Tables → Text → Option ℕ
get_index t name = name_index_from (λ (s : Stat). s.name) t.stats name 0

unfoldable pub get_forbid_index : Tables → Text → Option ℕ
get_forbid_index t name = name_index_from (λ (s : Text). s) t.forbid_names name 0

unfoldable pub get_operate_index : Tables → Text → Option ℕ
get_operate_index t name = name_index_from (λ (s : Operate). s.name) t.operates name 0

unfoldable pub get_main_index : Tables → Text → Option ℕ
get_main_index t name = name_index_from (λ (s : MainStat). s.name) t.main_stats name 0

unfoldable pub get_name : Tables → ℕ → Option Text
get_name t stat_index = elim (get_elem? t.stats stat_index) [ some s ↦ some s.name | none ↦ none ]

-- `get_main_name`: the name of the field that a state belongs to
unfoldable pub get_main_name : Tables → Text → Option Text
get_main_name t substat_name = elim (get_index t substat_name) [
  | none ↦ none
  | some i ↦ elim (get_elem? t.stats i) [
    | none ↦ none
    | some s ↦ elim (get_elem? t.main_stats s.field) [ some m ↦ some m.name | none ↦ none ]
  ]
]

-- `GlobalInsStatEntry`
unfoldable pub global_ins_stat_entry : Tables → Text → Bool → Option Tables
global_ins_stat_entry t st_name enter = elim (get_index t st_name) [
  | none ↦ none
  | some i ↦ some (
      if enter
      then record t { insted_enter = set t.insted_enter i true }
      else record t { insted_leave = set t.insted_leave i true })
]
