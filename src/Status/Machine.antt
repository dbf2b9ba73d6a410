-- ===== src/Status/Machine.antt =====
-- `StatMachine` (attribute/stat_machine.cpp): one function for each method that changes a machine.
-- The virtual `OnXxx` methods and the installed callbacks are a log of calls, newest first.
use apollolib.Base.{
  ℕ, zero, suc, ◌+◌, ◌-◌, ◌%◌, ◌^◌, Bool, true, false, Option, none, some, List, [], ◌∷◌, ◌==◌, ltb,
  if◌then◌else◌, get_elem?, Array, set, bit_and, bit_xor,
}
use apollolib.Status.Tables.{
  op_val, op_bit, Tables, forbid_num, entries, get_op_type, get_state_index,
}

pub data Event : Type 0 where
  -- `OnChange`, `OnEnter`, `OnLeave`, `OnEnterForbid`, `OnLeaveForbid`
  changed : (statid newval : ℕ) → Event
  entered left entered_forbid left_forbid : (index : ℕ) → Event
  -- a call through `s_insted_enter`, `s_insted_leave`
  enter_hook leave_hook : (index : ℕ) → Event

pub record Machine : Type 0 where
  pub stbuf : Array ℕ
  pub forbid_buf : Array ℕ
  pub refcount : Array ℕ
  -- each row has `FORBID_CHANGE_TIMES` cells; `none` is -1
  pub forbid_changed_list : Array (List (Option ℕ))
  pub log : List Event

abbrev pub no_reasons : List (Option ℕ)
no_reasons = none ∷ none ∷ none ∷ none ∷ none ∷ none ∷ none ∷ none ∷ []

-- `StatMachine::StatMachine`
unfoldable pub init : Machine
init = record {
  stbuf = λ _. 0;
  forbid_buf = λ _. 0;
  refcount = λ _. 0;
  forbid_changed_list = λ _. no_reasons;
  log = [];
}

abbrev pub word : ℕ → ℕ
word n = n % 2 ^ 32

abbrev pub byte : ℕ → ℕ
byte n = n % 2 ^ 8

-- `~x` of an `unsigned int`
abbrev pub complement : ℕ → ℕ
complement x = bit_xor x (2 ^ 32 - 1)

abbrev pub add_log : Event → Machine → Machine
add_log e m = record m { log = e ∷ m.log }

abbrev is_slot : Option ℕ → Option ℕ → Bool
is_slot none none = true
is_slot none (some y) = false
is_slot (some x) none = false
is_slot (some x) (some y) = x == y

-- The scan of a row of `m_forbid_changed_list`: the first cell that holds `old` becomes `new`.
unfoldable pub replace_first : Option ℕ → Option ℕ → List (Option ℕ) → List (Option ℕ)
replace_first old new [] = []
replace_first old new (x ∷ rest) =
    if is_slot x old then new ∷ rest else x ∷ replace_first old new rest

module _ (t : Tables) where
  unfoldable pub inc_forbid : ℕ → ℕ → Machine → Machine
  inc_forbid forbid_index raise_stat m =
      let p = word (m.forbid_buf forbid_index + 1) in
      let m' = record m { forbid_buf = set m.forbid_buf forbid_index p } in
      let m'' = if p == 1 then add_log (entered_forbid forbid_index) m' else m' in
      if ltb forbid_index (forbid_num t)
      then record m'' {
        forbid_changed_list =
            set m''.forbid_changed_list forbid_index
              (replace_first none (some raise_stat) (m''.forbid_changed_list forbid_index));
      }
      else m

  unfoldable pub dec_forbid : ℕ → ℕ → Machine → Machine
  dec_forbid forbid_index raise_stat m =
      let p = m.forbid_buf forbid_index - 1 in
      let m' = record m { forbid_buf = set m.forbid_buf forbid_index p } in
      let m'' = if p == 0 then add_log (left_forbid forbid_index) m' else m' in
      if ltb forbid_index (forbid_num t)
      then (if ltb 0 (m.forbid_buf forbid_index)
          then record m'' {
            forbid_changed_list =
                set m''.forbid_changed_list forbid_index
                  (replace_first (some raise_stat) none (m''.forbid_changed_list forbid_index));
          }
          else m)
      else m

  -- The loops of `change_forbids_values` over the entries of a list.
  unfoldable pub inc_forbids : List ℕ → ℕ → Machine → Machine
  inc_forbids [] i m = m
  inc_forbids (f ∷ rest) i m = inc_forbids rest i (inc_forbid f i m)

  unfoldable pub dec_forbids : List ℕ → ℕ → Machine → Machine
  dec_forbids [] i m = m
  dec_forbids (f ∷ rest) i m = dec_forbids rest i (dec_forbid f i m)

  unfoldable pub change_forbids_values : ℕ → Bool → Machine → Machine
  change_forbids_values i flag m = elim (get_elem? t.stats i) [
    | none ↦ m
    | some s ↦
        if flag
        then inc_forbids (entries s.forbid_list) i m
        else dec_forbids (entries s.forbid_list) i m
  ]

  -- The part of `on_status_set` for one state, and that of `on_status_clear`.
  unfoldable pub enter_state : ℕ → Machine → Machine
  enter_state i m =
      let m' = add_log (entered i) (change_forbids_values i true m) in
      let m'' = record m' { refcount = set m'.refcount i 1 } in
      if t.insted_enter i then add_log (enter_hook i) m'' else m''

  unfoldable pub leave_state : ℕ → Machine → Machine
  leave_state i m =
      let m' = add_log (left i) (change_forbids_values i false m) in
      let m'' = record m' { refcount = set m'.refcount i 0 } in
      if t.insted_leave i then add_log (leave_hook i) m'' else m''

  -- `while (val)` over the digits that are set, lowest first. An unknown digit ends the loop.
  -- Each round clears a digit, so `val` rounds are enough fuel.
  unfoldable pub each_bit {ℓ} : {S : Type ℓ} → (ℕ → ℕ → S → S) → ℕ → ℕ → ℕ → S → S
  each_bit body statid zero val m = m
  each_bit body statid (suc fuel) zero m = m
  each_bit body statid (suc fuel) (suc v) m =
      let val = suc v in
      let tmp = bit_and val (val - 1) in
      let index = bit_xor tmp val in
      elim (get_state_index t statid index) [
        | none ↦ m
        | some i ↦ each_bit body statid fuel tmp (body index i m)
      ]

  unfoldable pub on_status_set : ℕ → ℕ → Machine → Machine
  on_status_set statid val m = elim (get_op_type t statid) [
    | op_val ↦ elim (get_state_index t statid val) [ none ↦ m | some i ↦ enter_state i m ]
    | op_bit ↦ each_bit (λ _ i. enter_state i) statid val val m
  ]

  unfoldable pub on_status_clear : ℕ → ℕ → Machine → Machine
  on_status_clear statid val m = elim (get_op_type t statid) [
    | op_val ↦ elim (get_state_index t statid val) [ none ↦ m | some i ↦ leave_state i m ]
    | op_bit ↦ each_bit (λ _ i. leave_state i) statid val val m
  ]
