-- ===== src/Alarms/Events.antt =====
-- `AlarmBase` and the loop of the three `Update` methods (srv_common/dailyUpdateMgr.cpp). Times are
-- numbers of seconds, at least a week after their origin.
use apollolib.Base.{
  ℕ, Bool, true, false, Option, none, some, List, [], ◌∷◌, ◌++◌, ◌==◌, ltb, if◌then◌else◌,
}
use apollolib.Base.Text.{Text}

-- `dailyEventInfo`
pub record EventInfo : Type 0 where
  pub id : ℕ
  pub name : Text
  pub last_run_tm : ℕ

-- A call of `UpdateDaily`, `UpdateWeek` or `UpdateMonth` of the owner, with its number of times.
pub record Fired : Type 0 where
  pub alarm : Text
  pub times : ℕ

-- `AlarmBase`, with the calls of the owner, newest first.
pub record Alarms : Type 0 where
  pub last_run_info : List EventInfo
  pub changed : Bool
  pub fired : List Fired

-- What `_UpdateNode` does with an alarm: it sets back a time that lies ahead, calls the owner and
-- takes the time, or does nothing.
pub data Outcome : Type 0 where
  ahead : Outcome
  fires : (times : ℕ) → Outcome
  rests : Outcome

unfoldable pub get_event_info : ℕ → List EventInfo → Option EventInfo
get_event_info id [] = none
get_event_info id (e ∷ l) = if id == e.id then some e else get_event_info id l

unfoldable pub get_last_tm : ℕ → Alarms → ℕ
get_last_tm id s = elim (get_event_info id s.last_run_info) [ none ↦ 0 | some e ↦ e.last_run_tm ]

-- `getLastRunTime`, where `icmp_eq` is the answer 0 of `ndstricmp`
unfoldable pub last_run_from : (Text → Text → Bool) → Text → List EventInfo → ℕ → ℕ
last_run_from icmp_eq alarm_name [] ret = ret
last_run_from icmp_eq alarm_name (e ∷ l) ret = last_run_from icmp_eq alarm_name l (
    if icmp_eq e.name alarm_name
    then (if ltb ret e.last_run_tm then e.last_run_tm else ret)
    else ret)

unfoldable pub get_last_run_time : (Text → Text → Bool) → Text → Alarms → ℕ
get_last_run_time icmp_eq alarm_name s = last_run_from icmp_eq alarm_name s.last_run_info 0

-- A new time for the first entry of an alarm.
unfoldable pub set_last : ℕ → ℕ → List EventInfo → List EventInfo
set_last id t [] = []
set_last id t (e ∷ l) = if id == e.id then record e { last_run_tm = t } ∷ l else e ∷ set_last id t l

unfoldable pub add : ℕ → Text → ℕ → Alarms → Alarms
add id name t s = elim (get_event_info id s.last_run_info) [
  | some e ↦ record s { last_run_info = set_last id t s.last_run_info }
  | none ↦ record s {
    last_run_info = s.last_run_info ++ (record { id = id; name = name; last_run_tm = t } ∷ []);
    changed = true;
  }
]

-- `setEvent`, with the answer of `getNameFromCfg`
unfoldable pub set_event : (ℕ → Option Text) → ℕ → ℕ → Alarms → Bool × Alarms
set_event name_from_cfg id last_run s = elim (name_from_cfg id) [
  | none ↦ (false, s)
  | some name ↦ (true, add id name last_run s)
]

abbrev pub call : Text → ℕ → Alarms → Alarms
call name times s = record s {
  fired = record { alarm = name; times = times } ∷ s.fired;
  changed = true;
}

-- What an outcome does for an alarm that has an entry, and for one that has none.
unfoldable pub apply : ℕ → Text → ℕ → Outcome → Alarms → Alarms
apply id name now rests s = s
apply id name now ahead s = record s {
  last_run_info = set_last id now s.last_run_info;
  changed = true;
}
apply id name now (fires n) s =
    let s' = call name n s in record s' { last_run_info = set_last id now s'.last_run_info }

unfoldable pub apply_first : ℕ → Text → ℕ → Outcome → Alarms → Alarms
apply_first id name now rests s = s
apply_first id name now ahead s = record s { changed = true }
apply_first id name now (fires n) s = add id name now (call name n s)

-- The loop of `Update`: `first` is the outcome for an alarm without an entry, `later` that for
-- one that ran last at a time.
module _ {C : Type 0} (id_of : C → ℕ) (name_of : C → Text) (now : ℕ) (first : C → Outcome)
    (later : C → ℕ → Outcome) where
  unfoldable pub update_one : C → Alarms → Alarms
  update_one c s = elim (get_event_info (id_of c) s.last_run_info) [
    | none ↦ apply_first (id_of c) (name_of c) now (first c) s
    | some e ↦ apply (id_of c) (name_of c) now (later c e.last_run_tm) s
  ]

  unfoldable pub update : List C → Alarms → Alarms
  update [] s = s
  update (c ∷ rest) s = update rest (update_one c s)
