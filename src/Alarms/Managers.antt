-- ===== src/Alarms/Managers.antt =====
-- `DailyUpdateMgr`, `WeekAlarmMgr` and `MonthAlarmMgr` (srv_common/dailyUpdateMgr.cpp). The functions
-- of the calendar belong to a library: they are parameters, at the time zone of the manager.
use apollolib.Base.{
  ℕ, ◌+◌, ◌-◌, ◌*◌, Option, none, some, List, [], ◌∷◌, ◌==◌, ltb, leb, if◌then◌else◌, length, map,
}
use apollolib.Base.Text.{Text}
use apollolib.Alarms.Events.{Alarms, Outcome, ahead, fires, rests, update}

-- `dailyUpdateCfg`
pub record DailyCfg : Type 0 where
  pub id : ℕ
  pub time_offsets : List ℕ
  pub name : Text

-- `WeeklyUpdateCfg`
pub record WeeklyCfg : Type 0 where
  pub id : ℕ
  pub day_index : ℕ
  pub time_offset : ℕ
  pub name : Text

abbrev pub day : ℕ
day = 86400

unfoldable pub get_daily_cfg : ℕ → List DailyCfg → Option DailyCfg
get_daily_cfg id [] = none
get_daily_cfg id (c ∷ l) = if c.id == id then some c else get_daily_cfg id l

unfoldable pub get_weekly_cfg : ℕ → List WeeklyCfg → Option WeeklyCfg
get_weekly_cfg id [] = none
get_weekly_cfg id (c ∷ l) = if c.id == id then some c else get_weekly_cfg id l

unfoldable pub weekly_offset : ℕ → List WeeklyCfg → ℕ
weekly_offset id l = elim (get_weekly_cfg id l) [ none ↦ 0 | some c ↦ c.time_offset ]

-- How many of the clock times a time has reached.
unfoldable pub reached : ℕ → List ℕ → ℕ
reached t [] = 0
reached t (c ∷ l) = (if leb c t then 1 else 0) + reached t l

unfoldable pub last_or : ℕ → List ℕ → ℕ
last_or a [] = a
last_or a (c ∷ l) = last_or c l

-- `nd_time_day_interval_ex`, `nd_time_from_offset`. For a row without clock times the code reads
-- `clock_seconds[-1]`, before its vector: what comes of that read is `bad_read`, which nothing is known of.
module _ (day_interval : ℕ → ℕ → ℕ) (from_offset : ℕ → ℕ → ℕ) (bad_read : Outcome) (now : ℕ) where
  -- `_UpdateNode` of a daily alarm
  unfoldable pub daily_outcome : DailyCfg → ℕ → Outcome
  daily_outcome cfg last =
      let days = day_interval now last in
      let renewed : ℕ = if ltb 0 days then days * length cfg.time_offsets else 0 in
      let last' : ℕ = if ltb 0 days then last + days * 24 * 3600 else last in
      let clocks = map (λ o. from_offset o now) cfg.time_offsets in
      let all_clocks = (last_or 0 clocks - 3600 * 24) ∷ clocks in
      let renew_times = renewed + reached now all_clocks in
      if ltb now last
      then ahead
      else (if length cfg.time_offsets == 0
          then bad_read
          else (if ltb (reached last' all_clocks) renew_times
              then fires (renew_times - reached last' all_clocks)
              else rests))

  unfoldable pub daily_update : List DailyCfg → Alarms → Alarms
  daily_update cfgs s =
      update (λ (c : DailyCfg). c.id) (λ c. c.name) now (λ c. daily_outcome c (now - 24 * 3600))
        daily_outcome cfgs s

-- `nd_time_week_index`, `nd_time_from_week`
module _ (week_index : ℕ → ℕ) (from_week : ℕ → ℕ → ℕ → ℕ) (now : ℕ) where
  unfoldable pub weekly_outcome : WeeklyCfg → ℕ → Outcome
  weekly_outcome cfg last =
      if ltb now last
      then ahead
      else (if week_index now == week_index last
          then rests
          else (if ltb now (from_week cfg.day_index cfg.time_offset now) then rests else fires 1))

  unfoldable pub weekly_update : List WeeklyCfg → Alarms → Alarms
  weekly_update cfgs s =
      update (λ (c : WeeklyCfg). c.id) (λ c. c.name) now
        (λ c. weekly_outcome c (now - 7 * 24 * 3600)) weekly_outcome cfgs s

-- `tm_year` and `tm_mon` of `gmtime_r` of a time that is moved by the time zone, and
-- `nd_time_from_month`. `local_of` moves a time.
module _ (local_of : ℕ → ℕ) (tm_year tm_mon : ℕ → ℕ) (from_month : ℕ → ℕ → ℕ → ℕ) (now : ℕ) where
  unfoldable pub monthly_outcome : WeeklyCfg → ℕ → Outcome
  monthly_outcome cfg last =
      let now' = local_of now in
      let last' = local_of last in
      let early = ltb now' (from_month cfg.day_index cfg.time_offset now) in
      if tm_year now' == tm_year last' + 1
      then (if ltb now' (last' + 31 * 24 * 3600) then rests else fires 1)
      else (if tm_year now' == tm_year last'
          then (if leb (tm_mon now') (tm_mon last')
              then rests
              else (if tm_mon now' == tm_mon last' + 1
                  then (if early then rests else fires 1)
                  else fires 1))
          else fires 1)

  unfoldable pub monthly_update : List WeeklyCfg → Alarms → Alarms
  monthly_update cfgs s =
      update (λ (c : WeeklyCfg). c.id) (λ c. c.name) now
        (λ c. if leb (from_month c.day_index c.time_offset now) now then fires 1 else rests)
        monthly_outcome cfgs s
