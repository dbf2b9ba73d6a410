-- ===== src/Alarms/Twice.antt =====
-- The daily alarms, updated twice at one time (srv_common/dailyUpdateMgr.cpp).
use apollolib.Base.{
  ℕ, ◌-◌, ◌*◌, ◌≡◌, ◌≢◌, Bool, true, false, List, ◌==◌, ltb, if◌then◌else◌, length, arith, All, ◌<◌,
}
use apollolib.Alarms.Events.{Alarms, Outcome, ahead, fires, rests}
use apollolib.Alarms.Managers.{DailyCfg, daily_outcome, daily_update}
use apollolib.Alarms.Repeated.{update_twice}

choice_not_ahead : (b : Bool) (x y : Outcome) → x ≢ ahead → y ≢ ahead → (if b then x else y) ≢ ahead
choice_not_ahead true x y p q = p
choice_not_ahead false x y p q = q

rests_not_ahead : rests ≢ ahead
rests_not_ahead e = cc (e)

fires_not_ahead : (n : ℕ) → fires n ≢ ahead
fires_not_ahead n e = cc (e)

module _ (day_interval : ℕ → ℕ → ℕ) (from_offset : ℕ → ℕ → ℕ) (bad_read : Outcome) (now : ℕ)
    (same_day : day_interval now now ≡ 0) where
  -- The row has a clock time.
  abbrev pub HasClock : DailyCfg → Type 0
  HasClock c = 0 < length c.time_offsets

  daily_settles :
      (c : DailyCfg)
      → HasClock c
      → daily_outcome day_interval from_offset bad_read now c now ≡ rests
  unfolding daily_outcome
  daily_settles c some_clock =
      let present : ltb now now ≡ false = ground arith in
      let clock : (length c.time_offsets == 0) ≡ false = ground arith in
      rw (present, clock, same_day) (ground arith)

  daily_past :
      (c : DailyCfg)
      → HasClock c
      → daily_outcome day_interval from_offset bad_read now c (now - 24 * 3600) ≢ ahead
  unfolding daily_outcome
  daily_past c some_clock =
      let past : ltb now (now - 86400) ≡ false = ground arith in
      let clock : (length c.time_offsets == 0) ≡ false = ground arith in
      rw (past, clock) (choice_not_ahead _ _ rests (fires_not_ahead _) rests_not_ahead)

  -- When every row has a clock time and no day lies between a time and itself, a second `Update`
  -- of the daily alarms at the same time changes nothing, so that no alarm is called twice:
  -- neither for alarms that have fired nor for those that were set back from the future or rest.
  pub daily_update_twice :
      (cfgs : List DailyCfg) (s : Alarms)
      → All HasClock cfgs
      → daily_update day_interval from_offset bad_read now cfgs
          (daily_update day_interval from_offset bad_read now cfgs s)
        ≡ daily_update day_interval from_offset bad_read now cfgs s
  unfolding daily_update
  daily_update_twice cfgs s clocks =
      update_twice (λ (c : DailyCfg). c.id) (λ c. c.name) now _ _ HasClock daily_settles daily_past
        cfgs s clocks
