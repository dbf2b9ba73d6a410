-- ===== src/Alarms/Tests.antt =====
-- Runs of the alarms on a calendar of days, weeks and months of 30 days.
use apollolib.Base.{ℕ, ◌+◌, ◌-◌, ◌*◌, ◌/◌, ◌≡◌, refl, false, List, [], ◌∷◌}
use apollolib.Alarms.Events.{rests, Alarms}
use apollolib.Alarms.Managers.{DailyCfg, WeeklyCfg, daily_update}
use native.Mathlib.Omega.{arith}
use apollolib.Alarms.Packing.{pack_event, unpack_event, unpack_event-pack_event}
use apollolib.Alarms.Twice.{daily_update_twice}

abbrev day_interval : ℕ → ℕ → ℕ
day_interval a b = a / 86400 - b / 86400

abbrev from_offset : ℕ → ℕ → ℕ
from_offset o now = now / 86400 * 86400 + o

abbrev week_index : ℕ → ℕ
week_index t = t / 604800

abbrev from_week : ℕ → ℕ → ℕ → ℕ
from_week d o now = now / 604800 * 604800 + d * 86400 + o

abbrev from_month : ℕ → ℕ → ℕ → ℕ
from_month d o now = now / 2592000 * 2592000 + d * 86400 + o

abbrev present : ℕ
present = 9000000

abbrev daily : List DailyCfg
daily = record { id = 1; time_offsets = 3600 ∷ 7200 ∷ []; name = b'a' ∷ [] } ∷ []

abbrev weekly : List WeeklyCfg
weekly = record { id = 2; day_index = 1; time_offset = 60; name = b'w' ∷ [] } ∷ []

abbrev no_alarms : Alarms
no_alarms = record { last_run_info = []; changed = false; fired = [] }

daily_update_twice_example :
    daily_update day_interval from_offset rests present daily
      (daily_update day_interval from_offset rests present daily no_alarms)
    ≡ daily_update day_interval from_offset rests present daily no_alarms
daily_update_twice_example =
    daily_update_twice day_interval from_offset rests present refl daily no_alarms (omega arith, tt)

unpack_event-pack_event_example : unpack_event (pack_event 1201 1700000000) ≡ (1201, 1700000000)
unpack_event-pack_event_example =
    unpack_event-pack_event 1201 1700000000 (omega arith) (omega arith)
