-- ===== src/Detect/Scheduler/Spaced.antt =====
-- The cooldown of alerts over whole runs of the scheduler.
use shadow_stat.Base.{Bool, true, false, List, [], ◌∷◌, All, update_where, if◌then◌else◌}
use shadow_stat.Base.Float.{Float}
use shadow_stat.Store.Alerts.{Alert, acknowledged}
use shadow_stat.Store.Alerts.Spacing.{Cooldowns, IsLater, IsSpaced, same_alert}
use shadow_stat.Detect.Raise.{Texts, cooldown}
use shadow_stat.Detect.GeoWatchlist.{GeoTools}
use shadow_stat.Detect.Spaced.{Raises-IsSpaced}
use shadow_stat.Detect.Scheduler.{Detected, Tick, run_tick, run_scheduler}
use shadow_stat.Detect.Scheduler.Ticks.{run_tick-keeps}

-- A property that does not look at the acknowledgement.
All-acknowledged :
    (P : Alert → Type 0)
    → ((a : Alert) → P a → P (acknowledged a))
    → (p : Alert → Bool) (rows : List Alert) → All P rows
    → All P (update_where p acknowledged rows)
All-acknowledged P k p [] h = tt
All-acknowledged P k p (a ∷ rest) h = (one (p a), All-acknowledged P k p rest h.1)
  where
    one : (b : Bool) → P (if b then acknowledged a else a)
    one true = k a h.0
    one false = h.0

IsLater-acknowledged :
    (cool : Cooldowns) (b : Bool) (a : Alert) (rest : List Alert)
    → All (IsLater cool a) rest
    → All (IsLater cool (if b then acknowledged a else a)) rest
unfolding same_alert
IsLater-acknowledged cool true a rest h = h
IsLater-acknowledged cool false a rest h = h

IsSpaced-acknowledged :
    (cool : Cooldowns) (p : Alert → Bool) (rows : List Alert)
    → IsSpaced cool rows
    → IsSpaced cool (update_where p acknowledged rows)
unfolding same_alert
IsSpaced-acknowledged cool p [] s = tt
IsSpaced-acknowledged cool p (a ∷ rest) s = (
  IsLater-acknowledged cool (p a) a (update_where p acknowledged rest)
      (All-acknowledged (IsLater cool a) (λ b h. h) p rest s.0),
  IsSpaced-acknowledged cool p rest s.1,
)

-- Whichever detectors are enabled, in whatever order the ticks come, whatever the tables hold then,
-- whichever calls fail, and whatever is acknowledged in between: two alerts of the same host, kind
-- and dedupe key are more than the cooldown of that kind and key apart, the later inserted one
-- later.
pub run_scheduler-IsSpaced {ℓ} :
    {F : Type ℓ} (float : Float F) (g : GeoTools) (x : Texts) (ticks : List Tick) (d : Detected)
    → IsSpaced cooldown (d.alerts).rows
    → IsSpaced cooldown ((run_scheduler float g x ticks d).alerts).rows
unfolding run_scheduler
run_scheduler-IsSpaced float g x [] d s = s
run_scheduler-IsSpaced float g x (t ∷ rest) d s =
    run_scheduler-IsSpaced float g x rest (run_tick float g x t d) (
      run_tick-keeps float g x (λ a. IsSpaced cooldown a.rows) t d (λ kind on. Raises-IsSpaced kind)
        (λ p a. IsSpaced-acknowledged cooldown p a.rows) s)
