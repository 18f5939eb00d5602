-- ===== src/Detect/Spaced.antt =====
-- The cooldown of alerts, at each alert that a detector raises.
use shadow_stat.Base.{String}
use shadow_stat.Store.Alerts.Spacing.{IsSpaced}
use shadow_stat.Detect.Raise.{cooldown, raise_alert-IsSpaced, Raises}

-- Every kind of alert keeps the spacing.
pub Raises-IsSpaced : (kind : String) → Raises (λ t. IsSpaced cooldown t.rows) kind
Raises-IsSpaced kind e a t same s = raise_alert-IsSpaced cooldown e a t s
