-- ===== src/Web/Api/Saved.antt =====
-- What saving the settings does to the next start.
use shadow_stat.Base.{◌≡◌, ◌≢◌, refl, ap, false, none, some, [], ◌∷◌, string_eq}
use shadow_stat.Base.Assoc.{lookup-insert}
use shadow_stat.Base.Text.{Text, codes}
use shadow_stat.Base.Decimal.{atoi}
use shadow_stat.Store.Settings.{SettingsTable, set_settings, insert_all, key_retention_days}
use shadow_stat.Config.{load, parse_retention_days_failed, value_of, value_or, or_empty}
use shadow_stat.Web.Api.{answers, put_settings_handler}

nonempty-value : (v def : Text) → v ≢ [] → value_or v def ≡ v
unfolding value_or
nonempty-value [] def h = elim (h refl) [ ]
nonempty-value (c ∷ v) def h = refl

-- A text for the number of days that is no number and not empty is accepted, and from then on Load
-- fails, so the program does not start.
pub put_settings_handler-load :
    (t : SettingsTable) (days : Text)
    → days ≢ []
    → atoi days ≡ none
    → (put_settings_handler false (some ((key_retention_days, days) ∷ [])) t).0 ≡ answers false
      × (load false (put_settings_handler false (some ((key_retention_days, days) ∷ [])) t).1
          ≡ parse_retention_days_failed)
unfolding put_settings_handler set_settings insert_all load value_of
put_settings_handler-load t days h k = (
  refl,
  rw
      (
        ap or_empty (lookup-insert key_retention_days key_retention_days days t),
        nonempty-value days (codes "30") h,
        k,
      )
      refl,
)
