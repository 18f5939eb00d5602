-- ===== src/Web/Api/Limits.antt =====
-- How many rows the table of flows has, and which.
use shadow_stat.Base.{ℕ, ◌≤◌, ◌≡◌, true, false, some, List, length, All}
use shadow_stat.Base.Text.{Text}
use shadow_stat.Base.Decimal.{ℤ}
use shadow_stat.Store.Flows.{FlowRecord}
use shadow_stat.Store.Series.{flow_in_range}
use shadow_stat.Web.Api.{parse_id_param, parse_range}

-- The rows of an answer are of the host and the range that were asked for, and at most 5000.
pub record IsAnswered (id from to : Text) (rows : List FlowRecord) : Type 0 where
  pub host_id : ℕ
  pub host : parse_id_param id ≡ some host_id
  pub range : ℤ × ℤ
  pub between : parse_range from to ≡ some range
  pub inside : All (λ f. flow_in_range false host_id range.0 range.1 f ≡ true) rows
  pub few : length rows ≤ 5000
