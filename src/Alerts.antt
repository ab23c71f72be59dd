-- ===== src/Alerts.antt =====
-- alerts/alerts.go: the manager of alerts. A timestamp is nanoseconds since the zero time.
pub mod Pages
use Prim.Native.String.{String}
use text.Mathlib.Text.{◌==◌ as str_eq}
use sia_optimization_proposa.Prelude.{
  ℕ, suc, ◌+◌, Bool, true, false, ◌||◌, ◌&&◌, not, Option, none, some, List, [], ◌∷◌, map,
  if◌then◌else◌, ◌==◌, ltb, leb, length, take, drop, keep,
}
use sia_optimization_proposa.Prelude.Int.{ℤ, pos, pos_part, ltb_ℤ, leb_ℤ}
use sia_optimization_proposa.Prelude.Maps.{Map, insert, delete}
use sia_optimization_proposa.Prelude.Sorting.{sort_by}

-- `Data["origin"]`: no such key, a string, or another value.
pub data Origin : Type 0 where
  no_origin other_value : Origin
  origin : String → Origin

-- `data` is `none` where the map is nil.
pub record Alert : Type 0 where
  pub id : ℕ
  pub severity : ℕ
  pub message : String
  pub data_origin : Option Origin
  pub timestamp : ℕ

pub data RegisterError : Type 0 where
  zero_id zero_timestamp no_severity no_message missing_origin : RegisterError

-- `Data == nil || Data["origin"] == ""`; a missing key is a nil interface, which is no string.
unfoldable pub lacks_origin : Option Origin → Bool
lacks_origin none = true
lacks_origin (some no_origin) = false
lacks_origin (some other_value) = false
lacks_origin (some (origin s)) = str_eq s ""

unfoldable pub register_error : Alert → Option RegisterError
register_error a =
    if a.id == 0
    then some zero_id
    else if a.timestamp == 0
    then some zero_timestamp
    else if a.severity == 0
    then some no_severity
    else if str_eq a.message ""
    then some no_message
    else if lacks_origin a.data_origin
    then some missing_origin
    else none

-- `RegisterAlert`: the alerts behind it, and its error.
unfoldable pub register_alert : Map Alert → Alert → Map Alert × Option RegisterError
register_alert alerts a = elim (register_error a) [
  | some e ↦ (alerts, some e)
  | none ↦ (insert a.id a alerts, none)
]

-- `originAlerter.RegisterAlert`
unfoldable pub register_with_origin : String → Map Alert → Alert → Map Alert × Option RegisterError
unfolding register_alert
register_with_origin s alerts a = register_alert alerts (record a { data_origin = some (origin s) })

unfoldable pub dismiss_alerts : Map Alert → List ℕ → Map Alert
dismiss_alerts alerts [] = alerts
dismiss_alerts alerts (id ∷ ids) = dismiss_alerts (delete id alerts) ids

pub record AlertsOpts : Type 0 where
  pub offset : ℤ
  pub limit : ℤ
  pub severity : ℕ

pub record AlertsResponse : Type 0 where
  pub alerts : List Alert
  pub has_more : Bool
  pub info : ℕ
  pub warning : ℕ
  pub error : ℕ
  pub critical : ℕ

-- `AlertsResponse.Total`
unfoldable pub total : AlertsResponse → ℕ
total r = r.info + r.warning + r.error + r.critical

abbrev pub count : ℕ → List Alert → ℕ
count severity alerts = length (keep (λ (a : Alert). a.severity == severity) alerts)

abbrev pub newer : Alert → Alert → Bool
newer a b = ltb b.timestamp a.timestamp

abbrev pub values : Map Alert → List Alert
values alerts = map (λ (e : ℕ × Alert). e.1) alerts

-- The alerts of the severity that is asked for, newest first.
unfoldable pub filtered : Map Alert → ℕ → List Alert
filtered alerts severity =
    sort_by newer (keep (λ (a : Alert). severity == 0 || a.severity == severity) (values alerts))

abbrev pub totals_only : Map Alert → AlertsResponse
totals_only alerts = record {
  alerts = [];
  has_more = false;
  info = count 1 (values alerts);
  warning = count 2 (values alerts);
  error = count 3 (values alerts);
  critical = count 4 (values alerts);
}

-- The offset and the limit; `none` is the panic of a slice with a negative bound.
unfoldable pub page : AlertsResponse → List Alert → ℤ → ℤ → Option AlertsResponse
page resp found offset limit =
    let rest = drop (pos_part offset) found in
    if leb_ℤ (pos (length found)) offset
    then some resp
    else if ltb_ℤ offset (pos 0)
    then none
    else if ltb_ℤ (pos 0) limit && ltb_ℤ limit (pos (length rest))
    then some (record resp { alerts = take (pos_part limit) rest; has_more = true })
    else some (record resp { alerts = rest })

-- `Alerts`
unfoldable pub get_alerts : Map Alert → AlertsOpts → Option AlertsResponse
get_alerts alerts opts =
    page (totals_only alerts) (filtered alerts opts.severity) opts.offset opts.limit
