-- ===== src/Reports/Keys.antt =====
-- The report reads back the users and the counters of the keys that the services write
-- (backend/app/utils/redis_client.py, backend/scripts/daily_quota_report.py).
use pdftalk.Prelude.{
  ◌*◌, ◌<◌, Bool, Option, none, map, leb, if◌then◌else◌, ℕ, ◌≡◌, false, some, List, ◌==◌, All,
}
use pdftalk.Reports.{Alert, warning, alert, QuotaType, key_daily_quota, colon}
use pdftalk.Prelude.Table.{select}

abbrev pub HasNoColon : List ℕ → Type 0
HasNoColon = All (λ ch. (ch == colon) ≡ false)

abbrev pub or_zero : Option ℕ → ℕ
or_zero none = 0
or_zero (some n) = n

-- Who has used at least 80 percent of a limit, and how that is reported.
abbrev pub is_near : ℕ → (List ℕ → ℕ) → List ℕ → Bool
is_near limit used u = leb (80 * limit) (100 * used u)

abbrev pub alert_for : QuotaType → ℕ → (List ℕ → ℕ) → List ℕ → Alert
alert_for kind limit used u = record {
  level = if leb limit (used u) then alert else warning;
  quota_type = kind;
  user_id = u;
  used = used u;
  limit = limit;
}

-- The alerts of one quota, in the order of the users.
abbrev pub near_limit : QuotaType → ℕ → (List ℕ → ℕ) → List (List ℕ) → List Alert
near_limit kind limit used users =
    map (alert_for kind limit used) (select (is_near limit used) users)

module _ (get : List ℕ → Option ℕ) (kind : QuotaType) (limit : ℕ) (today : List ℕ)
    (positive : 0 < limit) (day : HasNoColon today) where
  abbrev used_today : List ℕ → ℕ
  used_today u = or_zero (get (key_daily_quota kind today u))
