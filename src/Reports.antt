-- ===== src/Reports.antt =====
-- backend/scripts/daily_quota_report.py, with the keys of backend/app/utils/redis_client.py that it
-- reads: the counters of one day, and the alerts for users near or over a limit.
pub mod Keys
use pdftalk.Prelude.{
  ℕ, ◌*◌, Bool, Option, none, some, List, [], ◌∷◌, ◌++◌, leb, ◌==◌, if◌then◌else◌,
}
use pdftalk.Prelude.Text.{codes}

-- A text is the list of its characters.
abbrev pub colon : ℕ
colon = 58

pub data QuotaType : Type 0 where
  token_quota query_quota : QuotaType

abbrev prefix_of : QuotaType → List ℕ
prefix_of token_quota = codes "quota:tokens:"
prefix_of query_quota = codes "quota:queries:"

-- `key_daily_token_quota` and `key_daily_query_quota`: f"quota:tokens:{user_id}:{today}"
unfoldable pub key_daily_quota : QuotaType → List ℕ → List ℕ → List ℕ
key_daily_quota kind today user_id = prefix_of kind ++ (user_id ++ (colon ∷ today))

abbrev push_char : ℕ → List (List ℕ) → List (List ℕ)
push_char ch [] = (ch ∷ []) ∷ []
push_char ch (part ∷ parts) = (ch ∷ part) ∷ parts

-- `key.split(":")`
pub split_colon : List ℕ → List (List ℕ)
split_colon [] = [] ∷ []
split_colon (ch ∷ key) =
    let parts = split_colon key in if ch == colon then [] ∷ parts else push_char ch parts

-- `parts[2]`, if there are four parts.
abbrev pub third_of_four : List (List ℕ) → Option (List ℕ)
third_of_four (a ∷ b ∷ user_id ∷ d ∷ []) = some user_id
third_of_four _ = none

pub data Level : Type 0 where
  warning alert : Level

-- What `_build_slack_payload` is told.
pub record Alert : Type 0 where
  pub level : Level
  pub quota_type : QuotaType
  pub user_id : List ℕ
  pub used : ℕ
  pub limit : ℕ

-- The arguments of `_build_slack_payload`.
abbrev pub alert_at : Level → QuotaType → List ℕ → ℕ → ℕ → Alert
alert_at level kind user_id used limit = record {
  level = level;
  quota_type = kind;
  user_id = user_id;
  used = used;
  limit = limit;
}

-- `pct >= 1.00`, `pct >= 0.80`, for a limit above zero.
unfoldable pub alerts_of : QuotaType → ℕ → List ℕ → ℕ → List Alert
alerts_of kind limit user_id used =
    if leb limit used
    then alert_at alert kind user_id used limit ∷ []
    else if leb (80 * limit) (100 * used)
    then alert_at warning kind user_id used limit ∷ []
    else []

-- One counter, with what `r.get(key)` gave; `none` is the division by a limit of zero.
check_used : QuotaType → ℕ → List ℕ → Option ℕ → Option (List Alert)
unfolding alerts_of
check_used kind limit user_id none = some []
check_used kind limit user_id (some used) =
    if limit == 0 then none else some (alerts_of kind limit user_id used)

check_key : QuotaType → ℕ → (List ℕ → Option ℕ) → List ℕ → Option (List Alert)
unfolding split_colon check_used
check_key kind limit get key = elim (third_of_four (split_colon key)) [
  | none ↦ some []
  | some user_id ↦ check_used kind limit user_id (get key)
]

infixl 5 ◌>>=◌
abbrev ◌>>=◌ : {A B : Type 0} → Option A → (A → Option B) → Option B
none >>= f = none
some a >>= f = f a

-- The loop over the keys of one quota.
check_keys : QuotaType → ℕ → (List ℕ → Option ℕ) → List (List ℕ) → Option (List Alert)
unfolding check_key
check_keys kind limit get [] = some []
check_keys kind limit get (key ∷ keys) = do
  found ← check_key kind limit get key
  rest ← check_keys kind limit get keys
  some (found ++ rest)

-- The settings, what the scans and the reads of Redis give, and whether Slack takes a message.
pub record Report : Type 0 where
  pub max_daily_tokens : ℕ
  pub max_daily_queries : ℕ
  pub scan_token_keys : List (List ℕ)
  pub scan_query_keys : List (List ℕ)
  pub get : List ℕ → Option ℕ
  pub has_webhook : Bool
  pub slack_accepts : Alert → Bool

-- `_post_slack`: the message that is sent, with whether it was taken; a refusal is logged.
abbrev pub post_slack : Report → Alert → List (Alert × Bool)
post_slack r a = if r.has_webhook then (a, r.slack_accepts a) ∷ [] else []

abbrev pub post_all : Report → List Alert → List (Alert × Bool)
post_all r [] = []
post_all r (a ∷ later) = post_slack r a ++ post_all r later

-- `run_report`: the messages sent, or nothing if a division failed.
unfoldable pub run_report : Report → Option (List (Alert × Bool))
unfolding check_keys
run_report r = do
  tokens ← check_keys token_quota r.max_daily_tokens r.get r.scan_token_keys
  queries ← check_keys query_quota r.max_daily_queries r.get r.scan_query_keys
  some (post_all r (tokens ++ queries))
