-- ===== src/Api/Rows.antt =====
-- adpulse/api.py, the endpoints on metrics, associations and releases, and `health`. A quotient of
-- two counts is kept as the pair of them.
pub mod Ratios
use ad_pulse.Prelude.{
  ℕ, zero, suc, ◌<◌, String, Bool, true, false, ◌&&◌, not, List, [], ◌∷◌, Option, none, some,
  if◌then◌else◌, ◌==◌, string_eq, nat_eq, ltb, Result, ok, raise, ◌>>=◌, Exception, value_error,
  http_error,
}
use ad_pulse.Prelude.Dict.{values}
use ad_pulse.Json.{Value, str, Fields, value_eq}
use ad_pulse.Storage.Payload.{value_at, number_at}
use ad_pulse.Storage.Page.{Entry}
use ad_pulse.Archive.Reconcile.{object}
use ad_pulse.Releases
use ad_pulse.Releases.{Db, Release, Activation}
use ad_pulse.Api.{Response, result_page}

-- A row of metrics with what the endpoint adds to it.
pub record MetricRow : Type 0 where
  pub row : Fields
  pub ctr : Option (ℕ × ℕ)
  pub cvr : Option (ℕ × ℕ)
  pub quality_status : String

-- `values[over] / values[under] if is_wanted and values[under] else None`
unfoldable pub quotient : String → ℕ → Fields → Result (Option (ℕ × ℕ))
unfolding number_at
quotient over zero counts = ok none
quotient over (suc n) counts = do m ← number_at over counts; ok (some (m, suc n))

unfoldable pub ratio : Bool → String → String → Fields → Result (Option (ℕ × ℕ))
unfolding number_at quotient
ratio false over under counts = ok none
ratio true over under counts = do n ← number_at under counts; quotient over n counts

-- `row["quality_status"]`
unfoldable pub status_of : Value → Fields → Result String
unfolding number_at
status_of experiment counts =
    if experiment == str "unknown"
    then ok "missing_exposure"
    else (number_at "impressions" counts >>= λ impressions. number_at "clicks" counts >>= λ clicks.
        ok (
          if ltb (if ltb impressions clicks then clicks else impressions) 100
          then "small_sample"
          else "available"))

-- The body of the loop over the rows.
unfoldable pub with_ratios : Fields → Result MetricRow
unfolding value_at object ratio status_of
with_ratios row = do
  given ← value_at "values" row
  counts ← object given
  cohort ← value_at "cohort_basis" row
  ctr ← ratio (cohort == str "impression") "clicks" "impressions" counts
  cvr ← ratio (cohort == str "click") "converted_clicks" "clicks" counts
  experiment ← value_at "experiment_id" row
  status ← status_of experiment counts
  ok (record { row = row; ctr = ctr; cvr = cvr; quality_status = status })

unfoldable pub all_with_ratios : List Fields → Result (List MetricRow)
unfolding with_ratios
all_with_ratios [] = ok []
all_with_ratios (row ∷ l) = do r ← with_ratios row; rest ← all_with_ratios l; ok (r ∷ rest)

-- `{k: v for k, v in filters.items() if v is not None}`
unfoldable pub present : List (String × Option String) → List (String × String)
present [] = []
present ((k, none) ∷ l) = present l
present ((k, some v) ∷ l) = (k, v) ∷ present l

module _ (sha256 : String → String) (seal : Value → String) (unseal : String → Option Value)
    (clock : ℕ) (outage : Option String) (table : String → String → List Entry) where
  -- `metrics`: the semaphore's count, and the page with its rows.
  unfoldable pub metrics :
      Option String
      → Option String
      → Option String
      → Option String
      → Option String
      → Option String
      → ℕ
      → Db
      → ℕ
      → ℕ × Result (Response × List MetricRow)
  unfolding result_page present all_with_ratios
  metrics release cohort campaign region app_version cursor limit db slots =
      let filters = present (
        ("cohort", cohort)
        ∷ ("campaign", campaign)
        ∷ ("region", region)
        ∷ ("app_version", app_version)
        ∷ []) in
      let served =
        result_page sha256 seal unseal clock outage table "metric" release cursor limit filters db
          slots in
      (served.0, served.1 >>= λ page. all_with_ratios page.rows >>= λ rows. ok (page, rows))

  -- `associations`
  unfoldable pub associations :
      Option String → Option String → Option String → ℕ → Db → ℕ → ℕ × Result Response
  unfolding result_page present
  associations release status cursor limit db slots =
      result_page sha256 seal unseal clock outage table "association" release cursor limit
        (present (("status", status) ∷ [])) db slots

-- `ValueError` becomes the status 409.
unfoldable pub or_409 : {A : Type 0} → Result A → Result A
or_409 (raise (value_error message)) = raise (http_error 409 message)
or_409 (raise e) = raise e
or_409 (ok a) = ok a

-- `POST /v1/releases/{release}/activate`
unfoldable pub activate : String → String → Db → Result (Activation × Db)
unfolding Releases.activate or_409
activate release reason db = or_409 (Releases.activate release reason db)

-- `release_list`, over the rows in the order of the table
unfoldable pub release_list : Db → Option String × List Release
release_list db = (db.active_release, values db.releases)

-- `health`, with what the queries of ClickHouse and of PostgreSQL give.
unfoldable pub health : Result (Unit {0}) → Result (Unit {0}) → Result String
health (raise e) postgres = raise (http_error 503 "Query dependencies unavailable")
health (ok _) (raise e) = raise (http_error 503 "Query dependencies unavailable")
health (ok _) (ok _) = ok "ready"
