-- ===== src/Validations/Rules.antt =====
-- src/modules/validations/rules and the types of src/modules/validations/domain: the evaluators. Of the
-- records of other modules, a snapshot has the columns that the rules read.
use dpdpos_backend.Prelude.{
  ℕ, ◌+◌, ◌-◌, String, JsText, literal, decimal, trim, is_nonempty, Bool, true, false, not, ◌&&◌,
  ◌||◌, Option, none, some, List, [], ◌∷◌, ◌++◌, map, any, filter, take, length, ltb, ◌==◌, str_eq,
  is_some, join, percentage, if◌then◌else◌,
}
use dpdpos_backend.Rights.Lifecycle.{rejected, closed, same_status}
use dpdpos_backend.Rights.Types.{DataSubjectRequest}

pub record DataAssetRecord : Type 0 where
  pub id : String
  pub asset_name : JsText
  pub retention_period : Option JsText
  pub deleted_at : Option ℕ

pub data ConsentState : Type 0 where
  granted withdrawn : ConsentState

pub record ConsentRecord : Type 0 where
  pub data_asset_id : Option String
  pub consent_state : ConsentState
  pub withdrawn_at : Option ℕ
  pub deleted_at : Option ℕ

pub record NoticeRecord : Type 0 where
  pub id : String
  pub deleted_at : Option ℕ

pub record VendorValidationSnapshot : Type 0 where
  pub id : String
  pub name : JsText
  pub status : String
  pub criticality : String
  pub has_active_dpa : Bool
  pub latest_review_outcome : Option String

pub record RuleEvaluationInput : Type 0 where
  pub organization_id : String
  pub data_assets : List DataAssetRecord
  pub notices : List NoticeRecord
  pub consent_records : List ConsentRecord
  pub data_subject_requests : List DataSubjectRequest
  pub vendors : Option (List VendorValidationSnapshot)

pub data OutcomeStatus : Type 0 where
  pass fail : OutcomeStatus

-- `evidenceRequired` is left out where it is not true.
pub record RuleEvaluationOutcome : Type 0 where
  pub status : OutcomeStatus
  pub score : ℕ
  pub explanation : JsText
  pub evidence_required : Bool

abbrev pub passed : JsText → RuleEvaluationOutcome
passed explanation = record {
  status = pass;
  score = 100;
  explanation = explanation;
  evidence_required = false;
}

-- A failure graded by the share of the records that are in order: `Math.max(0, Math.round(((total -
-- failures) / total) * 100))`.
abbrev pub failed : ℕ → ℕ → JsText → RuleEvaluationOutcome
failed total failures explanation = record {
  status = fail;
  score = percentage (total - failures) total;
  explanation = explanation;
  evidence_required = true;
}

abbrev is_asset : String → Option String → Bool
is_asset id none = false
is_asset id (some a) = str_eq a id && not (str_eq a "")

abbrev has_text : Option JsText → Bool
has_text none = false
has_text (some s) = is_nonempty (trim s)

abbrev is_before : Option ℕ → ℕ → Bool
is_before none now = false
is_before (some t) now = ltb t now

abbrev is_later : Option ℕ → Option ℕ → Bool
is_later (some t) (some due) = ltb due t
is_later _ _ = false

abbrev given_list : {A : Type 0} → Option (List A) → List A
given_list none = []
given_list (some xs) = xs

abbrev quoted_name : DataAssetRecord → JsText
quoted_name a = literal "\"" ++ (a.asset_name ++ literal "\"")

-- The names of the first five, and how many more there are.
unfoldable pub names_of : List DataAssetRecord → JsText
names_of assets =
    join (literal ", ") (map quoted_name (take 5 assets))
    ++ (if ltb 5 (length assets)
        then literal " and " ++ (decimal (length assets - 5) ++ literal " more")
        else [])

unfoldable pub active_assets : RuleEvaluationInput → List DataAssetRecord
active_assets input = filter (λ (a : DataAssetRecord). not (is_some a.deleted_at)) input.data_assets

unfoldable pub evaluate_notice_present : RuleEvaluationInput → RuleEvaluationOutcome
evaluate_notice_present input =
    let active = filter (λ (n : NoticeRecord). not (is_some n.deleted_at)) input.notices in
    if length active == 0
    then record {
      status = fail;
      score = 0;
      explanation =
          literal
            "No privacy notice has been published. Publish a notice covering the purposes in your processing activities.";
      evidence_required = true;
    }
    else passed (decimal (length active) ++ literal " published notice(s) found.")

-- The consent record counts for the asset.
abbrev pub covers : String → ConsentRecord → Bool
covers asset_id c = not (is_some c.deleted_at) && is_asset asset_id c.data_asset_id

unfoldable pub is_consented : List ConsentRecord → DataAssetRecord → Bool
is_consented consents a = any (covers a.id) consents

unfoldable pub evaluate_consent_present : RuleEvaluationInput → RuleEvaluationOutcome
evaluate_consent_present input =
    let active = active_assets input in
    let without = filter (λ a. not (is_consented input.consent_records a)) active in
    if length active == 0
    then passed (literal "No active data assets registered — nothing to consent for.")
    else if ltb 0 (length without)
    then failed (length active) (length without) (
        decimal (length without)
        ++ (literal " active asset(s) have no consent record: "
            ++ (names_of without ++ literal ". Record consent or confirm another legal basis.")))
    else passed (
        literal "All "
        ++ (decimal (length active) ++ literal " active data asset(s) have consent records."))

abbrev is_withdrawn : ConsentState → Bool
is_withdrawn withdrawn = true
is_withdrawn granted = false

unfoldable pub evaluate_consent_withdrawn_correctly : RuleEvaluationInput → RuleEvaluationOutcome
evaluate_consent_withdrawn_correctly input =
    let gone = filter (λ (c : ConsentRecord). is_withdrawn c.consent_state) input.consent_records in
    let missing = filter (λ (c : ConsentRecord). not (is_some c.withdrawn_at)) gone in
    if ltb 0 (length missing)
    then failed (length gone) (length missing) (
        decimal (length missing)
        ++ literal
            " withdrawn consent record(s) are missing a withdrawal timestamp. Record withdrawnAt to prove withdrawal.")
    else if ltb 0 (length gone)
    then passed (decimal (length gone) ++ literal " withdrawal(s) recorded with timestamps.")
    else passed (literal "No consent withdrawals recorded — nothing to verify.")

-- `a.retentionPeriod?.trim()` as a condition.
abbrev pub has_retention : DataAssetRecord → Bool
has_retention a = has_text a.retention_period

unfoldable pub evaluate_retention_metadata_set : RuleEvaluationInput → RuleEvaluationOutcome
evaluate_retention_metadata_set input =
    let active = active_assets input in
    let missing = filter (λ a. not (has_retention a)) active in
    if length active == 0
    then passed (literal "No active data assets registered.")
    else if ltb 0 (length missing)
    then failed (length active) (length missing) (
        decimal (length missing)
        ++ (literal " active asset(s) have no retention period: "
            ++ (names_of missing
                ++ literal ". Define retention to comply with retention obligations.")))
    else passed (
        literal "All "
        ++ (decimal (length active) ++ literal " active data asset(s) define a retention period."))

-- An open request past its due date, and a request that was closed after it.
abbrev pub is_overdue_open : ℕ → DataSubjectRequest → Bool
is_overdue_open now r =
    not (is_some r.closed_at)
    && not (same_status r.status closed)
    && not (same_status r.status rejected)
    && is_before r.due_at now

abbrev pub is_late_closed : DataSubjectRequest → Bool
is_late_closed r = is_later r.closed_at r.due_at

unfoldable pub overdue_parts : ℕ → ℕ → List JsText
overdue_parts open_count late_count =
    (if ltb 0 open_count
      then (decimal open_count ++ literal " open request(s) past their SLA due date") ∷ []
      else [])
    ++ (if ltb 0 late_count
        then (decimal late_count ++ literal " request(s) closed after their SLA due date") ∷ []
        else [])

unfoldable pub evaluate_request_responded_within_sla :
    ℕ → RuleEvaluationInput → RuleEvaluationOutcome
evaluate_request_responded_within_sla now input =
    let requests =
      filter (λ (r : DataSubjectRequest). not (is_some r.deleted_at)) input.data_subject_requests in
    let overdue = filter (is_overdue_open now) requests in
    let late = filter is_late_closed requests in
    let failures = length overdue + length late in
    if length requests == 0
    then passed (literal "No data principal requests registered.")
    else if ltb 0 failures
    then failed (length requests) failures (
        join (literal "; ") (overdue_parts (length overdue) (length late))
        ++ literal ". Respond to requests within the statutory SLA window.")
    else passed (
        literal "All "
        ++ (decimal (length requests) ++ literal " request(s) responded to within SLA."))

unfoldable pub active_vendors : RuleEvaluationInput → List VendorValidationSnapshot
active_vendors input =
    filter (λ (v : VendorValidationSnapshot). str_eq v.status "ACTIVE") (given_list input.vendors)

unfoldable pub vendors_without_dpa : RuleEvaluationInput → List VendorValidationSnapshot
vendors_without_dpa input =
    filter (λ (v : VendorValidationSnapshot). not v.has_active_dpa) (active_vendors input)

unfoldable pub evaluate_vendor_dpa_present : RuleEvaluationInput → RuleEvaluationOutcome
unfolding vendors_without_dpa
evaluate_vendor_dpa_present input =
    let active = active_vendors input in
    let missing = vendors_without_dpa input in
    if length active == 0
    then passed (literal "No ACTIVE vendors registered.")
    else if ltb 0 (length missing)
    then failed (length active) (length missing)
        (decimal (length missing) ++ literal " ACTIVE vendor(s) lack an ACTIVE DPA.")
    else passed (
        literal "All "
        ++ (decimal (length active) ++ literal " ACTIVE vendor(s) have an ACTIVE DPA."))

abbrev pub is_stale_review : Option String → Bool
is_stale_review none = true
is_stale_review (some o) = str_eq o "" || str_eq o "PENDING" || str_eq o "REJECTED"

unfoldable pub evaluate_vendor_review_current : RuleEvaluationInput → RuleEvaluationOutcome
evaluate_vendor_review_current input =
    let active = active_vendors input in
    let stale =
      filter (λ (v : VendorValidationSnapshot). is_stale_review v.latest_review_outcome) active in
    if length active == 0
    then passed (literal "No ACTIVE vendors registered.")
    else if ltb 0 (length stale)
    then failed (length active) (length stale)
        (decimal (length stale) ++ literal " ACTIVE vendor(s) lack a completed diligence review.")
    else passed (
        literal "All "
        ++ (decimal (length active)
            ++ literal " ACTIVE vendor(s) have a completed diligence review."))
