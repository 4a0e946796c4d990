-- ===== src/Vendors/Scorecard.antt =====
-- src/modules/vendors/domain/risk-calculator.ts: `computeVendorRisk`, step by step. A score is a
-- natural number: the one subtraction of the source, `Math.max(0, residual - 10)`, stops at 0 here
-- as it does there.
use mathlib.Core.Option
use dpdpos_backend.Prelude.{
  ℕ, ◌+◌, ◌*◌, ◌-◌, min, String, JsText, literal, decimal, IsoDate, iso, Bool, false, not, ◌&&◌,
  ◌||◌, Option, none, some, List, [], ◌∷◌, ◌++◌, any, length, leb, ltb, ◌==◌, str_eq, truthy,
  if◌then◌else◌,
}

-- The columns of a vendor that the score reads.
pub record VendorRecord : Type 0 where
  pub id : String
  pub criticality : String
  pub data_categories : List JsText
  pub countries : List JsText
  pub next_review_at : Option ℕ

pub record RiskInput : Type 0 where
  pub vendor : VendorRecord
  pub has_active_dpa : Bool
  pub dpa_expires_at : Option ℕ
  pub latest_review_outcome : Option String
  pub latest_review_residual : Option String
  pub child_critical_count : ℕ
  pub unacknowledged_child_count : Option ℕ

pub record VendorRiskScorecard : Type 0 where
  pub vendor_id : String
  pub inherent_risk_score : ℕ
  pub residual_risk_score : ℕ
  pub criticality : String
  pub factors : List JsText
  pub has_active_dpa : Bool
  pub dpa_expires_at : Option IsoDate
  pub latest_review_outcome : Option String
  pub child_critical_count : ℕ
  pub open_risk_flags : List String

unfoldable pub criticality_base : String → Option ℕ
criticality_base s =
    if str_eq s "LOW"
    then some 20
    else if str_eq s "MEDIUM"
    then some 40
    else if str_eq s "HIGH"
    then some 65
    else if str_eq s "CRITICAL"
    then some 85
    else none

-- The variables of the calculation: the score so far, and the two lists.
pub record Scoring : Type 0 where
  pub score : ℕ
  pub factors : List JsText
  pub flags : List String

-- `score = Math.min(100, score + n)`, with the line and the flag that go with it.
abbrev pub raise : ℕ → JsText → List String → Scoring → Scoring
raise n line flag s = record {
  score = min 100 (s.score + n);
  factors = s.factors ++ (line ∷ []);
  flags = s.flags ++ flag;
}

-- `score = Math.max(0, score - n)`, with its line.
abbrev pub lower : ℕ → JsText → Scoring → Scoring
lower n line s = record { score = s.score - n; factors = s.factors ++ (line ∷ []); flags = s.flags }

-- `c.toUpperCase() === "IN"`: the characters whose upper case is I are i, ı and I.
unfoldable pub is_india : JsText → Bool
is_india (c ∷ d ∷ []) = (c == 73 || c == 105 || c == 305) && (d == 78 || d == 110)
is_india _ = false

unfoldable pub base_scoring : VendorRecord → Scoring
base_scoring v =
    let base = Option.get_or (criticality_base v.criticality) 40 in
    record {
      score = base;
      factors =
          (literal "Base criticality " ++ (literal v.criticality ++ (literal "=" ++ decimal base)))
          ∷ [];
      flags = [];
    }

unfoldable pub score_categories : VendorRecord → Scoring → Scoring
score_categories v s =
    if leb 3 (length v.data_categories)
    then raise 10 (literal "Multiple data categories (+10)") [] s
    else s

unfoldable pub score_countries : VendorRecord → Scoring → Scoring
score_countries v s =
    if any (λ c. not (is_india c)) v.countries
    then raise 10 (literal "Cross-border / non-IN country (+10)") ("cross_border" ∷ []) s
    else s

-- The agreement ends within thirty days.
abbrev pub ends_before : ℕ → Option ℕ → Bool
ends_before limit none = false
ends_before limit (some t) = ltb t limit

unfoldable pub score_dpa : ℕ → Bool → Option ℕ → Scoring → Scoring
score_dpa now has_dpa expires s =
    if not has_dpa
    then raise 15 (literal "No active DPA (+15 residual)") ("missing_dpa" ∷ []) s
    else if ends_before (now + 30 * 24 * 60 * 60 * 1000) expires
    then raise 8 (literal "DPA expiring within 30 days (+8)") ("dpa_expiring" ∷ []) s
    else lower 10 (literal "Active DPA (-10)") s

unfoldable pub score_missing_review : Bool → Scoring → Scoring
score_missing_review is_pending s =
    raise 8
      (if is_pending
        then literal "Diligence review PENDING (+8)"
        else literal "No completed diligence review (+8)")
      ("missing_review" ∷ []) s

unfoldable pub score_outcome : Option String → Scoring → Scoring
score_outcome none s = score_missing_review false s
score_outcome (some o) s =
    if str_eq o "APPROVED"
    then lower 10 (literal "Latest review APPROVED (-10)") s
    else if str_eq o "CONDITIONAL"
    then raise 5 (literal "Latest review CONDITIONAL (+5)") ("conditional_review" ∷ []) s
    else if str_eq o "REJECTED"
    then raise 20 (literal "Latest review REJECTED (+20)") ("review_rejected" ∷ []) s
    else if str_eq o "PENDING" || str_eq o ""
    then score_missing_review (str_eq o "PENDING") s
    else s

unfoldable pub score_overdue : ℕ → Option ℕ → Scoring → Scoring
score_overdue now next_review s =
    if ends_before now next_review
    then raise 5 (literal "Scheduled nextReviewAt is past due (+5)") ("review_overdue" ∷ []) s
    else s

-- The residual risk that the latest review found is a floor.
unfoldable pub apply_floor : Option String → Scoring → Scoring
apply_floor none s = s
apply_floor (some level) s =
    let floor = Option.get_or (criticality_base level) 0 in
    if ltb s.score floor
    then record {
      score = floor;
      factors =
          s.factors
          ++ ((literal "Review residual floor "
                ++ (literal level ++ (literal "=" ++ decimal floor)))
              ∷ []);
      flags = s.flags;
    }
    else s

unfoldable pub score_children : ℕ → Scoring → Scoring
score_children count s =
    let bump = min 20 (count * 5) in
    if ltb 0 count
    then raise bump
        (literal "SCRM: "
          ++ (decimal count
              ++ (literal " HIGH/CRITICAL child(ren) (+" ++ (decimal bump ++ literal ")"))))
        ("supply_chain_concentration" ∷ []) s
    else s

unfoldable pub score_unacknowledged : ℕ → Scoring → Scoring
score_unacknowledged count s =
    let bump = min 15 (count * 5) in
    if ltb 0 count
    then raise bump
        (literal "SCRM: "
          ++ (decimal count
              ++ (literal " unacknowledged sub-processor change(s) (+"
                  ++ (decimal bump ++ literal ")"))))
        ("unacknowledged_subprocessor" ∷ []) s
    else s

unfoldable pub inherent_scoring : VendorRecord → Scoring
inherent_scoring v = score_countries v (score_categories v (base_scoring v))

unfoldable pub residual_scoring : ℕ → RiskInput → Scoring
residual_scoring now input =
    score_unacknowledged (Option.get_or input.unacknowledged_child_count 0) (
      score_children input.child_critical_count (
        apply_floor (truthy input.latest_review_residual) (
          score_overdue now input.vendor.next_review_at (
            score_outcome input.latest_review_outcome (
              score_dpa now input.has_active_dpa input.dpa_expires_at
                (inherent_scoring input.vendor))))))

unfoldable pub compute_vendor_risk : ℕ → RiskInput → VendorRiskScorecard
compute_vendor_risk now input =
    let residual = residual_scoring now input in
    record {
      vendor_id = input.vendor.id;
      inherent_risk_score = (inherent_scoring input.vendor).score;
      residual_risk_score = residual.score;
      criticality = input.vendor.criticality;
      factors = residual.factors;
      has_active_dpa = input.has_active_dpa;
      dpa_expires_at = Option.map iso input.dpa_expires_at;
      latest_review_outcome = input.latest_review_outcome;
      child_critical_count = input.child_critical_count;
      open_risk_flags = residual.flags;
    }
