-- ===== src/Vendors/Bounds.antt =====
-- Bounds and monotonicity of the scores of src/modules/vendors/domain/risk-calculator.ts.
use mathlib.Core.Option
use dpdpos_backend.Prelude.{
  ℕ, ◌≤◌, String, ◌≡◌, Bool, true, false, Option, none, some, arith, truthy, str_eq, eq_iff,
  Bool-cases, inl, inr, subst,
}
use dpdpos_backend.Vendors.Scorecard.{
  VendorRecord, RiskInput, Scoring, criticality_base, base_scoring, score_categories,
  score_countries, score_dpa, score_missing_review, score_outcome, score_overdue, apply_floor,
  score_children, score_unacknowledged, inherent_scoring, residual_scoring, compute_vendor_risk,
}

le_trans : (a b c : ℕ) → a ≤ b → b ≤ c → a ≤ c
le_trans a b c h g = omega arith

criticality_base-le :
    (s : String)
    → (Option.get_or (criticality_base s) 40 ≤ 85)
      × (20 ≤ Option.get_or (criticality_base s) 40)
      × (Option.get_or (criticality_base s) 0 ≤ 85)
unfolding criticality_base
criticality_base-le s = ground arith

-- The steps after the inherent score keep a score within 100, and are monotone in it.
dpa_le :
    (now : ℕ) (b : Bool) (e : Option ℕ) (s : Scoring)
    → s.score ≤ 100
    → (score_dpa now b e s).score ≤ 100
unfolding score_dpa
dpa_le now b e s h = ground arith

outcome_le : (o : Option String) (s : Scoring) → s.score ≤ 100 → (score_outcome o s).score ≤ 100
unfolding score_outcome score_missing_review
outcome_le none s h = omega arith
outcome_le (some o) s h = ground arith

overdue_le :
    (now : ℕ) (n : Option ℕ) (s : Scoring) → s.score ≤ 100 → (score_overdue now n s).score ≤ 100
unfolding score_overdue
overdue_le now n s h = ground arith

floor_le : (level : Option String) (s : Scoring) → s.score ≤ 100 → (apply_floor level s).score ≤ 100
unfolding apply_floor
floor_le none s h = h
floor_le (some level) s h = ground (arith, criticality_base-le level)

children_le : (n : ℕ) (s : Scoring) → s.score ≤ 100 → (score_children n s).score ≤ 100
unfolding score_children
children_le n s h = ground arith

unacknowledged_le : (n : ℕ) (s : Scoring) → s.score ≤ 100 → (score_unacknowledged n s).score ≤ 100
unfolding score_unacknowledged
unacknowledged_le n s h = ground arith

inherent_le :
    (v : VendorRecord) → (20 ≤ (inherent_scoring v).score) × ((inherent_scoring v).score ≤ 100)
unfolding inherent_scoring score_countries score_categories base_scoring
inherent_le v = ground (arith, criticality_base-le v.criticality)

-- The scores of any vendor: the inherent one lies between 20 and 100, the residual one is at most
-- 100.
pub risk_bounds :
    (now : ℕ) (input : RiskInput)
    → let card = compute_vendor_risk now input in
      (20 ≤ card.inherent_risk_score)
      × (card.inherent_risk_score ≤ 100)
      × (card.residual_risk_score ≤ 100)
unfolding compute_vendor_risk residual_scoring
risk_bounds now input =
    let (low, high) = inherent_le input.vendor in
    (
      low,
      high,
      unacknowledged_le _ _ (
          children_le _ _
            (floor_le _ _ (overdue_le now _ _ (outcome_le _ _ (dpa_le now _ _ _ high))))),
    )

outcome_mono :
    (o : Option String) (s t : Scoring)
    → s.score ≤ t.score
    → (score_outcome o s).score ≤ (score_outcome o t).score
unfolding score_outcome score_missing_review
outcome_mono none s t h = omega arith
outcome_mono (some o) s t h = ground arith

overdue_mono :
    (now : ℕ) (n : Option ℕ) (s t : Scoring)
    → s.score ≤ t.score
    → (score_overdue now n s).score ≤ (score_overdue now n t).score
unfolding score_overdue
overdue_mono now n s t h = ground arith

floor_mono :
    (level : Option String) (s t : Scoring)
    → s.score ≤ t.score
    → (apply_floor level s).score ≤ (apply_floor level t).score
unfolding apply_floor
floor_mono none s t h = h
floor_mono (some level) s t h = ground arith

children_mono :
    (m n : ℕ) (s t : Scoring)
    → m ≤ n
    → s.score ≤ t.score
    → t.score ≤ 100
    → (score_children m s).score ≤ (score_children n t).score
unfolding score_children
children_mono m n s t h g b = ground arith

unacknowledged_mono :
    (m n : ℕ) (s t : Scoring)
    → m ≤ n
    → s.score ≤ t.score
    → t.score ≤ 100
    → (score_unacknowledged m s).score ≤ (score_unacknowledged n t).score
unfolding score_unacknowledged
unacknowledged_mono m n s t h g b = ground arith

-- Without an active agreement the score is at least what it is with one.
missing_dpa_le :
    (now : ℕ) (e e' : Option ℕ) (s : Scoring)
    → s.score ≤ 100
    → (score_dpa now true e s).score ≤ (score_dpa now false e' s).score
unfolding score_dpa
missing_dpa_le now e e' s h = ground arith

before_children_le :
    (now : ℕ) (input : RiskInput) (b : Bool) (e : Option ℕ)
    → (apply_floor (truthy input.latest_review_residual) (
        score_overdue now input.vendor.next_review_at (
          score_outcome input.latest_review_outcome
            (score_dpa now b e (inherent_scoring input.vendor))))).score
      ≤ 100
before_children_le now input b e =
    floor_le _ _
      (overdue_le now _ _ (outcome_le _ _ (dpa_le now b e _ (inherent_le input.vendor).1)))

-- The residual score never falls when the supply chain gets worse: with at least as many critical
-- children and at least as many unacknowledged ones, and all else the same, it is at least as high.
pub supply_chain_monotone :
    (now : ℕ) (input : RiskInput) (children unacknowledged : ℕ)
    → input.child_critical_count ≤ children
    → Option.get_or input.unacknowledged_child_count 0 ≤ unacknowledged
    → let worse = record input {
      child_critical_count = children;
      unacknowledged_child_count = some unacknowledged;
    } in
      (compute_vendor_risk now input).residual_risk_score
      ≤ (compute_vendor_risk now worse).residual_risk_score
unfolding compute_vendor_risk residual_scoring
supply_chain_monotone now input children unacknowledged more more' =
    let b = before_children_le now input input.has_active_dpa input.dpa_expires_at in
    unacknowledged_mono _ _ _ _ more' (children_mono _ _ _ _ more (omega arith) b)
      (children_le children _ b)

-- A vendor with an active agreement, whatever its end, never scores a higher residual risk than
-- the same vendor without one.
pub dpa_never_hurts :
    (now : ℕ) (input : RiskInput) (expires expires' : Option ℕ)
    → let with_dpa = record input { has_active_dpa = true; dpa_expires_at = expires } in
      let without = record input { has_active_dpa = false; dpa_expires_at = expires' } in
      (compute_vendor_risk now with_dpa).residual_risk_score
      ≤ (compute_vendor_risk now without).residual_risk_score
unfolding compute_vendor_risk residual_scoring
dpa_never_hurts now input expires expires' =
    let b = before_children_le now input false expires' in
    unacknowledged_mono _ _ _ _ (omega arith)
      (children_mono _ _ _ _ (omega arith)
        (floor_mono _ _ _ (
          overdue_mono now _ _ _ (
            outcome_mono _ _ _
              (missing_dpa_le now expires expires' _ (inherent_le input.vendor).1))))
        b)
      (children_le _ _ b)

floor_reached :
    (level : String) (floor : ℕ) (s : Scoring)
    → criticality_base level ≡ some floor
    → floor ≤ (apply_floor (some level) s).score
unfolding apply_floor
floor_reached level floor s h = ground arith

children_ge : (n : ℕ) (s : Scoring) → s.score ≤ 100 → s.score ≤ (score_children n s).score
unfolding score_children
children_ge n s h = ground arith

unacknowledged_ge :
    (n : ℕ) (s : Scoring) → s.score ≤ 100 → s.score ≤ (score_unacknowledged n s).score
unfolding score_unacknowledged
unacknowledged_ge n s h = ground arith

not_empty :
    (level : String) (floor : ℕ) → criticality_base level ≡ some floor → str_eq level "" ≡ false
unfolding criticality_base
not_empty level floor h = elim (Bool-cases (str_eq level "")) [
  | inl e ↦ cc (subst (λ l. criticality_base l ≡ some floor) ((eq_iff level "").0 e) h)
  | inr e ↦ e
]

floor_given :
    (r : Option String) (level : String) (floor : ℕ) (s : Scoring)
    → r ≡ some level
    → criticality_base level ≡ some floor
    → floor ≤ (apply_floor (truthy r) s).score
unfolding truthy
floor_given r level floor s given known =
    rw (given, not_empty level floor known) (floor_reached level floor s known)

-- A residual risk that the latest review found is a floor: when it is one of the four levels, the
-- residual score is at least the base score of that level.
pub review_floor :
    (now : ℕ) (input : RiskInput) (level : String) (floor : ℕ)
    → input.latest_review_residual ≡ some level
    → criticality_base level ≡ some floor
    → floor ≤ (compute_vendor_risk now input).residual_risk_score
unfolding compute_vendor_risk residual_scoring
review_floor now input level floor given known =
    let b = before_children_le now input input.has_active_dpa input.dpa_expires_at in
    le_trans _ _ _ (floor_given input.latest_review_residual level floor _ given known) (
      le_trans _ _ _ (children_ge input.child_critical_count _ b) (
        unacknowledged_ge (Option.get_or input.unacknowledged_child_count 0) _
          (children_le input.child_critical_count _ b)))
