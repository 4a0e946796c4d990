-- ===== src/Assessments/Questionnaire/Grouping.antt =====
-- The stages of src/modules/assessments/domain/questionnaire-catalog.ts.
use dpdpos_backend.Prelude.{
  ℕ, ◌≤◌, String, ◌≡◌, refl, sym, ap, ◌∙◌, inl, inr, List, [], ◌∷◌, ◌++◌, Memᴰ, leb, str_eq, eq_iff,
  arith, Bool-cases, All, subst,
}
use dpdpos_backend.Assessments.Questionnaire.Types.{QuestionnaireQuestion}
use dpdpos_backend.Assessments.Questionnaire.Catalog.{
  Stage, stage_of, add_question, group_questions, insert_stage, sort_stages,
  list_questionnaire_stages,
}

abbrev pub IsSorted : List Stage → Type 0
IsSorted [] = Unit
IsSorted (s ∷ stages) = All (λ (t : Stage). s.stage_order ≤ t.stage_order) stages × IsSorted stages

-- A code stands in the stage of an identifier.
abbrev pub IsListed : String → String → List Stage → Type 0
IsListed stage code stages =
    (s : Stage) × Memᴰ s stages × (s.stage_id ≡ stage) × Memᴰ code s.question_codes

All-weaken :
    (n m : ℕ) (stages : List Stage)
    → n ≤ m
    → All (λ (t : Stage). m ≤ t.stage_order) stages
    → All (λ (t : Stage). n ≤ t.stage_order) stages
All-weaken n m [] h a = tt
All-weaken n m (s ∷ stages) h a = (omega (arith, a.0), All-weaken n m stages h a.1)

All-insert :
    (n : ℕ) (s : Stage) (stages : List Stage)
    → n ≤ s.stage_order
    → All (λ (t : Stage). n ≤ t.stage_order) stages
    → All (λ (t : Stage). n ≤ t.stage_order) (insert_stage s stages)
unfolding insert_stage
All-insert n s [] h a = (h, tt)
All-insert n s (t ∷ stages) h a = elim (Bool-cases (leb s.stage_order t.stage_order)) [
  | inl le ↦ rw le (h, a)
  | inr gt ↦ rw gt (a.0, All-insert n s stages h a.1)
]

insert_stage-IsSorted :
    (s : Stage) (stages : List Stage) → IsSorted stages → IsSorted (insert_stage s stages)
unfolding insert_stage
insert_stage-IsSorted s [] h = (tt, tt)
insert_stage-IsSorted s (t ∷ stages) h = elim (Bool-cases (leb s.stage_order t.stage_order)) [
  | inl le ↦
      let first : s.stage_order ≤ t.stage_order = ground arith in
      rw le ((first, All-weaken s.stage_order t.stage_order stages first h.0), h)
  | inr gt ↦
      rw gt
        (All-insert t.stage_order s stages (ground arith) h.0, insert_stage-IsSorted s stages h.1)
]

sort_stages-IsSorted : (stages : List Stage) → IsSorted (sort_stages stages)
unfolding sort_stages
sort_stages-IsSorted [] = tt
sort_stages-IsSorted (s ∷ stages) =
    insert_stage-IsSorted s (sort_stages stages) (sort_stages-IsSorted stages)

insert_stage-here : (s : Stage) (stages : List Stage) → Memᴰ s (insert_stage s stages)
unfolding insert_stage
insert_stage-here s [] = Memᴰ.head refl
insert_stage-here s (t ∷ stages) = elim (Bool-cases (leb s.stage_order t.stage_order)) [
  | inl le ↦ rw le (Memᴰ.head refl)
  | inr gt ↦ rw gt (Memᴰ.tail (insert_stage-here s stages))
]

insert_stage-other :
    (s t : Stage) (stages : List Stage) → Memᴰ t stages → Memᴰ t (insert_stage s stages)
unfolding insert_stage
insert_stage-other s t [] m = elim m [ ]
insert_stage-other s t (u ∷ stages) m = elim (Bool-cases (leb s.stage_order u.stage_order)) [
  | inl le ↦ rw le (Memᴰ.tail m)
  | inr gt ↦ rw gt (elim m [
    | Memᴰ.head e ↦ Memᴰ.head e
    | Memᴰ.tail m' ↦ Memᴰ.tail (insert_stage-other s t stages m')
  ])
]

sort_stages-Memᴰ : (t : Stage) (stages : List Stage) → Memᴰ t stages → Memᴰ t (sort_stages stages)
unfolding sort_stages
sort_stages-Memᴰ t [] m = elim m [ ]
sort_stages-Memᴰ t (s ∷ stages) (Memᴰ.head e) = rw e (insert_stage-here s (sort_stages stages))
sort_stages-Memᴰ t (s ∷ stages) (Memᴰ.tail m) =
    insert_stage-other s t (sort_stages stages) (sort_stages-Memᴰ t stages m)

append-last : (x : String) (xs : List String) → Memᴰ x (xs ++ (x ∷ []))
append-last x [] = Memᴰ.head refl
append-last x (y ∷ xs) = Memᴰ.tail (append-last x xs)

append-left : (x : String) (xs ys : List String) → Memᴰ x xs → Memᴰ x (xs ++ ys)
append-left x [] ys m = elim m [ ]
append-left x (y ∷ xs) ys (Memᴰ.head e) = Memᴰ.head e
append-left x (y ∷ xs) ys (Memᴰ.tail m) = Memᴰ.tail (append-left x xs ys m)

add_question-IsListed :
    (stages : List Stage) (q : QuestionnaireQuestion)
    → IsListed q.stage_id q.code (add_question stages q)
unfolding add_question
add_question-IsListed [] q = (stage_of q, Memᴰ.head refl, refl, Memᴰ.head refl)
add_question-IsListed (s ∷ stages) q = elim (Bool-cases (str_eq s.stage_id q.stage_id)) [
  | inl same ↦ rw same (
    record s { question_codes = s.question_codes ++ (q.code ∷ []) },
    Memᴰ.head refl,
    (eq_iff s.stage_id q.stage_id).0 same,
    append-last q.code s.question_codes,
  )
  | inr other ↦
      rw other (let (t, m, e, c) = add_question-IsListed stages q in (t, Memᴰ.tail m, e, c))
]

add_question-keeps :
    (stages : List Stage) (q : QuestionnaireQuestion) (stage code : String)
    → IsListed stage code stages
    → IsListed stage code (add_question stages q)
unfolding add_question
add_question-keeps [] q stage code (t, m, e, c) = elim m [ ]
add_question-keeps (s ∷ stages) q stage code (t, m, e, c) =
    elim (Bool-cases (str_eq s.stage_id q.stage_id)) [
      | inl same ↦ rw same (elim m [
        | Memᴰ.head f ↦ (
          record s { question_codes = s.question_codes ++ (q.code ∷ []) },
          Memᴰ.head refl,
          ap (λ (z : Stage). z.stage_id) (sym f) ∙ e,
          append-left code s.question_codes (q.code ∷ [])
              (subst (λ (z : Stage). Memᴰ code z.question_codes) f c),
        )
        | Memᴰ.tail m' ↦ (t, Memᴰ.tail m', e, c)
      ])
      | inr other ↦ rw other (elim m [
        | Memᴰ.head f ↦ (t, Memᴰ.head f, e, c)
        | Memᴰ.tail m' ↦
            let (u, n, e', c') = add_question-keeps stages q stage code (t, m', e, c) in
            (u, Memᴰ.tail n, e', c')
      ])
    ]

group_questions-keeps :
    (qs : List QuestionnaireQuestion) (stages : List Stage) (stage code : String)
    → IsListed stage code stages
    → IsListed stage code (group_questions qs stages)
unfolding group_questions
group_questions-keeps [] stages stage code l = l
group_questions-keeps (q ∷ qs) stages stage code l =
    group_questions-keeps qs (add_question stages q) stage code
      (add_question-keeps stages q stage code l)

group_questions-lists :
    (qs : List QuestionnaireQuestion) (stages : List Stage) (q : QuestionnaireQuestion)
    → Memᴰ q qs
    → IsListed q.stage_id q.code (group_questions qs stages)
unfolding group_questions
group_questions-lists [] stages q m = elim m [ ]
group_questions-lists (x ∷ qs) stages q (Memᴰ.head e) =
    group_questions-keeps qs (add_question stages x) q.stage_id q.code (
      subst (λ (z : QuestionnaireQuestion). IsListed z.stage_id z.code (add_question stages x))
        (sym e) (add_question-IsListed stages x))
group_questions-lists (x ∷ qs) stages q (Memᴰ.tail m) =
    group_questions-lists qs (add_question stages x) q m

-- The stages of any questions stand in the order of their numbers, and every question is listed by its
-- code under a stage of its own identifier.
pub stages_lem :
    (qs : List QuestionnaireQuestion)
    → IsSorted (list_questionnaire_stages qs)
      × ((q : QuestionnaireQuestion)
          → Memᴰ q qs
          → IsListed q.stage_id q.code (list_questionnaire_stages qs))
unfolding list_questionnaire_stages
stages_lem qs = (
  sort_stages-IsSorted (group_questions qs []),
  λ q m.
      let (s, n, e, c) = group_questions-lists qs [] q m in
      (s, sort_stages-Memᴰ s (group_questions qs []) n, e, c),
)
