-- ===== src/Framework/Links.antt =====
-- What a selection of src/modules/framework/domain/templates.ts holds together.
use dpdpos_backend.Prelude.{
  ◌≤◌, String, ◌≡◌, refl, ap, ◌∙◌, subst, inl, inr, Bool, true, ◌&&◌, ◌||◌, List, [], ◌∷◌, ◌++◌,
  Memᴰ, filter, any, str_eq, eq_iff, includes_string, arith, Bool-cases, if◌then◌else◌,
}
use dpdpos_backend.Framework.Types.{
  ControlTemplate, FrameworkProfile, maturity_rank, sensitivity_rank,
}
use dpdpos_backend.Framework.Requirements.{RequirementTemplate, requirement_templates}
use dpdpos_backend.Framework.FirstControls.{first_control_templates}
use dpdpos_backend.Framework.LaterControls.{later_control_templates}
use dpdpos_backend.Framework.Selection.{
  control_templates, is_selected, selected_controls, codes_of, selected_requirements,
  select_templates_for_profile,
}

includes-append :
    (xs ys : List String) (p : String)
    → includes_string (xs ++ ys) p ≡ (includes_string xs p || includes_string ys p)
includes-append [] ys p = refl
includes-append (x ∷ xs) ys p = ground (arith, includes-append xs ys p)

includes-codes_of :
    (controls : List ControlTemplate) (c : ControlTemplate) (p : String)
    → Memᴰ c controls
    → includes_string c.requirement_codes p ≡ true
    → includes_string (codes_of controls) p ≡ true
unfolding codes_of
includes-codes_of [] c p m h = elim m [ ]
includes-codes_of (x ∷ controls) c p (Memᴰ.head e) h =
    let here : includes_string x.requirement_codes p ≡ true =
      subst (λ (z : ControlTemplate). includes_string z.requirement_codes p ≡ true) e h in
    ground (arith, includes-append x.requirement_codes (codes_of controls) p)
includes-codes_of (x ∷ controls) c p (Memᴰ.tail m) h = ground (
  arith,
  includes-append x.requirement_codes (codes_of controls) p,
  includes-codes_of controls c p m h,
)

-- Whether every code of a list is the code of a requirement.
abbrev all_known : List String → Bool
all_known [] = true
all_known (p ∷ ps) =
    any (λ (r : RequirementTemplate). str_eq r.code p) requirement_templates && all_known ps

all_codes_known : all_known (codes_of control_templates) ≡ true
unfolding codes_of control_templates first_control_templates later_control_templates
    requirement_templates
all_codes_known = refl

known :
    (ps : List String) (p : String)
    → all_known ps ≡ true
    → includes_string ps p ≡ true
    → any (λ (r : RequirementTemplate). str_eq r.code p) requirement_templates ≡ true
known [] p h m = cc
known (q ∷ ps) p h m = elim (Bool-cases (str_eq q p)) [
  | inl same ↦
      subst (λ z. any (λ (r : RequirementTemplate). str_eq r.code z) requirement_templates ≡ true)
        ((eq_iff q p).0 same) (ground arith)
  | inr other ↦ known ps p (ground arith) (ground arith)
]

any-filter :
    (codes : List String) (rs : List RequirementTemplate) (p : String)
    → includes_string codes p ≡ true
    → any (λ (r : RequirementTemplate). str_eq r.code p) rs ≡ true
    → any
        (λ (r : RequirementTemplate). str_eq r.code p)
        (filter (λ (r : RequirementTemplate). includes_string codes r.code) rs)
      ≡ true
any-filter codes [] p h k = k
any-filter codes (r ∷ rs) p h k = elim (Bool-cases (str_eq r.code p)) [
  | inl same ↦
      let kept : includes_string codes r.code ≡ true =
        ap (includes_string codes) ((eq_iff r.code p).0 same) ∙ h in
      rw (kept, same) refl
  | inr other ↦
      let rest = any-filter codes rs p h (ground arith) in
      elim (Bool-cases (includes_string codes r.code)) [
        | inl kept ↦ rw (kept, other) rest
        | inr dropped ↦ rw dropped rest
      ]
]

filter-member :
    (f : ControlTemplate → Bool) (cs : List ControlTemplate) (c : ControlTemplate)
    → Memᴰ c (filter f cs)
    → Memᴰ c cs
filter-member f [] c m = elim m [ ]
filter-member f (x ∷ cs) c m = elim (Bool-cases (f x)) [
  | inl yes' ↦
      let m' : Memᴰ c (x ∷ filter f cs) =
        subst (λ b. Memᴰ c (if b then x ∷ filter f cs else filter f cs)) yes' m in
      elim m' [ Memᴰ.head e ↦ Memᴰ.head e | Memᴰ.tail n ↦ Memᴰ.tail (filter-member f cs c n) ]
  | inr no' ↦ Memᴰ.tail (
      filter-member f cs c (subst (λ b. Memᴰ c (if b then x ∷ filter f cs else filter f cs)) no' m))
]

-- Whatever the profile, every requirement that a selected control links to is among the selected
-- requirements.
pub requirements_complete :
    (profile : FrameworkProfile) (c : ControlTemplate) (p : String)
    → Memᴰ c (select_templates_for_profile profile).controls
    → includes_string c.requirement_codes p ≡ true
    → any
        (λ (r : RequirementTemplate). str_eq r.code p)
        (select_templates_for_profile profile).requirements
      ≡ true
unfolding select_templates_for_profile selected_requirements selected_controls
requirements_complete profile c p m h =
    any-filter (codes_of (filter (is_selected profile) control_templates)) requirement_templates p
      (includes-codes_of (filter (is_selected profile) control_templates) c p m h)
      (known (codes_of control_templates) p all_codes_known (
        includes-codes_of control_templates c p
          (filter-member (is_selected profile) control_templates c m) h))

-- A profile of the same industry that is at least as mature, sensitive and large, and significant if
-- the other one is, selects every control that the other one selects.
pub is_selected_monotone :
    (small large : FrameworkProfile) (c : ControlTemplate)
    → large.industry_profile ≡ small.industry_profile
    → maturity_rank small.maturity_level ≤ maturity_rank large.maturity_level
    → sensitivity_rank small.data_sensitivity ≤ sensitivity_rank large.data_sensitivity
    → small.department_count ≤ large.department_count
    → small.processor_count ≤ large.processor_count
    → (small.is_sdf ≡ true → large.is_sdf ≡ true)
    → is_selected small c ≡ true
    → is_selected large c ≡ true
unfolding is_selected
is_selected_monotone small large c i m s d p f h = rw i (ground arith)
