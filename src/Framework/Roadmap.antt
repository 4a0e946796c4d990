-- ===== src/Framework/Roadmap.antt =====
-- src/modules/framework/domain/templates.ts: `buildRoadmapJson`. Dates are texts that are passed on.
use dpdpos_backend.Prelude.{
  ℕ, ◌+◌, ◌<◌, String, JsText, ◌≡◌, refl, ◌∙◌, inl, inr, Bool, true, false, List, [], ◌∷◌, map,
  filter, ltb, length, length-map, All, arith, Bool-cases,
}
use dpdpos_backend.Framework.Types.{
  RoadmapPhase, foundation, operations, oversight, significant_fiduciary, FrameworkProfile,
}

pub record RoadmapControl : Type 0 where
  pub code : String
  pub title : JsText
  pub phase : RoadmapPhase
  pub due_at : String

pub record RoadmapItem : Type 0 where
  pub code : String
  pub title : JsText
  pub due_at : String

pub record RoadmapGroup : Type 0 where
  pub name : RoadmapPhase
  pub controls : List RoadmapItem

-- `===` on phases.
abbrev pub same_phase : RoadmapPhase → RoadmapPhase → Bool
same_phase foundation foundation = true
same_phase operations operations = true
same_phase oversight oversight = true
same_phase significant_fiduciary significant_fiduciary = true
same_phase _ _ = false

abbrev to_item : RoadmapControl → RoadmapItem
to_item c = record { code = c.code; title = c.title; due_at = c.due_at }

unfoldable pub roadmap_group : List RoadmapControl → RoadmapPhase → RoadmapGroup
roadmap_group controls name = record {
  name = name;
  controls = map to_item (filter (λ (c : RoadmapControl). same_phase c.phase name) controls);
}

abbrev has_controls : RoadmapGroup → Bool
has_controls g = ltb 0 (length g.controls)

unfoldable pub roadmap_phases : List RoadmapControl → List RoadmapGroup
roadmap_phases controls = filter has_controls (
    map (roadmap_group controls) (foundation ∷ operations ∷ oversight ∷ significant_fiduciary ∷ []))

-- The fields of `summary` stand beside the others.
pub record Roadmap : Type 0 where
  pub generated_at : String
  pub profile : FrameworkProfile
  pub control_count : ℕ
  pub requirement_count : ℕ
  pub is_sdf : Bool
  pub phase_count : ℕ
  pub phases : List RoadmapGroup

unfoldable pub build_roadmap_json : FrameworkProfile → List RoadmapControl → ℕ → String → Roadmap
build_roadmap_json profile controls requirement_count generated_at =
    let phases = roadmap_phases controls in
    record {
      generated_at = generated_at;
      profile = profile;
      control_count = length controls;
      requirement_count = requirement_count;
      is_sdf = profile.is_sdf;
      phase_count = length phases;
      phases = phases;
    }

-- How many controls the groups list.
abbrev pub listed : List RoadmapGroup → ℕ
listed [] = 0
listed (g ∷ groups) = length g.controls + listed groups

abbrev pub AllFilled : List RoadmapGroup → Type 0
AllFilled groups = All (λ (g : RoadmapGroup). 0 < length g.controls) groups

listed-filter : (groups : List RoadmapGroup) → listed (filter has_controls groups) ≡ listed groups
listed-filter [] = refl
listed-filter (g ∷ groups) = ground (arith, listed-filter groups)

filter-AllFilled : (groups : List RoadmapGroup) → AllFilled (filter has_controls groups)
filter-AllFilled [] = tt
filter-AllFilled (g ∷ groups) = elim (Bool-cases (has_controls g)) [
  | inl yes' ↦ rw yes' (ground arith, filter-AllFilled groups)
  | inr no' ↦ rw no' (filter-AllFilled groups)
]

abbrev count : RoadmapPhase → List RoadmapControl → ℕ
count name controls = length (filter (λ (c : RoadmapControl). same_phase c.phase name) controls)

count_phases :
    (controls : List RoadmapControl)
    → count foundation controls
        + count operations controls
        + count oversight controls
        + count significant_fiduciary controls
      ≡ length controls
count_phases [] = refl
count_phases (c ∷ controls) = ground (arith, count_phases controls)

-- The phases of a roadmap list as many controls as were given, none of them is empty, and their number
-- is the one in the summary.
pub roadmap_lists_all :
    (profile : FrameworkProfile) (controls : List RoadmapControl) (n : ℕ) (at : String)
    → let roadmap = build_roadmap_json profile controls n at in
      (listed roadmap.phases ≡ roadmap.control_count)
      × AllFilled roadmap.phases
      × (length roadmap.phases ≡ roadmap.phase_count)
unfolding build_roadmap_json roadmap_phases roadmap_group
roadmap_lists_all profile controls n at = (
  listed-filter (
        map (roadmap_group controls)
          (foundation ∷ operations ∷ oversight ∷ significant_fiduciary ∷ []))
      ∙ omega (
        arith,
        count_phases controls,
        length-map to_item
            (filter (λ (c : RoadmapControl). same_phase c.phase foundation) controls),
        length-map to_item
            (filter (λ (c : RoadmapControl). same_phase c.phase operations) controls),
        length-map to_item (filter (λ (c : RoadmapControl). same_phase c.phase oversight) controls),
        length-map to_item
            (filter (λ (c : RoadmapControl). same_phase c.phase significant_fiduciary) controls),
      ),
  filter-AllFilled (
      map (roadmap_group controls)
        (foundation ∷ operations ∷ oversight ∷ significant_fiduciary ∷ [])),
  refl,
)
