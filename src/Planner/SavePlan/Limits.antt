-- ===== src/Planner/SavePlan/Limits.antt =====
-- What the configuration keeps a plan from doing to saves.
use mathlib.Core.Option.{some-injective}
use gamehub.Prelude.{
  String, ◌≡◌, refl, subst, ◌∙◌, inl, inr, Bool, true, false, Option, none, some, List, [], ◌∷◌,
  ◌++◌, map, select, arith, All, All-append, Bool-cases, Option-cases,
}
use gamehub.Prelude.Dict.{Dict}
use gamehub.Prelude.Sort.{sort_by, sort_by-All}
use gamehub.Models.{SaveSpec, SaveBindingSpec}
use gamehub.Paths.{FilePath}
use gamehub.Saves.{skip, SyncState}
use gamehub.Machine.{Machine}
use gamehub.Planner.Types.{SavePlanAction, GamehubConfig}
use gamehub.Planner.SavePlan.{
  SaveLocator, active_save_bindings, discover_local_exact_save_candidates,
  plan_local_only_exact_saves, decide_save, save_action, indexed_save_actions, bindings_by_id_from,
  plan_saves, save_destination, save_key, action_key,
}

pub All-map {ℓ κ μ} :
    {A : Type ℓ} {B : Type κ} (P : B → Type μ) (f : A → B) (xs : List A)
    → All (λ x. P (f x)) xs
    → All P (map f xs)
All-map P f [] h = tt
All-map P f (x ∷ xs) h = (h.0, All-map P f xs h.1)

pub All-each {ℓ κ} : {A : Type ℓ} (P : A → Type κ) (xs : List A) → ((x : A) → P x) → All P xs
All-each P [] h = tt
All-each P (x ∷ xs) h = (h x, All-each P xs h)

pub All-imp {ℓ κ μ} :
    {A : Type ℓ} (P : A → Type κ) (Q : A → Type μ)
    → ((x : A) → P x → Q x)
    → (xs : List A) → All P xs
    → All Q xs
All-imp P Q f [] h = tt
All-imp P Q f (x ∷ xs) h = (f x h.0, All-imp P Q f xs h.1)

pub All-select {ℓ κ} :
    {A : Type ℓ} (P : A → Type κ) (keep : A → Bool) (xs : List A)
    → All P xs
    → All P (select keep xs)
All-select P keep [] h = tt
All-select P keep (x ∷ xs) h = elim (Bool-cases (keep x)) [
  | inl e ↦ rw e (h.0, All-select P keep xs h.1)
  | inr e ↦ rw e (All-select P keep xs h.1)
]

pub select-All {ℓ} :
    {A : Type ℓ} (keep : A → Bool) (xs : List A) → All (λ x. keep x ≡ true) (select keep xs)
select-All keep [] = tt
select-All keep (x ∷ xs) = elim (Bool-cases (keep x)) [
  | inl e ↦ rw e (e, select-All keep xs)
  | inr e ↦ rw e (select-All keep xs)
]

module _ (m : Machine) (locator : SaveLocator) (config : GamehubConfig) (state : SyncState) where
  indexed_save_actions-All {κ} :
      (P : SavePlanAction → Type κ) (by_id : Dict SaveBindingSpec)
      → ((save : SaveSpec) (a : SavePlanAction)
          → save_action m locator config state by_id save ≡ some a
          → P a)
      → (saves : List SaveSpec) (actions : List SavePlanAction)
      → indexed_save_actions m locator config state by_id saves ≡ some actions
      → All P actions
  unfolding indexed_save_actions
  indexed_save_actions-All P by_id each [] actions h = subst (All P) (some-injective _ _ h) tt
  indexed_save_actions-All P by_id each (save ∷ saves) actions h =
      elim (Option-cases (save_action m locator config state by_id save)) [
        | inl e ↦ cc (h, e)
        | inr (a, e) ↦
            elim (Option-cases (indexed_save_actions m locator config state by_id saves)) [
              | inl e' ↦ ground arith
              | inr (rest, e') ↦
                  let same : a ∷ rest ≡ actions = ground arith in
                  subst (All P) same
                    (each save a e, indexed_save_actions-All P by_id each saves rest e')
            ]
      ]

  pub decide-of :
      (by_id : Dict SaveBindingSpec) (save : SaveSpec) (a : SavePlanAction)
      → save_action m locator config state by_id save ≡ some a
      → (a.decision
          ≡ (decide_save m locator config state save
              (save_destination m locator config state by_id save)).0.0)
        × (a.system ≡ save.system)
  unfolding save_action
  decide-of by_id save a h = ground arith

  -- A property of the actions for local candidates and for indexed saves holds of the whole plan.
  pub plan_saves-All {κ} :
      (P : SavePlanAction → Type κ) (bindings : Option (List SaveBindingSpec))
      (saves : List SaveSpec) (actions : List SavePlanAction)
      → ((ids : List String)
          → All P (
              plan_local_only_exact_saves m locator config ids
                (active_save_bindings m locator config bindings)))
      → ((by_id : Dict SaveBindingSpec) (save : SaveSpec) (a : SavePlanAction)
          → save_action m locator config state by_id save ≡ some a
          → P a)
      → plan_saves m locator config state bindings saves ≡ some actions
      → All P actions
  unfolding plan_saves
  plan_saves-All P bindings saves actions local each h =
      let active = active_save_bindings m locator config bindings in
      let by_id = bindings_by_id_from active [] in
      let ids = map (λ (save : SaveSpec). save.save_id) saves in
      let locals = plan_local_only_exact_saves m locator config ids active in
      let sorted = sort_by save_key saves in
      elim (Option-cases (indexed_save_actions m locator config state by_id sorted)) [
        | inl e ↦ ground arith
        | inr (indexed, e) ↦
            let same : sort_by action_key (locals ++ indexed) ≡ actions = ground arith in
            subst (All P) same (
              sort_by-All action_key P (locals ++ indexed) (
                All-append P locals indexed (local ids)
                  (indexed_save_actions-All P by_id (each by_id) sorted indexed e)))
      ]

  disabled_local :
      (bindings : Option (List SaveBindingSpec)) (ids : List String)
      → config.save_sync.enabled ≡ false
      → plan_local_only_exact_saves m locator config ids
          (active_save_bindings m locator config bindings)
        ≡ []
  unfolding plan_local_only_exact_saves discover_local_exact_save_candidates active_save_bindings
      sort_by
  disabled_local none ids off = refl
  disabled_local (some bindings) ids off = rw off

  -- With save sync disabled, every save action of a plan is a skip.
  pub plan_saves-disabled :
      (bindings : Option (List SaveBindingSpec)) (saves : List SaveSpec)
      (actions : List SavePlanAction)
      → config.save_sync.enabled ≡ false
      → plan_saves m locator config state bindings saves ≡ some actions
      → All (λ a. a.decision ≡ skip) actions
  plan_saves-disabled bindings saves actions off =
      plan_saves-All (λ a. a.decision ≡ skip) bindings saves actions
        (λ ids. rw (disabled_local bindings ids off) tt)
        (λ by_id save a h. (decide-of by_id save a h).0 ∙ skips save _)
    where
      skips :
          (save : SaveSpec) (destination : Option FilePath)
          → (decide_save m locator config state save destination).0.0 ≡ skip
      skips save destination = unfold decide_save in rw off
