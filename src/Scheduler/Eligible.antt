-- ===== src/Scheduler/Eligible.antt =====
-- What makes a device eligible for a task (crates/devrelay-core/src/scheduler_constraints.rs).
use mathlib.Core.Path.{subst}
use Prim.Native.String.{compare}
use Prim.Native.Nat.{Ordering}
use devrelay.Prelude.{
  ℕ, ◌≡◌, ◌⊎◌, refl, sym, ap, ◌∙◌, String, Bool, true, false, ◌&&◌, ◌||◌, Option, none, some, List,
  [], ◌∷◌, arith, inl, inr, leb, ◌==◌, Bool-cases, if◌then◌else◌,
}
use devrelay.Map.{contains}
use devrelay.Map.Laws.{Has}
use devrelay.Scheduler.{
  TaskDefinition, SchedulerDeviceSnapshot, SchedulerConstraintDecision, resource_is_insufficient,
  place, sort, lacking, missing_features, is_empty, any_matches, rejections_of,
  evaluate_scheduler_constraints, filter_scheduler_candidates,
}

unfoldable pub all_present : List String → List String → Bool
unfolding contains
all_present [] actual = true
all_present (f ∷ fs) actual = contains actual f && all_present fs actual

-- An amount meets a demand if what is free covers it, or, where that is not known, if the capacity is
-- known and covers it.
abbrev pub covers : Option ℕ → Option ℕ → ℕ → Bool
covers (some free) capacity required = leb required free
covers none none required = false
covers none (some capacity) required = leb required capacity

abbrev pub meets : (ℕ → Bool) → Option ℕ → Bool
meets p none = true
meets p (some required) = p required

place-is_empty : (s : String) (ts : List String) → is_empty (place s ts) ≡ false
unfolding place
place-is_empty s [] = refl
place-is_empty s (t ∷ ts) = go (compare t s)
  where
    go :
        (o : Ordering) → is_empty (elim o [ Ordering.lt ↦ t ∷ place s ts | _ ↦ s ∷ t ∷ ts ]) ≡ false
    go Ordering.lt = refl
    go Ordering.eq = refl
    go Ordering.gt = refl

sort-is_empty : (ss : List String) → is_empty (sort ss) ≡ is_empty ss
unfolding sort
sort-is_empty [] = refl
sort-is_empty (s ∷ ss) = place-is_empty s (sort ss)

lacking-is_empty :
    (required actual : List String)
    → is_empty (lacking required actual) ≡ all_present required actual
unfolding lacking all_present
lacking-is_empty [] actual = refl
lacking-is_empty (f ∷ fs) actual = ground (arith, lacking-is_empty fs actual)

missing_features-is_empty :
    (required actual : List String)
    → is_empty (missing_features required actual) ≡ all_present required actual
unfolding missing_features
missing_features-is_empty required actual =
    sort-is_empty (lacking required actual) ∙ lacking-is_empty required actual

-- What is in a list that takes a decision if it is eligible.
Has-kept :
    (c : SchedulerConstraintDecision) (rest : List SchedulerConstraintDecision)
    (x : SchedulerConstraintDecision)
    → Has x (if c.eligible then c ∷ rest else rest)
    → ((c.eligible ≡ true) × (x ≡ c)) ⊎ Has x rest
Has-kept c rest x h = elim (Bool-cases c.eligible) [
  | inl e ↦ elim (subst (λ b. Has x (if b then c ∷ rest else rest)) e h) [
    | inl same ↦ inl (e, same)
    | inr later ↦ inr later
  ]
  | inr e ↦ inr (subst (λ b. Has x (if b then c ∷ rest else rest)) e h)
]

kept-Has :
    (c : SchedulerConstraintDecision) (rest : List SchedulerConstraintDecision)
    (x : SchedulerConstraintDecision)
    → ((c.eligible ≡ true) × (x ≡ c)) ⊎ Has x rest
    → Has x (if c.eligible then c ∷ rest else rest)
kept-Has c rest x (inl (e, same)) =
    subst (λ b. Has x (if b then c ∷ rest else rest)) (sym e) (inl same)
kept-Has c rest x (inr later) = elim (Bool-cases c.eligible) [
  | inl e ↦ subst (λ b. Has x (if b then c ∷ rest else rest)) (sym e) (inr later)
  | inr e ↦ subst (λ b. Has x (if b then c ∷ rest else rest)) (sym e) later
]

module _ (glob : String → String → Bool) where
  -- What a task demands of a device.
  abbrev pub satisfies : TaskDefinition → SchedulerDeviceSnapshot → Bool
  satisfies t d =
      d.policy.allow_task_execution
      && (is_empty t.platforms || any_matches glob t.platforms d.platform_key)
      && all_present t.features d.features
      && meets (λ n. leb n d.cpu_cores) t.cpu
      && meets (covers d.dynamic.memory_free_mib d.memory_total_mib) t.memory_mib
      && meets (λ n. n == 0 || covers d.dynamic.disk_free_mib d.disk_total_mib n) t.disk_mib

  -- A device is eligible exactly if it allows tasks, matches one of the platforms if there are any, has
  -- all features, and meets each demand on cores, memory and disk that the task makes; free memory or
  -- disk counts where it is known, and else the known capacity.
  pub evaluate_scheduler_constraints-eligible :
      (t : TaskDefinition) (d : SchedulerDeviceSnapshot)
      → (evaluate_scheduler_constraints glob t d).eligible ≡ satisfies t d
  unfolding evaluate_scheduler_constraints rejections_of resource_is_insufficient
  evaluate_scheduler_constraints-eligible t d =
      ground (arith, missing_features-is_empty t.features d.features)

  candidates_sound :
      (t : TaskDefinition) (ds : List SchedulerDeviceSnapshot) (c : SchedulerConstraintDecision)
      → Has c (filter_scheduler_candidates glob t ds)
      → (d : SchedulerDeviceSnapshot) × Has d ds
        × (satisfies t d ≡ true)
        × (c ≡ evaluate_scheduler_constraints glob t d)
  unfolding filter_scheduler_candidates
  candidates_sound t [] c h = absurd h
  candidates_sound t (d ∷ ds) c h =
      elim (Has-kept (evaluate_scheduler_constraints glob t d) _ c h) [
        | inl (e, same) ↦ (d, inl refl, sym (evaluate_scheduler_constraints-eligible t d) ∙ e, same)
        | inr later ↦
            let (x, here, e, same) = candidates_sound t ds c later in (x, inr here, e, same)
      ]

  candidates_complete :
      (t : TaskDefinition) (ds : List SchedulerDeviceSnapshot) (d : SchedulerDeviceSnapshot)
      → Has d ds
      → satisfies t d ≡ true
      → Has (evaluate_scheduler_constraints glob t d) (filter_scheduler_candidates glob t ds)
  unfolding filter_scheduler_candidates
  candidates_complete t [] d here h = absurd here
  candidates_complete t (x ∷ xs) d here h =
      kept-Has (evaluate_scheduler_constraints glob t x) _ (evaluate_scheduler_constraints glob t d)
        (elim here [
          | inl same ↦ inl (
            evaluate_scheduler_constraints-eligible t x ∙ ap (satisfies t) (sym same) ∙ h,
            ap (evaluate_scheduler_constraints glob t) same,
          )
          | inr later ↦ inr (candidates_complete t xs d later h)
        ])

  -- The candidates are exactly the decisions on those of the devices that satisfy the task's demands.
  pub filter_scheduler_candidates-satisfies :
      (t : TaskDefinition) (ds : List SchedulerDeviceSnapshot)
      → ((c : SchedulerConstraintDecision)
          → Has c (filter_scheduler_candidates glob t ds)
          → (d : SchedulerDeviceSnapshot) × Has d ds
            × (satisfies t d ≡ true)
            × (c ≡ evaluate_scheduler_constraints glob t d))
        × ((d : SchedulerDeviceSnapshot)
            → Has d ds
            → satisfies t d ≡ true
            → Has (evaluate_scheduler_constraints glob t d) (filter_scheduler_candidates glob t ds))
  filter_scheduler_candidates-satisfies t ds = (candidates_sound t ds, candidates_complete t ds)
