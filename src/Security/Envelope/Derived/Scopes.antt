-- ===== src/Security/Envelope/Derived/Scopes.antt =====
-- src/security/envelope.ts: the scope that is derived from a well-formed plan.
use pi_build_conductor.Prelude.{
  ℕ, suc, String, Bool, true, false, not, ◌&&◌, List, [], ◌∷◌, Option, some, map, includes,
  is_distinct, eqb, length, string_eq, ◌≡◌, ◌≢◌, refl, sym, arith, inl, inr, Bool-cases,
  if◌then◌else◌,
}
use pi_build_conductor.Domain.Types.{
  StepCapability, read_repository, mutate_repository, execute_commands, capability_eq,
  RunCapabilityProfiles,
}
use pi_build_conductor.Domain.Json.{str, items_of-to_items}
use pi_build_conductor.Domain.Steps.{WorkflowPlan}
use pi_build_conductor.Domain.Reading.{at_field, at_index, check_each, report_if, issue}
use pi_build_conductor.Domain.Reading.Valid.{ArePaths}
use pi_build_conductor.Domain.TaskPlan.Document.{
  strings_value, read_safe_repository_paths-strings_value,
}
use pi_build_conductor.Domain.StepPlan.Fields.{capability_text}
use pi_build_conductor.Domain.StepPlan.Accepted.{IsWorkflowPlan}
use pi_build_conductor.Security.Envelope.{EnvelopeMutationScope, path_is_allowed}
use pi_build_conductor.Security.Envelope.Fields.{
  reject_unknown_keys, ordered_capabilities, read_known_capabilities, read_capability_array,
  read_capabilities, read_scope_fields, read_mutation_scope,
}
use pi_build_conductor.Security.Envelope.Derived.{plan_capabilities, plan_paths, scope_value}
use pi_build_conductor.Security.Envelope.Derived.Collected.{plan_paths-ArePaths, plan_paths-ne-nil}

abbrev pub derived_scope : WorkflowPlan → Option RunCapabilityProfiles → EnvelopeMutationScope
derived_scope plan profiles = record {
  capabilities = plan_capabilities plan.steps profiles;
  allowed_paths =
      if includes mutate_repository (plan_capabilities plan.steps profiles)
      then plan_paths plan.steps profiles
      else [];
  forbidden_paths = [];
}

read_known_capabilities-map :
    (path : String) (index : ℕ) (cs : List StepCapability)
    → read_known_capabilities path index (map str (map capability_text cs)) ≡ (cs, [])
unfolding read_known_capabilities
read_known_capabilities-map path index [] = refl
read_known_capabilities-map path index (read_repository ∷ cs) =
    rw (read_known_capabilities-map path (suc index) cs) refl
read_known_capabilities-map path index (mutate_repository ∷ cs) =
    rw (read_known_capabilities-map path (suc index) cs) refl
read_known_capabilities-map path index (execute_commands ∷ cs) =
    rw (read_known_capabilities-map path (suc index) cs) refl

-- The capabilities of a scope are none, or one of them is to read.
abbrev pub MayRead : List StepCapability → Type 0
MayRead cs = (not (eqb (length cs) 0) && not (includes read_repository cs)) ≡ false

is_distinct-ordered_capabilities :
    (cs : List StepCapability) → is_distinct (ordered_capabilities cs) ≡ true
unfolding ordered_capabilities
is_distinct-ordered_capabilities cs = ground arith

ordered_idem :
    (cs : List StepCapability)
    → ordered_capabilities (ordered_capabilities cs) ≡ ordered_capabilities cs
unfolding ordered_capabilities
ordered_idem cs = ground arith

read_capabilities-strings_value :
    (path : String) (cs : List StepCapability)
    → is_distinct cs ≡ true
    → MayRead cs
    → ordered_capabilities cs ≡ cs
    → read_capabilities path (some (strings_value (map capability_text cs))) ≡ (cs, [])
unfolding read_capabilities read_capability_array
read_capabilities-strings_value path cs distinct reads ordered =
    rw
      (
        items_of-to_items (map str (map capability_text cs)),
        read_known_capabilities-map path 0 cs,
        distinct,
        reads,
        ordered,
      )
      refl

nothing_withheld :
    (at : ℕ → String) (paths : List String) (index : ℕ)
    → (check_each
        (λ allowed i. report_if (path_is_allowed allowed []) (issue "cancelled_path" (at i)))
        index
        paths).1
      ≡ []
unfolding check_each path_is_allowed
nothing_withheld at [] index = refl
nothing_withheld at (path ∷ paths) index = nothing_withheld at paths (suc index)

read_mutation_scope-scope_value :
    (path : String) (cs : List StepCapability) (paths chosen : List String)
    → (if includes mutate_repository cs then paths else []) ≡ chosen
    → is_distinct cs ≡ true
    → MayRead cs
    → ordered_capabilities cs ≡ cs
    → ArePaths chosen
    → includes mutate_repository cs ≡ not (eqb (length chosen) 0)
    → read_mutation_scope (some (scope_value cs paths)) path
      ≡ (record { capabilities = cs; allowed_paths = chosen; forbidden_paths = [] }, [])
unfolding read_mutation_scope read_scope_fields reject_unknown_keys check_each
read_mutation_scope-scope_value path cs paths chosen same distinct reads ordered are usable =
    rw
      (
        same,
        read_capabilities-strings_value (at_field path "capabilities") cs distinct reads ordered,
        read_safe_repository_paths-strings_value chosen (at_field path "allowedPaths") are,
        read_safe_repository_paths-strings_value [] (at_field path "forbiddenPaths") (tt, tt, refl),
        usable,
      )
      (elim (Bool-cases (eqb (length chosen) 0)) [
        | inl e ↦ rw (e, nothing_withheld (at_index (at_field path "allowedPaths")) chosen 0) refl
        | inr e ↦ rw (e, nothing_withheld (at_index (at_field path "allowedPaths")) chosen 0) refl
      ])

not_empty : (xs : List String) → xs ≢ [] → not (eqb (length xs) 0) ≡ true
not_empty [] h = absurd (h refl)
not_empty (x ∷ xs) h = ground arith

if_paths :
    (may : Bool) (paths : List String)
    → ArePaths paths
    → (may ≡ true → paths ≢ [])
    → ArePaths (if may then paths else [])
      × (may ≡ not (eqb (length (if may then paths else [])) 0))
if_paths true paths are some_path = (are, sym (not_empty paths (some_path refl)))
if_paths false paths are some_path = ((tt, tt, refl), refl)

pub read_scope-derived :
    (plan : WorkflowPlan) (profiles : Option RunCapabilityProfiles) (path : String)
    → IsWorkflowPlan plan
    → MayRead (plan_capabilities plan.steps profiles)
    → read_mutation_scope
        (some
          (scope_value (plan_capabilities plan.steps profiles) (plan_paths plan.steps profiles)))
        path
      ≡ (derived_scope plan profiles, [])
unfolding plan_capabilities
read_scope-derived plan profiles path h reads =
    let cs = plan_capabilities plan.steps profiles in
    let paths = plan_paths plan.steps profiles in
    let (are, usable) =
      if_paths (includes mutate_repository cs) paths
        (plan_paths-ArePaths plan.steps profiles h.steps)
        (plan_paths-ne-nil plan.steps profiles h.steps) in
    read_mutation_scope-scope_value path cs paths _ refl (is_distinct-ordered_capabilities _) reads
      (ordered_idem _) are usable
