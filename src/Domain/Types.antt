-- ===== src/Domain/Types.antt =====
-- src/domain/types.ts: the state vocabularies, the capability vocabulary, plans and attempts.
use pi_build_conductor.Prelude.{
  String, Bool, true, false, List, [], ◌∷◌, Option, ◌≡◌, ◌↔◌, arith, Eq,
}

pub data TaskState : Type 0 where
  planned ready running validating succeeded failed blocked cancelled : TaskState

pub data AttemptState : Type 0 where
  prepared launched running validating succeeded failed cancelled interrupted : AttemptState

-- `ACTIVE_ATTEMPT_STATES.has(state)`.
unfoldable pub is_active_attempt_state : AttemptState → Bool
is_active_attempt_state AttemptState.prepared = true
is_active_attempt_state AttemptState.launched = true
is_active_attempt_state AttemptState.running = true
is_active_attempt_state AttemptState.validating = true
is_active_attempt_state _ = false

pub data StepCapability : Type 0 where
  read_repository mutate_repository execute_commands : StepCapability

abbrev capability_beq : StepCapability → StepCapability → Bool
capability_beq read_repository read_repository = true
capability_beq mutate_repository mutate_repository = true
capability_beq execute_commands execute_commands = true
capability_beq _ _ = false

pub capability_beq_iff : (a b : StepCapability) → (capability_beq a b ≡ true) ↔ (a ≡ b)
capability_beq_iff read_repository b = ground arith
capability_beq_iff mutate_repository b = ground arith
capability_beq_iff execute_commands b = ground arith

instance abbrev pub capability_eq : Eq StepCapability
capability_eq = record { equals = capability_beq; equals_iff = capability_beq_iff }

-- `STEP_CAPABILITIES`.
abbrev pub step_capability_names : List StepCapability
step_capability_names = read_repository ∷ mutate_repository ∷ execute_commands ∷ []

pub data CapabilityProfileName : Type 0 where
  investigation change command approval review repair : CapabilityProfileName

-- `CAPABILITY_PROFILE_NAMES`.
abbrev pub capability_profile_names : List CapabilityProfileName
capability_profile_names = investigation ∷ change ∷ command ∷ approval ∷ review ∷ repair ∷ []

-- `resourceDiscovery` and `externalEffects` have one value each, "disabled" and "forbidden", and
-- are left out.
pub record CapabilityProfile : Type 0 where
  pub capabilities : List StepCapability
  pub tools : List String

-- `Record<CapabilityProfileName, CapabilityProfile>`: every name has a profile.
abbrev pub RunCapabilityProfiles : Type 0
RunCapabilityProfiles = CapabilityProfileName → CapabilityProfile

pub record ValidationCommand : Type 0 where
  pub command : String
  pub args : List String

pub record TaskDefinition : Type 0 where
  pub id : String
  pub title : String
  pub description : String
  pub dependencies : List String
  pub acceptance_criteria : List String
  pub allowed_paths : List String
  pub validation_commands : List ValidationCommand

-- A `TaskPlan`; its `version` is the literal 3.
pub record TaskPlan : Type 0 where
  pub title : String
  pub tasks : List TaskDefinition
  pub final_validation_commands : List ValidationCommand

pub record ChangedFileEvidence : Type 0 where
  pub path : String
  pub status : String
  pub previous_path : Option String

pub record ValidationCheckEvidence : Type 0 where
  pub command : String
  pub args : List String
  pub passed : Bool

-- The checks keep the fields that decide anything: the command and its verdict. Timestamps, exit
-- codes and output tails are left out.
pub record TaskValidationEvidence : Type 0 where
  pub passed : Bool
  pub changed_files : List ChangedFileEvidence
  pub diff_hash : String
  pub checks : List ValidationCheckEvidence
