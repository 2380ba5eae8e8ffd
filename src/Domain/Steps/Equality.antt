-- ===== src/Domain/Steps/Equality.antt =====
-- `JSON.stringify(left) === JSON.stringify(right)` on steps of one plan: equality of all fields.
use pi_build_conductor.Prelude.{
  ℕ, String, Bool, true, false, ◌&&◌, List, [], ◌∷◌, Option, none, some, ◌≡◌, ◌↔◌, refl, sym, ◌∙◌,
  ap, arith, Eq, ◌==◌, nat_eq, string_eq, eqb, if◌then◌else◌, eq_of_beq, beq_refl,
}
use pi_build_conductor.Domain.Types.{
  CapabilityProfileName, StepCapability, ValidationCommand, capability_eq,
}
use pi_build_conductor.Domain.Steps.{StepInputReference, StepRetryPolicy, StepBody, StepDefinition}

-- Equality through a form that the value can be read back from.
abbrev pub equality_of :
    {A B : Type 0} (write : A → B) (read : B → A) → ((a : A) → read (write a) ≡ a) → Eq B → Eq A
equality_of write read back e = record {
  equals = λ a b. e.equals (write a) (write b);
  equals_iff = λ a b. (
    λ h. sym (back a) ∙ ap read ((e.equals_iff (write a) (write b)).0 h) ∙ back b,
    λ h. (e.equals_iff (write a) (write b)).1 (ap write h),
  );
}

module _ {A : Type 0} ⦃e : Eq A⦄ where
  abbrev equal_options : Option A → Option A → Bool
  equal_options none none = true
  equal_options (some a) (some b) = a == b
  equal_options _ _ = false

  pub equal_options_iff : (a b : Option A) → (equal_options a b ≡ true) ↔ (a ≡ b)
  equal_options_iff none none = (λ h. refl, λ h. refl)
  equal_options_iff none (some b) = (λ h. absurd (cc), λ h. absurd (cc))
  equal_options_iff (some a) none = (λ h. absurd (cc), λ h. absurd (cc))
  equal_options_iff (some a) (some b) =
      (λ h. ap some (eq_of_beq a b h), λ h. (e.equals_iff a b).1 (cc))

  abbrev equal_lists : List A → List A → Bool
  equal_lists [] [] = true
  equal_lists (a ∷ as') (b ∷ bs) = a == b && equal_lists as' bs
  equal_lists _ _ = false

  pub equal_lists_iff : (as' bs : List A) → (equal_lists as' bs ≡ true) ↔ (as' ≡ bs)
  equal_lists_iff [] [] = (λ h. refl, λ h. refl)
  equal_lists_iff [] (b ∷ bs) = (λ h. absurd (cc), λ h. absurd (cc))
  equal_lists_iff (a ∷ as') [] = (λ h. absurd (cc), λ h. absurd (cc))
  equal_lists_iff (a ∷ as') (b ∷ bs) = ground (arith, equal_lists_iff as' bs, e.equals_iff a b)

instance abbrev pub option_eq : {A : Type 0} ⦃e : Eq A⦄ → Eq (Option A)
option_eq = record { equals = equal_options; equals_iff = equal_options_iff }

instance abbrev pub list_eq : {A : Type 0} ⦃e : Eq A⦄ → Eq (List A)
list_eq = record { equals = equal_lists; equals_iff = equal_lists_iff }

module _ {A B : Type 0} ⦃e : Eq A⦄ ⦃f : Eq B⦄ where
  abbrev equal_pairs : A × B → A × B → Bool
  equal_pairs p q = p.0 == q.0 && p.1 == q.1

  pub equal_pairs_iff : (p q : A × B) → (equal_pairs p q ≡ true) ↔ (p ≡ q)
  equal_pairs_iff p q = (
    λ h.
        let first : p.0 ≡ q.0 = eq_of_beq p.0 q.0 (ground arith) in
        let second : p.1 ≡ q.1 = eq_of_beq p.1 q.1 (ground arith) in
        ap (λ a. (a, p.1)) first ∙ ap (λ b. (q.0, b)) second,
    λ h. rw (sym h) (rw (beq_refl p.0, beq_refl p.1) refl),
  )

instance abbrev pub pair_eq : {A B : Type 0} ⦃e : Eq A⦄ ⦃f : Eq B⦄ → Eq (A × B)
pair_eq = record { equals = equal_pairs; equals_iff = equal_pairs_iff }

abbrev profile_number : CapabilityProfileName → ℕ
profile_number CapabilityProfileName.investigation = 0
profile_number CapabilityProfileName.change = 1
profile_number CapabilityProfileName.command = 2
profile_number CapabilityProfileName.approval = 3
profile_number CapabilityProfileName.review = 4
profile_number CapabilityProfileName.repair = 5

abbrev profile_at : ℕ → CapabilityProfileName
profile_at n =
    if eqb n 0
    then CapabilityProfileName.investigation
    else if eqb n 1
    then CapabilityProfileName.change
    else if eqb n 2
    then CapabilityProfileName.command
    else if eqb n 3
    then CapabilityProfileName.approval
    else if eqb n 4
    then CapabilityProfileName.review
    else CapabilityProfileName.repair

pub profile_at-profile_number :
    (name : CapabilityProfileName) → profile_at (profile_number name) ≡ name
profile_at-profile_number CapabilityProfileName.investigation = refl
profile_at-profile_number CapabilityProfileName.change = refl
profile_at-profile_number CapabilityProfileName.command = refl
profile_at-profile_number CapabilityProfileName.approval = refl
profile_at-profile_number CapabilityProfileName.review = refl
profile_at-profile_number CapabilityProfileName.repair = refl

instance abbrev pub profile_name_eq : Eq CapabilityProfileName
profile_name_eq = equality_of profile_number profile_at profile_at-profile_number nat_eq

instance abbrev pub command_eq : Eq ValidationCommand
command_eq =
    equality_of {B = String × List String} (λ c. (c.command, c.args))
      (λ p. record { command = p.0; args = p.1 }) (λ c. refl) pair_eq

instance abbrev pub input_eq : Eq StepInputReference
input_eq =
    equality_of {B = String × String} (λ c. (c.step_id, c.output))
      (λ p. record { step_id = p.0; output = p.1 }) (λ c. refl) pair_eq

instance abbrev pub retry_eq : Eq StepRetryPolicy
retry_eq = equality_of (λ c. c.max_attempts) (λ n. record { max_attempts = n }) (λ c. refl) nat_eq

-- The kind as a number, and the fields of any kind.
abbrev BodyForm : Type 0
BodyForm = ℕ × ((List String × List String) × (List ValidationCommand × String))

abbrev no_command : ValidationCommand
no_command = record { command = ""; args = [] }

abbrev only : List ValidationCommand → ValidationCommand
only [] = no_command
only (command ∷ commands) = command

abbrev write_body : StepBody → BodyForm
write_body (StepBody.investigation questions) = (0, ((questions, []), ([], "")))
write_body (StepBody.change criteria paths commands) = (1, ((criteria, paths), (commands, "")))
write_body (StepBody.command command) = (2, (([], []), (command ∷ [], "")))
write_body (StepBody.approval prompt) = (3, (([], []), ([], prompt)))

abbrev body_at : ℕ → (List String × List String) × (List ValidationCommand × String) → StepBody
body_at n form =
    if eqb n 0
    then StepBody.investigation form.0.0
    else if eqb n 1
    then StepBody.change form.0.0 form.0.1 form.1.0
    else if eqb n 2
    then StepBody.command (only form.1.0)
    else StepBody.approval form.1.1

abbrev read_body : BodyForm → StepBody
read_body form = body_at form.0 form.1

pub read_body-write_body : (body : StepBody) → read_body (write_body body) ≡ body
read_body-write_body (StepBody.investigation _) = refl
read_body-write_body (StepBody.change _ _ _) = refl
read_body-write_body (StepBody.command _) = refl
read_body-write_body (StepBody.approval _) = refl

instance abbrev pub body_eq : Eq StepBody
body_eq = equality_of write_body read_body read_body-write_body pair_eq

abbrev Texts : Type 0
Texts = (String × String) × (String × List String)

abbrev Declarations : Type 0
Declarations =
    (Option (List StepInputReference) × Option (List String))
    × (Option CapabilityProfileName × Option (List StepCapability))

abbrev Limits : Type 0
Limits =
    (Option (List String) × Option (List String)) × ((Option ℕ × Option StepRetryPolicy) × StepBody)

abbrev write_step : StepDefinition → Texts × (Declarations × Limits)
write_step step = (
  ((step.id, step.title), (step.description, step.dependencies)),
  (
    ((step.inputs, step.outputs), (step.profile, step.capabilities)),
    ((step.path_locks, step.resource_locks), ((step.timeout_ms, step.retry), step.body)),
  ),
)

abbrev read_step : Texts × (Declarations × Limits) → StepDefinition
read_step form = record {
  id = form.0.0.0;
  title = form.0.0.1;
  description = form.0.1.0;
  dependencies = form.0.1.1;
  inputs = form.1.0.0.0;
  outputs = form.1.0.0.1;
  profile = form.1.0.1.0;
  capabilities = form.1.0.1.1;
  path_locks = form.1.1.0.0;
  resource_locks = form.1.1.0.1;
  timeout_ms = form.1.1.1.0.0;
  retry = form.1.1.1.0.1;
  body = form.1.1.1.1;
}

instance abbrev pub step_eq : Eq StepDefinition
step_eq = equality_of write_step read_step (λ step. refl) pair_eq
