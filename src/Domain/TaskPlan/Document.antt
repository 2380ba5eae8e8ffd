-- ===== src/Domain/TaskPlan/Document.antt =====
-- src/domain/dag.ts: a task plan as the value that `validateTaskPlan` is given, and read back.
use pi_build_conductor.Prelude.{
  ℕ, suc, String, false, List, [], ◌∷◌, some, string_eq, ◌==◌, true, is_distinct, includes,
  Bool-cases, eq_of_beq, beq_refl, map, All, ◌≡◌, ◌≢◌, refl, arith, inl, inr, List-cases,
}
use pi_build_conductor.Domain.Types.{TaskDefinition, TaskPlan, ValidationCommand}
use pi_build_conductor.Domain.Json.{
  Json, num, str, arr, obj, to_items, items_of-to_items, to_fields,
}
use pi_build_conductor.Domain.Reading.{
  Reading, at_field, at_index, read_each, check_each, names_of, check_new,
}
use pi_build_conductor.Domain.Reading.Texts.{read_non_empty_string, read_string_array}
use pi_build_conductor.Domain.Reading.Commands.{
  has_nul, read_argument, read_command_object, read_validation_commands,
}
use pi_build_conductor.Domain.Reading.Paths.{
  check_path, read_safe_repository_paths, read_allowed_paths,
}
use pi_build_conductor.Domain.Reading.Valid.{IsText, IsCommand, AreCommands, IsPath, ArePaths}

-- The fields of a plain object, in the order of the interfaces.
abbrev pub strings_value : List String → Json
strings_value texts = arr (to_items (map str texts))

unfoldable pub command_value : ValidationCommand → Json
command_value c = obj (to_fields (("command", str c.command) ∷ ("args", strings_value c.args) ∷ []))

abbrev pub commands_value : List ValidationCommand → Json
commands_value commands = arr (to_items (map command_value commands))

unfoldable pub task_value : TaskDefinition → Json
unfolding command_value
task_value task = obj (
    to_fields (
      ("id", str task.id)
      ∷ ("title", str task.title)
      ∷ ("description", str task.description)
      ∷ ("dependencies", strings_value task.dependencies)
      ∷ ("acceptanceCriteria", strings_value task.acceptance_criteria)
      ∷ ("allowedPaths", strings_value task.allowed_paths)
      ∷ ("validationCommands", commands_value task.validation_commands)
      ∷ []))

unfoldable pub task_plan_value : TaskPlan → Json
unfolding task_value
task_plan_value plan = obj (
    to_fields (
      ("version", num 3)
      ∷ ("title", str plan.title)
      ∷ ("tasks", arr (to_items (map task_value plan.tasks)))
      ∷ ("finalValidationCommands", commands_value plan.final_validation_commands)
      ∷ []))

pub read_each-map :
    {B : Type 0} (f : Json → ℕ → Reading B) (P : B → Type 0) (value : B → Json)
    → ((b : B) (index : ℕ) → P b → f (value b) index ≡ (b, []))
    → (index : ℕ) (items : List B) → All P items
    → read_each f index (map value items) ≡ (items, [])
unfolding read_each
read_each-map f P value reads index [] h = refl
read_each-map f P value reads index (b ∷ items) h =
    rw (reads b index h.0, read_each-map f P value reads (suc index) items h.1) refl

pub check_each-none :
    {A : Type 0} (f : A → ℕ → Reading (Unit {0})) (P : A → Type 0)
    → ((a : A) (index : ℕ) → P a → (f a index).1 ≡ [])
    → (index : ℕ) (items : List A) → All P items
    → (check_each f index items).1 ≡ []
unfolding check_each
check_each-none f P holds index [] h = refl
check_each-none f P holds index (a ∷ items) h =
    rw (holds a index h.0, check_each-none f P holds (suc index) items h.1) refl

-- The names of the rest differ from one that is put before them.
apart-cons :
    (name : String) (names more : List String)
    → includes name more ≡ false
    → All (λ other. includes other names ≡ false) more
    → All (λ other. includes other (name ∷ names) ≡ false) more
apart-cons name names [] alone apart = tt
apart-cons name names (other ∷ more) alone apart = elim (Bool-cases (name == other)) [
  | inl q ↦ absurd (cc (eq_of_beq name other q, beq_refl name, alone))
  | inr q ↦ (rw q apart.0, apart-cons name names more (ground arith) apart.1)
]

pub apart_from_none : (names : List String) → All (λ name. includes name [] ≡ false) names
apart_from_none [] = tt
apart_from_none (name ∷ names) = (refl, apart_from_none names)

module _ {A : Type 0} (f : List String → A → ℕ → Reading (Unit {0})) (name : A → String) where
  pub check_new-none :
      (P : A → Type 0)
      → ((names : List String) (a : A) (index : ℕ)
          → P a
          → includes (name a) names ≡ false
          → (f names a index).1 ≡ [])
      → (names : List String) (index : ℕ) (items : List A) → All P items
      → is_distinct (names_of name items) ≡ true
      → All (λ other. includes other names ≡ false) (names_of name items)
      → (check_new f name names index items).1 ≡ []
  unfolding check_new
  check_new-none P holds names index [] each distinct apart = refl
  check_new-none P holds names index (item ∷ items) each distinct apart =
      rw
        (
          holds names item index each.0 apart.0,
          check_new-none P holds (name item ∷ names) (suc index) items each.1 (ground arith)
              (apart-cons (name item) names (names_of name items) (ground arith) apart.1),
        )
        refl

pub read_non_empty_string-str :
    (text path : String) → IsText text → read_non_empty_string (some (str text)) path ≡ (text, [])
unfolding read_non_empty_string
read_non_empty_string-str text path h = rw h.0 (rw h.1 refl)

pub read_string_array-strings_value :
    (texts : List String) (path : String)
    → All IsText texts
    → read_string_array (some (strings_value texts)) path ≡ (texts, [])
unfolding read_string_array
read_string_array-strings_value texts path h = rw (items_of-to_items (map str texts)) (
    read_each-map _ IsText str (λ t i k. read_non_empty_string-str t (at_index path i) k) 0 texts h)

read_argument-str :
    (text path : String) → has_nul text ≡ false → read_argument (str text) path ≡ (text, [])
unfolding read_argument
read_argument-str text path h = rw h refl

pub read_command_object-command_value :
    (c : ValidationCommand) (path : String)
    → IsCommand c
    → read_command_object (some (command_value c)) path ≡ (c, [])
unfolding read_command_object command_value
read_command_object-command_value c path h =
    rw
      (
        read_non_empty_string-str c.command (at_field path "command") h.0,
        h.1,
        items_of-to_items (map str c.args),
        read_each-map _ (λ arg. has_nul arg ≡ false) str
            (λ t i k. read_argument-str t (at_index (at_field path "args") i) k) 0 c.args h.2,
      )
      refl

pub read_validation_commands-commands_value :
    (commands : List ValidationCommand) (path : String)
    → AreCommands commands
    → read_validation_commands (some (commands_value commands)) path ≡ (commands, [])
unfolding read_validation_commands
read_validation_commands-commands_value [] path h = absurd (h.0 refl)
read_validation_commands-commands_value (c ∷ commands) path h =
    rw (items_of-to_items (map command_value commands)) (
      read_each-map (λ item index. read_command_object (some item) (at_index path index)) IsCommand
        command_value (λ b i k. read_command_object-command_value b (at_index path i) k) 0
        (c ∷ commands) h.1)

check_path-none : (entry path : String) → IsPath entry → (check_path entry path).1 ≡ []
unfolding check_path
check_path-none entry path h = rw (h.0, h.1) refl

pub read_safe_repository_paths-strings_value :
    (paths : List String) (path : String)
    → ArePaths paths
    → read_safe_repository_paths (some (strings_value paths)) path ≡ (paths, [])
unfolding read_safe_repository_paths
read_safe_repository_paths-strings_value paths path h =
    rw
      (
        read_string_array-strings_value paths path h.0,
        check_each-none _ IsPath (λ entry i k. check_path-none entry (at_index path i) k) 0 paths
            h.1,
        h.2,
      )
      refl

pub read_allowed_paths-strings_value :
    (paths : List String) (path : String)
    → paths ≢ []
    → ArePaths paths
    → read_allowed_paths (some (strings_value paths)) path ≡ (paths, [])
unfolding read_allowed_paths
read_allowed_paths-strings_value paths path nonempty h =
    rw (read_safe_repository_paths-strings_value paths path h) (elim (List-cases paths) [
      | inl q ↦ absurd (nonempty q)
      | inr (first, rest, q) ↦ rw q (ground arith)
    ])
