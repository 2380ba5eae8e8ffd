-- ===== src/Domain/Reading.antt =====
-- src/domain/dag.ts: readers that return a value for any input, with the issues that they found.
pub mod Texts
pub mod Paths
pub mod Commands
pub mod Valid
use pi_build_conductor.Prelude.{
  ℕ, suc, String, Bool, true, false, List, [], ◌∷◌, ◌++◌, Option, none, some, if◌then◌else◌, ◌≡◌,
  refl, ap, append_assoc,
}
use pi_build_conductor.Domain.Artifacts.Identity.{decimal}
use pi_build_conductor.Domain.Text.{concat}

-- The message of an issue is made of its code, its path and the texts that it is about, and is left
-- out.
pub record PlanValidationIssue : Type 0 where
  pub code : String
  pub path : String
  pub task_id : Option String
  pub related_task_ids : Option (List String)

abbrev pub issue : String → String → PlanValidationIssue
issue code path = record { code = code; path = path; task_id = none; related_task_ids = none }

abbrev pub task_issue : String → String → String → PlanValidationIssue
task_issue code path task_id = record (issue code path) { task_id = some task_id }

-- A reader appends to the list of issues that it is given; here it returns its own.
abbrev pub Reading : Type 0 → Type 0
Reading A = A × List PlanValidationIssue

infixl 5 ◌>>=◌ ◌>>◌
abbrev pub ◌>>=◌ : {A B : Type 0} → Reading A → (A → Reading B) → Reading B
m >>= f = ((f m.0).0, m.1 ++ (f m.0).1)

abbrev pub ◌>>◌ : {B : Type 0} → Reading (Unit {0}) → Reading B → Reading B
m >> k = m >>= λ _. k

abbrev pub pure : {A : Type 0} → A → Reading A
pure a = (a, [])

abbrev pub failing : {A : Type 0} → A → PlanValidationIssue → Reading A
failing a found = (a, found ∷ [])

-- `if (test) addIssue(...)`.
abbrev pub report_if : Bool → PlanValidationIssue → Reading (Unit {0})
report_if true found = (tt, found ∷ [])
report_if false found = (tt, [])

-- `${path}.${name}` and `${path}[${index}]`.
abbrev pub at_field : String → String → String
at_field path name = concat path (concat "." name)

abbrev pub at_index : String → ℕ → String
at_index path index = concat path (concat "[" (concat (decimal index index) "]"))

-- `value.map((item, index) => ...)` with a reader, and the loop `for (const [index, item] of ...)`.
unfoldable pub read_each : {A B : Type 0} → (A → ℕ → Reading B) → ℕ → List A → Reading (List B)
read_each f index [] = pure []
read_each f index (item ∷ items) = do
  first ← f item index
  rest ← read_each f (suc index) items
  pure (first ∷ rest)

unfoldable pub check_each :
    {A : Type 0} → (A → ℕ → Reading (Unit {0})) → ℕ → List A → Reading (Unit {0})
check_each f index [] = pure tt
check_each f index (item ∷ items) = do f item index; check_each f (suc index) items

-- The names of the items, as the loops below collect them in a `Set`.
abbrev pub names_of : {A : Type 0} → (A → String) → List A → List String
names_of name [] = []
names_of name (item ∷ items) = name item ∷ names_of name items

-- A loop whose check is given the names of the earlier items.
unfoldable pub check_new :
    {A : Type 0}
    → (List String → A → ℕ → Reading (Unit {0}))
    → (A → String)
    → List String
    → ℕ
    → List A
    → Reading (Unit {0})
check_new f name names index [] = pure tt
check_new f name names index (item ∷ items) = do
  f names item index
  check_new f name (name item ∷ names) (suc index) items
