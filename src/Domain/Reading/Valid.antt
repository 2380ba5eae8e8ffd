-- ===== src/Domain/Reading/Valid.antt =====
-- src/domain/dag.ts: what a reader that reports no issue has read.
use pi_build_conductor.Prelude.{
  ℕ, suc, String, Bool, true, false, not, List, [], ◌∷◌, ◌++◌, Option, some, All, All-map,
  is_distinct, includes, eq_of_beq, beq_refl, length, eqb, ◌==◌, string_eq, ◌≡◌, ◌≢◌, refl, arith,
  inl, inr, Bool-cases, Option-cases, get,
}
use pi_build_conductor.Domain.Types.{ValidationCommand}
use pi_build_conductor.Domain.Json.{Json, as_array, as_record, as_text}
use pi_build_conductor.Domain.Text.{trim, trim_idem}
use pi_build_conductor.Domain.Reading.{
  PlanValidationIssue, Reading, report_if, issue, at_field, at_index, read_each, check_each,
  names_of, check_new,
}
use pi_build_conductor.Domain.Reading.Texts.{read_non_empty_string, read_string_array}
use pi_build_conductor.Domain.Reading.Commands.{
  has_nul, read_argument, read_arguments, read_command_object, read_validation_commands,
}
use pi_build_conductor.Domain.Reading.Paths.{
  is_unsafe_path, is_non_canonical_path, check_path, read_safe_repository_paths, read_allowed_paths,
}

-- A text with no space at its ends that is not empty.
abbrev pub IsText : String → Type 0
IsText text = (trim text ≡ text) × ((text == "") ≡ false)

abbrev pub IsCommand : ValidationCommand → Type 0
IsCommand c =
    IsText c.command × (has_nul c.command ≡ false) × All (λ arg. has_nul arg ≡ false) c.args

abbrev pub AreCommands : List ValidationCommand → Type 0
AreCommands commands = (commands ≢ []) × All IsCommand commands

abbrev pub IsPath : String → Type 0
IsPath path = (is_unsafe_path path ≡ false) × (is_non_canonical_path path ≡ false)

abbrev pub ArePaths : List String → Type 0
ArePaths paths = All IsText paths × All IsPath paths × (is_distinct paths ≡ true)

pub nil-append : {A : Type 0} (xs ys : List A) → xs ++ ys ≡ [] → (xs ≡ []) × (ys ≡ [])
nil-append [] ys h = (refl, h)
nil-append (x ∷ xs) ys h = absurd (cc)

pub report_if-none :
    (test : Bool) (found : PlanValidationIssue) → (report_if test found).1 ≡ [] → test ≡ false
report_if-none true found h = absurd (cc)
report_if-none false found h = refl

module _ {A : Type 0} where
  pub read_each-All :
      {B : Type 0} (f : A → ℕ → Reading B) (P : B → Type 0)
      → ((a : A) (index : ℕ) → (f a index).1 ≡ [] → P (f a index).0)
      → (index : ℕ) (items : List A) → (read_each f index items).1 ≡ []
      → All P (read_each f index items).0
  unfolding read_each
  read_each-All f P sound index [] h = tt
  read_each-All f P sound index (item ∷ items) h =
      let (first, later) = nil-append _ _ h in
      (sound item index first, read_each-All f P sound (suc index) items (nil-append _ _ later).0)

  pub check_each-All :
      (f : A → ℕ → Reading (Unit {0})) (P : A → Type 0)
      → ((a : A) (index : ℕ) → (f a index).1 ≡ [] → P a)
      → (index : ℕ) (items : List A) → (check_each f index items).1 ≡ []
      → All P items
  unfolding check_each
  check_each-All f P sound index [] h = tt
  check_each-All f P sound index (item ∷ items) h =
      let (first, later) = nil-append _ _ h in
      (sound item index first, check_each-All f P sound (suc index) items later)

not_included :
    (a : String) (xs : List String) → All (λ x. (a == x) ≡ false) xs → includes a xs ≡ false
not_included a [] h = refl
not_included a (x ∷ xs) h = elim (Bool-cases (x == a)) [
  | inl q ↦ absurd (cc (eq_of_beq x a q, beq_refl a, h.0))
  | inr q ↦ rw q (not_included a xs h.1)
]

module _ {A : Type 0} (f : List String → A → ℕ → Reading (Unit {0})) (name : A → String) where
  pub check_new-All :
      (P : A → Type 0)
      → ((names : List String) (a : A) (index : ℕ)
          → (f names a index).1 ≡ []
          → P a × (includes (name a) names ≡ false))
      → (names : List String) (index : ℕ) (items : List A)
      → (check_new f name names index items).1 ≡ []
      → All P items
        × (is_distinct (names_of name items) ≡ true)
        × All (λ other. includes other names ≡ false) (names_of name items)
  unfolding check_new
  check_new-All P sound names index [] h = (tt, refl, tt)
  check_new-All P sound names index (item ∷ items) h =
      let (first, later) = nil-append _ _ h in
      let (holds, fresh) = sound names item index first in
      let (each, distinct, apart) =
        check_new-All P sound (name item ∷ names) (suc index) items later in
      let alone = not_included (name item) (names_of name items) (
        All-map (λ other. includes other (name item ∷ names) ≡ false)
          (λ other. (name item == other) ≡ false) (names_of name items) (λ other k. ground arith)
          apart) in
      (
        (holds, each),
        rw (alone, distinct) refl,
        (
          fresh,
          All-map (λ other. includes other (name item ∷ names) ≡ false)
              (λ other. includes other names ≡ false) (names_of name items)
              (λ other k. ground arith) apart,
        ),
      )

pub read_non_empty_string-IsText :
    (value : Option Json) (path : String)
    → (read_non_empty_string value path).1 ≡ []
    → IsText (read_non_empty_string value path).0
unfolding read_non_empty_string
read_non_empty_string-IsText value path h = elim (Option-cases (as_text value)) [
  | inl q ↦ absurd (cc (rw (q, read_non_empty_string) at h))
  | inr (text, q) ↦ elim (Bool-cases (trim text == "")) [
    | inl p ↦ absurd (cc (rw (q, p, read_non_empty_string) at h))
    | inr p ↦ rw (q, p, read_non_empty_string) (trim_idem text, p)
  ]
]

pub read_string_array-All :
    (value : Option Json) (path : String)
    → (read_string_array value path).1 ≡ []
    → All IsText (read_string_array value path).0
unfolding read_string_array
read_string_array-All value path h = elim (Option-cases (as_array value)) [
  | inl q ↦ absurd (cc (rw (q, read_string_array) at h))
  | inr (items, q) ↦
      rw (q, read_string_array)
        (read_each-All _ IsText
          (λ item index k. read_non_empty_string-IsText (some item) (at_index path index) k) 0 items
          (rw (q, read_string_array) at h))
]

check_path-IsPath : (entry path : String) → (check_path entry path).1 ≡ [] → IsPath entry
unfolding check_path
check_path-IsPath entry path h = elim (Bool-cases (is_unsafe_path entry)) [
  | inl q ↦ absurd (cc (rw q at h))
  | inr q ↦ (q, report_if-none (is_non_canonical_path entry) _ (rw q at h))
]

pub read_safe_repository_paths-ArePaths :
    (value : Option Json) (path : String)
    → (read_safe_repository_paths value path).1 ≡ []
    → ArePaths (read_safe_repository_paths value path).0
unfolding read_safe_repository_paths
read_safe_repository_paths-ArePaths value path h =
    let (texts, later) = nil-append _ _ h in
    let (paths, last) = nil-append _ _ later in
    let read = (read_string_array value path).0 in
    let distinct =
      report_if-none (not (is_distinct read)) (issue "duplicate_path" path)
        (nil-append _ [] last).0 in
    (
      read_string_array-All value path texts,
      check_each-All _ IsPath (λ entry index k. check_path-IsPath entry (at_index path index) k) 0
          read paths,
      ground arith,
    )

pub read_allowed_paths-ArePaths :
    (value : Option Json) (path : String)
    → (read_allowed_paths value path).1 ≡ []
    → ((read_allowed_paths value path).0 ≢ []) × ArePaths (read_allowed_paths value path).0
unfolding read_allowed_paths
read_allowed_paths-ArePaths value path h =
    let (paths, later) = nil-append _ _ h in
    let read = (read_safe_repository_paths value path).0 in
    let some_paths =
      report_if-none (eqb (length read) 0) (issue "required_paths" path)
        (nil-append _ [] later).0 in
    (
      λ empty. absurd (cc (rw empty at some_paths)),
      read_safe_repository_paths-ArePaths value path paths,
    )

read_argument-has_nul :
    (argument : Json) (path : String)
    → (read_argument argument path).1 ≡ []
    → has_nul (read_argument argument path).0 ≡ false
unfolding read_argument
read_argument-has_nul argument path h = elim (Option-cases (as_text (some argument))) [
  | inl q ↦ absurd (cc (rw (q, read_argument) at h))
  | inr (text, q) ↦
      rw (q, read_argument)
        (report_if-none (has_nul text) _ (nil-append _ _ (rw (q, read_argument) at h)).0)
]

read_arguments-All :
    (value : Option Json) (command path : String)
    → (read_arguments value command path).1 ≡ []
    → ((read_arguments value command path).0.command ≡ command)
      × All (λ arg. has_nul arg ≡ false) (read_arguments value command path).0.args
unfolding read_arguments
read_arguments-All value command path h = elim (Option-cases (as_array value)) [
  | inl q ↦ absurd (cc (rw (q, read_arguments) at h))
  | inr (items, q) ↦
      rw (q, read_arguments)
        (
          refl,
          read_each-All _ (λ arg. has_nul arg ≡ false)
              (λ item index k. read_argument-has_nul item (at_index path index) k) 0 items
              (nil-append _ _ (rw (q, read_arguments) at h)).0,
        )
]

pub read_command_object-IsCommand :
    (item : Option Json) (path : String)
    → (read_command_object item path).1 ≡ []
    → IsCommand (read_command_object item path).0
unfolding read_command_object
read_command_object-IsCommand item path h = elim (Option-cases (as_record item)) [
  | inl q ↦ absurd (cc (rw (q, read_command_object) at h))
  | inr (fields, q) ↦
      let (named, later) = nil-append _ _ (rw (q, read_command_object) at h) in
      let (clean, last) = nil-append _ _ later in
      let command = (read_non_empty_string (get "command" fields) (at_field path "command")).0 in
      let (same, args) =
        read_arguments-All (get "args" fields) command (at_field path "args") last in
      rw (q, read_command_object)
        (
          rw same
              (read_non_empty_string-IsText (get "command" fields) (at_field path "command") named),
          rw same (report_if-none (has_nul command) _ clean),
          args,
        )
]

pub read_validation_commands-AreCommands :
    (value : Option Json) (path : String)
    → (read_validation_commands value path).1 ≡ []
    → AreCommands (read_validation_commands value path).0
unfolding read_validation_commands
read_validation_commands-AreCommands value path h = elim (Option-cases (as_array value)) [
  | inl q ↦ absurd (cc (rw (q, read_validation_commands) at h))
  | inr ([], q) ↦ absurd (cc (rw (q, read_validation_commands) at h))
  | inr (item ∷ items, q) ↦
      rw (q, read_validation_commands)
        (
          λ empty. absurd (cc),
          read_each-All _ IsCommand
              (λ item index k. read_command_object-IsCommand (some item) (at_index path index) k) 0
              (item ∷ items) (rw (q, read_validation_commands) at h),
        )
]
