-- ===== src/Security/Envelope/Valid.antt =====
-- src/security/envelope.ts: the root and the mutation scope of an envelope that is read without an issue.
use text.Mathlib.Text.{starts_with}
use pi_build_conductor.Prelude.{
  String, Bool, true, false, not, ◌&&◌, ◌||◌, List, [], ◌∷◌, Option, none, some, Dict, get,
  includes, is_distinct, eqb, length, All, ◌==◌, string_eq, ◌≡◌, ◌⊎◌, refl, arith, inl, inr,
  Bool-cases, Option-cases, eq_of_beq,
}
use pi_build_conductor.Domain.Types.{
  StepCapability, read_repository, mutate_repository, execute_commands, capability_eq,
}
use pi_build_conductor.Domain.Json.{Json, as_array, as_text}
use pi_build_conductor.Domain.Reading.{Reading, issue, at_field}
use pi_build_conductor.Domain.Reading.Texts.{read_string_array}
use pi_build_conductor.Domain.Reading.Commands.{has_nul}
use pi_build_conductor.Domain.Reading.Paths.{read_safe_repository_paths}
use pi_build_conductor.Domain.Reading.Valid.{
  IsText, ArePaths, nil-append, report_if-none, check_each-All, read_non_empty_string-IsText,
  read_string_array-All, read_safe_repository_paths-ArePaths,
}
use pi_build_conductor.Security.Envelope.{
  EnvelopeSource, authored, derived, EnvelopeMutationScope, path_is_allowed,
}
use pi_build_conductor.Security.Envelope.Fields.{
  or_empty, as_record_or_empty, read_unique_strings, normalize_absolute, without_separators,
  canonical_root, check_repository_root, read_repository_root, ordered_capabilities,
  read_known_capabilities, read_capability_array, read_capabilities, read_scope_fields,
  read_mutation_scope,
}

abbrev pub AreTexts : List String → Type 0
AreTexts texts = All IsText texts × (is_distinct texts ≡ true)

-- A root is its own normal form without trailing separators, unless the normal form is nothing but
-- separators, as that of "/repo/.." is: then the root stays as it was written.
abbrev pub IsNormal : String → Type 0
IsNormal root =
    (without_separators (normalize_absolute root) ≡ root)
    ⊎ (without_separators (normalize_absolute root) ≡ "")

-- The root of a derived envelope is the one that a run uses already.
abbrev pub IsRoot : EnvelopeSource → String → Type 0
IsRoot derived root = (root == "") ≡ false
IsRoot authored root =
    IsText root × (starts_with root "/" ≡ true) × (has_nul root ≡ false) × IsNormal root

pub record IsScope (scope : EnvelopeMutationScope) : Type 0 where
  pub reads : (scope.capabilities ≡ []) ⊎ (includes read_repository scope.capabilities ≡ true)
  pub allowed : ArePaths scope.allowed_paths
  pub forbidden : ArePaths scope.forbidden_paths
  pub usable :
      includes mutate_repository scope.capabilities ≡ not (eqb (length scope.allowed_paths) 0)
  pub writable :
      All (λ path. path_is_allowed path scope.forbidden_paths ≡ false) scope.allowed_paths

pub read_unique_strings-AreTexts :
    (path : String) (value : Option Json)
    → (read_unique_strings path value).1 ≡ []
    → AreTexts (read_unique_strings path value).0
unfolding read_unique_strings
read_unique_strings-AreTexts path value h =
    let (a, h1) = nil-append _ _ h in
    let (b, _) = nil-append _ [] h1 in
    let values = (read_string_array value path).0 in
    let distinct = report_if-none (not (is_distinct values)) (issue "duplicate_entry" path) b in
    (read_string_array-All value path a, ground arith)

pub or_empty-holds :
    {A : Type 0} (read : Option Json → Reading (List A)) (P : List A → Type 0)
    → P []
    → ((value : Option Json) → (read value).1 ≡ [] → P (read value).0)
    → (value : Option Json) → (or_empty read value).1 ≡ []
    → P (or_empty read value).0
or_empty-holds read P start sound none h = start
or_empty-holds read P start sound (some value) h = sound (some value) h

canonical_root-IsNormal : (root : String) → canonical_root root ≡ root → IsNormal root
unfolding canonical_root
canonical_root-IsNormal root h =
    let canonical = without_separators (normalize_absolute root) in
    elim (Bool-cases (canonical == "")) [
      | inl q ↦ inr (eq_of_beq canonical "" q)
      | inr q ↦ inl (rw (q, canonical_root) at h)
    ]

check_repository_root-IsRoot :
    (path root : String)
    → IsText root
    → (check_repository_root path root).1 ≡ []
    → IsRoot authored root
unfolding check_repository_root
check_repository_root-IsRoot path root (trimmed, some_text) h =
    elim (Bool-cases (not (starts_with root "/") || has_nul root)) [
      | inl q ↦ absurd (cc (rw (some_text, q) at h))
      | inr q ↦
          let same =
            report_if-none (not (canonical_root root == root)) (issue "non_canonical_root" path)
              (rw (some_text, q) at h) in
          (
            (trimmed, some_text),
            ground arith,
            ground arith,
            canonical_root-IsNormal root (eq_of_beq (canonical_root root) root (ground arith)),
          )
    ]

pub read_repository_root-IsRoot :
    (source : EnvelopeSource) (value : Option Json) (path : String)
    → (read_repository_root source value path).1 ≡ []
    → IsRoot source (read_repository_root source value path).0
unfolding read_repository_root
read_repository_root-IsRoot derived value path h = elim (Option-cases (as_text value)) [
  | inl q ↦ absurd (cc (rw (q, read_repository_root) at h))
  | inr (root, q) ↦ elim (Bool-cases (root == "")) [
    | inl p ↦ absurd (cc (rw (q, p, read_repository_root) at h))
    | inr p ↦ rw (q, p, read_repository_root) p
  ]
]
read_repository_root-IsRoot authored value path h =
    let (a, h1) = nil-append _ _ h in
    check_repository_root-IsRoot path _ (read_non_empty_string-IsText value path a)
      (nil-append _ [] h1).0

-- Ordering keeps the members.
pub includes-ordered_capabilities :
    (c : StepCapability) (cs : List StepCapability)
    → includes c (ordered_capabilities cs) ≡ includes c cs
unfolding ordered_capabilities
includes-ordered_capabilities c cs = elim c [
  | read_repository ↦ ground arith
  | mutate_repository ↦ ground arith
  | execute_commands ↦ ground arith
]

abbrev Reads : List StepCapability → Type 0
Reads capabilities = (capabilities ≡ []) ⊎ (includes read_repository capabilities ≡ true)

ordered_capabilities-Reads :
    (cs : List StepCapability)
    → (not (eqb (length cs) 0) && not (includes read_repository cs)) ≡ false
    → Reads (ordered_capabilities cs)
unfolding ordered_capabilities
ordered_capabilities-Reads [] h = inl refl
ordered_capabilities-Reads (c ∷ cs) h =
    inr (rw (includes-ordered_capabilities read_repository (c ∷ cs)) (ground arith))

read_capabilities-Reads :
    (path : String) (value : Option Json)
    → (read_capabilities path value).1 ≡ []
    → Reads (read_capabilities path value).0
unfolding read_capabilities read_capability_array
read_capabilities-Reads path none h = inr refl
read_capabilities-Reads path (some value) h = elim (Option-cases (as_array (some value))) [
  | inl q ↦ absurd (cc (rw (q, read_capabilities) at h))
  | inr (entries, q) ↦
      let (_, h1) = nil-append _ _ (rw (q, read_capabilities) at h) in
      let (_, h2) = nil-append _ _ h1 in
      let (missing, _) = nil-append _ [] h2 in
      rw (q, read_capabilities)
        (ordered_capabilities-Reads (read_known_capabilities path 0 entries).0
          (report_if-none _ _ missing))
]

opposite : (m e : Bool) → (m && e) ≡ false → (not m && not e) ≡ false → m ≡ not e
opposite true true h k = absurd (cc)
opposite true false h k = refl
opposite false true h k = refl
opposite false false h k = absurd (cc)

read_scope_fields-IsScope :
    (scope : Dict Json) (path : String)
    → (read_scope_fields scope path).1 ≡ []
    → IsScope (read_scope_fields scope path).0
unfolding read_scope_fields
read_scope_fields-IsScope scope path h =
    let (_, h1) = nil-append _ _ h in
    let (a, h2) = nil-append _ _ h1 in
    let (b, h3) = nil-append _ _ h2 in
    let (c, h4) = nil-append _ _ h3 in
    let (d, h5) = nil-append _ _ h4 in
    let (e, h6) = nil-append _ _ h5 in
    let (f, _) = nil-append _ [] h6 in
    record {
      reads = read_capabilities-Reads (at_field path "capabilities") (get "capabilities" scope) a;
      allowed =
          or_empty-holds (λ value. read_safe_repository_paths value (at_field path "allowedPaths"))
            ArePaths (tt, tt, refl)
            (λ value k. read_safe_repository_paths-ArePaths value (at_field path "allowedPaths") k)
            (get "allowedPaths" scope) b;
      forbidden =
          or_empty-holds
            (λ value. read_safe_repository_paths value (at_field path "forbiddenPaths")) ArePaths
            (tt, tt, refl)
            (λ value k.
              read_safe_repository_paths-ArePaths value (at_field path "forbiddenPaths") k)
            (get "forbiddenPaths" scope) c;
      usable = opposite _ _ (report_if-none _ _ d) (report_if-none _ _ e);
      writable = check_each-All _ _ (λ path i k. report_if-none _ _ k) 0 _ f;
    }

pub read_mutation_scope-IsScope :
    (value : Option Json) (path : String)
    → (read_mutation_scope value path).1 ≡ []
    → IsScope (read_mutation_scope value path).0
unfolding read_mutation_scope
read_mutation_scope-IsScope value path h = elim (Option-cases (as_record_or_empty value)) [
  | inl q ↦ absurd (cc (rw (q, read_mutation_scope) at h))
  | inr (scope, q) ↦
      rw (q, read_mutation_scope)
        (read_scope_fields-IsScope scope path (rw (q, read_mutation_scope) at h))
]
