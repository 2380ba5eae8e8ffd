-- ===== src/Security/Envelope/Accepted.antt =====
-- src/security/envelope.ts: what an envelope that is read without an issue satisfies.
use pi_build_conductor.Prelude.{
  ℕ, String, false, List, [], ◌∷◌, Option, some, Dict, get, ltb, length, All, string_eq, ok,
  ok-injective, ◌≡◌, ◌≢◌, refl, subst, arith, inl, inr, Option-cases,
}
use pi_build_conductor.Domain.Types.{capability_eq}
use pi_build_conductor.Domain.Json.{Json, as_array, as_record}
use pi_build_conductor.Domain.Reading.{Reading, at_field, at_index, read_each}
use pi_build_conductor.Domain.Reading.Valid.{
  IsText, IsCommand, nil-append, report_if-none, read_each-All, read_non_empty_string-IsText,
  read_command_object-IsCommand,
}
use pi_build_conductor.Security.Envelope.{EnvelopeSource, EnvelopeRepository, AuthorityEnvelope}
use pi_build_conductor.Security.Envelope.Fields.{as_record_or_empty, read_unique_strings}
use pi_build_conductor.Security.Envelope.Documents.{
  read_repository_entry, read_repository_item, read_repository_array, read_repositories,
  read_required_command, read_required, read_expectation_fields, read_validation_expectations,
  reserved_escalation_conditions, read_escalation, lacks_required, read_authority_envelope,
  without_issues, normalize_authority_envelope,
}
use pi_build_conductor.Security.Envelope.Valid.{
  AreTexts, IsRoot, IsScope, read_unique_strings-AreTexts, or_empty-holds,
  read_repository_root-IsRoot, read_mutation_scope-IsScope,
}

pub record IsEnvelope (source : EnvelopeSource) (envelope : AuthorityEnvelope) : Type 0 where
  pub outcome : IsText envelope.outcome
  pub criteria : AreTexts envelope.acceptance_criteria
  pub repository : EnvelopeRepository
  pub only : envelope.repositories ≡ repository ∷ []
  pub root : IsRoot source repository.root
  pub scope : IsScope repository.mutation
  pub actions : AreTexts envelope.forbidden_actions
  pub required : All IsCommand envelope.validation.required
  pub checked : lacks_required source envelope.repositories envelope.validation.required ≡ false
  pub reserved : envelope.escalation.conditions ≡ reserved_escalation_conditions
  pub decisions : AreTexts envelope.escalation.reserved_decisions

abbrev IsRepository : EnvelopeSource → EnvelopeRepository → Type 0
IsRepository source repository = IsRoot source repository.root × IsScope repository.mutation

read_repository_item-IsRepository :
    (source : EnvelopeSource) (path : String) (entry : Json) (index : ℕ)
    → (read_repository_item source path entry index).1 ≡ []
    → IsRepository source (read_repository_item source path entry index).0
unfolding read_repository_item read_repository_entry
read_repository_item-IsRepository source path entry index h =
    elim (Option-cases (as_record (some entry))) [
      | inl q ↦ absurd (cc (rw (q, read_repository_item) at h))
      | inr (fields, q) ↦
          let (_, h1) = nil-append _ _ (rw (q, read_repository_item) at h) in
          let (a, h2) = nil-append _ _ h1 in
          let (b, _) = nil-append _ [] h2 in
          rw (q, read_repository_item)
            (
              read_repository_root-IsRoot source (get "root" fields) _ a,
              read_mutation_scope-IsScope (get "mutation" fields) _ b,
            )
    ]

only_one :
    (source : EnvelopeSource) (repositories : List EnvelopeRepository)
    → repositories ≢ []
    → ltb 1 (length repositories) ≡ false
    → All (IsRepository source) repositories
    → (repository : EnvelopeRepository) × (repositories ≡ repository ∷ [])
      × IsRepository source repository
only_one source [] nonempty h each = absurd (nonempty refl)
only_one source (repository ∷ []) nonempty h each = (repository, refl, each.0)
only_one source (repository ∷ next ∷ rest) nonempty h each = absurd (ground arith)

read_each-ne-nil :
    {A B : Type 0} (f : A → ℕ → Reading B) (index : ℕ) (item : A) (items : List A)
    → (read_each f index (item ∷ items)).0 ≢ []
unfolding read_each
read_each-ne-nil f index item items h = cc

read_repository_array-only :
    (source : EnvelopeSource) (path : String) (entry : Json) (entries : List Json)
    → (read_repository_array source path (entry ∷ entries)).1 ≡ []
    → let read = (read_repository_array source path (entry ∷ entries)).0 in
      (repository : EnvelopeRepository) × (read ≡ repository ∷ []) × IsRepository source repository
unfolding read_repository_array
read_repository_array-only source path entry entries h =
    let (a, h1) = nil-append _ _ h in
    let (_, h2) = nil-append _ _ h1 in
    let (b, _) = nil-append _ [] h2 in
    only_one source (read_each (read_repository_item source path) 0 (entry ∷ entries)).0
      (read_each-ne-nil (read_repository_item source path) 0 entry entries) (report_if-none _ _ b)
      (read_each-All _ (IsRepository source) (read_repository_item-IsRepository source path) 0
        (entry ∷ entries) a)

read_repositories-only :
    (source : EnvelopeSource) (value : Option Json) (path : String)
    → (read_repositories source value path).1 ≡ []
    → (repository : EnvelopeRepository) × ((read_repositories source value path).0
        ≡ repository ∷ [])
      × IsRepository source repository
unfolding read_repositories
read_repositories-only source value path h = elim (Option-cases (as_array value)) [
  | inl q ↦ absurd (cc (rw (q, read_repositories) at h))
  | inr ([], q) ↦ absurd (cc (rw (q, read_repositories) at h))
  | inr (entry ∷ entries, q) ↦
      rw (q, read_repositories)
        (read_repository_array-only source path entry entries (rw (q, read_repositories) at h))
]

read_required_command-IsCommand :
    (path : String) (item : Json) (index : ℕ)
    → (read_required_command path item index).1 ≡ []
    → IsCommand (read_required_command path item index).0
unfolding read_required_command
read_required_command-IsCommand path item index h =
    read_command_object-IsCommand (some item) (at_index path index) (nil-append _ _ h).1

read_required-All :
    (path : String) (value : Option Json)
    → (read_required path value).1 ≡ []
    → All IsCommand (read_required path value).0
unfolding read_required
read_required-All path value h = elim (Option-cases (as_array value)) [
  | inl q ↦ absurd (cc (rw (q, read_required) at h))
  | inr (items, q) ↦
      rw (q, read_required)
        (read_each-All _ IsCommand (read_required_command-IsCommand path) 0 items
          (rw (q, read_required) at h))
]

read_validation_expectations-All :
    (value : Option Json) (path : String)
    → (read_validation_expectations value path).1 ≡ []
    → All IsCommand (read_validation_expectations value path).0.required
unfolding read_validation_expectations read_expectation_fields
read_validation_expectations-All value path h = elim (Option-cases (as_record value)) [
  | inl q ↦ absurd (cc (rw (q, read_validation_expectations) at h))
  | inr (fields, q) ↦
      let (_, h1) = nil-append _ _ (rw (q, read_validation_expectations) at h) in
      let (a, _) = nil-append _ _ h1 in
      rw (q, read_validation_expectations)
        (or_empty-holds (read_required (at_field path "required")) (All IsCommand) tt
          (read_required-All (at_field path "required")) (get "required" fields) a)
]

read_escalation-reserved :
    (value : Option Json) (path : String)
    → (read_escalation value path).1 ≡ []
    → ((read_escalation value path).0.conditions ≡ reserved_escalation_conditions)
      × AreTexts (read_escalation value path).0.reserved_decisions
unfolding read_escalation
read_escalation-reserved value path h = elim (Option-cases (as_record_or_empty value)) [
  | inl q ↦ absurd (cc (rw (q, read_escalation) at h))
  | inr (fields, q) ↦
      let (_, h1) = nil-append _ _ (rw (q, read_escalation) at h) in
      let (a, _) = nil-append _ _ h1 in
      rw (q, read_escalation)
        (
          refl,
          or_empty-holds (read_unique_strings (at_field path "reservedDecisions")) AreTexts
              (tt, refl) (read_unique_strings-AreTexts (at_field path "reservedDecisions"))
              (get "reservedDecisions" fields) a,
        )
]

read_authority_envelope-IsEnvelope :
    (source : EnvelopeSource) (value : Dict Json)
    → (read_authority_envelope source value).1 ≡ []
    → IsEnvelope source (read_authority_envelope source value).0
unfolding read_authority_envelope
read_authority_envelope-IsEnvelope source value h =
    let (_, h1) = nil-append _ _ h in
    let (_, h2) = nil-append _ _ h1 in
    let (a, h3) = nil-append _ _ h2 in
    let (b, h4) = nil-append _ _ h3 in
    let (c, h5) = nil-append _ _ h4 in
    let (d, h6) = nil-append _ _ h5 in
    let (_, h7) = nil-append _ _ h6 in
    let (_, h8) = nil-append _ _ h7 in
    let (e, h9) = nil-append _ _ h8 in
    let (f, h10) = nil-append _ _ h9 in
    let (g, _) = nil-append _ [] h10 in
    let (repository, only, whole) =
      read_repositories-only source (get "repositories" value) "repositories" c in
    let (reserved, decisions) = read_escalation-reserved (get "escalation" value) "escalation" f in
    record {
      outcome = read_non_empty_string-IsText (get "outcome" value) "outcome" a;
      criteria =
          read_unique_strings-AreTexts "acceptanceCriteria" (get "acceptanceCriteria" value) b;
      repository = repository;
      only = only;
      root = whole.0;
      scope = whole.1;
      actions =
          or_empty-holds (read_unique_strings "forbiddenActions") AreTexts (tt, refl)
            (read_unique_strings-AreTexts "forbiddenActions") (get "forbiddenActions" value) d;
      required = read_validation_expectations-All (get "validation" value) "validation" e;
      checked = report_if-none _ _ g;
      reserved = reserved;
      decisions = decisions;
    }

without_issues-eq-ok :
    {A : Type 0} (read : Reading A) (a : A)
    → without_issues read ≡ ok a
    → (read.1 ≡ []) × (read.0 ≡ a)
without_issues-eq-ok (read, []) a h = (refl, ok-injective h)
without_issues-eq-ok (read, first ∷ issues) a h = absurd (cc)

-- If a value is read as an authored or a derived envelope without an issue, it names one
-- repository: if authored, by an absolute root without NUL that is its own normal form without
-- trailing separators, or whose normal form is nothing but separators, as that of /repo/.. or of
-- /// is; if derived, by a root that is not empty. Its capabilities are none or include reading;
-- it allows paths exactly if it may mutate, each passes the path checks and none of them is
-- withheld; an authored envelope that may mutate requires a command; every escalation condition
-- is reserved; and its texts are trimmed, not empty and not repeated.
pub normalize_authority_envelope-IsEnvelope :
    (source : EnvelopeSource) (value : Json) (envelope : AuthorityEnvelope)
    → normalize_authority_envelope source value ≡ ok envelope
    → IsEnvelope source envelope
unfolding normalize_authority_envelope
normalize_authority_envelope-IsEnvelope source value envelope h =
    elim (Option-cases (as_record (some value))) [
      | inl q ↦ absurd (cc (rw (q, normalize_authority_envelope) at h))
      | inr (fields, q) ↦
          let (no_issue, same) =
            without_issues-eq-ok (read_authority_envelope source fields) envelope
              (rw (q, normalize_authority_envelope) at h) in
          subst (IsEnvelope source) same (read_authority_envelope-IsEnvelope source fields no_issue)
    ]
