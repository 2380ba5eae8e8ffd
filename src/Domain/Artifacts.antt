-- ===== src/Domain/Artifacts.antt =====
-- src/domain/artifacts.ts: artifact kinds, payload formats and summaries, and the drafts of
-- src/engine/artifact-routing.ts.
pub mod Identity
use pi_build_conductor.Prelude.{
  ℕ, String, Bool, true, false, ◌≡◌, ◌↔◌, Result, ok, err, refl, arith, ◌⊎◌, inl, inr,
}

pub data ArtifactKind : Type 0 where
  report decision findings test_evidence patch commit merge_candidate : ArtifactKind

pub data ArtifactPayloadFormat : Type 0 where
  json text : ArtifactPayloadFormat

-- A JSON value is kept as the text that `JSON.stringify` makes of it.
pub data ArtifactPayload : Type 0 where
  json text : String → ArtifactPayload

-- `ARTIFACT_KIND_FORMATS`.
unfoldable pub artifact_kind_format : ArtifactKind → ArtifactPayloadFormat
artifact_kind_format report = ArtifactPayloadFormat.text
artifact_kind_format patch = ArtifactPayloadFormat.text
artifact_kind_format _ = ArtifactPayloadFormat.json

-- `ARTIFACT_KIND_MEDIA_TYPES`.
unfoldable pub artifact_media_type : ArtifactKind → String
artifact_media_type report = "text/markdown"
artifact_media_type patch = "text/x-patch"
artifact_media_type _ = "application/json"

pub record StepArtifactDraft : Type 0 where
  pub output : String
  pub kind : ArtifactKind
  pub title : String
  pub payload : ArtifactPayload

-- The fields of an `ArtifactSummary` that the engine reads.
pub record ArtifactSummary : Type 0 where
  pub id : String
  pub output : String
  pub kind : ArtifactKind
  pub size_bytes : ℕ
