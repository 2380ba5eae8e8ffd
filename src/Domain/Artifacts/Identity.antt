-- ===== src/Domain/Artifacts/Identity.antt =====
-- src/domain/artifacts.ts: artifact names and ids.
use Prim.Native.Char.{code}
use Prim.Native.String
use pi_build_conductor.Prelude.{
  ℕ, zero, suc, ◌/◌, ◌%◌, String, Bool, true, false, ◌&&◌, ◌||◌, leb, ltb, eqb, if◌then◌else◌,
  Result, ok, ◌>>◌, guard, ◌≡◌, refl,
}

pub record ArtifactIdentity : Type 0 where
  pub step_id : String
  pub output : String
  pub attempt : ℕ

pub data IdentityError : Type 0 where
  bad_step_id bad_output bad_attempt id_too_long : IdentityError

abbrev is_lower : ℕ → Bool
is_lower c = leb 97 c && leb c 122

abbrev is_digit : ℕ → Bool
is_digit c = leb 48 c && leb c 57

-- One of `[a-z0-9-]`.
abbrev pub is_name_char : ℕ → Bool
is_name_char c = is_lower c || (is_digit c || eqb c 45)

unfoldable pub all_name_chars : String → Bool
all_name_chars String.[] = true
all_name_chars (String.◌∷◌ c text) = is_name_char (code c) && all_name_chars text

-- `/^[a-z][a-z0-9-]*$/`, which is also the pattern of step ids, task ids, outputs and locks.
unfoldable pub is_name : String → Bool
unfolding all_name_chars
is_name String.[] = false
is_name (String.◌∷◌ c text) = is_lower (code c) && all_name_chars text

abbrev concat : String → String → String
concat left right = String.◌++◌ left right

abbrev pub max_artifact_attempt : ℕ
max_artifact_attempt = 9999

abbrev pub max_artifact_id_length : ℕ
max_artifact_id_length = 200

unfoldable pub digit : ℕ → String
digit n =
    if eqb n 0
    then "0"
    else if eqb n 1
    then "1"
    else if eqb n 2
    then "2"
    else if eqb n 3
    then "3"
    else if eqb n 4
    then "4"
    else if eqb n 5
    then "5"
    else if eqb n 6
    then "6"
    else if eqb n 7
    then "7"
    else if eqb n 8
    then "8"
    else "9"

-- The decimal form of a number with at most `suc digits` digits.
unfoldable pub decimal : ℕ → ℕ → String
unfolding digit
decimal zero n = digit n
decimal (suc digits) n =
    let high = decimal digits (n / 10) in if ltb n 10 then digit n else concat high (digit (n % 10))

-- Ids are ASCII, so a length in code units is a number of characters.
unfoldable pub artifact_id_for : ArtifactIdentity → Result IdentityError String
unfolding is_name decimal
artifact_id_for identity = do
  guard (is_name identity.step_id) bad_step_id
  guard (is_name identity.output) bad_output
  guard (leb 1 identity.attempt && leb identity.attempt max_artifact_attempt) bad_attempt
  let id =
      concat identity.step_id
        (concat "." (concat identity.output (concat "." (decimal 3 identity.attempt))))
  guard (leb (String.count id) max_artifact_id_length) id_too_long
  ok id

sample_id :
    artifact_id_for (record { step_id = "build"; output = "evidence"; attempt = 120 })
    ≡ ok "build.evidence.120"
unfolding artifact_id_for
sample_id = refl
