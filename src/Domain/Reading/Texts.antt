-- ===== src/Domain/Reading/Texts.antt =====
-- src/domain/dag.ts: texts and lists of texts.
use pi_build_conductor.Prelude.{
  String, List, [], Option, none, some, ◌==◌, string_eq, if◌then◌else◌,
}
use pi_build_conductor.Domain.Json.{Json, as_array, as_text}
use pi_build_conductor.Domain.Text.{trim}
use pi_build_conductor.Domain.Reading.{Reading, pure, failing, issue, at_index, read_each}

unfoldable pub read_non_empty_string : Option Json → String → Reading String
unfolding trim
read_non_empty_string value path = elim (as_text value) [
  | none ↦ failing "" (issue "non_empty_string" path)
  | some text ↦
      if trim text == "" then failing "" (issue "non_empty_string" path) else pure (trim text)
]

unfoldable pub read_string_array : Option Json → String → Reading (List String)
unfolding read_non_empty_string read_each
read_string_array value path = elim (as_array value) [
  | none ↦ failing [] (issue "string_array" path)
  | some items ↦
      read_each (λ item index. read_non_empty_string (some item) (at_index path index)) 0 items
]
