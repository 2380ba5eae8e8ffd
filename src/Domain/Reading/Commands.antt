-- ===== src/Domain/Reading/Commands.antt =====
-- src/domain/dag.ts: command objects.
use pi_build_conductor.Prelude.{String, Bool, List, [], ◌∷◌, Option, none, some, get}
use pi_build_conductor.Domain.Types.{ValidationCommand}
use pi_build_conductor.Domain.Json.{Json, as_array, as_record, as_text}
use pi_build_conductor.Domain.Text.{has_code}
use pi_build_conductor.Domain.Reading.{
  Reading, ◌>>=◌, ◌>>◌, pure, failing, report_if, issue, at_field, at_index, read_each,
}
use pi_build_conductor.Domain.Reading.Texts.{read_non_empty_string}

unfoldable pub has_nul : String → Bool
unfolding has_code
has_nul text = has_code 0 text

unfoldable pub read_argument : Json → String → Reading String
unfolding has_nul
read_argument argument path = elim (as_text (some argument)) [
  | none ↦ failing "" (issue "command_arg" path)
  | some text ↦ report_if (has_nul text) (issue "nul_byte" path) >> pure text
]

unfoldable pub read_arguments : Option Json → String → String → Reading ValidationCommand
unfolding read_argument read_each
read_arguments value command path = elim (as_array value) [
  | none ↦ failing (record { command = command; args = [] }) (issue "command_args" path)
  | some items ↦ do
    args ← read_each (λ argument index. read_argument argument (at_index path index)) 0 items
    pure (record { command = command; args = args })
]

unfoldable pub read_command_object : Option Json → String → Reading ValidationCommand
unfolding read_non_empty_string read_arguments has_nul
read_command_object item path = elim (as_record item) [
  | none ↦ failing (record { command = ""; args = [] }) (issue "command_object" path)
  | some fields ↦ do
    command ← read_non_empty_string (get "command" fields) (at_field path "command")
    report_if (has_nul command) (issue "nul_byte" (at_field path "command"))
    read_arguments (get "args" fields) command (at_field path "args")
]

unfoldable pub read_validation_commands : Option Json → String → Reading (List ValidationCommand)
unfolding read_command_object read_each
read_validation_commands value path = elim (as_array value) [
  | none ↦ failing [] (issue "required_commands" path)
  | some [] ↦ failing [] (issue "required_commands" path)
  | some (item ∷ items) ↦
      read_each (λ item index. read_command_object (some item) (at_index path index)) 0
        (item ∷ items)
]
