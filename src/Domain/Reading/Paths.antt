-- ===== src/Domain/Reading/Paths.antt =====
-- src/domain/dag.ts: repository paths, with `posix.normalize` and the tests of `node:path`.
use Prim.Native.Char.{Char, code}
use text.Mathlib.Text.{starts_with}
use pi_build_conductor.Prelude.{
  ℕ, String, Bool, true, false, List, [], ◌∷◌, Option, not, ◌&&◌, ◌||◌, leb, eqb, ◌==◌, string_eq,
  if◌then◌else◌, is_distinct, length, ◌≡◌, refl,
}
use pi_build_conductor.Domain.Json.{Json}
use pi_build_conductor.Domain.Text.{concat, has_code}
use pi_build_conductor.Security.Envelope.{ends_with_slash}
use pi_build_conductor.Domain.Reading.{
  Reading, ◌>>=◌, ◌>>◌, pure, report_if, issue, at_index, check_each,
}
use pi_build_conductor.Domain.Reading.Texts.{read_string_array}

-- `text.split("/")` and `segments.join("/")`.
abbrev attach : Char → List String → List String
attach c [] = String.◌∷◌ c "" ∷ []
attach c (segment ∷ segments) = String.◌∷◌ c segment ∷ segments

unfoldable pub split_slash : String → List String
split_slash String.[] = "" ∷ []
split_slash (String.◌∷◌ c text) =
    let rest = split_slash text in if eqb (code c) 47 then "" ∷ rest else attach c rest

unfoldable pub join_slash : List String → String
join_slash [] = ""
join_slash (segment ∷ []) = segment
join_slash (segment ∷ next ∷ segments) = concat segment (concat "/" (join_slash (next ∷ segments)))

-- The segments kept so far, the last one first: `..` takes back a segment that is not `..` itself.
abbrev step_up : List String → List String
step_up [] = ".." ∷ []
step_up (last ∷ kept) = if last == ".." then ".." ∷ last ∷ kept else kept

unfoldable pub resolve_segments : List String → List String → List String
resolve_segments kept [] = kept
resolve_segments kept (segment ∷ segments) =
    resolve_segments
      (if segment == "" || segment == "."
        then kept
        else if segment == ".."
        then step_up kept
        else segment ∷ kept)
      segments

unfoldable pub join_reversed : List String → String → String
join_reversed [] joined = joined
join_reversed (last ∷ kept) joined =
    join_reversed kept (if joined == "" then last else concat last (concat "/" joined))

-- `posix.normalize(path)` of a path that does not start with a slash.
unfoldable pub posix_normalize : String → String
unfolding split_slash resolve_segments join_reversed ends_with_slash
posix_normalize path =
    let joined = join_reversed (resolve_segments [] (split_slash path)) "" in
    let body = if joined == "" then "." else joined in
    if path == "" then "." else if ends_with_slash path then concat body "/" else body

-- `entry.slice(0, -1)` of a text that is not empty.
unfoldable pub drop_last : String → String
drop_last String.[] = ""
drop_last (String.◌∷◌ c String.[]) = ""
drop_last (String.◌∷◌ c (String.◌∷◌ d text)) = String.◌∷◌ c (drop_last (String.◌∷◌ d text))

unfoldable pub contains : String → String → Bool
contains part String.[] = starts_with "" part
contains part (String.◌∷◌ c text) = starts_with (String.◌∷◌ c text) part || contains part text

abbrev is_letter : ℕ → Bool
is_letter c = (leb 65 c && leb c 90) || (leb 97 c && leb c 122)

abbrev pub is_separator : ℕ → Bool
is_separator c = eqb c 47 || eqb c 92

unfoldable pub win32_is_absolute : String → Bool
win32_is_absolute String.[] = false
win32_is_absolute (String.◌∷◌ c String.[]) = is_separator (code c)
win32_is_absolute (String.◌∷◌ c (String.◌∷◌ d String.[])) = is_separator (code c)
win32_is_absolute (String.◌∷◌ c (String.◌∷◌ d (String.◌∷◌ e text))) =
    is_separator (code c) || (is_letter (code c) && (eqb (code d) 58 && is_separator (code e)))

-- `/[?*[\]]/.test(entry)`.
unfoldable pub has_wildcard : String → Bool
unfolding has_code
has_wildcard text = has_code 63 text || (has_code 42 text || (has_code 91 text || has_code 93 text))

unfoldable pub without_slash : String → String
unfolding ends_with_slash drop_last
without_slash entry = if ends_with_slash entry then drop_last entry else entry

unfoldable pub is_unsafe_path : String → Bool
unfolding has_code win32_is_absolute without_slash contains has_wildcard
is_unsafe_path entry =
    has_code 0 entry
    || (has_code 92 entry
        || (starts_with entry "/"
            || (win32_is_absolute entry
                || (without_slash entry == ""
                    || (without_slash entry == "."
                        || (without_slash entry == ".."
                            || (starts_with (without_slash entry) "../"
                                || (contains "/../" (without_slash entry)
                                    || has_wildcard entry))))))))

unfoldable pub is_non_canonical_path : String → Bool
unfolding posix_normalize without_slash ends_with_slash
is_non_canonical_path entry =
    let normalized = posix_normalize (without_slash entry) in
    let canonical = if ends_with_slash entry then concat normalized "/" else normalized in
    not (canonical == entry) || (normalized == ".git" || starts_with normalized ".git/")

unfoldable pub check_path : String → String → Reading (Unit {0})
unfolding is_unsafe_path is_non_canonical_path
check_path entry path =
    if is_unsafe_path entry
    then report_if true (issue "unsafe_path" path)
    else report_if (is_non_canonical_path entry) (issue "non_canonical_path" path)

unfoldable pub read_safe_repository_paths : Option Json → String → Reading (List String)
unfolding read_string_array check_path check_each
read_safe_repository_paths value path = do
  paths ← read_string_array value path
  check_each (λ entry index. check_path entry (at_index path index)) 0 paths
  report_if (not (is_distinct paths)) (issue "duplicate_path" path)
  pure paths

unfoldable pub read_allowed_paths : Option Json → String → Reading (List String)
read_allowed_paths value path = do
  paths ← read_safe_repository_paths value path
  report_if (eqb (length paths) 0) (issue "required_paths" path)
  pure paths

normalized_up : posix_normalize "a/../../b/./c//d" ≡ "../b/c/d"
unfolding posix_normalize
normalized_up = refl

normalized_slash : posix_normalize "a//b/" ≡ "a/b/"
unfolding posix_normalize
normalized_slash = refl
