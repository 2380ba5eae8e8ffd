-- ===== src/Domain/Text.antt =====
-- The methods of text that the readers of src/domain/dag.ts call.
use Prim.Native.Char.{Char, code}
use Prim.Native.String
use pi_build_conductor.Prelude.{
  ℕ, String, Bool, true, false, ◌&&◌, ◌||◌, leb, eqb, if◌then◌else◌, ◌==◌, string_eq, ◌≡◌, refl,
  inl, inr, Bool-cases,
}

abbrev pub concat : String → String → String
concat left right = String.◌++◌ left right

-- White space and line ends, by code point, as `trim` takes them.
unfoldable pub is_space : ℕ → Bool
is_space c =
    (leb 9 c && leb c 13)
    || (eqb c 32
        || (eqb c 160
            || (eqb c 5760
                || ((leb 8192 c && leb c 8202)
                    || (eqb c 8232
                        || (eqb c 8233
                            || (eqb c 8239 || (eqb c 8287 || (eqb c 12288 || eqb c 65279)))))))))

unfoldable pub trim_start : String → String
trim_start String.[] = ""
trim_start (String.◌∷◌ c text) = if is_space (code c) then trim_start text else String.◌∷◌ c text

abbrev put_back : Bool → String → String → String
put_back true rest whole = if rest == "" then "" else whole
put_back false rest whole = whole

unfoldable pub trim_end : String → String
trim_end String.[] = ""
trim_end (String.◌∷◌ c text) =
    let rest = trim_end text in put_back (is_space (code c)) rest (String.◌∷◌ c rest)

-- `text.trim()`.
unfoldable pub trim : String → String
unfolding trim_start trim_end
trim text = trim_end (trim_start text)

-- `text.includes(c)` for one character.
unfoldable pub has_code : ℕ → String → Bool
has_code c String.[] = false
has_code c (String.◌∷◌ d text) = eqb (code d) c || has_code c text

-- A character before a text that ends in no space.
trim_end-cons :
    (c : Char) (rest : String)
    → trim_end rest ≡ rest
    → trim_end (put_back (is_space (code c)) rest (String.◌∷◌ c rest))
      ≡ put_back (is_space (code c)) rest (String.◌∷◌ c rest)
unfolding trim_end
trim_end-cons c rest h = elim (Bool-cases (is_space (code c))) [
  | inr q ↦ rw q (rw (q, h) refl)
  | inl q ↦ elim (Bool-cases (rest == "")) [
    | inl p ↦ rw (q, p) refl
    | inr p ↦ rw (q, p) (rw (q, h, p) refl)
  ]
]

trim_end_idem : (text : String) → trim_end (trim_end text) ≡ trim_end text
unfolding trim_end
trim_end_idem String.[] = refl
trim_end_idem (String.◌∷◌ c text) = trim_end-cons c (trim_end text) (trim_end_idem text)

trim_start-trim_end :
    (text : String) → trim_start (trim_end (trim_start text)) ≡ trim_end (trim_start text)
unfolding trim_start trim_end
trim_start-trim_end String.[] = refl
trim_start-trim_end (String.◌∷◌ c text) = elim (Bool-cases (is_space (code c))) [
  | inl q ↦ rw q (trim_start-trim_end text)
  | inr q ↦ rw q (rw q (rw q refl))
]

-- Trimming a second time changes nothing.
pub trim_idem : (text : String) → trim (trim text) ≡ trim text
unfolding trim
trim_idem text = rw (trim_start-trim_end text) (trim_end_idem (trim_start text))
