-- ===== src/Integrations/Text.antt =====
-- The texts of the adapters: replacement, redaction of mentions, and lists of tokens.
use Prim.Native.Char.{Char}
use relationship_os.Base.{
  ℕ, zero, suc, ◌+◌, ◌-◌, String, ◌<>◌, Bool, true, false, ◌&&◌, ◌||◌, Option, none, some, List, [],
  ◌∷◌, ◌==◌, if◌then◌else◌,
}
use relationship_os.Auth.Account.{is_empty}

abbrev pub one : Char → String
one c = String.◌∷◌ c ""

-- `text.startswith(prefix)`
unfoldable pub starts_with : String → String → Bool
starts_with String.[] text = true
starts_with (String.◌∷◌ c prefix) String.[] = false
starts_with (String.◌∷◌ c prefix) (String.◌∷◌ d text) = one c == one d && starts_with prefix text

unfoldable pub text_length : String → ℕ
text_length String.[] = 0
text_length (String.◌∷◌ c s) = suc (text_length s)

-- The number of characters that are still part of the last match comes first.
unfoldable pub replace_from : ℕ → String → String → String → String
unfolding starts_with text_length
replace_from n old new String.[] = ""
replace_from (suc n) old new (String.◌∷◌ c text) = replace_from n old new text
replace_from zero old new (String.◌∷◌ c text) =
    let matched = replace_from (text_length old - 1) old new text in
    let kept = replace_from zero old new text in
    if starts_with old (String.◌∷◌ c text) then new <> matched else one c <> kept

abbrev is_digit : Char → Bool
is_digit c =
    one c == "0"
    || one c == "1"
    || one c == "2"
    || one c == "3"
    || one c == "4"
    || one c == "5"
    || one c == "6"
    || one c == "7"
    || one c == "8"
    || one c == "9"

-- The length of a match of `[0-9]*>`, if there is one.
unfoldable digits_end : String → Option ℕ
digits_end String.[] = none
digits_end (String.◌∷◌ c text) =
    let rest = digits_end text in
    if one c == ">"
    then some 1
    else if is_digit c
    then elim rest [ none ↦ none | some n ↦ some (suc n) ]
    else none

-- And of `[0-9]+>`.
digits_then_end : String → Option ℕ
unfolding digits_end
digits_then_end String.[] = none
digits_then_end (String.◌∷◌ c text) =
    if is_digit c then elim (digits_end text) [ none ↦ none | some n ↦ some (suc n) ] else none

abbrev longer : ℕ → Option ℕ → Option ℕ
longer k none = none
longer k (some n) = some (k + n)

-- The length of a match of `<@&?[0-9]+>` at the start.
unfoldable pub mention_length : String → Option ℕ
unfolding digits_then_end
mention_length (String.◌∷◌ a (String.◌∷◌ b (String.◌∷◌ c text))) =
    if one a == "<" && one b == "@"
    then (if one c == "&"
        then longer 3 (digits_then_end text)
        else longer 2 (digits_then_end (String.◌∷◌ c text)))
    else none
mention_length _ = none

unfoldable pub redact_from : ℕ → String → String
unfolding mention_length
redact_from n String.[] = ""
redact_from (suc n) (String.◌∷◌ c text) = redact_from n text
redact_from zero (String.◌∷◌ c text) =
    let kept = redact_from zero text in
    elim (mention_length (String.◌∷◌ c text)) [
      | none ↦ one c <> kept
      | some n ↦ "[mention redacted]" <> redact_from (n - 1) text
    ]

unfoldable pub sanitize_discord_content : String → String
unfolding replace_from redact_from
sanitize_discord_content text =
    redact_from 0
      (replace_from 0 "@here" "@\u{200b}here" (replace_from 0 "@everyone" "@\u{200b}everyone" text))

-- `str.split(",")`: the piece that is being read, and the rest.
unfoldable pub split_commas : String → String → List String
split_commas piece String.[] = piece ∷ []
split_commas piece (String.◌∷◌ c text) =
    let next = split_commas "" text in
    let more = split_commas (piece <> one c) text in if one c == "," then piece ∷ next else more

-- `[t.strip() for t in pieces if t.strip()]`, with `strip` as a parameter.
abbrev pub stripped : (String → String) → List String → List String
stripped strip [] = []
stripped strip (t ∷ ts) =
    if is_empty (strip t) then stripped strip ts else strip t ∷ stripped strip ts
