-- ===== src/ImportBots/Texts.antt =====
-- Lines and pieces of texts: what is joined is read back.
use Prim.Native.Char.{Char}
use text.Mathlib.TextLemmas.{nil-append, cons-append, append-nil, append_assoc}
use relationship_os.Base.{
  String, String-discrete, ◌<>◌, Bool, Bool-cases, inl, inr, true, false, ◌&&◌, not, ◌≡◌, refl, ap,
  sym, ◌∙◌, List, [], ◌∷◌, arith, All, ◌==◌,
}
use relationship_os.Integrations.Text.{one, split_commas}
use relationship_os.ImportBots.{add_to_first, read_lines, join}

-- The character of a text `q` does not occur.
abbrev pub lacks : String → String → Bool
lacks q String.[] = true
lacks q (String.◌∷◌ c text) = not (one c == q) && lacks q text

pub lacks-append : (q s t : String) → lacks q s ≡ true → lacks q t ≡ true → lacks q (s <> t) ≡ true
lacks-append q String.[] t h k = rw (nil-append t) k
lacks-append q (String.◌∷◌ c s) t h k =
    rw (cons-append c s t) (ground (arith, lacks-append q s t, h, k))

read_newline : (text : String) → read_lines ("\n" <> text) ≡ "" ∷ read_lines text
unfolding read_lines String-discrete
read_newline text = rw (cons-append "\n" "" text, nil-append text) refl

read_line :
    (line text : String)
    → lacks "\n" line ≡ true
    → read_lines (line <> ("\n" <> text)) ≡ line ∷ read_lines text
unfolding read_lines
read_line String.[] text h = rw (nil-append ("\n" <> text)) (read_newline text)
read_line (String.◌∷◌ c line) text h =
    let rest = read_line line text (ground (arith, h)) in
    rw (cons-append c line ("\n" <> text)) (elim (Bool-cases (one c == "\n")) [
      | inl e ↦ absurd (ground (arith, e, h))
      | inr e ↦ ground (arith, e, rest)
    ])

-- Lines that are joined and ended by a newline are read back.
pub read_lines-join :
    (line : String) (lines : List String)
    → All (λ l. lacks "\n" l ≡ true) (line ∷ lines)
    → read_lines (join "\n" (line ∷ lines) <> "\n") ≡ line ∷ lines
unfolding read_lines
read_lines-join line [] h =
    ap (λ t. read_lines (line <> t)) (sym (append-nil "\n")) ∙ read_line line "" h.0
read_lines-join line (next ∷ lines) h =
    ap read_lines (
      append_assoc line ("\n" <> join "\n" (next ∷ lines)) "\n"
      ∙ ap (λ t. line <> t) (append_assoc "\n" (join "\n" (next ∷ lines)) "\n"))
    ∙ read_line line (join "\n" (next ∷ lines) <> "\n") h.0
    ∙ ap (λ ls. line ∷ ls) (read_lines-join next lines h.1)

add_to_first-lacks :
    (c : Char) (lines : List String)
    → (one c == "\n") ≡ false
    → All (λ l. lacks "\n" l ≡ true) lines
    → All (λ l. lacks "\n" l ≡ true) (add_to_first c lines)
add_to_first-lacks c [] e h = (ground (arith, e), tt)
add_to_first-lacks c (line ∷ lines) e h = (ground (arith, e, h.0), h.1)

-- The lines of a text have no newline.
pub read_lines-lacks : (text : String) → All (λ l. lacks "\n" l ≡ true) (read_lines text)
unfolding read_lines
read_lines-lacks String.[] = tt
read_lines-lacks (String.◌∷◌ c text) = elim (Bool-cases (one c == "\n")) [
  | inl e ↦ rw e (refl, read_lines-lacks text)
  | inr e ↦ rw e (add_to_first-lacks c (read_lines text) e (read_lines-lacks text))
]

one-append :
    (piece : String) (c : Char) (t : String) → (piece <> one c) <> t ≡ piece <> String.◌∷◌ c t
one-append piece c t =
    append_assoc piece (one c) t
    ∙ ap (λ u. piece <> u) (cons-append c "" t ∙ ap (String.◌∷◌ c) (nil-append t))

split_comma :
    (piece text : String) → split_commas piece ("," <> text) ≡ piece ∷ split_commas "" text
unfolding split_commas String-discrete
split_comma piece text = rw (cons-append "," "" text, nil-append text) refl

pub split_piece :
    (piece t text : String)
    → lacks "," t ≡ true
    → split_commas piece (t <> ("," <> text)) ≡ (piece <> t) ∷ split_commas "" text
unfolding split_commas
split_piece piece String.[] text h =
    rw (nil-append ("," <> text), append-nil piece) (split_comma piece text)
split_piece piece (String.◌∷◌ c t) text h =
    let rest = split_piece (piece <> one c) t text (ground (arith, h)) in
    rw (cons-append c t ("," <> text)) (elim (Bool-cases (one c == ",")) [
      | inl e ↦ absurd (ground (arith, e, h))
      | inr e ↦ rw e (rest ∙ ap (λ u. u ∷ split_commas "" text) (one-append piece c t))
    ])

pub split_last : (piece t : String) → lacks "," t ≡ true → split_commas piece t ≡ (piece <> t) ∷ []
unfolding split_commas
split_last piece String.[] h = rw (append-nil piece) refl
split_last piece (String.◌∷◌ c t) h =
    let rest = split_last (piece <> one c) t (ground (arith, h)) in
    elim (Bool-cases (one c == ",")) [
      | inl e ↦ absurd (ground (arith, e, h))
      | inr e ↦ rw e (rest ∙ ap (λ u. u ∷ []) (one-append piece c t))
    ]

-- The pieces of a text that was joined with commas.
pub split_commas-join :
    (t : String) (ts : List String)
    → All (λ u. lacks "," u ≡ true) (t ∷ ts)
    → split_commas "" (join "," (t ∷ ts)) ≡ t ∷ ts
split_commas-join t [] h = split_last "" t h.0 ∙ ap (λ u. u ∷ []) (nil-append t)
split_commas-join t (u ∷ ts) h =
    split_piece "" t (join "," (u ∷ ts)) h.0
    ∙ ap (λ x. x ∷ split_commas "" (join "," (u ∷ ts))) (nil-append t)
    ∙ ap (λ xs. t ∷ xs) (split_commas-join u ts h.1)
