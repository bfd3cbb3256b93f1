-- ===== src/ImportBots/Tokens.antt =====
-- The tokens that are found: each is on one line, and not empty.
use mathlib.Core.Path.{subst}
use relationship_os.Base.{
  String, Bool-cases, inl, inr, true, false, ◌&&◌, ◌||◌, ◌≡◌, refl, sym, ap, ◌∙◌, Option,
  Option-cases, some, List, [], ◌∷◌, arith, All, ◌==◌,
}
use relationship_os.Auth.Account.{is_empty}
use relationship_os.Integrations.Text.{one, starts_with, replace_from}
use relationship_os.ImportBots.{
  read_lines, split_equals, lstrip_of, rstrip_of, strip_of, get, discover, bot_keys, add_line,
  read_vars, discovered_bots, write_bots, channel_or, written, import_bots, configure,
}
use relationship_os.ImportBots.Texts.{lacks, read_lines-lacks}

configure-written :
    (target : Option String) (channel_id : String) (bots : List (String × String))
    {primary : String × String} {backups : List (String × String)} {text : String}
    → configure target channel_id bots ≡ written primary backups text
    → (bots ≡ primary ∷ backups) × (write_bots target channel_id primary backups ≡ text)
configure-written target channel_id [] h = absurd cc
configure-written target channel_id (b ∷ bs) {primary} {backups} {text} h =
    let same_primary : b ≡ primary = cc in
    let same_backups : bs ≡ backups = cc in
    let same_text : write_bots target channel_id b bs ≡ text = cc in
    (
      cc (same_primary, same_backups),
      ap (λ x. write_bots target channel_id x backups) (sym same_primary)
          ∙ ap (λ x. write_bots target channel_id b x) (sym same_backups)
          ∙ same_text,
    )

-- A run that writes the target has found its bots.
pub import_bots-written :
    (strip : String → String) (source : String) (target argument : Option String)
    {primary : String × String} {backups : List (String × String)} {text : String}
    → import_bots strip (some source) target argument ≡ written primary backups text
    → (discovered_bots strip source ≡ primary ∷ backups)
      × (write_bots target (channel_or argument) primary backups ≡ text)
unfolding import_bots
import_bots-written strip source target argument done =
    configure-written target (channel_or argument) (discovered_bots strip source) done

split_equals-lacks :
    (q line key val : String)
    → lacks q line ≡ true
    → split_equals line ≡ some (key, val)
    → lacks q val ≡ true
unfolding split_equals
split_equals-lacks q String.[] key val h e = absurd cc
split_equals-lacks q (String.◌∷◌ c text) key val h e = elim (Bool-cases (one c == "=")) [
  | inl f ↦ ground (arith, f, e, h)
  | inr f ↦ elim (Option-cases (split_equals text)) [
    | inl g ↦ absurd (ground (arith, f, g, e))
    | inr ((k, v), g) ↦ ground (arith, f, g, e, split_equals-lacks q text k v (ground (arith, h)) g)
  ]
]

lstrip_of-lacks :
    (q quote text : String) → lacks q text ≡ true → lacks q (lstrip_of quote text) ≡ true
unfolding lstrip_of
lstrip_of-lacks q quote String.[] h = refl
lstrip_of-lacks q quote (String.◌∷◌ c text) h = elim (Bool-cases (one c == quote)) [
  | inl e ↦ rw e (lstrip_of-lacks q quote text (ground (arith, h)))
  | inr e ↦ rw e h
]

rstrip_of-lacks :
    (q quote text : String) → lacks q text ≡ true → lacks q (rstrip_of quote text) ≡ true
unfolding rstrip_of
rstrip_of-lacks q quote String.[] h = refl
rstrip_of-lacks q quote (String.◌∷◌ c text) h =
    let rest = rstrip_of-lacks q quote text (ground (arith, h)) in
    elim (Bool-cases (is_empty (rstrip_of quote text) && one c == quote)) [
      | inl e ↦ rw e refl
      | inr e ↦ rw e (ground (arith, rest, h))
    ]

strip_of-lacks :
    (q quote text : String) → lacks q text ≡ true → lacks q (strip_of quote text) ≡ true
strip_of-lacks q quote text h =
    rstrip_of-lacks q quote (lstrip_of quote text) (lstrip_of-lacks q quote text h)

get_All :
    (P : String → Type 0) (key : String) (vars : List (String × String)) {val : String}
    → All (λ v. P v.1) vars
    → get key vars ≡ some val
    → P val
get_All P key [] h e = absurd cc
get_All P key ((k, v) ∷ vars) {val} h e = elim (Bool-cases (k == key)) [
  | inl f ↦ let same : v ≡ val = ground (arith, f, e) in subst P same h.0
  | inr f ↦ get_All P key vars h.1 (ground (arith, f, e))
]

-- What holds of each value that is not empty holds of each token.
pub discover-All :
    (P : String → Type 0) (vars : List (String × String)) (keys : List String)
    → ((key val : String) → get key vars ≡ some val → is_empty val ≡ false → P val)
    → All (λ b. P b.1) (discover vars keys)
discover-All P vars [] h = tt
discover-All P vars (k ∷ ks) h = elim (Option-cases (get k vars)) [
  | inl e ↦
      let same : discover vars ks ≡ discover vars (k ∷ ks) = ground (arith, e) in
      subst (All (λ b. P b.1)) same (discover-All P vars ks h)
  | inr (val, e) ↦ elim (Bool-cases (is_empty val)) [
    | inl f ↦
        let same : discover vars ks ≡ discover vars (k ∷ ks) = ground (arith, e, f) in
        subst (All (λ b. P b.1)) same (discover-All P vars ks h)
    | inr f ↦
        let bot : String × String = (replace_from 0 "DISCORD_TOKEN_" "" k, val) in
        let same : bot ∷ discover vars ks ≡ discover vars (k ∷ ks) = ground (arith, e, f) in
        subst (All (λ b. P b.1)) same (h k val e f, discover-All P vars ks h)
  ]
]

module _ (strip : String → String)
    (strip_lacks : (s : String) → lacks "\n" s ≡ true → lacks "\n" (strip s) ≡ true) where
  add_line-lacks :
      (line : String) (vars : List (String × String))
      → lacks "\n" line ≡ true
      → All (λ v. lacks "\n" v.1 ≡ true) vars
      → All (λ v. lacks "\n" v.1 ≡ true) (add_line strip line vars)
  add_line-lacks line vars h hs =
      elim (Bool-cases (is_empty (strip line) || starts_with "#" (strip line))) [
        | inl e ↦ rw e hs
        | inr e ↦ elim (Option-cases (split_equals (strip line))) [
          | inl f ↦ rw (e, f) hs
          | inr ((key, val), f) ↦
              rw (e, f)
                (
                  strip_of-lacks "\n" "'" (strip_of "\"" (strip val)) (
                      strip_of-lacks "\n" "\"" (strip val) (
                        strip_lacks val
                          (split_equals-lacks "\n" (strip line) key val (strip_lacks line h) f))),
                  hs,
                )
        ]
      ]

  read_vars-lacks :
      (lines : List String) (vars : List (String × String))
      → All (λ l. lacks "\n" l ≡ true) lines
      → All (λ v. lacks "\n" v.1 ≡ true) vars
      → All (λ v. lacks "\n" v.1 ≡ true) (read_vars strip lines vars)
  read_vars-lacks [] vars h hs = hs
  read_vars-lacks (line ∷ lines) vars h hs =
      read_vars-lacks lines (add_line strip line vars) h.1 (add_line-lacks line vars h.0 hs)

  -- Each token is on one line.
  pub discovered_bots-lacks :
      (source : String) → All (λ b. lacks "\n" b.1 ≡ true) (discovered_bots strip source)
  unfolding discovered_bots
  discovered_bots-lacks source =
      let vars = read_vars strip (read_lines source) [] in
      discover-All (λ t. lacks "\n" t ≡ true) vars bot_keys
        (λ key val found set.
          get_All (λ t. lacks "\n" t ≡ true) key vars
            (read_vars-lacks (read_lines source) [] (read_lines-lacks source) tt) found)

-- No token is empty.
pub discovered_bots-set :
    (strip : String → String) (source : String)
    → All (λ b. is_empty b.1 ≡ false) (discovered_bots strip source)
unfolding discovered_bots
discovered_bots-set strip source =
    discover-All (λ t. is_empty t ≡ false) (read_vars strip (read_lines source) []) bot_keys
      (λ key val found set. set)
