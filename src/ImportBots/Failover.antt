-- ===== src/ImportBots/Failover.antt =====
-- The pool of bots that the Discord adapter reads from the settings.
use text.Mathlib.TextLemmas.{nil-append, cons-append}
use mathlib.Core.Path.{subst}
use relationship_os.Base.{
  All-of_map, ℕ, String, ◌<>◌, true, false, ◌≡◌, refl, ap, ◌∙◌, some, Option, List, [], ◌∷◌, map,
  All, Bool, ◌||◌, not, ◌==◌, sym, select, arith, inl, inr, Bool-cases, String-discrete,
}
use relationship_os.Shared.Config.{Settings}
use relationship_os.Auth.Account.{is_empty}
use relationship_os.Integrations.{Post, Reply}
use relationship_os.Integrations.Text.{one, starts_with, split_commas, stripped}
use relationship_os.Integrations.Discord.{discord_bot_tokens}
use relationship_os.ImportBots.{written, join, read_lines, channel_or, import_bots}
use relationship_os.ImportBots.Rewrites.{starts_with-append, is_written_key, import_bots-settings}
use relationship_os.ImportBots.Texts.{lacks, split_piece, split_commas-join}
use relationship_os.ImportBots.Tokens.{import_bots-written, discovered_bots-set}

stripped-kept :
    (strip : String → String) (ts : List String)
    → All (λ t. strip t ≡ t) ts
    → All (λ t. is_empty t ≡ false) ts
    → stripped strip ts ≡ ts
stripped-kept strip [] h k = refl
stripped-kept strip (t ∷ ts) h k =
    rw (h.0, k.0) (ap (λ us. t ∷ us) (stripped-kept strip ts h.1 k.1))

-- A first text without a comma, and any others, after a comma even if there is none.
pool :
    (strip : String → String) (t : String) (ts : List String)
    → strip "" ≡ ""
    → All (λ u. lacks "," u ≡ true) (t ∷ ts)
    → All (λ u. strip u ≡ u) (t ∷ ts)
    → All (λ u. is_empty u ≡ false) (t ∷ ts)
    → stripped strip (split_commas "" (t <> ("," <> join "," ts))) ≡ t ∷ ts
unfolding split_commas
pool strip t [] empty c k n =
    ap (stripped strip) (split_piece "" t "" c.0 ∙ ap (λ u. u ∷ "" ∷ []) (nil-append t))
    ∙ rw (k.0, n.0, empty) refl
pool strip t (u ∷ ts) empty c k n =
    ap (stripped strip) (split_commas-join t (u ∷ ts) c) ∙ stripped-kept strip (t ∷ u ∷ ts) k n

select-select :
    (p q : String → Bool) (xs : List String)
    → ((x : String) → p x ≡ true → q x ≡ true)
    → select p (select q xs) ≡ select p xs
select-select p q [] h = refl
select-select p q (x ∷ xs) h = elim (Bool-cases (p x)) [
  | inl e ↦ rw (h x e) (rw e (ap (λ ys. x ∷ ys) (select-select p q xs h)))
  | inr e ↦ elim (Bool-cases (q x)) [
    | inl f ↦ rw f (rw e (select-select p q xs h))
    | inr f ↦ rw f (rw e (select-select p q xs h))
  ]
]

-- Whether two texts have different characters at a place that both have.
abbrev differ : String → String → Bool
differ String.[] s = false
differ (String.◌∷◌ c p) String.[] = false
differ (String.◌∷◌ c p) (String.◌∷◌ d s) = not (one c == one d) || differ p s

starts_with-differ : (p s t : String) → differ p s ≡ true → starts_with p (s <> t) ≡ false
unfolding starts_with
starts_with-differ String.[] s t h = absurd cc
starts_with-differ (String.◌∷◌ c p) String.[] t h = absurd cc
starts_with-differ (String.◌∷◌ c p) (String.◌∷◌ d s) t h =
    rw (cons-append d s t) (ground (arith, h, starts_with-differ p s t))

-- Of the five settings, the line of the primary token and that of the backup tokens.
token_lines :
    (a b c : String)
    → let lines =
        "DISCORD_ENABLED=true"
        ∷ ("DISCORD_BOT_TOKEN=\"" <> a)
        ∷ ("DISCORD_BACKUP_TOKENS=\"" <> b)
        ∷ ("DISCORD_CHANNEL_ID=\"" <> c)
        ∷ "DISCORD_GUILD_ID=\"1304086099265589279\""
        ∷ [] in
      (select (starts_with "DISCORD_BOT_TOKEN=") lines ≡ ("DISCORD_BOT_TOKEN=\"" <> a) ∷ [])
      × (select (starts_with "DISCORD_BACKUP_TOKENS=") lines
          ≡ ("DISCORD_BACKUP_TOKENS=\"" <> b) ∷ [])
unfolding starts_with String-discrete
token_lines a b c = (
  rw
      (
        starts_with-append "DISCORD_BOT_TOKEN=" "DISCORD_BOT_TOKEN=\"" a refl,
        starts_with-differ "DISCORD_BOT_TOKEN=" "DISCORD_BACKUP_TOKENS=\"" b refl,
        starts_with-differ "DISCORD_BOT_TOKEN=" "DISCORD_CHANNEL_ID=\"" c refl,
      )
      refl,
  rw
      (
        starts_with-differ "DISCORD_BACKUP_TOKENS=" "DISCORD_BOT_TOKEN=\"" a refl,
        starts_with-append "DISCORD_BACKUP_TOKENS=" "DISCORD_BACKUP_TOKENS=\"" b refl,
        starts_with-differ "DISCORD_BACKUP_TOKENS=" "DISCORD_CHANNEL_ID=\"" c refl,
      )
      refl,
)

-- The two lines that the adapter's tokens are read from, in a target that was written.
written_tokens :
    (strip : String → String) (source : String) (target argument : Option String)
    {primary : String × String} {backups : List (String × String)} {text : String}
    → ((s : String) → lacks "\n" s ≡ true → lacks "\n" (strip s) ≡ true)
    → lacks "\n" (channel_or argument) ≡ true
    → import_bots strip (some source) target argument ≡ written primary backups text
    → (select (starts_with "DISCORD_BOT_TOKEN=") (read_lines text)
        ≡ ("DISCORD_BOT_TOKEN=\"" <> primary.1 <> "\"") ∷ [])
      × (select (starts_with "DISCORD_BACKUP_TOKENS=") (read_lines text)
          ≡ ("DISCORD_BACKUP_TOKENS=\"" <> join "," (map (λ b. b.1) backups) <> "\"") ∷ [])
written_tokens strip source target argument {primary} {backups} {text} strip_lacks one_line done =
    let (settings, _) =
      import_bots-settings strip source target argument strip_lacks one_line done in
    let (bot, pool_) =
      token_lines (primary.1 <> "\"") (join "," (map (λ b. b.1) backups) <> "\"")
        (channel_or argument <> "\"") in
    (
      sym (
            select-select (starts_with "DISCORD_BOT_TOKEN=") is_written_key (read_lines text)
              (λ x h. ground (arith, h)))
          ∙ ap (select (starts_with "DISCORD_BOT_TOKEN=")) settings
          ∙ bot,
      sym (
            select-select (starts_with "DISCORD_BACKUP_TOKENS=") is_written_key (read_lines text)
              (λ x h. ground (arith, h)))
          ∙ ap (select (starts_with "DISCORD_BACKUP_TOKENS=")) settings
          ∙ pool_,
    )

-- The file that the script has written makes the adapter try the bots that it found, all of them and
-- in their order: the file has one line for the primary token and one for the backup tokens, each
-- with its value between quotes, and the list that the adapter reads from these two values is that of
-- the tokens. It is assumed that no token has a comma or white space around it, that an empty text is
-- stripped to itself, that `strip` answers a part of its line, and that the channel's identifier
-- has no newline.
pub import_bots-failover :
    (str : ℕ → String) (strip : String → String) (http : Post → Reply) (cfg : Settings)
    (source : String) (target argument : Option String) {primary : String × String}
    {backups : List (String × String)} {text : String}
    → strip "" ≡ ""
    → ((s : String) → lacks "\n" s ≡ true → lacks "\n" (strip s) ≡ true)
    → lacks "\n" (channel_or argument) ≡ true
    → All (λ b. lacks "," b.1 ≡ true) (primary ∷ backups)
    → All (λ b. strip b.1 ≡ b.1) (primary ∷ backups)
    → import_bots strip (some source) target argument ≡ written primary backups text
    → (bot_token : String) × (backup_tokens : String) × (select
          (starts_with "DISCORD_BOT_TOKEN=")
          (read_lines text)
        ≡ ("DISCORD_BOT_TOKEN=\"" <> bot_token <> "\"") ∷ [])
      × (select (starts_with "DISCORD_BACKUP_TOKENS=") (read_lines text)
          ≡ ("DISCORD_BACKUP_TOKENS=\"" <> backup_tokens <> "\"") ∷ [])
      × (discord_bot_tokens str strip http (record cfg {
        discord_bot_token = some bot_token;
        discord_backup_tokens = backup_tokens;
      })
          ≡ primary.1 ∷ map (λ b. b.1) backups)
unfolding discord_bot_tokens
import_bots-failover str strip http cfg source target argument {primary} {backups} empty strip_lacks
      one_line commas kept done =
    let (found, _) = import_bots-written strip source target argument done in
    let bots = primary ∷ backups in
    let filled = subst (All (λ b. is_empty b.1 ≡ false)) found (discovered_bots-set strip source) in
    let (bot, others) = written_tokens strip source target argument strip_lacks one_line done in
    (
      primary.1,
      join "," (map (λ b. b.1) backups),
      bot,
      others,
      rw filled.0 (
          pool strip primary.1 (map (λ b. b.1) backups) empty
            (All-of_map (λ u. lacks "," u ≡ true) (λ b. b.1) bots commas)
            (All-of_map (λ u. strip u ≡ u) (λ b. b.1) bots kept)
            (All-of_map (λ u. is_empty u ≡ false) (λ b. b.1) bots filled)),
    )
