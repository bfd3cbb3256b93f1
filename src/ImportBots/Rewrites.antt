-- ===== src/ImportBots/Rewrites.antt =====
-- The target file after a run.
use text.Mathlib.TextLemmas.{cons-append}
use mathlib.Core.Path.{subst}
use relationship_os.Base.{
  All-select, select_passes, All-of_map, String, String-discrete, ◌<>◌, true, Bool, ◌||◌, not, ◌≡◌,
  refl, ap, sym, ◌∙◌, none, some, Option, List, [], ◌∷◌, ◌++◌, map, arith, All, All-append,
  append_assoc, select,
}
use relationship_os.Integrations.Text.{starts_with}
use relationship_os.ImportBots.{
  written, join, read_lines, is_discord_setting, settings_lines, existing_lines, channel_or,
  import_bots,
}
use relationship_os.ImportBots.Texts.{lacks, lacks-append, read_lines-lacks, read_lines-join}
use relationship_os.ImportBots.Tokens.{import_bots-written, discovered_bots-lacks}

pub starts_with-append :
    (prefix s t : String) → starts_with prefix s ≡ true → starts_with prefix (s <> t) ≡ true
unfolding starts_with
starts_with-append String.[] s t h = refl
starts_with-append (String.◌∷◌ c prefix) String.[] t h = absurd cc
starts_with-append (String.◌∷◌ c prefix) (String.◌∷◌ d s) t h =
    rw (cons-append d s t) (ground (arith, h, starts_with-append prefix s t))

written_enabled : is_discord_setting "DISCORD_ENABLED=true" ≡ true
unfolding starts_with String-discrete
written_enabled = refl

written_guild : is_discord_setting "DISCORD_GUILD_ID=\"1304086099265589279\"" ≡ true
unfolding starts_with String-discrete
written_guild = refl

primary_prefix : starts_with "DISCORD_BOT_TOKEN=" "DISCORD_BOT_TOKEN=\"" ≡ true
unfolding starts_with String-discrete
primary_prefix = refl

written_primary : (t : String) → is_discord_setting ("DISCORD_BOT_TOKEN=\"" <> t) ≡ true
written_primary t =
    ground (arith, starts_with-append "DISCORD_BOT_TOKEN=" "DISCORD_BOT_TOKEN=\"" t primary_prefix)

backups_prefix : starts_with "DISCORD_BACKUP_TOKENS=" "DISCORD_BACKUP_TOKENS=\"" ≡ true
unfolding starts_with String-discrete
backups_prefix = refl

written_backups : (t : String) → is_discord_setting ("DISCORD_BACKUP_TOKENS=\"" <> t) ≡ true
written_backups t =
    ground (
      arith,
      starts_with-append "DISCORD_BACKUP_TOKENS=" "DISCORD_BACKUP_TOKENS=\"" t backups_prefix,
    )

channel_prefix : starts_with "DISCORD_CHANNEL_ID=" "DISCORD_CHANNEL_ID=\"" ≡ true
unfolding starts_with String-discrete
channel_prefix = refl

written_channel : (t : String) → is_discord_setting ("DISCORD_CHANNEL_ID=\"" <> t) ≡ true
written_channel t =
    ground
      (arith, starts_with-append "DISCORD_CHANNEL_ID=" "DISCORD_CHANNEL_ID=\"" t channel_prefix)

-- Of lines without a setting and the lines of the settings, what is selected.
split_settings :
    (ls : List String) (primary : String) (backups : List String) (channel_id : String)
    → All (λ l. not (is_discord_setting l) ≡ true) ls
    → (select is_discord_setting (ls ++ settings_lines primary backups channel_id)
        ≡ settings_lines primary backups channel_id)
      × (select (λ l. not (is_discord_setting l)) (ls ++ settings_lines primary backups channel_id)
          ≡ ls)
split_settings [] primary backups channel_id h = ground (
  arith,
  written_enabled,
  written_guild,
  written_primary (primary <> "\""),
  written_backups (join "," backups <> "\""),
  written_channel (channel_id <> "\""),
)
split_settings (l ∷ ls) primary backups channel_id h =
    ground (arith, h.0, split_settings ls primary backups channel_id h.1)

abbrev two_lines : List String
two_lines = "" ∷ "# Discord Multi-Bot Failover Pool" ∷ []

existing-lacks : (target : Option String) → All (λ l. lacks "\n" l ≡ true) (existing_lines target)
existing-lacks none = tt
existing-lacks (some text) =
    All-select (λ l. lacks "\n" l ≡ true) (λ l. not (is_discord_setting l)) (read_lines text)
      (read_lines-lacks text)

existing-others :
    (target : Option String) → All (λ l. not (is_discord_setting l) ≡ true) (existing_lines target)
existing-others none = tt
existing-others (some text) = select_passes (λ l. not (is_discord_setting l)) (read_lines text)

join-lacks :
    (ts : List String) → All (λ t. lacks "\n" t ≡ true) ts → lacks "\n" (join "," ts) ≡ true
unfolding String-discrete
join-lacks [] h = refl
join-lacks (t ∷ []) h = h.0
join-lacks (t ∷ u ∷ ts) h =
    lacks-append "\n" t ("," <> join "," (u ∷ ts)) h.0
      (lacks-append "\n" "," (join "," (u ∷ ts)) refl (join-lacks (u ∷ ts) h.1))

quoted-lacks :
    (name value : String)
    → lacks "\n" name ≡ true
    → lacks "\n" value ≡ true
    → lacks "\n" (name <> (value <> "\"")) ≡ true
unfolding String-discrete
quoted-lacks name value h k =
    lacks-append "\n" name (value <> "\"") h (lacks-append "\n" value "\"" k refl)

settings-lack :
    (primary : String) (backups : List String) (channel_id : String)
    → lacks "\n" primary ≡ true
    → All (λ t. lacks "\n" t ≡ true) backups
    → lacks "\n" channel_id ≡ true
    → All
        (λ l. lacks "\n" l ≡ true)
        ("" ∷ "# Discord Multi-Bot Failover Pool" ∷ settings_lines primary backups channel_id)
unfolding String-discrete
settings-lack primary backups channel_id p b c = (
  refl,
  (
    refl,
    (
      refl,
      (
        quoted-lacks "DISCORD_BOT_TOKEN=\"" primary refl p,
        (
          quoted-lacks "DISCORD_BACKUP_TOKENS=\"" (join "," backups) refl (join-lacks backups b),
          (quoted-lacks "DISCORD_CHANNEL_ID=\"" channel_id refl c, (refl, tt)),
        ),
      ),
    ),
  ),
)

read_lines-append :
    (ls : List String) (l : String) (rest : List String)
    → All (λ x. lacks "\n" x ≡ true) ls
    → All (λ x. lacks "\n" x ≡ true) (l ∷ rest)
    → read_lines (join "\n" (ls ++ (l ∷ rest)) <> "\n") ≡ ls ++ (l ∷ rest)
read_lines-append [] l rest h k = read_lines-join l rest k
read_lines-append (x ∷ ls) l rest h k =
    read_lines-join x (ls ++ (l ∷ rest))
      (All-append (λ y. lacks "\n" y ≡ true) (x ∷ ls) (l ∷ rest) h k)

two_lines-others : All (λ l. not (is_discord_setting l) ≡ true) two_lines
unfolding starts_with String-discrete
two_lines-others = (refl, (refl, tt))

-- The five settings, and the lines of a file that are none of them.
abbrev pub is_written_key : String → Bool
is_written_key line =
    starts_with "DISCORD_ENABLED=" line
    || starts_with "DISCORD_BOT_TOKEN=" line
    || starts_with "DISCORD_BACKUP_TOKENS=" line
    || starts_with "DISCORD_CHANNEL_ID=" line
    || starts_with "DISCORD_GUILD_ID=" line

abbrev pub other_lines : String → List String
other_lines text = select (λ l. not (is_written_key l)) (read_lines text)

abbrev pub lines_kept : Option String → List String
lines_kept none = []
lines_kept (some old) = other_lines old

kept-existing : (target : Option String) → existing_lines target ≡ lines_kept target
kept-existing none = refl
kept-existing (some old) = refl

-- Where the script writes the target, every line of it that was no setting of Discord is kept in its
-- place, and the five settings stand once each, with the new values, whatever settings of Discord
-- there were before. Each run adds an empty line and a comment. It is assumed that `strip` answers a
-- part of its line, and that the channel's identifier has no newline.
pub import_bots-settings :
    (strip : String → String) (source : String) (target argument : Option String)
    {primary : String × String} {backups : List (String × String)} {text : String}
    → ((s : String) → lacks "\n" s ≡ true → lacks "\n" (strip s) ≡ true)
    → lacks "\n" (channel_or argument) ≡ true
    → import_bots strip (some source) target argument ≡ written primary backups text
    → (select is_written_key (read_lines text)
        ≡ "DISCORD_ENABLED=true"
          ∷ ("DISCORD_BOT_TOKEN=\"" <> primary.1 <> "\"")
          ∷ ("DISCORD_BACKUP_TOKENS=\"" <> join "," (map (λ b. b.1) backups) <> "\"")
          ∷ ("DISCORD_CHANNEL_ID=\"" <> channel_or argument <> "\"")
          ∷ "DISCORD_GUILD_ID=\"1304086099265589279\""
          ∷ [])
      × (other_lines text ≡ lines_kept target ++ ("" ∷ "# Discord Multi-Bot Failover Pool" ∷ []))
import_bots-settings strip source target argument {primary} {backups} {text} strip_lacks one_line
      done =
    let channel_id = channel_or argument in
    let tokens = map (λ b. b.1) backups in
    let settings = settings_lines primary.1 tokens channel_id in
    let (found, same) = import_bots-written strip source target argument done in
    let lacking =
      subst (All (λ b. lacks "\n" b.1 ≡ true)) found
        (discovered_bots-lacks strip strip_lacks source) in
    let lines : read_lines text ≡ (existing_lines target ++ two_lines) ++ settings =
      ap read_lines (sym same)
      ∙ read_lines-append (existing_lines target) ""
          ("# Discord Multi-Bot Failover Pool" ∷ settings) (existing-lacks target)
          (settings-lack primary.1 tokens channel_id lacking.0
            (All-of_map (λ t. lacks "\n" t ≡ true) (λ b. b.1) backups lacking.1) one_line)
      ∙ sym (append_assoc (existing_lines target) two_lines settings) in
    let (own, others) =
      split_settings (existing_lines target ++ two_lines) primary.1 tokens channel_id (
        All-append (λ l. not (is_discord_setting l) ≡ true) (existing_lines target) two_lines
          (existing-others target) two_lines-others) in
    (
      ap (select is_discord_setting) lines ∙ own,
      ap (select (λ l. not (is_discord_setting l))) lines
          ∙ others
          ∙ ap (λ ls. ls ++ two_lines) (kept-existing target),
    )
