-- ===== src/ImportBots.antt =====
-- scripts/import_discord_bots.py: the tokens of the bots are read from one settings file and written to
-- another. A file is its text as Python reads it, `none` if there is none; `strip` is the method of
-- texts without an argument; the mode of the file and what is printed are left out.
pub mod Texts
pub mod Tokens
pub mod Rewrites
pub mod Failover
use Prim.Native.Char.{Char}
use relationship_os.Base.{
  String, ◌<>◌, Bool, true, false, ◌&&◌, ◌||◌, not, Option, none, some, List, [], ◌∷◌, ◌++◌, map,
  ◌==◌, select, if◌then◌else◌,
}
use relationship_os.Auth.Account.{is_empty}
use relationship_os.Integrations.Text.{one, starts_with, replace_from}

abbrev pub add_to_first : Char → List String → List String
add_to_first c [] = String.◌∷◌ c "" ∷ []
add_to_first c (line ∷ lines) = String.◌∷◌ c line ∷ lines

-- `for line in f`, each line without the newline that ends it.
unfoldable pub read_lines : String → List String
read_lines String.[] = []
read_lines (String.◌∷◌ c text) =
    let rest = read_lines text in if one c == "\n" then "" ∷ rest else add_to_first c rest

abbrev prepend : Char → Option (String × String) → Option (String × String)
prepend c none = none
prepend c (some (key, val)) = some (String.◌∷◌ c key, val)

-- `line.split("=", 1)`; `none` for a line without the sign.
unfoldable pub split_equals : String → Option (String × String)
split_equals String.[] = none
split_equals (String.◌∷◌ c text) =
    let rest = split_equals text in if one c == "=" then some ("", text) else prepend c rest

-- `text.strip(quote)`, from the left and from the right.
unfoldable pub lstrip_of : String → String → String
lstrip_of quote String.[] = ""
lstrip_of quote (String.◌∷◌ c text) =
    let rest = lstrip_of quote text in if one c == quote then rest else String.◌∷◌ c text

unfoldable pub rstrip_of : String → String → String
rstrip_of quote String.[] = ""
rstrip_of quote (String.◌∷◌ c text) =
    let rest = rstrip_of quote text in
    if is_empty rest && one c == quote then "" else String.◌∷◌ c rest

abbrev pub strip_of : String → String → String
strip_of quote text = rstrip_of quote (lstrip_of quote text)

-- The last value of a key comes first.
abbrev pub get : String → List (String × String) → Option String
get key [] = none
get key ((k, val) ∷ vars) = if k == key then some val else get key vars

abbrev pub bot_keys : List String
bot_keys =
    "DISCORD_TOKEN_HOST" ∷ "DISCORD_TOKEN_ALICE" ∷ "DISCORD_TOKEN_JOHN" ∷ "DISCORD_TOKEN_MIA"
    ∷ "DISCORD_TOKEN_RICK" ∷ "DISCORD_TOKEN_LEO" ∷ []

-- The name of a bot and its token, for the keys that have one.
abbrev pub discover : List (String × String) → List String → List (String × String)
discover vars [] = []
discover vars (k ∷ ks) = elim (get k vars) [
  | none ↦ discover vars ks
  | some val ↦
      if is_empty val
      then discover vars ks
      else (replace_from 0 "DISCORD_TOKEN_" "" k, val) ∷ discover vars ks
]

-- The settings that the script writes.
abbrev pub is_discord_setting : String → Bool
is_discord_setting line =
    starts_with "DISCORD_ENABLED=" line
    || starts_with "DISCORD_BOT_TOKEN=" line
    || starts_with "DISCORD_BACKUP_TOKENS=" line
    || starts_with "DISCORD_CHANNEL_ID=" line
    || starts_with "DISCORD_GUILD_ID=" line

abbrev pub join : String → List String → String
join sep [] = ""
join sep (t ∷ []) = t
join sep (t ∷ u ∷ ts) = t <> sep <> join sep (u ∷ ts)

abbrev pub settings_lines : String → List String → String → List String
settings_lines primary_token backup_tokens channel_id =
    "DISCORD_ENABLED=true"
    ∷ ("DISCORD_BOT_TOKEN=\"" <> primary_token <> "\"")
    ∷ ("DISCORD_BACKUP_TOKENS=\"" <> join "," backup_tokens <> "\"")
    ∷ ("DISCORD_CHANNEL_ID=\"" <> channel_id <> "\"")
    ∷ "DISCORD_GUILD_ID=\"1304086099265589279\""
    ∷ []

abbrev pub existing_lines : Option String → List String
existing_lines none = []
existing_lines (some text) = select (λ line. not (is_discord_setting line)) (read_lines text)

-- How the script ends: with a message, or with the target's new text.
pub data Import : Type 0 where
  no_source no_bots : Import
  written : (primary : String × String) → (backups : List (String × String)) → String → Import

abbrev pub channel_or : Option String → String
channel_or none = "1545735336926388354"
channel_or (some id) = id

abbrev pub write_bots : Option String → String → (String × String) → List (String × String) → String
write_bots target channel_id primary backups =
    join "\n" (
      existing_lines target
      ++ (""
          ∷ "# Discord Multi-Bot Failover Pool"
          ∷ settings_lines primary.1 (map (λ b. b.1) backups) channel_id))
    <> "\n"

abbrev pub configure : Option String → String → List (String × String) → Import
configure target channel_id [] = no_bots
configure target channel_id (primary ∷ backups) =
    written primary backups (write_bots target channel_id primary backups)

module _ (strip : String → String) where
  abbrev pub add_line : String → List (String × String) → List (String × String)
  add_line raw vars =
      let line = strip raw in
      if is_empty line || starts_with "#" line then vars else elim (split_equals line) [
        | none ↦ vars
        | some (key, val) ↦ (strip key, strip_of "'" (strip_of "\"" (strip val))) ∷ vars
      ]

  -- `source_vars`
  abbrev pub read_vars : List String → List (String × String) → List (String × String)
  read_vars [] vars = vars
  read_vars (line ∷ lines) vars = read_vars lines (add_line line vars)

  unfoldable pub discovered_bots : String → List (String × String)
  unfolding read_lines split_equals rstrip_of lstrip_of replace_from starts_with
  discovered_bots source = discover (read_vars (read_lines source) []) bot_keys

  -- `argument` is the first argument of the command line.
  unfoldable pub import_bots : Option String → Option String → Option String → Import
  unfolding read_lines starts_with discovered_bots
  import_bots none target argument = no_source
  import_bots (some source) target argument =
      configure target (channel_or argument) (discovered_bots source)
