-- ===== src/Shared/Secret.antt =====
-- The validators of apps/api/src/core/config.py. `getenv` is the environment; a variable that is not
-- set and an empty text are treated alike by the code, and both are the empty text here. `lower` and
-- `strip` are the methods of texts.
use Prim.Native.String.{count}
use relationship_os.Base.{
  String, Bool, true, false, not, ◌&&◌, ◌||◌, ◌≡◌, List, arith, ◌==◌, ltb, if◌then◌else◌,
}
use relationship_os.Auth.Account.{is_empty, or_text}
use relationship_os.Integrations.Text.{starts_with, split_commas, stripped}

-- `needle in text`
unfoldable pub contains_text : String → String → Bool
unfolding starts_with
contains_text needle String.[] = is_empty needle
contains_text needle (String.◌∷◌ c text) =
    let rest = contains_text needle text in
    if starts_with needle (String.◌∷◌ c text) then true else rest

abbrev pub is_insecure : String → Bool
is_insecure secret = contains_text "INSECURE" secret || contains_text "CHANGE_ME" secret

-- `not secret or "INSECURE" in secret or "CHANGE_ME" in secret or len(secret) < 32`
unfoldable pub is_weak : String → Bool
unfolding contains_text
is_weak secret = is_empty secret || is_insecure secret || ltb (count secret) 32

abbrev pub insecure_default : String
insecure_default = "INSECURE_DEV_SECRET_REPLACE_FOR_PRODUCTION_0123456789"

abbrev pub is_production : (String → String) → (String → String) → Bool
is_production getenv lower = lower (or_text (getenv "ENVIRONMENT") "development") == "production"

-- `generated` is drawn.
unfoldable pub validate_session_secret :
    (String → String) → (String → String) → String → String → String
validate_session_secret getenv lower generated v =
    let secret = or_text v (getenv "SESSION_SECRET") in
    let alt = getenv "SECRET_KEY" in
    if is_weak secret && not (is_weak alt)
    then alt
    else if is_production getenv lower && is_weak secret
    then generated
    else or_text secret insecure_default

abbrev pub cors_origins : (String → String) → String → List String
cors_origins strip allowed_origins = stripped strip (split_commas "" allowed_origins)

or_text_strong : (s t : String) → is_weak s ≡ false → or_text s t ≡ s
unfolding is_weak
or_text_strong s t h = ground (arith, h)

-- In production the secret is never empty, shorter than 32 characters or a placeholder, if the drawn
-- one is not; and a configured secret that is none of these is kept.
pub validate_session_secret-IsStrong :
    (getenv lower : String → String) (generated v : String)
    → is_production getenv lower ≡ true
    → is_weak generated ≡ false
    → let secret = validate_session_secret getenv lower generated v in
      let configured = or_text v (getenv "SESSION_SECRET") in
      (is_weak secret ≡ false)
      × (secret ≡ (
          if is_weak configured
          then if is_weak (getenv "SECRET_KEY") then generated else getenv "SECRET_KEY"
          else configured))
unfolding validate_session_secret
validate_session_secret-IsStrong getenv lower generated v production drawn =
    let configured = or_text v (getenv "SESSION_SECRET") in
    let kept = or_text_strong configured insecure_default in ground (arith, production, drawn, kept)
