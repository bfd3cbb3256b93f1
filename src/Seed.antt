-- ===== src/Seed.antt =====
-- scripts/seed.py: the accounts, the room and the token of a new deployment. `getenv` is the
-- environment, the empty text where a variable is not set; what the script draws is an argument, and
-- what it prints is left out.
pub mod First
pub mod Again
pub mod Ready
use relationship_os.Base.{String, ◌<>◌, Option, none, some, select}
use relationship_os.Shared.Constants.{UserRole}
use relationship_os.Db.Rows.{User, Conversation}
use relationship_os.Db.Session.{Action, ◌>>=◌, ◌>>◌, pure, query, commit, scalar_one_or_none}
use relationship_os.Message.Access.{RoomIds, get_or_create_private_conversation}
use relationship_os.Auth.Account.{Crypto, Origin, or_text, has_username, create_user}
use relationship_os.Auth.Enrollment.{create_enrollment_token}

-- What the script draws from `secrets` and `uuid4`.
pub record SeedDraws : Type 0 where
  pub owner_id : String
  pub owner_token : String
  pub recipient_id : String
  pub recipient_token : String
  pub room : RoomIds
  pub enrollment_id : String
  pub raw_token : String

pub record Seeded : Type 0 where
  pub owner : User
  pub recipient : User
  pub conversation : Conversation
  pub raw_token : String

module _ (crypto : Crypto) (o : Origin) (draws : SeedDraws) (getenv : String → String) where
  -- The account of a name, created if there is none.
  unfoldable pub find_or_create : String → String → String → String → UserRole → Action User
  unfolding create_user
  find_or_create id username display_name password role = do
    rows ← query (λ d. select (has_username username) d.users)
    found ← scalar_one_or_none rows
    elim found [
      | some user ↦ pure user
      | none ↦ create_user crypto o.now id username display_name password role
    ]

  abbrev pub owner_pass : String
  owner_pass = or_text (getenv "SEED_OWNER_PASSWORD") ("Owner_" <> draws.owner_token)

  abbrev pub recipient_pass : String
  recipient_pass =
      or_text (getenv "SEED_RECIPIENT_PASSWORD") ("Recipient_" <> draws.recipient_token)

  -- What follows the two accounts: their room, and a token for the recipient.
  unfoldable pub furnish : User → User → Action Seeded
  furnish owner recipient = do
    conv ←
        get_or_create_private_conversation o.now draws.room owner.id recipient.id
          "Private Sanctuary"
    raw_token ←
        create_enrollment_token crypto o draws.enrollment_id draws.raw_token recipient.id
          "Primary Terminal" "cross-platform" 72
    commit
    pure (record {
      owner = owner;
      recipient = recipient;
      conversation = conv;
      raw_token = raw_token;
    })

  unfoldable pub seed : Action Seeded
  seed = do
    owner ← find_or_create draws.owner_id "owner" "Owner (Primary)" owner_pass UserRole.owner
    recipient ←
        find_or_create draws.recipient_id "recipient" "Recipient (Partner)" recipient_pass
          UserRole.recipient
    furnish owner recipient
