-- ===== src/Shared/Constants.antt =====
-- The enumerations of packages/shared/src/constants.py, each by the members that the API uses.
use mathlib.Core.Bool.{Bool, true, false}

pub data UserRole : Type 0 where
  owner recipient admin : UserRole

pub data MessageType : Type 0 where
  text system media file event reaction : MessageType

pub data DeliveryState : Type 0 where
  stored queued processing delivered failed retrying cancelled read : DeliveryState

pub data PresenceState : Type 0 where
  online away offline unknown : PresenceState

pub data EventType : Type 0 where
  message_created message_delivered message_read presence_updated : EventType
  typing_started typing_stopped session_revoked : EventType

pub data ErrorCode : Type 0 where
  auth_required auth_invalid auth_expired forbidden not_found message_too_large : ErrorCode
  message_duplicate rate_limited invalid_request integration_unavailable ssrf_blocked : ErrorCode
  internal_error : ErrorCode

-- `role == UserRole.ADMIN` and the like
abbrev pub is_admin : UserRole → Bool
is_admin UserRole.admin = true
is_admin _ = false

abbrev pub is_owner : UserRole → Bool
is_owner UserRole.owner = true
is_owner _ = false

abbrev pub is_recipient : UserRole → Bool
is_recipient UserRole.recipient = true
is_recipient _ = false

-- `status != PresenceState.OFFLINE.value`
abbrev pub is_offline : PresenceState → Bool
is_offline PresenceState.offline = true
is_offline _ = false
