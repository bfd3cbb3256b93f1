-- ===== src/Tests/Admins.antt =====
-- The administrator's routes.
use relationship_os.Base.{
  String, String-discrete, true, ◌≡◌, ◌↔◌, refl, none, some, [], ◌∷◌, map, length, select,
}
use relationship_os.Base.Sorting.{sort_by}
use relationship_os.Base.Int.{pos}
use relationship_os.Shared.Errors.{forbidden}
use relationship_os.Db.Rows.{Db, failed}
use relationship_os.Db.Session.{err, get_db}
use relationship_os.Message.Send.{is_in}
use relationship_os.Message.History.{ascending}
use relationship_os.Message.History.Replay.{run}
use relationship_os.Outbox.Router.{new_delivery}
use relationship_os.Ssrf.{v4}
use relationship_os.Auth.Token.{
  get_current_user_and_session, Credentials, find_auth, decode_access_token,
}
use relationship_os.Admin.{
  get_system_health, list_all_sessions, revoke_session_admin, revoke_device_admin,
  list_failed_deliveries, retry_delivery, get_audit_logs,
}
use relationship_os.Admin.Webhooks.{
  WebhookCreateRequest, list_webhooks, create_webhook, delete_webhook,
}
use relationship_os.Admin.Integrity.{integrity_report, verify_database_integrity}
use relationship_os.Admin.Integrity.Decides.{integrity_report-decides}
use relationship_os.Admin.Guard.{admin_refuses}
use relationship_os.Tests.Data.{cfg, db, outbox_event}
use relationship_os.Tests.Accounts.{crypto, origin, accounts, jwt, open_login}
use relationship_os.Tests.Web.{net}

abbrev pub credentials : String → Credentials
credentials token = record { bearer = some token; cookie = none }

abbrev pub ann : Credentials
ann = credentials "!a!n!n-s1"

abbrev pub bob : Credentials
bob = credentials "!b!o!b-s2"

abbrev pub offices : Db
offices = record accounts {
  sessions = open_login ∷ record open_login { id = "s2"; user_id = "bob"; token_hash = "ht2" } ∷ [];
  deliveries = new_delivery 3 "d1" "m1" "discord" ∷ [];
  outbox = record (outbox_event "o1" 5) { status = failed } ∷ outbox_event "o2" 4 ∷ [];
}

abbrev hook : WebhookCreateRequest
hook = record { name = "n"; url = "h"; event_filters = "*" ∷ []; max_retries = pos 5 }

admin_refuses_example :
    let r = get_db (retry_delivery jwt (origin 5) bob "d1") offices in
    (get_db (get_system_health jwt (origin 5) bob cfg true) offices ≡ (err forbidden, offices))
    × (get_db (list_all_sessions jwt (origin 5) bob) offices ≡ (err forbidden, offices))
    × (get_db (revoke_session_admin jwt (origin 5) bob "d1") offices ≡ (err forbidden, offices))
    × (get_db (revoke_device_admin jwt (origin 5) bob "phone" none) offices
        ≡ (err forbidden, offices))
    × (get_db (list_webhooks jwt (origin 5) bob) offices ≡ (err forbidden, offices))
    × (get_db (create_webhook jwt (origin 5) bob crypto (net (v4 1)) cfg "d1" "t" hook) offices
        ≡ (err forbidden, offices))
    × (get_db (delete_webhook jwt (origin 5) bob "d1") offices ≡ (err forbidden, offices))
    × (get_db (list_failed_deliveries jwt (origin 5) bob) offices ≡ (err forbidden, offices))
    × (r ≡ (err forbidden, offices))
    × (get_db (get_audit_logs jwt (origin 5) bob 50) offices ≡ (err forbidden, offices))
    × (get_db (verify_database_integrity jwt (origin 5) bob) offices ≡ (err forbidden, offices))
unfolding String-discrete get_current_user_and_session find_auth decode_access_token
admin_refuses_example =
    admin_refuses jwt (origin 5) bob cfg crypto (net (v4 1)) "d1" "t" "phone" none hook 50 true
      offices refl refl

integrity_report-decides_example : ((integrity_report 9 db).sequence_anomalies ≡ []) ↔ (
    (c : String)
    → map (λ m. m.sequence_number) (sort_by ascending (select (is_in c) db.messages))
      ≡ run 1 (length (select (is_in c) db.messages)))
integrity_report-decides_example = integrity_report-decides 9 db
