-- ===== src/Tests/Web.antt =====
-- Presence, the rate limit, the rooms, signatures and destinations.
use relationship_os.Base.{
  ℕ, ◌≤◌, String, String-discrete, true, false, ◌≡◌, ◌↔◌, refl, Option, none, some, List, [], ◌∷◌,
  ◌<>◌, ◌++◌, ◌+◌, arith, length,
}
use relationship_os.Base.Int.{ℤ, pos}
use relationship_os.Shared.Constants.{UserRole}
use relationship_os.RateLimit.{Requests, recent, is_rate_limited}
use relationship_os.RateLimit.Window.{admit, admit-within, Follows, done, next}
use relationship_os.Hub.{Metadata, ConnectionManager, has, room_of, register, unregister}
use relationship_os.Hub.Rooms.{IsIndexed, register-IsIndexed}
use relationship_os.Signature.{verify_webhook_signature}
use relationship_os.Signature.Window.{verify_webhook_signature-decides}
use relationship_os.Ssrf.{
  addresses, Ip, v4, Url, Net, Verdict, in_network, validate_destination_url, is_blocked, check_ip,
  check_all,
}
use relationship_os.Ssrf.Safe.{Resolution, validate_destination_url-resolves}

abbrev busy : Requests
busy _ = 1000000 ∷ 2000000 ∷ []

abbrev times : List ℕ
times = 5 ∷ 6 ∷ 6 ∷ 61000006 ∷ []

times-Follows : Follows 0 times
times-Follows =
    next (omega arith) (next (omega arith) (next (omega arith) (next (omega arith) done)))

admit-times : (admit "login" 2 60 times ([], λ _. [])).0 ≡ 5 ∷ 6 ∷ 61000006 ∷ []
unfolding admit is_rate_limited String-discrete
admit-times = refl

admit-within_example : length (recent 61000006 60 (admit "login" 2 60 times ([], λ _. [])).0) ≤ 2
admit-within_example = admit-within "login" 2 60 times times-Follows (omega arith)

abbrev metadata : String → Metadata
metadata conv_id = record {
  conversation_id = conv_id;
  user_id = "ann";
  session_id = "s1";
  username = "ann";
  role = UserRole.owner;
}

abbrev empty_hub : ConnectionManager
empty_hub = record { active_rooms = λ _. none; socket_metadata = λ _. none; sockets = [] }

empty_hub-IsIndexed : IsIndexed empty_hub
empty_hub-IsIndexed = record { indexed = λ conv_id ws h. absurd cc }

empty_hub_free :
    (old : Metadata) → ◌≡◌ {A = Option Metadata} none (some old) → old.conversation_id ≡ "c"
empty_hub_free old h = cc

abbrev one_socket : ConnectionManager
unfolding register
one_socket = register 1 (metadata "c") empty_hub

one_socket-IsIndexed : IsIndexed (register 1 (metadata "c") empty_hub)
one_socket-IsIndexed =
    register-IsIndexed 1 (metadata "c") empty_hub empty_hub-IsIndexed empty_hub_free

-- A socket that has synchronised two conversations stays in the first one's room for good.
second_room :
    has 1 (
      room_of
        (unregister 1 (register 1 (metadata "d") (register 1 (metadata "c") empty_hub))).1
        "c")
    ≡ true
unfolding String-discrete unregister register
second_room = refl

abbrev utf8 : String → List ℕ
utf8 s = []

abbrev str : ℤ → String
str _ = "7"

abbrev hmac : List ℕ → List ℕ → String
hmac key bytes = "mac"

verify_webhook_signature-decides_example :
    ((verify_webhook_signature utf8 str hmac 10 (1 ∷ []) "k" "v1=mac" (pos 7) 300).0 ≡ true) ↔ (
      ((10 ≤ 7 + 300) × (7 ≤ 10 + 300))
      × ("v1=" <> hmac (utf8 "k") (utf8 ("t=" <> str (pos 7) <> ".") ++ 1 ∷ []) ≡ "v1=mac"))
verify_webhook_signature-decides_example =
    verify_webhook_signature-decides utf8 str hmac 10 (1 ∷ []) "k" "v1=mac" (pos 7) 300

abbrev pub net : Ip → Net
net ip = record {
  urlparse = λ url. some (record { scheme = "https"; hostname = url; port = some none });
  lower = λ s. s;
  getaddrinfo = λ host port. addresses ("address" ∷ []);
  ip_address = λ s. some ip;
  str = λ ip. "address";
  is_loopback = λ ip. false;
  is_private = λ ip. false;
  is_link_local = λ ip. false;
  is_multicast = λ ip. false;
  is_reserved = λ ip. false;
}

-- The metadata address 169.254.169.254 is refused by its network, whatever the library says.
metadata_address : validate_destination_url (net (v4 2852039166)) false "h" ≡ Verdict.blocked_subnet
unfolding validate_destination_url check_all check_ip is_blocked in_network String-discrete
metadata_address = refl

validate_destination_url-resolves_example :
    (parsed : Url) × ((net (v4 134744072)).urlparse "h" ≡ some parsed)
    × Resolution (net (v4 134744072)) parsed
unfolding validate_destination_url check_all check_ip is_blocked in_network String-discrete
validate_destination_url-resolves_example =
    validate_destination_url-resolves (net (v4 134744072)) "h" refl
