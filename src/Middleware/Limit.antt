-- ===== src/Middleware/Limit.antt =====
-- Which requests the limit of the logins lets through.
use relationship_os.Base.{
  ℕ, String, ◌<>◌, Bool, true, false, not, ◌&&◌, ◌≤◌, ◌≡◌, arith, ◌==◌, leb, length,
}
use relationship_os.Shared.Config.{Settings}
use relationship_os.RateLimit.{Requests, recent, is_rate_limited}
use relationship_os.Middleware.{HttpRequest, Gate, passed, is_login, client_ip, limit_login}

abbrev pub is_passed : Gate → Bool
is_passed passed = true
is_passed _ = false

-- Where the configured number is not 0, a request passes exactly if it is no login, or if fewer
-- logins than that number were let through for its address in the last 60 seconds; and the counts of
-- the other keys stay as they were.
pub limit_login-decides :
    (str : ℕ → String) (cfg : Settings) (now : ℕ) (r : HttpRequest) (requests : Requests)
    (key : String)
    → 1 ≤ cfg.rate_limit_login_per_minute
    → (key == ("login:" <> client_ip r)) ≡ false
    → let (gate, requests') = limit_login str cfg now r requests in
      let counted = length (recent now 60 (requests ("login:" <> client_ip r))) in
      (is_passed gate ≡ not (is_login r && leb cfg.rate_limit_login_per_minute counted))
      × (requests' key ≡ requests key)
unfolding limit_login is_rate_limited
limit_login-decides str cfg now r requests key h other = ground arith
