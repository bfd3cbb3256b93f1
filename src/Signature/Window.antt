-- ===== src/Signature/Window.antt =====
-- When a signature counts.
use relationship_os.Base.{
  suc, ◌<>◌, ◌++◌, ℕ, ◌+◌, ◌≤◌, String, true, false, ◌≡◌, ◌↔◌, List, arith, eq_refl, eq_of_test,
  leb, if◌then◌else◌,
}
use relationship_os.Base.Int.{ℤ, pos, negsuc}
use relationship_os.Signature.{
  distance, Reason, compute_webhook_signature, verify_webhook_signature,
}

-- The time is neither too old nor too far ahead.
abbrev pub IsNear : ℕ → ℤ → ℕ → Type 0
IsNear now (pos t) tolerance = (now ≤ t + tolerance) × (t ≤ now + tolerance)
IsNear now (negsuc t) tolerance = now + suc t ≤ tolerance

IsNear-distance :
    (now : ℕ) (t : ℤ) (tolerance : ℕ) → distance now t ≤ tolerance → IsNear now t tolerance
IsNear-distance now (pos t) tolerance h = (ground (arith, h), ground (arith, h))
IsNear-distance now (negsuc t) tolerance h = h

distance-IsNear :
    (now : ℕ) (t : ℤ) (tolerance : ℕ) → IsNear now t tolerance → distance now t ≤ tolerance
distance-IsNear now (pos t) tolerance h = ground (arith, h.0, h.1)
distance-IsNear now (negsuc t) tolerance h = h

module _ (utf8 : String → List ℕ) (str : ℤ → String) (hmac : List ℕ → List ℕ → String) where
  -- A request counts exactly if its time is at most the tolerance behind the clock and at most the
  -- tolerance ahead of it, and its header is v1= and the code, under the secret, of the time and the
  -- payload, put together as t=, the time, a dot and the payload.
  pub verify_webhook_signature-decides :
      (now : ℕ) (payload : List ℕ) (secret header : String) (timestamp : ℤ) (tolerance : ℕ)
      → ((verify_webhook_signature utf8 str hmac now payload secret header timestamp tolerance).0
          ≡ true)
        ↔ (IsNear now timestamp tolerance
            × ("v1=" <> hmac (utf8 secret) (utf8 ("t=" <> str timestamp <> ".") ++ payload)
                ≡ header))
  unfolding verify_webhook_signature compute_webhook_signature
  verify_webhook_signature-decides now payload secret header timestamp tolerance =
      let signature = compute_webhook_signature utf8 str hmac payload secret timestamp in
      (
        λ h. (
          IsNear-distance now timestamp tolerance (ground (arith, h)),
          eq_of_test signature header (ground (arith, h)),
        ),
        λ (near, same).
            ground (arith, distance-IsNear now timestamp tolerance near, same, eq_refl header),
      )

  -- A signed request counts from the moment it is signed until the tolerance has passed, and a replay
  -- of it is refused as stale from then on.
  pub verify-compute :
      (signed_at age : ℕ) (payload : List ℕ) (secret : String) (tolerance : ℕ)
      → let header = compute_webhook_signature utf8 str hmac payload secret (pos signed_at) in
        verify_webhook_signature utf8 str hmac
          (signed_at + age)
          payload
          secret
          header
          (pos signed_at)
          tolerance
        ≡ (if leb age tolerance then (true, Reason.valid) else (false, Reason.stale))
  unfolding verify_webhook_signature
  verify-compute signed_at age payload secret tolerance =
      let header = compute_webhook_signature utf8 str hmac payload secret (pos signed_at) in
      ground (arith, eq_refl header)
