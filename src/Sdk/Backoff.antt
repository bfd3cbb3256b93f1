-- ===== src/Sdk/Backoff.antt =====
-- The delays between the attempts to connect.
use relationship_os.Base.{
  ℕ, zero, suc, ◌*◌, ◌^◌, ◌≤◌, min, true, ◌≡◌, sym, ap, ◌∙◌, arith, leb, Bool-cases, inl, inr,
}
use native.Mathlib.Nat.{mul_comm, mul_assoc, le-mul_of_pos_right, one-le-pow, pow-suc}
use relationship_os.Sdk.{Client, lost, step}

cap : (d p : ℕ) → 1 ≤ p → min 30 (min 30 (d * 2) * p) ≡ min 30 (d * (p * 2))
cap d p pos =
    let e : d * (p * 2) ≡ d * 2 * p = ap (λ x. d * x) (mul_comm p 2) ∙ sym (mul_assoc d 2 p) in
    let large : d * 2 ≤ d * 2 * p = le-mul_of_pos_right (d * 2) pos in
    elim (Bool-cases (leb (d * 2) 30)) [
      | inl small ↦
          let m : min 30 (d * 2) ≡ d * 2 = ground (arith, small) in
          ap (λ x. min 30 (x * p)) m ∙ ap (min 30) (sym e)
      | inr big ↦
          let m : min 30 (d * 2) ≡ 30 = ground (arith, big) in
          let l : 30 ≤ d * 2 = ground (arith, big) in
          ap (λ x. min 30 (x * p)) m ∙ omega (arith, le-mul_of_pos_right 30 pos, e, large, l)
    ]

-- The client after n attempts that have failed one after another.
abbrev pub after_losses : ℕ → Client → Client
unfolding step
after_losses zero cl = cl
after_losses (suc n) cl = after_losses n (step lost cl).0

-- After n connections in a row that were lost, a running client that waited d ≥ 1 seconds before
-- the first waits d · 2ⁿ seconds before the next, or 30 if that is less, and never connects without
-- a wait.
pub after_losses-delay :
    (n : ℕ) (cl : Client)
    → cl.running ≡ true
    → cl.reconnect_delay ≤ 30
    → 1 ≤ cl.reconnect_delay
    → let next = after_losses n cl in
      ((step lost next).1.sleep ≡ min 30 (cl.reconnect_delay * 2 ^ n))
      × (1 ≤ (step lost next).1.sleep)
unfolding step
after_losses-delay zero cl on small pos = ground arith
after_losses-delay (suc n) cl on small pos =
    let (e, wait) =
      after_losses-delay n (step lost cl).0 (ground (arith, on)) (ground (arith, on))
        (ground (arith, on)) in
    let d : (step lost cl).0.reconnect_delay ≡ min 30 (cl.reconnect_delay * 2) =
      ground (arith, on) in
    (
      e
          ∙ ap (λ x. min 30 (x * 2 ^ n)) d
          ∙ cap cl.reconnect_delay (2 ^ n) (one-le-pow n 2 (omega arith))
          ∙ ap (λ x. min 30 (cl.reconnect_delay * x)) (sym (pow-suc 2 n)),
      wait,
    )
