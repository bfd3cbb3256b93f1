-- ===== src/Outbox/Worker/Advance.antt =====
-- One poll: what it makes of the attempts that are left, of the keys and of the times of the outbox.
use mathlib.Core.Path.{subst}
use relationship_os.Base.{
  ℕ, ◌+◌, ◌≤◌, ◌<◌, min, String, true, ap, ◌≡◌, refl, sym, ◌∙◌, inl, inr, Bool-cases, List, [], ◌∷◌,
  arith, All, All-map, select, length,
}
use relationship_os.Shared.Config.{Settings}
use relationship_os.Db.Rows.{Db, OutboxEvent}
use relationship_os.Db.Session.{Session, open_session}
use relationship_os.Presence.{seconds}
use relationship_os.Outbox.Worker.{
  has_id, is_waiting, due_events, Attempt, process_event, process_events, process_batch,
}
use relationship_os.Outbox.Worker.Batch.{due_events-All}
use relationship_os.Outbox.Worker.Progress.{others_kept}
use relationship_os.Outbox.Worker.Loop.{
  IsListed, IsListed-kept, process_events-done, process_events-raised,
}
use relationship_os.Outbox.Worker.Update.{
  IsTried, budget, Step-left, put_event, budget-put_event, HasUpdated, process_event-HasUpdated,
}
use relationship_os.Outbox.Worker.Keys.{HasKeys, put_event-HasKeys, due_events-IsListed}

-- No event waits for a time after t.
abbrev pub IsBefore : ℕ → List OutboxEvent → Type 0
IsBefore t = All (λ e. e.next_attempt_at ≤ t)

-- What a part of a poll that ends at `now` makes of the outbox.
pub record Advance (now : ℕ) (d d' : Db) : Type 0 where
  pub fewer : budget d'.outbox ≤ budget d.outbox
  pub keys : HasKeys d.outbox → HasKeys d'.outbox
  pub soon : (t : ℕ) → now + seconds 300 ≤ t → IsBefore t d.outbox → IsBefore t d'.outbox

Advance-refl : (now : ℕ) (d : Db) → Advance now d d
Advance-refl now d = record { fewer = omega arith; keys = λ h. h; soon = λ t h b. b }

Advance-trans :
    (now : ℕ) (d d' d'' : Db) → Advance now d d' → Advance now d' d'' → Advance now d d''
Advance-trans now d d' d'' a b = record {
  fewer = omega (arith, a.fewer, b.fewer);
  keys = λ h. b.keys (a.keys h);
  soon = λ t h before. b.soon t h (a.soon t h before);
}

put_event-IsBefore :
    (t : ℕ) (f : OutboxEvent) (es : List OutboxEvent)
    → f.next_attempt_at ≤ t
    → IsBefore t es
    → IsBefore t (put_event f es)
put_event-IsBefore t f [] h b = tt
put_event-IsBefore t f (e ∷ es) h b = elim (Bool-cases (has_id f.id e)) [
  | inl x ↦ rw x (h, put_event-IsBefore t f es h b.1)
  | inr x ↦ rw x (b.0, put_event-IsBefore t f es h b.1)
]

row-IsBefore :
    (t : ℕ) (e : OutboxEvent) (es : List OutboxEvent)
    → select (has_id e.id) es ≡ e ∷ []
    → IsBefore t es
    → e.next_attempt_at ≤ t
row-IsBefore t e [] one b = absurd cc
row-IsBefore t e (x ∷ es) one b = elim (Bool-cases (has_id e.id x)) [
  | inl h ↦ ground (arith, h, one, b.0)
  | inr h ↦ row-IsBefore t e es (ground (arith, h, one)) b.1
]

-- The update of one event that waits.
updated_event :
    (now : ℕ) (e : OutboxEvent) (s s' : Session)
    → is_waiting e.status ≡ true
    → select (has_id e.id) s.stored.outbox ≡ e ∷ []
    → HasUpdated now e s s'
    → Advance now s.stored s'.stored × (budget s'.stored.outbox < budget s.stored.outbox)
updated_event now e s s' waits one up =
    let balance =
      budget-put_event e up.row s.stored.outbox
        (ap (λ i. select (has_id i) s.stored.outbox) up.same_id ∙ one) in
    let less = Step-left e up.row waits up.step in
    let falls : budget s'.stored.outbox < budget s.stored.outbox =
      omega (arith, ap budget up.outbox, balance, less) in
    (
      record {
        fewer = omega (arith, falls);
        keys = λ h. subst HasKeys (sym up.outbox) (put_event-HasKeys up.row s.stored.outbox h);
        soon = λ t h b.
            let bound = row-IsBefore t e s.stored.outbox one b in
            subst (IsBefore t) (sym up.outbox)
              (put_event-IsBefore t up.row s.stored.outbox (omega (arith, up.soon, bound, h)) b);
      },
      falls,
    )

module _ (cfg : Settings) (attempts : String → Attempt) (now ended : ℕ)
    (tried : (id : String) → IsTried cfg (attempts id) now ended) where
  process_events-Advance :
      (es : List OutboxEvent) (count : ℕ) (s : Session)
      → s.work ≡ s.stored
      → IsListed s.stored es
      → All (λ e. is_waiting e.status ≡ true) es
      → Advance ended s.stored (process_events cfg attempts now es count s).1.stored
  unfolding process_events
  process_events-Advance [] count s same l w = Advance-refl ended s.stored
  process_events-Advance (e ∷ es) count s same l w =
      let a = attempts e.id in
      let s' = (process_event cfg a now e s).1 in
      let up = process_event-HasUpdated cfg a now ended e s same l.0 (tried e.id) in
      let (first_part, _) = updated_event ended e s s' w.0 l.0 up in
      elim (Bool-cases (process_event cfg a now e s).0) [
        | inl h ↦ rw h (
            Advance-trans ended s.stored s'.stored
              (process_events cfg attempts now es (count + 1) s').1.stored first_part
              (process_events-Advance es (count + 1) s' up.committed
                (IsListed-kept s.stored s'.stored es (others_kept cfg a now e s es same l.0 l.1)
                  l.2)
                w.1))
        | inr h ↦ rw h first_part
      ]

  process_events-lt :
      (e : OutboxEvent) (es : List OutboxEvent) (count : ℕ) (s : Session)
      → s.work ≡ s.stored
      → IsListed s.stored (e ∷ es)
      → All (λ f. is_waiting f.status ≡ true) (e ∷ es)
      → budget (process_events cfg attempts now (e ∷ es) count s).1.stored.outbox
        < budget s.stored.outbox
  process_events-lt e es count s same l w =
      let a = attempts e.id in
      let s' = (process_event cfg a now e s).1 in
      let up = process_event-HasUpdated cfg a now ended e s same l.0 (tried e.id) in
      let (_, falls) = updated_event ended e s s' w.0 l.0 up in
      let kept = others_kept cfg a now e s es same l.0 l.1 in
      let rest =
        process_events-Advance es (count + 1) s' up.committed
          (IsListed-kept s.stored s'.stored es kept l.2) w.1 in
      elim (Bool-cases (process_event cfg a now e s).0) [
        | inl h ↦
            subst (λ p. budget p.1.stored.outbox < budget s.stored.outbox)
              (sym (process_events-done cfg attempts now e es count s h))
              (omega (arith, rest.fewer, falls))
        | inr h ↦
            subst (λ p. budget p.1.stored.outbox < budget s.stored.outbox)
              (sym (process_events-raised cfg attempts now e es count s h)) falls
      ]

  due_waiting : (n : ℕ) (d : Db) → All (λ e. is_waiting e.status ≡ true) (due_events now n d)
  due_waiting n d =
      All-map (λ e h. ground (arith, h)) (due_events now n d) (due_events-All now n d).0

  pub process_batch-Advance :
      (n : ℕ) (d : Db) → HasKeys d.outbox → Advance ended d (process_batch cfg attempts now n d).1
  unfolding process_batch
  process_batch-Advance n d h =
      process_events-Advance (due_events now n d) 0 (open_session d) refl
        (due_events-IsListed now n d h) (due_waiting n d)

  events-fewer :
      (es : List OutboxEvent) (s : Session)
      → s.work ≡ s.stored
      → IsListed s.stored es
      → All (λ e. is_waiting e.status ≡ true) es
      → budget (process_events cfg attempts now es 0 s).1.stored.outbox + min 1 (length es)
        ≤ budget s.stored.outbox
  unfolding process_events
  events-fewer [] s same l w = omega arith
  events-fewer (e ∷ es) s same l w = omega (arith, process_events-lt e es 0 s same l w)

  -- A poll that finds an event to try leaves fewer attempts.
  pub process_batch-fewer :
      (n : ℕ) (d : Db)
      → HasKeys d.outbox
      → budget (process_batch cfg attempts now n d).1.outbox + min 1 (length (due_events now n d))
        ≤ budget d.outbox
  unfolding process_batch
  process_batch-fewer n d h =
      events-fewer (due_events now n d) (open_session d) refl (due_events-IsListed now n d h)
        (due_waiting n d)
