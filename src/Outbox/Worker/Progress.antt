-- ===== src/Outbox/Worker/Progress.antt =====
-- The processing of one event leaves the rows of all others alone.
use relationship_os.Base.{
  ℕ, ◌+◌, String, ap, ◌≡◌, ◌≢◌, refl, ◌∙◌, inl, inr, Option-cases, List, [], ◌∷◌, arith, All,
  select, update_where,
}
use relationship_os.Shared.Errors.{Error}
use relationship_os.Shared.Config.{Settings}
use relationship_os.Db.Rows.{OutboxEvent}
use relationship_os.Db.Session.{Session, Result-cases}
use relationship_os.Outbox.Router.{route_event}
use relationship_os.Outbox.Router.Frame.{route_event-IsSame}
use relationship_os.Outbox.Worker.{
  has_id, failures, save_event, lock_event, settle_event, fail_event, Attempt, attempt, mark_error,
  process_event,
}
use relationship_os.Outbox.Worker.Retry.{
  lock_fails, lock_holds, attempt-stored, settle_event-id, fail_event-id,
}

-- A write to the row of one event is not seen by a lookup of another.
select-save_other :
    (x : String) (f : OutboxEvent) (es : List OutboxEvent)
    → x ≢ f.id
    → select (has_id x) (update_where (has_id f.id) (λ _. f) es) ≡ select (has_id x) es
select-save_other x f [] h = refl
select-save_other x f (e ∷ es) h = ground (arith, select-save_other x f es h)

module _ (cfg : Settings) (a : Attempt) (now : ℕ) where
  attempt-others :
      (x : String) (e : OutboxEvent) (s : Session)
      → x ≢ e.id
      → s.work ≡ s.stored
      → select (has_id x) (attempt cfg a now e s).1.stored.outbox
        ≡ select (has_id x) s.stored.outbox
  unfolding attempt
  attempt-others x e s ne same = elim (Option-cases (a.validate e.payload_json)) [
    | inl none_parsed ↦ ground arith
    | inr (event, parsed) ↦
        let locked = (save_event (lock_event now e) s).1 in
        elim (Result-cases (route_event cfg a.adapters a.draw (now + a.routing) event locked).0) [
          | inl (rs, routed) ↦
              let after = (route_event cfg a.adapters a.draw (now + a.routing) event locked).1 in
              let last =
                settle_event (now + a.settling) a.jitter (failures rs) (lock_event now e) in
              elim (Option-cases a.commit_fault) [
                | inr (y, fails) ↦ ground (
                  arith,
                  parsed,
                  routed,
                  fails,
                  route_event-IsSame cfg a.adapters a.draw (now + a.routing) event locked,
                )
                | inl commits ↦ ground (
                  arith,
                  parsed,
                  routed,
                  commits,
                  route_event-IsSame cfg a.adapters a.draw (now + a.routing) event locked,
                  settle_event-id (now + a.settling) a.jitter (failures rs) (lock_event now e),
                  select-save_other x (lock_event now e) s.work.outbox,
                  select-save_other x last after.work.outbox,
                )
              ]
          | inr (y, raised) ↦ ground (
            arith,
            parsed,
            raised,
            route_event-IsSame cfg a.adapters a.draw (now + a.routing) event locked,
          )
        ]
  ]

  mark_error-others :
      (x : String) (e : OutboxEvent) (y : Error) (s : Session)
      → x ≢ e.id
      → select (has_id e.id) s.stored.outbox ≡ e ∷ []
      → select (has_id x) (mark_error cfg a now e y s).stored.outbox
        ≡ select (has_id x) s.stored.outbox
  unfolding mark_error
  mark_error-others x e y s ne one = elim (Option-cases a.mark_fault) [
    | inr (z, fails) ↦ ground (arith, fails)
    | inl marks ↦ ground (
      arith,
      marks,
      fail_event-id (now + a.marking) (a.describe y) e,
      select-save_other x (fail_event (now + a.marking) (a.describe y) e) s.stored.outbox,
    )
  ]

  pub process_event-others :
      (x : String) (e : OutboxEvent) (s : Session)
      → x ≢ e.id
      → s.work ≡ s.stored
      → select (has_id e.id) s.stored.outbox ≡ e ∷ []
      → select (has_id x) (process_event cfg a now e s).1.stored.outbox
        ≡ select (has_id x) s.stored.outbox
  process_event-others x e s ne same one = elim (Option-cases a.lock_fault) [
    | inr (y, fails) ↦
        ap (λ p. select (has_id x) p.1.stored.outbox) (lock_fails cfg a now e s fails)
    | inl locks ↦ elim (Result-cases (attempt cfg a now e s).0) [
      | inl (done, h) ↦
          ap (λ p. select (has_id x) p.1.stored.outbox) (lock_holds cfg a now e s locks h)
          ∙ attempt-others x e s ne same
      | inr (y, h) ↦
          ap (λ p. select (has_id x) p.1.stored.outbox) (lock_holds cfg a now e s locks h)
          ∙ (mark_error-others x e y (attempt cfg a now e s).1 ne
                (rw (attempt-stored cfg a now e s h) one)
              ∙ ap (λ d. select (has_id x) d.outbox) (attempt-stored cfg a now e s h))
    ]
  ]

  pub others_kept :
      (e : OutboxEvent) (s : Session) (es : List OutboxEvent)
      → s.work ≡ s.stored
      → select (has_id e.id) s.stored.outbox ≡ e ∷ []
      → All (λ f. f.id ≢ e.id) es
      → All
          (λ f.
            select (has_id f.id) (process_event cfg a now e s).1.stored.outbox
            ≡ select (has_id f.id) s.stored.outbox)
          es
  others_kept e s [] same one h = tt
  others_kept e s (f ∷ es) same one h =
      (process_event-others f.id e s h.0 same one, others_kept e s es same one h.1)
