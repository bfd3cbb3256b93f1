-- ===== src/Outbox/Worker/Loop.antt =====
-- A whole batch: its events take one step each, and every other event is left alone.
use mathlib.Core.Path.{subst}
use relationship_os.Base.{
  ℕ, ◌+◌, String, ap, ◌≡◌, ◌≢◌, refl, sym, ◌∙◌, inl, inr, ◌⊎◌, none, some, Option, true, false,
  Bool-cases, Option-cases, ap2, List, [], ◌∷◌, All, All-map, select,
}
use relationship_os.Shared.Config.{Settings}
use relationship_os.Db.Rows.{Db, OutboxEvent}
use relationship_os.Db.Session.{Session, open_session, Result-cases}
use relationship_os.Shared.Errors.{Error}
use relationship_os.Outbox.Worker.{
  has_id, Attempt, process_event, process_events, process_batch, after_error, attempt, due_events,
}
use relationship_os.Outbox.Worker.Retry.{
  Step, processed-Step, lock_fails, lock_holds, attempt-stored, unmarked-stored,
}
use relationship_os.Outbox.Worker.Progress.{process_event-others, others_kept}

-- Every event stands in the outbox once, as it is listed, and no two share their identifier.
abbrev pub IsListed : Db → List OutboxEvent → Type 0
IsListed d [] = Unit
IsListed d (e ∷ es) =
    (select (has_id e.id) d.outbox ≡ e ∷ []) × All (λ f. f.id ≢ e.id) es × IsListed d es

-- The event's row is found after one legal step.
abbrev pub HasStepped : Db → OutboxEvent → Type 0
HasStepped d e = (f : OutboxEvent) × (select (has_id e.id) d.outbox ≡ f ∷ []) × Step e f

pub IsListed-kept :
    (d d' : Db) (es : List OutboxEvent)
    → All (λ f. select (has_id f.id) d'.outbox ≡ select (has_id f.id) d.outbox) es
    → IsListed d es
    → IsListed d' es
IsListed-kept d d' [] h l = tt
IsListed-kept d d' (e ∷ es) h l = (h.0 ∙ l.0, l.1, IsListed-kept d d' es h.1 l.2)

-- The event's row has taken one legal step, or is as it was.
abbrev pub HasSteppedOrKept : Db → Db → OutboxEvent → Type 0
HasSteppedOrKept d d' e =
    HasStepped d' e ⊎ (select (has_id e.id) d'.outbox ≡ select (has_id e.id) d.outbox)

none-ne-some : {n : ℕ} → ◌≢◌ {A = Option ℕ} none (some n)
none-ne-some h = cc

kept_before :
    (d d' d'' : Db) (es : List OutboxEvent)
    → All (λ f. select (has_id f.id) d'.outbox ≡ select (has_id f.id) d.outbox) es
    → All (HasSteppedOrKept d' d'') es
    → All (HasSteppedOrKept d d'') es
kept_before d d' d'' [] h l = tt
kept_before d d' d'' (e ∷ es) h (inl stepped, l) = (inl stepped, kept_before d d' d'' es h.1 l)
kept_before d d' d'' (e ∷ es) h (inr kept, l) = (inr (kept ∙ h.0), kept_before d d' d'' es h.1 l)

not_left :
    (lock mark : Option Error) (es : List OutboxEvent) (count : ℕ) {n : ℕ}
    → after_error lock mark es count ≡ some n
    → (lock ≡ none) × (mark ≡ none)
not_left none none es count h = (refl, refl)
not_left none (some x) es count h = absurd (none-ne-some h)
not_left (some x) none es count h = absurd (none-ne-some h)
not_left (some x) (some y) es count h = absurd (none-ne-some h)

-- However the processing of an event ends, its row has taken one legal step or is as it was.
process_event-kept :
    (cfg : Settings) (a : Attempt) (now : ℕ) (e : OutboxEvent) (s : Session)
    → s.work ≡ s.stored
    → select (has_id e.id) s.stored.outbox ≡ e ∷ []
    → HasSteppedOrKept s.stored (process_event cfg a now e s).1.stored e
process_event-kept cfg a now e s same one = elim (Option-cases a.lock_fault) [
  | inr (x, fails) ↦
      inr (ap (λ p. select (has_id e.id) p.1.stored.outbox) (lock_fails cfg a now e s fails))
  | inl locks ↦ elim (Option-cases a.mark_fault) [
    | inl marks ↦ inl (processed-Step cfg a now e s same one (inr (locks, marks))).1
    | inr (x, fails) ↦ elim (Result-cases (attempt cfg a now e s).0) [
      | inl (done, h) ↦
          let through = ap (λ p. p.0) (lock_holds cfg a now e s locks h) in
          inl (processed-Step cfg a now e s same one (inl through)).1
      | inr (y, h) ↦
          let s' = (attempt cfg a now e s).1 in
          inr (
            ap (λ p. select (has_id e.id) p.1.stored.outbox) (lock_holds cfg a now e s locks h)
            ∙ ap (λ d. select (has_id e.id) d.outbox)
                (unmarked-stored cfg a now e y s' fails ∙ attempt-stored cfg a now e s h))
    ]
  ]
]

module _ (cfg : Settings) (attempts : String → Attempt) (now : ℕ) where
  pub process_events-done :
      (e : OutboxEvent) (es : List OutboxEvent) (count : ℕ) (s : Session)
      → (process_event cfg (attempts e.id) now e s).0 ≡ true
      → process_events cfg attempts now (e ∷ es) count s
        ≡ process_events cfg attempts now es
            (count + 1)
            (process_event cfg (attempts e.id) now e s).1
  unfolding process_events
  process_events-done e es count s h = rw h refl

  pub process_events-raised :
      (e : OutboxEvent) (es : List OutboxEvent) (count : ℕ) (s : Session)
      → (process_event cfg (attempts e.id) now e s).0 ≡ false
      → process_events cfg attempts now (e ∷ es) count s ≡ (
        after_error (attempts e.id).lock_fault (attempts e.id).mark_fault es count,
        (process_event cfg (attempts e.id) now e s).1,
      )
  unfolding process_events
  process_events-raised e es count s h = rw h refl

  process_events-others :
      (x : String) (es : List OutboxEvent) (count : ℕ) (s : Session)
      → All (λ e. x ≢ e.id) es
      → s.work ≡ s.stored
      → IsListed s.stored es
      → select (has_id x) (process_events cfg attempts now es count s).1.stored.outbox
        ≡ select (has_id x) s.stored.outbox
  unfolding process_events
  process_events-others x [] count s ne same l = refl
  process_events-others x (e ∷ es) count s ne same l =
      let a = attempts e.id in
      let s' = (process_event cfg a now e s).1 in
      let kept = process_event-others cfg a now x e s ne.0 same l.0 in
      elim (Bool-cases (process_event cfg a now e s).0) [
        | inl h ↦ rw h (
            process_events-others x es (count + 1) s' ne.1
              (processed-Step cfg a now e s same l.0 (inl h)).0
              (IsListed-kept s.stored s'.stored es (others_kept cfg a now e s es same l.0 l.1) l.2)
            ∙ kept)
        | inr h ↦ rw h kept
      ]

  -- A later part of the loop leaves the step of an earlier event as it is.
  stepped_before :
      (e : OutboxEvent) (es : List OutboxEvent) (count : ℕ) (s : Session)
      → s.work ≡ s.stored
      → IsListed s.stored (e ∷ es)
      → (process_event cfg (attempts e.id) now e s).0 ≡ true
      → let s' = (process_event cfg (attempts e.id) now e s).1 in
        (s'.work ≡ s'.stored)
        × IsListed s'.stored es
        × HasStepped (process_events cfg attempts now es count s').1.stored e
  stepped_before e es count s same l h =
      let a = attempts e.id in
      let s' = (process_event cfg a now e s).1 in
      let (committed, (f, row, step)) = processed-Step cfg a now e s same l.0 (inl h) in
      let listed =
        IsListed-kept s.stored s'.stored es (others_kept cfg a now e s es same l.0 l.1) l.2 in
      let apart : All (λ g. e.id ≢ g.id) es = All-map (λ g h p. h (sym p)) es l.1 in
      (
        committed,
        listed,
        (f, process_events-others e.id es count s' apart committed listed ∙ row, step),
      )

  last_raised :
      (e : OutboxEvent) (es : List OutboxEvent) (count : ℕ) (s : Session) {n : ℕ}
      → s.work ≡ s.stored
      → IsListed s.stored (e ∷ es)
      → (process_event cfg (attempts e.id) now e s).0 ≡ false
      → (process_events cfg attempts now (e ∷ es) count s).0 ≡ some n
      → All (HasStepped (process_events cfg attempts now (e ∷ es) count s).1.stored) (e ∷ es)
  last_raised e [] count s same l h through =
      let ended = ap (λ p. p.0) (sym (process_events-raised e [] count s h)) ∙ through in
      subst (λ p. All (HasStepped p.1.stored) (e ∷ [])) (sym (process_events-raised e [] count s h))
        (
          (processed-Step cfg (attempts e.id) now e s same l.0
              (inr (not_left _ _ [] count ended))).1,
          tt,
        )
  last_raised e (f ∷ es) count s same l h through =
      let ended = ap (λ p. p.0) (sym (process_events-raised e (f ∷ es) count s h)) ∙ through in
      let (locks, marks) = not_left _ _ (f ∷ es) count ended in
      absurd (none-ne-some (sym (ap2 (λ x y. after_error x y (f ∷ es) count) locks marks) ∙ ended))

  -- When the loop is through, each event has taken exactly one legal step.
  process_events-Step :
      (es : List OutboxEvent) (count : ℕ) (s : Session) {n : ℕ}
      → s.work ≡ s.stored
      → IsListed s.stored es
      → (process_events cfg attempts now es count s).0 ≡ some n
      → All (HasStepped (process_events cfg attempts now es count s).1.stored) es
  process_events-Step [] count s same l through = tt
  process_events-Step (e ∷ es) count s same l through =
      elim (Bool-cases (process_event cfg (attempts e.id) now e s).0) [
        | inl h ↦
            let s' = (process_event cfg (attempts e.id) now e s).1 in
            let go = process_events-done e es count s h in
            let (committed, listed, first_step) = stepped_before e es (count + 1) s same l h in
            subst (λ p. All (HasStepped p.1.stored) (e ∷ es)) (sym go)
              (
                first_step,
                process_events-Step es (count + 1) s' committed listed
                    (ap (λ p. p.0) (sym go) ∙ through),
              )
        | inr h ↦ last_raised e es count s same l h through
      ]

  process_events-kept :
      (es : List OutboxEvent) (count : ℕ) (s : Session)
      → s.work ≡ s.stored
      → IsListed s.stored es
      → All (HasSteppedOrKept s.stored (process_events cfg attempts now es count s).1.stored) es
  process_events-kept [] count s same l = tt
  process_events-kept (e ∷ es) count s same l =
      let a = attempts e.id in
      let s' = (process_event cfg a now e s).1 in
      let others = others_kept cfg a now e s es same l.0 l.1 in
      elim (Bool-cases (process_event cfg a now e s).0) [
        | inl h ↦
            let (committed, listed, first_step) = stepped_before e es (count + 1) s same l h in
            subst (λ p. All (HasSteppedOrKept s.stored p.1.stored) (e ∷ es))
              (sym (process_events-done e es count s h))
              (
                inl first_step,
                kept_before s.stored s'.stored
                    (process_events cfg attempts now es (count + 1) s').1.stored es others
                    (process_events-kept es (count + 1) s' committed listed),
              )
        | inr h ↦
            subst (λ p. All (HasSteppedOrKept s.stored p.1.stored) (e ∷ es))
              (sym (process_events-raised e es count s h))
              (process_event-kept cfg a now e s same l.0, All-map (λ f p. inr p) es others)
      ]

  -- After a batch that comes through over a database whose due events are listed once each, the row
  -- of every one of them is one legal step further, with at most one retry more, and none is locked.
  pub process_batch-Step :
      (n : ℕ) (d : Db) {count : ℕ}
      → IsListed d (due_events now n d)
      → (process_batch cfg attempts now n d).0 ≡ some count
      → All (HasStepped (process_batch cfg attempts now n d).1) (due_events now n d)
  unfolding process_batch
  process_batch-Step n d l through =
      process_events-Step (due_events now n d) 0 (open_session d) refl l through

  -- In a database whose due events are listed once each, however a batch ends, with an exception
  -- included, each of its events has taken one legal step or is as it was: none stays locked by
  -- it.
  pub process_batch-kept :
      (n : ℕ) (d : Db)
      → IsListed d (due_events now n d)
      → All (HasSteppedOrKept d (process_batch cfg attempts now n d).1) (due_events now n d)
  unfolding process_batch
  process_batch-kept n d l = process_events-kept (due_events now n d) 0 (open_session d) refl l

  -- In a database whose due events are listed once each, an event that is not in the batch keeps
  -- its row.
  pub process_batch-others :
      (n : ℕ) (d : Db) (x : String)
      → All (λ e. x ≢ e.id) (due_events now n d)
      → IsListed d (due_events now n d)
      → select (has_id x) (process_batch cfg attempts now n d).1.outbox ≡ select (has_id x) d.outbox
  unfolding process_batch
  process_batch-others n d x apart l =
      process_events-others x (due_events now n d) 0 (open_session d) apart refl l
