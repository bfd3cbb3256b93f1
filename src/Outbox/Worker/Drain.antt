-- ===== src/Outbox/Worker/Drain.antt =====
-- The polls of the loop, one after another: the outbox drains.
use native.Mathlib.Decide.{dec_le}
use relationship_os.Base.{
  String, ℕ, ◌+◌, ◌-◌, ◌≤◌, min, false, ◌≡◌, refl, List, [], ◌∷◌, arith, All, All-map, select,
  length, length-take,
}
use relationship_os.Base.Sorting.{sort_by, length-sort_by}
use relationship_os.Shared.Config.{Settings}
use relationship_os.Db.Rows.{Db, OutboxEvent}
use relationship_os.Presence.{seconds}
use relationship_os.Outbox.Worker.{
  is_waiting, is_due, older, due_events, process_batch, Poll, run_loop,
}
use relationship_os.Outbox.Worker.Update.{IsTried, left, budget}
use relationship_os.Outbox.Worker.Keys.{HasKeys}
use relationship_os.Outbox.Worker.Advance.{IsBefore, process_batch-Advance, process_batch-fewer}

-- The polls of a run that find an event to try.
abbrev pub busy_polls : Settings → List Poll → Db → ℕ
busy_polls cfg [] d = 0
busy_polls cfg (p ∷ ps) d =
    min 1 (length (due_events p.now 25 d))
    + busy_polls cfg ps (process_batch cfg p.attempts p.now 25 d).1

-- At each event that is tried, the database takes the lock and, where it comes to that, the mark of an
-- error, and the clock is read before the poll ends.
abbrev pub IsHeld : Settings → Poll → Type 0
IsHeld cfg p = (id : String) → IsTried cfg (p.attempts id) p.now p.ended

-- Whenever the worker polls, as long as the database takes the locks and the marks of errors, and every
-- reading of the clock falls before the end of its poll; whether the adapters answer or raise, the
-- payloads parse or not, and the commits of the attempts succeed or not: in an outbox without
-- duplicate keys, the polls that find something to try are no more than the attempts that its waiting
-- events have left, less those that are left at the end. So the retries come to an end.
pub run_loop-busy_polls :
    (cfg : Settings) (ps : List Poll) (d : Db)
    → HasKeys d.outbox
    → All (IsHeld cfg) ps
    → busy_polls cfg ps d + budget (run_loop cfg ps d).outbox ≤ budget d.outbox
unfolding run_loop
run_loop-busy_polls cfg [] d h held = omega arith
run_loop-busy_polls cfg (p ∷ ps) d h held =
    let d' = (process_batch cfg p.attempts p.now 25 d).1 in
    let keys = (process_batch-Advance cfg p.attempts p.now p.ended (held.0) 25 d h).keys h in
    omega (
      arith,
      process_batch-fewer cfg p.attempts p.now p.ended (held.0) 25 d h,
      run_loop-busy_polls cfg ps d' keys held.1,
    )

nothing_due :
    (now : ℕ) (es : List OutboxEvent)
    → select (is_due now) es ≡ []
    → IsBefore now es
    → budget es ≡ 0
unfolding left
nothing_due now [] h b = refl
nothing_due now (e ∷ es) h b = ground (arith, h, b.0, nothing_due now es (ground (arith, h)) b.1)

length_zero : (es : List OutboxEvent) → length es ≡ 0 → es ≡ []
length_zero [] h = refl
length_zero (e ∷ es) h = absurd (omega arith)

no_batch :
    (now n : ℕ) (d : Db)
    → 1 ≤ n
    → length (due_events now n d) ≡ 0
    → select (is_due now) d.outbox ≡ []
no_batch now n d pos h = length_zero (select (is_due now) d.outbox) (
    omega (
      arith,
      h,
      pos,
      length-take n (sort_by older (select (is_due now) d.outbox)),
      length-sort_by older (select (is_due now) d.outbox),
    ))

-- Once every waiting event is due, a poll leaves fewer attempts or there are none.
process_batch-drains :
    (cfg : Settings) (p : Poll) (d : Db)
    → HasKeys d.outbox
    → IsHeld cfg p
    → IsBefore p.now d.outbox
    → budget (process_batch cfg p.attempts p.now 25 d).1.outbox ≤ budget d.outbox - 1
process_batch-drains cfg p d h held b =
    let fewer = process_batch-fewer cfg p.attempts p.now p.ended (held) 25 d h in
    elim (dec_le 1 (length (due_events p.now 25 d))) [
      | yes busy ↦ omega (arith, fewer, busy)
      | no idle ↦ omega (
        arith,
        fewer,
        nothing_due p.now d.outbox (no_batch p.now 25 d (omega arith) (omega (arith, idle))) b,
      )
    ]

-- The first poll is not before t, and each later one starts 300 seconds or more after the end of the
-- previous one.
abbrev pub IsSpaced : ℕ → List Poll → Type 0
IsSpaced t [] = Unit
IsSpaced t (p ∷ ps) = (t ≤ p.now) × IsSpaced (p.ended + seconds 300) ps

budget-run_loop :
    (cfg : Settings) (t : ℕ) (ps : List Poll) (d : Db)
    → HasKeys d.outbox
    → All (IsHeld cfg) ps
    → IsBefore t d.outbox
    → IsSpaced t ps
    → budget (run_loop cfg ps d).outbox ≤ budget d.outbox - length ps
unfolding run_loop
budget-run_loop cfg t [] d h held b sp = omega arith
budget-run_loop cfg t (p ∷ ps) d h held b sp =
    let d' = (process_batch cfg p.attempts p.now 25 d).1 in
    let advance = process_batch-Advance cfg p.attempts p.now p.ended (held.0) 25 d h in
    let later : IsBefore (p.ended + seconds 300) d.outbox =
      All-map (λ e x. omega (arith, x, sp.0, (held.0 "").settled)) d.outbox b in
    let ready : IsBefore p.now d.outbox = All-map (λ e x. omega (arith, x, sp.0)) d.outbox b in
    omega (
      arith,
      process_batch-drains cfg p d h held.0 ready,
      budget-run_loop cfg (p.ended + seconds 300) ps d' (advance.keys h) held.1
          (advance.soon (p.ended + seconds 300) (omega arith) later) sp.1,
    )

spent : (es : List OutboxEvent) → budget es ≡ 0 → All (λ e. is_waiting e.status ≡ false) es
unfolding left
spent [] h = tt
spent (e ∷ es) h = (ground (arith, h), spent es (omega (arith, h)))

-- Polls of which each starts 300 seconds or more after the end of the previous one settle everything,
-- as long as the database takes the locks and the marks of errors, and every reading of the clock falls
-- before the end of its poll: if no event of an outbox without
-- duplicate keys waits for a time after the first of them, and they are at least as many as the
-- attempts that its waiting events have left, then afterwards no event waits any more, whether the
-- adapters answered or raised, the payloads parsed or not, and the commits of the attempts succeeded or
-- not.
pub run_loop-drains :
    (cfg : Settings) (t : ℕ) (ps : List Poll) (d : Db)
    → HasKeys d.outbox
    → All (IsHeld cfg) ps
    → IsBefore t d.outbox
    → IsSpaced t ps
    → budget d.outbox ≤ length ps
    → All (λ e. is_waiting e.status ≡ false) (run_loop cfg ps d).outbox
run_loop-drains cfg t ps d h held b sp enough =
    spent (run_loop cfg ps d).outbox (omega (arith, budget-run_loop cfg t ps d h held b sp, enough))
