-- ===== src/Outbox/Worker/Keys.antt =====
-- The key of the outbox: its events stand in a batch as they are listed.
use relationship_os.Base.{
  ℕ, zero, suc, String, false, ◌≡◌, ◌≢◌, refl, ◌∙◌, Bool, List, [], ◌∷◌, arith, All, All-take,
  select, take, exists_row, eq_refl, Bool-cases, inl, inr,
}
use relationship_os.Base.Sorting.{sort_by, insert_by, exists-insert_by, exists-sort_by, All-sort_by}
use relationship_os.Db.Rows.{Db, OutboxEvent}
use relationship_os.Outbox.Worker.{has_id, is_due, older, due_events}
use relationship_os.Outbox.Worker.Loop.{IsListed}
use relationship_os.Outbox.Worker.Update.{put_event}

-- No two events share their identifier.
abbrev pub HasKeys : List OutboxEvent → Type 0
HasKeys [] = Unit
HasKeys (e ∷ es) = (exists_row (has_id e.id) es ≡ false) × HasKeys es

exists-put_event :
    (x : String) (f : OutboxEvent) (es : List OutboxEvent)
    → exists_row (has_id x) (put_event f es) ≡ exists_row (has_id x) es
exists-put_event x f [] = refl
exists-put_event x f (e ∷ es) = ground (arith, exists-put_event x f es)

pub put_event-HasKeys :
    (f : OutboxEvent) (es : List OutboxEvent) → HasKeys es → HasKeys (put_event f es)
put_event-HasKeys f [] h = tt
put_event-HasKeys f (e ∷ es) h = (
  ground (arith, h.0, exists-put_event f.id f es, exists-put_event e.id f es),
  put_event-HasKeys f es h.1,
)

select-absent :
    (x : String) (es : List OutboxEvent)
    → exists_row (has_id x) es ≡ false
    → select (has_id x) es ≡ []
select-absent x [] h = refl
select-absent x (e ∷ es) h = ground (arith, select-absent x es)

found_behind :
    (e : OutboxEvent) (es gs : List OutboxEvent)
    → exists_row (has_id e.id) gs ≡ false
    → All (λ g. select (has_id g.id) es ≡ g ∷ []) gs
    → All (λ g. select (has_id g.id) (e ∷ es) ≡ g ∷ []) gs
found_behind e es [] h a = tt
found_behind e es (g ∷ gs) h a =
    (ground (arith, h, a.0), found_behind e es gs (ground (arith, h)) a.1)

-- An event of a table with keys is found by its identifier, alone.
found : (es : List OutboxEvent) → HasKeys es → All (λ e. select (has_id e.id) es ≡ e ∷ []) es
found [] h = tt
found (e ∷ es) h = (
  ground (arith, eq_refl e.id, select-absent e.id es h.0),
  found_behind e es es h.0 (found es h.1),
)

exists-select :
    (x : String) (p : OutboxEvent → Bool) (es : List OutboxEvent)
    → exists_row (has_id x) es ≡ false
    → exists_row (has_id x) (select p es) ≡ false
exists-select x p [] h = refl
exists-select x p (e ∷ es) h = ground (arith, exists-select x p es)

select-HasKeys :
    (p : OutboxEvent → Bool) (es : List OutboxEvent) → HasKeys es → HasKeys (select p es)
select-HasKeys p [] h = tt
select-HasKeys p (e ∷ es) h = ground (arith, h.0, exists-select e.id p es, select-HasKeys p es h.1)

insert_by-HasKeys :
    (e : OutboxEvent) (es : List OutboxEvent)
    → exists_row (has_id e.id) es ≡ false
    → HasKeys es
    → HasKeys (insert_by older e es)
unfolding insert_by
insert_by-HasKeys e [] h k = (refl, tt)
insert_by-HasKeys e (x ∷ es) h k =
    ground (arith, k.0, h, insert_by-HasKeys e es, exists-insert_by older (has_id x.id) e es)

sort_by-HasKeys : (es : List OutboxEvent) → HasKeys es → HasKeys (sort_by older es)
unfolding sort_by
sort_by-HasKeys [] h = tt
sort_by-HasKeys (e ∷ es) h =
    insert_by-HasKeys e (sort_by older es) (exists-sort_by older (has_id e.id) es ∙ h.0)
      (sort_by-HasKeys es h.1)

exists-take :
    (x : String) (n : ℕ) (es : List OutboxEvent)
    → exists_row (has_id x) es ≡ false
    → exists_row (has_id x) (take n es) ≡ false
exists-take x zero es h = refl
exists-take x (suc n) [] h = refl
exists-take x (suc n) (e ∷ es) h = ground (arith, exists-take x n es)

take-HasKeys : (n : ℕ) (es : List OutboxEvent) → HasKeys es → HasKeys (take n es)
take-HasKeys zero es h = tt
take-HasKeys (suc n) [] h = tt
take-HasKeys (suc n) (e ∷ es) h = (exists-take e.id n es h.0, take-HasKeys n es h.1)

apart :
    (x : String) (es : List OutboxEvent) → exists_row (has_id x) es ≡ false → All (λ f. f.id ≢ x) es
apart x [] h = tt
apart x (e ∷ es) h = (λ p. absurd (ground (arith, h, p)), apart x es (ground (arith, h)))

listed :
    (d : Db) (es : List OutboxEvent)
    → HasKeys es
    → All (λ e. select (has_id e.id) d.outbox ≡ e ∷ []) es
    → IsListed d es
listed d [] k a = tt
listed d (e ∷ es) k a = (a.0, apart e.id es k.0, listed d es k.1 a.1)

All-select :
    (P : OutboxEvent → Type 0) (p : OutboxEvent → Bool) (es : List OutboxEvent)
    → All P es
    → All P (select p es)
All-select P p [] h = tt
All-select P p (e ∷ es) h = elim (Bool-cases (p e)) [
  | inl t ↦ rw t (h.0, All-select P p es h.1)
  | inr t ↦ rw t (All-select P p es h.1)
]

-- The events of a batch over a table with keys stand in it once each.
pub due_events-IsListed : (now n : ℕ) (d : Db) → HasKeys d.outbox → IsListed d (due_events now n d)
due_events-IsListed now n d h =
    listed d (due_events now n d)
      (take-HasKeys n _ (sort_by-HasKeys _ (select-HasKeys (is_due now) d.outbox h)))
      (All-take _ n _ (
        All-sort_by older (λ e. select (has_id e.id) d.outbox ≡ e ∷ []) _
          (All-select (λ e. select (has_id e.id) d.outbox ≡ e ∷ []) (is_due now) d.outbox
            (found d.outbox h))))
