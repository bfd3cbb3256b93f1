-- ===== src/Db/Session.antt =====
-- An `AsyncSession` (apps/api/src/core/database.py): the database as it is committed, and as the
-- session sees it. A call of a service changes the second, and may raise.
use relationship_os.Base.{
  Bool, Option, none, some, List, [], ◌∷◌, ◌≡◌, ◌≢◌, refl, sym, ap, ◌∙◌, ◌⊎◌, inl, inr, arith,
  if◌then◌else◌,
}
use relationship_os.Shared.Errors.{Error, integrity_error, multiple_results_found}
use relationship_os.Db.Rows.{Db}

pub record Session : Type 0 where
  pub stored : Db
  pub work : Db

-- A new session over a committed database.
abbrev pub open_session : Db → Session
open_session d = record { stored = d; work = d }

pub data Result (A : Type 0) : Type 0 where
  ok : A → Result A
  err : Error → Result A

abbrev pub Action : Type 0 → Type 0
Action A = Session → Result A × Session

module _ {A : Type 0} where
  abbrev pub pure : A → Action A
  pure a s = (ok a, s)

  abbrev pub raise : Error → Action A
  raise e s = (err e, s)

  -- A call whose answer, or exception, is given.
  abbrev pub lift : Result A → Action A
  lift r s = (r, s)

  -- A query over what the session sees.
  abbrev pub query : (Db → A) → Action A
  query f s = (ok (f s.work), s)

  -- A query whose order is that of the rows in the database, before a flush.
  abbrev pub query_stored : (Db → Db → A) → Action A
  query_stored f s = (ok (f s.stored s.work), s)

  abbrev pub or_raise : Option A → Error → Action A
  or_raise none e = raise e
  or_raise (some a) e = pure a

-- `scalar_one_or_none` raises when there are several rows.
abbrev pub scalar_one_or_none : {A : Type 0} → List A → Action (Option A)
scalar_one_or_none [] = pure none
scalar_one_or_none (a ∷ []) = pure (some a)
scalar_one_or_none (a ∷ b ∷ rest) = raise multiple_results_found

infixl 5 ◌>>=◌ ◌>>◌
abbrev pub ◌>>=◌ : {A B : Type 0} → Action A → (A → Action B) → Action B
◌>>=◌ m f s = let (r, s') = m s in elim r [ ok a ↦ f a s' | err e ↦ (err e, s') ]

abbrev pub ◌>>◌ : {A B : Type 0} → Action A → Action B → Action B
m >> k = m >>= λ _. k

abbrev pub raise_if : Bool → Error → Action (Unit {0})
raise_if c e s = (if c then err e else ok tt, s)

-- `flush`: the session sees the change.
abbrev pub modify : (Db → Db) → Action (Unit {0})
modify f s = (ok tt, record s { work = f s.work })

abbrev pub commit : Action (Unit {0})
commit s = (ok tt, record s { stored = s.work })

abbrev pub rollback : Action (Unit {0})
rollback s = (ok tt, record s { work = s.stored })

-- `try: m` with `except IntegrityError: h`
abbrev pub catch_integrity : {A : Type 0} → Action A → Action A → Action A
catch_integrity m h s =
    let (r, s') = m s in
    elim r [
      | ok a ↦ (ok a, s')
      | err e ↦ elim e [ integrity_error ↦ h s' | other ↦ (err other, s') ]
    ]

-- `get_db`: a request runs in a session of its own, is committed when it returns, and is rolled
-- back when it raises. The result is the response and the committed database.
unfoldable pub get_db : {A : Type 0} → Action A → Db → Result A × Db
get_db m d =
    let (r, s) = m (open_session d) in
    elim r [ ok a ↦ (ok a, (commit s).1.stored) | err e ↦ (err e, (rollback s).1.stored) ]

-- What a call that returns has returned.
abbrev pub Returns : {A : Type 0} → Result A → (A → Type 0) → Type 0
Returns (ok a) P = P a
Returns (err e) P = Unit

pub Result-cases :
    {A : Type 0} (r : Result A) → ((a : A) × (r ≡ ok a)) ⊎ ((e : Error) × (r ≡ err e))
Result-cases (ok a) = inl (a, refl)
Result-cases (err e) = inr (e, refl)

-- `async with AsyncSessionLocal() as db`: what is not committed is dropped.
abbrev pub in_session : {A : Type 0} → Action A → Db → Result A × Db
in_session m d = let (r, s) = m (open_session d) in (r, s.stored)

pub get_db_returns :
    {A : Type 0} (m : Action A) (d : Db) (a : A)
    → (get_db m d).0 ≡ ok a
    → (m (open_session d)).0 ≡ ok a
unfolding get_db
get_db_returns m d a h = ground arith

pub get_db_ok :
    {A : Type 0} (m : Action A) (d d' : Db) (a : A)
    → m (open_session d) ≡ (ok a, open_session d')
    → get_db m d ≡ (ok a, d')
unfolding get_db
get_db_ok m d d' a h = ground arith

err-ne-ok : {A : Type 0} {e : Error} {a : A} → err e ≢ ok a
err-ne-ok h = cc

pub bind_ok :
    {A B : Type 0} (m : Action A) (f : A → Action B) (s : Session) {a : A}
    → (m s).0 ≡ ok a
    → (m >>= f) s ≡ f a (m s).1
bind_ok {B} m f s h =
    ap (λ r. elim r as (λ _. Result B × Session) [ ok a ↦ f a (m s).1 | err e ↦ (err e, (m s).1) ])
      h

bind_err :
    {A B : Type 0} (m : Action A) (f : A → Action B) (s : Session) {e : Error}
    → (m s).0 ≡ err e
    → (m >>= f) s ≡ (err e, (m s).1)
bind_err {B} m f s h =
    ap (λ r. elim r as (λ _. Result B × Session) [ ok a ↦ f a (m s).1 | err e ↦ (err e, (m s).1) ])
      h

-- Where a chain has returned, its first part has, and the rest is what follows it.
pub bind_returns :
    {A B : Type 0} (m : Action A) (f : A → Action B) (s : Session) {b : B}
    → ((m >>= f) s).0 ≡ ok b
    → (a : A) × ((m s).0 ≡ ok a) × ((m >>= f) s ≡ f a (m s).1)
bind_returns m f s done = elim (Result-cases (m s).0) [
  | inl (a, h) ↦ (a, h, bind_ok m f s h)
  | inr (e, h) ↦ absurd (err-ne-ok (sym (ap (λ p. p.0) (bind_err m f s h)) ∙ done))
]
