-- ===== src/Inbound/Replay.antt =====
-- What an inbound webhook writes, and what a repeated one does.
use Prim.Native.String.{count}
use relationship_os.Base.{
  ℕ, ◌≤◌, String, Bool, true, false, ◌≡◌, refl, sym, ◌∙◌, ap, ◌||◌, if◌then◌else◌, Option, none,
  some, List, arith, select, first, inl, inr, Bool-cases, Option-cases,
}
use mathlib.Core.Path.{subst}
use relationship_os.Base.Int.{ℤ}
use relationship_os.Shared.Event.{CanonicalMessageEvent}
use relationship_os.Shared.Errors.{Error, auth_invalid}
use relationship_os.Shared.Config.{Settings}
use relationship_os.Db.Rows.{Db, User, Message}
use relationship_os.Db.Session.{
  Session, Result, ok, err, open_session, get_db, get_db_ok, get_db_returns, Result-cases,
}
use relationship_os.Auth.Account.{is_empty}
use relationship_os.Message.Send.{SendRequest, send_message}
use relationship_os.Message.Send.Outcome.{send_message_existing, select-send_message}
use relationship_os.Conversations.{Frame}
use relationship_os.Inbound.{
  Parsed, fields, InboundBody, InboundRequest, InboundResponse, Arrival, is_signed, is_manager,
  inbound_request, accept_inbound, receive_inbound_webhook,
}

same_response :
    {A B : Type 0} {a c : A} {b d : B} → ◌≡◌ {A = Result (A × B)} (ok (a, b)) (ok (c, d)) → a ≡ c
same_response h = cc

err-ok : {A : Type 0} {e : Error} {a : A} → ◌≡◌ {A = Result A} (err e) (ok a) → ⊥
err-ok h = cc

pair_eq : {A B : Type 0} (p : A × B) {a : A} → p.0 ≡ a → p ≡ (a, p.1)
pair_eq p e = ap (λ x. (x, p.1)) e

module _ (utf8 : String → List ℕ) (str : ℤ → String) (hmac : List ℕ → List ℕ → String)
    (loads : List ℕ → Parsed) (stamp : ℕ → String) (dump : CanonicalMessageEvent → String)
    (cfg : Settings) where
  -- Without a right and fresh signature, the request is refused and the committed database stays as
  -- it was.
  pub receive_inbound_webhook-refuses :
      (at : Arrival) (r : InboundRequest) (d : Db)
      → is_signed utf8 str hmac loads stamp dump cfg at.current_time r ≡ false
      → get_db (receive_inbound_webhook utf8 str hmac loads stamp dump cfg at r) d
        ≡ (err auth_invalid, d)
  unfolding get_db receive_inbound_webhook
  receive_inbound_webhook-refuses at r d h = ground (arith, h)

  send_message_users :
      (r : SendRequest) (d : Db) {m : Message} {is_new : Bool}
      → (send_message dump cfg r (open_session d)).0 ≡ ok (m, is_new)
      → ((send_message dump cfg r (open_session d)).1.work.users ≡ d.users)
        × (count r.payload.body ≤ cfg.max_message_length)
  unfolding send_message
  send_message_users r d h = ground (arith, h)

  -- What was sent, once the two fields are there and there is a manager.
  sent_again :
      (at at' : Arrival) (owner : User) (b : InboundBody) (key : String) (d : Db) {m : Message}
      {is_new : Bool}
      → (send_message dump cfg (inbound_request at owner b key) (open_session d)).0 ≡ ok (m, is_new)
      → let d' = (send_message dump cfg (inbound_request at owner b key) (open_session d)).1.work in
        (d'.users ≡ d.users)
        × (send_message dump cfg (inbound_request at' owner b key) (open_session d')
            ≡ (ok (m, false), open_session d'))
  sent_again at at' owner b key d h =
      let r = inbound_request at owner b key in
      let (users, fits) = send_message_users r d h in
      (
        users,
        send_message_existing dump cfg (inbound_request at' owner b key)
            (open_session (send_message dump cfg r (open_session d)).1.work) fits
            (select-send_message dump cfg r (open_session d) h),
      )

  accept_inbound_ok :
      (at : Arrival) (b : InboundBody) (s s' : Session) (owner : User) (m : Message) (is_new : Bool)
      → is_empty b.client_message_id ≡ false
      → (is_empty b.conversation_id || is_empty b.body) ≡ false
      → first (select is_manager s.work.users) ≡ some owner
      → send_message dump cfg (inbound_request at owner b b.client_message_id) s
        ≡ (ok (m, is_new), s')
      → accept_inbound utf8 str hmac loads stamp dump cfg at b s ≡ (
        ok (
          record { message_id = m.id; sequence_number = m.sequence_number },
          (if is_new then some (Frame.event m owner.display_name) else none),
        ),
        record s' { stored = s'.work },
      )
  unfolding accept_inbound
  accept_inbound_ok at b s s' owner m is_new named present who sent =
      ground (arith, named, present, who, sent)

  accept_inbound_owner :
      (at : Arrival) (b : InboundBody) (s : Session) {resp : InboundResponse} {frame : Option Frame}
      → is_empty b.client_message_id ≡ false
      → (accept_inbound utf8 str hmac loads stamp dump cfg at b s).0 ≡ ok (resp, frame)
      → ((is_empty b.conversation_id || is_empty b.body) ≡ false)
        × ((owner : User) × (first (select is_manager s.work.users) ≡ some owner)
            × ((sent : Message × Bool) × ((send_message dump cfg
                    (inbound_request at owner b b.client_message_id)
                    s).0
                  ≡ ok sent)))
  unfolding accept_inbound
  accept_inbound_owner at b s named h =
      elim (Option-cases (first (select is_manager s.work.users))) [
        | inl e ↦ absurd (ground (arith, e, h))
        | inr (owner, e) ↦
            elim (Result-cases
              (send_message dump cfg (inbound_request at owner b b.client_message_id) s).0) [
                | inl (sent, f) ↦ (ground (arith, h), (owner, e, (sent, f)))
                | inr (x, f) ↦ absurd (ground (arith, e, h, named, f))
              ]
      ]

  accept_inbound_again :
      (at at' : Arrival) (b : InboundBody) (d : Db) {resp : InboundResponse} {frame : Option Frame}
      → is_empty b.client_message_id ≡ false
      → (accept_inbound utf8 str hmac loads stamp dump cfg at b (open_session d)).0
        ≡ ok (resp, frame)
      → (d' : Db) × (accept_inbound utf8 str hmac loads stamp dump cfg at b (open_session d)
          ≡ (ok (resp, frame), open_session d'))
        × (accept_inbound utf8 str hmac loads stamp dump cfg at' b (open_session d')
            ≡ (ok (resp, none), open_session d'))
  accept_inbound_again at at' b d {resp} {frame} named h =
      let (present, (owner, e, ((m, is_new), f))) =
        accept_inbound_owner at b (open_session d) named h in
      let r = inbound_request at owner b b.client_message_id in
      let w = (send_message dump cfg r (open_session d)).1 in
      let (users, again) = sent_again at at' owner b b.client_message_id d f in
      let one =
        accept_inbound_ok at b (open_session d) w owner m is_new named present e (pair_eq _ f) in
      let two =
        accept_inbound_ok at' b (open_session w.work) (open_session w.work) owner m false named
          present (ap (λ us. first (select is_manager us)) users ∙ e) again in
      let answer = ap (λ x. x.0) (sym one) ∙ h in
      (
        w.work,
        one ∙ ap (λ x. (x, open_session w.work)) answer,
        two ∙ ap (λ i. (ok (i, none), open_session w.work)) (same_response answer),
      )

  -- A signed request with its fields, in a request's database session.
  get_db-accepted :
      (at : Arrival) (r : InboundRequest) (b : InboundBody) (d : Db)
      → loads r.raw_body ≡ fields b
      → is_signed utf8 str hmac loads stamp dump cfg at.current_time r ≡ true
      → get_db (receive_inbound_webhook utf8 str hmac loads stamp dump cfg at r) d
        ≡ get_db (accept_inbound utf8 str hmac loads stamp dump cfg at b) d
  unfolding get_db receive_inbound_webhook
  get_db-accepted at r b d read signed = rw (read, signed) refl

  -- A signed request that carries a client identifier and was answered: when it comes again, still
  -- within the tolerance, it gets the same answer, nothing is broadcast, and the committed database
  -- stays as it was.
  pub receive_inbound_webhook_again :
      (at at' : Arrival) (r : InboundRequest) (b : InboundBody) (d : Db) {resp : InboundResponse}
      {frame : Option Frame}
      → loads r.raw_body ≡ fields b
      → is_empty b.client_message_id ≡ false
      → is_signed utf8 str hmac loads stamp dump cfg at'.current_time r ≡ true
      → (get_db (receive_inbound_webhook utf8 str hmac loads stamp dump cfg at r) d).0
        ≡ ok (resp, frame)
      → let d' = (get_db (receive_inbound_webhook utf8 str hmac loads stamp dump cfg at r) d).1 in
        get_db (receive_inbound_webhook utf8 str hmac loads stamp dump cfg at' r) d'
        ≡ (ok (resp, none), d')
  receive_inbound_webhook_again at at' r b d {resp} {frame} read named signed h =
      elim (Bool-cases (is_signed utf8 str hmac loads stamp dump cfg at.current_time r)) [
        | inl ok_then ↦
            let first = get_db-accepted at r b d read ok_then in
            let (d', one, two) = accept_inbound_again at at' b d named (
              get_db_returns (accept_inbound utf8 str hmac loads stamp dump cfg at b) d
                (resp, frame) (ap (λ x. x.0) (sym first) ∙ h)) in
            let after = first ∙ get_db_ok _ d d' (resp, frame) one in
            subst
              (λ x.
                get_db (receive_inbound_webhook utf8 str hmac loads stamp dump cfg at' r) x
                ≡ (ok (resp, none), x))
              (sym (ap (λ x. x.1) after))
              (get_db-accepted at' r b d' read signed ∙ get_db_ok _ d' d' (resp, none) two)
        | inr bad ↦
            absurd (err-ok (ap (λ x. x.0) (sym (receive_inbound_webhook-refuses at r d bad)) ∙ h))
      ]
