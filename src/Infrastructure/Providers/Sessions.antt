-- ===== src/Infrastructure/Providers/Sessions.antt =====
-- When the SMTP and the Firebase provider deliver.
use notifyfork.Common.{String, ◌≡◌, ◌↔◌, refl, Option, none, some}
use notifyfork.Python.Dict.{Dict}
use notifyfork.Python.Int.{ℤ}
use notifyfork.Python.Result.{ok}
use notifyfork.Python.Template.{Str}
use notifyfork.Domain.Template.{NotificationTemplate}
use notifyfork.Infrastructure.Providers.Delivers.{
  Delivers, not-Delivers_failed, not-Delivers_raised, Delivers-succeeded, sends_iff,
}
use notifyfork.Infrastructure.Providers.Smtp.{
  HtmlMessage, SmtpReply, done, smtp_error, other_error, Smtp, and_then, after_quit, read_smtp,
  smtp_message, in_session, send_smtp, smtp_provider,
}
use notifyfork.Infrastructure.Providers.Firebase.{
  PushMessage, PushReply, message_id, firebase_error, read_firebase, push_message,
  firebase_provider, ensure_app,
}
use notifyfork.Infrastructure.Providers.Firebase

read_smtp_iff :
    (reply : SmtpReply) (o : Option String)
    → Delivers (read_smtp reply) o ↔ ((reply ≡ done) × (none ≡ o))
unfolding read_smtp
read_smtp_iff done o =
    (λ d. (refl, (Delivers-succeeded _ _ o).0 d), λ (same, h). (Delivers-succeeded _ _ o).1 h)
read_smtp_iff (smtp_error text) o = (λ d. absurd (not-Delivers_failed _ _ o d), λ (same, h). cc)
read_smtp_iff (other_error e) o = (λ d. absurd (not-Delivers_raised e o d), λ (same, h). cc)

read_firebase_iff :
    (reply : PushReply) (o : Option String)
    → Delivers (read_firebase reply) o ↔ ((id : String) × (reply ≡ message_id id) × (some id ≡ o))
unfolding read_firebase
read_firebase_iff (message_id id) o = (
  λ d. (id, refl, (Delivers-succeeded _ _ o).0 d),
  λ (k, same, h). (Delivers-succeeded _ _ o).1 cc,
)
read_firebase_iff (firebase_error text) o =
    (λ d. absurd (not-Delivers_failed _ _ o d), λ (k, same, h). cc)
read_firebase_iff (Firebase.other_error e) o =
    (λ d. absurd (not-Delivers_raised e o d), λ (k, same, h). cc)

and_then-eq-done :
    {X : Type 0} (r : SmtpReply × X) (next : X → SmtpReply × X)
    → ((and_then r next).0 ≡ done) ↔ ((r.0 ≡ done) × ((next r.1).0 ≡ done))
unfolding and_then
and_then-eq-done (done, x) next = (λ h. (refl, h), λ (a, h). h)
and_then-eq-done (smtp_error text, x) next = (λ h. cc, λ (a, h). cc)
and_then-eq-done (other_error e, x) next = (λ h. cc, λ (a, h). cc)

after_quit-eq-done :
    (body left : SmtpReply) → (after_quit body left ≡ done) ↔ ((body ≡ done) × (left ≡ done))
unfolding after_quit
after_quit-eq-done body done = (λ h. (h, refl), λ (h, a). h)
after_quit-eq-done body (smtp_error text) = (λ h. cc, λ (h, a). cc)
after_quit-eq-done body (other_error e) = (λ h. cc, λ (h, a). cc)

module _ {X : Type 0} (smtp : Smtp X) (host : String) (port : ℤ)
    (username password from_email : String) where
  -- The session went well: each call, in this order, returned.
  pub record GoesThrough (m : HtmlMessage) (x : X) : Type 0 where
    pub connected : (smtp.connect host port x).0 ≡ done
    pub logged_in : (smtp.login username password (smtp.connect host port x).1).0 ≡ done
    pub sent :
        (smtp.sendmail from_email m.to m
          (smtp.login username password (smtp.connect host port x).1).1).0
        ≡ done
    pub left :
        (smtp.quit
          (and_then
            (smtp.login username password (smtp.connect host port x).1)
            (smtp.sendmail from_email m.to m)).1).0
        ≡ done

  send_smtp-eq-done :
      (m : HtmlMessage) (x : X)
      → ((send_smtp smtp host port username password from_email m x).0 ≡ done) ↔ GoesThrough m x
  unfolding send_smtp in_session
  send_smtp-eq-done m x = (
    λ h.
        let (connected, h1) = (and_then-eq-done (smtp.connect host port x) _).0 h in
        let (body, left) = (after_quit-eq-done _ _).0 h1 in
        let (logged_in, sent) =
          (and_then-eq-done (smtp.login username password (smtp.connect host port x).1) _).0 body in
        record { connected = connected; logged_in = logged_in; sent = sent; left = left },
    λ g. (and_then-eq-done (smtp.connect host port x) _).1 (
      g.connected,
      (after_quit-eq-done _ _).1 (
        (and_then-eq-done (smtp.login username password (smtp.connect host port x).1) _).1
            (g.logged_in, g.sent),
        g.left,
      ),
    ),
  )

  -- The SMTP provider delivers exactly when the message can be built and every call of the session
  -- returns, the closing one included, and then without a message id; the Firebase provider exactly
  -- when the message can be built and Firebase answers with the id.
  pub sessions_deliver_iff :
      {V : Type 0} ⦃s : Str V⦄ (push : PushMessage → X → PushReply × X) (recipient : String)
      (template : NotificationTemplate) (context : Dict V) (x : X) (o : Option String)
      → (Delivers
            ((smtp_provider smtp host port username password from_email).send_with_template
              recipient template context x).0
            o
          ↔ ((m : HtmlMessage) × (smtp_message from_email recipient template context ≡ ok m)
              × GoesThrough m x
              × (none ≡ o)))
        × (Delivers ((firebase_provider push).send_with_template recipient template context x).0 o
            ↔ ((m : PushMessage) × (push_message push recipient template context ≡ ok m)
                × ((id : String) × ((push m x).0 ≡ message_id id) × (some id ≡ o))))
  unfolding smtp_provider firebase_provider
  sessions_deliver_iff push recipient template context x o =
      let sends =
        sends_iff (send_smtp smtp host port username password from_email) read_smtp _ read_smtp_iff
          (smtp_message from_email recipient template context) x o in
      (
        (
          λ d.
              let (m, built, (gone, no_id)) = sends.0 d in
              (m, built, (send_smtp-eq-done m x).0 gone, no_id),
          λ (m, built, gone, no_id). sends.1 (m, built, ((send_smtp-eq-done m x).1 gone, no_id)),
        ),
        sends_iff push read_firebase _ read_firebase_iff _ x o,
      )
