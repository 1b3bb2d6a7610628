-- ===== src/Session/Login.antt =====
-- The login of a client comes to an end.
use sanzu.Prelude.{
  ℕ, zero, suc, ◌<◌, ◌≡◌, ◌≢◌, refl, ap, ap₂, ◌∙◌, String, Bool, true, false, Option, none, some,
  length, arith,
}
use sanzu.Outcome.{Outcome, ok, err, panic, pure, ◌>>=◌, ◌>>◌, in_context, context, continue-ok}
use sanzu.Messages.Server.{PamConversation}
use sanzu.Messages.Client.{ClientOk}
use sanzu.Proto.Stream.{Stream}
use sanzu.Proto.Events.{Wire, recv_server_msg_type, send_client_msg_type, send_client_err_event}
use sanzu.Proto.Shrinks.{
  IsOk, Shrinks, bind-Shrinks, context-IsOk, bind-input, recv_server-Shrinks, send-input,
  send_client-input,
}
use sanzu.Session.{tell_server, told_server}
use sanzu.Session.Server.{of}
use sanzu.Session.Client.{
  ClientInterface, pam_conversation, pam_message, login_round, go_on, converse,
}

context-ok : {A : Type 0} (text : String) (r : Outcome A) (a : A) → context text r ≡ ok a → r ≡ ok a
context-ok text (ok b) a e = e
context-ok text (err chain) a e = ground (arith, e)
context-ok text (panic why) a e = ground (arith, e)

module _ (w : Wire) where
  tell-input : {A : Type 0} (r : Outcome A) (s : Stream) → (tell_server w r s).1.input ≡ s.input
  unfolding tell_server send_client_err_event
  tell-input (ok a) s = refl
  tell-input (err chain) s = send-input w w.client_codec _ s
  tell-input (panic why) s = refl

  answer-input :
      (r : Outcome String) (text : String) (answer : String → ClientOk) (s : Stream)
      → ((do
        name ← told_server w (of r)
        in_context text (send_client_msg_type w (answer name))
        pure false)
          s).1.input
        ≡ s.input
  unfolding told_server
  answer-input r text answer s = bind-input (told_server w (of r)) _ s (tell-input r s) (λ name t.
      bind-input (in_context text (send_client_msg_type w (answer name))) (λ _. pure false) t
        (send_client-input w (answer name) t) (λ _ u. refl))

  answer-goes_on :
      (r : Outcome String) (text : String) (answer : String → ClientOk) (s t : Stream)
      → (do
        name ← told_server w (of r)
        in_context text (send_client_msg_type w (answer name))
        pure false)
          s
        ≢ (ok true, t)
  answer-goes_on r text answer s t e =
      let told = told_server w (of r) s in
      let (name, _, rest) =
        continue-ok told.0
          (λ name. do in_context text (send_client_msg_type w (answer name)); pure false) told.1 t
          true e in
      let sent = in_context text (send_client_msg_type w (answer name)) told.1 in
      let (_, _, last) = continue-ok sent.0 (λ _. pure false) sent.1 t true rest in
      ground (arith, last)

  module _ (user : ClientInterface) where
    pam_message-input :
        (m : Option PamConversation) (s : Stream) → (pam_message w user m s).1.input ≡ s.input
    unfolding pam_message
    pam_message-input none s = refl
    pam_message-input (some (PamConversation.echo text)) s =
        answer-input (user.pam_echo text) "Error in send EventPamUser" ClientOk.pamuser s
    pam_message-input (some (PamConversation.blind text)) s =
        answer-input (user.pam_blind text) "Error in send EventPamPwd" ClientOk.pampwd s
    pam_message-input (some (PamConversation.info text)) s =
        bind-input (of (user.pam_info text)) (λ _. pure false) s refl (λ _ t. refl)
    pam_message-input (some (PamConversation.error text)) s =
        bind-input (of (user.pam_error text)) (λ _. pure false) s refl (λ _ t. refl)
    pam_message-input (some (PamConversation.end granted)) s =
        bind-input (of (user.pam_end granted)) (λ _. pure true) s refl (λ _ t. refl)

    login_round-Shrinks : (s : Stream) → Shrinks s (login_round w user s)
    unfolding login_round
    login_round-Shrinks s =
        bind-Shrinks
          (in_context "Error in recv PamConversation" (recv_server_msg_type w pam_conversation))
          (pam_message w user) s pam_message-input
          (λ there. recv_server-Shrinks w pam_conversation s (
            context-IsOk "Error in recv PamConversation"
              (recv_server_msg_type w pam_conversation s).0 there))

    -- The message read last is the end of the conversation, and the user has taken its verdict.
    pub record Ended (t : Stream) : Type 0 where
      pub before : Stream
      pub granted : Bool
      pub read_last :
          recv_server_msg_type w pam_conversation before
          ≡ (ok (some (PamConversation.end granted)), t)
      pub taken : user.pam_end granted ≡ ok tt

    -- A login that succeeds has ended so.
    abbrev pub EndsLogin : Outcome (Unit {0}) × Stream → Type 0
    EndsLogin (ok _, t) = Ended t
    EndsLogin (err chain, t) = Unit
    EndsLogin (panic why, t) = Unit

    pam_message-last :
        (m : Option PamConversation) (s t : Stream)
        → pam_message w user m s ≡ (ok true, t)
        → (granted : Bool) × (m ≡ some (PamConversation.end granted))
          × (user.pam_end granted ≡ ok tt)
          × (s ≡ t)
    unfolding pam_message
    pam_message-last none s t e = ground (arith, e)
    pam_message-last (some (PamConversation.echo text)) s t e =
        absurd
          (answer-goes_on (user.pam_echo text) "Error in send EventPamUser" ClientOk.pamuser s t e)
    pam_message-last (some (PamConversation.blind text)) s t e =
        absurd
          (answer-goes_on (user.pam_blind text) "Error in send EventPamPwd" ClientOk.pampwd s t e)
    pam_message-last (some (PamConversation.info text)) s t e =
        let (_, _, rest) = continue-ok (user.pam_info text) (λ _. pure false) s t true e in
        ground (arith, rest)
    pam_message-last (some (PamConversation.error text)) s t e =
        let (_, _, rest) = continue-ok (user.pam_error text) (λ _. pure false) s t true e in
        ground (arith, rest)
    pam_message-last (some (PamConversation.end granted)) s t e =
        let (_, taken, rest) = continue-ok (user.pam_end granted) (λ _. pure true) s t true e in
        (granted, refl, taken, cc rest)

    login_round-Ended : (s t : Stream) → login_round w user s ≡ (ok true, t) → Ended t
    unfolding login_round
    login_round-Ended s t e =
        let read = recv_server_msg_type w pam_conversation s in
        let text : String = "Error in recv PamConversation" in
        let (m, got, rest) =
          continue-ok (context text read.0) (pam_message w user) read.1 t true e in
        let (granted, is_end, taken, same) = pam_message-last m read.1 t rest in
        record {
          before = s;
          granted = granted;
          read_last = ap₂ (λ r t. (r, t)) (context-ok text read.0 _ (got ∙ ap ok is_end)) same;
          taken = taken;
        }

    go_on-ends :
        (r : Outcome Bool) (t : Stream) (rest : Option (Outcome (Unit {0}) × Stream))
        → (r ≡ ok true → Ended t)
        → (IsOk r → (x : Outcome (Unit {0}) × Stream) × (rest ≡ some x) × EndsLogin x)
        → (x : Outcome (Unit {0}) × Stream) × (go_on r t rest ≡ some x) × EndsLogin x
    unfolding go_on
    go_on-ends (ok true) t rest last k = (_, refl, last refl)
    go_on-ends (ok false) t rest last k = k tt
    go_on-ends (err chain) t rest last k = (_, refl, tt)
    go_on-ends (panic why) t rest last k = (_, refl, tt)

    -- The login of a client ends, whatever the server sends and whatever the user answers: fuel for
    -- one message more than the bytes that are to come is enough. If it ends with success, the
    -- message read last is the end of the conversation, and the user's interface has taken its
    -- verdict. (The interface may also take a refusal, and then the login succeeds.)
    pub converse-ends :
        (fuel : ℕ) (s : Stream)
        → length s.input < fuel
        → (x : Outcome (Unit {0}) × Stream) × (converse w user fuel s ≡ some x) × EndsLogin x
    unfolding converse
    converse-ends zero s h = absurd (omega (arith, h))
    converse-ends (suc fuel) s h =
        let round = login_round w user s in
        go_on-ends round.0 round.1 (converse w user fuel round.1)
          (λ last. login_round-Ended s round.1 (ap (λ r. (r, round.1)) last))
          (λ there.
            let less = login_round-Shrinks s there in
            converse-ends fuel round.1 (omega (arith, h, less)))
