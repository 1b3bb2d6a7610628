-- ===== src/Auth/Kerberos/Ends.antt =====
-- The exchange of Kerberos tokens ends on the side of the server.
use sanzu.Prelude.{
  ℕ, suc, zero, ◌<◌, ◌≡◌, refl, Bool, true, false, if-cases, List, length, Option, none, some,
  arith,
}
use sanzu.Outcome.{Outcome, ok, err, panic, Io, pure, in_context}
use sanzu.Messages.Server.{ServerOk}
use sanzu.Proto.Stream.{Stream}
use sanzu.Proto.Events.{Wire, recv_client_msg_type, send_server_msg_type, send_server_err_event}
use sanzu.Proto.Shrinks.{
  IsOk, Shrinks, bind-Shrinks, context-IsOk, bind-input, recv_client-Shrinks, send-input,
  send_server-input,
}
use sanzu.Session.{told_client, tell_client}
use sanzu.Session.Server.{of}
use sanzu.Auth.Kerberos.{
  Gss, kerberos, is_empty, reply_token, answer_token, server_round, then_round, context_of,
  server_rounds,
}

module _ (w : Wire) where
  tell-input : {A : Type 0} (r : Outcome A) (s : Stream) → (tell_client w r s).1.input ≡ s.input
  unfolding tell_client send_server_err_event
  tell-input (ok a) s = refl
  tell-input (err chain) s = send-input w w.server_codec _ s
  tell-input (panic why) s = refl

  module _ {K : Type 0} (gss : Gss K) where
    reply-input :
        (k : K) (reply : Option (List ℕ)) (s : Stream)
        → (reply_token w gss k reply s).1.input ≡ s.input
    unfolding reply_token
    reply-input k none s = refl
    reply-input k (some tok) s =
        bind-input (send_server_msg_type w (ServerOk.kerberos (record { token = tok })))
          (λ _. pure (true, k)) s (send_server-input w _ s) (λ _ t. refl)

    answer-input :
        (k : K) (token : List ℕ) (s : Stream) → (answer_token w gss k token s).1.input ≡ s.input
    unfolding answer_token told_client
    answer-input k token s =
        bind-input (told_client w (in_context "Error in server step" (of (gss.step k token).0)))
          (reply_token w gss (gss.step k token).1) s (tell-input _ s)
          (λ reply t. reply-input (gss.step k token).1 reply t)

    server_round-Shrinks : (k : K) (s : Stream) → Shrinks s (server_round w gss k s)
    unfolding server_round
    server_round-Shrinks k s =
        bind-Shrinks (in_context "Error in recv EventKerberos" (recv_client_msg_type w kerberos)) _
          s
          (λ token t.
            if-cases (λ (m : Io Stream (Bool × K)). (m t).1.input ≡ t.input) (is_empty token) _ _
              (λ _. refl) (λ _. answer-input k token t))
          (λ there. recv_client-Shrinks w kerberos s (
            context-IsOk "Error in recv EventKerberos" (recv_client_msg_type w kerberos s).0 there))

    then_round-ends :
        (r : Outcome (Bool × K)) (t : Stream) (rest : Option (Outcome K × Stream))
        → (IsOk r → (x : Outcome K × Stream) × (rest ≡ some x))
        → (x : Outcome K × Stream) × (then_round w gss r t rest ≡ some x)
    unfolding then_round
    then_round-ends (ok (true, k)) t rest h = h tt
    then_round-ends (ok (false, k)) t rest h = (_, refl)
    then_round-ends (err chain) t rest h = (_, refl)
    then_round-ends (panic why) t rest h = (_, refl)

    -- Whatever the client sends and whatever the contexts answer, the server comes to the end of the
    -- exchange: fuel for one round more than the bytes that are to come is enough.
    pub server_rounds-end :
        (fuel : ℕ) (k : K) (s : Stream)
        → length s.input < fuel
        → (x : Outcome K × Stream) × (server_rounds w gss fuel k s ≡ some x)
    unfolding server_rounds
    server_rounds-end zero k s h = absurd (omega (arith, h))
    server_rounds-end (suc fuel) k s h =
        then_round-ends (server_round w gss k s).0 (server_round w gss k s).1 _ (λ there.
          let less = server_round-Shrinks k s there in
          server_rounds-end fuel (context_of w gss k (server_round w gss k s).0)
            (server_round w gss k s).1 (omega (arith, h, less)))
