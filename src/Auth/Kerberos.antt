-- ===== src/Auth/Kerberos.antt =====
-- sanzu-common/src/auth_kerberos.rs on Unix: the exchange of tokens of a server and of a client.
-- The security contexts of the libgssapi crate are parameters.
pub mod Checked
pub mod Ends
use sanzu.Prelude.{
  ℕ, zero, suc, String, Bool, true, false, ◌&&◌, List, [], ◌∷◌, Option, none, some, if◌then◌else◌,
}
use sanzu.Outcome.{Outcome, ok, err, panic, Io, pure, fail, context, in_context, ◌>>=◌, ◌>>◌}
use sanzu.Messages.{EventKerberos}
use sanzu.Messages.Server.{ServerOk}
use sanzu.Messages.Client.{ClientOk}
use sanzu.Principal.{Text, get_username_from_principal}
use sanzu.Proto.Stream.{Stream}
use sanzu.Proto.Events.{Wire, send_server_msg_type, recv_client_msg_type, send_client_msg_type}
use sanzu.Session.Server.{of}
use sanzu.Session.{told_client}
use sanzu.Session.{told_server}

abbrev pub kerberos : ClientOk → Option (List ℕ)
kerberos (ClientOk.kerberos m) = some m.token
kerberos _ = none

-- The flags that are looked at.
pub record CtxFlags : Type 0 where
  pub mutual_flag : Bool
  pub integ_flag : Bool

-- A security context `K`: a step takes the peer's token and gives one for it, if it has one. The
-- principal of the peer is in `source_name`.
pub record Gss (K : Type 0) : Type 0 where
  pub setup : Outcome K
  pub step : K → List ℕ → Outcome (Option (List ℕ)) × K
  pub source_name : K → Outcome Text
  pub flags : K → Outcome CtxFlags

-- The context of a client, whose first step has no token. `info` is what is shown when debug messages
-- are on; when they are off it does not fail.
pub record GssClient (K : Type 0) : Type 0 where
  pub setup : Outcome K
  pub step : K → Option (List ℕ) → Outcome (Option (List ℕ)) × K
  pub info : K → Outcome (Unit {0})
  pub flags : K → Outcome CtxFlags

unfoldable pub check_flags : CtxFlags → Outcome (Unit {0})
check_flags flags =
    if flags.mutual_flag && flags.integ_flag
    then ok tt
    else err ("Kerberos flags not compliant" ∷ [])

abbrev pub is_empty : List ℕ → Bool
is_empty [] = true
is_empty (x ∷ xs) = false

module _ (w : Wire) where
  module _ {K : Type 0} (gss : Gss K) where
    unfoldable pub reply_token : K → Option (List ℕ) → Io Stream (Bool × K)
    reply_token k none = pure (false, k)
    reply_token k (some tok) = do
      send_server_msg_type w (ServerOk.kerberos (record { token = tok }))
      pure (true, k)

    -- The step on a token: is there another round, and with which context?
    unfoldable pub answer_token : K → List ℕ → Io Stream (Bool × K)
    answer_token k token = do
      let (r, k') = gss.step k token
      reply ← told_client w (in_context "Error in server step" (of r))
      reply_token k' reply

    -- One round, and whether there is another.
    unfoldable pub server_round : K → Io Stream (Bool × K)
    server_round k = do
      token ← in_context "Error in recv EventKerberos" (recv_client_msg_type w kerberos)
      if is_empty token then pure (false, k) else answer_token k token

    unfoldable pub then_round :
        Outcome (Bool × K) → Stream → Option (Outcome K × Stream) → Option (Outcome K × Stream)
    then_round (ok (true, k)) t rest = rest
    then_round (ok (false, k)) t rest = some (ok k, t)
    then_round (err chain) t rest = some (err chain, t)
    then_round (panic why) t rest = some (panic why, t)

    -- The context that a round leaves.
    abbrev pub context_of : K → Outcome (Bool × K) → K
    context_of k (ok (more, k')) = k'
    context_of k (err chain) = k
    context_of k (panic why) = k

    -- The rounds on fuel, none if it runs out.
    unfoldable pub server_rounds : ℕ → K → Stream → Option (Outcome K × Stream)
    server_rounds zero k s = none
    server_rounds (suc fuel) k s =
        let (r, t) = server_round k s in then_round r t (server_rounds fuel (context_of k r) t)

    module _ (allowed_realms : List Text) where
      -- Flags and principal of the context that was made.
      unfoldable pub check_client : K → Io Stream Text
      check_client k = do
        name ← in_context "Error in server_ctx info" (of (gss.source_name k))
        flags ← told_client w (in_context "Error in server ctx" (of (gss.flags k)))
        told_client w (of (check_flags flags))
        told_client w (
            in_context "Principal doesnt match realm pattern"
              (of (get_username_from_principal name allowed_realms)))

      unfoldable pub after_rounds : Option (Outcome K × Stream) → Option (Outcome Text × Stream)
      after_rounds none = none
      after_rounds (some (ok k, t)) = some (check_client k t)
      after_rounds (some (err chain, t)) = some (err chain, t)
      after_rounds (some (panic why, t)) = some (panic why, t)

      unfoldable pub begin_rounds : ℕ → Outcome K → Stream → Option (Outcome Text × Stream)
      begin_rounds fuel (ok k) s = after_rounds (server_rounds fuel k s)
      begin_rounds fuel (err chain) s = some (err chain, s)
      begin_rounds fuel (panic why) s = some (panic why, s)

      -- What the server makes of its client; none if the fuel runs out.
      unfoldable pub do_kerberos_client_auth : ℕ → Stream → Option (Outcome Text × Stream)
      do_kerberos_client_auth fuel s =
          let (r, t) =
            told_client w (in_context "Cannot setup server credentials" (of gss.setup)) s in
          begin_rounds fuel r t

  module _ {K : Type 0} (gss : GssClient K) where
    -- The token of the client, or an empty one at its end, and the answer, if it goes on.
    unfoldable pub send_token : Option (List ℕ) → Io Stream (Option (List ℕ))
    send_token none = do
      in_context "Error in send EventKerberos"
          (send_client_msg_type w (ClientOk.kerberos (record { token = [] })))
      pure none
    send_token (some tok) = do
      in_context "Error in send EventKerberos"
          (send_client_msg_type w (ClientOk.kerberos (record { token = tok })))
      answer ← in_context "Error in recv EventKerberos" (recv_client_msg_type w kerberos)
      pure (if is_empty answer then none else some answer)

    unfoldable pub client_round : K → Option (List ℕ) → Io Stream (Option (List ℕ) × K)
    client_round k server_tok = do
      let (r, k') = gss.step k server_tok
      tok ← of r
      answer ← send_token tok
      pure (answer, k')

    unfoldable pub then_answer :
        Outcome (Option (List ℕ) × K)
        → Stream
        → (K → List ℕ → Option (Outcome K × Stream))
        → Option (Outcome K × Stream)
    then_answer (ok (some answer, k)) t rest = rest k answer
    then_answer (ok (none, k)) t rest = some (ok k, t)
    then_answer (err chain) t rest = some (err chain, t)
    then_answer (panic why) t rest = some (panic why, t)

    unfoldable pub client_rounds : ℕ → K → Option (List ℕ) → Stream → Option (Outcome K × Stream)
    client_rounds zero k tok s = none
    client_rounds (suc fuel) k tok s =
        let (r, t) = client_round k tok s in
        then_answer r t (λ k' answer. client_rounds fuel k' (some answer) t)

    unfoldable pub check_server : K → Io Stream (Unit {0})
    check_server k = do
      of (gss.info k)
      flags ← in_context "Error in client ctx flags" (of (gss.flags k))
      told_server w (of (check_flags flags))

    unfoldable pub do_kerberos_server_auth : ℕ → Stream → Option (Outcome (Unit {0}) × Stream)
    do_kerberos_server_auth fuel s = elim gss.setup [
      | err chain ↦ some (err ("Error in setup_client_ctx" ∷ chain), s)
      | panic why ↦ some (panic why, s)
      | ok k ↦ elim (client_rounds fuel k none s) [
        | none ↦ none
        | some (ok k', t) ↦ some (check_server k' t)
        | some (err chain, t) ↦ some (err chain, t)
        | some (panic why, t) ↦ some (panic why, t)
      ]
    ]
