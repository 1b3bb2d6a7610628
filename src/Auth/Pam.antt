-- ===== src/Auth/Pam.antt =====
-- `do_pam_auth` of sanzu-common/src/auth_pam.rs, with its conversation over the tunnel. PAM is a
-- parameter: what it asks in a conversation is a tree that branches over the answers. Texts are taken
-- to be valid, without a zero inside.
pub mod Granted
use sanzu.Prelude.{
  ℕ, zero, suc, String, Bool, true, false, List, [], ◌∷◌, Option, none, some, if◌then◌else◌,
}
use sanzu.Outcome.{Outcome, ok, err, panic, Io, pure, fail, context, in_context, ◌>>=◌, ◌>>◌}
use sanzu.Messages.Server.{ServerOk, PamConversation}
use sanzu.Messages.Client.{ClientOk}
use sanzu.Principal.{Text}
use sanzu.Proto.Stream.{Stream}
use sanzu.Session.Server.{of}
use sanzu.Proto.Events.{Wire, send_server_msg_type, recv_client_msg_type, send_server_err_event}

abbrev pub pam_user : ClientOk → Option String
pam_user (ClientOk.pamuser user) = some user
pam_user _ = none

abbrev pub pam_password : ClientOk → Option String
pam_password (ClientOk.pampwd password) = some password
pam_password _ = none

-- A call of PAM that talks to the user: it ends with a result, or calls the conversation and goes
-- on with the answer, none if the prompt failed.
pub data Dialogue (A : Type 0) : Type 0 where
  done : A → Dialogue A
  prompt_echo prompt_blind : String → (Option String → Dialogue A) → Dialogue A
  info error : String → Dialogue A → Dialogue A

-- `PamReturnCode`, as far as it is told apart.
pub data PamReturnCode : Type 0 where
  new_authtok_reqd auth_err user_unknown other_code : PamReturnCode

-- The `pam` crate, with a state `P` of the system.
pub record Pam (P : Type 0) : Type 0 where
  pub with_conversation : String → P → Outcome P
  pub authenticate : P → Dialogue (Option PamReturnCode × P)
  pub open_session : P → Outcome (Unit {0}) × P
  pub get_user : P → Outcome Text
  pub change_authentication_token : P → Dialogue (Bool × P)

module _ (w : Wire) where
  unfoldable pub say : PamConversation → Io Stream (Unit {0})
  say msg = send_server_msg_type w (ServerOk.pamconversation (some msg))

  -- What PAM gets for an answer: `map_err(|_| ())`.
  abbrev pub answered : Outcome String → Option String
  answered (ok text) = some text
  answered (err chain) = none
  answered (panic why) = none

  unfoldable pub ask_echo : String → Stream → Option String × Stream
  unfolding say
  ask_echo text s =
      let (r, t) = (do say (PamConversation.echo text); recv_client_msg_type w pam_user) s in
      (answered r, t)

  unfoldable pub ask_blind : String → Stream → Option String × Stream
  unfolding say
  ask_blind text s =
      let (r, t) = (do say (PamConversation.blind text); recv_client_msg_type w pam_password) s in
      (answered r, t)

  -- `.expect(text)`
  abbrev pub expected : {A : Type 0} → String → Outcome A → Outcome A
  expected text (ok a) = ok a
  expected text (err chain) = panic text
  expected text (panic why) = panic why

  unfoldable pub tell_user : String → PamConversation → Io Stream (Unit {0})
  unfolding say
  tell_user failure msg s = let (r, t) = say msg s in (expected failure r, t)

  -- The conversation that a call of PAM leads to.
  unfoldable pub talk : {A : Type 0} → Dialogue A → Io Stream A
  talk (Dialogue.done a) = pure a
  talk (Dialogue.prompt_echo text k) = λ s. let (answer, t) = ask_echo text s in talk (k answer) t
  talk (Dialogue.prompt_blind text k) = λ s. let (answer, t) = ask_blind text s in talk (k answer) t
  talk (Dialogue.info text d) = do
    tell_user "Error in info send" (PamConversation.info text)
    talk d
  talk (Dialogue.error text d) = do
    tell_user "Error in err send" (PamConversation.error text)
    talk d

  -- An error that the client is told of.
  unfoldable pub refuse : {A : Type 0} → String → Io Stream A
  refuse text s = let (chain, t) = send_server_err_event w (text ∷ []) s in (err chain, t)

  module _ {P : Type 0} (pam : Pam P) where
    unfoldable pub session_user : Outcome (Unit {0}) → P → Outcome Text
    session_user (ok _) p = context "Cannot get pam username" (pam.get_user p)
    session_user (err chain) p = err ("Cannot open pam session" ∷ chain)
    session_user (panic why) p = panic why

    -- The session of a user who is authenticated.
    unfoldable pub open_user : P → Outcome Text
    unfolding session_user
    open_user p = let (r, p') = pam.open_session p in session_user r p'

    unfoldable pub renewed : P → Io Stream P
    renewed p = do say (PamConversation.info "User password updated"); pure p

    -- A password that is too old is changed, and then another attempt is made.
    unfoldable pub renew : P → Io Stream P
    renew p = do
      say (PamConversation.info "User needs password update")
      (changed, p') ← talk (pam.change_authentication_token p)
      if changed then renewed p' else fail ("Pam: chauthtok err" ∷ [])

    -- What a result leads to, with what the attempts that are left come to.
    unfoldable pub judge :
        (P → Io Stream (Option Text)) → P → Option PamReturnCode → Io Stream (Option Text)
    judge again p none = do user ← of (open_user p); pure (some user)
    judge again p (some PamReturnCode.new_authtok_reqd) = do p' ← renew p; again p'
    judge again p (some PamReturnCode.auth_err) = refuse "Authentication error"
    judge again p (some PamReturnCode.user_unknown) = refuse "Authentication error"
    judge again p (some PamReturnCode.other_code) = refuse "Error during pam authentication"

    -- The attempts that are left, and the user, if one succeeds.
    unfoldable pub attempts : ℕ → String → P → Io Stream (Option Text)
    attempts zero pam_name p = pure none
    attempts (suc n) pam_name p = do
      p₀ ← in_context "Failed to init PAM client passwd!" (of (pam.with_conversation pam_name p))
      (code, p₁) ← talk (pam.authenticate p₀)
      judge (attempts n pam_name) p₁ code

    unfoldable pub conclude : Option Text → Io Stream Text
    conclude none = do
      tell_user "Error in end send" (PamConversation.end false)
      refuse "Pam Authentification failed"
    conclude (some user) = do tell_user "Error in end send" (PamConversation.end true); pure user

    unfoldable pub do_pam_auth : String → P → Io Stream Text
    do_pam_auth pam_name p = do user ← attempts 3 pam_name p; conclude user
