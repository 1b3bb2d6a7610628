-- ===== src/Auth/Pam/Granted.antt =====
-- Whom PAM lets in.
use sanzu.Prelude.{ℕ, zero, suc, ◌≡◌, refl, String, true, false, Option, none, some}
use sanzu.Outcome.{
  Outcome, ok, err, panic, Io, pure, in_context, Yields, Yields-bind, Yields-then, Yields-value,
  Yields-context, Yields-map,
}
use sanzu.Messages.Server.{PamConversation}
use sanzu.Principal.{Text}
use sanzu.Proto.Stream.{Stream}
use sanzu.Proto.Events.{Wire}
use sanzu.Session.Server.{of}
use sanzu.Auth.Pam.{
  Dialogue, Pam, PamReturnCode, ask_echo, ask_blind, tell_user, talk, refuse, session_user,
  open_user, renew, judge, attempts, conclude, do_pam_auth,
}

-- A dialogue can end with a result, for some answers of the user.
abbrev pub EndsWith : {A : Type 0} → Dialogue A → A → Type 0
EndsWith (Dialogue.done a) b = a ≡ b
EndsWith (Dialogue.prompt_echo text k) b = (answer : Option String) × EndsWith (k answer) b
EndsWith (Dialogue.prompt_blind text k) b = (answer : Option String) × EndsWith (k answer) b
EndsWith (Dialogue.info text d) b = EndsWith d b
EndsWith (Dialogue.error text d) b = EndsWith d b

-- An attempt under the name of the service was successful, its session was opened, and it has the
-- user.
pub record Granted {P : Type 0} (pam : Pam P) (pam_name : String) (user : Text) : Type 0 where
  pub start : P
  pub conversing : P
  pub passed : P
  pub begins : pam.with_conversation pam_name start ≡ ok conversing
  pub passes : EndsWith (pam.authenticate conversing) (none, passed)
  pub opens : (pam.open_session passed).0 ≡ ok tt
  pub knows : pam.get_user (pam.open_session passed).1 ≡ ok user

module _ (w : Wire) where
  talk-EndsWith : {A : Type 0} (d : Dialogue A) (s : Stream) → Yields (EndsWith d) (talk w d s)
  unfolding talk
  talk-EndsWith (Dialogue.done a) s = refl
  talk-EndsWith (Dialogue.prompt_echo text k) s =
      let (answer, t) = ask_echo w text s in
      Yields-map (EndsWith (k answer)) _ (talk w (k answer) t) (λ a h. (answer, h))
        (talk-EndsWith (k answer) t)
  talk-EndsWith (Dialogue.prompt_blind text k) s =
      let (answer, t) = ask_blind w text s in
      Yields-map (EndsWith (k answer)) _ (talk w (k answer) t) (λ a h. (answer, h))
        (talk-EndsWith (k answer) t)
  talk-EndsWith (Dialogue.info text d) s =
      Yields-then (EndsWith d) (tell_user w "Error in info send" (PamConversation.info text)) _ s
        (λ _ t. talk-EndsWith d t)
  talk-EndsWith (Dialogue.error text d) s =
      Yields-then (EndsWith d) (tell_user w "Error in err send" (PamConversation.error text)) _ s
        (λ _ t. talk-EndsWith d t)

  refuse-Yields :
      {A : Type 0} (Q : A → Type 0) (text : String) (s : Stream) → Yields Q (refuse w text s)
  unfolding refuse
  refuse-Yields Q text s = tt

  module _ {P : Type 0} (pam : Pam P) (pam_name : String) where
    session_user-knows :
        (r : Outcome (Unit {0})) (p : P) (s : Stream)
        → Yields (λ user. (r ≡ ok tt) × (pam.get_user p ≡ ok user)) (session_user w pam r p, s)
    unfolding session_user
    session_user-knows (ok _) p s = Yields-context _ _ (pam.get_user p) s (
        Yields-map (λ user. pam.get_user p ≡ ok user) _ (pam.get_user p, s) (λ user e. (refl, e))
          (Yields-value (pam.get_user p) s))
    session_user-knows (err chain) p s = tt
    session_user-knows (panic why) p s = tt

    abbrev GrantedIf : Option Text → Type 0
    GrantedIf none = Unit
    GrantedIf (some user) = Granted pam pam_name user

    judge-Granted :
        (again : P → Io Stream (Option Text)) (start conversing passed : P)
        (code : Option PamReturnCode) (s : Stream)
        → ((p : P) (t : Stream) → Yields GrantedIf (again p t))
        → pam.with_conversation pam_name start ≡ ok conversing
        → EndsWith (pam.authenticate conversing) (code, passed)
        → Yields GrantedIf (judge w pam again passed code s)
    unfolding judge open_user
    judge-Granted again start conversing passed none s later begun ends =
        Yields-bind
          (λ user.
            ((pam.open_session passed).0 ≡ ok tt)
            × (pam.get_user (pam.open_session passed).1 ≡ ok user))
          GrantedIf (of (open_user w pam passed)) (λ user. pure (some user)) s
          (session_user-knows (pam.open_session passed).0 (pam.open_session passed).1 s)
          (λ user t h. record {
            start = start;
            conversing = conversing;
            passed = passed;
            begins = begun;
            passes = ends;
            opens = h.0;
            knows = h.1;
          })
    judge-Granted again start conversing passed (some PamReturnCode.new_authtok_reqd) s later begun
          ends =
        Yields-then GrantedIf (renew w pam passed) again s (λ p t. later p t)
    judge-Granted again start conversing passed (some PamReturnCode.auth_err) s later begun ends =
        refuse-Yields GrantedIf "Authentication error" s
    judge-Granted again start conversing passed (some PamReturnCode.user_unknown) s later begun
          ends =
        refuse-Yields GrantedIf "Authentication error" s
    judge-Granted again start conversing passed (some PamReturnCode.other_code) s later begun ends =
        refuse-Yields GrantedIf "Error during pam authentication" s

    attempts-Granted :
        (n : ℕ) (p : P) (s : Stream) → Yields GrantedIf (attempts w pam n pam_name p s)
    unfolding attempts
    attempts-Granted zero p s = tt
    attempts-Granted (suc n) p s =
        Yields-bind (λ p₀. pam.with_conversation pam_name p ≡ ok p₀) GrantedIf
          (in_context "Failed to init PAM client passwd!" (of (pam.with_conversation pam_name p))) _
          s
          (Yields-context _ _ (pam.with_conversation pam_name p) s
            (Yields-value (pam.with_conversation pam_name p) s))
          (λ p₀ t begun.
            Yields-bind (EndsWith (pam.authenticate p₀)) GrantedIf (talk w (pam.authenticate p₀)) _
              t (talk-EndsWith (pam.authenticate p₀) t)
              (λ result u ends.
                judge-Granted (attempts w pam n pam_name) p p₀ result.1 result.0 u
                  (attempts-Granted n) begun ends))

    conclude-Granted :
        (user : Option Text) (s : Stream)
        → GrantedIf user
        → Yields (Granted pam pam_name) (conclude w pam user s)
    unfolding conclude
    conclude-Granted none s h =
        Yields-then (Granted pam pam_name)
          (tell_user w "Error in end send" (PamConversation.end false)) _ s
          (λ _ t. refuse-Yields (Granted pam pam_name) "Pam Authentification failed" t)
    conclude-Granted (some user) s h =
        Yields-then (Granted pam pam_name)
          (tell_user w "Error in end send" (PamConversation.end true)) _ s (λ _ t. h)

    pub do_pam_auth-Granted :
        (p : P) (s : Stream) → Yields (Granted pam pam_name) (do_pam_auth w pam pam_name p s)
    unfolding do_pam_auth
    do_pam_auth-Granted p s =
        Yields-bind GrantedIf (Granted pam pam_name) (attempts w pam 3 pam_name p) (conclude w pam)
          s (attempts-Granted 3 p s) (λ user t h. conclude-Granted user t h)
