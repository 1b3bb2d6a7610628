-- ===== src/Auth/Kerberos/Checked.antt =====
-- Whom Kerberos lets in, and that its exchange ends.
use sanzu.Prelude.{ℕ, ◌≡◌, ◌&&◌, true, if-cases, List, Option, none, some, arith}
use sanzu.Outcome.{
  Outcome, ok, err, panic, in_context, Yields, Yields-bind, Yields-value, Yields-context,
  Yields-map,
}
use sanzu.Principal.{Text, get_username_from_principal}
use sanzu.Proto.Stream.{Stream}
use sanzu.Proto.Events.{Wire}
use sanzu.Session.{told_client}
use sanzu.Session.Server.{of}
use sanzu.Auth.Told.{told_client-Yields}
use sanzu.Auth.Kerberos.{
  Gss, CtxFlags, check_flags, check_client, server_rounds, after_rounds, begin_rounds,
  do_kerberos_client_auth,
}

-- A context whose exchange is protected on both sides names the user, in one of the realms.
pub record Kerberized {K : Type 0} (gss : Gss K) (realms : List Text) (user : Text) : Type 0 where
  pub security_context : K
  pub principal : Text
  pub context_flags : CtxFlags
  pub has_name : gss.source_name security_context ≡ ok principal
  pub has_flags : gss.flags security_context ≡ ok context_flags
  pub is_mutual : context_flags.mutual_flag ≡ true
  pub is_protected : context_flags.integ_flag ≡ true
  pub in_realm : get_username_from_principal principal realms ≡ ok user

check_flags-both :
    (flags : CtxFlags) (s : Stream)
    → Yields
        (λ (_ : Unit {0}). (flags.mutual_flag && flags.integ_flag) ≡ true)
        (check_flags flags, s)
unfolding check_flags
check_flags-both flags s =
    if-cases
      (λ (r : Outcome (Unit {0})).
        Yields (λ (_ : Unit {0}). (flags.mutual_flag && flags.integ_flag) ≡ true) (r, s))
      (flags.mutual_flag && flags.integ_flag) _ _ (λ both. both) (λ _. tt)

module _ (w : Wire) {K : Type 0} (gss : Gss K) (realms : List Text) where
  realm-Kerberized :
      (k : K) (name : Text) (flags : CtxFlags) (s : Stream)
      → gss.source_name k ≡ ok name
      → gss.flags k ≡ ok flags
      → (flags.mutual_flag && flags.integ_flag) ≡ true
      → Yields (Kerberized gss realms) (
          told_client w
            (in_context "Principal doesnt match realm pattern"
              (of (get_username_from_principal name realms)))
            s)
  realm-Kerberized k name flags s named flagged both =
      told_client-Yields w (Kerberized gss realms)
        (in_context "Principal doesnt match realm pattern"
          (of (get_username_from_principal name realms)))
        s
        (Yields-context _ _ (get_username_from_principal name realms) s (
          Yields-map (λ user. get_username_from_principal name realms ≡ ok user) _
            (get_username_from_principal name realms, s)
            (λ user inside. record {
              security_context = k;
              principal = name;
              context_flags = flags;
              has_name = named;
              has_flags = flagged;
              is_mutual = ground (arith, both);
              is_protected = ground (arith, both);
              in_realm = inside;
            })
            (Yields-value (get_username_from_principal name realms) s)))

  check_client-Kerberized :
      (k : K) (s : Stream) → Yields (Kerberized gss realms) (check_client w gss realms k s)
  unfolding check_client
  check_client-Kerberized k s =
      Yields-bind (λ name. gss.source_name k ≡ ok name) (Kerberized gss realms)
        (in_context "Error in server_ctx info" (of (gss.source_name k))) _ s
        (Yields-context _ _ (gss.source_name k) s (Yields-value (gss.source_name k) s))
        (λ name t named.
          Yields-bind (λ flags. gss.flags k ≡ ok flags) (Kerberized gss realms)
            (told_client w (in_context "Error in server ctx" (of (gss.flags k)))) _ t
            (told_client-Yields w _ (in_context "Error in server ctx" (of (gss.flags k))) t
              (Yields-context _ _ (gss.flags k) t (Yields-value (gss.flags k) t)))
            (λ flags u flagged.
              Yields-bind (λ _. (flags.mutual_flag && flags.integ_flag) ≡ true)
                (Kerberized gss realms) (told_client w (of (check_flags flags))) _ u
                (told_client-Yields w _ (of (check_flags flags)) u (check_flags-both flags u))
                (λ _ x both. realm-Kerberized k name flags x named flagged both)))

  abbrev pub KerberizedIf : Option (Outcome Text × Stream) → Type 0
  KerberizedIf none = Unit
  KerberizedIf (some result) = Yields (Kerberized gss realms) result

  after_rounds-Kerberized :
      (rounds : Option (Outcome K × Stream)) → KerberizedIf (after_rounds w gss realms rounds)
  unfolding after_rounds
  after_rounds-Kerberized none = tt
  after_rounds-Kerberized (some (ok k, t)) = check_client-Kerberized k t
  after_rounds-Kerberized (some (err chain, t)) = tt
  after_rounds-Kerberized (some (panic why, t)) = tt

  begin_rounds-Kerberized :
      (fuel : ℕ) (made : Outcome K) (s : Stream)
      → KerberizedIf (begin_rounds w gss realms fuel made s)
  unfolding begin_rounds
  begin_rounds-Kerberized fuel (ok k) s = after_rounds-Kerberized (server_rounds w gss fuel k s)
  begin_rounds-Kerberized fuel (err chain) s = tt
  begin_rounds-Kerberized fuel (panic why) s = tt

  pub client_auth-Kerberized :
      (fuel : ℕ) (s : Stream) → KerberizedIf (do_kerberos_client_auth w gss realms fuel s)
  unfolding do_kerberos_client_auth
  client_auth-Kerberized fuel s =
      begin_rounds-Kerberized fuel
        (told_client w (in_context "Cannot setup server credentials" (of gss.setup)) s).0
        (told_client w (in_context "Cannot setup server credentials" (of gss.setup)) s).1
