-- ===== src/Auth/Certificate.antt =====
-- The name in a certificate: `get_subj_alt_names` of sanzu-common/src/tls_helper.rs, and what
-- `auth_client` of sanzu/src/server.rs and of the broker does with it.
use sanzu.Prelude.{ℕ, List, [], ◌∷◌, Option, none, some}
use sanzu.Outcome.{Outcome, ok, err, panic, context}
use sanzu.Principal.{Text, get_username_from_principal}

-- What is told apart of `GeneralName` and of `ParsedExtension`.
pub data GeneralName : Type 0 where
  rfc822_name : Text → GeneralName
  other_name : GeneralName

pub data Extension : Type 0 where
  subject_alternative_name : List GeneralName → Extension
  other_extension : Extension

-- One name of an extension, with the name that was found before.
unfoldable pub next_name : Option Text → GeneralName → Outcome (Option Text)
next_name found GeneralName.other_name = ok found
next_name none (GeneralName.rfc822_name email) = ok (some email)
next_name (some before) (GeneralName.rfc822_name email) =
    err ("Unsupported multiple subject alternative name" ∷ [])

unfoldable pub scan_names : Outcome (Option Text) → List GeneralName → Outcome (Option Text)
unfolding next_name
scan_names found [] = found
scan_names (ok found) (name ∷ names) = scan_names (next_name found name) names
scan_names (err chain) (name ∷ names) = err chain
scan_names (panic why) (name ∷ names) = panic why

unfoldable pub scan_extensions : Outcome (Option Text) → List Extension → Outcome (Option Text)
unfolding scan_names
scan_extensions found [] = found
scan_extensions found (Extension.other_extension ∷ rest) = scan_extensions found rest
scan_extensions found (Extension.subject_alternative_name names ∷ rest) =
    scan_extensions (scan_names found names) rest

unfoldable pub found_name : Outcome (Option Text) → Outcome Text
found_name (ok (some email)) = ok email
found_name (ok none) = err ("No subject alternative name found" ∷ [])
found_name (err chain) = err chain
found_name (panic why) = panic why

-- The extensions of the certificate, in their order.
unfoldable pub get_subj_alt_names : List Extension → Outcome Text
unfolding scan_extensions found_name
get_subj_alt_names extensions = found_name (scan_extensions (ok none) extensions)

unfoldable pub last_of {ℓ} : {A : Type ℓ} → List A → Option A
last_of [] = none
last_of (x ∷ []) = some x
last_of (x ∷ y ∷ rest) = last_of (y ∷ rest)

-- `X509Certificate::from_der` of a certificate of a peer.
module _ (from_der : List ℕ → Outcome (List Extension)) where
  unfoldable pub user_of_name : List Text → Outcome Text → Outcome Text
  user_of_name domains (ok name) =
      context "Principal doesnt match realm pattern" (get_username_from_principal name domains)
  user_of_name domains (err chain) = err ("Error in get subject alternative name" ∷ chain)
  user_of_name domains (panic why) = panic why

  unfoldable pub user_of_certificate : List Text → Outcome (List Extension) → Outcome Text
  unfolding user_of_name get_subj_alt_names
  user_of_certificate domains (ok extensions) = user_of_name domains (get_subj_alt_names extensions)
  user_of_certificate domains (err chain) = err ("Error in X509Certificate from der" ∷ chain)
  user_of_certificate domains (panic why) = panic why

  -- The user that the last of the peer's certificates names.
  unfoldable pub certified_user : List Text → Option (List (List ℕ)) → Outcome Text
  unfolding user_of_certificate last_of
  certified_user domains none = err ("No cert from user" ∷ [])
  certified_user domains (some certs) = elim (last_of certs) [
    | none ↦ err ("No cert from user" ∷ [])
    | some cert ↦ user_of_certificate domains (from_der cert)
  ]
