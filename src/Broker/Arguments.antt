-- ===== src/Broker/Arguments.antt =====
-- The arguments of the program that the broker calls, all tokens at once.
use sanzu.Prelude.{
  ◌≡◌, ◌≢◌, refl, ap₂, String, false, same, same_iff, Bool-cases, inl, inr, List, [], ◌∷◌,
  if◌then◌else◌, arith,
}
use sanzu.Broker.{
  replace_source, callback_args, token_username, token_client_addr, token_unix_socket_path,
}

-- One argument.
abbrev pub substituted : (username addr socket_path arg : String) → String
substituted username addr socket_path arg =
    if same arg token_username
    then username
    else if same arg token_client_addr
    then addr
    else if same arg token_unix_socket_path
    then socket_path
    else arg

abbrev pub substituted_each : (username addr socket_path : String) → List String → List String
substituted_each username addr socket_path [] = []
substituted_each username addr socket_path (arg ∷ args) =
    substituted username addr socket_path arg ∷ substituted_each username addr socket_path args

same-false : (s t : String) → s ≢ t → same s t ≡ false
same-false s t ne = elim (Bool-cases (same s t)) [
  | inl equal ↦ absurd (ne ((same_iff s t).0 equal))
  | inr other ↦ other
]

-- One argument, one token after the other.
abbrev in_turn : (username addr socket_path arg : String) → String
in_turn username addr socket_path arg =
    let once = if same arg token_username then username else arg in
    let twice = if same once token_client_addr then addr else once in
    if same twice token_unix_socket_path then socket_path else twice

module _ (username addr socket_path : String) where
  in_turn-substituted :
      (arg : String)
      → username ≢ token_client_addr
      → username ≢ token_unix_socket_path
      → addr ≢ token_unix_socket_path
      → in_turn username addr socket_path arg ≡ substituted username addr socket_path arg
  in_turn-substituted arg user_addr user_path addr_path = ground (
    arith,
    same-false username token_client_addr user_addr,
    same-false username token_unix_socket_path user_path,
    same-false addr token_unix_socket_path addr_path,
  )

  -- The three replacements, made one after the other, are one replacement of all three tokens, if
  -- the user name is none of the two later tokens and the client's address is not the last one.
  pub callback_args-substituted :
      (args : List String)
      → username ≢ token_client_addr
      → username ≢ token_unix_socket_path
      → addr ≢ token_unix_socket_path
      → callback_args args username addr socket_path
        ≡ substituted_each username addr socket_path args
  unfolding callback_args replace_source
  callback_args-substituted [] user_addr user_path addr_path = refl
  callback_args-substituted (arg ∷ args) user_addr user_path addr_path =
      ap₂ ◌∷◌ (in_turn-substituted arg user_addr user_path addr_path)
        (callback_args-substituted args user_addr user_path addr_path)
