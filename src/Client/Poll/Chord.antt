-- ===== src/Client/Poll/Chord.antt =====
-- When the keys of the shortcuts are down: the tests of `keys_state` in `poll_events` of
-- sanzu/src/client_x11.rs.
use sanzu.Prelude.{
  ◌≡◌, refl, ap, ◌∙◌, sym, ℕ, Bool, true, false, List, some, get_elem?, set, get_elem?-set_ne,
  length, ltb, if-cases, arith, ◌%◌, if◌then◌else◌,
}
use mathlib.Core.Path.{subst}
use sanzu.Outcome.{Outcome, ok, Io, pure, continue-ok, ◌>>=◌}
use sanzu.Client.{Polling, write_key, read_key, chord, change, key_ctrl, key_shift, key_alt, key_c}
use sanzu.Client.Poll.{toggle_stats}

-- Control, shift and alt are down in a table of the keys.
abbrev pub Chorded : List Bool → Type 0
Chorded keys =
    (get_elem? keys key_ctrl ≡ some true)
    × (get_elem? keys key_shift ≡ some true)
    × (get_elem? keys key_alt ≡ some true)

read_key-some :
    (i : ℕ) (p q : Polling) (b : Bool)
    → read_key i p ≡ (ok b, q)
    → (get_elem? p.client.keys_state i ≡ some b) × (p ≡ q)
unfolding read_key
read_key-some i p q b e = ground (arith, e)

read_value :
    (i : ℕ) (p : Polling) (b : Bool)
    → (read_key i p).0 ≡ ok b
    → (get_elem? p.client.keys_state i ≡ some b) × ((read_key i p).1 ≡ p)
read_value i p b e =
    let (value, same) = read_key-some i p (read_key i p).1 b (ap (λ r. (r, (read_key i p).1)) e) in
    (value, sym same)

abbrev if_alt : Bool → Io Polling Bool
if_alt shift = if shift then read_key key_alt else pure false

abbrev if_shift : Bool → Io Polling Bool
if_shift ctrl = if ctrl then (do shift ← read_key key_shift; if_alt shift) else pure false

if_alt-down :
    (shift : Bool) (p q : Polling)
    → if_alt shift p ≡ (ok true, q)
    → (shift ≡ true) × (get_elem? p.client.keys_state key_alt ≡ some true)
if_alt-down true p q e = (refl, (read_key-some key_alt p q true e).0)
if_alt-down false p q e = ground (arith, e)

if_shift-down :
    (ctrl : Bool) (p q : Polling)
    → if_shift ctrl p ≡ (ok true, q)
    → (ctrl ≡ true)
      × (get_elem? p.client.keys_state key_shift ≡ some true)
      × (get_elem? p.client.keys_state key_alt ≡ some true)
if_shift-down true p q e =
    let r = read_key key_shift p in
    let (shift, read, rest) = continue-ok r.0 if_alt r.1 q true e in
    let (value, same) = read_value key_shift p shift read in
    let (on, alt) = if_alt-down shift r.1 q rest in
    (
      refl,
      value ∙ ap some on,
      subst (λ p. get_elem? p.client.keys_state key_alt ≡ some true) same alt,
    )
if_shift-down false p q e = ground (arith, e)

-- The shortcut is seen only if the keys are down.
pub chord-Chorded : (p : Polling) → (chord p).0 ≡ ok true → Chorded p.client.keys_state
unfolding chord
chord-Chorded p e =
    let r = read_key key_ctrl p in
    let whole = chord p in
    let (ctrl, read, rest) = continue-ok r.0 if_shift r.1 whole.1 true (ap (λ o. (o, whole.1)) e) in
    let (value, same) = read_value key_ctrl p ctrl read in
    let (on, shift, alt) = if_shift-down ctrl r.1 whole.1 rest in
    (
      value ∙ ap some on,
      subst (λ p. get_elem? p.client.keys_state key_shift ≡ some true) same shift,
      subst (λ p. get_elem? p.client.keys_state key_alt ≡ some true) same alt,
    )

set-Chorded : (keys : List Bool) → Chorded (set keys key_c true) → Chorded keys
set-Chorded keys (ctrl, shift, alt) = (
  sym (get_elem?-set_ne keys key_c key_ctrl true (λ e. ground (arith, e))) ∙ ctrl,
  sym (get_elem?-set_ne keys key_c key_shift true (λ e. ground (arith, e))) ∙ shift,
  sym (get_elem?-set_ne keys key_c key_alt true (λ e. ground (arith, e))) ∙ alt,
)

write_c-Chorded :
    (p : Polling)
    → Chorded (write_key key_c true p).1.client.keys_state
    → Chorded p.client.keys_state
unfolding write_key change
write_c-Chorded p =
    if-cases
      (λ (r : Outcome (Unit {0}) × Polling).
        Chorded r.1.client.keys_state → Chorded p.client.keys_state)
      (ltb key_c (length p.client.keys_state)) _ _ (λ _. set-Chorded p.client.keys_state)
      (λ _ held. held)

toggle_stats-c : (p : Polling) → (toggle_stats key_c p).1 ≡ p
unfolding toggle_stats
toggle_stats-c p = refl

-- The keys are down before the key C is noted if they are when it is looked for.
pub before_c-Chorded :
    (detail : ℕ) (p : Polling)
    → detail ≡ key_c
    → let q = (write_key (detail % 256) true p).1 in
      Chorded (toggle_stats detail q).1.client.keys_state → Chorded p.client.keys_state
before_c-Chorded detail p is_c =
    subst
      (λ d.
        let q = (write_key (d % 256) true p).1 in
        Chorded (toggle_stats d q).1.client.keys_state → Chorded p.client.keys_state)
      (sym is_c)
      (λ held.
        write_c-Chorded p (
          subst (λ q. Chorded q.client.keys_state) (toggle_stats-c (write_key key_c true p).1)
            held))
