-- ===== src/Client/Poll/Shortcuts.antt =====
-- The shortcuts of `press_key` on the keys that are down.
use sanzu.Prelude.{
  ℕ, ◌<◌, ◌≡◌, refl, Bool, true, false, not, List, some, length, get_elem?, arith, Bool-cases, inl,
  inr, ◌==◌, zero, suc, [], ◌∷◌,
}
use sanzu.Outcome.{ok, Io}
use sanzu.Client.{
  ClientInfo, Polling, read_key, chord, key_ctrl, key_shift, key_alt, key_s, key_c, change,
}
use sanzu.Client.Poll.{toggle_stats, trig_clipboard}

get_elem?-some :
    (keys : List Bool) (i : ℕ) → i < length keys → (b : Bool) × (get_elem? keys i ≡ some b)
get_elem?-some [] i h = elim h [ ]
get_elem?-some (k ∷ keys) zero h = (k, refl)
get_elem?-some (k ∷ keys) (suc i) h = get_elem?-some keys i (omega arith)

read_key-eq :
    (i : ℕ) (p : Polling) → i < length p.client.keys_state → (b : Bool) × (read_key i p ≡ (ok b, p))
unfolding read_key
read_key-eq i p h =
    let (b, e) = get_elem?-some p.client.keys_state i h in (b, rw (e, read_key) refl)

-- With all keys in the table, the shortcut is read without a panic.
pub chord-eq : (p : Polling) → length p.client.keys_state ≡ 256 → (b : Bool) × (chord p ≡ (ok b, p))
unfolding chord
chord-eq p sized =
    let (ctrl, c) = read_key-eq key_ctrl p (omega arith) in
    let (shift, s) = read_key-eq key_shift p (omega arith) in
    let (alt, a) = read_key-eq key_alt p (omega arith) in
    elim (Bool-cases ctrl) [
      | inl on ↦ elim (Bool-cases shift) [
        | inl on' ↦ (alt, rw (c, on, s, on', a) refl)
        | inr off' ↦ (false, rw (c, on, s, off') refl)
      ]
      | inr off ↦ (false, rw (c, off) refl)
    ]

-- A value, without a panic, and the client changed in other than its keys.
pub record Quiet (m : Io Polling Bool) (p : Polling) : Type 0 where
  pub value : Bool
  pub client : ClientInfo
  pub result : m p ≡ (ok value, record p { client = client })
  pub same : client.keys_state ≡ p.client.keys_state

pub toggle_stats-Quiet :
    (detail : ℕ) (p : Polling) → length p.client.keys_state ≡ 256 → Quiet (toggle_stats detail) p
unfolding toggle_stats change
toggle_stats-Quiet detail p sized =
    let (down, c) = chord-eq p sized in
    elim (Bool-cases (detail == key_s)) [
      | inl is_s ↦ elim (Bool-cases down) [
        | inl on ↦ record {
          value = true;
          client = record p.client { display_stats = not p.client.display_stats };
          result = rw (is_s, c, on) refl;
          same = refl;
        }
        | inr off ↦ record {
          value = false;
          client = p.client;
          result = rw (is_s, c, off) refl;
          same = refl;
        }
      ]
      | inr other ↦ record {
        value = false;
        client = p.client;
        result = rw (other) refl;
        same = refl;
      }
    ]

pub trig_clipboard-Quiet :
    (detail : ℕ) (p : Polling) → length p.client.keys_state ≡ 256 → Quiet (trig_clipboard detail) p
unfolding trig_clipboard change
trig_clipboard-Quiet detail p sized =
    let (down, c) = chord-eq p sized in
    elim (Bool-cases (detail == key_c)) [
      | inl is_c ↦ elim (Bool-cases down) [
        | inl on ↦ record {
          value = true;
          client = record p.client { clipbard_trig = true };
          result = rw (is_c, c, on) refl;
          same = refl;
        }
        | inr off ↦ record {
          value = false;
          client = p.client;
          result = rw (is_c, c, off) refl;
          same = refl;
        }
      ]
      | inr other ↦ record {
        value = false;
        client = p.client;
        result = rw (other) refl;
        same = refl;
      }
    ]
