-- ===== src/Outcome.antt =====
-- What a call of the Rust code can come to: a value, an `anyhow` error with its chain of causes
-- (the outermost context first), or a panic. Values that the code formats into a message are left
-- out of the text.
use sanzu.Prelude.{String, List, ◌∷◌, ◌≡◌, refl, arith}

pub data Outcome {ℓ} (A : Type ℓ) : Type ℓ where
  ok : A → Outcome A
  err : List String → Outcome A
  panic : String → Outcome A

-- `.context(text)`
abbrev pub context {ℓ} : {A : Type ℓ} → String → Outcome A → Outcome A
context text (ok a) = ok a
context text (err chain) = err (text ∷ chain)
context text (panic why) = panic why

-- An effect on a state `S` that may fail; what happened before the failure stays.
abbrev pub Io {ℓ} : Type ℓ → Type ℓ → Type ℓ
Io S A = S → Outcome A × S

module _ {ℓ} {S A : Type ℓ} where
  abbrev pub pure : A → Io S A
  pure a s = (ok a, s)

  abbrev pub fail : List String → Io S A
  fail chain s = (err chain, s)

  abbrev pub in_context : String → Io S A → Io S A
  in_context text m s = let (r, s') = m s in (context text r, s')

module _ {ℓ} {S A B : Type ℓ} where
  abbrev pub continue : Outcome A → (A → Io S B) → Io S B
  continue (ok a) f s = f a s
  continue (err chain) f s = (err chain, s)
  continue (panic why) f s = (panic why, s)

  infixl 5 ◌>>=◌ ◌>>◌
  abbrev pub ◌>>=◌ : Io S A → (A → Io S B) → Io S B
  ◌>>=◌ m f s = let (r, s') = m s in continue r f s'

  abbrev pub ◌>>◌ : Io S A → Io S B → Io S B
  m >> n = m >>= λ _. n

-- What holds of the state on every way out of the rest holds on every way out.
pub continue-keeps {ℓ} :
    {S A B : Type ℓ} (P : S → Type ℓ) (r : Outcome A) (f : A → Io S B) (s : S)
    → P s
    → ((a : A) → P (f a s).1)
    → P (continue r f s).1
continue-keeps P (ok a) f s h k = k a
continue-keeps P (err chain) f s h k = h
continue-keeps P (panic why) f s h k = h

-- What every step of a chain keeps, the chain keeps.
pub bind-keeps {ℓ} :
    {S A B : Type ℓ} (P : S → Type ℓ) (m : Io S A) (f : A → Io S B) (s : S)
    → P (m s).1
    → ((a : A) (t : S) → P t → P (f a t).1)
    → P ((m >>= f) s).1
bind-keeps P m f s h k = continue-keeps P (m s).0 f (m s).1 h (λ a. k a (m s).1 h)

module _ {S A : Type 0} where
  -- No panic, and `P` of a value and the state after it.
  abbrev pub Safe : (A → S → Type 0) → Outcome A × S → Type 0
  Safe P (ok a, s) = P a s
  Safe P (err chain, s) = Unit
  Safe P (panic why, s) = ⊥

Safe-continue :
    {S A B : Type 0} (P : A → S → Type 0) (Q : B → S → Type 0) (r : Outcome A) (f : A → Io S B)
    (s : S)
    → Safe P (r, s)
    → ((a : A) → P a s → Safe Q (f a s))
    → Safe Q (continue r f s)
Safe-continue P Q (ok a) f s h k = k a h
Safe-continue P Q (err chain) f s h k = tt
Safe-continue P Q (panic why) f s h k = absurd h

-- A safe step before a rest that is safe from where it leads.
pub Safe-bind :
    {S A B : Type 0} (P : A → S → Type 0) (Q : B → S → Type 0) (m : Io S A) (f : A → Io S B) (s : S)
    → Safe P (m s)
    → ((a : A) (t : S) → P a t → Safe Q (f a t))
    → Safe Q ((m >>= f) s)
Safe-bind P Q m f s h k = Safe-continue P Q (m s).0 f (m s).1 h (λ a. k a (m s).1)

pub Safe-context :
    {S A : Type 0} (P : A → S → Type 0) (text : String) (r : Outcome A) (s : S)
    → Safe P (r, s)
    → Safe P (context text r, s)
Safe-context P text (ok a) s h = h
Safe-context P text (err chain) s h = tt
Safe-context P text (panic why) s h = h

-- A step that keeps `Q`, where the rest need only be known from the value and the state it gives.
pub continue-here :
    {S A B : Type 0} (Q : S → Type 0) (r : Outcome A) (f : A → Io S B) (s : S)
    → Q s
    → ((a : A) → r ≡ ok a → Q (f a s).1)
    → Q (continue r f s).1
continue-here Q (ok a) f s h k = k a refl
continue-here Q (err chain) f s h k = h
continue-here Q (panic why) f s h k = h

-- A value at the end comes from a value on the way.
pub continue-ok :
    {S A B : Type 0} (r : Outcome A) (f : A → Io S B) (s t : S) (b : B)
    → continue r f s ≡ (ok b, t)
    → (a : A) × (r ≡ ok a) × (f a s ≡ (ok b, t))
continue-ok (ok a) f s t b e = (a, refl, e)
continue-ok (err chain) f s t b e = ground (arith, e)
continue-ok (panic why) f s t b e = ground (arith, e)

module _ {S A : Type 0} where
  -- `P` of the value, if there is one.
  abbrev pub Yields : (A → Type 0) → Outcome A × S → Type 0
  Yields P (ok a, s) = P a
  Yields P (err chain, s) = Unit
  Yields P (panic why, s) = Unit

Yields-continue :
    {S A B : Type 0} (P : A → Type 0) (Q : B → Type 0) (r : Outcome A) (f : A → Io S B) (s : S)
    → Yields P (r, s)
    → ((a : A) → P a → Yields Q (f a s))
    → Yields Q (continue r f s)
Yields-continue P Q (ok a) f s h k = k a h
Yields-continue P Q (err chain) f s h k = tt
Yields-continue P Q (panic why) f s h k = tt

pub Yields-bind :
    {S A B : Type 0} (P : A → Type 0) (Q : B → Type 0) (m : Io S A) (f : A → Io S B) (s : S)
    → Yields P (m s)
    → ((a : A) (t : S) → P a → Yields Q (f a t))
    → Yields Q ((m >>= f) s)
Yields-bind P Q m f s h k = Yields-continue P Q (m s).0 f (m s).1 h (λ a. k a (m s).1)

Yields-any : {S A : Type 0} (x : Outcome A × S) → Yields (λ _. Unit) x
Yields-any (ok a, s) = tt
Yields-any (err chain, s) = tt
Yields-any (panic why, s) = tt

-- Nothing is known of the first value.
pub Yields-then :
    {S A B : Type 0} (Q : B → Type 0) (m : Io S A) (f : A → Io S B) (s : S)
    → ((a : A) (t : S) → Yields Q (f a t))
    → Yields Q ((m >>= f) s)
Yields-then Q m f s k = Yields-bind (λ _. Unit) Q m f s (Yields-any (m s)) (λ a t _. k a t)

pub Yields-map :
    {S A : Type 0} (P Q : A → Type 0) (x : Outcome A × S)
    → ((a : A) → P a → Q a)
    → Yields P x
    → Yields Q x
Yields-map P Q (ok a, s) k h = k a h
Yields-map P Q (err chain, s) k h = tt
Yields-map P Q (panic why, s) k h = tt

-- The equation of a value comes with the value.
pub Yields-value : {S A : Type 0} (r : Outcome A) (s : S) → Yields (λ a. r ≡ ok a) (r, s)
Yields-value (ok a) s = refl
Yields-value (err chain) s = tt
Yields-value (panic why) s = tt

pub Yields-context :
    {S A : Type 0} (P : A → Type 0) (text : String) (r : Outcome A) (s : S)
    → Yields P (r, s)
    → Yields P (context text r, s)
Yields-context P text (ok a) s h = h
Yields-context P text (err chain) s h = tt
Yields-context P text (panic why) s h = tt

module _ {S A : Type 0} where
  -- A value, of which `P` holds with the state after it: no error and no panic.
  abbrev pub Ends : (A → S → Type 0) → Outcome A × S → Type 0
  Ends P (ok a, s) = P a s
  Ends P (err chain, s) = ⊥
  Ends P (panic why, s) = ⊥

Ends-continue :
    {S A B : Type 0} (P : A → S → Type 0) (Q : B → S → Type 0) (r : Outcome A) (f : A → Io S B)
    (s : S)
    → Ends P (r, s)
    → ((a : A) → P a s → Ends Q (f a s))
    → Ends Q (continue r f s)
Ends-continue P Q (ok a) f s h k = k a h
Ends-continue P Q (err chain) f s h k = absurd h
Ends-continue P Q (panic why) f s h k = absurd h

pub Ends-bind :
    {S A B : Type 0} (P : A → S → Type 0) (Q : B → S → Type 0) (m : Io S A) (f : A → Io S B) (s : S)
    → Ends P (m s)
    → ((a : A) (t : S) → P a t → Ends Q (f a t))
    → Ends Q ((m >>= f) s)
Ends-bind P Q m f s h k = Ends-continue P Q (m s).0 f (m s).1 h (λ a. k a (m s).1)

-- The value of the first is not used.
pub Ends-then :
    {S A B : Type 0} (P Q : S → Type 0) (m : Io S A) (n : Io S B) (s : S)
    → Ends (λ _. P) (m s)
    → ((t : S) → P t → Ends (λ _. Q) (n t))
    → Ends (λ _. Q) ((m >> n) s)
Ends-then P Q m n s h k = Ends-bind (λ _. P) (λ _. Q) m (λ _. n) s h (λ _. k)

pub Ends-map :
    {S : Type 0} (P Q : S → Type 0) (x : Outcome (Unit {0}) × S)
    → ((s : S) → P s → Q s)
    → Ends (λ _. P) x
    → Ends (λ _. Q) x
Ends-map P Q (ok u, s) k h = k s h
Ends-map P Q (err chain, s) k h = absurd h
Ends-map P Q (panic why, s) k h = absurd h
