-- ===== src/Exec.antt =====
-- Asynchronous methods that change shared state and may throw: what was written before a throw
-- stays written, so the state comes back beside the error.
pub mod Triple
use hive_chameleon.Prelude.{◌≡◌, refl, Bool, true, false, arith}

pub data Result {ℓ κ} (E : Type ℓ) (A : Type κ) : Type (ℓ ⊔ κ) where
  ok : A → Result E A
  err : E → Result E A

infixl 5 ◌>>=?◌
-- A chain of pure functions that may throw.
abbrev pub ◌>>=?◌ {ℓ κ η} :
    {E : Type ℓ} {A : Type κ} {B : Type η} → Result E A → (A → Result E B) → Result E B
ok a >>=? f = f a
err e >>=? f = err e

pub bind_ok :
    {E A B : Type 0} (m : Result E A) (f : A → Result E B) (b : B)
    → (m >>=? f) ≡ ok b
    → (a : A) × (m ≡ ok a) × (f a ≡ ok b)
bind_ok (ok a) f b h = (a, refl, h)
bind_ok (err e) f b h = absurd (ground (arith, h))

abbrev pub Exec : Type 0 → Type 0 → Type 0 → Type 0
Exec W E A = W → Result E A × W

module _ {W E A : Type 0} where
  unfoldable pub pure : A → Exec W E A
  pure a w = (ok a, w)

  unfoldable pub throw : E → Exec W E A
  throw e w = (err e, w)

  unfoldable pub lift : Result E A → Exec W E A
  lift r w = (r, w)

  unfoldable pub reads : (W → A) → Exec W E A
  reads f w = (ok (f w), w)

  -- `if (test) { throw e; }` before the rest of a method.
  unfoldable pub unless : Bool → E → Exec W E A → Exec W E A
  unless true e m w = (err e, w)
  unless false e m w = m w

  -- `if (test) { m } else { n }` between two actions.
  unfoldable pub branch : Bool → Exec W E A → Exec W E A → Exec W E A
  branch true m n w = m w
  branch false m n w = n w

module _ {W E A B : Type 0} where
  unfoldable pub continue : Result E A → (A → Exec W E B) → Exec W E B
  continue (ok a) f w = f a w
  continue (err e) f w = (err e, w)

  infixl 5 ◌>>=◌ ◌>>◌
  unfoldable pub ◌>>=◌ : Exec W E A → (A → Exec W E B) → Exec W E B
  unfolding continue
  ◌>>=◌ m f w = let (r, w') = m w in continue r f w'

  abbrev pub ◌>>◌ : Exec W E A → Exec W E B → Exec W E B
  m >> n = m >>= λ _. n

abbrev pub err_map : {E F A : Type 0} → (E → F) → Result E A → Result F A
err_map f (ok a) = ok a
err_map f (err e) = err (f e)

-- `try { m } catch (error) { handler }`.
module _ {W E F A : Type 0} where
  unfoldable pub recover : (E → Exec W F A) → Result E A → Exec W F A
  recover handler (ok a) w = (ok a, w)
  recover handler (err e) w = handler e w

  unfoldable pub rescue : Exec W E A → (E → Exec W F A) → Exec W F A
  unfolding recover
  rescue m handler w = let (r, w') = m w in recover handler r w'

  -- An action whose error is kept in another form.
  unfoldable pub failing : (E → F) → Exec W E A → Exec W F A
  failing f m w = let (r, w') = m w in (err_map f r, w')

-- An action on a part of the state.
module _ {W V E A : Type 0} where
  unfoldable pub focus : (W → V) → (V → W → W) → Exec V E A → Exec W E A
  focus get set m w = let (r, v) = m (get w) in (r, set v w)
