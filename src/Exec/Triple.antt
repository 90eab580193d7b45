-- ===== src/Exec/Triple.antt =====
-- What an action ensures when it returns and when it throws, with a rule for each way to build one.
use hive_chameleon.Prelude.{◌≡◌, refl, Bool, true, false, if◌then◌else◌}
use hive_chameleon.Exec.{
  Result, ok, err, Exec, pure, throw, lift, reads, unless, branch, continue, ◌>>=◌, recover, rescue,
  err_map, failing,
}

unfoldable pub Post :
    {W E A : Type 0} → (A → W → Type 0) → (E → W → Type 0) → Result E A × W → Type 0
Post Q R (ok a, w) = Q a w
Post Q R (err e, w) = R e w

-- From a state with `P`, `m` returns with `Q` or throws with `R`.
pub record Triple {W E A : Type 0} (P : W → Type 0) (m : Exec W E A) (Q : A → W → Type 0)
    (R : E → W → Type 0) : Type 0 where
  pub at : (w : W) → P w → Post Q R (m w)

module _ {W E A : Type 0} {Q : A → W → Type 0} {R : E → W → Type 0} where
  pub Post-mono :
      {Q' : A → W → Type 0} {R' : E → W → Type 0} (x : Result E A × W)
      → ((a : A) (w : W) → Q a w → Q' a w)
      → ((e : E) (w : W) → R e w → R' e w)
      → Post Q R x
      → Post Q' R' x
  unfolding Post
  Post-mono (ok a, w) hq hr p = hq a w p
  Post-mono (err e, w) hq hr p = hr e w p

module _ {W E A : Type 0} {P : W → Type 0} {Q : A → W → Type 0} {R : E → W → Type 0} where
  pub Triple-pure : (a : A) → ((w : W) → P w → Q a w) → Triple P (pure a) Q R
  unfolding pure Post
  Triple-pure a h = record { at = h }

  pub Triple-throw : (e : E) → ((w : W) → P w → R e w) → Triple P (throw e) Q R
  unfolding throw Post
  Triple-throw e h = record { at = h }

  pub Triple-reads : (f : W → A) → ((w : W) → P w → Q (f w) w) → Triple P (reads f) Q R
  unfolding reads Post
  Triple-reads f h = record { at = h }

  pub Triple-branch :
      (b : Bool) (m n : Exec W E A)
      → (b ≡ true → Triple P m Q R)
      → (b ≡ false → Triple P n Q R)
      → Triple P (branch b m n) Q R
  unfolding branch
  Triple-branch true m n hm hn = record { at = (hm refl).at }
  Triple-branch false m n hm hn = record { at = (hn refl).at }

  pub Triple-if :
      (b : Bool) (m n : Exec W E A)
      → (b ≡ true → Triple P m Q R)
      → (b ≡ false → Triple P n Q R)
      → Triple P (if b then m else n) Q R
  Triple-if true m n hm hn = hm refl
  Triple-if false m n hm hn = hn refl

  pub Triple-unless :
      (b : Bool) (e : E) (m : Exec W E A)
      → (b ≡ true → (w : W) → P w → R e w)
      → (b ≡ false → Triple P m Q R)
      → Triple P (unless b e m) Q R
  unfolding unless Post
  Triple-unless true e m ht hf = record { at = ht refl }
  Triple-unless false e m ht hf = record { at = (hf refl).at }

  -- What the precondition says may be used to prove the rule.
  pub Triple-given : (m : Exec W E A) → ((w : W) → P w → Triple P m Q R) → Triple P m Q R
  Triple-given m h = record { at = λ w p. (h w p).at w p }

  -- The state before the action may be named.
  pub Triple-fixed :
      (m : Exec W E A) → ((w₀ : W) → P w₀ → Triple (λ w. w ≡ w₀) m Q R) → Triple P m Q R
  Triple-fixed m h = record { at = λ w p. (h w p).at w refl }

  pub Triple-pre :
      {P' : W → Type 0} (m : Exec W E A) → Triple P m Q R → ((w : W) → P' w → P w) → Triple P' m Q R
  Triple-pre m t h = record { at = λ w p. t.at w (h w p) }

  pub Triple-post :
      {Q' : A → W → Type 0} {R' : E → W → Type 0} (m : Exec W E A)
      → Triple P m Q R
      → ((a : A) (w : W) → Q a w → Q' a w)
      → ((e : E) (w : W) → R e w → R' e w)
      → Triple P m Q' R'
  Triple-post m t hq hr = record { at = λ w p. Post-mono (m w) hq hr (t.at w p) }

module _ {W E A B : Type 0} {Q : A → W → Type 0} {S : B → W → Type 0} {R : E → W → Type 0} where
  Post-continue :
      (x : Result E A × W) (f : A → Exec W E B)
      → ((a : A) → Triple (Q a) (f a) S R)
      → Post Q R x
      → Post S R (continue x.0 f x.1)
  unfolding continue Post
  Post-continue (ok a, w) f hf p = (hf a).at w p
  Post-continue (err e, w) f hf p = p

module _ {W E A B : Type 0} {P : W → Type 0} {Q : A → W → Type 0} {S : B → W → Type 0}
    {R : E → W → Type 0} where
  pub Triple-bind :
      (m : Exec W E A) (f : A → Exec W E B)
      → Triple P m Q R
      → ((a : A) → Triple (Q a) (f a) S R)
      → Triple P (m >>= f) S R
  unfolding ◌>>=◌
  Triple-bind m f hm hf = record { at = λ w p. Post-continue (m w) f hf (hm.at w p) }

module _ {W E A B : Type 0} {P : W → Type 0} {S : B → W → Type 0} {R : E → W → Type 0} where
  pub Triple-bind-lift :
      (r : Result E A) (f : A → Exec W E B)
      → ((a : A) → r ≡ ok a → Triple P (f a) S R)
      → ((e : E) → r ≡ err e → (w : W) → P w → R e w)
      → Triple P (lift r >>= f) S R
  unfolding ◌>>=◌ lift Post
  Triple-bind-lift (ok a) f hf he = record { at = (hf a refl).at }
  Triple-bind-lift (err e) f hf he = record { at = he e refl }

module _ {W E F A : Type 0} {Q : A → W → Type 0} {R : E → W → Type 0} {T : F → W → Type 0} where
  Post-recover :
      (x : Result E A × W) (handler : E → Exec W F A)
      → ((e : E) → Triple (R e) (handler e) Q T)
      → Post Q R x
      → Post Q T (recover handler x.0 x.1)
  unfolding recover Post
  Post-recover (ok a, w) handler hh p = p
  Post-recover (err e, w) handler hh p = (hh e).at w p

module _ {W E F A : Type 0} (Q : A → W → Type 0) {R : E → W → Type 0} (T : F → W → Type 0) where
  Post-err_map :
      (f : E → F) (x : Result E A × W)
      → ((e : E) (w : W) → R e w → T (f e) w)
      → Post Q R x
      → Post Q T (err_map f x.0, x.1)
  unfolding Post
  Post-err_map f (ok a, w) h p = p
  Post-err_map f (err e, w) h p = h e w p

module _ {W E F A : Type 0} {P : W → Type 0} {Q : A → W → Type 0} {R : E → W → Type 0}
    {T : F → W → Type 0} where
  pub Triple-rescue :
      (m : Exec W E A) (handler : E → Exec W F A)
      → Triple P m Q R
      → ((e : E) → Triple (R e) (handler e) Q T)
      → Triple P (rescue m handler) Q T
  unfolding rescue
  Triple-rescue m handler hm hh = record { at = λ w p. Post-recover (m w) handler hh (hm.at w p) }

  pub Triple-failing :
      (f : E → F) (m : Exec W E A)
      → Triple P m Q R
      → ((e : E) (w : W) → R e w → T (f e) w)
      → Triple P (failing f m) Q T
  unfolding failing
  Triple-failing f m hm h = record { at = λ w p. Post-err_map Q T f (m w) h (hm.at w p) }

-- What holds whether the action returns or throws.
pub Post-const :
    {W E A : Type 0} (P : W → Type 0) (r : Result E A) (w : W) → P w → Post (λ a. P) (λ e. P) (r, w)
unfolding Post
Post-const P (ok a) w p = p
Post-const P (err e) w p = p

pub Post-either :
    {W E A : Type 0} (P : W → Type 0) (x : Result E A × W) → Post (λ a. P) (λ e. P) x → P x.1
unfolding Post
Post-either P (ok a, w) p = p
Post-either P (err e, w) p = p

pub Post-result :
    {W E A : Type 0} (P : Result E A → W → Type 0) (x : Result E A × W)
    → Post (λ a. P (ok a)) (λ e. P (err e)) x
    → P x.0 x.1
unfolding Post
Post-result P (ok a, w) p = p
Post-result P (err e, w) p = p

pub Post-cases :
    {W E A : Type 0} (Q : A → W → Type 0) (R : E → W → Type 0) (r : Result E A) (w : W)
    → ((a : A) → r ≡ ok a → Q a w)
    → ((e : E) → r ≡ err e → R e w)
    → Post Q R (r, w)
unfolding Post
Post-cases Q R (ok a) w hq hr = hq a refl
Post-cases Q R (err e) w hq hr = hr e refl

-- An action that keeps `P`, whether it returns or throws.
abbrev pub Keeps : {W E A : Type 0} → (W → Type 0) → Exec W E A → Type 0
Keeps P m = Triple P m (λ a w. P w) (λ e w. P w)
