-- ===== src/Base/Action.antt =====
-- Python code that may raise, in a world that it may change, in monadic form.
use mathlib.Core.Bool.{Bool}
use mathlib.Core.Path.{◌≡◌, refl}
use valve_infra.Base.Tests.{if◌then◌else◌}
use valve_infra.Base.Result.{Result, ok, err, Exception}

-- A call that may raise, in a world that it may change: what it wrote stays written.
abbrev pub Action : Type 0 → Type 0 → Type 0
Action W A = W → Result A × W

module _ {W A : Type 0} where
  abbrev pub pure : A → Action W A
  pure a w = (ok a, w)

  abbrev pub raise : Exception → Action W A
  raise e w = (err e, w)

module _ {W A B : Type 0} where
  abbrev pub continue : Result A → (A → Action W B) → Action W B
  continue (ok a) f w = f a w
  continue (err e) f w = (err e, w)

  infixl 5 ◌>>=◌ ◌>>◌
  abbrev pub ◌>>=◌ : Action W A → (A → Action W B) → Action W B
  ◌>>=◌ m f w = let (r, w') = m w in continue r f w'

  abbrev pub ◌>>◌ : Action W A → Action W B → Action W B
  m >> n = m >>= λ _. n

module _ {W A : Type 0} where
  pub continue-pure : (r : Result A) (w : W) → continue r pure w ≡ (r, w)
  continue-pure (ok a) w = refl
  continue-pure (err e) w = refl

module _ {W A B : Type 0} (f g : A → Action W B) where
  pub continue_ext :
      (r : Result A) (w : W)
      → ((a : A) (w' : W) → f a w' ≡ g a w')
      → continue r f w ≡ continue r g w
  continue_ext (ok a) w h = h a w
  continue_ext (err e) w h = refl

module _ {W A B C : Type 0} (f : A → Action W B) (g : B → Action W C) where
  pub continue_assoc :
      (r : Result A) (w : W)
      → let (r', w') = continue r f w in continue r' g w' ≡ continue r (λ a. f a >>= g) w
  continue_assoc (ok a) w = refl
  continue_assoc (err e) w = refl

-- `try: ... except Exception: handler`, of which only the kind of exception is asked.
module _ {W : Type 0} where
  abbrev pub caught_by :
      (Exception → Bool) → Action W (Unit {0}) → Result (Unit {0}) → Action W (Unit {0})
  caught_by p handler (ok a) w = (ok a, w)
  caught_by p handler (err e) w = if p e then handler w else (err e, w)

  abbrev pub try_except :
      Action W (Unit {0}) → (Exception → Bool) → Action W (Unit {0}) → Action W (Unit {0})
  try_except m p handler w = let (r, w') = m w in caught_by p handler r w'
