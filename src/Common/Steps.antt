-- ===== src/Common/Steps.antt =====
-- Calls that read and change a state outside the program and may fail: a state, then Go's results.
use kube_rsync_machine.Common.Results.{Result, ok, err}

module _ (W : Type 0) (E : Type 0) where
  abbrev pub Steps : Type 0 → Type 0
  Steps A = W → W × Result E A

module _ {W E : Type 0} {A : Type 0} where
  abbrev pub return_value : A → Steps W E A
  return_value a w = (w, ok a)

  abbrev pub fail : E → Steps W E A
  fail e w = (w, err e)

module _ {W E A B : Type 0} where
  abbrev pub after_call : (A → Steps W E B) → Result E A → Steps W E B
  after_call f (ok a) w = f a w
  after_call f (err e) w = (w, err e)

infixl 5 ◌>>=◌
abbrev pub ◌>>=◌ : {W E A B : Type 0} → Steps W E A → (A → Steps W E B) → Steps W E B
(m >>= f) w = let r = m w in after_call f r.1 r.0

-- What follows a call whatever it returns.
abbrev pub either : {W E F A B : Type 0} → Steps W E A → (Result E A → Steps W F B) → Steps W F B
either m f w = let r = m w in f r.1 r.0
