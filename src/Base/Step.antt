-- ===== src/Base/Step.antt =====
-- A program that reads and changes a state and may fail: the state it leaves, and its result.
use mathlib.Core.Bool.{Bool, true, false}
use mathlib.Core.Option.{Option, none, some}
use mathlib.Core.Path.{◌≡◌, refl}
use shellbell.Base.Result.{Result, ok, err, map_err}

abbrev pub Step : Type 0 → Type 0 → Type 0 → Type 0
Step S E A = S → S × Result E A

abbrev pub proceed : {S E A B : Type 0} → Result E A → (A → Step S E B) → Step S E B
proceed (ok a) f s = f a s
proceed (err e) f s = (s, err e)

infixl 5 ◌>>=◌ ◌>>◌
unfoldable pub ◌>>=◌ : {S E A B : Type 0} → Step S E A → (A → Step S E B) → Step S E B
◌>>=◌ m f s = proceed (m s).1 f (m s).0

unfoldable pub ◌>>◌ : {S E A B : Type 0} → Step S E A → Step S E B → Step S E B
m >> k = m >>= λ _. k

unfoldable pub pure : {S E A : Type 0} → A → Step S E A
pure a s = (s, ok a)

unfoldable pub fail : {S E A : Type 0} → E → Step S E A
fail e s = (s, err e)

unfoldable pub lift : {S E A : Type 0} → Result E A → Step S E A
lift r s = (s, r)

unfoldable pub require : {S E A : Type 0} → Option A → E → Step S E A
require none e s = (s, err e)
require (some a) e s = (s, ok a)

abbrev pub succeeded : {E A : Type 0} → Result E A → Bool
succeeded (ok a) = true
succeeded (err e) = false

-- Whether a step succeeds: `is_ok()`.
unfoldable pub attempt : {S E A : Type 0} → Step S E A → S → S × Bool
attempt m s = ((m s).0, succeeded (m s).1)

-- The same, with another error.
unfoldable pub map_error : {S E F A : Type 0} → (E → F) → Step S E A → Step S F A
map_error f m s = ((m s).0, map_err f (m s).1)

-- `option.map(f).transpose()`
unfoldable pub traverse : {S E A B : Type 0} → (A → Step S E B) → Option A → Step S E (Option B)
unfolding ◌>>=◌ pure
traverse f none = pure none
traverse f (some a) = do b ← f a; pure (some b)

-- After a step that succeeds, the next one.
pub bind_ok :
    {S E A B : Type 0} (m : Step S E A) (f : A → Step S E B) (s t : S) (a : A)
    → m s ≡ (t, ok a)
    → (m >>= f) s ≡ f a t
unfolding ◌>>=◌
bind_ok m f s t a h = rw h refl
