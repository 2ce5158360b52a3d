-- ===== src/Prelude/Effects.antt =====
-- Methods that change a state and may fail: what was written before a failure stays written.
use mathlib.Core.List.{List, [], ◌∷◌}
use analytics_hub.Prelude.Results.{Outcome, ok, err}

abbrev pub Effect : Type 0 → Type 0 → Type 0 → Type 0
Effect S E A = S → Outcome A E × S

module _ {S E A : Type 0} where
  abbrev pub pure : A → Effect S E A
  pure a s = (ok a, s)

  abbrev pub raise : E → Effect S E A
  raise e s = (err e, s)

module _ {S E A B : Type 0} where
  abbrev pub continue : Outcome A E → (A → Effect S E B) → Effect S E B
  continue (ok a) f s = f a s
  continue (err e) f s = (err e, s)

  infixl 5 ◌>>=◌ ◌>>◌
  abbrev pub ◌>>=◌ : Effect S E A → (A → Effect S E B) → Effect S E B
  ◌>>=◌ m f s = let (r, s') = m s in continue r f s'

  abbrev pub ◌>>◌ : Effect S E A → Effect S E B → Effect S E B
  m >> n = m >>= λ _. n

-- `for x in xs { body(x)?; }`
module _ {S E A : Type 0} where
  abbrev pub for_each : (A → Effect S E (Unit {0})) → List A → Effect S E (Unit {0})
  for_each body [] s = (ok tt, s)
  for_each body (x ∷ xs) s = continue (body x s).0 (λ _. for_each body xs) (body x s).1
