-- ===== src/Failure/Exec.antt =====
-- Actions that change a state and may raise: what was written before a raise stays written.
use rhombus_ai.Failure.{Failure, Result, ok, err}

abbrev pub Exec : Type 0 → Type 0 → Type 0
Exec W A = W → Result A × W

module _ {W A : Type 0} where
  unfoldable pub pure : A → Exec W A
  pure a w = (ok a, w)

  unfoldable pub raise : Failure → Exec W A
  raise e w = (err e, w)

  unfoldable pub lift : Result A → Exec W A
  lift r w = (r, w)

module _ {W A B : Type 0} where
  abbrev pub resume : Result A → (A → Exec W B) → Exec W B
  resume (ok a) f w = f a w
  resume (err e) f w = (err e, w)

  infixl 10 ◌>>=◌
  -- Unfolding this unfolds `pure`, `raise` and `lift` too.
  unfoldable pub ◌>>=◌ : Exec W A → (A → Exec W B) → Exec W B
  unfolding pure raise lift
  ◌>>=◌ m f w = let (r, w') = m w in resume r f w'

module _ {W B : Type 0} where
  infixl 10 ◌>>◌
  abbrev pub ◌>>◌ : Exec W (Unit {0}) → Exec W B → Exec W B
  m >> n = m >>= λ _. n
