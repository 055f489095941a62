-- ===== src/Prelude/Loops.antt =====
-- Code with loops that may not end: `none` stands for a run that never returns. (`Option` is also a
-- nullable pointer; a loop that returns one has both, the run outside.)
use mathlib.Core.Option.{Option, none, some}

infixl 5 ◌>>=◌
abbrev pub ◌>>=◌ {ℓ κ} : {A : Type ℓ} {B : Type κ} → Option A → (A → Option B) → Option B
none >>= f = none
some a >>= f = f a
