-- ===== src/Prelude/Actions.antt =====
-- Code that reads and changes a state and always returns.

abbrev pub Stateful {ℓ} : Type ℓ → Type ℓ → Type ℓ
Stateful S A = S → A × S

infixl 5 ◌>>=◌ ◌>>◌
abbrev pub ◌>>=◌ {ℓ} : {S A B : Type ℓ} → Stateful S A → (A → Stateful S B) → Stateful S B
◌>>=◌ m f s = let (a, s') = m s in f a s'

abbrev pub ◌>>◌ {ℓ} : {S A B : Type ℓ} → Stateful S A → Stateful S B → Stateful S B
m >> k = m >>= λ _. k

abbrev pub pure {ℓ} : {S A : Type ℓ} → A → Stateful S A
pure a s = (a, s)
