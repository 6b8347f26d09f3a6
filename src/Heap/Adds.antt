-- ===== src/Heap/Adds.antt =====
-- How many entries an action on a state with a heap adds, whenever it returns.
use task_platform.Common.{ℕ, ◌+◌, ◌≡◌, refl, sym, ap, ◌∙◌, arith}
use task_platform.Domain.Effects.{Result, ok, Action, pure, lift, ◌>>=◌, >>=-eq-ok}

module _ {W : Type 0} (count : W → ℕ) where
  -- Whenever the action returns, the state counts `n` more.
  abbrev pub Adds : {A : Type 0} → ℕ → Action W A → Type 0
  Adds {A} n m = (d : W) (a : A) (t : W) → m d ≡ (ok a, t) → count t ≡ n + count d

  -- First nothing is added, then `n`.
  pub then-Adds :
      {A B : Type 0} (n : ℕ) (m : Action W A) (f : A → Action W B)
      → Adds 0 m
      → ((a : A) → Adds n (f a))
      → Adds n (m >>= f)
  then-Adds n m f first second d b t h =
      let (a, u, run, rest) = >>=-eq-ok m f d h in
      let one = first d a u run in let two = second a u b t rest in omega (arith, one, two)

  -- First `n` are added, then nothing.
  pub then_keeps :
      {A B : Type 0} (n : ℕ) (m : Action W A) (f : A → Action W B)
      → Adds n m
      → ((a : A) → Adds 0 (f a))
      → Adds n (m >>= f)
  then_keeps n m f first second d b t h =
      let (a, u, run, rest) = >>=-eq-ok m f d h in
      let one = first d a u run in let two = second a u b t rest in omega (arith, one, two)

  pub same_count : {A : Type 0} (m : Action W A) → ((d : W) → count (m d).1 ≡ count d) → Adds 0 m
  same_count m same d a t h =
      let e : count t ≡ count d = ap (λ x. count x.1) (sym h) ∙ same d in omega (arith, e)

  pub pure-Adds : {A : Type 0} (a : A) → Adds 0 (pure a)
  pure-Adds a = same_count (pure a) (λ d. refl)

  pub lift_then :
      {A B : Type 0} (n : ℕ) (r : Result A) (f : A → Action W B)
      → ((a : A) → Adds n (f a))
      → Adds n (lift r >>= f)
  lift_then n r f second = then-Adds n (lift r) f (same_count (lift r) (λ d. refl)) second

  -- Two actions one after the other, when what comes last adds nothing.
  pub both_add :
      {A B C : Type 0} (i j : ℕ) (m : Action W A) (f : A → Action W B) (g : A → B → C)
      → Adds i m
      → ((a : A) → Adds j (f a))
      → Adds (i + j) (m >>= λ a. f a >>= λ b. pure (g a b))
  both_add i j m f g first second d c t h =
      let (a, u, run, rest) = >>=-eq-ok m (λ a. f a >>= λ b. pure (g a b)) d h in
      let (b, v, ran, last) = >>=-eq-ok (f a) (λ b. pure (g a b)) u rest in
      let one = first d a u run in
      let two = second a u b v ran in
      let three : count v ≡ count t = ap (λ x. count x.1) last in omega (arith, one, two, three)
