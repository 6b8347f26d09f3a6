-- ===== src/Domain/Effects.antt =====
-- Python's exceptions as results, and code that mutates a state and may raise.
use task_platform.Common.{ℕ, Bool, true, false, ◌≡◌, ◌⊎◌, inl, inr, refl, Text}
use task_platform.Domain.Status.{JobStatus}

-- The exceptions that the program raises or catches, each with what a handler reads of it. `system_exit`
-- stands for those that are not an `Exception`; only a job's handler raises it.
pub data Error : Type 0 where
  value_error assertion_error : Error
  invalid_transition : (current target : JobStatus) → Error
  job_not_registered duplicate_job_name : Text → Error
  entity_not_found : Error
  integrity_error key_error : Error
  overflow_error decimal_error : Error
  invalid_message system_exit : Error
  job_canceled handler_timeout handler_error : Text → Error
  queue_error : Error
  api_error : (status_code : ℕ) (code message : Text) → Error

-- Whether `except Exception` lets it pass.
abbrev pub escapes : Error → Bool
escapes system_exit = true
escapes _ = false

pub data Result (A : Type 0) : Type 0 where
  ok : A → Result A
  err : Error → Result A

pub injective_ok : {A : Type 0} {a b : A} → ok a ≡ ok b → a ≡ b
injective_ok h = cc (h)

-- The state outlives an exception.
abbrev pub Action : Type 0 → Type 0 → Type 0
Action S A = S → Result A × S

module _ {A B : Type 0} where
  abbrev pub and_then : Result A → (A → Result B) → Result B
  and_then (ok a) f = f a
  and_then (err e) f = err e

  pub and_then-eq-ok :
      (m : Result A) (f : A → Result B) {b : B}
      → and_then m f ≡ ok b
      → (a : A) × (m ≡ ok a) × (f a ≡ ok b)
  and_then-eq-ok (ok a) f {b} h = (a, refl, h)
  and_then-eq-ok (err e) f {b} h = cc

module _ {S A : Type 0} where
  abbrev pub pure : A → Action S A
  pure a s = (ok a, s)

  abbrev pub raise : Error → Action S A
  raise e s = (err e, s)

  -- A computation that may raise and leaves the state alone.
  abbrev pub lift : Result A → Action S A
  lift r s = (r, s)

  abbrev pub gets : (S → A) → Action S A
  gets f s = (ok (f s), s)

module _ {S : Type 0} where
  abbrev pub modify : (S → S) → Action S Unit
  modify f s = (ok tt, f s)

module _ {S A B : Type 0} where
  abbrev pub continue : Result A → (A → Action S B) → Action S B
  continue (ok a) f = f a
  continue (err e) f = λ s. (err e, s)

  infixl 5 ◌>>=◌ ◌>>◌
  abbrev pub ◌>>=◌ : Action S A → (A → Action S B) → Action S B
  m >>= f = λ s. let (r, s') = m s in continue r f s'

  abbrev pub ◌>>◌ : Action S A → Action S B → Action S B
  m >> n = m >>= λ _. n

  -- Inversion of a sequence that returned.
  pub >>=-eq-ok :
      (m : Action S A) (f : A → Action S B) (s : S) {b : B} {t : S}
      → (m >>= f) s ≡ (ok b, t)
      → (a : A) × (u : S) × (m s ≡ (ok a, u)) × (f a u ≡ (ok b, t))
  >>=-eq-ok m f s {b} {t} h = invert (m s) refl h
    where
      invert :
          (r : Result A × S)
          → m s ≡ r
          → continue r.0 f r.1 ≡ (ok b, t)
          → (a : A) × (u : S) × (m s ≡ (ok a, u)) × (f a u ≡ (ok b, t))
      invert (ok a, u) e h = (a, u, e, h)
      invert (err x, u) e h = cc

  -- Inversion of a sequence that raised.
  pub >>=-eq-err :
      (m : Action S A) (f : A → Action S B) (s : S) {e : Error} {t : S}
      → (m >>= f) s ≡ (err e, t)
      → (m s ≡ (err e, t)) ⊎ ((a : A) × (u : S) × (m s ≡ (ok a, u)) × (f a u ≡ (err e, t)))
  >>=-eq-err m f s {e} {t} h = invert (m s) refl h
    where
      invert :
          (r : Result A × S)
          → m s ≡ r
          → continue r.0 f r.1 ≡ (err e, t)
          → (m s ≡ (err e, t)) ⊎ ((a : A) × (u : S) × (m s ≡ (ok a, u)) × (f a u ≡ (err e, t)))
      invert (ok a, u) g h = inr (a, u, g, h)
      invert (err x, u) g h = inl (cc (g, h))

  -- A property of the state that both steps keep is kept by the sequence.
  pub >>=-keeps :
      (P : S → Type 0) (m : Action S A) (f : A → Action S B) (s : S)
      → P (m s).1
      → ((a : A) (t : S) → P t → P (f a t).1)
      → P ((m >>= f) s).1
  >>=-keeps P m f s p step = go (m s) p
    where
      go : (r : Result A × S) → P r.1 → P (continue r.0 f r.1).1
      go (ok a, t) q = step a t q
      go (err e, t) q = q

module _ {S T A : Type 0} where
  -- An action on a part of the state.
  abbrev pub on_part : (T → S) → (S → T → T) → Action S A → Action T A
  on_part get put m t = let (r, s) = m (get t) in (r, put s t)
