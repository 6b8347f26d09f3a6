-- ===== src/Common/Dict.antt =====
-- Python's `dict`: keys in the order of insertion, each once. Assigning to a present key keeps its
-- place.
use mathlib.Core.Bool.{Bool, true, false}
use mathlib.Core.List.{List, [], ◌∷◌, ◌++◌, map}
use mathlib.Core.Logic.{◌↔◌, inl, inr}
use mathlib.Core.Option.{Option, none, some}
use mathlib.Core.Path.{◌≡◌, refl, ap}
use native.Mathlib.Omega.{arith}
use Prim.Native.Nat.{ℕ, ◌+◌}
use task_platform.Common.Tests.{if◌then◌else◌, ◌==◌, ==_iff, is_some, Bool-cases}
use task_platform.Common.Lists.{length, any}
use task_platform.Common.Texts.{Text, text_eq, text_eq_iff}

pub record Key (K : Type 0) : Type 0 where
  pub beq : K → K → Bool
  pub beq_iff : (a b : K) → (beq a b ≡ true) ↔ (a ≡ b)

instance abbrev pub text_key : Key Text
text_key = record { beq = text_eq; beq_iff = text_eq_iff }

instance abbrev pub nat_key : Key ℕ
nat_key = record { beq = ◌==◌; beq_iff = ==_iff }

abbrev pub Dict : Type 0 → Type 0 → Type 0
Dict K V = List (K × V)

module _ {K V : Type 0} ⦃k : Key K⦄ where
  -- `d.get(key)`
  unfoldable pub get : Dict K V → K → Option V
  get [] key = none
  get ((j, v) ∷ d) key = if k.beq j key then some v else get d key

  -- `d[key] = value`
  unfoldable pub put : Dict K V → K → V → Dict K V
  put [] key v = (key, v) ∷ []
  put ((j, w) ∷ d) key v =
      let rest = put d key v in if k.beq j key then (j, v) ∷ d else (j, w) ∷ rest

  -- `d.pop(key, None)`, the dict that is left. A key is there once.
  unfoldable pub pop : Dict K V → K → Dict K V
  pop [] key = []
  pop ((j, v) ∷ d) key = let rest = pop d key in if k.beq j key then rest else (j, v) ∷ rest

  unfoldable pub has : Dict K V → K → Bool
  unfolding get
  has d key = is_some (get d key)

  pub get-cons :
      (d : Dict K V) (a b : K) (v : V)
      → get ((a, v) ∷ d) b ≡ (if k.beq a b then some v else get d b)
  unfolding get
  get-cons d a b v = refl

  pub get-put :
      (d : Dict K V) (a b : K) (v : V) → get (put d a v) b ≡ (if k.beq a b then some v else get d b)
  unfolding get put
  get-put [] a b v = refl
  get-put ((j, w) ∷ d) a b v =
      ground (arith, k.beq_iff a b, k.beq_iff j a, k.beq_iff j b, get-put d a b v)

  pub get-pop : (d : Dict K V) (a b : K) → get (pop d a) b ≡ (if k.beq a b then none else get d b)
  unfolding get pop
  get-pop [] a b = ground arith
  get-pop ((j, w) ∷ d) a b =
      ground (arith, k.beq_iff a b, k.beq_iff j a, k.beq_iff j b, get-pop d a b)

  -- Each key once.
  abbrev pub IsDict : Dict K V → Type 0
  IsDict [] = Unit
  IsDict ((j, v) ∷ d) = (get d j ≡ none) × IsDict d

  pub put-IsDict : (d : Dict K V) (a : K) (v : V) → IsDict d → IsDict (put d a v)
  unfolding get put
  put-IsDict [] a v h = (refl, tt)
  put-IsDict ((j, w) ∷ d) a v h = elim (Bool-cases (k.beq j a)) [
    | inl e ↦ rw e h
    | inr e ↦
        rw e
          (ground (arith, get-put d a j v, k.beq_iff a j, k.beq_iff j a, h.0), put-IsDict d a v h.1)
  ]

  pub pop-IsDict : (d : Dict K V) (a : K) → IsDict d → IsDict (pop d a)
  unfolding get pop
  pop-IsDict [] a h = tt
  pop-IsDict ((j, w) ∷ d) a h = elim (Bool-cases (k.beq j a)) [
    | inl e ↦ rw e (pop-IsDict d a h.1)
    | inr e ↦ rw e (ground (arith, get-pop d a j, h.0), pop-IsDict d a h.1)
  ]

  pub pop_absent : (d : Dict K V) (a : K) → get d a ≡ none → pop d a ≡ d
  unfolding get pop
  pop_absent [] a h = refl
  pop_absent ((j, w) ∷ d) a h = ground (arith, pop_absent d a)

  -- Popping a present key takes one entry off.
  pub length-pop :
      (d : Dict K V) (a : K) → IsDict d → has d a ≡ true → length (pop d a) + 1 ≡ length d
  unfolding get pop has
  length-pop [] a h p = cc
  length-pop ((j, w) ∷ d) a h p = elim (Bool-cases (k.beq j a)) [
    | inl e ↦ ground (arith, pop_absent d a, k.beq_iff j a, h.0)
    | inr e ↦ ground (arith, length-pop d a h.1)
  ]

  abbrev pub keys : Dict K V → List K
  keys d = map (λ e. e.0) d

  pub put_absent : (d : Dict K V) (a : K) (v : V) → get d a ≡ none → put d a v ≡ d ++ (a, v) ∷ []
  unfolding get put
  put_absent [] a v h = refl
  put_absent ((j, w) ∷ d) a v h = ground (arith, put_absent d a v)

  pub keys-put :
      (d : Dict K V) (a : K) (v : V) → has d a ≡ false → keys (put d a v) ≡ keys d ++ a ∷ []
  unfolding has get put
  keys-put [] a v h = refl
  keys-put ((j, w) ∷ d) a v h = elim (Bool-cases (k.beq j a)) [
    | inl e ↦ cc (h, e)
    | inr e ↦ rw e (ap (λ ks. j ∷ ks) (keys-put d a v (ground arith)))
  ]

  pub keys-put_present : (d : Dict K V) (a : K) (v : V) → has d a ≡ true → keys (put d a v) ≡ keys d
  unfolding has get put
  keys-put_present [] a v h = cc
  keys-put_present ((j, w) ∷ d) a v h = elim (Bool-cases (k.beq j a)) [
    | inl e ↦ rw e refl
    | inr e ↦ rw e (ap (λ ks. j ∷ ks) (keys-put_present d a v (ground arith)))
  ]

  pub any-keys : (d : Dict K V) (a : K) → any (λ j. k.beq j a) (keys d) ≡ has d a
  unfolding has get
  any-keys [] a = refl
  any-keys ((j, w) ∷ d) a = ground (arith, any-keys d a)

  pub ruleset dict_laws = (get-put, get-pop)
