-- ===== src/Db/Tables/Rows.antt =====
-- Lemmas on tables: what a search finds after a row was added or changed.
use task_platform.Common.{
  ℕ, ◌≡◌, refl, Bool, true, false, ◌&&◌, Option, none, some, List, [], ◌∷◌, ◌++◌, arith, ◌==◌,
  if◌then◌else◌, is_some, any, find?, Text, text_eq, text_eq_iff, text_eq_self,
}
use task_platform.Db.Tables.{ExecutionRecord, is_attempt, update_first}

module _ {A : Type 0} where
  abbrev pub map_some : (A → A) → Option A → Option A
  map_some f none = none
  map_some f (some a) = some (f a)

  pub any-eq-find? : (p : A → Bool) (rows : List A) → any p rows ≡ is_some (find? p rows)
  any-eq-find? p [] = refl
  any-eq-find? p (r ∷ rows) = ground (arith, any-eq-find? p rows)

  pub find?-snoc :
      (p : A → Bool) (rows : List A) (r : A)
      → find? p (rows ++ r ∷ [])
        ≡ (if any p rows then find? p rows else if p r then some r else none)
  find?-snoc p [] r = refl
  find?-snoc p (x ∷ rows) r = ground (arith, find?-snoc p rows r)

  pub find?-update_first_self :
      (p : A → Bool) (f : A → A) (rows : List A)
      → ((r : A) → p r ≡ true → p (f r) ≡ true)
      → find? p (update_first p f rows) ≡ map_some f (find? p rows)
  find?-update_first_self p f [] keeps = refl
  find?-update_first_self p f (r ∷ rows) keeps =
      ground (arith, keeps r, find?-update_first_self p f rows keeps)

  -- A change of rows that the search passes by, before and after.
  pub find?-update_first_other :
      (p q : A → Bool) (f : A → A) (rows : List A)
      → ((r : A) → p r ≡ true → (q r ≡ false) × (q (f r) ≡ false))
      → find? q (update_first p f rows) ≡ find? q rows
  find?-update_first_other p q f [] apart = refl
  find?-update_first_other p q f (r ∷ rows) apart =
      ground (arith, apart r, find?-update_first_other p q f rows apart)

  pub find?-sound : (p : A → Bool) (rows : List A) {r : A} → find? p rows ≡ some r → p r ≡ true
  find?-sound p [] e = cc
  find?-sound p (x ∷ rows) {r} e = ground (arith, find?-sound p rows {r = r})

pub is_attempt_self : (r : ExecutionRecord) → is_attempt r.run_id r.attempt r ≡ true
is_attempt_self r = ground (arith, text_eq_self r.run_id)

-- Two keys that differ select no common row.
pub is_attempt_apart :
    (run_id run_id' : Text) (attempt attempt' : ℕ) (r : ExecutionRecord)
    → (text_eq run_id' run_id && (attempt' == attempt)) ≡ false
    → is_attempt run_id attempt r ≡ true
    → is_attempt run_id' attempt' r ≡ false
is_attempt_apart run_id run_id' attempt attempt' r ne h =
    ground
      (arith, text_eq_iff r.run_id run_id, text_eq_iff r.run_id run_id', text_eq_iff run_id' run_id)

-- Each attempt has one row.
abbrev pub IsKeyed : List ExecutionRecord → Type 0
IsKeyed [] = Unit
IsKeyed (r ∷ rows) = (any (is_attempt r.run_id r.attempt) rows ≡ false) × IsKeyed rows
