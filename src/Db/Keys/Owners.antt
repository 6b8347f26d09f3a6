-- ===== src/Db/Keys/Owners.antt =====
-- About IdempotencyRepository of infrastructure/db/repositories.py.
use task_platform.Common.{
  ◌≡◌, refl, inl, inr, true, false, not, none, some, List, [], ◌∷◌, ◌++◌, arith, Bool-cases, filter,
  any, find?, Text, text_eq, text_eq_self, ap, Option,
}
use task_platform.Domain.Effects.{ok}
use task_platform.Domain.Execution.{Instant}
use task_platform.Db.Tables.{JobRecord, IdempotencyRecord, Database}
use task_platform.Db.Keys.{has_key, try_claim, get_run_id, release}

abbrev row_of : Text → Text → Text → Instant → IdempotencyRecord
row_of key job_id run_id now = record {
  key = key;
  job_id = job_id;
  run_id = run_id;
  created_at = now;
}

-- What `get_run_id` reads of the row it finds.
abbrev owner_of : Option IdempotencyRecord → Option Text
owner_of found = elim found [ none ↦ none | some r ↦ some r.run_id ]

-- A row at the end is found if no row before it has its key.
find_last :
    (key : Text) (r : IdempotencyRecord) (rows : List IdempotencyRecord)
    → any (has_key key) rows ≡ false
    → has_key key r ≡ true
    → find? (has_key key) (rows ++ r ∷ []) ≡ some r
find_last key r [] absent own = ground arith
find_last key r (o ∷ rows) absent own = ground (arith, find_last key r rows)

any_last :
    (key : Text) (r : IdempotencyRecord) (rows : List IdempotencyRecord)
    → has_key key r ≡ true
    → any (has_key key) (rows ++ r ∷ []) ≡ true
any_last key r [] own = ground arith
any_last key r (o ∷ rows) own = ground (arith, any_last key r rows)

find_released :
    (key : Text) (rows : List IdempotencyRecord)
    → find? (has_key key) (filter (λ r. not (has_key key r)) rows) ≡ none
find_released key [] = refl
find_released key (o ∷ rows) = elim (Bool-cases (has_key key o)) [
  | inl own ↦ rw own (find_released key rows)
  | inr other ↦ rw other (rw other (find_released key rows))
]

-- The run whose claim of a key won owns the key: it is the one that is read, and a later claim of
-- the key by any run is answered with false and changes nothing.
pub try_claim_first :
    (key job_id other_job run_id other_run : Text) (now later : Instant) (db : Database)
    → (try_claim key job_id run_id now db).0 ≡ ok true
    → (get_run_id key (try_claim key job_id run_id now db).1 ≡ some run_id)
      × (try_claim key other_job other_run later (try_claim key job_id run_id now db).1
          ≡ (ok false, (try_claim key job_id run_id now db).1))
unfolding try_claim get_run_id
try_claim_first key job_id other_job run_id other_run now later db won =
    let r = row_of key job_id run_id now in
    elim (Bool-cases (any (has_key key) db.keys)) [
      | inl taken ↦ cc (won, taken)
      | inr free ↦ elim (Bool-cases (any (λ (j : JobRecord). text_eq j.id job_id) db.jobs)) [
        | inl known ↦ rw free (
            rw known (
              ap owner_of (find_last key r db.keys free (text_eq_self key)),
              rw (any_last key r db.keys (text_eq_self key)) refl,
            ))
        | inr unknown ↦ cc (won, free, unknown)
      ]
    ]

-- A released key has no owner.
pub get_run_id-release : (key : Text) (db : Database) → get_run_id key (release key db).1 ≡ none
unfolding get_run_id release
get_run_id-release key db = ap owner_of (find_released key db.keys)
