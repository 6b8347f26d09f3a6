-- ===== src/Heap/Entries.antt =====
-- How many entries of a kind a heap has, whatever their times and numbers.
use task_platform.Common.{ℕ, ◌+◌, ◌≡◌, refl, Bool, List, [], ◌∷◌, arith, if◌then◌else◌}
use task_platform.Domain.Execution.{Instant}
use task_platform.Db.Tables.{count_where}
use task_platform.Heap.{Entry, insert, take_due}

module _ {A : Type 0} (test : A → Bool) where
  -- The number of the entries whose item passes the test.
  abbrev pub count_items : List (Entry A) → ℕ
  count_items entries = count_where (λ e. test e.item) entries

  pub count_items-insert :
      (e : Entry A) (entries : List (Entry A))
      → count_items (insert e entries) ≡ (if test e.item then 1 else 0) + count_items entries
  unfolding insert
  count_items-insert e [] = ground arith
  count_items-insert e (o ∷ rest) = ground (arith, count_items-insert e rest)

  pub count_items-take_due :
      (now : Instant) (entries : List (Entry A))
      → count_items (take_due now entries).0 + count_items (take_due now entries).1
        ≡ count_items entries
  unfolding take_due
  count_items-take_due now [] = refl
  count_items-take_due now (e ∷ rest) = ground (arith, count_items-take_due now rest)
