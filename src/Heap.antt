-- ===== src/Heap.antt =====
-- The heaps of scheduler.py and dispatcher.py: `heapq` on entries that are compared by the time of
-- their next run and then by their number. A heap is the list of its entries in the order in which
-- they are popped.
pub mod Entries
pub mod Adds
use task_platform.Common.{
  ℕ, zero, suc, ◌+◌, ◌-◌, ◌*◌, ◌/◌, ◌%◌, ◌^◌, ◌≤◌, ◌<◌, ◌≡◌, refl, sym, ap, ◌∙◌, ◌≢◌, ◌↔◌, ◌⊎◌, inl,
  inr, Bool, true, false, not, ◌&&◌, ◌||◌, Option, none, some, List, [], ◌∷◌, ◌++◌, map, reverse,
  arith, ltb, leb, ◌==◌, if◌then◌else◌, ltb→lt, lt→ltb, leb→le, le→leb, ==_iff, tests, Bool-cases,
  Option-cases, is_some, length, get_last?, take, drop, filter, any, all, find?, All, length-append,
  ℤ, pos, negsuc, pos_part, neg_part, sub_ℕ, ◌+ℤ◌, ◌-ℤ◌, ◌*ℤ◌, ◌≤ℤ◌, ltb_ℤ, +ℤ_parts, -ℤ_parts,
  eq_of_parts, int_laws, Text, codes, text_eq, text_eq_iff, text_eq_self, remove_prefix?, is_space,
  is_blank,
}
use task_platform.Domain.Execution.{
  Instant, Seconds, one_second, JobExecution, new_execution, duration_seconds, JobLog,
}

-- The fields that are not compared are `item`.
pub record Entry (A : Type 0) : Type 0 where
  pub next_run_at : Instant
  pub seq : ℕ
  pub item : A

-- `self._heap` and `self._seq`
pub record Heap (A : Type 0) : Type 0 where
  pub entries : List (Entry A)
  pub next_seq : ℕ

module _ {A : Type 0} where
  abbrev pub empty_heap : Heap A
  empty_heap = record { entries = []; next_seq = 0 }

  abbrev pub is_before : Entry A → Entry A → Bool
  is_before a b =
      ltb a.next_run_at b.next_run_at || ((a.next_run_at == b.next_run_at) && ltb a.seq b.seq)

  unfoldable pub insert : Entry A → List (Entry A) → List (Entry A)
  insert e [] = e ∷ []
  insert e (o ∷ rest) =
      let later = insert e rest in if is_before e o then e ∷ o ∷ rest else o ∷ later

  -- `_push`
  unfoldable pub push : Instant → A → Heap A → Heap A
  unfolding insert
  push next_run_at item h = record {
    entries =
        insert (record { next_run_at = next_run_at; seq = h.next_seq; item = item }) h.entries;
    next_seq = h.next_seq + 1;
  }

  -- The loop that pops while the first entry is due.
  unfoldable pub take_due : Instant → List (Entry A) → List (Entry A) × List (Entry A)
  take_due now [] = ([], [])
  take_due now (e ∷ rest) =
      let (due, later) = take_due now rest in
      if leb e.next_run_at now then (e ∷ due, later) else ([], e ∷ rest)

  unfoldable pub pop_due : Instant → Heap A → List (Entry A) × Heap A
  unfolding take_due
  pop_due now h = let (due, later) = take_due now h.entries in (due, record h { entries = later })

  unfoldable pub peek_next_run_at : Heap A → Option Instant
  peek_next_run_at h = elim h.entries [ [] ↦ none | e ∷ rest ↦ some e.next_run_at ]
