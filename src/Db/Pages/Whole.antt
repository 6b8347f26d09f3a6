-- ===== src/Db/Pages/Whole.antt =====
-- About the pages of infrastructure/db/repositories.py, read one after the other.
use native.Mathlib.Nat.{mod-lt, div-add-mod', add-mul, suc-mul}
use mathlib.Core.Path.{ap₂, subst₂}
use task_platform.Common.{
  map-append, ℕ, zero, suc, ◌+◌, ◌*◌, ◌/◌, ◌%◌, ◌≤◌, ◌≡◌, refl, sym, ap, ◌∙◌, inl, inr, Option,
  List, [], ◌∷◌, ◌++◌, map, reverse, arith, ◌==◌, if◌then◌else◌, ==_iff, Bool-cases, length, take,
  drop, filter, Text,
}
use task_platform.Domain.Status.{JobStatus}
use task_platform.Domain.Effects.{Result, ok, err}
use task_platform.Domain.Execution.{Instant, JobExecution}
use task_platform.Db.Tables.{Database}
use task_platform.Db.Mappers.{record_to_execution}
use task_platform.Db.Pages.{
  Page, total_pages, validate_pagination, page_of, selected, list_executions,
}

module _ {A : Type 0} where
  take_nil : (n : ℕ) → take {A = A} n [] ≡ []
  take_nil zero = refl
  take_nil (suc n) = refl

  take-add : (m n : ℕ) (xs : List A) → take (m + n) xs ≡ take m xs ++ take n (drop m xs)
  take-add zero n xs = ground arith
  take-add (suc m) n [] = take_nil (suc m + n) ∙ sym (take_nil n)
  take-add (suc m) n (x ∷ xs) =
      let e : suc m + n ≡ suc (m + n) = omega arith in
      ap (λ k. take k (x ∷ xs)) e ∙ ap (λ t. x ∷ t) (take-add m n xs)

  take_all : (n : ℕ) (xs : List A) → length xs ≤ n → take n xs ≡ xs
  take_all zero [] h = refl
  take_all zero (x ∷ xs) h = absurd (omega arith)
  take_all (suc n) [] h = refl
  take_all (suc n) (x ∷ xs) h = ap (λ t. x ∷ t) (take_all n xs (omega arith))

  abbrev pub items_of : Result (Page A) → List A
  items_of (ok p) = p.items
  items_of (err e) = []

  -- The items of the pages from 1 to `n`, in order.
  abbrev pub collected : (ℕ → Result (Page A)) → ℕ → List A
  collected get zero = []
  collected get (suc n) = collected get n ++ items_of (get (suc n))

module _ {A B : Type 0} (read : A → B) (page_size : ℕ) (rows : List A) where
  items-page_of :
      (n : ℕ)
      → 1 ≤ page_size
      → items_of (page_of read (suc n) page_size rows)
        ≡ map read (take page_size (drop (n * page_size) rows))
  unfolding validate_pagination
  items-page_of n h = ground arith

  collected-take :
      (n : ℕ)
      → 1 ≤ page_size
      → collected (λ k. page_of read k page_size rows) n ≡ map read (take (n * page_size) rows)
  collected-take zero h =
      let none_yet : 0 ≡ 0 * page_size = omega arith in ap (λ k. map read (take k rows)) none_yet
  collected-take (suc n) h =
      ap₂ ◌++◌ (collected-take n h) (items-page_of n h)
      ∙ sym
          (map-append read (take (n * page_size) rows) (take page_size (drop (n * page_size) rows)))
      ∙ ap (map read) (sym (take-add (n * page_size) page_size rows))
      ∙ ap (λ k. map read (take k rows)) (sym (suc-mul n page_size))

  page_of-ok :
      (page : ℕ) {p : Page B}
      → page_of read page page_size rows ≡ ok p
      → (p.page_size ≡ page_size) × (p.total ≡ length rows) × (1 ≤ page_size)
  unfolding validate_pagination
  page_of-ok page {p} h = ground arith

round_up :
    (total size : ℕ)
    → 1 ≤ size
    → total ≤ (if total % size == 0 then total / size else total / size + 1) * size
round_up total size h = elim (Bool-cases (total % size == 0)) [
  | inl whole ↦ rw whole (omega (arith, div-add-mod' total size, (==_iff (total % size) 0).0 whole))
  | inr part ↦
      rw part
        (omega (arith, div-add-mod' total size, mod-lt total h, add-mul (total / size) 1 size))
]

-- There are enough pages for all rows.
total_pages-page_of :
    {A B : Type 0} (read : A → B) (page page_size : ℕ) (rows : List A) {p : Page B}
    → page_of read page page_size rows ≡ ok p
    → length rows ≤ total_pages p * page_size
unfolding total_pages
total_pages-page_of read page page_size rows {p} h =
    let (size, total, some_size) = page_of-ok read page_size rows page h in
    let some_own : 1 ≤ p.page_size = omega (arith, size, some_size) in
    let rounded = round_up p.total p.page_size some_own in
    let own : p.total ≤ total_pages p * p.page_size = ground (arith, some_own, rounded) in
    subst₂ (λ a b. a ≤ total_pages p * b) total size own

-- The executions on the pages from 1 to the total number of pages that any page reports are exactly
-- the selected ones, the newest first, each once.
pub collected-list_executions :
    (job_id : Option Text) (status : Option JobStatus) (after before : Option Instant)
    (page page_size : ℕ) (db : Database) {p : Page JobExecution}
    → list_executions job_id status after before page page_size db ≡ ok p
    → collected (λ k. list_executions job_id status after before k page_size db) (total_pages p)
      ≡ map record_to_execution
          (reverse (filter (selected job_id status after before) db.executions))
unfolding list_executions
collected-list_executions job_id status after before page page_size db {p} h =
    let rows = reverse (filter (selected job_id status after before) db.executions) in
    let (size, total, some_size) = page_of-ok record_to_execution page_size rows page h in
    collected-take record_to_execution page_size rows (total_pages p) some_size
    ∙ ap (map record_to_execution) (
        take_all (total_pages p * page_size) rows
          (total_pages-page_of record_to_execution page page_size rows h))
