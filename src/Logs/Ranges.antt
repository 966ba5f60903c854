-- ===== src/Logs/Ranges.antt =====
-- The half-open range of the job's log that a step covers.
use github_mcp.Prelude.{
  String, Option, ℕ, List, Bool, ◌∷◌, ◌≤◌, ◌≡◌, [], arith, some, Bool-cases, inl, subst, inr, ◌<◌,
  ◌==◌, true, false, str_eq_refl, refl,
}
use github_mcp.Table.{find, update}
use github_mcp.Schema.{ℤ}
use github_mcp.Logs.{
  LogDb, clamped_end, last_offset, Step, job_chunks, by_step, StepEnd, finished_step,
}

-- Every step's range starts no later than it ends, within the log of its job.
abbrev pub AreRanges : (total : String → ℕ) → List Step → Type 0
AreRanges total [] = Unit
AreRanges total (x ∷ xs) =
    (x.log_start_offset ≤ x.log_end_offset)
    × (x.log_end_offset ≤ total x.job_id)
    × AreRanges total xs

abbrev pub total_of : LogDb → String → ℕ
total_of s job_id = last_offset (job_chunks job_id s)

pub AreRanges-mono :
    (f g : String → ℕ) (xs : List Step)
    → ((k : String) → f k ≤ g k)
    → AreRanges f xs
    → AreRanges g xs
AreRanges-mono f g [] h v = tt
AreRanges-mono f g (x ∷ xs) h v =
    let le = h x.job_id in (v.0, omega (arith, v.1, le), AreRanges-mono f g xs h v.2)

clamped_end-bounds :
    (o : Option ℤ) (start total : ℕ)
    → start ≤ total
    → (start ≤ clamped_end o start total) × (clamped_end o start total ≤ total)
unfolding clamped_end
clamped_end-bounds o start total h = ground arith

found_range :
    (f : String → ℕ) (p : Step → Bool) (xs : List Step) (row : Step)
    → AreRanges f xs
    → find p xs ≡ some row
    → row.log_start_offset ≤ f row.job_id
unfolding find
found_range f p [] row v h = cc
found_range f p (x ∷ xs) row v h = elim (Bool-cases (p x)) [
  | inl e ↦
      let same : x ≡ row = ground arith in
      subst (λ (y : Step). y.log_start_offset ≤ f y.job_id) same (omega (arith, v.0, v.1))
  | inr e ↦ found_range f p xs row v.2 (ground arith)
]

-- The identifiers of steps fall, from below `n`.
abbrev pub AreNumbered : ℕ → List Step → Type 0
AreNumbered n [] = Unit
AreNumbered n (x ∷ xs) = (x.id < n) × AreNumbered x.id xs

found_number :
    (n : ℕ) (p : Step → Bool) (xs : List Step) (row : Step)
    → AreNumbered n xs
    → find p xs ≡ some row
    → row.id < n
unfolding find
found_number n p [] row v h = cc
found_number n p (x ∷ xs) row v h = elim (Bool-cases (p x)) [
  | inl e ↦ let same : x ≡ row = ground arith in subst (λ (y : Step). y.id < n) same v.0
  | inr e ↦ let below = found_number x.id p xs row v.1 (ground arith) in omega (arith, below, v.0)
]

pub AreNumbered-update :
    (n : ℕ) (p : Step → Bool) (f : Step → Step) (xs : List Step)
    → ((x : Step) → (f x).id ≡ x.id)
    → AreNumbered n xs
    → AreNumbered n (update p f xs)
unfolding update
AreNumbered-update n p f [] h v = tt
AreNumbered-update n p f (x ∷ xs) h v =
    let rest = AreNumbered-update x.id p f xs h v.1 in
    elim (Bool-cases (p x)) [ inl e ↦ rw (e, h x) (v.0, rest) | inr e ↦ rw e (v.0, rest) ]

update-later :
    (n k : ℕ) (job_id : String) (f : Step → Step) (xs : List Step)
    → AreNumbered n xs
    → n ≤ k
    → update (by_step k job_id) f xs ≡ xs
unfolding update
update-later n k job_id f [] v h = refl
update-later n k job_id f (x ∷ xs) v h =
    let rest = update-later x.id k job_id f xs v.1 (omega (arith, v.0)) in
    let apart : (x.id == k) ≡ false = ground (arith, v.0) in rw (apart, rest) refl

head_range :
    (f : String → ℕ) (e : StepEnd) (now : ℕ) (row : Step) (xs : List Step)
    → AreNumbered row.id xs
    → AreRanges f (row ∷ xs)
    → AreRanges f
        (update (by_step row.id row.job_id) (finished_step e now (f row.job_id) row) (row ∷ xs))
unfolding update
head_range f e now row xs u v =
    let le : row.log_start_offset ≤ f row.job_id = omega (arith, v.0, v.1) in
    let bounds = clamped_end-bounds e.log_end_offset row.log_start_offset (f row.job_id) le in
    let hit : (row.id == row.id) ≡ true = ground arith in
    let tail =
      update-later row.id row.id row.job_id (finished_step e now (f row.job_id) row) xs u
        (omega arith) in
    rw (hit, str_eq_refl row.job_id, tail) (bounds.0, bounds.1, v.2)

pub finished_ranges :
    (f : String → ℕ) (e : StepEnd) (now n : ℕ) (p : Step → Bool) (xs : List Step) (row : Step)
    → AreNumbered n xs
    → AreRanges f xs
    → find p xs ≡ some row
    → AreRanges f (update (by_step row.id row.job_id) (finished_step e now (f row.job_id) row) xs)
unfolding find update
finished_ranges f e now n p [] row u v h = cc
finished_ranges f e now n p (x ∷ xs) row u v h = elim (Bool-cases (p x)) [
  | inl c ↦
      let same : x ≡ row = ground arith in
      subst
        (λ (y : Step).
          AreRanges f
            (update (by_step y.id y.job_id) (finished_step e now (f y.job_id) y) (x ∷ xs)))
        same (head_range f e now x xs u.1 v)
  | inr c ↦
      let found : find p xs ≡ some row = ground arith in
      let below = found_number x.id p xs row u.1 found in
      let apart : (x.id == row.id) ≡ false = ground arith in
      let rest = finished_ranges f e now x.id p xs row u.1 v.2 found in rw apart (v.0, v.1, rest)
]

-- The steps are numbered, and each has a range.
pub record HasRanges (s : LogDb) : Type 0 where
  pub numbered : AreNumbered s.next_step_id s.steps
  pub ranges : AreRanges (total_of s) s.steps
