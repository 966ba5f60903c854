-- ===== src/Table/Laws.antt =====
-- Laws of the table statements.
use mathlib.Core.Option
use github_mcp.Prelude.{
  ◌≡◌, refl, Bool, true, none, some, List, [], ◌∷◌, arith, Bool-cases, inl, inr, cond_row, ◌&&◌,
}
use github_mcp.Table.{find, select, update, count}

module _ {ℓ} {A : Type ℓ} where
  -- A row that a query returns satisfies its condition.
  pub find_sound : (p : A → Bool) (xs : List A) (a : A) → find p xs ≡ some a → p a ≡ true
  unfolding find
  find_sound p [] a h = cc
  find_sound p (x ∷ xs) a h = elim (Bool-cases (p x)) [
    | inl e ↦ ground arith
    | inr e ↦ find_sound p xs a (ground arith)
  ]

  -- An UPDATE that leaves the truth of a query's condition alone keeps the row that it finds.
  pub find-update :
      (q p : A → Bool) (f : A → A) (xs : List A)
      → ((x : A) → q (f x) ≡ q x)
      → find q (update p f xs) ≡ Option.map (cond_row p f) (find q xs)
  unfolding find update
  find-update q p f [] h = refl
  find-update q p f (x ∷ xs) h = ground (arith, h x, find-update q p f xs h)

  -- Counting after an UPDATE of other rows.
  pub count-update_other :
      (q p : A → Bool) (f : A → A) (xs : List A)
      → ((x : A) → p x ≡ true → q (f x) ≡ q x)
      → count q (update p f xs) ≡ count q xs
  unfolding count update
  count-update_other q p f [] h = refl
  count-update_other q p f (x ∷ xs) h = ground (arith, h x, count-update_other q p f xs h)

  pub count-zero-find : (p : A → Bool) (xs : List A) → find p xs ≡ none → count p xs ≡ 0
  unfolding count find
  count-zero-find p [] h = refl
  count-zero-find p (x ∷ xs) h = ground (arith, count-zero-find p xs)

  -- A query on two conditions is one on the rows that meet the first.
  pub find-select :
      (p q : A → Bool) (xs : List A) → find (λ x. p x && q x) xs ≡ find q (select p xs)
  unfolding find select
  find-select p q [] = refl
  find-select p q (x ∷ xs) = ground (arith, find-select p q xs)
