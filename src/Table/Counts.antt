-- ===== src/Table/Counts.antt =====
-- How an UPDATE changes the number of rows that meet another condition.
use github_mcp.Prelude.{
  if◌then◌else◌, Bool, ◌≡◌, true, false, List, some, ◌∷◌, none, arith, Option-cases, [], inl, inr,
  refl, Bool-cases,
}
use github_mcp.Prelude.{if◌then◌else◌, ◌+◌, refl, some_inj, subst}
use github_mcp.Table.{find, update, count, first_by}

module _ {ℓ} {A : Type ℓ} where
  -- An UPDATE of rows outside `p` that puts each of them into `p`.
  pub count-update_gain :
      (p q : A → Bool) (f : A → A)
      → ((x : A) → q x ≡ true → p x ≡ false)
      → ((x : A) → q x ≡ true → p (f x) ≡ true)
      → (xs : List A) → count p (update q f xs) ≡ count p xs + count q xs
  unfolding count update
  count-update_gain p q f out into [] = refl
  count-update_gain p q f out into (x ∷ xs) =
      let rest = count-update_gain p q f out into xs in ground (arith, rest, out x, into x)

  -- An UPDATE that reaches every row of `p` and takes it out.
  pub count-update_none :
      (p q : A → Bool) (f : A → A)
      → ((x : A) → p x ≡ true → q x ≡ true)
      → ((x : A) → q x ≡ true → p (f x) ≡ false)
      → (xs : List A) → count p (update q f xs) ≡ 0
  unfolding count update
  count-update_none p q f inside out [] = refl
  count-update_none p q f inside out (x ∷ xs) =
      let rest = count-update_none p q f inside out xs in ground (arith, rest, inside x, out x)

module _ {ℓ} {A : Type ℓ} (before : A → A → Bool)
    (asym : (a b : A) → before a b ≡ true → before b a ≡ false)
    (trans : (a b c : A) → before a b ≡ false → before b c ≡ false → before a c ≡ false) where
  weaken :
      (x y : A) (xs : List A)
      → before y x ≡ false
      → find (λ a. before a y) xs ≡ none
      → find (λ a. before a x) xs ≡ none
  unfolding find
  weaken x y [] h e = refl
  weaken x y (a ∷ xs) h e = let rest = weaken x y xs h in ground (arith, rest, trans a y x)

  first_by-none : (p : A → Bool) (xs : List A) → first_by before xs ≡ none → find p xs ≡ none
  unfolding find first_by
  first_by-none p [] h = refl
  first_by-none p (a ∷ xs) h = elim (Option-cases (first_by before xs)) [
    | inl e ↦ absurd (ground arith)
    | inr (y, e) ↦ absurd (ground arith)
  ]

  irrefl : (a : A) → before a a ≡ false
  irrefl a = elim (Bool-cases (before a a)) [ inl e ↦ asym a a e | inr e ↦ e ]

  pick :
      (a x y : A) (xs : List A)
      → (if before y a then y else a) ≡ x
      → find (λ b. before b y) xs ≡ none
      → find (λ b. before b x) (a ∷ xs) ≡ none
  unfolding find
  pick a x y xs h e = elim (Bool-cases (before y a)) [
    | inl c ↦
        let same : y ≡ x = rw c at h in
        subst (λ z. find (λ b. before b z) (a ∷ xs) ≡ none) same (ground (arith, asym y a c))
    | inr c ↦
        let same : a ≡ x = rw c at h in
        subst (λ z. find (λ b. before b z) (a ∷ xs) ≡ none) same
          (let rest = weaken a y xs c e in ground (arith, irrefl a))
  ]

  -- Nothing precedes the row that ORDER BY … LIMIT 1 gives.
  pub first_by-first :
      (xs : List A) (x : A) → first_by before xs ≡ some x → find (λ a. before a x) xs ≡ none
  unfolding first_by
  first_by-first [] x h = cc
  first_by-first (a ∷ xs) x h = elim (Option-cases (first_by before xs)) [
    | inl e ↦
        subst (λ z. find (λ b. before b z) (a ∷ xs) ≡ none) (some_inj a x (rw e at h))
          (unfold find in rw (irrefl a) (first_by-none (λ b. before b a) xs e))
    | inr (y, e) ↦ pick a x y xs (some_inj _ x (rw e at h)) (first_by-first xs y e)
  ]
