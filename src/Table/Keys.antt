-- ===== src/Table/Keys.antt =====
-- Tables with a PRIMARY KEY: no two rows share a key.
use mathlib.Core.Option
use github_mcp.Table.{find, update, count}
use github_mcp.Prelude.{
  String, List, Bool, str_eq, ◌∷◌, ◌≡◌, some, none, true, [], Bool-cases, inl, arith, str_eq_refl,
  inr, str_eq_iff, ap, refl, cond_row, ◌∙◌, false, ◌≤◌, subst,
}
use github_mcp.Table.Laws.{find-update}

module _ {ℓ} {A : Type ℓ} (key : A → String) where
  abbrev pub has_key : String → A → Bool
  has_key k x = str_eq (key x) k

  abbrev pub IsKeyed : List A → Type ℓ
  IsKeyed [] = Unit
  IsKeyed (x ∷ xs) = (find (has_key (key x)) xs ≡ none) × IsKeyed xs

  -- A row that any query finds is the one that stands under its key.
  pub find-key :
      (p : A → Bool) (xs : List A) (a : A)
      → IsKeyed xs
      → find p xs ≡ some a
      → find (has_key (key a)) xs ≡ some a
  unfolding find
  find-key p [] a u h = cc
  find-key p (x ∷ xs) a u h = elim (Bool-cases (p x)) [
    | inl e ↦ ground (arith, str_eq_refl (key x), str_eq_refl (key a))
    | inr e ↦
        ground
          (arith, find-key p xs a u.1, str_eq_iff (key x) (key a), ap (λ k. find (has_key k) xs))
  ]

  key-cond_row :
      (p : A → Bool) (f : A → A)
      → ((x : A) → key (f x) ≡ key x)
      → (x : A) → key (cond_row p f x) ≡ key x
  key-cond_row p f h x = ground (arith, h x)

  pub IsKeyed-update :
      (p : A → Bool) (f : A → A) (xs : List A)
      → ((x : A) → key (f x) ≡ key x)
      → IsKeyed xs
      → IsKeyed (update p f xs)
  unfolding update
  IsKeyed-update p f [] h u = u
  IsKeyed-update p f (x ∷ xs) h u = (
    rw (key-cond_row p f h x) (
        find-update (has_key (key x)) p f xs (λ y. ap (λ k. str_eq k (key x)) (h y))
        ∙ ap (Option.map (cond_row p f)) u.0),
    IsKeyed-update p f xs h u.1,
  )

  -- Where no row meets `q`, none meets a condition that implies it.
  count-zero :
      (p q : A → Bool) (xs : List A)
      → ((x : A) → p x ≡ true → q x ≡ true)
      → find q xs ≡ none
      → count p xs ≡ 0
  unfolding find count
  count-zero p q [] h e = refl
  count-zero p q (x ∷ xs) h e = ground (arith, h x, count-zero p q xs h)

  -- The first row is none that a query finds further down.
  apart :
      (p q : A → Bool) (x : A) (xs : List A) (a : A)
      → IsKeyed (x ∷ xs)
      → (p x ≡ true → key x ≡ key a)
      → find q xs ≡ some a
      → p x ≡ false
  apart p q x xs a u h e = elim (Bool-cases (p x)) [
    | inr c ↦ c
    | inl c ↦ cc (find-key q xs a u.1 e, u.0, ap (λ k. find (has_key k) xs) (h c))
  ]

  -- A condition that a stored row meets, and that pins its key, holds of one row.
  pub count-key :
      (p q : A → Bool) (xs : List A) (a : A)
      → IsKeyed xs
      → ((x : A) → p x ≡ true → key x ≡ key a)
      → p a ≡ true
      → find q xs ≡ some a
      → count p xs ≡ 1
  unfolding find count
  count-key p q [] a u h ha e = cc
  count-key p q (x ∷ xs) a u h ha e = elim (Bool-cases (q x)) [
    | inl hit ↦
        let same : x ≡ a = ground arith in
        let rest =
          count-zero p (has_key (key x)) xs
            (λ y c. ground (arith, h y c, str_eq_iff (key y) (key x), ap key same)) u.0 in
        ground (arith, rest)
    | inr miss ↦
        let rest = count-key p q xs a u.1 h ha (ground arith) in
        let other : p x ≡ false = apart p q x xs a u (h x) (ground arith) in ground (arith, rest)
  ]

  -- An UPDATE that no row meets counts the same.
  count-missed :
      (p c : A → Bool) (f : A → A) (k : String) (xs : List A)
      → ((x : A) → p x ≡ true → key x ≡ k)
      → find (has_key k) xs ≡ none
      → count c (update p f xs) ≡ count c xs
  unfolding find count update
  count-missed p c f k [] h e = refl
  count-missed p c f k (x ∷ xs) h e =
      ground (arith, h x, str_eq_iff (key x) k, count-missed p c f k xs h)

  -- An UPDATE of the one row that has a key, which it does not bring into `c`, leaves no more rows
  -- of `c`.
  pub count-update-le :
      (p c q : A → Bool) (f : A → A) (xs : List A) (a : A)
      → IsKeyed xs
      → find q xs ≡ some a
      → ((x : A) → p x ≡ true → key x ≡ key a)
      → (c (f a) ≡ true → c a ≡ true)
      → count c (update p f xs) ≤ count c xs
  unfolding find count update
  count-update-le p c q f [] a u e h k = omega arith
  count-update-le p c q f (x ∷ xs) a u e h k = elim (Bool-cases (q x)) [
    | inl hit ↦
        let same : x ≡ a = ground arith in
        let none_here : find (has_key (key a)) xs ≡ none =
          subst (λ y. find (has_key (key y)) xs ≡ none) same u.0 in
        let rest = count-missed p c f (key a) xs h none_here in ground (arith, rest)
    | inr miss ↦
        let rest = count-update-le p c q f xs a u.1 (ground arith) h k in
        let other : p x ≡ false = apart p q x xs a u (h x) (ground arith) in ground (arith, rest)
  ]
