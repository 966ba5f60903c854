-- ===== src/Logs/Slices.antt =====
-- Laws of `take` and `drop`, which model Python's slices.
use github_mcp.Prelude.{
  List, ℕ, ◌≡◌, length, ◌≤◌, ◌-◌, ◌∷◌, ◌++◌, [], ap, arith, suc, refl, ◌∙◌, zero,
}
use github_mcp.Logs.Read.{take, drop}

pub take_all : (xs : List ℕ) (n : ℕ) → length xs ≤ n → take n xs ≡ xs
take_all [] n h = refl
take_all (x ∷ xs) zero h = absurd (omega arith)
take_all (x ∷ xs) (suc n) h = ap (λ ys. x ∷ ys) (take_all xs n (omega arith))

pub drop_zero : (xs : List ℕ) → drop 0 xs ≡ xs
drop_zero [] = refl
drop_zero (x ∷ xs) = refl

pub length-drop : (n : ℕ) (xs : List ℕ) → length (drop n xs) ≡ length xs - n
length-drop n [] = omega arith
length-drop zero (x ∷ xs) = omega arith
length-drop (suc n) (x ∷ xs) = length-drop n xs ∙ omega arith

pub drop-append : (n : ℕ) (xs ys : List ℕ) → n ≤ length xs → drop n (xs ++ ys) ≡ drop n xs ++ ys
drop-append n [] ys h = ap (λ k. drop k ys) (omega (arith, h)) ∙ drop_zero ys
drop-append zero (x ∷ xs) ys h = refl
drop-append (suc n) (x ∷ xs) ys h = drop-append n xs ys (omega arith)

pub drop-past :
    (n : ℕ) (xs ys : List ℕ) → length xs ≤ n → drop n (xs ++ ys) ≡ drop (n - length xs) ys
drop-past n [] ys h = ap (λ k. drop k ys) (omega arith)
drop-past zero (x ∷ xs) ys h = absurd (omega arith)
drop-past (suc n) (x ∷ xs) ys h =
    drop-past n xs ys (omega arith) ∙ ap (λ k. drop k ys) (omega arith)
