-- ===== src/Tx.antt =====
-- Results of the stores' functions, and code that runs inside one SQLite transaction.
-- `M S A` is code over the state `S` that returns a value or raises; what it wrote before it raised
-- stays written, as on an open connection. `atomically` is the pattern
-- `BEGIN IMMEDIATE; try: …; commit() except: rollback(); raise`.
pub mod Check
use github_mcp.Prelude.{
  ℕ, ◌≡◌, refl, Bool, true, false, String, Option, none, some, List, arith, ◌⊎◌, inl, inr,
}

-- What the stores raise: their own exceptions, Python's ValueError, and those of sqlite3.
pub data Error : Type 0 where
  not_found : Error
  revision_conflict : Error
  illegal_transition : Error
  identity_mismatch : Error
  idempotency_conflict : Error
  state_invalid : Error
  value_error : Error
  integrity_error : Error
  operational_error : Error
  stale_job_lease : Error

pub data Result {ℓ} (A : Type ℓ) : Type ℓ where
  ok : A → Result A
  err : Error → Result A

abbrev pub M : Type 0 → Type 0 → Type 0
M S A = S → Result A × S

abbrev pub pure : {S A : Type 0} → A → M S A
pure a s = (ok a, s)

abbrev pub raise : {S A : Type 0} → Error → M S A
raise e s = (err e, s)

-- A check, or a query, that only reads the state.
abbrev pub reading : {S A : Type 0} → (S → Result A) → M S A
reading f s = (f s, s)

-- A statement that changes the state and cannot fail.
abbrev pub modify : {S : Type 0} → (S → S) → M S (Unit {0})
modify f s = (ok tt, f s)

abbrev pub resume : {S A B : Type 0} → Result A × S → (A → M S B) → Result B × S
resume (ok a, s) f = f a s
resume (err e, s) f = (err e, s)

infixl 5 ◌>>=◌ ◌>>◌
abbrev pub ◌>>=◌ : {S A B : Type 0} → M S A → (A → M S B) → M S B
◌>>=◌ m f s = resume (m s) f

abbrev pub ◌>>◌ : {S B : Type 0} → M S (Unit {0}) → M S B → M S B
◌>>◌ m k s = resume (m s) (λ _. k)

abbrev pub require : {S : Type 0} → Bool → Error → M S (Unit {0})
require true e s = (ok tt, s)
require false e s = (err e, s)

-- commit() where the body returns, rollback() where it raises.
abbrev pub settle : {S A : Type 0} → S → Result A × S → Result A × S
settle before (ok a, after) = (ok a, after)
settle before (err e, after) = (err e, before)

unfoldable pub atomically : {S A : Type 0} → M S A → M S A
atomically body s = settle s (body s)

module _ {S A : Type 0} where
  -- A transaction that raised has changed nothing.
  pub atomically_rollback :
      (m : M S A) (s : S) (e : Error) → (atomically m s).0 ≡ err e → (atomically m s).1 ≡ s
  unfolding atomically
  atomically_rollback m s e h = ground arith

-- Inversion of code in sequence that returned.
pub resume-ok :
    {S A B : Type 0} (x : Result A × S) (f : A → M S B) (b : B) (s' : S)
    → resume x f ≡ (ok b, s')
    → (a : A) × (s : S) × (x ≡ (ok a, s)) × (f a s ≡ (ok b, s'))
resume-ok (ok a, s) f b s' h = (a, s, refl, h)
resume-ok (err e, s) f b s' h = cc

settle-cases :
    {S A : Type 0} (s : S) (x : Result A × S)
    → ((a : A) × (s' : S) × (x ≡ (ok a, s')) × (settle s x ≡ (ok a, s')))
      ⊎ ((e : Error) × (s' : S) × (x ≡ (err e, s')) × (settle s x ≡ (err e, s)))
settle-cases s (ok a, s') = inl (a, s', refl, refl)
settle-cases s (err e, s') = inr (e, s', refl, refl)

-- A transaction commits what its body returned, or leaves everything as it was.
pub atomically-cases :
    {S A : Type 0} (m : M S A) (s : S)
    → ((a : A) × (s' : S) × (m s ≡ (ok a, s')) × (atomically m s ≡ (ok a, s')))
      ⊎ ((e : Error) × (s' : S) × (m s ≡ (err e, s')) × (atomically m s ≡ (err e, s)))
unfolding atomically
atomically-cases m s = settle-cases s (m s)

-- What a transaction returned, its body returned.
pub atomically-ok :
    {S A : Type 0} (m : M S A) (s : S) (a : A) (s' : S)
    → atomically m s ≡ (ok a, s')
    → m s ≡ (ok a, s')
unfolding atomically
atomically-ok m s a s' h = ground arith

-- Inversion of a read, and of a check, in front of code that returned.
pub reading-ok :
    {S A B : Type 0} (r : Result A) (k : A → M S B) (b : B) (s s' : S)
    → resume (r, s) k ≡ (ok b, s')
    → (a : A) × (r ≡ ok a) × (k a s ≡ (ok b, s'))
reading-ok (ok a) k b s s' h = (a, refl, h)
reading-ok (err e) k b s s' h = cc

pub require-ok :
    {S B : Type 0} (t : Bool) (e : Error) (k : M S B) (b : B) (s s' : S)
    → resume (require t e s) (λ _. k) ≡ (ok b, s')
    → (t ≡ true) × (k s ≡ (ok b, s'))
require-ok true e k b s s' h = (refl, h)
require-ok false e k b s s' h = cc
