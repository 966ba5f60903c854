-- ===== src/Idempotency/Durable.antt =====
-- A committed claim, under the statements that other requests send.
-- The claim is committed, and no open statement has changed it.
use github_mcp.Prelude.{
  List, is_some, ◌≡◌, Bool, ◌∷◌, some, false, [], Bool-cases, str_eq, true, inl, inr, arith, ap,
  str_eq_iff, ◌≤◌, not, ◌+◌, refl, ◌*◌,
}
use github_mcp.Table.{find, update, select}
use github_mcp.Idempotency.{
  execute, Claim, execute_all, Statement, Connection, insert, by_key, store_response, rollback,
  is_claim, remove_claim, expire, completed_claim, commit, is_outdated,
}

pub record IsDurable (c : Claim) (s : Connection) : Type 0 where
  pub working : find (by_key c.key) s.working ≡ some c
  pub committed : find (by_key c.key) s.committed ≡ some c

find-select_kept :
    (p q : Claim → Bool) (xs : List Claim) (c : Claim)
    → find p xs ≡ some c
    → q c ≡ true
    → find p (select q xs) ≡ some c
unfolding find select
find-select_kept p q [] c h k = cc
find-select_kept p q (x ∷ xs) c h k = elim (Bool-cases (p x)) [
  | inl e ↦ let same : x ≡ c = ground arith in ground arith
  | inr e ↦ let rest = find-select_kept p q xs c (ground arith) k in ground (arith, rest)
]

find-update_missed :
    (p q : Claim → Bool) (f : Claim → Claim) (xs : List Claim) (c : Claim)
    → ((x : Claim) → p (f x) ≡ p x)
    → find p xs ≡ some c
    → q c ≡ false
    → find p (update q f xs) ≡ some c
unfolding find update
find-update_missed p q f [] c s h k = cc
find-update_missed p q f (x ∷ xs) c s h k = elim (Bool-cases (p x)) [
  | inl e ↦ let same : x ≡ c = ground arith in ground arith
  | inr e ↦ let rest = find-update_missed p q f xs c s (ground arith) k in ground (arith, rest, s x)
]

-- The statement does not end the claim: it is no end of its request, and no expiry that reaches it.
abbrev pub Spares : Claim → Statement → Type 0
Spares c (insert x) = Unit
Spares c (store_response key hash a) = is_claim key hash c ≡ false
Spares c (remove_claim key hash) = is_claim key hash c ≡ false
Spares c (expire ttl_hours now) = now ≤ c.created_at + ttl_hours * 3600
Spares c commit = Unit
Spares c rollback = Unit

abbrev pub AllSpare : Claim → List Statement → Type 0
AllSpare c [] = Unit
AllSpare c (x ∷ xs) = Spares c x × AllSpare c xs

-- The statements behind each step of a request.
abbrev pub AllRoundsSpare : Claim → List (List Statement) → Type 0
AllRoundsSpare c [] = Unit
AllRoundsSpare c (xs ∷ rest) = AllSpare c xs × AllRoundsSpare c rest

insert-kept :
    (x c : Claim) (xs : List Claim)
    → is_some (find (by_key x.key) xs) ≡ false
    → find (by_key c.key) xs ≡ some c
    → find (by_key c.key) (x ∷ xs) ≡ some c
unfolding find
insert-kept x c xs e v = elim (Bool-cases (str_eq x.key c.key)) [
  | inl same ↦ absurd (
      cc
        (e, ap is_some v, ap (λ k. is_some (find (by_key k) xs)) ((str_eq_iff x.key c.key).0 same)))
  | inr ne ↦ rw ne v
]

-- A sparing statement other than a rollback keeps a claim that the transaction sees.
pub execute-working :
    (x : Statement) (c : Claim) (s : Connection)
    → Spares c x
    → ¬ (x ≡ rollback)
    → find (by_key c.key) s.working ≡ some c
    → find (by_key c.key) (execute x s).working ≡ some c
unfolding execute
execute-working (insert x) c s h keep v =
    elim (Bool-cases (is_some (find (by_key x.key) s.working))) [
      | inl e ↦ rw e v
      | inr e ↦ rw e (insert-kept x c s.working e v)
    ]
execute-working (store_response key hash a) c s h keep v =
    find-update_missed (by_key c.key) (is_claim key hash) (completed_claim a) s.working c
      (λ x. refl) v h
execute-working (remove_claim key hash) c s h keep v =
    find-select_kept (by_key c.key) (λ x. not (is_claim key hash x)) s.working c v (ground arith)
execute-working (expire ttl now) c s h keep v =
    find-select_kept (by_key c.key) (λ x. not (is_outdated ttl now x)) s.working c v (ground arith)
execute-working commit c s h keep v = v
execute-working rollback c s h keep v = absurd (keep refl)

pub execute-IsDurable :
    (x : Statement) (c : Claim) (s : Connection)
    → Spares c x
    → IsDurable c s
    → IsDurable c (execute x s)
unfolding execute
execute-IsDurable (insert x) c s h v = record {
  working = execute-working (insert x) c s h (λ e. cc) v.working;
  committed = elim (Bool-cases (is_some (find (by_key x.key) s.working))) [
    | inl e ↦ rw e (v.committed)
    | inr e ↦ rw e (v.committed)
  ];
}
execute-IsDurable (store_response key hash a) c s h v = record {
  working = execute-working (store_response key hash a) c s h (λ e. cc) v.working;
  committed = v.committed;
}
execute-IsDurable (remove_claim key hash) c s h v = record {
  working = execute-working (remove_claim key hash) c s h (λ e. cc) v.working;
  committed = v.committed;
}
execute-IsDurable (expire ttl now) c s h v = record {
  working = execute-working (expire ttl now) c s h (λ e. cc) v.working;
  committed = v.committed;
}
execute-IsDurable commit c s h v = record { working = v.working; committed = v.working }
execute-IsDurable rollback c s h v = record { working = v.committed; committed = v.committed }

pub execute_all-IsDurable :
    (xs : List Statement) (c : Claim) (s : Connection)
    → AllSpare c xs
    → IsDurable c s
    → IsDurable c (execute_all xs s)
unfolding execute_all
execute_all-IsDurable [] c s h v = v
execute_all-IsDurable (x ∷ xs) c s h v =
    execute_all-IsDurable xs c (execute x s) h.1 (execute-IsDurable x c s h.0 v)

-- None of the statements is a rollback.
abbrev pub HasNoRollback : List Statement → Type 0
HasNoRollback [] = Unit
HasNoRollback (x ∷ xs) = ¬ (x ≡ rollback) × HasNoRollback xs

pub execute_all-working :
    (xs : List Statement) (c : Claim) (s : Connection)
    → AllSpare c xs
    → HasNoRollback xs
    → find (by_key c.key) s.working ≡ some c
    → find (by_key c.key) (execute_all xs s).working ≡ some c
unfolding execute_all
execute_all-working [] c s h keep v = v
execute_all-working (x ∷ xs) c s h keep v =
    execute_all-working xs c (execute x s) h.1 keep.1 (execute-working x c s h.0 keep.0 v)
