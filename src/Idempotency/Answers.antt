-- ===== src/Idempotency/Answers.antt =====
-- What a request gets whose Idempotency-Key is claimed, over any statements of other requests.
-- How many awaits are left until the answer.
use github_mcp.Idempotency.{
  Position, HttpRequest, Claim, Answer, Outcome, is_guarded, validate_idempotency_key, step, serve,
  arrive, Connection, answer, Statement, by_key, expire, execute_all, commit, insert, new_claim,
  rollback,
}
use github_mcp.Idempotency.Durable.{
  IsDurable, AllRoundsSpare, execute-IsDurable, execute_all-IsDurable,
}
use github_mcp.Table.{find}
use github_mcp.Prelude.{
  ℕ, String, ◌≤◌, ◌≡◌, ◌+◌, true, arith, ◌*◌, ap, List, some, Bool-cases, length, suc, ltb, subst,
  ◌-◌, ◌∷◌, inl, sym, [], inr,
}

abbrev awaits_left : Position → ℕ
awaits_left (Position.arriving now) = 6
awaits_left (Position.cleaning now) = 5
awaits_left (Position.cleaned now) = 4
awaits_left (Position.inserting now) = 3
awaits_left Position.colliding = 2
awaits_left Position.selecting = 1
awaits_left _ = 0

-- On the way to the answer `a`, before the claim expires.
abbrev IsAsking : (ttl_hours : ℕ) → Claim → Answer → Position → Type 0
IsAsking ttl c a (Position.arriving now) = now ≤ c.created_at + ttl * 3600
IsAsking ttl c a (Position.cleaning now) = now ≤ c.created_at + ttl * 3600
IsAsking ttl c a (Position.cleaned now) = Unit
IsAsking ttl c a (Position.inserting now) = Unit
IsAsking ttl c a Position.colliding = Unit
IsAsking ttl c a Position.selecting = Unit
IsAsking ttl c a (Position.answered b) = b ≡ a
IsAsking ttl c a _ = ⊥

asking_end :
    (ttl : ℕ) (c : Claim) (a : Answer) (st : Position)
    → IsAsking ttl c a st
    → awaits_left st ≤ 0
    → st ≡ Position.answered a
asking_end ttl c a (Position.arriving now) h l = absurd (omega arith)
asking_end ttl c a (Position.cleaning now) h l = absurd (omega arith)
asking_end ttl c a (Position.cleaned now) h l = absurd (omega arith)
asking_end ttl c a (Position.inserting now) h l = absurd (omega arith)
asking_end ttl c a Position.colliding h l = absurd (omega arith)
asking_end ttl c a Position.selecting h l = absurd (omega arith)
asking_end ttl c a Position.inserted h l = elim h [ ]
asking_end ttl c a Position.executing h l = elim h [ ]
asking_end ttl c a (Position.completing b) h l = elim h [ ]
asking_end ttl c a (Position.completed b) h l = elim h [ ]
asking_end ttl c a Position.releasing h l = elim h [ ]
asking_end ttl c a Position.released h l = elim h [ ]
asking_end ttl c a Position.done h l = elim h [ ]
asking_end ttl c a Position.stopped h l = elim h [ ]
asking_end ttl c a (Position.answered b) h l = ap Position.answered h

module _ (digest : HttpRequest → String) (ttl_hours : ℕ) (r : HttpRequest) (o : Outcome) (c : Claim)
    (guarded : is_guarded r.method ≡ true)
    (valid : validate_idempotency_key r.idempotency_key ≡ true)
    (same : c.key ≡ r.idempotency_key) where
  record Asks (n : ℕ) (x : Position × Connection) : Type 0 where
    asking : IsAsking ttl_hours c (answer (digest r) (some c)) x.0
    durable : IsDurable c x.1
    left : awaits_left x.0 ≤ n

  arrive-Asks :
      (n now : ℕ) (s : Connection)
      → now ≤ c.created_at + ttl_hours * 3600
      → 5 ≤ n
      → IsDurable c s
      → Asks n (arrive r now s, s)
  unfolding arrive validate_idempotency_key
  arrive-Asks n now s h l v = elim (Bool-cases (ltb (now - s.last_cleanup_at) 3600)) [
    | inl e ↦
        let at : arrive r now s ≡ Position.inserting now = ground arith in
        subst (λ x. Asks n (x, s)) (sym at)
          (record { asking = tt; durable = v; left = omega arith })
    | inr e ↦
        let at : arrive r now s ≡ Position.cleaning now = ground arith in
        subst (λ x. Asks n (x, s)) (sym at) (record { asking = h; durable = v; left = omega arith })
  ]

  found : (s : Connection) → IsDurable c s → find (by_key r.idempotency_key) s.working ≡ some c
  found s v = subst (λ k. find (by_key k) s.working ≡ some c) same v.working

  step-Asks :
      (n : ℕ) (st : Position) (s : Connection)
      → IsAsking ttl_hours c (answer (digest r) (some c)) st
      → awaits_left st ≤ suc n
      → IsDurable c s
      → Asks n (step digest ttl_hours r o st s)
  unfolding step
  step-Asks n (Position.arriving now) s h l v = arrive-Asks n now s h (omega arith) v
  step-Asks n (Position.cleaning now) s h l v = record {
    asking = tt;
    durable = execute-IsDurable (expire ttl_hours now) c s h v;
    left = omega arith;
  }
  step-Asks n (Position.cleaned now) s h l v =
      let w = execute-IsDurable commit c s tt v in
      record {
        asking = tt;
        durable = record { working = w.working; committed = w.committed };
        left = omega arith;
      }
  step-Asks n (Position.inserting now) s h l v =
      let e = found s v in
      rw e (record {
        asking = tt;
        durable = execute-IsDurable (insert (new_claim r.idempotency_key (digest r) now)) c s tt v;
        left = omega arith;
      })
  step-Asks n Position.colliding s h l v = record {
    asking = tt;
    durable = execute-IsDurable rollback c s tt v;
    left = omega arith;
  }
  step-Asks n Position.selecting s h l v = record {
    asking = ap (answer (digest r)) (found s v);
    durable = v;
    left = omega arith;
  }
  step-Asks n Position.inserted s h l v = elim h [ ]
  step-Asks n Position.executing s h l v = elim h [ ]
  step-Asks n (Position.completing b) s h l v = elim h [ ]
  step-Asks n (Position.completed b) s h l v = elim h [ ]
  step-Asks n Position.releasing s h l v = elim h [ ]
  step-Asks n Position.released s h l v = elim h [ ]
  step-Asks n Position.done s h l v = elim h [ ]
  step-Asks n Position.stopped s h l v = elim h [ ]
  step-Asks n (Position.answered b) s h l v = record { asking = h; durable = v; left = omega arith }

  serve-answered :
      (others : List (List Statement)) (st : Position) (s : Connection)
      → AllRoundsSpare c others
      → IsAsking ttl_hours c (answer (digest r) (some c)) st
      → awaits_left st ≤ length others
      → IsDurable c s
      → (serve digest ttl_hours r o others st s).0 ≡ Position.answered (answer (digest r) (some c))
  unfolding serve
  serve-answered [] st s spare h l v = asking_end ttl_hours c _ st h l
  serve-answered (xs ∷ rest) st s spare h l v =
      let a = step-Asks (length rest) st s h l v in
      serve-answered rest (step digest ttl_hours r o st s).0
        (execute_all xs (step digest ttl_hours r o st s).1) spare.1 a.asking a.left
        (execute_all-IsDurable xs c (step digest ttl_hours r o st s).1 spare.0 a.durable)

  pub claimed_answer :
      (others : List (List Statement)) (now : ℕ) (s : Connection)
      → IsDurable c s
      → AllRoundsSpare c others
      → now ≤ c.created_at + ttl_hours * 3600
      → 6 ≤ length others
      → (serve digest ttl_hours r o others (Position.arriving now) s).0
        ≡ Position.answered (answer (digest r) (some c))
  claimed_answer others now s v spare h l =
      serve-answered others (Position.arriving now) s spare h l v
