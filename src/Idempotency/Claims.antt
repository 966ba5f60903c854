-- ===== src/Idempotency/Claims.antt =====
-- A request that claims its key and executes, and a request with the same key behind it.
use mathlib.Core.Option
use github_mcp.Table.Laws.{find-update}
use github_mcp.Idempotency.{
  HttpRequest, serve, execute, answer, Claim, new_claim, step, Response, Outcome, Connection,
  Statement, by_key, store_response, completed_claim, is_claim, responded, Position, is_guarded,
  after_call, commit, validate_idempotency_key, execute_all, Answer,
}
use github_mcp.Table.{find}
use github_mcp.Idempotency.Durable.{
  IsDurable, AllSpare, HasNoRollback, AllRoundsSpare, execute_all-working, execute_all-IsDurable,
}
use github_mcp.Idempotency.Answers.{claimed_answer}
use github_mcp.Prelude.{
  cond_row, String, ℕ, List, ◌≡◌, ◌≤◌, some, ◌<◌, str_eq_refl, refl, ◌∷◌, ◌+◌, [], ◌∙◌, ap, ◌*◌,
  true, arith, length,
}

module _ (digest : HttpRequest → String) (ttl_hours : ℕ) (r : HttpRequest) (now : ℕ) where
  abbrev pub claim_of : Claim
  claim_of = new_claim r.idempotency_key (digest r) now

  completed_in :
      (a : Response) (s : Connection)
      → find (by_key r.idempotency_key) s.working ≡ some claim_of
      → find
          (by_key r.idempotency_key)
          (execute (store_response r.idempotency_key (digest r) a) s).working
        ≡ some (completed_claim a claim_of)
  unfolding execute
  completed_in a s e =
      find-update (by_key r.idempotency_key) (is_claim r.idempotency_key (digest r))
        (completed_claim a) s.working (λ x. refl)
      ∙ ap (Option.map (cond_row (is_claim r.idempotency_key (digest r)) (completed_claim a))) e
      ∙ rw (str_eq_refl r.idempotency_key, str_eq_refl (digest r)) refl

  -- The UPDATE, and its commit with no rollback in between.
  response_committed :
      (a : Response) (xs ys zs : List Statement) (s : Connection)
      → IsDurable claim_of s
      → 200 ≤ a.status_code
      → a.status_code < 500
      → AllSpare claim_of xs
      → AllSpare (completed_claim a claim_of) ys
      → HasNoRollback ys
      → AllSpare (completed_claim a claim_of) zs
      → ((serve digest ttl_hours r (responded a) (xs ∷ ys ∷ zs ∷ []) Position.executing s).0
          ≡ Position.done)
        × IsDurable
            (completed_claim a claim_of)
            (serve digest ttl_hours r (responded a) (xs ∷ ys ∷ zs ∷ []) Position.executing s).1
  unfolding serve step
  response_committed a xs ys zs s v from to spare spare' keep spare'' =
      let next : after_call (responded a) ≡ Position.completing a =
        unfold after_call in ground arith in
      let start = execute_all-IsDurable xs claim_of s spare v in
      let kept =
        execute_all-working ys (completed_claim a claim_of)
          (execute (store_response r.idempotency_key (digest r) a) (execute_all xs s)) spare' keep
          (completed_in a (execute_all xs s) start.working) in
      let committed =
        execute_all-IsDurable zs (completed_claim a claim_of)
          (execute commit (
            execute_all ys
              (execute (store_response r.idempotency_key (digest r) a) (execute_all xs s))))
          spare'' (unfold execute in record { working = kept; committed = kept }) in
      rw next (refl, committed)

  -- An executing request with a committed claim, whose response has a status from 200 to 499 and is
  -- read in full, ends in 3 steps. If no other request rolls back between the UPDATE and its
  -- commit, and no statement of others ends the claim or expires it, then a guarded request with
  -- the same valid key and the same digest that arrives before the claim expires does not execute,
  -- whatever else others send behind each of its steps, rollbacks included: after 6 steps or more
  -- it has been given the stored status and body.
  pub replay_stored :
      (a : Response) (o' : Outcome) (r' : HttpRequest) (later : ℕ) (xs ys zs : List Statement)
      (others : List (List Statement)) (s : Connection)
      → IsDurable claim_of s
      → 200 ≤ a.status_code
      → a.status_code < 500
      → AllSpare claim_of xs
      → AllSpare (completed_claim a claim_of) ys
      → HasNoRollback ys
      → AllSpare (completed_claim a claim_of) zs
      → AllRoundsSpare (completed_claim a claim_of) others
      → later ≤ now + ttl_hours * 3600
      → is_guarded r'.method ≡ true
      → validate_idempotency_key r'.idempotency_key ≡ true
      → r.idempotency_key ≡ r'.idempotency_key
      → digest r ≡ digest r'
      → 6 ≤ length others
      → ((serve digest ttl_hours r (responded a) (xs ∷ ys ∷ zs ∷ []) Position.executing s).0
          ≡ Position.done)
        × ((serve digest ttl_hours r' o' others
              (Position.arriving later)
              (serve digest ttl_hours r (responded a) (xs ∷ ys ∷ zs ∷ []) Position.executing s).1).0
            ≡ Position.answered (Answer.replay a))
  unfolding answer
  replay_stored a o' r' later xs ys zs others s v from to spare spare' keep spare'' spared within
        guarded valid same same' l =
      let (ends, w) = response_committed a xs ys zs s v from to spare spare' keep spare'' in
      let told =
        claimed_answer digest ttl_hours r' o' (completed_claim a claim_of) guarded valid same others
          later (serve digest ttl_hours r (responded a) (xs ∷ ys ∷ zs ∷ []) Position.executing s).1
          w spared within l in
      (ends, told ∙ ap Position.answered (rw (same', str_eq_refl (digest r')) refl))
