-- ===== src/Tests/Replies.antt =====
-- A request with an Idempotency-Key, sent again, and the theorems on the middleware at it.
use github_mcp.Idempotency.{
  Response, Connection, HttpRequest, validate_idempotency_key, Claim, completed_claim, new_claim,
  serve, Method, Statement, responded, Outcome, insert, rollback, Position, expire, commit, Answer,
}
use github_mcp.Idempotency.Durable.{AllSpare, AllRoundsSpare, IsDurable}
use github_mcp.Prelude.{List, String, [], ◌∷◌, arith, refl, ◌≡◌}
use github_mcp.Idempotency.Claims.{replay_stored}
use github_mcp.Table.{find}

abbrev body_digest : HttpRequest → String
body_digest r = r.body

abbrev first_post : HttpRequest
first_post = record { method = Method.post; path = "/v1/files"; body = "x"; idempotency_key = "k1" }

abbrev other_post : HttpRequest
other_post = record first_post { body = "y" }

abbrev other_claim : Claim
other_claim = new_claim "k2" "z" 11

abbrev fresh_connection : Connection
fresh_connection = record { working = []; committed = []; last_cleanup_at = 0 }

-- Others that insert a claim, collide, roll back, commit and clean up.
abbrev traffic : List Statement
traffic =
    insert other_claim
    ∷ rollback
    ∷ insert other_claim
    ∷ insert other_claim
    ∷ rollback
    ∷ expire 24 13
    ∷ commit
    ∷ []

abbrev rounds : List (List Statement)
rounds = traffic ∷ traffic ∷ traffic ∷ traffic ∷ traffic ∷ traffic ∷ []

abbrev running_claim : Claim
running_claim = new_claim "k1" "x" 10

abbrev created : Response
created = record { status_code = 201; body = "ok" }

spared : AllSpare running_claim traffic
spared = (tt, (tt, (tt, (tt, (tt, (omega arith, (tt, tt)))))))

spared_completed : AllSpare (completed_claim created running_claim) traffic
spared_completed = (tt, (tt, (tt, (tt, (tt, (omega arith, (tt, tt)))))))

rounds_spared_completed : AllRoundsSpare (completed_claim created running_claim) rounds
rounds_spared_completed = (
  spared_completed,
  (
    spared_completed,
    (spared_completed, (spared_completed, (spared_completed, (spared_completed, tt)))),
  ),
)

abbrev claimed_connection : Connection
claimed_connection = record {
  working = running_claim ∷ [];
  committed = running_claim ∷ [];
  last_cleanup_at = 0;
}

claimed_connection-IsDurable : IsDurable running_claim claimed_connection
unfolding find
claimed_connection-IsDurable = record { working = refl; committed = refl }

replay_stored_example :
    ((serve body_digest 24 first_post
        (responded created)
        (traffic ∷ (insert other_claim ∷ []) ∷ traffic ∷ [])
        Position.executing
        claimed_connection).0
      ≡ Position.done)
    × ((serve body_digest 24 first_post Outcome.raised rounds
          (Position.arriving 20)
          (serve body_digest 24 first_post
            (responded created)
            (traffic ∷ (insert other_claim ∷ []) ∷ traffic ∷ [])
            Position.executing
            claimed_connection).1).0
        ≡ Position.answered (Answer.replay created))
unfolding validate_idempotency_key
replay_stored_example =
    replay_stored body_digest 24 first_post 10 created Outcome.raised first_post 20 traffic
      (insert other_claim ∷ []) traffic rounds claimed_connection claimed_connection-IsDurable
      (omega arith) (omega arith) spared (tt, tt) (λ e. cc, tt) spared_completed
      rounds_spared_completed (omega arith) refl refl refl refl (omega arith)
