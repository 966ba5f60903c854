-- ===== src/Requests/Trail.antt =====
-- The audit trail of a request: its events, the newest first, each starting where the one below it
-- ended, with revisions that count down to 0.
use github_mcp.Requests.Graph.{Move}
use github_mcp.Schema.{RequestEvent, Phase, RequestStatus}
use github_mcp.Prelude.{
  List, ℕ, ◌∷◌, length, ◌<◌, ◌≡◌, none, true, suc, ◌==◌, subst, arith, some, sym, ap, [], ◌∙◌, refl,
}
use github_mcp.Table.{find}
use github_mcp.Requests.Lifecycle.{is_valid_pair}

abbrev pub Trail : List RequestEvent → ℕ → Phase → RequestStatus → Type 0
Trail [] n p s = ⊥
Trail (e ∷ []) n p s =
    (n ≡ 0)
    × (e.revision ≡ 0)
    × (e.from_phase ≡ none)
    × (e.to_phase ≡ p)
    × (e.to_status ≡ s)
    × (is_valid_pair p s ≡ true)
Trail (e ∷ f ∷ es) n p s =
    (n ≡ suc f.revision)
    × (e.revision ≡ n)
    × (e.from_phase ≡ some f.to_phase)
    × (e.from_status ≡ some f.to_status)
    × (e.to_phase ≡ p)
    × (e.to_status ≡ s)
    × Move f.to_phase f.to_status p s
    × Trail (f ∷ es) f.revision f.to_phase f.to_status

-- What the newest event of a trail says.
pub Trail-head :
    (f : RequestEvent) (es : List RequestEvent) (n : ℕ) (p : Phase) (s : RequestStatus)
    → Trail (f ∷ es) n p s
    → (f.revision ≡ n) × (f.to_phase ≡ p) × (f.to_status ≡ s) × (is_valid_pair p s ≡ true)
Trail-head f [] n p s t = ground arith
Trail-head f (g ∷ es) n p s t = (t.1, t.4, t.5, t.6.0)

-- A trail may be written with the stage that its newest event names.
Trail-restate :
    (f : RequestEvent) (es : List RequestEvent) (n : ℕ) (p : Phase) (s : RequestStatus)
    → Trail (f ∷ es) n p s
    → Trail (f ∷ es) f.revision f.to_phase f.to_status
Trail-restate f es n p s t =
    let h = Trail-head f es n p s t in
    subst (λ k. Trail (f ∷ es) k f.to_phase f.to_status) (sym h.0)
      (subst (λ q. Trail (f ∷ es) n q f.to_status) (sym h.1)
        (subst (λ q. Trail (f ∷ es) n p q) (sym h.2) t))

-- One event more.
pub Trail-extend :
    (e : RequestEvent) (es : List RequestEvent) (n : ℕ) (p : Phase) (s : RequestStatus) (p' : Phase)
    (s' : RequestStatus)
    → Trail es n p s
    → e.revision ≡ suc n
    → e.from_phase ≡ some p
    → e.from_status ≡ some s
    → e.to_phase ≡ p'
    → e.to_status ≡ s'
    → Move p s p' s'
    → Trail (e ∷ es) (suc n) p' s'
Trail-extend e [] n p s p' s' t a b c d g m = absurd t
Trail-extend e (f ∷ es) n p s p' s' t a b c d g m =
    let h = Trail-head f es n p s t in
    (
      ap suc (sym h.0),
      a,
      b ∙ ap some (sym h.1),
      c ∙ ap some (sym h.2),
      d,
      g,
      subst (λ q. Move q f.to_status p' s') (sym h.1) (subst (λ q. Move p q p' s') (sym h.2) m),
      Trail-restate f es n p s t,
    )

-- No event of a trail has a revision above the trail's.
pub Trail-bounds :
    (k : ℕ) (es : List RequestEvent) (n : ℕ) (p : Phase) (s : RequestStatus)
    → Trail es n p s
    → n < k
    → find (λ (e : RequestEvent). e.revision == k) es ≡ none
unfolding find
Trail-bounds k [] n p s t h = refl
Trail-bounds k (e ∷ []) n p s t h = ground arith
Trail-bounds k (e ∷ f ∷ es) n p s t h =
    let below = Trail-bounds k (f ∷ es) f.revision f.to_phase f.to_status t.7 (omega arith) in
    ground (arith, below)

-- A trail at revision n has n + 1 events.
pub length-Trail :
    (es : List RequestEvent) (n : ℕ) (p : Phase) (s : RequestStatus)
    → Trail es n p s
    → length es ≡ suc n
length-Trail [] n p s t = absurd t
length-Trail (e ∷ []) n p s t = omega arith
length-Trail (e ∷ f ∷ es) n p s t =
    omega (arith, length-Trail (f ∷ es) f.revision f.to_phase f.to_status t.7)
