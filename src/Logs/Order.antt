-- ===== src/Logs/Order.antt =====
-- The order in which `get_log_chunks` reads the chunks of a whole log.
use github_mcp.Prelude.{
  ℕ, List, ◌∷◌, Bool, ◌≡◌, ◌++◌, ap, length, ◌+◌, ◌∙◌, ◌≤◌, Bool-cases, [], refl, inl, arith,
  if◌then◌else◌, sym, inr, suc,
}
use github_mcp.Logs.Read.{by_index}
use github_mcp.Logs.Text.{chunk_text, IsTiled, last_offset-IsTiled, length_append}
use github_mcp.Table.{select}
use github_mcp.Logs.Clips.{text_of, IsForward, next_index-snoc, insert_last}
use github_mcp.Logs.Growth.{append_nil, append_assoc}
use github_mcp.Logs.{Chunk, next_index}

-- The oldest first.
abbrev pub oldest_first : List Chunk → List Chunk
oldest_first [] = []
oldest_first (c ∷ cs) = oldest_first cs ++ (c ∷ [])

pub select-snoc :
    (p : Chunk → Bool) (ds : List Chunk) (c : Chunk)
    → select p (ds ++ (c ∷ [])) ≡ (if p c then select p ds ++ (c ∷ []) else select p ds)
unfolding select
select-snoc p [] c = ground arith
select-snoc p (d ∷ ds) c =
    let rest = select-snoc p ds c in
    elim (Bool-cases (p c)) [
      | inl h ↦ elim (Bool-cases (p d)) [
        | inl k ↦ rw (k, h) (ap (λ l. d ∷ l) (rw h at rest))
        | inr k ↦ rw (k, h) (rw h at rest)
      ]
      | inr h ↦ elim (Bool-cases (p d)) [
        | inl k ↦ rw (k, h) (ap (λ l. d ∷ l) (rw h at rest))
        | inr k ↦ rw (k, h) (rw h at rest)
      ]
    ]

pub next_index-select :
    (p : Chunk → Bool) (cs : List Chunk)
    → IsTiled cs
    → next_index (select p (oldest_first cs)) ≤ length cs
unfolding select
next_index-select p [] v = omega arith
next_index-select p (c ∷ cs) v =
    let rest = next_index-select p cs v.3 in
    elim (Bool-cases (p c)) [
      | inl h ↦
          rw (select-snoc p (oldest_first cs) c, h)
            (next_index-snoc (select p (oldest_first cs)) c (suc (length cs)) (omega (arith, rest))
              (omega (arith, v.0)))
      | inr h ↦ rw (select-snoc p (oldest_first cs) c, h) (omega (arith, rest))
    ]

pub by_index-select :
    (p : Chunk → Bool) (cs : List Chunk)
    → IsTiled cs
    → by_index (select p cs) ≡ select p (oldest_first cs)
unfolding by_index select
by_index-select p [] v = refl
by_index-select p (c ∷ cs) v =
    let rest = by_index-select p cs v.3 in
    let below = next_index-select p cs v.3 in
    elim (Bool-cases (p c)) [
      | inl h ↦
          rw (h, by_index, rest, select-snoc p (oldest_first cs) c, h)
            (insert_last c (select p (oldest_first cs)) (omega (arith, below, v.0)))
      | inr h ↦ rw (h, select-snoc p (oldest_first cs) c, h) rest
    ]

IsForward-snoc :
    (n : ℕ) (ds : List Chunk) (c : Chunk)
    → IsForward n ds
    → c.offset_from ≡ n + length (text_of ds)
    → c.offset_to ≡ c.offset_from + length c.content
    → IsForward n (ds ++ (c ∷ []))
IsForward-snoc n [] c v a b = (omega (arith, a), omega (arith, a, b), tt)
IsForward-snoc n (d ∷ ds) c v a b =
    let size = length_append d.content (text_of ds) in
    (v.0, v.1, IsForward-snoc d.offset_to ds c v.2 (omega (arith, a, size, v.1)) b)

pub text_of-snoc :
    (ds : List Chunk) (c : Chunk) → text_of (ds ++ (c ∷ [])) ≡ text_of ds ++ c.content
text_of-snoc [] c = append_nil c.content
text_of-snoc (d ∷ ds) c =
    ap (λ l. d.content ++ l) (text_of-snoc ds c)
    ∙ sym (append_assoc d.content (text_of ds) c.content)

pub text_of-oldest_first : (cs : List Chunk) → text_of (oldest_first cs) ≡ chunk_text cs
unfolding chunk_text
text_of-oldest_first [] = refl
text_of-oldest_first (c ∷ cs) =
    text_of-snoc (oldest_first cs) c ∙ ap (λ l. l ++ c.content) (text_of-oldest_first cs)

pub IsForward-oldest_first : (cs : List Chunk) → IsTiled cs → IsForward 0 (oldest_first cs)
IsForward-oldest_first [] v = tt
IsForward-oldest_first (c ∷ cs) v =
    let size = ap length (text_of-oldest_first cs) in
    let at = last_offset-IsTiled cs v.3 in
    IsForward-snoc 0 (oldest_first cs) c (IsForward-oldest_first cs v.3)
      (omega (arith, v.1, at, size)) (omega (arith, v.1, v.2))
