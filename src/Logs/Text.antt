-- ===== src/Logs/Text.antt =====
-- The text of a job's log, which its chunks divide without gap or overlap.
use github_mcp.Prelude.{
  String, List, ℕ, ◌∷◌, length, ◌++◌, ◌≡◌, [], ◌+◌, arith, Bool-cases, ap, str_eq, refl,
  str_eq_refl, inr, false, inl, subst, str_eq_iff,
}
use github_mcp.Table.{select}
use github_mcp.Logs.{Chunk, LogDb, last_offset, next_index, job_chunks, new_chunk}

-- The chunks of one job, the newest first: numbered from 0, each starting where the one before it
-- ends and as long as its content.
abbrev pub IsTiled : List Chunk → Type 0
IsTiled [] = Unit
IsTiled (c ∷ cs) =
    (c.chunk_index ≡ length cs)
    × (c.offset_from ≡ last_offset cs)
    × (c.offset_to ≡ c.offset_from + length c.content)
    × IsTiled cs

-- The contents, the oldest first.
unfoldable pub chunk_text : List Chunk → List ℕ
chunk_text [] = []
chunk_text (c ∷ cs) = chunk_text cs ++ c.content

unfoldable pub log_text : String → LogDb → List ℕ
log_text job_id s = chunk_text (job_chunks job_id s)

pub length_append : (xs ys : List ℕ) → length (xs ++ ys) ≡ length xs + length ys
length_append [] ys = omega arith
length_append (x ∷ xs) ys = let rest = length_append xs ys in omega (arith, rest)

pub last_offset-IsTiled : (cs : List Chunk) → IsTiled cs → last_offset cs ≡ length (chunk_text cs)
unfolding chunk_text
last_offset-IsTiled [] v = refl
last_offset-IsTiled (c ∷ cs) v =
    let rest = last_offset-IsTiled cs v.3 in
    let joined = length_append (chunk_text cs) c.content in ground (arith, rest, joined, v.1, v.2)

pub next_index-IsTiled : (cs : List Chunk) → IsTiled cs → next_index cs ≡ length cs
next_index-IsTiled [] v = refl
next_index-IsTiled (c ∷ cs) v = let rest = next_index-IsTiled cs v.3 in ground (arith, rest, v.0)

-- The log of every job is whole.
abbrev pub IsLog : LogDb → Type 0
IsLog s = (job_id : String) → IsTiled (job_chunks job_id s)

module _ (id : String) (content : List ℕ) (now : ℕ) (s s' : LogDb)
    (e : s'.chunks ≡ new_chunk id content now s ∷ s.chunks) where
  pub chunks_self : job_chunks id s' ≡ new_chunk id content now s ∷ job_chunks id s
  unfolding job_chunks select
  chunks_self = rw (e, str_eq_refl id) refl

  pub chunks_other : (k : String) → str_eq id k ≡ false → job_chunks k s' ≡ job_chunks k s
  unfolding job_chunks select
  chunks_other k ne = rw (e, ne) refl

  pub append-IsLog : IsLog s → IsLog s'
  append-IsLog v k = elim (Bool-cases (str_eq id k)) [
    | inr ne ↦ rw (chunks_other k ne) (v k)
    | inl same ↦
        subst (λ i. IsTiled (job_chunks i s')) ((str_eq_iff id k).0 same)
          (rw chunks_self (next_index-IsTiled (job_chunks id s) (v id), refl, refl, v id))
  ]

  pub text_self : log_text id s' ≡ log_text id s ++ content
  unfolding log_text chunk_text
  text_self = ap chunk_text chunks_self

  pub text_other : (k : String) → str_eq id k ≡ false → log_text k s' ≡ log_text k s
  unfolding log_text
  text_other k ne = ap chunk_text (chunks_other k ne)
