-- ===== src/Logs/Clips.antt =====
-- The part of one chunk that a reader without a range and a byte budget gets.
use github_mcp.Prelude.{
  ℕ, List, ◌∷◌, ◌≤◌, length, ◌<◌, ◌≡◌, ◌++◌, none, [], ◌-◌, ◌+◌, arith, ap, ◌∙◌, some, refl, ltb,
  false, leb, true,
}
use github_mcp.Logs.Read.{clip_chunk, Bounds, Fragment, drop, take, insert_chunk_by, slice}
use github_mcp.Logs.Slices.{length-drop, take_all}
use github_mcp.Logs.{Chunk, next_index, is_empty, max, min}

-- Chunks, the oldest first, that start at `n`.
abbrev pub IsForward : ℕ → List Chunk → Type 0
IsForward n [] = Unit
IsForward n (c ∷ cs) =
    (c.offset_from ≡ n) × (c.offset_to ≡ n + length c.content) × IsForward c.offset_to cs

abbrev pub text_of : List Chunk → List ℕ
text_of [] = []
text_of (c ∷ cs) = c.content ++ text_of cs

abbrev pub joined : List Fragment → List ℕ
joined [] = []
joined (f ∷ fs) = f.content ++ joined fs

pub insert_last :
    (c : Chunk) (ds : List Chunk)
    → next_index ds ≤ c.chunk_index
    → insert_chunk_by c ds ≡ ds ++ (c ∷ [])
insert_last c [] h = refl
insert_last c (d ∷ ds) h =
    let rest = insert_last c ds (ground arith) in
    let behind : ltb c.chunk_index d.chunk_index ≡ false = ground arith in rw (behind, rest) refl

pub next_index-snoc :
    (ds : List Chunk) (c : Chunk) (n : ℕ)
    → next_index ds ≤ n
    → c.chunk_index < n
    → next_index (ds ++ (c ∷ [])) ≤ n
next_index-snoc [] c n h k = ground arith
next_index-snoc (d ∷ ds) c n h k =
    let rest = next_index-snoc ds c n (ground arith) k in ground (arith, rest)

abbrev pub from_on : ℕ → Bounds
from_on read = record { read = read; start = 0; stop = none }

pub clip_by :
    (read start : ℕ) (content : List ℕ) (c : Chunk)
    → max (max read c.offset_from) 0 ≡ start
    → slice (start - c.offset_from) (min (c.offset_to - c.offset_from) (length c.content)) c.content
      ≡ content
    → leb c.offset_to start ≡ false
    → is_empty content ≡ false
    → clip_chunk (from_on read) c
      ≡ some (record {
        chunk_index = c.chunk_index;
        offset_from = start;
        offset_to = start + length content;
        content = content;
      })
unfolding clip_chunk
clip_by read start content c a b d e = rw (a, b, d, e) refl

pub not_empty : (xs : List ℕ) → 0 < length xs → is_empty xs ≡ false
not_empty [] h = absurd (omega (arith, h))
not_empty (x ∷ xs) h = refl

-- The rest of a chunk from the reader's offset on, or all of it.
pub clip_chunk_lem :
    (read n : ℕ) (c : Chunk)
    → c.offset_from ≡ n
    → c.offset_to ≡ n + length c.content
    → max read n < n + length c.content
    → clip_chunk (from_on read) c
      ≡ some (record {
        chunk_index = c.chunk_index;
        offset_from = max read n;
        offset_to = max read n + length (drop (max read n - n) c.content);
        content = drop (max read n - n) c.content;
      })
clip_chunk_lem read n c a b h =
    let size = length-drop (max read n - n) c.content in
    let low : n ≤ max read n = ground arith in
    clip_by read (max read n) (drop (max read n - n) c.content) c (ground (arith, a))
      (ap (λ k. slice (max read n - k) (min (c.offset_to - k) (length c.content)) c.content) a
        ∙ ap (λ k. take k (drop (max read n - n) c.content)) (ground (arith, b, low, size))
        ∙ take_all (drop (max read n - n) c.content) (length (drop (max read n - n) c.content))
            (omega arith))
      (ground (arith, b, h))
      (not_empty (drop (max read n - n) c.content) (omega (arith, size, h, low)))

-- A chunk that is empty, or ends before the reader's offset, adds nothing.
pub clip_none :
    (read : ℕ) (c : Chunk)
    → c.offset_to ≤ max read c.offset_from
    → clip_chunk (from_on read) c ≡ none
unfolding clip_chunk
clip_none read c h =
    let past : leb c.offset_to (max (max read c.offset_from) 0) ≡ true = ground (arith, h) in
    rw past refl
