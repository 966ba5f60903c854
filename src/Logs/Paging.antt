-- ===== src/Logs/Paging.antt =====
-- A page of a plain read, without a range and a byte budget, against the text of the log.
use github_mcp.Logs.Text.{chunk_text, IsTiled, last_offset-IsTiled, length_append, IsLog, log_text}
use github_mcp.Table.{find}
use github_mcp.Prelude.{
  List, ℕ, ◌∷◌, is_some, ◌++◌, ◌≡◌, ap, ◌≤◌, none, ◌+◌, length, [], ◌<◌, Bool-cases, refl, false,
  inl, arith, inr, suc, ltb, subst, String, some, ◌⊎◌, zero,
}
use github_mcp.Logs.Read.{
  is_behind, fragments, Fragment, rows_of, more_behind, drop, last_end, take, ReadArgs, LogPage,
  get_log_chunks, clip, read_page,
}
use github_mcp.Logs.Pages.{
  IsPage, fragments-IsPage, rows, rows_behind, fragments_read, piece, rows_ahead,
}
use github_mcp.Schema.{ℤ, Job, pos}
use github_mcp.Requests.Queries.{get_job}
use github_mcp.Tx.{ok}
use github_mcp.Logs.Order.{
  text_of-oldest_first, oldest_first, by_index-select, IsForward-oldest_first,
}
use github_mcp.Logs.Clips.{IsForward, from_on, joined, text_of, clip_chunk_lem}
use github_mcp.Logs.Slices.{length-drop}
use github_mcp.Logs.{Chunk, LogDb, job_chunks, last_offset, max}

-- A page that could not be empty.
fragments_some :
    (read L lim e k n : ℕ) (cs : List Chunk)
    → IsForward n cs
    → n ≤ read
    → read < n + length (text_of cs)
    → fragments (from_on read) none lim e k (rows read (suc L) cs) ≡ []
    → ⊥
fragments_some read L lim e k n [] v h k' x = absurd (omega (arith, h, k'))
fragments_some read L lim e k n (c ∷ cs) (a, b, v) h k' x =
    elim (Bool-cases (ltb read c.offset_to)) [
      | inr m ↦
          let size = length_append c.content (text_of cs) in
          fragments_some read L lim e k c.offset_to cs v (ground (arith, m))
            (omega (arith, b, size, k')) (rw (rows_behind read (suc L) c cs m) at x)
      | inl m ↦
          let at : max read n ≡ read = ground (arith, h) in
          elim (fragments_read read lim e k c (piece read n c cs a b) (rows read L cs)
            (clip_chunk_lem read n c a b (ground (arith, b, m, at)))) [
              | inl y ↦ absurd (cc (y, rows_ahead read L c cs m, x))
              | inr y ↦ absurd (cc (y, rows_ahead read L c cs m, x))
            ]
    ]

nothing_behind :
    (x : ℕ) (cs : List Chunk) → is_some (find (is_behind x none) cs) ≡ false → last_offset cs ≤ x
unfolding find
nothing_behind x [] h = omega arith
nothing_behind x (c ∷ cs) h = let rest = nothing_behind x cs in ground (arith, rest)

no_rest : (xs ys zs : List ℕ) → xs ≡ ys ++ zs → length xs ≤ length ys → zs ≡ []
no_rest xs ys [] e h = refl
no_rest xs ys (z ∷ zs) e h =
    let size = length_append ys (z ∷ zs) in absurd (omega (arith, h, ap length e, size))

page_rows :
    (n L : ℕ) (cs : List Chunk)
    → IsTiled cs
    → rows_of (from_on n) (suc L) cs ≡ rows n (suc L) (oldest_first cs)
unfolding rows_of
page_rows n L cs v = ap (take (suc L)) (by_index-select (is_behind n none) cs v)

-- The fragments of a page from `n` on.
abbrev page_of : ℕ → ℕ → List Chunk → List Fragment
page_of n L cs = fragments (from_on n) none (suc L) 0 0 (rows n (suc L) (oldest_first cs))

page_of-IsPage :
    (n L : ℕ) (cs : List Chunk) → IsTiled cs → IsPage n (drop n (chunk_text cs)) (page_of n L cs)
page_of-IsPage n L cs v =
    let at : max n 0 ≡ n = ground arith in
    subst (λ t. IsPage n (drop n t) (page_of n L cs)) (text_of-oldest_first cs)
      (subst (λ m. IsPage m (drop m (text_of (oldest_first cs))) (page_of n L cs)) at
        (subst (λ m. IsPage (max n 0) (drop m (text_of (oldest_first cs))) (page_of n L cs))
          (omega arith)
          (fragments-IsPage n (suc L) (suc L) 0 0 0 (oldest_first cs)
            (IsForward-oldest_first cs v))))

-- A page without a successor is complete.
last_page :
    (n L : ℕ) (cs : List Chunk)
    → IsTiled cs
    → (pg : IsPage n (drop n (chunk_text cs)) (page_of n L cs))
    → more_behind (last_end (page_of n L cs)) none cs ≡ false
    → pg.rest ≡ []
last_page n L cs v pg h =
    let size = length-drop n (chunk_text cs) in
    let whole = last_offset-IsTiled cs v in
    no_rest (drop n (chunk_text cs)) (joined (page_of n L cs)) pg.rest pg.text_is (elim pg.ends [
      | inr x ↦
          let end = nothing_behind (n + length (joined (page_of n L cs))) cs (rw x at h) in
          omega (arith, size, whole, end)
      | inl x ↦ elim (Bool-cases (ltb n (length (chunk_text cs)))) [
        | inr m ↦ ground (arith, size, m)
        | inl m ↦
            let long = ap length (text_of-oldest_first cs) in
            absurd (
              fragments_some n L (suc L) 0 0 0 (oldest_first cs) (IsForward-oldest_first cs v)
                (omega arith) (ground (arith, m, long)) x)
      ]
    ])

abbrev Pages : ℕ → List ℕ → LogPage → Type 0
Pages n text page =
    (rest : List ℕ) × (text ≡ joined page.chunks ++ rest)
    × (((page.next_offset ≡ none) × (rest ≡ []))
        ⊎ (page.next_offset ≡ some (n + length (joined page.chunks))))

closed_page :
    (n L total : ℕ) (cs : List Chunk)
    → IsTiled cs
    → Pages n (drop n (chunk_text cs)) (read_page (from_on n) none (suc L) total cs)
unfolding read_page
closed_page n L total cs v =
    let pg = page_of-IsPage n L cs v in
    rw (page_rows n L cs v) (
      pg.rest,
      pg.text_is,
      elim (Bool-cases (more_behind (last_end (page_of n L cs)) none cs)) [
        | inr m ↦ inl (rw m (refl, last_page n L cs v pg m))
        | inl m ↦ elim pg.ends [ inl x ↦ absurd (cc (rw x at m)) | inr x ↦ inr (rw m x) ]
      ],
    )

-- A limit below 1 counts as 1.
row_limit : (k : ℕ) → (L : ℕ) × (max k 1 ≡ suc L)
row_limit zero = (0, refl)
row_limit (suc k) = (k, ground arith)

-- The arguments of a reader that gives an offset and a limit.
abbrev pub plain_read : (offset : ℕ) (limit : ℤ) → ReadArgs
plain_read offset limit = record {
  offset = pos offset;
  limit = limit;
  range_start = none;
  range_end = none;
  max_bytes = none;
}

page_read :
    (id : String) (n L : ℕ) (limit : ℤ) (s : LogDb) (j : Job)
    → get_job s.db id ≡ some j
    → max (clip limit) 1 ≡ suc L
    → get_log_chunks id (plain_read n limit) s
      ≡ ok (read_page (from_on n) none (suc L) j.log_total_bytes (job_chunks id s))
unfolding get_log_chunks
page_read id n L limit s j h e =
    let at : max n 0 ≡ n = ground arith in rw (h, get_log_chunks, at, e) refl

-- On whole logs a read of a stored job's log from the offset `n`, without a range and a byte
-- budget, returns a page whose joined fragments are the start of the log's text from `n` on; where
-- it names no next offset they are all of it, and a next offset is `n` plus their length.
pub get_log_chunks-text :
    (id : String) (n : ℕ) (limit : ℤ) (s : LogDb) (j : Job)
    → IsLog s
    → get_job s.db id ≡ some j
    → (page : LogPage) × (get_log_chunks id (plain_read n limit) s ≡ ok page)
      × (rest : List ℕ) × (drop n (log_text id s) ≡ joined page.chunks ++ rest)
      × (((page.next_offset ≡ none) × (rest ≡ []))
          ⊎ (page.next_offset ≡ some (n + length (joined page.chunks))))
unfolding get_log_chunks log_text
get_log_chunks-text id n limit s j v h =
    let (L, e) = row_limit (clip limit) in
    let (rest, text, next) = closed_page n L j.log_total_bytes (job_chunks id s) (v id) in
    (
      read_page (from_on n) none (suc L) j.log_total_bytes (job_chunks id s),
      page_read id n L limit s j h e,
      rest,
      text,
      next,
    )
