-- ===== src/Logs/Read.antt =====
-- `get_log_chunks` and `_utf8_prefix` of services/github-action-service/app/ci_database.py.
use github_mcp.Schema.{ℤ, pos, negsuc}
use github_mcp.Prelude.{
  Option, String, List, ℕ, ◌-◌, none, ◌∷◌, some, if◌then◌else◌, Bool, [], ltb, false, leb, length,
  ◌+◌, suc, zero, is_some, true, ◌&&◌, ◌||◌, not,
}
use github_mcp.Table.{select, find}
use github_mcp.Tx.{Result, ok, err, value_error}
use github_mcp.Requests.Queries.{get_job}
use github_mcp.Logs.{Chunk, LogDb, job_chunks, max, min, is_empty}

-- max(int(n), 0)
abbrev pub clip : ℤ → ℕ
clip (pos n) = n
clip (negsuc n) = 0

abbrev pub clip_option : Option ℤ → Option ℕ
clip_option none = none
clip_option (some n) = some (clip n)

abbrev pub drop : ℕ → List ℕ → List ℕ
drop n [] = []
drop zero (x ∷ xs) = x ∷ xs
drop (suc n) (x ∷ xs) = drop n xs

abbrev pub take : {A : Type 0} → ℕ → List A → List A
take n [] = []
take zero (x ∷ xs) = []
take (suc n) (x ∷ xs) = x ∷ take n xs

-- content[a:b]
abbrev pub slice : ℕ → ℕ → List ℕ → List ℕ
slice a b xs = take (b - a) (drop a xs)

-- ORDER BY chunk_index
abbrev pub insert_chunk_by : Chunk → List Chunk → List Chunk
insert_chunk_by c [] = c ∷ []
insert_chunk_by c (d ∷ ds) =
    let rest = insert_chunk_by c ds in
    if ltb c.chunk_index d.chunk_index then c ∷ d ∷ ds else d ∷ rest

unfoldable pub by_index : List Chunk → List Chunk
by_index [] = []
by_index (c ∷ cs) = insert_chunk_by c (by_index cs)

-- The number of bytes of a code point in UTF-8.
abbrev pub utf8_size : ℕ → ℕ
utf8_size c = if ltb c 0x80 then 1 else if ltb c 0x800 then 2 else if ltb c 0x10000 then 3 else 4

abbrev pub utf8_length : List ℕ → ℕ
utf8_length [] = 0
utf8_length (c ∷ cs) = utf8_size c + utf8_length cs

-- _utf8_prefix: the code points that lie whole within the budget. The texts have no lone
-- surrogates, which UTF-8 cannot encode.
unfoldable pub utf8_prefix : List ℕ → (max_bytes : ℕ) → List ℕ
utf8_prefix [] n = []
utf8_prefix (c ∷ cs) n =
    let rest = utf8_prefix cs (n - utf8_size c) in if leb (utf8_size c) n then c ∷ rest else []

pub record Fragment : Type 0 where
  pub chunk_index : ℕ
  pub offset_from : ℕ
  pub offset_to : ℕ
  pub content : List ℕ

pub record ReadArgs : Type 0 where
  pub offset : ℤ
  pub limit : ℤ
  pub range_start : Option ℤ
  pub range_end : Option ℤ
  pub max_bytes : Option ℤ

-- The reply, less the job's id and its `truncated`, which nothing sets. The reply for a job that is
-- not stored has no `has_more`; here it is false.
pub record LogPage : Type 0 where
  pub chunks : List Fragment
  pub next_offset : Option ℕ
  pub total_bytes : ℕ
  pub has_more : Bool

-- `read_offset`, `bounded_start` and `bounded_end`
pub record Bounds : Type 0 where
  pub read : ℕ
  pub start : ℕ
  pub stop : Option ℕ

abbrev pub stop_of : Option ℕ → ℕ → ℕ
stop_of none to = to
stop_of (some stop) to = min to stop

-- bounded_end < bounded_start
abbrev pub is_inverted : Option ℤ → Option ℤ → Bool
is_inverted (some start) (some (pos stop)) = ltb stop (clip start)
is_inverted (some start) (some (negsuc stop)) = true
is_inverted _ _ = false

abbrev pub or_zero : Option ℕ → ℕ
or_zero none = 0
or_zero (some n) = n

abbrev pub bounds_of : ReadArgs → Bounds
bounds_of a = record {
  read = max (clip a.offset) (or_zero (clip_option a.range_start));
  start = or_zero (clip_option a.range_start);
  stop = clip_option a.range_end;
}

-- The WHERE of the SELECT behind job_id; from `from` on.
abbrev pub is_behind : ℕ → Option ℕ → Chunk → Bool
is_behind from none c = ltb from c.offset_to
is_behind from (some stop) c = ltb from c.offset_to && ltb c.offset_from stop

-- bounded_end <= from
abbrev pub is_before : Option ℕ → ℕ → Bool
is_before none from = false
is_before (some stop) from = leb stop from

unfoldable pub rows_of : Bounds → (row_limit : ℕ) → List Chunk → List Chunk
rows_of b row_limit cs =
    if is_before b.stop b.read
    then []
    else take row_limit (by_index (select (is_behind b.read b.stop) cs))

-- The part of a chunk inside the bounds; `none` is `continue`.
unfoldable pub clip_chunk : Bounds → Chunk → Option Fragment
clip_chunk b r =
    let start = max (max b.read r.offset_from) b.start in
    let stop = stop_of b.stop r.offset_to in
    let content =
      slice (start - r.offset_from) (min (stop - r.offset_from) (length r.content)) r.content in
    if leb stop start || is_empty content
    then none
    else some (record {
      chunk_index = r.chunk_index;
      offset_from = start;
      offset_to = start + length content;
      content = content;
    })

-- The part of a fragment inside the byte budget, and whether it ends before the chunk does; `none`
-- is `break`.
unfoldable pub within_budget :
    (max_bytes : Option ℕ) (emitted stop : ℕ) → Fragment → Option (Fragment × Bool)
within_budget none emitted stop f = some (f, false)
within_budget (some m) emitted stop f =
    let content = utf8_prefix f.content (m - emitted) in
    if is_empty content
    then none
    else some (
      record f { offset_to = f.offset_from + length content; content = content },
      ltb (f.offset_from + length content) stop,
    )

-- The loop over the rows.
unfoldable pub fragments :
    Bounds → (max_bytes : Option ℕ) → (row_limit emitted count : ℕ) → List Chunk → List Fragment
fragments b m lim emitted count [] = []
fragments b m lim emitted count (r ∷ rs) = elim (clip_chunk b r) [
  | none ↦ fragments b m lim emitted count rs
  | some f ↦ elim (within_budget m emitted (stop_of b.stop r.offset_to) f) [
    | none ↦ []
    | some (g, stopped) ↦ elim (stopped || leb lim (count + 1)) [
      | true ↦ g ∷ []
      | false ↦ g ∷ fragments b m lim (emitted + utf8_length g.content) (count + 1) rs
    ]
  ]
]

abbrev pub last_end : List Fragment → Option ℕ
last_end [] = none
last_end (f ∷ []) = some f.offset_to
last_end (f ∷ g ∷ fs) = last_end (g ∷ fs)

abbrev pub more_behind : Option ℕ → Option ℕ → List Chunk → Bool
more_behind none stop cs = false
more_behind (some n) stop cs = not (is_before stop n) && is_some (find (is_behind n stop) cs)

abbrev pub total_in : Option ℕ → Option ℕ → (job_total : ℕ) → ℕ
total_in (some start) (some stop) job_total = stop - start
total_in _ _ job_total = job_total

unfoldable pub read_page :
    Bounds → (max_bytes : Option ℕ) → (row_limit : ℕ) → (total : ℕ) → List Chunk → LogPage
read_page b m lim total cs =
    let fs = fragments b m lim 0 0 (rows_of b lim cs) in
    let more = more_behind (last_end fs) b.stop cs in
    record {
      chunks = fs;
      next_offset = if more then last_end fs else none;
      total_bytes = total;
      has_more = more;
    }

-- get_log_chunks
unfoldable pub get_log_chunks : String → ReadArgs → LogDb → Result LogPage
get_log_chunks job_id a s = elim (get_job s.db job_id) [
  | none ↦ ok (record { chunks = []; next_offset = none; total_bytes = 0; has_more = false })
  | some j ↦
      if is_inverted a.range_start a.range_end
      then err value_error
      else ok (
          read_page (bounds_of a) (clip_option a.max_bytes) (max (clip a.limit) 1)
            (total_in (clip_option a.range_start) (clip_option a.range_end) j.log_total_bytes)
            (job_chunks job_id s))
]
