-- ===== src/Logs/Pages.antt =====
-- What the loop of `get_log_chunks` yields: the start of the log's text behind the reader's offset.
use github_mcp.Prelude.{
  ℕ, List, ◌≡◌, ◌+◌, ltb, [], true, ◌∷◌, ◌≤◌, ◌⊎◌, false, ◌<◌, inl, length, ◌-◌, ◌++◌, none, some,
  suc, arith, refl, ap, subst, sym, ◌∙◌, Bool-cases, leb, inr, zero,
}
use github_mcp.Table.{select}
use github_mcp.Logs.Read.{
  fragments, clip_chunk, within_budget, take, Fragment, is_behind, drop, last_end, utf8_length,
}
use github_mcp.Logs.Clips.{IsForward, joined, from_on, text_of, clip_none, clip_chunk_lem}
use github_mcp.Logs.Slices.{length-drop, drop-append, drop_zero, drop-past}
use github_mcp.Logs.Growth.{append_assoc, append_nil}
use github_mcp.Logs.Text.{length_append}
use github_mcp.Logs.{Chunk, max}

-- Where a page that starts at `m` ends.
abbrev pub EndsAt : ℕ → List Fragment → Type 0
EndsAt m fs = (fs ≡ []) ⊎ (last_end fs ≡ some (m + length (joined fs)))

-- A page from `m` whose fragments are the start of `text`.
pub record IsPage (m : ℕ) (text : List ℕ) (fs : List Fragment) : Type 0 where
  pub rest : List ℕ
  pub text_is : text ≡ joined fs ++ rest
  pub ends : EndsAt m fs

last_end-cons :
    (m n : ℕ) (f : Fragment) (fs : List Fragment)
    → f.offset_to ≡ n
    → n ≡ m + length f.content
    → EndsAt n fs
    → last_end (f ∷ fs) ≡ some (m + length (joined (f ∷ fs)))
last_end-cons m n f [] a b h = ap some (a ∙ b ∙ ap (λ l. m + length l) (sym (append_nil f.content)))
last_end-cons m n f (g ∷ fs) a b (inl h) = absurd (cc h)
last_end-cons m n f (g ∷ fs) a b (inr h) =
    h ∙ ap some (let size = length_append f.content (joined (g ∷ fs)) in omega (arith, size, b))

IsPage-cons :
    (m n : ℕ) (text : List ℕ) (f : Fragment) (fs : List Fragment)
    → f.offset_to ≡ n
    → n ≡ m + length f.content
    → IsPage n text fs
    → IsPage m (f.content ++ text) (f ∷ fs)
IsPage-cons m n text f fs a b v = record {
  rest = v.rest;
  text_is = ap (λ l. f.content ++ l) v.text_is ∙ sym (append_assoc f.content (joined fs) v.rest);
  ends = inr (last_end-cons m n f fs a b v.ends);
}

-- The rows that the SELECT returns for a list of chunks.
abbrev pub rows : ℕ → ℕ → List Chunk → List Chunk
rows read lim cs = take lim (select (is_behind read none) cs)

-- The reader's position behind a chunk that adds nothing.
past_max : (read n len : ℕ) → n + len ≤ max read n → max read (n + len) ≡ max read n
past_max read n len h = ground arith

past_text :
    (read n : ℕ) (xs ys : List ℕ)
    → n + length xs ≤ max read n
    → drop (max read (n + length xs) - (n + length xs)) ys ≡ drop (max read n - n) (xs ++ ys)
past_text read n xs ys h =
    ap (λ k. drop k ys)
      (ap (λ k. k - (n + length xs)) (past_max read n (length xs) h) ∙ omega arith)
    ∙ sym (drop-past (max read n - n) xs ys (omega arith))

-- And behind one that is read.
inside_max : (read n to : ℕ) → max read n < to → max read to ≡ to
inside_max read n to h = ground arith

inside_text : (read n to : ℕ) (ys : List ℕ) → max read n < to → drop (max read to - to) ys ≡ ys
inside_text read n to ys h =
    ap (λ k. drop k ys) (ap (λ k. k - to) (inside_max read n to h) ∙ omega arith) ∙ drop_zero ys

inside_split :
    (read n : ℕ) (xs ys : List ℕ)
    → max read n < n + length xs
    → drop (max read n - n) (xs ++ ys) ≡ drop (max read n - n) xs ++ ys
inside_split read n xs ys h = drop-append (max read n - n) xs ys (omega arith)

IsPage-nil : (m : ℕ) (text : List ℕ) → IsPage m text []
IsPage-nil m text = record { rest = text; text_is = refl; ends = inl refl }

module _ (read n : ℕ) (c : Chunk) (cs : List Chunk) (a : c.offset_from ≡ n)
    (b : c.offset_to ≡ n + length c.content) where
  abbrev pub text_at : ℕ → List Chunk → List ℕ
  text_at at ds = drop (max read at - at) (text_of ds)

  skip-IsPage :
      (fs : List Fragment)
      → c.offset_to ≤ max read n
      → IsPage (max read c.offset_to) (text_at c.offset_to cs) fs
      → IsPage (max read n) (text_at n (c ∷ cs)) fs
  skip-IsPage fs h v =
      let low : n + length c.content ≤ max read n = omega (arith, b, h) in
      subst (λ m. IsPage m (text_at n (c ∷ cs)) fs)
        (ap (max read) b ∙ past_max read n (length c.content) low)
        (subst (λ t. IsPage (max read c.offset_to) t fs)
          (ap (λ k. drop (max read k - k) (text_of cs)) b
            ∙ past_text read n c.content (text_of cs) low)
          v)

  abbrev pub piece : Fragment
  piece = record {
    chunk_index = c.chunk_index;
    offset_from = max read n;
    offset_to = max read n + length (drop (max read n - n) c.content);
    content = drop (max read n - n) c.content;
  }

  read-IsPage :
      (fs : List Fragment)
      → max read n < c.offset_to
      → IsPage (max read c.offset_to) (text_at c.offset_to cs) fs
      → IsPage (max read n) (text_at n (c ∷ cs)) (piece ∷ fs)
  read-IsPage fs h v =
      let size = length-drop (max read n - n) c.content in
      let low : n ≤ max read n = ground arith in
      let to : piece.offset_to ≡ c.offset_to = omega (arith, size, b, h, low) in
      let inner =
        subst (λ m. IsPage m (text_of cs) fs) (inside_max read n c.offset_to h)
          (subst (λ t. IsPage (max read c.offset_to) t fs)
            (inside_text read n c.offset_to (text_of cs) h) v) in
      subst (λ t. IsPage (max read n) t (piece ∷ fs))
        (sym (inside_split read n c.content (text_of cs) (omega (arith, b, h))))
        (IsPage-cons (max read n) c.offset_to (text_of cs) piece fs to (sym to) inner)

fragments_skip :
    (read lim e k : ℕ) (c : Chunk) (rs : List Chunk)
    → clip_chunk (from_on read) c ≡ none
    → fragments (from_on read) none lim e k (c ∷ rs) ≡ fragments (from_on read) none lim e k rs
unfolding fragments
fragments_skip read lim e k c rs h = rw (h, fragments) refl

pub fragments_read :
    (read lim e k : ℕ) (c : Chunk) (f : Fragment) (rs : List Chunk)
    → clip_chunk (from_on read) c ≡ some f
    → (fragments (from_on read) none lim e k (c ∷ rs) ≡ f ∷ [])
      ⊎ (fragments (from_on read) none lim e k (c ∷ rs)
          ≡ f ∷ fragments (from_on read) none lim (e + utf8_length f.content) (k + 1) rs)
unfolding fragments within_budget
fragments_read read lim e k c f rs h = elim (Bool-cases (leb lim (k + 1))) [
  | inl d ↦ inl (rw (h, fragments, d) refl)
  | inr d ↦ inr (rw (h, fragments, d) refl)
]

pub rows_behind :
    (read L : ℕ) (c : Chunk) (cs : List Chunk)
    → ltb read c.offset_to ≡ false
    → rows read L (c ∷ cs) ≡ rows read L cs
unfolding select
rows_behind read L c cs h = rw h refl

pub rows_ahead :
    (read L : ℕ) (c : Chunk) (cs : List Chunk)
    → ltb read c.offset_to ≡ true
    → rows read (suc L) (c ∷ cs) ≡ c ∷ rows read L cs
unfolding select
rows_ahead read L c cs h = rw h refl

take_none : (cs : List Chunk) → take 0 cs ≡ []
take_none [] = refl
take_none (c ∷ cs) = refl

-- The loop over the rows of a whole log yields the log's text behind the reader's offset.
pub fragments-IsPage :
    (read L lim e k n : ℕ) (cs : List Chunk)
    → IsForward n cs
    → IsPage
        (max read n)
        (drop (max read n - n) (text_of cs))
        (fragments (from_on read) none lim e k (rows read L cs))
unfolding fragments select
fragments-IsPage read zero lim e k n cs v =
    rw (take_none (select (is_behind read none) cs))
      (IsPage-nil (max read n) (drop (max read n - n) (text_of cs)))
fragments-IsPage read (suc L) lim e k n [] v = IsPage-nil (max read n) (drop (max read n - n) [])
fragments-IsPage read (suc L) lim e k n (c ∷ cs) (a, b, v) =
    elim (Bool-cases (ltb read c.offset_to)) [
      | inr h ↦ rw (rows_behind read (suc L) c cs h) (
          skip-IsPage read n c cs a b _ (ground arith)
            (fragments-IsPage read (suc L) lim e k c.offset_to cs v))
      | inl h ↦ elim (Bool-cases (ltb (max read n) c.offset_to)) [
        | inr d ↦
            rw
              (
                rows_ahead read L c cs h,
                fragments_skip read lim e k c (rows read L cs) (clip_none read c (ground arith)),
              )
              (skip-IsPage read n c cs a b _ (ground arith)
                (fragments-IsPage read L lim e k c.offset_to cs v))
        | inl d ↦
            elim (fragments_read read lim e k c (piece read n c cs a b) (rows read L cs)
              (clip_chunk_lem read n c a b (ground arith))) [
                | inl x ↦
                    rw (rows_ahead read L c cs h, x)
                      (read-IsPage read n c cs a b [] (ground arith) (
                        IsPage-nil (max read c.offset_to) (text_at read n c cs a b c.offset_to cs)))
                | inr x ↦
                    rw (rows_ahead read L c cs h, x)
                      (read-IsPage read n c cs a b _ (ground arith) (
                        fragments-IsPage read L lim
                          (e + utf8_length (drop (max read n - n) c.content)) (k + 1) c.offset_to cs
                          v))
              ]
      ]
    ]
