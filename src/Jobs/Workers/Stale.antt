-- ===== src/Jobs/Workers/Stale.antt =====
-- What `reconcile_stale_workers` of app/ci_database.py keeps and what it clears.
use mathlib.Core.List.{Memᴰ}
use github_mcp.Jobs.Workers.{
  clear_stale, reconcile_stale_workers, clear_offline, is_busy, is_offline, is_stale, idle_row,
}
use github_mcp.Table.{update, count, select}
use github_mcp.Schema.{WorkerStatus, Db, Worker}
use github_mcp.Prelude.{
  Bool, ℕ, ◌≡◌, List, true, false, ◌+◌, ◌≤◌, arith, ◌⊎◌, str_eq, ◌∷◌, Bool-cases, ◌<◌, ◌∙◌, [], sym,
  inl, inr, subst, ap, refl,
}
use github_mcp.Jobs.Queue.{set_worker_idle, by_worker_id}
use mathlib.Core.List.Memᴰ

Memᴰ-update :
    {A : Type 0} (p : A → Bool) (f : A → A) (x : A) (xs : List A)
    → Memᴰ x xs
    → p x ≡ false
    → Memᴰ x (update p f xs)
unfolding update
Memᴰ-update p f x [] m h = absurd (Memᴰ.not-nil m)
Memᴰ-update p f x (y ∷ ys) (Memᴰ.head e) h =
    Memᴰ.head (e ∙ sym (rw (subst (λ z. p z ≡ false) e h) refl))
Memᴰ-update p f x (y ∷ ys) (Memᴰ.tail m) h = Memᴰ.tail (Memᴰ-update p f x ys m h)

Memᴰ_of_update :
    {A : Type 0} (p : A → Bool) (f : A → A) (x : A) (xs : List A)
    → Memᴰ x (update p f xs)
    → ((y : A) × (p y ≡ true) × (x ≡ f y)) ⊎ (p x ≡ false)
unfolding update
Memᴰ_of_update p f x [] m = absurd (Memᴰ.not-nil m)
Memᴰ_of_update p f x (y ∷ ys) (Memᴰ.tail m) = Memᴰ_of_update p f x ys m
Memᴰ_of_update p f x (y ∷ ys) (Memᴰ.head e) = elim (Bool-cases (p y)) [
  | inl h ↦ inl (y, h, e ∙ rw h refl)
  | inr h ↦ let same : x ≡ y = e ∙ rw h refl in inr (ap p same ∙ h)
]

not_busy : (s : WorkerStatus) → is_busy s ≡ false → s ≡ WorkerStatus.idle
not_busy s h = ground arith

-- Any Worker that a run of `reconcile_stale_workers` leaves with a heartbeat more than 120 ticks
-- before now is idle.
pub offline_worker_is_idle :
    (now : ℕ) (db : Db) (w : Worker)
    → Memᴰ w (reconcile_stale_workers now db).1.workers
    → w.last_heartbeat + 120 < now
    → w.status ≡ WorkerStatus.idle
unfolding reconcile_stale_workers clear_offline
offline_worker_is_idle now db w m late =
    elim (Memᴰ_of_update (is_offline now) idle_row w
      (clear_stale (select (is_stale db) db.workers) db).workers m) [
        | inl (y, h, e) ↦ ap (λ (x : Worker). x.status) e
        | inr h ↦ not_busy w.status (ground arith)
      ]

clear_stale-Mem :
    (w : Worker) (stale : List Worker) (db : Db)
    → count (λ (x : Worker). str_eq w.worker_id x.worker_id) stale ≡ 0
    → Memᴰ w db.workers
    → Memᴰ w (clear_stale stale db).workers
unfolding clear_stale set_worker_idle count
clear_stale-Mem w [] db h m = m
clear_stale-Mem w (x ∷ rest) db h m =
    clear_stale-Mem w rest (set_worker_idle x.worker_id db) (ground arith)
      (Memᴰ-update (by_worker_id x.worker_id) _ w db.workers m (ground arith))

-- A Worker whose last heartbeat is at most 120 ticks before now, and whose id is not the id of a
-- Worker that points to a finished or missing job, keeps its row, its status and job included,
-- through `reconcile_stale_workers`.
pub fresh_worker_is_kept :
    (now : ℕ) (db : Db) (w : Worker)
    → Memᴰ w db.workers
    → now ≤ w.last_heartbeat + 120
    → count (λ (x : Worker). str_eq w.worker_id x.worker_id) (select (is_stale db) db.workers) ≡ 0
    → Memᴰ w (reconcile_stale_workers now db).1.workers
unfolding reconcile_stale_workers clear_offline
fresh_worker_is_kept now db w m fresh keyed =
    Memᴰ-update (is_offline now) _ w _
      (clear_stale-Mem w (select (is_stale db) db.workers) db keyed m) (ground arith)
