-- ===== src/Batcher/Window/Steps.antt =====
-- The steps of a batch window.
use karpenter_provider_aliba.Prelude.{List, [], ok, suc, true, ℕ, ◌++◌, ◌∷◌, ◌≡◌}
use karpenter_provider_aliba.Batcher.Window.{
  Timer, Window, add, armed, close, expired, finish_flush, flush_unless_running,
}

abbrev pub with_timers : Timer → Timer → ℕ → Window → Window
with_timers idle max n w = record {
  items = w.items;
  idle_timer = idle;
  max_timer = max;
  started = w.started;
  closed = w.closed;
  flush_in_progress = w.flush_in_progress;
  executing = w.executing;
  executed = w.executed;
  waiting = n;
}

-- One step; the first index lists the items that `Add` took in the step.
pub data Step : List ℕ → Window → Window → Type 0 where
  adds : {w w' : Window} (item : ℕ) → add item w ≡ ok w' → Step (item ∷ []) w w'
  idle_expires :
      {w : Window}
      → w.idle_timer ≡ armed
      → Step [] w (with_timers expired w.max_timer (suc w.waiting) w)
  max_expires :
      {w : Window}
      → w.max_timer ≡ armed
      → Step [] w (with_timers w.idle_timer expired (suc w.waiting) w)
  calls_back :
      {w : Window} (n : ℕ)
      → w.waiting ≡ suc n
      → Step [] w (flush_unless_running (with_timers w.idle_timer w.max_timer n w))
  finishes : {w : Window} → w.flush_in_progress ≡ true → Step [] w (finish_flush w)
  closes : {w : Window} → Step [] w (close w)

-- Steps in a row, with all items that were taken.
pub data Run : List ℕ → Window → Window → Type 0 where
  start : {w : Window} → Run [] w w
  next :
      {before now : List ℕ} {w w' w'' : Window}
      → Run before w w'
      → Step now w' w''
      → Run (before ++ now) w w''
