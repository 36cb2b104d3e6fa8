-- ===== src/Witnesses/Batches.antt =====
-- Examples for the batch window.
use karpenter_provider_aliba.Prelude.{[], false, refl, true, ◌++◌, ◌∷◌, ◌≡◌}
use karpenter_provider_aliba.Batcher.Window.{
  Window, add, armed, close, expired, finish_flush, flush_unless_running, new_batch_window,
}
use karpenter_provider_aliba.Batcher.Window.Fifo.{new_batch_window-fifo}
use karpenter_provider_aliba.Batcher.Window.Steps.{
  Run, adds, calls_back, finishes, idle_expires, max_expires, next, start,
}
use karpenter_provider_aliba.Batcher.Window.Stranded.{IsQuiet, Run-close_stranded}

-- The first batch is out, the second item is in the window, and both timers have expired in vain.
abbrev flushing : Window
flushing = record {
  items = 2 ∷ [];
  idle_timer = expired;
  max_timer = expired;
  started = true;
  closed = false;
  flush_in_progress = true;
  executing = 1 ∷ [];
  executed = [];
  waiting = 0;
}

flushing-reached : Run (1 ∷ 2 ∷ []) new_batch_window flushing
unfolding add flush_unless_running
flushing-reached =
    let added = next start (adds 1 refl) in
    let out = next (next added (idle_expires refl)) (calls_back 0 refl) in
    let again = next out (adds 2 refl) in
    let idle = next (next again (idle_expires refl)) (calls_back 0 refl) in
    next (next idle (max_expires refl)) (calls_back 0 refl)

new_batch_window-fifo_example :
    (flushing.executed ++ (flushing.executing ++ flushing.items) ≡ 1 ∷ 2 ∷ [])
    × (flushing.flush_in_progress ≡ false → flushing.executing ≡ [])
new_batch_window-fifo_example = new_batch_window-fifo flushing-reached

quiet : IsQuiet flushing
quiet = record { no_idle = λ e. cc; no_max = λ e. cc; no_waiting = refl }

stranded : Run [] (close flushing) (finish_flush (close flushing))
unfolding close
stranded = next start (finishes refl)

Run-close_stranded_example : (finish_flush (close flushing)).items ≡ 2 ∷ []
Run-close_stranded_example = Run-close_stranded {w = flushing} refl quiet stranded

abbrev waiting_one : Window
waiting_one = record new_batch_window {
  items = 1 ∷ [];
  idle_timer = armed;
  max_timer = armed;
  started = true;
}
