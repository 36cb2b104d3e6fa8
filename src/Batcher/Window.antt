-- ===== src/Batcher/Window.antt =====
-- `BatchWindow` of pkg/batcher/window.go. Each method holds the window's lock, so it is one step; the
-- goroutine of a flush and the callbacks of the timers are steps of their own. An item is a number.
pub mod Steps
pub mod Fifo
pub mod Stranded
use karpenter_provider_aliba.Prelude.{
  Bool, List, Outcome, [], err, false, if◌then◌else◌, is_empty, length, not, ok, true, ℕ, ◌++◌,
  ◌||◌, ◌∷◌,
}

-- A `*time.Timer` of `AfterFunc`: nil, running, or expired.
pub data Timer : Type 0 where
  nil_timer armed expired : Timer

-- `timer.Reset` on a timer that is not nil, which starts an expired one again.
abbrev pub reset : Timer → Timer
reset nil_timer = nil_timer
reset armed = armed
reset expired = armed

-- The window, with the batch of the running flush, the items executed so far, and the number of calls
-- of `flushIdle` and `flushMax` that wait for the lock.
pub record Window : Type 0 where
  pub items : List ℕ
  pub idle_timer : Timer
  pub max_timer : Timer
  pub started : Bool
  pub closed : Bool
  pub flush_in_progress : Bool
  pub executing : List ℕ
  pub executed : List ℕ
  pub waiting : ℕ

abbrev pub new_batch_window : Window
new_batch_window = record {
  items = [];
  idle_timer = nil_timer;
  max_timer = nil_timer;
  started = false;
  closed = false;
  flush_in_progress = false;
  executing = [];
  executed = [];
  waiting = 0;
}

pub data AddError : Type 0 where
  batch_window_closed : AddError

-- `Add`
unfoldable pub add : ℕ → Window → Outcome AddError Window
add item w =
    if w.closed
    then err batch_window_closed
    else ok (record {
      items = w.items ++ (item ∷ []);
      idle_timer = if not w.started then armed else reset w.idle_timer;
      max_timer = if not w.started then armed else w.max_timer;
      started = true;
      closed = w.closed;
      flush_in_progress = w.flush_in_progress;
      executing = w.executing;
      executed = w.executed;
      waiting = w.waiting;
    })

-- `flush`, up to the start of its goroutine.
unfoldable pub flush : Window → Window
flush w = if is_empty w.items || w.flush_in_progress then w else record {
  items = [];
  idle_timer = nil_timer;
  max_timer = nil_timer;
  started = false;
  closed = w.closed;
  flush_in_progress = true;
  executing = w.items;
  executed = w.executed;
  waiting = w.waiting;
}

-- `flushIdle` and `flushMax`, which differ in the reason that they record.
unfoldable pub flush_unless_running : Window → Window
unfolding flush
flush_unless_running w = if not w.flush_in_progress then flush w else w

-- The end of the goroutine: the executor has had the batch.
unfoldable pub finish_flush : Window → Window
finish_flush w = record {
  items = w.items;
  idle_timer = w.idle_timer;
  max_timer = w.max_timer;
  started = w.started;
  closed = w.closed;
  flush_in_progress = false;
  executing = [];
  executed = w.executed ++ w.executing;
  waiting = w.waiting;
}

abbrev pub set_closed : Window → Window
set_closed w = record {
  items = w.items;
  idle_timer = w.idle_timer;
  max_timer = w.max_timer;
  started = w.started;
  closed = true;
  flush_in_progress = w.flush_in_progress;
  executing = w.executing;
  executed = w.executed;
  waiting = w.waiting;
}

-- `Close`
unfoldable pub close : Window → Window
unfolding flush
close w =
    if w.closed then w else if not w.flush_in_progress then flush (set_closed w) else set_closed w

-- `Size`
unfoldable pub size : Window → ℕ
size w = length w.items
