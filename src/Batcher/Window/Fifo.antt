-- ===== src/Batcher/Window/Fifo.antt =====
-- What a window executes is what it took, once and in order.
use mathlib.Core.List.{append-nil, append_assoc}
use karpenter_provider_aliba.Prelude.{
  Bool-cases, List, List-cases, Outcome, [], ap, arith, err, false, if_intro, inl, inr, is_empty,
  not, ok, ok_injective, refl, sym, true, ℕ, ◌++◌, ◌||◌, ◌∙◌, ◌∷◌, ◌≡◌, ◌⊎◌,
}
use karpenter_provider_aliba.Batcher.Window.{
  AddError, Window, add, batch_window_closed, close, finish_flush, flush, flush_unless_running,
  new_batch_window, set_closed,
}
use karpenter_provider_aliba.Batcher.Window.Steps.{
  Run, Step, adds, calls_back, closes, finishes, idle_expires, max_expires, next, start,
  with_timers,
}

-- Everything the window holds or has passed on, oldest first.
abbrev pub history : Window → List ℕ
history w = w.executed ++ (w.executing ++ w.items)

-- The batch is empty unless a flush runs.
abbrev pub IsExclusive : Window → Type 0
IsExclusive w = w.flush_in_progress ≡ false → w.executing ≡ []

-- The items that a step took stand at the end of the history, and the invariant holds.
abbrev Extends : List ℕ → Window → Window → Type 0
Extends taken w w' = (history w' ≡ history w ++ taken) × IsExclusive w'

unchanged : (w w' : Window) → IsExclusive w → w' ≡ w → Extends [] w w'
unchanged w w' h e = (ap history e ∙ sym (append-nil (history w)), rw e h)

flush_cases :
    (w : Window)
    → (flush w ≡ w)
      ⊎ ((w.flush_in_progress ≡ false)
          × (history (flush w) ≡ w.executed ++ (w.items ++ []))
          × ((flush w).flush_in_progress ≡ true))
unfolding flush
flush_cases w = elim (Bool-cases (is_empty w.items || w.flush_in_progress)) [
  | inl e ↦ inl (rw (e, flush) refl)
  | inr e ↦ inr (ground (arith, e), rw (e, flush) refl, rw (e, flush) refl)
]

flush-Extends : (w : Window) → IsExclusive w → Extends [] w (flush w)
flush-Extends w h = elim (flush_cases w) [
  | inl e ↦ unchanged w (flush w) h e
  | inr (idle, reads, running) ↦ (
    reads
        ∙ (sym (append_assoc w.executed w.items [])
            ∙ ap (λ xs. (w.executed ++ xs) ++ []) (sym (ap (λ xs. xs ++ w.items) (h idle)))),
    λ stopped. ground (arith, running, stopped),
  )
]

add-Extends :
    (item : ℕ) (w w' : Window) → IsExclusive w → add item w ≡ ok w' → Extends (item ∷ []) w w'
unfolding add
add-Extends item w w' h e = elim (Bool-cases w.closed) [
  | inl shut ↦ absurd_ok (rw (shut, add) at e)
  | inr opened ↦
      let grown = ok_injective (rw (opened, add) at e) in
      (
        sym (ap history grown)
            ∙ (ap (◌++◌ w.executed) (sym (append_assoc w.executing w.items (item ∷ [])))
                ∙ sym (append_assoc w.executed (w.executing ++ w.items) (item ∷ []))),
        λ stopped.
            sym (ap (λ v. v.executing) grown) ∙ h (ap (λ v. v.flush_in_progress) grown ∙ stopped),
      )
]
  where
    absurd_ok :
        {A : Type 0} → ◌≡◌ {A = Outcome AddError Window} (err batch_window_closed) (ok w') → A
    absurd_ok c = cc

flush_unless_running-Extends : (w : Window) → IsExclusive w → Extends [] w (flush_unless_running w)
unfolding flush_unless_running
flush_unless_running-Extends w h =
    if_intro (Extends [] w) (not w.flush_in_progress) (flush w) w (λ idle. flush-Extends w h)
      (λ running. unchanged w w h refl)

close-Extends : (w : Window) → IsExclusive w → Extends [] w (close w)
unfolding close
close-Extends w h =
    if_intro (Extends [] w) w.closed _ _ (λ shut. unchanged w w h refl)
      (λ opened.
        if_intro (Extends [] w) (not w.flush_in_progress) _ _
          (λ idle. flush-Extends (set_closed w) h) (λ running. (sym (append-nil (history w)), h)))

finish_flush-Extends : (w : Window) → Extends [] w (finish_flush w)
unfolding finish_flush
finish_flush-Extends w =
    (append_assoc w.executed w.executing w.items ∙ sym (append-nil (history w)), λ stopped. refl)

Step-Extends :
    {taken : List ℕ} {w w' : Window} → IsExclusive w → Step taken w w' → Extends taken w w'
Step-Extends h (adds {w} {w'} item e) = add-Extends item w w' h e
Step-Extends h (idle_expires {w} e) = (sym (append-nil (history w)), h)
Step-Extends h (max_expires {w} e) = (sym (append-nil (history w)), h)
Step-Extends h (calls_back {w} n e) =
    flush_unless_running-Extends (with_timers w.idle_timer w.max_timer n w) h
Step-Extends h (finishes {w} e) = finish_flush-Extends w
Step-Extends h (closes {w}) = close-Extends w h

Run-Extends : {taken : List ℕ} {w w' : Window} → IsExclusive w → Run taken w w' → Extends taken w w'
Run-Extends h (start {w}) = (sym (append-nil (history w)), h)
Run-Extends h (next {before} {now} {w} {w'} {w''} run step) =
    let (so_far, exclusive) = Run-Extends h run in
    let (more, still) = Step-Extends exclusive step in
    (more ∙ (ap (λ xs. xs ++ now) so_far ∙ append_assoc (history w) before now), still)

-- Whatever the order of the calls, of the timers and of the ends of the flushes: the items that a new
-- window has executed, then those of the running batch, then those that wait, are together the items
-- that `Add` took, in the order of the calls, each once; and a batch is out only while a flush runs.
pub new_batch_window-fifo :
    {taken : List ℕ} {w : Window}
    → Run taken new_batch_window w
    → (w.executed ++ (w.executing ++ w.items) ≡ taken)
      × (w.flush_in_progress ≡ false → w.executing ≡ [])
new_batch_window-fifo run = Run-Extends (λ stopped. refl) run

-- If no flush runs and no batch is out, then `Close` and the end of its flush leave a closed window
-- in which nothing waits: every item that waited has been executed, after those executed before.
pub finish_flush-close :
    (w : Window)
    → w.closed ≡ false
    → w.flush_in_progress ≡ false
    → w.executing ≡ []
    → let after = finish_flush (close w) in
      (after.items ≡ []) × (after.executed ≡ w.executed ++ w.items) × (after.closed ≡ true)
unfolding finish_flush close flush
finish_flush-close w opened idle none_out = elim (List-cases w.items) [
  | inl empty ↦ rw (opened, idle, empty, none_out) (refl, refl, refl)
  | inr (x, rest, are) ↦ rw (opened, idle, are) (refl, refl, refl)
]
