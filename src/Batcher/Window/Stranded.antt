-- ===== src/Batcher/Window/Stranded.antt =====
-- The items that a window takes while a flush runs, and that no timer is left to flush.
use mathlib.Core.Path.{subst}
use karpenter_provider_aliba.Prelude.{
  List, arith, if_intro, not, ok, refl, sym, true, ℕ, ◌∙◌, ◌≡◌, ◌≢◌,
}
use karpenter_provider_aliba.Batcher.Window.{Window, add, armed, close, finish_flush}
use karpenter_provider_aliba.Batcher.Window.Steps.{
  Run, Step, adds, calls_back, closes, finishes, idle_expires, max_expires, next, start,
}

-- No timer runs, and no callback of one waits for the lock.
pub record IsQuiet (w : Window) : Type 0 where
  pub no_idle : w.idle_timer ≢ armed
  pub no_max : w.max_timer ≢ armed
  pub no_waiting : w.waiting ≡ 0

-- What a step without an `Add` and a first `Close` leaves alone.
record Stays (w w' : Window) : Type 0 where
  quiet : IsQuiet w'
  items_stay : w'.items ≡ w.items
  closed_stays : w'.closed ≡ w.closed

same : {w : Window} → IsQuiet w → Stays w w
same q = record { quiet = q; items_stay = refl; closed_stays = refl }

Stays-trans : {w w' w'' : Window} → Stays w w' → Stays w' w'' → Stays w w''
Stays-trans s t = record {
  quiet = t.quiet;
  items_stay = t.items_stay ∙ s.items_stay;
  closed_stays = t.closed_stays ∙ s.closed_stays;
}

closed_add : (item : ℕ) (w w' : Window) → w.closed ≡ true → add item w ≢ ok w'
unfolding add
closed_add item w w' shut e = ground (arith, e)

close_twice : (w : Window) → w.closed ≡ true → close w ≡ w
unfolding close
close_twice w shut =
    if_intro (λ v. v ≡ w) w.closed _ _ (λ _. refl) (λ opened. ground (arith, opened, shut))

finish_flush-Stays : (w : Window) → IsQuiet w → Stays w (finish_flush w)
unfolding finish_flush
finish_flush-Stays w q = record {
  quiet = record { no_idle = q.no_idle; no_max = q.no_max; no_waiting = q.no_waiting };
  items_stay = refl;
  closed_stays = refl;
}

Step-Stays :
    {taken : List ℕ} {w w' : Window} → w.closed ≡ true → IsQuiet w → Step taken w w' → Stays w w'
Step-Stays shut q (adds {w} {w'} item e) = absurd (closed_add item w w' shut e)
Step-Stays shut q (idle_expires e) = absurd (q.no_idle e)
Step-Stays shut q (max_expires e) = absurd (q.no_max e)
Step-Stays shut q (calls_back n e) = absurd (omega (arith, e, q.no_waiting))
Step-Stays shut q (finishes {w} e) = finish_flush-Stays w q
Step-Stays shut q (closes {w}) = subst (Stays w) (sym (close_twice w shut)) (same q)

Run-Stays :
    {taken : List ℕ} {w w' : Window} → w.closed ≡ true → IsQuiet w → Run taken w w' → Stays w w'
Run-Stays shut q start = same q
Run-Stays shut q (next run step) =
    let first = Run-Stays shut q run in
    Stays-trans first (Step-Stays (first.closed_stays ∙ shut) first.quiet step)

close-running :
    (w : Window)
    → w.flush_in_progress ≡ true
    → IsQuiet w
    → (IsQuiet (close w)) × ((close w).closed ≡ true) × ((close w).items ≡ w.items)
unfolding close
close-running w running q =
    if_intro (λ v. IsQuiet v × (v.closed ≡ true) × (v.items ≡ w.items)) w.closed _ _
      (λ shut. (q, shut, refl))
      (λ opened.
        if_intro (λ v. IsQuiet v × (v.closed ≡ true) × (v.items ≡ w.items))
          (not w.flush_in_progress) _ _ (λ idle. ground (arith, idle, running))
          (λ _. (
            record { no_idle = q.no_idle; no_max = q.no_max; no_waiting = q.no_waiting },
            refl,
            refl,
          )))

-- If `Close` comes while a flush runs, when no timer runs and no callback of a timer waits, then the
-- items that wait at that moment stay in the window whatever follows: no batch ever holds them.
pub Run-close_stranded :
    {taken : List ℕ} {w w' : Window}
    → w.flush_in_progress ≡ true
    → IsQuiet w
    → Run taken (close w) w'
    → w'.items ≡ w.items
Run-close_stranded {w = w} running q run =
    let (quiet, shut, kept) = close-running w running q in
    (Run-Stays shut quiet run).items_stay ∙ kept
