-- ===== src/Usb/Infinity/Queue.antt =====
-- The queue of changes of src/usb/infinity.rs, against a plain list of reports.
use mathlib.Core.List.{append_assoc}
use omniportal.Base.{
  ℕ, zero, suc, ◌≡◌, refl, sym, ap, ap₂, List, [], ◌∷◌, ◌++◌, Option, none, some, length, replicate,
  take, ◌-◌, ◌∙◌, arith, map,
}
use omniportal.Usb.Infinity.Packets.{Report}
use omniportal.Usb.Infinity.{
  ReportQueue, InfinityBaseState, push_report, pop_report, pop_change_response, popped,
}

-- The reports stand at the front of the array, in their order, and the rest of the array is free.
abbrev pub Holds : ℕ → List Report → ReportQueue → Type 0
Holds free reports queue = queue ≡ map some reports ++ replicate free none

free_none :
    (free : ℕ) → replicate {A = Option Report} (suc free) none ≡ replicate free none ++ none ∷ []
free_none zero = refl
free_none (suc free) = ap (◌∷◌ none) (free_none free)

push_free :
    (report : Report) (free : ℕ) (reports : List Report)
    → push_report report (map some reports ++ replicate (suc free) none)
      ≡ map some (reports ++ report ∷ []) ++ replicate free none
unfolding push_report
push_free report free [] = refl
push_free report free (r ∷ reports) = ap (◌∷◌ (some r)) (push_free report free reports)

push_full :
    (report : Report) (reports : List Report)
    → push_report report (map some reports ++ []) ≡ map some reports ++ []
unfolding push_report
push_full report [] = refl
push_full report (r ∷ reports) = ap (◌∷◌ (some r)) (push_full report reports)

append_free :
    (free : ℕ) (reports : List Report)
    → (map some reports ++ replicate free none) ++ none ∷ []
      ≡ map some reports ++ replicate (suc free) none
append_free free [] = sym (free_none free)
append_free free (r ∷ reports) = ap (◌∷◌ (some r)) (append_free free reports)

-- A report that is pushed while a place is free goes behind the others,
pub push_report-Holds :
    (report : Report) (free : ℕ) (reports : List Report) (queue : ReportQueue)
    → Holds (suc free) reports queue
    → Holds free (reports ++ report ∷ []) (push_report report queue)
push_report-Holds report free reports queue h = rw h (push_free report free reports)

-- and is lost if none is.
pub push_report-full :
    (report : Report) (reports : List Report) (queue : ReportQueue)
    → Holds 0 reports queue
    → Holds 0 reports (push_report report queue)
push_report-full report reports queue h = rw h (push_full report reports)

-- The oldest report is popped.
pub pop_report-Holds :
    (report : Report) (free : ℕ) (reports : List Report) (queue : ReportQueue)
    → Holds free (report ∷ reports) queue
    → (rest : ReportQueue) × (pop_report queue ≡ some (report, rest))
      × Holds (suc free) reports rest
unfolding pop_report
pop_report-Holds report free reports queue h = (
  (map some reports ++ replicate free none) ++ none ∷ [],
  ap pop_report h,
  append_free free reports,
)

pop_change_response-Holds :
    (report : Report) (free : ℕ) (reports : List Report) (state : InfinityBaseState)
    → Holds free (report ∷ reports) state.queued_changes
    → ((pop_change_response state).1 ≡ some report)
      × Holds (suc free) reports (pop_change_response state).0.queued_changes
unfolding pop_change_response
pop_change_response-Holds report free reports state h =
    let p = pop_report-Holds report free reports state.queued_changes h in rw p.1 (refl, p.2)

pop_change_response-empty :
    (free : ℕ) (state : InfinityBaseState)
    → Holds free [] state.queued_changes
    → pop_change_response state ≡ (state, none)
unfolding pop_change_response pop_report
pop_change_response-empty zero state h = ap (λ q. popped state (pop_report q)) h
pop_change_response-empty (suc free) state h = ap (λ q. popped state (pop_report q)) h

-- Popping once for each report that the queue holds.
unfoldable pub pops : ℕ → InfinityBaseState → InfinityBaseState × List (Option Report)
pops zero state = (state, [])
pops (suc n) state =
    let first = pop_change_response state in let rest = pops n first.0 in (rest.0, first.1 ∷ rest.1)

pops-Holds :
    (free : ℕ) (reports : List Report) (state : InfinityBaseState)
    → Holds free reports state.queued_changes
    → ((pops (length reports) state).1 ≡ map some reports)
      × ((pop_change_response (pops (length reports) state).0).1 ≡ none)
unfolding pops
pops-Holds free [] state h = (refl, ap (λ a. a.1) (pop_change_response-empty free state h))
pops-Holds free (r ∷ reports) state h =
    let popped_one = pop_change_response-Holds r free reports state h in
    let rest = pops-Holds (suc free) reports (pop_change_response state).0 popped_one.1 in
    (ap₂ ◌∷◌ popped_one.0 rest.0, rest.1)

-- The reports are pushed one after the other.
unfoldable pub pushes : List Report → ReportQueue → ReportQueue
pushes [] queue = queue
pushes (r ∷ reports) queue = pushes reports (push_report r queue)

same-Holds :
    (free free' : ℕ) (reports reports' : List Report) (queue : ReportQueue)
    → free ≡ free'
    → reports ≡ reports'
    → Holds free reports queue
    → Holds free' reports' queue
same-Holds free free' reports reports' queue f r h =
    h ∙ ap₂ (λ n rs. map some rs ++ replicate n none) f r

append_none : (reports : List Report) → reports ≡ reports ++ []
append_none [] = refl
append_none (r ∷ reports) = ap (◌∷◌ r) (append_none reports)

pushes-Holds :
    (news : List Report) (free : ℕ) (reports : List Report) (queue : ReportQueue)
    → Holds free reports queue
    → Holds (free - length news) (reports ++ take free news) (pushes news queue)
unfolding pushes
pushes-Holds [] zero reports queue h = same-Holds 0 0 reports _ queue refl (append_none reports) h
pushes-Holds [] (suc free) reports queue h =
    same-Holds (suc free) _ reports _ queue (omega arith) (append_none reports) h
pushes-Holds (r ∷ news) zero reports queue h =
    let pushed = push_report-full r reports queue h in
    same-Holds (0 - length news) _ (reports ++ []) _ (pushes news (push_report r queue))
      (omega arith) refl (pushes-Holds news zero reports (push_report r queue) pushed)
pushes-Holds (r ∷ news) (suc free) reports queue h =
    let pushed = push_report-Holds r free reports queue h in
    same-Holds (free - length news) _ ((reports ++ r ∷ []) ++ take free news) _
      (pushes news (push_report r queue)) (omega arith)
      (append_assoc reports (r ∷ []) (take free news))
      (pushes-Holds news free (reports ++ r ∷ []) (push_report r queue) pushed)

-- The array of queued changes is a queue, first in, first out: where it holds `olds` and has `free`
-- places behind them, and `news` are pushed, then the pops return `olds` and the first `free` of
-- `news`, in this order, and the next pop returns none. What finds no place is lost.
pub pops-pushes :
    (free : ℕ) (olds news : List Report) (state : InfinityBaseState)
    → Holds free olds state.queued_changes
    → let pushed = record state { queued_changes = pushes news state.queued_changes } in
      let kept = olds ++ take free news in
      ((pops (length kept) pushed).1 ≡ map some kept)
      × ((pop_change_response (pops (length kept) pushed).0).1 ≡ none)
pops-pushes free olds news state h =
    pops-Holds (free - length news) (olds ++ take free news)
      (record state { queued_changes = pushes news state.queued_changes })
      (pushes-Holds news free olds state.queued_changes h)
