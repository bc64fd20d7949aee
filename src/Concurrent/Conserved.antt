-- ===== src/Concurrent/Conserved.antt =====
-- src/concurrent.cpp: no answer is lost or doubled on its way through the queue.
use vynkor_sdk_cpp.Base.{
  ℕ, ◌+◌, ◌≡◌, refl, ap, sym, ◌∙◌, arith, Bool, Option, none, some, List, [], ◌∷◌, ◌++◌,
  append_assoc, if◌then◌else◌,
}
use vynkor_sdk_cpp.Base.Text.{Text}
use vynkor_sdk_cpp.Error.{Result, ok, throws}
use vynkor_sdk_cpp.Protocol.{Envelope, plugin_shutdown, action_request}
use vynkor_sdk_cpp.Concurrent.{
  Loop, started, Thrown, rejection, Acted, envelopes_of, spawn_handler, Inbound, dispatch,
  read_from, Step, pushes, pops, reads, Steps, here, step,
}

module _ (f : Envelope → Bool) where
  -- How many envelopes pass a test.
  abbrev pub count : List Envelope → ℕ
  count [] = 0
  count (e ∷ es) = (if f e then 1 else 0) + count es

  abbrev pub count_all : List (List Envelope) → ℕ
  count_all [] = 0
  count_all (es ∷ ess) = count es + count_all ess

  count-append : (es fs : List Envelope) → count (es ++ fs) ≡ count es + count fs
  count-append [] fs = omega arith
  count-append (e ∷ es) fs = omega (arith, count-append es fs)

  count_all-append :
      (es fs : List (List Envelope)) → count_all (es ++ fs) ≡ count_all es + count_all fs
  count_all-append [] fs = omega arith
  count_all-append (e ∷ es) fs = omega (arith, count_all-append es fs)

-- Every envelope that a handler gave is sent, in the queue, or with the thread that pushes it, just as
-- often as it was given; and the queue keeps the order of the pushes.
abbrev pub IsConserved : Loop → Type 0
IsConserved s =
    ((f : Envelope → Bool)
      → count f s.answered + count f s.queue + count_all f s.workers ≡ count f s.produced)
    × (s.answered ++ s.queue ≡ s.pushed)

spawn-IsConserved :
    (action_id : Text) (accepted : Option Thrown) (acted : Acted) (s : Loop)
    → IsConserved s
    → IsConserved (spawn_handler action_id accepted acted s)
unfolding spawn_handler
spawn-IsConserved action_id none acted s (all, order) =
    (λ f. omega (arith, all f, count-append f s.produced (envelopes_of action_id acted)), order)
spawn-IsConserved action_id (some t) acted s (all, order) =
    let r = rejection action_id t ∷ [] in
    (
      λ f. omega (arith, all f, count-append f s.queue r, count-append f s.produced r),
      sym (append_assoc s.answered s.queue r) ∙ ap (λ es. es ++ r) order,
    )

dispatch-IsConserved :
    (i : Inbound) (env : Envelope) (s : Loop) → IsConserved s → IsConserved (dispatch i env s)
unfolding dispatch
dispatch-IsConserved i (plugin_shutdown reason grace) s h = h
dispatch-IsConserved i (action_request req) s h =
    spawn-IsConserved req.action_id i.accepted i.acted s h
dispatch-IsConserved i env s h = h

read_from-IsConserved :
    (r : Result Envelope) (i : Inbound) (s : Loop) → IsConserved s → IsConserved (read_from r i s)
unfolding read_from
read_from-IsConserved (throws e) i s h = h
read_from-IsConserved (ok env) i s h = dispatch-IsConserved i env s h

Step-IsConserved : (s t : Loop) → Step s t → IsConserved s → IsConserved t
Step-IsConserved s t (pushes s' before after env envelopes e) (all, order) = (
  λ f. omega (
    arith,
    all f,
    ap (count_all f) e,
    count_all-append f before ((env ∷ envelopes) ∷ after),
    count_all-append f before (envelopes ∷ after),
    count-append f s.queue (env ∷ []),
  ),
  sym (append_assoc s.answered s.queue (env ∷ [])) ∙ ap (λ es. es ++ (env ∷ [])) order,
)
Step-IsConserved s t (pops s' env queue running e) (all, order) = (
  λ f. omega (arith, all f, ap (count f) e, count-append f s.answered (env ∷ [])),
  append_assoc s.answered (env ∷ []) queue ∙ (ap (λ q. s.answered ++ q) (sym e) ∙ order),
)
Step-IsConserved s t (reads s' i running) h = read_from-IsConserved i.received i s h

-- Whatever the interleaving of the threads with the loop: in every state that a run reaches, each envelope that a
-- handler gave is as often sent, queued or still to be pushed as it was given, and what was sent,
-- followed by what is queued, is what was pushed, in the order of the pushes.
pub Steps-IsConserved : (s : Loop) → Steps started s → IsConserved s
Steps-IsConserved s run = run_from started s run (λ f. refl, refl)
  where
    run_from : (s t : Loop) → Steps s t → IsConserved s → IsConserved t
    run_from s t (here s') h = h
    run_from s t (step s' u t' one more) h = run_from u t more (Step-IsConserved s u one h)
