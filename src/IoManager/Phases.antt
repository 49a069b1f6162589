-- ===== src/IoManager/Phases.antt =====
-- The phases of an I/O request: what it has been through and what is left fit together.
use mathlib.Core.List.{append_assoc, append-nil}
use kt.Base.{◌≡◌, refl, sym, ap, ◌∙◌, List, [], ◌∷◌, ◌++◌, arith}
use kt.Trace.{run, actions}
use kt.IoManager.ReqFsm.{
  Event, Action, submit_io, do_report_md, do_healing, free_req, State, init, rw_user_data,
  ovlp_wait, report_md, self_healing, req_done, update_state,
}

-- The phase that an answer of the state machine opens, if it opens one.
abbrev pub phase : Action → List Action
phase submit_io = submit_io ∷ []
phase do_report_md = do_report_md ∷ []
phase do_healing = do_healing ∷ []
phase free_req = free_req ∷ []
phase _ = []

abbrev pub phases : List Action → List Action
phases [] = []
phases (a ∷ actions) = phase a ++ phases actions

-- The phases that a request has before it.
abbrev pub rest : State → List Action
rest init = submit_io ∷ do_report_md ∷ do_healing ∷ free_req ∷ []
rest ovlp_wait = submit_io ∷ do_report_md ∷ do_healing ∷ free_req ∷ []
rest rw_user_data = do_report_md ∷ do_healing ∷ free_req ∷ []
rest report_md = do_healing ∷ free_req ∷ []
rest self_healing = free_req ∷ []
rest _ = []

step_phase :
    (s : State) (e : Event) → rest s ≡ phase (update_state s e).1 ++ rest (update_state s e).0
unfolding update_state
step_phase s e = ground arith

-- In any history, the phases that a request opens, followed by those that it then has before it,
-- are those that it had before it at the start: submission, report of the metadata, healing and
-- release come in this order, each at most once, and none is left out.
pub phase_order :
    (s : State) (es : List Event)
    → rest s ≡ phases (actions update_state s es) ++ rest (run update_state s es)
unfolding run actions
phase_order s [] = refl
phase_order s (e ∷ es) =
    let (s', a) = update_state s e in
    step_phase s e
    ∙ ap (◌++◌ (phase a)) (phase_order s' es)
    ∙ sym (
        append_assoc (phase a) (phases (actions update_state s' es))
          (rest (run update_state s' es)))

-- A request that is done has been submitted, reported, healed and released, once each and in this
-- order.
done_phases :
    (es : List Event)
    → run update_state init es ≡ req_done
    → phases (actions update_state init es) ≡ submit_io ∷ do_report_md ∷ do_healing ∷ free_req ∷ []
done_phases es h = sym (phase_order init es ∙ rw h (append-nil _))
