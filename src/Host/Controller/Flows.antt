-- ===== src/Host/Controller/Flows.antt =====
-- Installing with dialogs: installApprovedAgents of src/host/controller.ts with `prompt`, and approveAgents of
-- src/host/launchApproval.ts. Each dialog is an await, and several of these calls may wait at once: of the same repository, of
-- others, each at its own dialog, and anything may happen before an answer.
use status_pipe.Base.{ℕ, Bool, none, some, List, [], ◌∷◌, ◌++◌, Dict, length, if◌then◌else◌}
use status_pipe.Protocol.{LaunchAgent}
use status_pipe.Supervisor.TrustGate.Approvals.{Choice, is_approved, decide}
use status_pipe.Supervisor.Workers.Pool.{nth, set_nth}
use status_pipe.Supervisor.Fleet.Operations.{ticks_all, controls}
use status_pipe.Host.Controller.{
  Setup, Instant, ManagedRepo, Controller, Flow, FollowUp, ticks, acts, root_of, supervise,
}
use status_pipe.Host.Controller.Reload.{install, launch_agents}

module _ (x : Setup) where
  -- From one dialog to the next: the approved entries pass. The rest, and all that passed.
  unfoldable pub pass_approved :
      Dict Bool → List LaunchAgent → List LaunchAgent → List LaunchAgent × List LaunchAgent
  pass_approved decided [] approved = ([], approved)
  pass_approved decided (a ∷ as_) approved =
      let more = pass_approved decided as_ (approved ++ a ∷ []) in
      if is_approved x.digest decided a then more else (a ∷ as_, approved)

module _ (x : Setup) (i : Instant) where
  abbrev pub followed : Flow → Controller → Controller
  followed f c = elim f.follow_up [
    | ticks ↦ supervise i.deps (ticks_all (some f.root)) c
    | acts id action ↦ supervise i.deps (controls f.root id action) c
  ]

  -- The next dialog opens, or the entries are installed and the caller goes on.
  abbrev pub goes_on : Flow → List LaunchAgent → Controller → Controller
  goes_on f [] c = followed f (install x i f.root f.approved c)
  goes_on f (a ∷ as_) c = record c {
    approvals = record c.approvals { asked = a ∷ c.approvals.asked };
  }

  abbrev pub put_flow : ℕ → Flow → Controller → Controller
  put_flow n f c = record c { flows = set_nth n f c.flows }

  unfoldable pub resume_flow : ℕ → Flow → Controller → Controller
  unfolding pass_approved
  resume_flow n f c =
      let passed = pass_approved x c.approvals.decided f.remaining f.approved in
      let g : Flow = record f { remaining = passed.0; approved = passed.1 } in
      goes_on g g.remaining (put_flow n g c)

  -- The begin of the call. An untrusted workspace approves nothing.
  unfoldable pub install_prompting : ManagedRepo → FollowUp → Controller → Controller
  unfolding resume_flow
  install_prompting repo then_ c =
      let f : Flow = record {
        root = root_of repo;
        remaining = if i.trusted then launch_agents repo else [];
        approved = [];
        follow_up = then_;
      } in
      resume_flow (length c.flows) f (record c { flows = c.flows ++ f ∷ [] })

  -- The dialog of this entry is closed.
  abbrev pub answered_at : ℕ → Flow → Choice → List LaunchAgent → Controller → Controller
  answered_at n f choice [] c = c
  answered_at n f choice (a ∷ as_) c =
      let decision = decide x.digest a choice c.approvals in
      resume_flow n
        (record f {
          remaining = as_;
          approved = if decision.1 then f.approved ++ a ∷ [] else f.approved;
        })
        (record c { approvals = decision.0 })

  unfoldable pub answer_dialog : ℕ → Choice → Controller → Controller
  unfolding resume_flow
  answer_dialog n choice c = elim (nth n c.flows) [
    | none ↦ c
    | some f ↦ answered_at n f choice f.remaining c
  ]
