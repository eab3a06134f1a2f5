-- ===== src/Tests/Passes.antt =====
-- The planner's theorems at one labeled ticket on a private repository with one free slot.
use mathlib.Core.List.{mem-cons_self, Perm}
use status_pipe.Base.{
  ◌-◌, ◌≤◌, ◌≡◌, ◌⊎◌, ◌↔◌, ◌||◌, refl, Bool, Option, none, some, true, false, is_some, [], ◌∷◌,
  ◌++◌, length, lookup, map, has_text, every, Distinct, All,
}
use status_pipe.Base.Order.{IsOrdered}
use status_pipe.Protocol.{DispatchItem, DispatchKind, DispatchPlan, AckWaitingKind, WaitingKind}
use status_pipe.Protocol.AckId.{ack_matches_ticket}
use status_pipe.Planner.{Candidate, PassState, PlannerInput, refused, empty_report}
use status_pipe.Planner.Effects.{
  Ports, World, StoredAck, InventoryTicket, public_repo, private_repo, done, logged, get_visibility,
  Call,
}
use status_pipe.Planner.Effects.Outcomes.{Leaves, Returns, Ends}
use status_pipe.Planner.Trust.{public_refusal, resolve_trust}
use status_pipe.Planner.Inventory.{keys_of, dedupe_candidates, dedupe_by_key}
use status_pipe.Planner.Inventory.Laws.{candidates-Distinct, candidate_of, first_or}
use status_pipe.Planner.Acks.{consume_one, consume_note, noted}
use status_pipe.Planner.Acks.Laws.{consume_one-keeps_note}
use status_pipe.Planner.Schedule.Tickets.{stamped}
use status_pipe.Planner.Schedule.Selection.{Selectable, selectable, ordered}
use status_pipe.Planner.Schedule.Selection.Laws.{ordered-IsFair, Precedes, MayDispatch}
use status_pipe.Planner.Schedule.Dispatch.{dispatch_one, select_and_dispatch, key_of}
use status_pipe.Planner.Schedule.Dispatch.Laws.{
  dispatch_one-all_or_nothing, select_and_dispatch-covers,
}
use status_pipe.Planner.Parking.{compute_parked}
use status_pipe.Planner.Parking.Laws.{compute_parked-exactly, rests}
use status_pipe.Planner.Lifecycle.{garbage_collect_worktrees}
use status_pipe.Planner.Lifecycle.Laws.{garbage_collect_worktrees-keeps_active, by_ticket}
use status_pipe.Planner.Pass.{plan, refusal, resolve_trust_gate}
use status_pipe.Planner.Pass.Laws.{plan-fails_closed}
use status_pipe.Planner.Pass.Sound.{plan-Sound, Sound}
use status_pipe.Planner.Lifecycle.{reconcile_closed}
use status_pipe.Planner.Lifecycle.Closing.{reconcile_closed-drift}
use status_pipe.Planner.Schedule.Dispatch.{reconcile_staleness}
use status_pipe.Planner.Schedule.Dispatch.Staleness.{reconcile_staleness-live}
use status_pipe.Tests.{test_os, owner_ticket}

abbrev pub labeled_ticket : InventoryTicket
labeled_ticket = record { key = "8"; title = "Work"; url = none; author = none; assignees = [] }

abbrev pub silent : World → Call → Bool
silent w c = false

abbrev pub ports : Ports
ports = record {
  throws = silent;
  now = λ w. 2000;
  iso = λ w. "t2";
  visibility = λ w. private_repo;
  viewer_login = λ w. some "op";
  labeled = λ w label. labeled_ticket ∷ [];
  states = λ w ks. [];
  tracking = λ w title. none;
  mint = λ w title label. labeled_ticket;
  epics = λ w dir. [];
  worktree_path = λ w slug. slug;
}

abbrev public_ports : Ports
public_ports = record ports { visibility = λ w. public_repo }

abbrev deaf : World → Call → Bool
deaf w get_visibility = true
deaf w _ = false

abbrev deaf_ports : Ports
deaf_ports = record ports { throws = deaf }

abbrev input : PlannerInput
input = record {
  repo = "/repo";
  config = record {
    epics_dir = "epics";
    inventory_label = "agent-queue";
    inventory_assignees = [];
    trust_mode = none;
    trust_operators = [];
    stale_worker_minutes = 30;
  };
  max_concurrent = 1;
  live_worker_keys = [];
}

abbrev world : World
world = record {
  tickets = ("7", owner_ticket) ∷ [];
  unparsed = "9" ∷ [];
  inbox = [];
  orchestrator = none;
  worktrees = "ticket-7" ∷ [];
  log = [];
}

abbrev work : Candidate
work = record {
  key = "8";
  kind = DispatchKind.ticket;
  title = "Work";
  url = none;
  epic_path = none;
  slug = "ticket-8";
}

abbrev state : PassState
state = record { tickets = ("7", owner_ticket) ∷ []; consumed = []; report = empty_report }

plan-Sound_example : Leaves (Sound input) (λ _. Unit {0}) (plan test_os input ports world)
plan-Sound_example = plan-Sound test_os input ports world

plan-fails_closed_example :
    plan test_os input deaf_ports world
    ≡ done (refusal test_os input deaf_ports public_refusal) (logged get_visibility world)
plan-fails_closed_example = plan-fails_closed test_os input deaf_ports world refl refl

gate_refuses :
    resolve_trust_gate input public_ports world
    ≡ done (refused public_refusal) (logged get_visibility world)
unfolding resolve_trust_gate resolve_trust
gate_refuses = refl

select_and_dispatch-covers_example :
    Returns
      (λ (r : Option DispatchPlan × PassState) (v : World).
        (length r.1.report.dispatched ≤ 1 - 0)
        × Perm
            (map (λ (i : DispatchItem). i.key) r.1.report.dispatched ++ r.1.report.deferred)
            (map key_of (selectable [] state (work ∷ []))))
      (select_and_dispatch test_os ports input state (work ∷ []) world)
select_and_dispatch-covers_example =
    select_and_dispatch-covers test_os ports input state (work ∷ []) world refl refl

abbrev fresh_work : Selectable
fresh_work = record { candidate = work; ticket = none; ack_consumed = false }

dispatch_one-all_or_nothing_example :
    Leaves
      (λ (i : DispatchItem) (v : World).
        (lookup "8" v.tickets ≡ some (stamped none work "/repo" "t2"))
        × (has_text "ticket-8" v.worktrees ≡ true)
        × (i.worktree ≡ "ticket-8")
        × (i.key ≡ "8"))
      (λ v. v.tickets ≡ world.tickets)
      (dispatch_one test_os ports input [] fresh_work world)
dispatch_one-all_or_nothing_example =
    dispatch_one-all_or_nothing test_os ports input [] fresh_work world

ordered-IsFair_example :
    IsOrdered (Precedes test_os) (ordered test_os (selectable [] state (work ∷ [])))
    × All (MayDispatch [] state) (ordered test_os (selectable [] state (work ∷ [])))
ordered-IsFair_example = ordered-IsFair test_os [] state (work ∷ [])

compute_parked-exactly_example :
    (is_some (compute_parked test_os [] 2000 "t2" state (work ∷ [])) ≡ true) ↔ (
      (input.live_worker_keys ≡ [])
      × (state.report.dispatched ≡ [])
      × (state.report.deferred ≡ [])
      × (state.report.consumed_acks ≡ [])
      × (every (rests state.tickets) (work ∷ []) ≡ true))
compute_parked-exactly_example = compute_parked-exactly test_os [] 2000 "t2" state (work ∷ [])

garbage_collect_worktrees-keeps_active_example :
    Ends
      (λ v. (has_text "ticket-7" v.worktrees ≡ true) × (v.tickets ≡ world.tickets))
      (garbage_collect_worktrees ports state (work ∷ []) world)
unfolding lookup
garbage_collect_worktrees-keeps_active_example =
    garbage_collect_worktrees-keeps_active ports state (work ∷ []) "ticket-7" world
      (by_ticket "7" owner_ticket mem-cons_self refl) refl

abbrev stored : StoredAck
stored = record {
  path = "inbox/a";
  ack = record {
    schema_version = 1;
    ticket = "7";
    ack_id = "a1";
    target = record {
      waiting_kind = AckWaitingKind.on WaitingKind.owner;
      waiting_since = "t0";
      ref = none;
      pr = none;
    };
    state_updated_at = "t0";
    note = some "done";
    created_at = "t1";
    created_by = "op";
  };
}

seven_stored : lookup "7" world.tickets ≡ some owner_ticket
unfolding lookup
seven_stored = refl

consume_one-keeps_note_example :
    Ends
      (λ v.
        (v.inbox ≡ world.inbox)
        ⊎ (lookup "7" v.tickets
            ≡ some (
                noted owner_ticket "t2"
                  (consume_note "a1" (some "done") (ack_matches_ticket stored.ack owner_ticket)))))
      (consume_one ports stored ([], empty_report) world)
consume_one-keeps_note_example =
    consume_one-keeps_note ports stored owner_ticket ([], empty_report) world seven_stored refl

abbrev epic_work : Candidate
epic_work = record work {
  kind = DispatchKind.epic;
  epic_path = some "epics/work.md";
  slug = "work";
}

candidates-Distinct_example :
    Distinct (keys_of (dedupe_candidates (dedupe_by_key (epic_work ∷ epic_work ∷ [])) (work ∷ [])))
    × (has_text "8"
          (keys_of (dedupe_candidates (dedupe_by_key (epic_work ∷ epic_work ∷ [])) (work ∷ [])))
        ≡ (has_text "8" (keys_of (epic_work ∷ epic_work ∷ []))
            || has_text "8" (keys_of (work ∷ []))))
    × (candidate_of "8" (dedupe_candidates (dedupe_by_key (epic_work ∷ epic_work ∷ [])) (work ∷ []))
        ≡ first_or (candidate_of "8" (epic_work ∷ epic_work ∷ [])) (candidate_of "8" (work ∷ [])))
candidates-Distinct_example =
    candidates-Distinct (epic_work ∷ epic_work ∷ []) (work ∷ []) "8" (refl, tt)

reconcile_closed-drift_example :
    Ends
      (λ v. lookup "8" v.tickets ≡ lookup "8" world.tickets)
      (reconcile_closed ports state (work ∷ []) world)
reconcile_closed-drift_example = reconcile_closed-drift ports state (work ∷ []) "8" world refl

abbrev busy_input : PlannerInput
busy_input = record input { live_worker_keys = "7" ∷ [] }

reconcile_staleness-live_example :
    Ends
      (λ v. lookup "7" v.tickets ≡ lookup "7" world.tickets)
      (reconcile_staleness test_os ports busy_input state world)
reconcile_staleness-live_example =
    reconcile_staleness-live test_os ports busy_input state "7" world refl
