-- ===== src/Protocol/Store/Fields.antt =====
-- The objects that `JSON.stringify` is given for the files of src/protocol/types.ts, member by member.
use status_pipe.Base.{Option, none, some, [], ◌∷◌, map, insert}
use status_pipe.Protocol.{
  TicketFile, WaitingOn, TicketPr, SubTicket, HistoryEntry, WorkerState, OrchestratorFile,
  ParkedState, DispatchItem, DispatchPlan, AckFile, AckTarget, phase_name, kind_name,
}
use status_pipe.Protocol.Json.{Json, Object, null, bool, number, text}
use status_pipe.Protocol.Json.Writing.{text_or_null, number_or_null, texts, written, objects}
use status_pipe.Protocol.Parse.{health_name, waiting_name, ci_name, pr_state_name, status_name}
use status_pipe.Protocol.Parse.Orchestrator.{dispatch_kind_name}

-- `{ ...existing, ...fields }`
unfoldable pub overlay : Object → Object → Object
overlay existing [] = existing
overlay existing (f ∷ fs) = overlay (insert f.0 f.1 existing) fs

abbrev pub or_null {ℓ} : {A : Type ℓ} → (A → Object) → Option A → Json
or_null write none = null
or_null write (some a) = written (write a)

abbrev pub waiting_fields : WaitingOn → Object
waiting_fields w =
    ("kind", text (waiting_name w.kind))
    ∷ ("ref", text_or_null w.ref)
    ∷ ("pr", number_or_null w.pr)
    ∷ ("since", text w.since)
    ∷ ("detail", text_or_null w.detail)
    ∷ []

abbrev pub pr_fields : TicketPr → Object
pr_fields p =
    ("number", number p.number)
    ∷ ("url", text_or_null p.url)
    ∷ ("head", text p.head)
    ∷ ("base", text p.base)
    ∷ ("draft", bool p.draft)
    ∷ ("state", text (pr_state_name p.state))
    ∷ ("ci", text (ci_name p.ci))
    ∷ ("part", text_or_null p.part)
    ∷ []

abbrev pub sub_ticket_fields : SubTicket → Object
sub_ticket_fields s =
    ("key", text s.key)
    ∷ ("url", text_or_null s.url)
    ∷ ("topic", text s.topic)
    ∷ ("status", text_or_null s.status)
    ∷ []

abbrev pub history_fields : HistoryEntry → Object
history_fields h =
    ("at", text h.at)
    ∷ ("phase", text_or_null h.phase)
    ∷ ("note", text h.note)
    ∷ ("runId", text_or_null h.run_id)
    ∷ []

abbrev pub worker_fields : WorkerState → Object
worker_fields w =
    ("status", text (status_name w.status))
    ∷ ("taskId", text_or_null w.task_id)
    ∷ ("startedAt", text_or_null w.started_at)
    ∷ ("heartbeatAt", text_or_null w.heartbeat_at)
    ∷ []

abbrev pub ticket_fields : TicketFile → Object
ticket_fields t =
    ("schemaVersion", number t.schema_version)
    ∷ ("repo", text t.repo)
    ∷ ("ticket", text t.ticket)
    ∷ ("title", text t.title)
    ∷ ("slug", text_or_null t.slug)
    ∷ ("url", text_or_null t.url)
    ∷ ("phase", text (phase_name t.phase))
    ∷ ("health", text (health_name t.health))
    ∷ ("headline", text t.headline)
    ∷ ("waitingOn", or_null waiting_fields t.waiting_on)
    ∷ ("prs", objects (map pr_fields t.prs))
    ∷ ("blockers", texts t.blockers)
    ∷ ("subTickets", objects (map sub_ticket_fields t.sub_tickets))
    ∷ ("agentCommentIds", texts t.agent_comment_ids)
    ∷ ("history", objects (map history_fields t.history))
    ∷ ("worker", or_null worker_fields t.worker)
    ∷ ("updatedAt", text t.updated_at)
    ∷ []

abbrev pub parked_fields : ParkedState → Object
parked_fields p =
    ("since", text p.since)
    ∷ ("reason", text p.reason)
    ∷ ("recheckAfter", text_or_null p.recheck_after)
    ∷ []

abbrev pub item_fields : DispatchItem → Object
item_fields i =
    ("key", text i.key)
    ∷ ("kind", text (dispatch_kind_name i.kind))
    ∷ ("prompt", text i.prompt)
    ∷ ("worktree", text i.worktree)
    ∷ []

abbrev pub plan_fields : DispatchPlan → Object
plan_fields d =
    ("maxConcurrent", number d.max_concurrent) ∷ ("items", objects (map item_fields d.items)) ∷ []

abbrev pub orchestrator_fields : OrchestratorFile → Object
orchestrator_fields f =
    ("schemaVersion", number f.schema_version)
    ∷ ("repo", text_or_null f.repo)
    ∷ ("passCount", number_or_null f.pass_count)
    ∷ ("lastPassStartedAt", text_or_null f.last_pass_started_at)
    ∷ ("lastPassFinishedAt", text_or_null f.last_pass_finished_at)
    ∷ ("staleWorkerMinutes", number_or_null f.stale_worker_minutes)
    ∷ ("parked", or_null parked_fields f.parked)
    ∷ ("dispatch", or_null plan_fields f.dispatch)
    ∷ ("note", text_or_null f.note)
    ∷ []

abbrev pub target_fields : AckTarget → Object
target_fields t =
    ("waitingKind", text (kind_name t.waiting_kind))
    ∷ ("waitingSince", text t.waiting_since)
    ∷ ("ref", text_or_null t.ref)
    ∷ ("pr", number_or_null t.pr)
    ∷ []

abbrev pub ack_fields : AckFile → Object
ack_fields a =
    ("schemaVersion", number a.schema_version)
    ∷ ("kind", text "ready-for-look")
    ∷ ("ticket", text a.ticket)
    ∷ ("ackId", text a.ack_id)
    ∷ ("target", written (target_fields a.target))
    ∷ ("stateUpdatedAt", text a.state_updated_at)
    ∷ ("note", text_or_null a.note)
    ∷ ("createdAt", text a.created_at)
    ∷ ("createdBy", text a.created_by)
    ∷ []
