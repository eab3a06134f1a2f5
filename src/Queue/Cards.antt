-- ===== src/Queue/Cards.antt =====
-- The cards of tickets, of files that do not parse, and of failing launchers: src/queue/queueModel.ts.
use status_pipe.Base.{
  ℕ, ◌*◌, ◌-◌, String, Bool, true, false, Option, none, some, List, [], map, ◌&&◌, ltb,
  if◌then◌else◌, ◌==◌, ◌^^◌, get_or, keep, find, map_some,
}
use status_pipe.Base.Platform.{Platform}
use status_pipe.Protocol.{
  TicketFile, Health, ParseFailure, parsed, failed, OrchestratorFile, ConfigFile,
}
use status_pipe.Protocol.Worker.{is_worker_stale, nonempty}
use status_pipe.Queue.{
  TicketEntry, KnownAck, RepoState, AgentProcessState, QueueModelInput, Lane, needs_you, waiting,
  quiet, NeedsYouReason, WaitingDisplay, WorkerDisplay, CardDisplay, ticket_card,
  launcher_failed_card,
}
use status_pipe.Queue.Lanes.{LaneContext, assign_lane, reason_rank}
use status_pipe.Queue.AckState.{
  AckContext, has_acked_current_request, has_stale_ack, is_acked, derive_ack_control,
}
use status_pipe.Queue.PrRows.{build_pr_rows}

-- `a?.f ?? b` on nullable records.
abbrev chosen_minutes : Option OrchestratorFile → Option ConfigFile → ℕ → ℕ
chosen_minutes o c default = elim (minutes_of o) [
  | some m ↦ m
  | none ↦ get_or (config_minutes c) default
]
  where
    minutes_of : Option OrchestratorFile → Option ℕ
    minutes_of none = none
    minutes_of (some f) = f.stale_worker_minutes

    config_minutes : Option ConfigFile → Option ℕ
    config_minutes none = none
    config_minutes (some f) = f.stale_worker_minutes

unfoldable pub stale_worker_minutes : RepoState → QueueModelInput → ℕ
stale_worker_minutes repo input =
    chosen_minutes repo.orchestrator repo.config input.settings.stale_worker_minutes_default

abbrev pub card_defaults : String → String → String → CardDisplay
card_defaults id root name = record {
  id = id;
  kind = ticket_card;
  repo_root = root;
  repo_name = name;
  ticket = none;
  title = "";
  url = none;
  phase = none;
  health = Health.error;
  headline = "";
  lane = needs_you;
  reason = none;
  priority_rank = reason_rank NeedsYouReason.degraded;
  waiting = none;
  blockers = [];
  prs = [];
  sub_tickets = [];
  history = [];
  ack_control = record { actionable = false; chip = none };
  acked = false;
  worker = none;
  degraded = none;
  raw_json = none;
  epic_slug = none;
  updated_at = "";
  hidden_by_default = false;
}

pub record TicketDerivation : Type 0 where
  pub ack_ctx : AckContext
  pub lane_ctx : LaneContext
  pub lane : Lane
  pub reason : Option NeedsYouReason
  pub acked : Bool
  pub ticket_acks : List KnownAck

abbrev pub ack_context_for : RepoState → QueueModelInput → AckContext
ack_context_for repo input = record {
  orchestrator = repo.orchestrator;
  launch = repo.launch;
  stale_worker_minutes = stale_worker_minutes repo input;
  now = input.now;
}

abbrev pub acks_of : RepoState → TicketFile → List KnownAck
acks_of repo t = keep (λ (k : KnownAck). k.ack.ticket == t.ticket) repo.acks

abbrev pub is_waiting : Lane → Bool
is_waiting waiting = true
is_waiting needs_you = false
is_waiting quiet = false

abbrev pub is_quiet_lane : Lane → Bool
is_quiet_lane quiet = true
is_quiet_lane needs_you = false
is_quiet_lane waiting = false

module _ (os : Platform) where
  abbrev pub lane_context : TicketFile → RepoState → List TicketFile → QueueModelInput → LaneContext
  lane_context t repo tickets input = record {
    stale_worker_minutes = stale_worker_minutes repo input;
    now = input.now;
    enrichment = repo.enrichment;
    request_acked = has_acked_current_request os t (acks_of repo t) (ack_context_for repo input);
    stale_ack = has_stale_ack os t (acks_of repo t) (ack_context_for repo input);
    pr_rows = build_pr_rows os.show_number t tickets repo.enrichment;
  }

  unfoldable pub derive_ticket :
      TicketFile → RepoState → List TicketFile → QueueModelInput → TicketDerivation
  derive_ticket t repo tickets input = record {
    ack_ctx = ack_context_for repo input;
    lane_ctx = lane_context t repo tickets input;
    lane = (assign_lane os t (lane_context t repo tickets input)).lane;
    reason = (assign_lane os t (lane_context t repo tickets input)).reason;
    acked =
        is_waiting (assign_lane os t (lane_context t repo tickets input)).lane
        && is_acked os t (acks_of repo t) (ack_context_for repo input);
    ticket_acks = acks_of repo t;
  }

abbrev waiting_rank : ℕ
waiting_rank = 50

abbrev acked_waiting_rank : ℕ
acked_waiting_rank = 60

unfoldable pub rank_for : TicketDerivation → ℕ
rank_for d = elim d.reason [
  | some r ↦ reason_rank r
  | none ↦ if is_quiet_lane d.lane then 90 else if d.acked then acked_waiting_rank else waiting_rank
]

module _ (os : Platform) where
  abbrev age_of : Option ℕ → ℕ → ℕ
  age_of none now = 0
  age_of (some ms) now = now - ms

  waiting_display : TicketFile → ℕ → Option WaitingDisplay
  waiting_display t now = elim t.waiting_on [
    | none ↦ none
    | some w ↦ some (record {
      kind = w.kind;
      ref = w.ref;
      pr = w.pr;
      since = w.since;
      duration_ms = age_of (os.date_parse w.since) now;
      detail = w.detail;
    })
  ]

  abbrev beat_age : Option ℕ → ℕ → Option ℕ
  beat_age none now = none
  beat_age (some ms) now = some (now - ms)

  abbrev beat_ms : Option String → Option ℕ
  beat_ms beat = elim (nonempty beat) [ none ↦ none | some text ↦ os.date_parse text ]

  worker_display : TicketFile → LaneContext → Option WorkerDisplay
  worker_display t ctx = elim t.worker [
    | none ↦ none
    | some w ↦ some (record {
      status = w.status;
      heartbeat_at = w.heartbeat_at;
      heartbeat_age_ms = beat_age (beat_ms w.heartbeat_at) ctx.now;
      stale = is_worker_stale os (some w) ctx.stale_worker_minutes ctx.now;
    })
  ]

  unfoldable pub is_past_retention : String → QueueModelInput → Bool
  is_past_retention updated_at input = elim (os.date_parse updated_at) [
    | none ↦ false
    | some updated ↦ ltb (input.settings.quiet_retention_hours * 3600000) (input.now - updated)
  ]

  abbrev card_of : TicketFile → RepoState → TicketDerivation → QueueModelInput → CardDisplay
  card_of t repo d input = record {
    id = repo.repo_root ^^ "::" ^^ t.ticket;
    kind = ticket_card;
    repo_root = repo.repo_root;
    repo_name = repo.name;
    ticket = some t.ticket;
    title = t.title;
    url = t.url;
    phase = some t.phase;
    health = t.health;
    headline = t.headline;
    lane = d.lane;
    reason = d.reason;
    priority_rank = rank_for d;
    waiting = waiting_display t input.now;
    blockers = t.blockers;
    prs = d.lane_ctx.pr_rows;
    sub_tickets = t.sub_tickets;
    history = t.history;
    ack_control = derive_ack_control os t d.ticket_acks d.ack_ctx;
    acked = d.acked;
    worker = worker_display t d.lane_ctx;
    degraded = none;
    raw_json = none;
    epic_slug = t.slug;
    updated_at = t.updated_at;
    hidden_by_default = is_quiet_lane d.lane && is_past_retention t.updated_at input;
  }

  unfoldable pub ticket_card_for :
      TicketFile → RepoState → List TicketFile → QueueModelInput → CardDisplay
  unfolding waiting_display worker_display
  ticket_card_for t repo tickets input =
      card_of t repo (derive_ticket os t repo tickets input) input

abbrev failure_headline : ParseFailure → String
failure_headline ParseFailure.unknown_schema = "Unknown schema version — update status-pipe."
failure_headline ParseFailure.corrupt = "Ticket file is corrupt."

-- The card of an entry whose file failed to parse.
unfoldable pub degraded_card : String → ParseFailure → String → String → RepoState → CardDisplay
degraded_card key reason raw detail repo =
    let base = card_defaults (repo.repo_root ^^ "::" ^^ key) repo.repo_root repo.name in
    record base {
      ticket = some key;
      title = key;
      headline = failure_headline reason;
      reason = some NeedsYouReason.degraded;
      degraded = some (record { reason = reason; detail = detail });
      raw_json = some raw;
    }

module _ (os : Platform) where
  abbrev repo_name_of : String → List RepoState → String
  repo_name_of root repos = elim (find (λ (r : RepoState). r.repo_root == root) repos) [
    | some r ↦ r.name
    | none ↦ root
  ]

  abbrev exit_text : Option ℕ → String
  exit_text none = "?"
  exit_text (some n) = os.show_number n

  unfoldable pub launcher_card : AgentProcessState → QueueModelInput → CardDisplay
  launcher_card agent input =
      let base =
        card_defaults (agent.repo_root ^^ "::launcher::" ^^ agent.agent_id) agent.repo_root
          (repo_name_of agent.repo_root input.repos) in
      record base {
        kind = launcher_failed_card;
        title = agent.title ^^ " launcher failing";
        headline = get_or agent.detail (
            "exit "
            ^^ exit_text agent.last_exit_code
            ^^ " ×"
            ^^ os.show_number agent.consecutive_failures);
        reason = some NeedsYouReason.launcher_failed;
        priority_rank = reason_rank NeedsYouReason.launcher_failed;
      }

  abbrev parsed_ticket : TicketEntry → Option TicketFile
  parsed_ticket e = elim e.parsed [ parsed t ↦ some t | failed reason raw detail ↦ none ]

  abbrev pub good_tickets : RepoState → List TicketFile
  good_tickets repo = map_some parsed_ticket repo.tickets

  unfoldable pub entry_card : RepoState → QueueModelInput → TicketEntry → CardDisplay
  entry_card repo input e = elim e.parsed [
    | parsed t ↦ ticket_card_for os t repo (good_tickets repo) input
    | failed reason raw detail ↦ degraded_card e.key reason raw detail repo
  ]

  unfoldable pub repo_cards : RepoState → QueueModelInput → List CardDisplay
  repo_cards repo input = map (entry_card repo input) repo.tickets
