-- ===== src/Host/Controller/Events.antt =====
-- Everything that can happen to the controller of src/host/controller.ts: the editor's calls, the watchers, the timers, the
-- answers of the reloads that are under way, and what the processes and the forge do meanwhile.
use status_pipe.Base.{
  ℕ, String, Bool, Option, none, List, [], ◌∷◌, Dict, map, is_some, if◌then◌else◌, ends_with,
}
use status_pipe.Forge.Enricher.{EnricherEvent}
use status_pipe.Forge.Enricher.Repos.{ForgeEnricher, poll_fires}
use status_pipe.Discovery.{RepoContext}
use status_pipe.Supervisor.Workers.Pool.{WorkerEvent}
use status_pipe.Supervisor.Runner.{Event}
use status_pipe.Supervisor.Fleet.{SupervisorSettings}
use status_pipe.Supervisor.Fleet.Operations.{
  Action, FleetEvent, settings_change, wedge_timer_fires, recheck_timer_fires, runner_event,
  on_worker, wakes_repo, disposes,
}
use status_pipe.Host.Loading.{RepoProtocolState, ProtocolFiles}
use status_pipe.Host.Controller.{
  Setup, Instant, now_of, ForgeConnection, ManagedRepo, Controller, supervise, enrich,
  schedule_reload, at_object, drop_repo, rediscover,
}
use status_pipe.Host.Controller.Reload.{reload_fires, reload_loaded, reload_connected}
use status_pipe.Host.Controller.Operations.{
  ack, withdraw_ack, restart_worker, agent_control, start_all, stop_all, tick_all_now, refresh,
  set_view_visible, window_focused,
}
use status_pipe.Host.Controller.Flows.{answer_dialog}
use status_pipe.Supervisor.TrustGate.Approvals.{Choice}
use status_pipe.Host.Controller.Pushing.{push}

-- What the supervisor's own timers and processes do.
pub data FleetNews : Type 0 where
  wedge_timer : FleetNews
  recheck_timer : (root : String) → FleetNews
  of_runner : (root id : String) (e : Event) → FleetNews
  of_worker : (root : String) (e : WorkerEvent) (n : ℕ) → FleetNews

abbrev pub fleet_event : FleetNews → FleetEvent
fleet_event wedge_timer = wedge_timer_fires
fleet_event (recheck_timer root) = recheck_timer_fires root
fleet_event (of_runner root id e) = runner_event root id e
fleet_event (of_worker root e n) = on_worker root e n

-- A reload that is under way is named by its object and the state before it.
pub data HostEvent : Type 0 where
  scanned : (contexts : List RepoContext) → HostEvent
  file_changes : (n : ℕ) (path : String) → HostEvent
  backlog_changes : (root : String) → HostEvent
  reload_timer_fires : (n : ℕ) → HostEvent
  loaded : (n : ℕ) (prev : Option RepoProtocolState) (files : ProtocolFiles) → HostEvent
  connected :
      (n : ℕ) (prev : Option RepoProtocolState) (connection : Option ForgeConnection) → HostEvent
  acks :
      (inbox_path : String → String → String) (files : Dict String) (root key : String)
      (note : Option String)
      → HostEvent
  withdraws :
      (inbox_path : String → String → String) (files : Dict String) (after : ProtocolFiles)
      (root key ack_id : String)
      → HostEvent
  restarts : (root : String) → HostEvent
  answers : (n : ℕ) (choice : Choice) → HostEvent
  controls_agent : (root id : String) (action : Action) → HostEvent
  starts_all stops_all ticks_now focuses push_timer_fires host_disposes : HostEvent
  refreshes : (root : Option String) → HostEvent
  shows_view : (visible : Bool) → HostEvent
  changes_settings : SupervisorSettings → HostEvent
  supervisor_news : FleetNews → HostEvent
  forge_news : (root : String) (e : EnricherEvent) → HostEvent
  poll_timer_fires : HostEvent

module _ (x : Setup) (i : Instant) where
  abbrev pub file_changed : ℕ → String → ManagedRepo → Controller → Controller
  file_changed n path repo c =
      if ends_with path ".tmp" then c else schedule_reload (now_of i) n repo c

  abbrev pub reload_due : ℕ → ManagedRepo → Controller → Controller
  reload_due n repo c = if is_some repo.reload_timer then reload_fires x i n repo c else c

  abbrev pub push_due : Controller → Controller
  push_due c = if is_some c.push_timer then (push x i (record c { push_timer = none })).1 else c

  unfoldable pub drop_each : Dict ℕ → Controller → Controller
  drop_each [] c = c
  drop_each (e ∷ es) c = drop_each es (at_object e.1 (drop_repo i.deps e.1) c)

  -- `dispose` of the enricher: its timers are cancelled.
  abbrev disposed_enricher : ForgeEnricher → ForgeEnricher
  disposed_enricher s = record s {
    poll = none;
    repos = map (λ e. (e.0, record e.1 { coalesce = none })) s.repos;
  }

  abbrev pub dispose : Controller → Controller
  dispose c =
      let dropped = supervise i.deps disposes (drop_each c.repos c) in
      record dropped { enricher = disposed_enricher c.enricher; push_timer = none }

  unfoldable pub host_step : HostEvent → Controller → Controller
  unfolding rediscover reload_loaded reload_connected ack withdraw_ack restart_worker agent_control
      start_all refresh push answer_dialog drop_each
  host_step (scanned contexts) c = rediscover i.deps contexts c
  host_step (file_changes n path) c = at_object n (file_changed n path) c
  host_step (backlog_changes root) c = supervise i.deps (wakes_repo root) c
  host_step (reload_timer_fires n) c = at_object n (reload_due n) c
  host_step (loaded n prev files) c = at_object n (reload_loaded x i n prev files) c
  host_step (connected n prev connection) c = at_object n (reload_connected x i n prev connection) c
  host_step (acks inbox_path files root key note) c = (ack x i inbox_path files root key note c).2
  host_step (withdraws inbox_path files after root key ack_id) c =
      (withdraw_ack x i inbox_path files after root key ack_id c).2
  host_step (restarts root) c = restart_worker x i root c
  host_step (answers n choice) c = answer_dialog x i n choice c
  host_step (controls_agent root id action) c = agent_control x i root id action c
  host_step starts_all c = start_all x i c
  host_step stops_all c = stop_all x i c
  host_step ticks_now c = tick_all_now x i c
  host_step focuses c = window_focused x i c
  host_step push_timer_fires c = push_due c
  host_step host_disposes c = dispose c
  host_step (refreshes root) c = refresh x i root c
  host_step (shows_view visible) c = set_view_visible x i visible c
  host_step (changes_settings settings) c = supervise i.deps (settings_change settings) c
  host_step (supervisor_news e) c = supervise i.deps (fleet_event e) c
  host_step (forge_news root e) c = enrich root (now_of i) e c
  host_step poll_timer_fires c = record c { enricher = poll_fires (now_of i) c.enricher }

unfoldable pub host_run : Setup → List (Instant × HostEvent) → Controller → Controller
unfolding host_step
host_run x [] c = c
host_run x ((i, e) ∷ es) c = host_run x es (host_step x i e c)
