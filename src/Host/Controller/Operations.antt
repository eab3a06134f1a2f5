-- ===== src/Host/Controller/Operations.antt =====
-- The operations that the messages and commands call: src/host/controller.ts. Each is at one instant, with the dialogs
-- answered one after another.
use status_pipe.Base.{
  ℕ, String, Bool, true, false, not, ◌&&◌, Option, none, some, [], ◌∷◌, Dict, lookup, find, any,
  if◌then◌else◌, ◌==◌, ◌^^◌, is_some, includes,
}
use status_pipe.Protocol.{TicketFile, HistoryEntry, AckFile}
use status_pipe.Protocol.AckId.{BuildAckOptions, build_ack}
use status_pipe.Protocol.Json.{◌>>=◌}
use status_pipe.Protocol.Store.{WriteAckResult, write_ack_file, withdraw_ack_file}
use status_pipe.Forge.Enricher.Repos.{force_refresh, set_visible, on_focus_regained}
use status_pipe.Discovery.{is_worktree}
use status_pipe.Supervisor.Workers.Pool.{nth}
use status_pipe.Supervisor.Fleet.Operations.{
  Action, focus, stops_all, wakes_repo, controls, ticks_all, root_matches,
}
use status_pipe.Host.Loading.{
  RepoProtocolState, ProtocolFiles, Reads, Removal, load_repo_protocol, remove_settled_ticket,
}
use status_pipe.Host.RecentAcks.{remember, forget}
use status_pipe.Host.Controller.{
  Setup, Instant, now_of, ManagedRepo, ticks, acts, Controller, root_of, good_tickets, supervise,
  push_soon, put_object, schedule_reload, at_object,
}
use status_pipe.Host.Controller.Flows.{install_prompting}

pub data AckReply : Type 0 where
  created already_sent error : AckReply

abbrev reply_of : WriteAckResult → AckReply
reply_of WriteAckResult.created = AckReply.created
reply_of WriteAckResult.already_sent = AckReply.already_sent

pub data WithdrawReply : Type 0 where
  withdrawn picked_up_first : WithdrawReply

-- The number and the object of a managed repository.
abbrev pub managed : String → Controller → Option (ℕ × ManagedRepo)
managed root c = elim (lookup root c.repos) [
  | none ↦ none
  | some n ↦ elim (nth n c.objects) [ none ↦ none | some repo ↦ some (n, repo) ]
]

abbrev pub ticket_in : String → Option RepoProtocolState → Option TicketFile
ticket_in key none = none
ticket_in key (some state) = find (λ (t : TicketFile). t.ticket == key) (good_tickets state)

module _ (x : Setup) (i : Instant) where
  -- The acks go to the inbox, a map from paths to texts.
  abbrev pub written_ack :
      (String → String → String)
      → Dict String
      → String
      → ℕ × ManagedRepo
      → AckFile
      → Controller
      → AckReply × Dict String × Controller
  written_ack inbox_path files root m ack c =
      let wrote = write_ack_file inbox_path x.js files ack in
      let noted =
        supervise i.deps (wakes_repo root)
          (record c { acks = remember x.os (now_of i) root ack c.acks }) in
      (reply_of wrote.0, wrote.1, schedule_reload (now_of i) m.0 m.1 noted)

  abbrev pub ack_options : Option String → TicketFile → BuildAckOptions
  ack_options note t = record {
    ticket = t;
    note = note;
    created_at = x.os.to_iso (now_of i);
    created_by = "status-pipe-vscode@" ^^ x.version;
  }

  abbrev pub ack_in :
      String → Option String → ℕ × ManagedRepo → Option ((ℕ × ManagedRepo) × AckFile)
  ack_in key note m = do
    t ← ticket_in key m.1.state
    a ← build_ack x.os (ack_options note t)
    some (m, a)

  unfoldable pub ack :
      (String → String → String)
      → Dict String
      → String
      → String
      → Option String
      → Controller
      → AckReply × Dict String × Controller
  ack inbox_path files root key note c = elim (managed root c >>= ack_in key note) [
    | none ↦ (AckReply.error, files, c)
    | some f ↦ written_ack inbox_path files root f.0 f.1 c
  ]

  abbrev pub mentions : String → Option TicketFile → Bool
  mentions ack_id none = false
  mentions ack_id (some t) = any (λ (h : HistoryEntry). includes h.note ack_id) t.history

  abbrev pub settle_withdrawal : String → String → Bool → Controller → WithdrawReply × Controller
  settle_withdrawal root ack_id picked_up c =
      if picked_up
      then (picked_up_first, push_soon (now_of i) c)
      else (withdrawn, push_soon (now_of i) (record c { acks = forget root ack_id c.acks }))

  abbrev pub withdrawn_from :
      (String → String → String)
      → Dict String
      → ProtocolFiles
      → String
      → String
      → String
      → Controller
      → ℕ × ManagedRepo
      → WithdrawReply × Dict String × Controller
  withdrawn_from inbox_path files after root key ack_id c m =
      let state = load_repo_protocol x.js x.os after in
      let left = (withdraw_ack_file inbox_path files key ack_id).1 in
      let settled =
        settle_withdrawal root ack_id (mentions ack_id (ticket_in key (some state)))
          (put_object m.0 (record m.1 { state = some state }) c) in
      (settled.0, left, settled.1)

  -- `after` is what the directory holds once the ack is withdrawn: it may have been picked up first.
  unfoldable pub withdraw_ack :
      (String → String → String)
      → Dict String
      → ProtocolFiles
      → String
      → String
      → String
      → Controller
      → WithdrawReply × Dict String × Controller
  withdraw_ack inbox_path files after root key ack_id c = elim (managed root c) [
    | none ↦ (withdrawn, files, c)
    | some m ↦ withdrawn_from inbox_path files after root key ack_id c m
  ]

  unfoldable pub remove_ticket :
      (String → Bool)
      → ProtocolFiles
      → String
      → String
      → Controller
      → Removal × Dict Reads × Controller
  remove_ticket is_child files root key c = elim (managed root c) [
    | none ↦ (Removal.error, files.tickets, c)
    | some m ↦
        let result = remove_settled_ticket x.js x.os is_child key files in
        elim result.0 [
          | Removal.removed ↦ (Removal.removed, result.1, schedule_reload (now_of i) m.0 m.1 c)
          | Removal.not_allowed ↦ (Removal.not_allowed, result.1, c)
          | Removal.error ↦ (Removal.error, result.1, c)
        ]
  ]

  abbrev pub has_launch : ManagedRepo → Bool
  has_launch repo = elim repo.state [ none ↦ false | some state ↦ is_some state.launch ]

  abbrev pub install_and_tick : ManagedRepo → Controller → Controller
  install_and_tick repo c = install_prompting x i repo ticks c

  -- Without a launch file a terminal is opened, which changes nothing here.
  unfoldable pub restart_worker : String → Controller → Controller
  restart_worker root c = elim (managed root c) [
    | none ↦ c
    | some m ↦
        if has_launch m.1 && not (is_worktree m.1.context.role) then install_and_tick m.1 c else c
  ]

  abbrev pub installs : Action → Bool
  installs Action.start = true
  installs Action.tick_now = true
  installs _ = false

  -- The action that opens the log changes nothing and is left out.
  unfoldable pub agent_control : String → String → Action → Controller → Controller
  agent_control root id action c = elim (managed root c) [
    | none ↦ supervise i.deps (controls root id action) c
    | some m ↦
        if installs action
        then install_prompting x i m.1 (acts id action) c
        else supervise i.deps (controls root id action) c
  ]

  abbrev pub start_repo : ManagedRepo → Controller → Controller
  start_repo repo c = if is_worktree repo.context.role then c else install_and_tick repo c

  unfoldable pub start_each : Dict ℕ → Controller → Controller
  start_each [] c = c
  start_each (e ∷ es) c = start_each es (at_object e.1 start_repo c)

  unfoldable pub start_all : Controller → Controller
  unfolding start_each
  start_all c = start_each c.repos c

  abbrev pub stop_all : Controller → Controller
  stop_all c = supervise i.deps stops_all c

  abbrev pub tick_all_now : Controller → Controller
  tick_all_now c = supervise i.deps (ticks_all none) c

  abbrev pub reload_matching : Option String → ℕ → ManagedRepo → Controller → Controller
  reload_matching wanted n repo c =
      if root_matches wanted (root_of repo) then schedule_reload (now_of i) n repo c else c

  unfoldable pub reload_each : Option String → Dict ℕ → Controller → Controller
  reload_each wanted [] c = c
  reload_each wanted (e ∷ es) c =
      reload_each wanted es (at_object e.1 (reload_matching wanted e.1) c)

  unfoldable pub refresh : Option String → Controller → Controller
  unfolding reload_each
  refresh wanted c =
      reload_each wanted c.repos
        (record c { enricher = force_refresh (now_of i) wanted c.enricher })

  abbrev pub set_view_visible : Bool → Controller → Controller
  set_view_visible visible c = record c { enricher = set_visible (now_of i) visible c.enricher }

  abbrev pub window_focused : Controller → Controller
  window_focused c =
      supervise i.deps focus (record c { enricher = on_focus_regained (now_of i) c.enricher })
