-- ===== src/Planner/Schedule/Dispatch.antt =====
-- The staleness reconcile and the dispatch: reconcileStaleness, promptFor, dispatchOne and selectAndDispatch of
-- src/planner/schedule.ts.
pub mod Laws
pub mod Staleness
use status_pipe.Base.{
  ℕ, ◌-◌, String, Bool, true, false, not, Option, none, some, get_or, List, [], ◌∷◌, ◌++◌, map,
  ◌^^◌, ◌&&◌, length, take, drop, has_text, insert, lookup,
}
use status_pipe.Base.Platform.{Platform}
use status_pipe.Protocol.{TicketFile, DispatchItem, DispatchPlan, DispatchKind}
use status_pipe.Protocol.Worker.{is_worker_stale, nonempty}
use status_pipe.Planner.{Candidate, PassState, PlannerInput}
use status_pipe.Planner.Acks.{ConsumedAcks}
use status_pipe.Planner.Effects.{
  Ports, M, ◌>>=◌, ◌>>◌, pure, attempt, save_ticket, provision, the_iso, the_now,
}
use status_pipe.Planner.Schedule.Tickets.{as_reconciled, stamped}
use status_pipe.Planner.Schedule.Selection.{Selectable, selectable, ordered}

-- The key stays in its place among the loaded tickets, and is reported.
abbrev stale_marked : String → TicketFile → PassState → PassState
stale_marked key t s = record s {
  tickets = insert key t s.tickets;
  report = record s.report { stale_reconciled = s.report.stale_reconciled ++ key ∷ [] };
}

abbrev prompt_base : Candidate → String
prompt_base c = elim c.kind [
  | DispatchKind.epic ↦ "/status-pipe:work-epic " ^^ get_or c.epic_path "null"
  | DispatchKind.ticket ↦ "/status-pipe:work-ticket " ^^ c.key
]

abbrev pub prompt_for : Candidate → Option String → String
prompt_for c note = elim (nonempty note) [
  | none ↦ prompt_base c
  | some text ↦ prompt_base c ^^ " Operator ack note: \"" ^^ text ^^ "\""
]

-- `map.get(key) ?? null`
abbrev note_for : String → ConsumedAcks → Option String
note_for key consumed = get_or (lookup key consumed) none

abbrev pub key_of : Selectable → String
key_of s = s.candidate.key

abbrev pub after_item :
    Selectable
    → Option DispatchItem
    → List DispatchItem × List String
    → List DispatchItem × List String
after_item s none (items, failed) = (items, s.candidate.key ∷ failed)
after_item s (some i) (items, failed) = (i ∷ items, failed)

abbrev pub reported : PassState → List String → List DispatchItem × List String → PassState
reported s over (items, failed) = record s {
  report = record s.report {
    deferred = s.report.deferred ++ over ++ failed;
    dispatched = s.report.dispatched ++ items;
  };
}

module _ (os : Platform) (p : Ports) (input : PlannerInput) where
  abbrev pub is_crashed : ℕ → String → TicketFile → Bool
  is_crashed now key t =
      not (has_text key input.live_worker_keys)
      && is_worker_stale os t.worker input.config.stale_worker_minutes now

  abbrev mark_stale : String → String → TicketFile → PassState → M PassState
  mark_stale iso key t s = do
    save_ticket p key (as_reconciled os t iso input.config.stale_worker_minutes)
    pure (stale_marked key (as_reconciled os t iso input.config.stale_worker_minutes) s)

  abbrev pub mark_if : Bool → String → String → TicketFile → PassState → M PassState
  mark_if crashed iso key t s = elim crashed [ true ↦ mark_stale iso key t s | false ↦ pure s ]

  unfoldable pub reconcile_each : ℕ → String → List (String × TicketFile) → PassState → M PassState
  reconcile_each now iso [] s = pure s
  reconcile_each now iso ((key, t) ∷ rest) s = do
    next ← mark_if (is_crashed now key t) iso key t s
    reconcile_each now iso rest next

  unfoldable pub reconcile_staleness : PassState → M PassState
  reconcile_staleness s = do now ← the_now p; iso ← the_iso p; reconcile_each now iso s.tickets s

  unfoldable pub dispatch_one : ConsumedAcks → Selectable → M DispatchItem
  dispatch_one consumed s = do
    iso ← the_iso p
    worktree ← provision p s.candidate.slug
    save_ticket p s.candidate.key (stamped s.ticket s.candidate input.repo iso)
    pure (record {
      key = s.candidate.key;
      kind = s.candidate.kind;
      prompt = prompt_for s.candidate (note_for s.candidate.key consumed);
      worktree = worktree;
    })

  -- The items dispatched and the keys that failed, in the order of the loop.
  unfoldable pub dispatch_each :
      ConsumedAcks → List Selectable → M (List DispatchItem × List String)
  dispatch_each consumed [] = pure ([], [])
  dispatch_each consumed (s ∷ ss) = do
    item ← attempt (dispatch_one consumed s)
    rest ← dispatch_each consumed ss
    pure (after_item s item rest)

  abbrev pub free_slots : ℕ
  free_slots = input.max_concurrent - length input.live_worker_keys

  abbrev pub ranked : PassState → List Candidate → List Selectable
  ranked state candidates = ordered os (selectable input.live_worker_keys state candidates)

  -- `items.length > 0 ? { maxConcurrent, items } : null`
  abbrev pub dispatch_plan : List DispatchItem → Option DispatchPlan
  dispatch_plan [] = none
  dispatch_plan (i ∷ is) = some (record { max_concurrent = input.max_concurrent; items = i ∷ is })

  unfoldable pub select_and_dispatch :
      PassState → List Candidate → M (Option DispatchPlan × PassState)
  select_and_dispatch s candidates = do
    let queue = ranked s candidates
    results ← dispatch_each s.consumed (take free_slots queue)
    pure (dispatch_plan results.0, reported s (map key_of (drop free_slots queue)) results)
