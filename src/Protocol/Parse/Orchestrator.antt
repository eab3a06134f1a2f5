-- ===== src/Protocol/Parse/Orchestrator.antt =====
-- parseOrchestratorFile of src/protocol/parse.ts.
use status_pipe.Base.{String, Option, none, some, [], ◌∷◌, List, get_or, map_some, length}
use status_pipe.Protocol.{
  OrchestratorFile, ParkedState, DispatchItem, DispatchPlan, DispatchKind, ParseResult, parsed,
}
use status_pipe.Protocol.Json.{Json, Object, Engine, get, str, num, obj, obj_array, named_in, ◌>>=◌}
use status_pipe.Protocol.Worker.{nonempty}
use status_pipe.Protocol.Parse.{parse_versioned, if_parsed}

abbrev pub dispatch_kind_name : DispatchKind → String
dispatch_kind_name DispatchKind.ticket = "ticket"
dispatch_kind_name DispatchKind.epic = "epic"

abbrev pub dispatch_kinds : List DispatchKind
dispatch_kinds = DispatchKind.ticket ∷ DispatchKind.epic ∷ []

unfoldable pub parked_from_json : Option Json → Option ParkedState
parked_from_json v = do
  p ← obj v
  since ← nonempty (str (get "since" p))
  reason ← str (get "reason" p)
  some (record { since = since; reason = reason; recheck_after = str (get "recheckAfter" p) })

unfoldable pub dispatch_item_from_json : Object → Option DispatchItem
dispatch_item_from_json v = do
  key ← nonempty (str (get "key" v))
  kind ← named_in dispatch_kind_name dispatch_kinds (str (get "kind" v))
  prompt ← nonempty (str (get "prompt" v))
  worktree ← nonempty (str (get "worktree" v))
  some (record { key = key; kind = kind; prompt = prompt; worktree = worktree })

-- A plan without items is no plan.
abbrev pub plan_of : Object → List DispatchItem → Option DispatchPlan
plan_of d [] = none
plan_of d (i ∷ is) = some (record {
  max_concurrent = get_or (num (get "maxConcurrent" d)) (length (i ∷ is));
  items = i ∷ is;
})

unfoldable pub dispatch_from_json : Option Json → Option DispatchPlan
unfolding dispatch_item_from_json
dispatch_from_json v = do
  d ← obj v
  plan_of d (map_some dispatch_item_from_json (obj_array (get "items" d)))

unfoldable pub orchestrator_from_json : Object → OrchestratorFile
unfolding parked_from_json dispatch_from_json
orchestrator_from_json o = record {
  schema_version = 1;
  repo = str (get "repo" o);
  pass_count = num (get "passCount" o);
  last_pass_started_at = str (get "lastPassStartedAt" o);
  last_pass_finished_at = str (get "lastPassFinishedAt" o);
  stale_worker_minutes = num (get "staleWorkerMinutes" o);
  parked = parked_from_json (get "parked" o);
  dispatch = dispatch_from_json (get "dispatch" o);
  note = str (get "note" o);
}

unfoldable pub parse_orchestrator_file : Engine → String → ParseResult OrchestratorFile
unfolding orchestrator_from_json
parse_orchestrator_file js raw =
    if_parsed (parse_versioned js raw) λ o. parsed (orchestrator_from_json o)
