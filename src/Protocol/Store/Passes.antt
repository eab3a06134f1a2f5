-- ===== src/Protocol/Store/Passes.antt =====
-- The orchestrator's file written and read: writeOrchestrator and readOrchestrator of src/planner/protocolIo.ts.
use status_pipe.Base.{
  ℕ, ◌≡◌, ◌≢◌, refl, sym, ap, ◌∙◌, Option, none, some, List, [], ◌∷◌, map, map_some, All, All-impl,
  lookup,
}
use status_pipe.Protocol.{OrchestratorFile, ParkedState, DispatchItem, DispatchPlan}
use status_pipe.Protocol.Json.{Engine, number, obj_array}
use status_pipe.Protocol.Json.Writing.{
  written, objects, members_of-to_members, obj_array-objects, str-text_or_null, num-number_or_null,
  map_some-map,
}
use status_pipe.Protocol.Parse.Versioned.{parse_versioned-written}
use status_pipe.Protocol.Parse.Orchestrator.{
  parked_from_json, dispatch_item_from_json, dispatch_from_json, orchestrator_from_json, plan_of,
  parse_orchestrator_file,
}
use status_pipe.Protocol.Store.{read_orchestrator, write_orchestrator}
use status_pipe.Protocol.Store.Fields.{
  or_null, parked_fields, item_fields, plan_fields, orchestrator_fields,
}
use status_pipe.Protocol.Store.Overlay.{named-dispatch_kind}
use status_pipe.Protocol.Store.RoundTrip.{Filled, OrNone}
use status_pipe.Protocol.Store.Tickets.{Decodes}

abbrev pub IsItem : DispatchItem → Type 0
IsItem i = Filled i.key × Filled i.prompt × Filled i.worktree

-- A plan has an item.
abbrev pub IsPlan : DispatchPlan → Type 0
IsPlan d = (d.items ≢ []) × All IsItem d.items

pub record IsOrchestrator (f : OrchestratorFile) : Type 0 where
  pub version : f.schema_version ≡ 1
  pub parked : OrNone (λ p. Filled p.since) f.parked
  pub planned : OrNone IsPlan f.dispatch

ruleset reading = (
  str-text_or_null, num-number_or_null, obj_array-objects, members_of-to_members,
  named-dispatch_kind,
)

parked-fields :
    (p : Option ParkedState)
    → OrNone (λ p. Filled p.since) p
    → parked_from_json (some (or_null parked_fields p)) ≡ p
unfolding parked_from_json lookup
parked-fields none h = refl
parked-fields (some p) h = simp (reading, h)

item-fields : (i : DispatchItem) → IsItem i → dispatch_item_from_json (item_fields i) ≡ some i
unfolding dispatch_item_from_json lookup
item-fields i h = simp (reading, h.0, h.1, h.2)

items-fields :
    (is : List DispatchItem)
    → All IsItem is
    → map_some dispatch_item_from_json (map item_fields is) ≡ is
items-fields is h =
    map_some-map dispatch_item_from_json item_fields is (All-impl _ _ item-fields is h)

read-items :
    (is : List DispatchItem)
    → All IsItem is
    → map_some dispatch_item_from_json (obj_array (some (objects (map item_fields is)))) ≡ is
read-items is h = rw (obj_array-objects (map item_fields is)) (items-fields is h)

plan_of-fields :
    (n : ℕ) (is : List DispatchItem) (d : DispatchPlan)
    → is ≢ []
    → plan_of (plan_fields (record d { max_concurrent = n })) is
      ≡ some (record { max_concurrent = n; items = is })
unfolding lookup
plan_of-fields n [] d h = absurd (h refl)
plan_of-fields n (i ∷ is) d h = refl

dispatch-fields :
    (d : Option DispatchPlan)
    → OrNone IsPlan d
    → dispatch_from_json (some (or_null plan_fields d)) ≡ d
unfolding dispatch_from_json lookup
dispatch-fields none h = refl
dispatch-fields (some d) h =
    ap (plan_of (plan_fields d)) (read-items d.items h.1)
    ∙ plan_of-fields d.max_concurrent d.items d h.0

orchestrator_from_json-fields :
    (f : OrchestratorFile) → IsOrchestrator f → orchestrator_from_json (orchestrator_fields f) ≡ f
unfolding orchestrator_from_json lookup
orchestrator_from_json-fields f v =
    simp (
      reading,
      parked-fields f.parked v.parked,
      dispatch-fields f.dispatch v.planned,
      sym v.version,
    )

-- What writeOrchestrator leaves, readOrchestrator reads, for a file of version 1 whose plan, if any, has items and whose
-- required texts are not empty. The text of an object is assumed to decode to that object.
pub read_orchestrator-write :
    (js : Engine) (f : OrchestratorFile)
    → IsOrchestrator f
    → Decodes js (written (orchestrator_fields f))
    → read_orchestrator js (write_orchestrator js f) ≡ some f
unfolding read_orchestrator parse_orchestrator_file lookup
read_orchestrator-write js f v decodes =
    rw
      (parse_versioned-written js _ (orchestrator_fields f) decodes
        (ap (λ n. some (number n)) v.version))
      (ap some (orchestrator_from_json-fields f v))
