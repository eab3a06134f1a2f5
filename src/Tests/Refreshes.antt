-- ===== src/Tests/Refreshes.antt =====
-- The refresh and the stream at a merged pull request and at one line that comes in two chunks.
use status_pipe.Base.{ℕ, ◌≡◌, refl, true, false, none, some, List, [], ◌∷◌, ◌==◌, if◌then◌else◌}
use status_pipe.Protocol.{PrState}
use status_pipe.Protocol.Json.{Engine, text, bad, good}
use status_pipe.Protocol.Json.Writing.{written}
use status_pipe.Forge.{PullRequestInfo}
use status_pipe.Queue.{PrEnrichment}
use status_pipe.Forge.Enricher.{
  RepoEntry, EnricherEvent, new_entry, force, arrives, ends, tickets_changed, coalesced,
  enricher_run, find_number,
}
use status_pipe.Forge.Enricher.Freezing.{Holds, enricher_run-freezes}
use status_pipe.Output.Stream.{new_reducer, push_chunk}
use status_pipe.Output.Stream.Chunks.{push_all, push_all-joined}

abbrev merged_info : PullRequestInfo
merged_info = record {
  number = 5;
  url = "";
  state = PrState.merged_pr;
  draft = false;
  title = "";
  head_branch = "b";
  base_branch = "main";
  comments = record {
    total = 0;
    resolvable = 0;
    unresolved = 0;
    pr_level_resolvable = false;
    capped = none;
  };
  tasks = none;
  review_decision = none;
  review_requests = none;
  updated_at = "";
}

abbrev merged : PrEnrichment
merged = record {
  info = some merged_info;
  checks = none;
  linked_tickets = [];
  fetched_at = 10;
  deleted_on_forge = false;
}

abbrev cached : RepoEntry
cached = record new_entry {
  has_repository = true;
  tracked = (5, PrState.open_pr) ∷ (6, PrState.open_pr) ∷ [];
  prs = (5, merged) ∷ [];
}

abbrev refreshes : List (ℕ × EnricherEvent)
refreshes =
    (20, force)
    ∷ (21, arrives 6 merged)
    ∷ (22, ends none)
    ∷ (23, tickets_changed (5 ∷ []))
    ∷ (5023, coalesced)
    ∷ []

enricher_run-freezes_example : Holds 5 merged (enricher_run 60 refreshes cached)
unfolding find_number
enricher_run-freezes_example =
    enricher_run-freezes 5 merged refl 60 refreshes cached (record { cached = refl; idle = refl })

abbrev line_engine : Engine
line_engine = record {
  json_parse =
      λ t. if t == "{1}" then good (written (("type", text "assistant") ∷ [])) else bad "?";
  stringify = λ v. "?";
  to_text = λ v. "?";
}

push_all-joined_example :
    push_all line_engine ("{" ∷ "1}\n{" ∷ []) new_reducer
    ≡ push_chunk line_engine "{1}\n{" new_reducer
push_all-joined_example = push_all-joined line_engine ("{" ∷ "1}\n{" ∷ [])
