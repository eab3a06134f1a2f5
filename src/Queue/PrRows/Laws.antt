-- ===== src/Queue/PrRows/Laws.antt =====
-- The index of head branches and the order of the rows.
use mathlib.Core.List.{Perm}
use status_pipe.Base.{
  ℕ, String, ◌≡◌, Option, none, some, List, [], ◌∷◌, map, find, lookup, Dict, lookup-insert, arith,
  ==_iff, sort-perm, ◌==◌,
}
use status_pipe.Base.Order.{
  IsSorted, IsOrder, sort-IsSorted, lexical-IsOrder, by_key-IsOrder, compare-IsOrder,
}
use status_pipe.Protocol.{TicketFile, TicketPr}
use status_pipe.Queue.{RepoEnrichment, PrRowDisplay}
use status_pipe.Queue.PrRows.{
  build_head_index, index_prs, index_pr, prs_of, build_pr_rows, build_pr_row, row_order, open_first,
}

-- `a` where there is one, else `b`.
abbrev or_later : Option TicketPr → Option TicketPr → Option TicketPr
or_later none o = o
or_later (some pr) o = some pr

index_prs-first :
    (head : String) (index : Dict TicketPr) (prs : List TicketPr)
    → lookup head (index_prs index prs)
      ≡ or_later (lookup head index) (find (λ (pr : TicketPr). pr.head == head) prs)
unfolding index_prs
index_prs-first head index [] = ground arith
index_prs-first head index (pr ∷ prs) = ground (
  arith,
  index_prs-first head (index_pr index pr) prs,
  lookup-insert pr.head head pr index,
  ==_iff pr.head head,
)

-- The index of head branches gives the first tracked PR of a branch, in the order of the tickets and their PRs, and nothing for a
-- branch that none has as its head.
build_head_index-first :
    (tickets : List TicketFile) (head : String)
    → lookup head (build_head_index tickets)
      ≡ find (λ (pr : TicketPr). pr.head == head) (prs_of tickets)
unfolding build_head_index lookup
build_head_index-first tickets head = index_prs-first head [] (prs_of tickets)

row_order-IsOrder : IsOrder row_order
unfolding row_order
row_order-IsOrder =
    lexical-IsOrder (by_key-IsOrder open_first compare-IsOrder)
      (by_key-IsOrder (λ (r : PrRowDisplay). r.number) compare-IsOrder)

-- The rows of a ticket are its PRs, each once: the open ones first, and by number among equals.
build_pr_rows-IsSorted :
    (show : ℕ → String) (t : TicketFile) (tickets : List TicketFile)
    (enrichment : Option RepoEnrichment)
    → IsSorted row_order (build_pr_rows show t tickets enrichment)
      × Perm (build_pr_rows show t tickets enrichment) (
          map
            (λ pr. build_pr_row show pr (build_head_index tickets) (prs_of tickets) enrichment)
            t.prs)
unfolding build_pr_rows
build_pr_rows-IsSorted show t tickets enrichment =
    (sort-IsSorted row_order-IsOrder _, sort-perm row_order _)
