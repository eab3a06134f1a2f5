-- ===== src/Host/RecentAcks.antt =====
-- The memory of the acks that the extension wrote: src/host/recentAcks.ts. The state is the record that the editor keeps.
use status_pipe.Base.{
  ℕ, ◌+◌, String, Bool, true, false, not, Option, none, some, List, [], ◌∷◌, ◌++◌, Dict, insert,
  lookup, map, map_some, keep, get_or, leb, ◌==◌, has_text,
}
use status_pipe.Base.Platform.{Platform}
use status_pipe.Protocol.{AckFile}
use status_pipe.Queue.{KnownAck}

abbrev pub retention_ms : ℕ
retention_ms = 604800000

-- The acks by the root of their repository.
abbrev pub Stored : Type 0
Stored = Dict (List AckFile)

abbrev other_id : String → AckFile → Bool
other_id id a = not (a.ack_id == id)

-- `created >= cutoff`, or a time that does not parse. The cutoff may lie before the epoch, so both sides are moved.
abbrev is_kept : Platform → ℕ → AckFile → Bool
is_kept os now a = elim (os.date_parse a.created_at) [
  | none ↦ true
  | some created ↦ leb now (created + retention_ms)
]

abbrev kept_acks : Platform → ℕ → String × List AckFile → Option (String × List AckFile)
kept_acks os now e = elim (keep (is_kept os now) e.1) [ [] ↦ none | a ∷ as_ ↦ some (e.0, a ∷ as_) ]

abbrev pub prune : Platform → ℕ → Stored → Stored
prune os now all = map_some (kept_acks os now) all

abbrev acks_of_repo : String → Stored → List AckFile
acks_of_repo root all = get_or (lookup root all) []

unfoldable pub remember : Platform → ℕ → String → AckFile → Stored → Stored
remember os now root ack all =
    let list = keep (other_id ack.ack_id) (acks_of_repo root all) ++ ack ∷ [] in
    prune os now (insert root list all)

unfoldable pub forget : String → String → Stored → Stored
forget root ack_id all = insert root (keep (other_id ack_id) (acks_of_repo root all)) all

unfoldable pub known_acks : String → List AckFile → Stored → List KnownAck
known_acks root on_disk all =
    let ids = map (λ a. a.ack_id) on_disk in
    let remembered = keep (λ (a : AckFile). not (has_text a.ack_id ids)) (acks_of_repo root all) in
    map (λ a. record { ack = a; on_disk = true }) on_disk
    ++ map (λ a. record { ack = a; on_disk = false }) remembered
