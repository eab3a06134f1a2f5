-- ===== src/Supervisor/TrustGate/Approvals.antt =====
-- The approval of launch entries: src/host/launchApproval.ts. The state is the record of decisions, by the hash of an
-- entry, and the entries that were asked about, the latest first. approve_agents is one call during which no other call
-- answers a dialog; the calls that overlap are those of Host/Controller/Flows.
use status_pipe.Base.{
  String, Bool, true, false, Option, none, some, List, [], ◌∷◌, Dict, insert, lookup, any,
  if◌then◌else◌, is_some, not,
}
use status_pipe.Protocol.{LaunchAgent}
use status_pipe.Supervisor.TrustGate.{Digest, launch_entry_hash}

-- `granted` is a history that the source does not keep: the hashes that were approved at any time.
pub record Approvals : Type 0 where
  pub decided : Dict Bool
  pub asked : List LaunchAgent
  pub granted : List String

-- The button that closes the dialog; `dismissed` is the escape key.
pub data Choice : Type 0 where
  allow never dismissed : Choice

abbrev pub is_allowed : Option Bool → Bool
is_allowed none = false
is_allowed (some b) = b

module _ (os : Digest) where
  abbrev pub is_approved : Dict Bool → LaunchAgent → Bool
  is_approved decided a = is_allowed (lookup (launch_entry_hash os a) decided)

  abbrev pub record_approval : LaunchAgent → Bool → Approvals → Approvals
  record_approval a b s = record s {
    decided = insert (launch_entry_hash os a) b s.decided;
    granted = if b then launch_entry_hash os a ∷ s.granted else s.granted;
  }

  -- What the button does, and whether the entry is let through.
  abbrev pub decide : LaunchAgent → Choice → Approvals → Approvals × Bool
  decide a allow s = (record_approval a true s, true)
  decide a never s = (record_approval a false s, false)
  decide a dismissed s = (s, false)

  -- `choose` is the operator: the choice may depend on all that was decided and asked before.
  module _ (choose : Approvals → LaunchAgent → Choice) where
    unfoldable pub prompt_approval : LaunchAgent → Approvals → Approvals × Bool
    prompt_approval a s = decide a (choose s a) (record s { asked = a ∷ s.asked })

    abbrev pub approved_or_asked : LaunchAgent → Approvals → Approvals × Bool
    approved_or_asked a s = if is_approved s.decided a then (s, true) else prompt_approval a s

    unfoldable pub approve_each : List LaunchAgent → Approvals → Approvals × List LaunchAgent
    unfolding prompt_approval
    approve_each [] s = (s, [])
    approve_each (a ∷ as_) s =
        let (s', ok) = approved_or_asked a s in
        let (end, rest) = approve_each as_ s' in (end, if ok then a ∷ rest else rest)

    unfoldable pub approve_agents :
        Bool → List LaunchAgent → Approvals → Approvals × List LaunchAgent
    unfolding approve_each
    approve_agents trusted agents s = if trusted then approve_each agents s else (s, [])

  unfoldable pub needs_prompt : Dict Bool → List LaunchAgent → Bool
  needs_prompt decided agents =
      any (λ (a : LaunchAgent). not (is_some (lookup (launch_entry_hash os a) decided))) agents
