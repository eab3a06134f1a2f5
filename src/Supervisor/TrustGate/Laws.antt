-- ===== src/Supervisor/TrustGate/Laws.antt =====
-- What an approval means: src/supervisor/trustGate.ts and src/host/launchApproval.ts.
use status_pipe.Base.{
  String, ◌≡◌, refl, ap, Bool, true, false, some, List, [], ◌∷◌, Dict, lookup, All, if◌then◌else◌,
  lookup-insert, lookup-insert_self, ==_iff, map, if-intro, ◌==◌,
}
use status_pipe.Protocol.{LaunchAgent, AgentType, AgentLifetime}
use status_pipe.Protocol.Json.{Json, Object, object, members_of, str_array}
use status_pipe.Protocol.Json.Writing.{written, texts, members_of-to_members, str_array-texts}
use status_pipe.Supervisor.TrustGate.{
  Digest, launch_entry_hash, canonical, env_text, type_name, lifetime_name, sorted_env,
}
use status_pipe.Supervisor.TrustGate.Approvals.{
  Approvals, Choice, allow, never, dismissed, is_allowed, is_approved, approved_or_asked,
  approve_each, approve_agents, prompt_approval, decide,
}

-- What two entries with one approval have in common: all that bears on what runs.
pub record SameRun (os : Digest) (a b : LaunchAgent) : Type 0 where
  pub id : a.id ≡ b.id
  pub type : a.type ≡ b.type
  pub command : a.command ≡ b.command
  pub args : a.args ≡ b.args
  pub stdin : a.stdin ≡ b.stdin
  pub cwd : a.cwd ≡ b.cwd
  pub env : sorted_env os a.env ≡ sorted_env os b.env
  pub lifetime : a.lifetime ≡ b.lifetime
  pub interval : a.interval_minutes ≡ b.interval_minutes
  pub timeout : a.timeout_minutes ≡ b.timeout_minutes

texts-injective : (xs ys : List String) → texts xs ≡ texts ys → xs ≡ ys
texts-injective xs ys e =
    cc (str_array-texts xs, str_array-texts ys, ap (λ j. str_array (some j)) e)

env_texts-injective : (xs ys : Dict String) → map env_text xs ≡ map env_text ys → xs ≡ ys
env_texts-injective [] [] h = refl
env_texts-injective [] (y ∷ ys) h = absurd (cc)
env_texts-injective (x ∷ xs) [] h = absurd (cc)
env_texts-injective ((k, v) ∷ xs) ((j, w) ∷ ys) h =
    let rest : xs ≡ ys = env_texts-injective xs ys (cc) in cc

abbrev env_of : Json → Object
env_of (object fs) = members_of fs
env_of _ = []

written_env-injective :
    (xs ys : Dict String) → written (map env_text xs) ≡ written (map env_text ys) → xs ≡ ys
written_env-injective xs ys h =
    env_texts-injective xs ys
      (cc (members_of-to_members (map env_text xs), members_of-to_members (map env_text ys)))

abbrev type_of : String → AgentType
type_of s =
    if s == "claude"
    then AgentType.claude
    else if s == "exec"
    then AgentType.exec
    else AgentType.built_in

type_of-type_name : (t : AgentType) → type_of (type_name t) ≡ t
type_of-type_name AgentType.claude = refl
type_of-type_name AgentType.exec = refl
type_of-type_name AgentType.built_in = refl

abbrev lifetime_of : String → AgentLifetime
lifetime_of s = if s == "daemon" then AgentLifetime.daemon else AgentLifetime.scheduled

lifetime_of-lifetime_name : (l : AgentLifetime) → lifetime_of (lifetime_name l) ≡ l
lifetime_of-lifetime_name AgentLifetime.daemon = refl
lifetime_of-lifetime_name AgentLifetime.scheduled = refl

-- Where neither `JSON.stringify` nor the hash confuses the two entries: an approval of the one covers the other only if
-- both agree in all that bears on what runs, the environment up to its order.
pub launch_entry_hash-covers :
    (os : Digest) (a b : LaunchAgent)
    → (os.to_json (written (canonical os a)) ≡ os.to_json (written (canonical os b))
        → written (canonical os a) ≡ written (canonical os b))
    → (os.sha256 (os.to_json (written (canonical os a)))
          ≡ os.sha256 (os.to_json (written (canonical os b)))
        → os.to_json (written (canonical os a)) ≡ os.to_json (written (canonical os b)))
    → launch_entry_hash os a ≡ launch_entry_hash os b
    → SameRun os a b
unfolding launch_entry_hash
launch_entry_hash-covers os a b unparse unhash h =
    let whole = unparse (unhash h) in
    let type : type_name a.type ≡ type_name b.type = cc in
    let lifetime : lifetime_name a.lifetime ≡ lifetime_name b.lifetime = cc in
    record {
      id = cc;
      type = cc (ap type_of type, type_of-type_name a.type, type_of-type_name b.type);
      command = cc;
      args = texts-injective a.args b.args (cc);
      stdin = cc;
      cwd = cc;
      env = written_env-injective _ _ (cc);
      lifetime = cc (
        ap lifetime_of lifetime,
        lifetime_of-lifetime_name a.lifetime,
        lifetime_of-lifetime_name b.lifetime,
      );
      interval = cc;
      timeout = cc;
    }

module _ (os : Digest) (choose : Approvals → LaunchAgent → Choice) where
  -- Decisions that are kept: what was approved stays so.
  abbrev pub Grows : Dict Bool → Dict Bool → Type 0
  Grows before after =
      (a : LaunchAgent) → is_approved os before a ≡ true → is_approved os after a ≡ true

  decide-Grows :
      (a : LaunchAgent) (c : Choice) (s : Approvals)
      → is_approved os s.decided a ≡ false
      → Grows s.decided (decide os a c s).0.decided
  decide-Grows a allow s fresh b old =
      rw (lookup-insert (launch_entry_hash os a) (launch_entry_hash os b) true s.decided) (
        if-intro (λ o. is_allowed o ≡ true) (launch_entry_hash os a == launch_entry_hash os b)
          {x = some true} {y = lookup (launch_entry_hash os b) s.decided} (λ _. refl) (λ _. old))
  decide-Grows a never s fresh b old =
      rw (lookup-insert (launch_entry_hash os a) (launch_entry_hash os b) false s.decided) (
        if-intro (λ o. is_allowed o ≡ true) (launch_entry_hash os a == launch_entry_hash os b)
          {x = some false} {y = lookup (launch_entry_hash os b) s.decided} other (λ _. old))
    where
      other : (launch_entry_hash os a == launch_entry_hash os b) ≡ true → false ≡ true
      other same = cc ((==_iff _ _).0 same)
  decide-Grows a dismissed s fresh b old = old

  decide-approves :
      (a : LaunchAgent) (c : Choice) (s : Approvals)
      → (decide os a c s).1 ≡ true
      → is_approved os (decide os a c s).0.decided a ≡ true
  decide-approves a allow s ok = rw (lookup-insert_self (launch_entry_hash os a) true s.decided)
  decide-approves a never s ok = absurd (cc)
  decide-approves a dismissed s ok = absurd (cc)

  -- One entry: what was approved stays so, and the entry is approved where it is let through.
  abbrev Decides : LaunchAgent → Approvals → Approvals × Bool → Type 0
  Decides a s r = Grows s.decided r.0.decided × (r.1 ≡ true → is_approved os r.0.decided a ≡ true)

  ask-Decides : (a : LaunchAgent) (s : Approvals) → Decides a s (approved_or_asked os choose a s)
  unfolding prompt_approval
  ask-Decides a s =
      if-intro (Decides a s) (is_approved os s.decided a) (λ known. (λ b old. old, λ _. known))
        (λ fresh. (decide-Grows a (choose s a) _ fresh, decide-approves a (choose s a) _))

  -- The entries that are let through are approved by the decisions that stand in the end, and what was approved stays so.
  abbrev pub AllApproved : Approvals → Approvals × List LaunchAgent → Type 0
  AllApproved s r = All (λ a. is_approved os r.0.decided a ≡ true) r.1 × Grows s.decided r.0.decided

  approve_each-AllApproved :
      (agents : List LaunchAgent) (s : Approvals) → AllApproved s (approve_each os choose agents s)
  unfolding approve_each
  approve_each-AllApproved [] s = (tt, λ b old. old)
  approve_each-AllApproved (a ∷ as_) s =
      let here = ask-Decides a s in
      let later = approve_each-AllApproved as_ (approved_or_asked os choose a s).0 in
      (
        if-intro (All _) (approved_or_asked os choose a s).1
            (λ ok. (later.1 a (here.1 ok), later.0)) (λ _. later.0),
        λ b old. later.1 b (here.0 b old),
      )

  -- An untrusted workspace approves nothing, and asks nothing. Otherwise every entry that is let through is approved by
  -- the decisions that stand in the end, whatever the operator answers, and no earlier approval is lost.
  pub approve_agents-AllApproved :
      (trusted : Bool) (agents : List LaunchAgent) (s : Approvals)
      → (approve_agents os choose false agents s ≡ (s, []))
        × AllApproved s (approve_agents os choose trusted agents s)
  unfolding approve_agents
  approve_agents-AllApproved true agents s = (refl, approve_each-AllApproved agents s)
  approve_agents-AllApproved false agents s = (refl, (tt, λ b old. old))
