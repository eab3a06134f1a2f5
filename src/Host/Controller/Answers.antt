-- ===== src/Host/Controller/Answers.antt =====
-- The dialogs of overlapping calls let only approved entries through: Host/Controller/Flows.
use status_pipe.Base.{
  ℕ, zero, suc, Bool, ◌≡◌, refl, true, false, some, List, [], ◌∷◌, ◌++◌, inl, inr, Option-cases,
  Bool-cases, subst, if-intro, if◌then◌else◌, All, All-impl, All-append, arith, lookup-insert,
  ==_iff, ==_refl, length,
}
use status_pipe.Protocol.{LaunchAgent}
use status_pipe.Supervisor.TrustGate.{launch_entry_hash}
use status_pipe.Supervisor.TrustGate.Approvals.{
  Approvals, Choice, allow, never, dismissed, is_approved, decide,
}
use status_pipe.Supervisor.Workers.Pool.{nth, set_nth}
use status_pipe.Supervisor.Fleet.Operations.{ticks_all, controls}
use status_pipe.Supervisor.Fleet.Entries.{FleetEntries-weaken}
use status_pipe.Host.Controller.{
  Setup, Instant, ManagedRepo, Controller, Flow, FollowUp, ticks, acts, root_of,
}
use status_pipe.Host.Controller.Reload.{launch_agents}
use status_pipe.Host.Controller.Flows.{
  pass_approved, followed, goes_on, put_flow, resume_flow, install_prompting, answered_at,
  answer_dialog,
}
use status_pipe.Host.Controller.Approved.{
  WasGranted, Allowed, FlowGranted, Remembers, OnlyApproved, Keeps, supervise-Keeps, install-Keeps,
}

module _ {ℓ κ} {A : Type ℓ} (P : A → Type κ) where
  All-set_nth : (n : ℕ) (y : A) (xs : List A) → P y → All P xs → All P (set_nth n y xs)
  unfolding set_nth
  All-set_nth n y [] p h = tt
  All-set_nth zero y (x ∷ xs) p h = (p, h.1)
  All-set_nth (suc n) y (x ∷ xs) p h = (h.0, All-set_nth n y xs p h.1)

  All-nth : (n : ℕ) (y : A) (xs : List A) → nth n xs ≡ some y → All P xs → P y
  unfolding nth
  All-nth n y [] e h = absurd (cc)
  All-nth zero y (x ∷ xs) e h = subst P (cc) h.0
  All-nth (suc n) y (x ∷ xs) e h = All-nth n y xs e h.1

module _ (x : Setup) where
  pass_approved-Granted :
      (s : Approvals) (as_ approved : List LaunchAgent)
      → Remembers x s
      → All (WasGranted x s.granted) approved
      → All (WasGranted x s.granted) (pass_approved x s.decided as_ approved).1
  unfolding pass_approved
  pass_approved-Granted s [] approved r h = h
  pass_approved-Granted s (a ∷ as_) approved r h =
      elim (Bool-cases (is_approved x.digest s.decided a)) [
        | inl e ↦ rw (e) (
            pass_approved-Granted s as_ (approved ++ a ∷ []) r
              (All-append (WasGranted x s.granted) approved (a ∷ []) h (r a e, tt)))
        | inr e ↦ rw (e) h
      ]

  -- What an answer leaves: the approvals of before are remembered, and so is the entry that it lets through.
  pub record Answered (a : LaunchAgent) (s : Approvals) (r : Approvals × Bool) : Type 0 where
    pub grows : (b : LaunchAgent) → WasGranted x s.granted b → WasGranted x r.0.granted b
    pub remembers : Remembers x r.0
    pub granted : r.1 ≡ true → WasGranted x r.0.granted a

  decide-Answered :
      (a : LaunchAgent) (choice : Choice) (s : Approvals)
      → Remembers x s
      → Answered a s (decide x.digest a choice s)
  decide-Answered a allow s r =
      let h = launch_entry_hash x.digest a in
      record {
        grows = λ b old. ground (arith, old);
        remembers = λ b now. ground (
          arith,
          now,
          r b,
          lookup-insert h (launch_entry_hash x.digest b) true s.decided,
          ==_iff h (launch_entry_hash x.digest b),
        );
        granted = λ e. ground (arith, ==_refl h);
      }
  decide-Answered a never s r =
      let h = launch_entry_hash x.digest a in
      record {
        grows = λ b old. old;
        remembers = λ b now. ground (
          arith,
          now,
          r b,
          lookup-insert h (launch_entry_hash x.digest b) false s.decided,
          ==_iff h (launch_entry_hash x.digest b),
        );
        granted = λ e. absurd (cc);
      }
  decide-Answered a dismissed s r = record {
    grows = λ b old. old;
    remembers = r;
    granted = λ e. absurd (cc);
  }

  All-grows :
      (s t : Approvals)
      → ((b : LaunchAgent) → WasGranted x s.granted b → WasGranted x t.granted b)
      → (fs : List LaunchAgent) → All (WasGranted x s.granted) fs
      → All (WasGranted x t.granted) fs
  All-grows s t grows fs h = All-impl (WasGranted x s.granted) (WasGranted x t.granted) grows fs h

  answered-OnlyApproved :
      (a : LaunchAgent) (choice : Choice) (c : Controller)
      → OnlyApproved x c
      → OnlyApproved x (record c { approvals = (decide x.digest a choice c.approvals).0 })
  answered-OnlyApproved a choice c v =
      let s = (decide x.digest a choice c.approvals).0 in
      let d = decide-Answered a choice c.approvals v.entries.2 in
      record {
        entries = (
          FleetEntries-weaken (Allowed x c.approvals.granted) (Allowed x s.granted)
              (λ r h. (h.0, h.1, d.grows h.0 h.2, h.3)) c.supervisor v.entries.0,
          All-impl (FlowGranted x c.approvals.granted) (FlowGranted x s.granted)
              (λ f h. All-grows c.approvals s d.grows f.approved h) c.flows v.entries.1,
          d.remembers,
        );
      }

  module _ (i : Instant) where
    followed-Keeps : (f : Flow) (then_ : FollowUp) → f.follow_up ≡ then_ → Keeps x (followed x i f)
    followed-Keeps f ticks e c v =
        rw (e) (supervise-Keeps x i.deps (ticks_all (some f.root)) c tt v)
    followed-Keeps f (acts id action) e c v =
        rw (e) (supervise-Keeps x i.deps (controls f.root id action) c tt v)

    goes_on-OnlyApproved :
        (f : Flow) (rest : List LaunchAgent) (c : Controller)
        → FlowGranted x c.approvals.granted f
        → OnlyApproved x c
        → OnlyApproved x (goes_on x i f rest c)
    goes_on-OnlyApproved f [] c g v =
        followed-Keeps f f.follow_up refl _ (install-Keeps x i f.root f.approved c g v)
    goes_on-OnlyApproved f (a ∷ as_) c g v = record { entries = v.entries }

    resume_flow-OnlyApproved :
        (n : ℕ) (f : Flow) (c : Controller)
        → FlowGranted x c.approvals.granted f
        → OnlyApproved x c
        → OnlyApproved x (resume_flow x i n f c)
    unfolding resume_flow
    resume_flow-OnlyApproved n f c g v =
        let passed = pass_approved x c.approvals.decided f.remaining f.approved in
        let h : Flow = record f { remaining = passed.0; approved = passed.1 } in
        let granted = pass_approved-Granted c.approvals f.remaining f.approved v.entries.2 g in
        goes_on-OnlyApproved h h.remaining (put_flow x i n h c) granted (record {
          entries = (
            v.entries.0,
            All-set_nth (FlowGranted x c.approvals.granted) n h c.flows granted v.entries.1,
            v.entries.2,
          );
        })

    pub install_prompting-Keeps :
        (repo : ManagedRepo) (then_ : FollowUp) → Keeps x (install_prompting x i repo then_)
    unfolding install_prompting
    install_prompting-Keeps repo then_ c v =
        let f : Flow = record {
          root = root_of repo;
          remaining = if i.trusted then launch_agents repo else [];
          approved = [];
          follow_up = then_;
        } in
        resume_flow-OnlyApproved (length c.flows) f (record c { flows = c.flows ++ f ∷ [] }) tt
          (record {
            entries = (
              v.entries.0,
              All-append (FlowGranted x c.approvals.granted) c.flows (f ∷ []) v.entries.1 (tt, tt),
              v.entries.2,
            );
          })

    answered_at-OnlyApproved :
        (n : ℕ) (f : Flow) (choice : Choice) (rest : List LaunchAgent) (c : Controller)
        → FlowGranted x c.approvals.granted f
        → OnlyApproved x c
        → OnlyApproved x (answered_at x i n f choice rest c)
    answered_at-OnlyApproved n f choice [] c g v = v
    answered_at-OnlyApproved n f choice (a ∷ as_) c g v =
        let d = decide-Answered a choice c.approvals v.entries.2 in
        let s = (decide x.digest a choice c.approvals).0 in
        let old = All-grows c.approvals s d.grows f.approved g in
        resume_flow-OnlyApproved n _ _
          (if-intro (All (WasGranted x s.granted)) (decide x.digest a choice c.approvals).1
            (λ e. All-append (WasGranted x s.granted) f.approved (a ∷ []) old (d.granted e, tt))
            (λ _. old))
          (answered-OnlyApproved a choice c v)

    pub answer_dialog-Keeps : (n : ℕ) (choice : Choice) → Keeps x (answer_dialog x i n choice)
    unfolding answer_dialog
    answer_dialog-Keeps n choice c v = elim (Option-cases (nth n c.flows)) [
      | inl e ↦ rw (answer_dialog, e) v
      | inr (f, e) ↦
          rw (answer_dialog, e)
            (answered_at-OnlyApproved n f choice f.remaining c
              (All-nth (FlowGranted x c.approvals.granted) n f c.flows e v.entries.1) v)
    ]
