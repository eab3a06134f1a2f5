-- ===== src/Protocol/AckId/Laws.antt =====
-- What the ack of a ticket has to do with the ticket's current request.
use status_pipe.Base.{◌≡◌, true, some, Option-cases, inl, inr, ==_refl}
use mathlib.Core.Path.{subst}
use status_pipe.Base.Platform.{Platform}
use status_pipe.Protocol.{AckFile, AckTarget, kind_name}
use status_pipe.Protocol.AckId.{
  ack_target_for, ack_matches_ticket, build_ack, BuildAckOptions, same_request, ack_for,
}

same_request_refl : (a : AckTarget) → same_request a a ≡ true
same_request_refl a = rw (==_refl (kind_name a.waiting_kind), ==_refl a.waiting_since)

ack_for-matches :
    (os : Platform) (o : BuildAckOptions) (x : AckTarget)
    → ack_target_for o.ticket ≡ some x
    → ack_matches_ticket (ack_for os o x) o.ticket ≡ true
unfolding ack_matches_ticket ack_for
ack_for-matches os o x e = rw (e, ack_matches_ticket) (same_request_refl x)

pub build_ack_inv :
    (os : Platform) (o : BuildAckOptions) (a : AckFile)
    → build_ack os o ≡ some a
    → (x : AckTarget) × (ack_target_for o.ticket ≡ some x) × (ack_for os o x ≡ a)
unfolding build_ack
build_ack_inv os o a h = elim (Option-cases (ack_target_for o.ticket)) [
  | inl e ↦ absurd (cc (rw (e, build_ack) at h))
  | inr (x, e) ↦ (x, e, let p : some (ack_for os o x) ≡ some a = rw (e, build_ack) at h in cc)
]

-- An ack that is built for a ticket answers that ticket's request.
pub build_ack-matches :
    (os : Platform) (o : BuildAckOptions) (a : AckFile)
    → build_ack os o ≡ some a
    → ack_matches_ticket a o.ticket ≡ true
build_ack-matches os o a h =
    let (x, e, p) = build_ack_inv os o a h in
    subst (λ b. ack_matches_ticket b o.ticket ≡ true) p (ack_for-matches os o x e)
