-- ===== src/Meetings/Presence.antt =====
-- services/api/internal/httpapi/participants.go: `reconcileRealtimeParticipants`, and its rounds. Who
-- is connected is the argument `online`, and of which rows the UPDATE fails the argument `down`.
use xpace.Prelude.{
  ℕ, ◌+◌, ◌≤◌, ◌<◌, ◌≡◌, Bool, true, false, not, ◌&&◌, Option, none, some, List, map, arith, leb,
  ltb, ◌==◌, if◌then◌else◌, nat_eq,
}
use xpace.Meetings.{Participant, ParticipantStatus, joined, left_, disconnected, Meeting}

-- COALESCE(user_id, external_user_id)
abbrev pub logical_user : Participant → Option ℕ
logical_user p = either p.user_id p.external_user_id
  where
    either : Option ℕ → Option ℕ → Option ℕ
    either none y = y
    either (some x) y = some x

-- A row without either is not read, and stays as it is.
abbrev pub has_user : Option ℕ → Bool
has_user none = false
has_user (some _) = true

abbrev pub is_online : (ℕ → Bool) → Option ℕ → Bool
is_online online none = false
is_online online (some u) = online u

-- joined_at < now - 20 seconds
abbrev pub joined_before : ℕ → Option ℕ → Bool
joined_before now none = false
joined_before now (some t) = ltb (t + 20) now

-- now.Sub(disconnectedAt) >= 2 minutes
abbrev pub gone_for : ℕ → Option ℕ → Bool
gone_for now none = false
gone_for now (some t) = leb (t + 120) now

-- The UPDATE that the loop makes of a candidate, by its status and whether its user is connected.
unfoldable pub reconcile_status : Bool → ℕ → ParticipantStatus → Participant → Participant
reconcile_status true now ParticipantStatus.disconnected p = record p {
  status = ParticipantStatus.joined;
  left_at = none;
}
reconcile_status false now ParticipantStatus.joined p = record p {
  status = ParticipantStatus.disconnected;
  left_at = some now;
}
reconcile_status false now ParticipantStatus.disconnected p =
    if gone_for now p.left_at then record p { status = ParticipantStatus.left_ } else p
reconcile_status _ now _ p = p

-- Each candidate's UPDATE touches its own row; `down` says of which rows it fails.
unfoldable pub reconcile_row : (ℕ → Bool) → (ℕ → Bool) → Meeting → ℕ → Participant → Participant
reconcile_row down online m now p =
    if p.meeting_id == m.id
      && p.tenant_id == m.tenant_id
      && joined_before now p.joined_at
      && has_user (logical_user p)
      && not (down p.id)
    then reconcile_status (is_online online (logical_user p)) now p.status p
    else p

unfoldable pub reconcile_realtime_participants :
    (ℕ → Bool) → (ℕ → Bool) → Meeting → ℕ → List Participant → List Participant
reconcile_realtime_participants down online m now rows = map (reconcile_row down online m now) rows

abbrev pub no_failures : ℕ → Bool
no_failures _ = false

-- A participant with a user, joined for more than 20 seconds and never away before, whom the realtime
-- server has lost, is given two minutes: where no statement fails, one round marks the row
-- DISCONNECTED, and after one later round it is JOINED again as it was if the user is back, and
-- otherwise LEFT exactly when two minutes have passed.
pub two_rounds :
    (m : Meeting) (p : Participant) (user : ℕ) (away later : ℕ → Bool) (t₁ t₂ at : ℕ)
    → p.meeting_id ≡ m.id
    → p.tenant_id ≡ m.tenant_id
    → p.status ≡ joined
    → p.left_at ≡ none
    → p.joined_at ≡ some at
    → at + 20 < t₁
    → t₁ ≤ t₂
    → logical_user p ≡ some user
    → away user ≡ false
    → let q = reconcile_row no_failures away m t₁ p in
      (q ≡ record p { status = disconnected; left_at = some t₁ })
      × (reconcile_row no_failures later m t₂ q ≡ (
          if later user
          then p
          else if leb (t₁ + 120) t₂
          then record p { status = left_; left_at = some t₁ }
          else q))
unfolding reconcile_row reconcile_status
two_rounds m p user away later t₁ t₂ at em et st lf j early order who off =
    (ground arith, ground arith)
