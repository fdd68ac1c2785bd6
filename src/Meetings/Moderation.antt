-- ===== src/Meetings/Moderation.antt =====
-- services/api/internal/httpapi/participants.go: what `moderateParticipant` does to the participants.
use mathlib.Core.Path.{subst}
use mathlib.Core.List.{Memᴰ}
use xpace.Rbac.{has_permission}
use xpace.Prelude.{
  exists→Mem, nat_beq_iff, ℕ, ◌≡◌, ◌≢◌, refl, ap, String, Bool, true, false, not, ◌&&◌, ◌||◌,
  Option, none, some, inl, inr, arith, ◌==◌, nat_eq, text_eq, if◌then◌else◌, first, exists,
  Bool-cases, Option-cases, if_some, first-update_row,
}
use xpace.Http.{Response, Faults, CurrentUser}
use xpace.Meetings.{
  Participant, ParticipantRole, ParticipantStatus, Meeting, Store, RowAction, is_co_host, has_id,
  is_joined_co_host, is_waiting, is_joined, is_host, is_member, can_remove, admit, remove,
  row_action, is_target, can_moderate, find_meeting, update_row, moderate_target, moderate_in,
  moderate_participant,
}

-- The changes that moderation makes of a participant, with each state before and after written out.
-- A first admission is noted as the time of joining, and no other field changes.
pub data Moderated (now : ℕ) (p : Participant) : Participant → Type 0 where
  admitted_first :
      p.status ≡ ParticipantStatus.waiting_room
      → p.joined_at ≡ none
      → Moderated now p (record p { status = ParticipantStatus.joined; joined_at = some now })
  admitted_again :
      (at : ℕ)
      → p.status ≡ ParticipantStatus.waiting_room
      → p.joined_at ≡ some at
      → Moderated now p (record p { status = ParticipantStatus.joined })
  removed_from :
      p.status ≢ ParticipantStatus.left_
      → p.status ≢ ParticipantStatus.removed
      → p.role ≢ ParticipantRole.host
      → Moderated now p (record p { status = ParticipantStatus.removed; left_at = some now })
  promoted :
      p.status ≡ ParticipantStatus.joined
      → p.role ≡ ParticipantRole.member
      → Moderated now p (record p { role = ParticipantRole.co_host })

waiting : (s : ParticipantStatus) → is_waiting s ≡ true → s ≡ ParticipantStatus.waiting_room
waiting ParticipantStatus.waiting_room h = refl
waiting _ h = cc

joined_of : (s : ParticipantStatus) → is_joined s ≡ true → s ≡ ParticipantStatus.joined
joined_of ParticipantStatus.joined h = refl
joined_of _ h = cc

member_of : (r : ParticipantRole) → is_member r ≡ true → r ≡ ParticipantRole.member
member_of ParticipantRole.member h = refl
member_of _ h = cc

admit-Moderated :
    (now : ℕ) (p : Participant) → is_waiting p.status ≡ true → Moderated now p (admit now p)
admit-Moderated now p h = elim (Option-cases p.joined_at) [
  | inl e ↦ subst (Moderated now p) (rw e refl) (admitted_first (waiting p.status h) e)
  | inr (at, e) ↦ subst (Moderated now p) (rw e refl) (admitted_again at (waiting p.status h) e)
]

remove-Moderated :
    (now : ℕ) (p : Participant) → can_remove p ≡ true → Moderated now p (remove now p)
remove-Moderated now p h =
    removed_from (λ e. ground (arith, h, e)) (λ e. ground (arith, h, e)) (λ e. ground (arith, h, e))

-- Who may moderate a meeting of the workspace: whoever has the permission, the host, and a co-host
-- who has joined.
pub data MayModerate (down : Faults) (s : Store) (m : Meeting) (user : CurrentUser) : Type 0 where
  by_permission :
      has_permission down s.rbac user "meeting.moderate" ≡ true → MayModerate down s m user
  as_host : m.host_id ≡ user.id → MayModerate down s m user
  as_co_host :
      (c : Participant)
      → Memᴰ c s.participants
      → c.meeting_id ≡ m.id
      → c.tenant_id ≡ user.tenant_id
      → c.user_id ≡ some user.id
      → c.role ≡ ParticipantRole.co_host
      → c.status ≡ ParticipantStatus.joined
      → MayModerate down s m user

-- A participant's row afterwards: untouched, or changed by a moderator of its own workspace's meeting.
pub data Outcome (down : Faults) (s : Store) (now : ℕ) (user : CurrentUser) (path_code : String)
    (id : ℕ) (p : Participant) : Participant → Type 0 where
  untouched : Outcome down s now user path_code id p p
  moderated :
      (m : Meeting) {q : Participant}
      → find_meeting s user.tenant_id path_code ≡ some m
      → m.tenant_id ≡ user.tenant_id
      → MayModerate down s m user
      → p.id ≡ id
      → p.meeting_id ≡ m.id
      → p.tenant_id ≡ user.tenant_id
      → Moderated now p q
      → Outcome down s now user path_code id p q

co_host_of : (r : ParticipantRole) → is_co_host r ≡ true → r ≡ ParticipantRole.co_host
co_host_of ParticipantRole.co_host h = refl
co_host_of _ h = cc

user_of : (id : ℕ) (o : Option ℕ) → has_id id o ≡ true → o ≡ some id
user_of id none h = cc
user_of id (some u) h = ap some ((nat_beq_iff u id).0 h)

can_moderate-MayModerate :
    (down : Faults) (s : Store) (m : Meeting) (user : CurrentUser)
    → can_moderate down s m user ≡ true
    → (m.tenant_id ≡ user.tenant_id) × MayModerate down s m user
unfolding can_moderate
can_moderate-MayModerate down s m user h = elim (Bool-cases (m.tenant_id == user.tenant_id)) [
  | inr e ↦ absurd (ground (arith, e, h))
  | inl e ↦ (
    (nat_beq_iff m.tenant_id user.tenant_id).0 e,
    elim (Bool-cases (has_permission down s.rbac user "meeting.moderate")) [
      | inl f ↦ by_permission f
      | inr f ↦ elim (Bool-cases (m.host_id == user.id)) [
        | inl g ↦ as_host ((nat_beq_iff m.host_id user.id).0 g)
        | inr g ↦
            let (c, inside, k) =
              exists→Mem (is_joined_co_host m user) s.participants (ground (arith, e, f, g, h)) in
            as_co_host c inside (ground (arith, k)) (ground (arith, k))
              (user_of user.id c.user_id (ground (arith, k)))
              (co_host_of c.role (ground (arith, k))) (joined_of c.status (ground (arith, k)))
      ]
    ],
  )
]

-- Of an action's UPDATE: it keeps identifiers, and where it is for a row it is one of the changes.
abbrev Acts : ℕ → Participant → RowAction → Type 0
Acts now p a =
    ((y : Participant) → (a.set now y).id ≡ y.id)
    × (a.allowed p ≡ true → Moderated now p (a.set now p))

row_action-Acts :
    (now : ℕ) (action : String) (a : RowAction) (p : Participant)
    → row_action action ≡ some a
    → Acts now p a
unfolding row_action
row_action-Acts now action a p e = elim (if_some (action == "admit") _ _ e) [
  | inl (b, q) ↦ of q (admit-Moderated now p) (λ y. refl)
  | inr e ↦ elim (if_some (action == "reject") _ _ e) [
    | inl (b, q) ↦ of q (remove-Moderated now p) (λ y. refl)
    | inr e ↦ elim (if_some (action == "remove") _ _ e) [
      | inl (b, q) ↦ of q (remove-Moderated now p) (λ y. refl)
      | inr e ↦ elim (if_some (action == "promote") _ none e) [
        | inl (b, q) ↦
            of q
              (λ h.
                promoted (joined_of p.status (ground (arith, h)))
                  (member_of p.role (ground (arith, h))))
              (λ y. refl)
        | inr e ↦ cc
      ]
    ]
  ]
]
  where
    of :
        {b : RowAction}
        → b ≡ a
        → (b.allowed p ≡ true → Moderated now p (b.set now p))
        → ((y : Participant) → (b.set now y).id ≡ y.id)
        → Acts now p a
    of q h k = subst (Acts now p) q (k, h)

chosen :
    (down : Faults) (s : Store) (now : ℕ) (user : CurrentUser) (path_code : String) (id : ℕ)
    (p : Participant) (m : Meeting) (a : RowAction)
    → find_meeting s user.tenant_id path_code ≡ some m
    → can_moderate down s m user ≡ true
    → (a.allowed p ≡ true → Moderated now p (a.set now p))
    → (b : Bool) → (is_target id m.id user.tenant_id p && a.allowed p) ≡ b
    → Outcome down s now user path_code id p (if b then a.set now p else p)
chosen down s now user path_code id p m a there may acts true e =
    let (same, right) = can_moderate-MayModerate down s m user may in
    moderated m there same right (ground (arith, e)) (ground (arith, e)) (ground (arith, e))
      (acts (ground (arith, e)))
chosen down s now user path_code id p m a there may acts false e = untouched

module _ (down : Faults) (muted : Bool) (s : Store) (now : ℕ) (user : CurrentUser)
    (path_code : String) (id : ℕ) (action : String) (k : ℕ) (p : Participant) where
  -- What is proved of the answer and the tables of each step.
  record After (r : Response × Store) : Type 0 where
    pub outcome :
        (q : Participant) × (first (λ x. x.id == k) r.1.participants ≡ some q)
        × Outcome down s now user path_code id p q

  After-if : (b : Bool) {x y : Response × Store} → After x → After y → After (if b then x else y)
  After-if true h g = h
  After-if false h g = g

  module _ (h : first (λ x. x.id == k) s.participants ≡ some p) where
    After-same : (r : Response) → After (r, s)
    After-same r = record { outcome = (p, h, untouched) }

    module _ (m : Meeting) (there : find_meeting s user.tenant_id path_code ≡ some m)
        (may : can_moderate down s m user ≡ true) where
      row-After :
          (found : Option RowAction)
          → row_action action ≡ found
          → After (update_row down s now user m id found)
      unfolding update_row
      row-After none e = After-same _
      row-After (some a) e =
          let row : Participant → Bool = λ x. is_target id m.id user.tenant_id x && a.allowed x in
          let acts = row_action-Acts now action a p e in
          After-if (down "update participant") (After-same _) (
            After-if (not (exists row s.participants)) (After-same _) (record {
              outcome = (
                (if row p then a.set now p else p),
                first-update_row row (λ x. x.id == k) (a.set now) s.participants p
                    (λ y. ap (λ i. i == k) (acts.0 y)) h,
                chosen down s now user path_code id p m a there may acts.1 (row p) refl,
              );
            }))

      target-After :
          (found : Option Participant)
          → After (moderate_target down muted s now user m id action found)
      unfolding moderate_target
      target-After none = After-same _
      target-After (some t) =
          After-if (action == "mute")
            (After-if (is_host t.role || not (is_joined t.status)) (After-same _)
              (After-if (not muted) (After-same _) (record { outcome = (p, h, untouched) })))
            (row-After (row_action action) refl)

    in-After :
        (found : Option Meeting)
        → find_meeting s user.tenant_id path_code ≡ found
        → After (moderate_in down muted s now user id action found)
    unfolding moderate_in
    in-After none e = After-same _
    in-After (some m) e = elim (Bool-cases (can_moderate down s m user)) [
      | inl c ↦ rw c (After-if (down "select participant") (After-same _) (target-After m e c _))
      | inr c ↦ rw c (After-same _)
    ]

-- Whatever a caller asks of a participant, and whichever statements fail: the row under any
-- identifier is untouched, or it is the one the caller named, of a meeting of the caller's workspace
-- that the caller may moderate, and it was admitted out of the waiting room and is joined, or removed without
-- being the host or gone already, or made a co-host from a joined member; the rest of it stands.
pub moderate_participant_outcome :
    (down : Faults) (muted : Bool) (s : Store) (now : ℕ) (user : CurrentUser) (path_code : String)
    (id : ℕ) (action : String) (k : ℕ) (p : Participant)
    → first (λ x. x.id == k) s.participants ≡ some p
    → (q : Participant) × (first
          (λ x. x.id == k)
          (moderate_participant down muted s now user path_code id action).1.participants
        ≡ some q)
      × Outcome down s now user path_code id p q
unfolding moderate_participant
moderate_participant_outcome down muted s now user path_code id action k p h =
    (After-if down muted s now user path_code id action k p (down "select meeting")
      (After-same down muted s now user path_code id action k p h _)
      (in-After down muted s now user path_code id action k p h
        (find_meeting s user.tenant_id path_code) refl)).outcome
