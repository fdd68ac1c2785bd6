-- ===== src/Meetings/Policy.antt =====
-- services/api/internal/httpapi/meeting_policy.go: what a workspace allows in its meetings.
use xpace.Prelude.{
  ℕ, Bool, true, not, Option, none, some, List, [], ◌∷◌, ◌++◌, first, exists, update_where, ◌==◌,
  nat_eq, text_eq, if◌then◌else◌,
}
use xpace.Http.{
  Response, error_json, respond_json, Faults, CurrentUser, AuditEvent, write_audit_event,
}
use xpace.Rbac
use xpace.Rbac.{has_permission}

pub record MeetingPolicy : Type 0 where
  pub guest_access_enabled : Bool
  pub waiting_room_default : Bool
  pub recording_enabled : Bool
  pub screen_share_enabled : Bool

-- A row of `tenant_meeting_policies`.
pub record PolicyRow : Type 0 where
  pub tenant_id : ℕ
  pub policy : MeetingPolicy

abbrev pub default_policy : MeetingPolicy
default_policy = record {
  guest_access_enabled = true;
  waiting_room_default = true;
  recording_enabled = true;
  screen_share_enabled = true;
}

abbrev pub of_tenant : ℕ → PolicyRow → Bool
of_tenant tenant p = p.tenant_id == tenant

-- A workspace without a row gets one, with the defaults of the column.
unfoldable pub load_meeting_policy :
    Faults → List PolicyRow → (tenant : ℕ) → Option (MeetingPolicy × List PolicyRow)
load_meeting_policy down rows tenant =
    if down "select policy" then none else elim (first (of_tenant tenant) rows) [
      | some p ↦ some (p.policy, rows)
      | none ↦
          if down "insert policy"
          then none
          else some
              (default_policy, rows ++ record { tenant_id = tenant; policy = default_policy } ∷ [])
    ]

abbrev pub upsert_policy : PolicyRow → List PolicyRow → List PolicyRow
upsert_policy p rows =
    if exists (of_tenant p.tenant_id) rows
    then update_where (of_tenant p.tenant_id) (λ _. p) rows
    else rows ++ p ∷ []

unfoldable pub admin_meeting_policy :
    Faults
    → Rbac.Store
    → List PolicyRow
    → List AuditEvent
    → CurrentUser
    → Option MeetingPolicy
    → Response × (List PolicyRow × List AuditEvent)
admin_meeting_policy down rbac rows log actor input =
    if not (has_permission down rbac actor "policy.manage")
    then (error_json 403 "ADMIN_REQUIRED", (rows, log))
    else elim input [
      | none ↦ (error_json 400 "INVALID_INPUT", (rows, log))
      | some p ↦ if down "upsert policy" then (error_json 500 "INTERNAL_ERROR", (rows, log)) else (
        respond_json 200,
        (
          upsert_policy (record { tenant_id = actor.tenant_id; policy = p }) rows,
          write_audit_event down
              (record {
                tenant_id = actor.tenant_id;
                actor_id = some actor.id;
                action = "meeting.policy.update";
                resource_type = "tenant";
                resource_id = actor.tenant_id;
              })
              log,
        ),
      )
    ]
