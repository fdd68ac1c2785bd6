-- ===== src/Governance/Retention.antt =====
-- services/api/internal/httpapi/governance.go and governance_worker.go: what retention removes from a
-- workspace. `fails` gives the failing statements for each item, and `meanwhile` what other requests
-- do before the item's transaction has its lock: from then on they wait for it.
use xpace.Prelude.{
  ℕ, ◌+◌, ◌*◌, Bool, true, false, not, ◌&&◌, ◌||◌, Option, none, some, List, [], ◌∷◌, ◌++◌, first,
  exists, keep, sort_by, take, update_where, ltb, leb, ◌==◌, nat_eq, text_eq, if◌then◌else◌,
}
use xpace.Http.{Response, error_json, respond_json, Faults, CurrentUser}
use xpace.Rbac.{has_permission}
use xpace.Governance.{
  Store, Policy, Message, Attachment, Recording, AuditRow, of_tenant, is_unset, is_held, log_event,
}
use xpace.Drive.{day, remove_object}
use xpace.Drive.Cleanup.{before, cleanup_drive_retention}

-- created_at<NOW()-$2*INTERVAL '1 day'
abbrev pub is_older : ℕ → (days created_at : ℕ) → Bool
is_older now days created_at = ltb (created_at + days * day) now

-- The defaults of `tenant_governance_policies`.
abbrev pub default_policy : ℕ → Policy
default_policy tenant = record {
  tenant_id = tenant;
  recording_retention_days = 90;
  drive_trash_retention_days = 30;
  chat_retention_days = 365;
  audit_retention_days = 365;
}

-- INSERT … ON CONFLICT … RETURNING: the policy of the workspace, which is there afterwards.
unfoldable pub load_governance_policy : Faults → Store → ℕ → Option (Policy × Store)
load_governance_policy down s tenant =
    if down "load policy" then none else elim (first (of_tenant tenant) s.policies) [
      | some p ↦ some (p, s)
      | none ↦
          some (
            default_policy tenant,
            record s { policies = s.policies ++ default_policy tenant ∷ [] },
          )
    ]

abbrev pub message_of : Attachment → Message → Bool
message_of a m = m.id == a.message_id && m.tenant_id == a.tenant_id

abbrev pub is_old_attachment : Store → (now tenant days : ℕ) → Attachment → Bool
is_old_attachment s now tenant days a =
    a.tenant_id == tenant
    && exists (λ m. message_of a m && is_older now days m.created_at) s.messages
    && not (is_held s tenant "CHAT_CONVERSATION" a.conversation_id)

-- ORDER BY a.created_at
abbrev pub by_age : Attachment → Attachment → Bool
by_age a b = leb a.created_at b.created_at

abbrev pub is_attachment : ℕ → ℕ → Attachment → Bool
is_attachment id tenant a = a.id == id && a.tenant_id == tenant

-- The check under the lock, of the row as it then is.
abbrev pub is_held_attachment : Store → (tenant id : ℕ) → Bool
is_held_attachment s tenant id =
    exists
      (λ a. is_attachment id tenant a && is_held s tenant "CHAT_CONVERSATION" a.conversation_id)
      s.attachments

unfoldable pub purge_attachment : Faults → Store → (now tenant days : ℕ) → Attachment → Store
purge_attachment down s now tenant days a =
    if down "begin" || down "lock" || down "select held" || is_held_attachment s tenant a.id
    then s
    else if down "remove object"
    then s
    else let removed = record s { objects = remove_object a.object_key s.objects } in
      if down "delete attachment" || down "commit" then removed else record removed {
        attachments =
            keep (λ x. not (is_attachment a.id tenant x && is_old_attachment s now tenant days x))
              s.attachments;
      }

unfoldable pub purge_attachments :
    (fails : ℕ → Faults)
    → (meanwhile : ℕ → Store → Store) → Store
    → (now tenant days : ℕ) → List Attachment
    → Store
purge_attachments fails meanwhile s now tenant days [] = s
purge_attachments fails meanwhile s now tenant days (a ∷ rest) =
    purge_attachments fails meanwhile
      (purge_attachment (fails a.id) (meanwhile a.id s) now tenant days a) now tenant days rest

-- `none` is an error; what was removed before it stays removed.
unfoldable pub purge_expired_chat_attachments :
    Faults
    → (fails : ℕ → Faults) → (meanwhile : ℕ → Store → Store) → Store
    → (now tenant days : ℕ) → Bool × Store
purge_expired_chat_attachments down fails meanwhile s now tenant days =
    if down "object client" || down "select attachments" then (false, s) else (
      true,
      purge_attachments fails meanwhile s now tenant days
          (take 100 (sort_by by_age (keep (is_old_attachment s now tenant days) s.attachments))),
    )

abbrev pub is_old_message : Store → (now tenant days : ℕ) → Message → Bool
is_old_message s now tenant days m =
    m.tenant_id == tenant
    && is_older now days m.created_at
    && is_unset m.deleted_at
    && not (is_held s tenant "CHAT_CONVERSATION" m.conversation_id)

abbrev pub redact : ℕ → Message → Message
redact now m = record m {
  body = "[removed by retention policy]";
  deleted_at = some now;
  edited_at = some now;
}

unfoldable pub redact_messages : Store → (now tenant days : ℕ) → Store
redact_messages s now tenant days = record s {
  messages = update_where (is_old_message s now tenant days) (redact now) s.messages;
}

abbrev pub is_old_recording : Store → (now tenant days : ℕ) → Recording → Bool
is_old_recording s now tenant days r =
    r.tenant_id == tenant
    && is_older now days r.created_at
    && is_unset r.retention_expired_at
    && not (is_held s tenant "RECORDING" r.id)

abbrev pub expire : ℕ → Recording → Recording
expire now r = record r { retention_expired_at = some now }

unfoldable pub expire_recordings : Store → (now tenant days : ℕ) → Store
expire_recordings s now tenant days = record s {
  recordings = update_where (is_old_recording s now tenant days) (expire now) s.recordings;
}

abbrev pub is_purgeable : Store → (tenant : ℕ) → Recording → Bool
is_purgeable s tenant r =
    r.tenant_id == tenant
    && not (is_unset r.retention_expired_at)
    && is_unset r.storage_deleted_at
    && not (is_held s tenant "RECORDING" r.id)

-- ORDER BY r.retention_expired_at
abbrev pub by_expiry : Recording → Recording → Bool
by_expiry r x = before r.retention_expired_at x.retention_expired_at

abbrev pub purge : ℕ → Recording → Recording
purge now r = record r { storage_deleted_at = some now; size_bytes = 0 }

-- One recording, under the lock that adding a hold takes as well.
unfoldable pub purge_recording : Faults → Store → (now tenant : ℕ) → Recording → Store
purge_recording down s now tenant r =
    if down "begin" || down "lock" || down "select held" || is_held s tenant "RECORDING" r.id
    then s
    else if down "remove object"
    then s
    else let removed = record s { objects = remove_object r.object_key s.objects } in
      if down "update recording" || down "commit" then removed else record removed {
        recordings =
            update_where (λ x. x.id == r.id && is_purgeable s tenant x) (purge now) s.recordings;
      }

unfoldable pub purge_recordings :
    (fails : ℕ → Faults)
    → (meanwhile : ℕ → Store → Store) → Store
    → (now tenant : ℕ) → List Recording
    → Store
purge_recordings fails meanwhile s now tenant [] = s
purge_recordings fails meanwhile s now tenant (r ∷ rest) =
    purge_recordings fails meanwhile (purge_recording (fails r.id) (meanwhile r.id s) now tenant r)
      now tenant rest

unfoldable pub purge_expired_recording_objects :
    Faults
    → (fails : ℕ → Faults) → (meanwhile : ℕ → Store → Store) → Store
    → (now tenant : ℕ) → Bool × Store
purge_expired_recording_objects down fails meanwhile s now tenant =
    if down "object client" || down "select recordings" then (false, s) else (
      true,
      purge_recordings fails meanwhile s now tenant
          (take 50 (sort_by by_expiry (keep (is_purgeable s tenant) s.recordings))),
    )

abbrev pub is_old_event : (now tenant days : ℕ) → AuditRow → Bool
is_old_event now tenant days e = e.event.tenant_id == tenant && is_older now days e.created_at

unfoldable pub delete_events : Store → (now tenant days : ℕ) → Store
delete_events s now tenant days = record s {
  audit = keep (λ e. not (is_old_event now tenant days e)) s.audit;
}

-- The steps in the order of the code, each on the tables that the last one left. The test is false
-- where a step failed.
unfoldable pub retain_recordings :
    Faults
    → (fails : ℕ → Faults) → (meanwhile : ℕ → Store → Store) → Store
    → (now tenant : ℕ) → Policy
    → Bool × Store
retain_recordings down fails meanwhile s now tenant p =
    if down "expire recordings"
    then (false, s)
    else let expired = expire_recordings s now tenant p.recording_retention_days in
      let purged = purge_expired_recording_objects down fails meanwhile expired now tenant in
      if not purged.0
      then (false, purged.1)
      else let cleaned = cleanup_drive_retention down fails meanwhile purged.1 now tenant in
        if down "delete events"
        then (false, cleaned)
        else (true, delete_events cleaned now tenant p.audit_retention_days)

unfoldable pub retain_under :
    Faults
    → (fails : ℕ → Faults) → (meanwhile : ℕ → Store → Store) → Store
    → (now tenant : ℕ) → Policy
    → Bool × Store
retain_under down fails meanwhile s now tenant p =
    let chat =
      purge_expired_chat_attachments down fails meanwhile s now tenant p.chat_retention_days in
    if not chat.0 || down "redact messages"
    then (false, chat.1)
    else retain_recordings down fails meanwhile
        (redact_messages chat.1 now tenant p.chat_retention_days) now tenant p

unfoldable pub apply_governance_retention :
    Faults
    → (fails : ℕ → Faults) → (meanwhile : ℕ → Store → Store) → Store
    → (now tenant : ℕ) → Bool × Store
apply_governance_retention down fails meanwhile s now tenant =
    elim (load_governance_policy down s tenant) [
      | none ↦ (false, s)
      | some (p, t) ↦ retain_under down fails meanwhile t now tenant p
    ]

unfoldable pub run_governance_retention :
    Faults
    → (fails : ℕ → Faults) → (meanwhile : ℕ → Store → Store) → Store
    → ℕ
    → CurrentUser
    → Response × Store
run_governance_retention down fails meanwhile s now actor =
    if not (has_permission down s.rbac actor "governance.manage")
    then (error_json 403 "GOVERNANCE_REQUIRED", s)
    else let done = apply_governance_retention down fails meanwhile s now actor.tenant_id in
      if not done.0 then (error_json 500 "RETENTION_FAILED", done.1) else (
        respond_json 200,
        log_event down now actor "governance.retention.run" "tenant" actor.tenant_id done.1,
      )
