-- ===== src/Http.antt =====
-- services/api/internal/httpapi/helpers.go (`errorJSON`), audit.go, roles.go and auth.go: what the handlers
-- share. A response is its status and, on an error, its code. A handler that returns before it
-- writes gives the server's default, 200 with an empty body.
use xpace.Prelude.{
  ℕ, ◌≤◌, ◌≡◌, refl, String, Bool, Option, List, [], ◌∷◌, ◌++◌, leb, arith, if◌then◌else◌,
}

pub record Response : Type 0 where
  pub status : ℕ
  pub code : String

abbrev pub error_json : ℕ → String → Response
error_json status code = record { status = status; code = code }

abbrev pub respond_json : ℕ → Response
respond_json status = record { status = status; code = "" }

abbrev pub unwritten : Response
unwritten = respond_json 200

abbrev pub IsError : Response → Type 0
IsError r = 400 ≤ r.status

-- Which of a handler's database calls fail, by a short name for each statement: a lost connection,
-- a time-out, a cancelled request. Constraints of the schema are modelled where they can be
-- violated, and are no part of this.
abbrev pub Faults : Type 0
Faults = String → Bool

abbrev pub no_faults : Faults
no_faults _ = Bool.false

-- Roles, as `user_role` in the schema and `userRole` in roles.go.
pub data Role : Type 0 where
  super_admin tenant_admin host co_host member guest : Role

pub data UserStatus : Type 0 where
  active invited suspended deactivated : UserStatus

-- Rows are identified by UUIDs, of which the code only asks whether two are equal: natural numbers.
pub record User : Type 0 where
  pub id : ℕ
  pub tenant_id : ℕ
  pub role : Role
  pub status : UserStatus
  pub deleted : Bool

-- `currentUser`, the authenticated caller.
pub record CurrentUser : Type 0 where
  pub id : ℕ
  pub tenant_id : ℕ
  pub role : Role

-- A row of `audit_events`. The client's address, its agent and the metadata are left out.
pub record AuditEvent : Type 0 where
  pub tenant_id : ℕ
  pub actor_id : Option ℕ
  pub action : String
  pub resource_type : String
  pub resource_id : ℕ

-- The handlers drop the error of `writeAuditEvent`: a failure leaves the log as it was.
unfoldable pub write_audit_event : Faults → AuditEvent → List AuditEvent → List AuditEvent
write_audit_event down e log = if down "audit" then log else log ++ e ∷ []

abbrev pub is_active : UserStatus → Bool
is_active UserStatus.active = Bool.true
is_active _ = Bool.false

-- A handler's answer beside the tables that it leaves: an error leaves them as they were.
pub record Unchanged {S : Type 0} (s : S) (r : Response × S) : Type 0 where
  pub on_error : IsError r.0 → r.1 ≡ s

module _ {S : Type 0} {s : S} where
  pub Unchanged-same : (r : Response) → Unchanged s (r, s)
  Unchanged-same r = record { on_error = λ _. refl }

  pub Unchanged-if :
      (b : Bool) {x y : Response × S}
      → Unchanged s x
      → Unchanged s y
      → Unchanged s (if b then x else y)
  Unchanged-if Bool.true h k = h
  Unchanged-if Bool.false h k = k

  pub Unchanged-success :
      (status : ℕ) (code : String) (t : S)
      → leb 400 status ≡ Bool.false
      → Unchanged s (record { status = status; code = code }, t)
  Unchanged-success status code t h = record { on_error = λ e. absurd (ground arith) }

-- These prove it of a handler by the shape of its branches.
pub ruleset unchanged_rules = (Unchanged-same, Unchanged-if, Unchanged-success, refl)

-- What holds of the tables that a handler leaves, on all its branches.
pub record Keeps {A S : Type 0} (P : S → Type 0) (r : A × S) : Type 0 where
  pub kept : P r.1

module _ {A S : Type 0} {P : S → Type 0} where
  pub Keeps-leaf : (a : A) {s : S} → P s → Keeps P (a, s)
  Keeps-leaf a h = record { kept = h }

  pub Keeps-if : (b : Bool) {x y : A × S} → Keeps P x → Keeps P y → Keeps P (if b then x else y)
  Keeps-if Bool.true h k = h
  Keeps-if Bool.false h k = k

pub ruleset keeps_rules = (Keeps-leaf, Keeps-if)
