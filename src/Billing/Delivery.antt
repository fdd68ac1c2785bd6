-- ===== src/Billing/Delivery.antt =====
-- services/api/internal/httpapi/billing.go and billing_xendit_webhook.go: the delivery of an event by
-- either provider, on its error branches.
use xpace.Prelude.{ℕ, ◌≡◌, String, Option, none, some, nat_eq, text_eq}
use xpace.Http.{Response, IsError, Unchanged, unchanged_rules, Faults}
use xpace.Billing.{
  WebhookEvent, Store, Library, Applied, rejected, applied, Delivered, finalize, deliver_once,
  deliver, SubscriptionStatus, InvoiceStatus,
}
use xpace.Billing.Webhook
use xpace.Billing.Webhook.{billing_webhook, subscription_step, invoice_step, notice_step}
use xpace.Billing.Xendit
use xpace.Billing.Xendit.{xendit_webhook, Event, supported_xendit_event}

-- A request to either endpoint.
pub data Hook : Type 0 where
  generic :
      (String → Option Webhook.Payload)
      → (secret path_provider signature : String) → Option String
      → Hook
  xendit :
      (String → Option Xendit.Payload) → (configured_token provided : String) → Option String → Hook

unfoldable pub receive : Library → Faults → Store → (now new_id : ℕ) → Hook → Response × Store
receive lib down s now new_id (generic parse secret path signature body) =
    billing_webhook lib parse secret down s new_id path signature body
receive lib down s now new_id (xendit parse token provided body) =
    xendit_webhook lib parse token down s now new_id provided body

module _ (lib : Library) (down : Faults) (s : Store) (now new_id : ℕ) where
  finalize-Unchanged : (r : Applied) → Unchanged s (finalize down s new_id r)
  unfolding finalize
  finalize-Unchanged (rejected r) = search unchanged_rules
  finalize-Unchanged (applied t) = search unchanged_rules

  once-Unchanged :
      (d : Delivered) (apply : Store → Applied) (found : Option WebhookEvent)
      → Unchanged s (deliver_once down s new_id d apply found)
  unfolding deliver_once
  once-Unchanged d apply none = search (unchanged_rules, finalize-Unchanged)
  once-Unchanged d apply (some e) = search unchanged_rules

  deliver-Unchanged :
      (d : Delivered) (apply : Store → Applied) → Unchanged s (deliver down s new_id d apply)
  unfolding deliver
  deliver-Unchanged d apply = search (unchanged_rules, once-Unchanged)

  valid-Unchanged :
      (provider body : String) (p : Webhook.Payload)
      (v : Option (Option SubscriptionStatus × Option InvoiceStatus))
      → Unchanged s (Webhook.process_valid lib down s new_id provider body p v)
  unfolding Webhook.process_valid
  valid-Unchanged provider body p none = search unchanged_rules
  valid-Unchanged provider body p (some (status, invoice_status)) =
      search (unchanged_rules, deliver-Unchanged)

  payload-Unchanged :
      (provider body : String) (p : Option Webhook.Payload)
      → Unchanged s (Webhook.process_payload lib down s new_id provider body p)
  unfolding Webhook.process_payload
  payload-Unchanged provider body none = search unchanged_rules
  payload-Unchanged provider body (some p) = search (unchanged_rules, valid-Unchanged)

  event-Unchanged :
      (body created : String) (p : Xendit.Payload) (e : Option Event)
      → Unchanged s (Xendit.process_event lib down s now new_id body created p e)
  unfolding Xendit.process_event
  event-Unchanged body created p none = search unchanged_rules
  event-Unchanged body created p (some e) = search (unchanged_rules, deliver-Unchanged)

  created-Unchanged :
      (body : String) (p : Xendit.Payload) (created : Option String)
      → Unchanged s (
          Xendit.process_payload lib down s now new_id body (some (record p { created = created })))
  unfolding Xendit.process_payload
  created-Unchanged body p none = search unchanged_rules
  created-Unchanged body p (some created) = search (unchanged_rules, event-Unchanged)

  xendit-Unchanged :
      (body : String) (p : Option Xendit.Payload)
      → Unchanged s (Xendit.process_payload lib down s now new_id body p)
  xendit-Unchanged body none = unfold Xendit.process_payload in search unchanged_rules
  xendit-Unchanged body (some p) = created-Unchanged body p p.created

  receive-Unchanged : (h : Hook) → Unchanged s (receive lib down s now new_id h)
  unfolding receive billing_webhook xendit_webhook
  receive-Unchanged (generic parse secret path signature none) = search unchanged_rules
  receive-Unchanged (generic parse secret path signature (some body)) =
      search (unchanged_rules, payload-Unchanged)
  receive-Unchanged (xendit parse token provided none) = search unchanged_rules
  receive-Unchanged (xendit parse token provided (some body)) =
      search (unchanged_rules, xendit-Unchanged)

-- A provider's event that is answered by an error, at any statement of its transaction, has changed
-- no table: neither a subscription, nor an invoice, nor the list of events.
pub receive_refused :
    (lib : Library) (down : Faults) (s : Store) (now new_id : ℕ) (h : Hook)
    → IsError (receive lib down s now new_id h).0
    → (receive lib down s now new_id h).1 ≡ s
receive_refused lib down s now new_id h e = (receive-Unchanged lib down s now new_id h).on_error e
