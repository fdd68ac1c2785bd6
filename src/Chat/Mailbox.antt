-- ===== src/Chat/Mailbox.antt =====
-- What the hub of chat_hub.go promises one listener: a mailbox of its own, which exists from the
-- subscription to its cancellation and holds the events of its conversation that found room.
use xpace.Prelude.{ℕ, Bool, ◌&&◌, Option, none, some, List, [], exists, ◌==◌, nat_eq, if◌then◌else◌}
use xpace.Chat.{
  ChatEvent, ChatHub, Operation, subscribe_to, cancel_from, publish_to, receive_from, members,
  offer, tail,
}

abbrev pub Mailbox : Type 0
Mailbox = Option (List ChatEvent)

abbrev pub change : (List ChatEvent → List ChatEvent) → Mailbox → Mailbox
change f none = none
change f (some es) = some (f es)

-- What an operation does to the mailbox of a channel that listens to a conversation; `next` is the
-- channel that a subscription makes.
unfoldable pub deliver : (next conversation channel : ℕ) → Operation → Mailbox → Mailbox
deliver next conversation channel (subscribe_to c) m =
    if c == conversation && channel == next then some [] else m
deliver next conversation channel (cancel_from c k) m =
    if c == conversation && k == channel then none else m
deliver next conversation channel (publish_to c e) m =
    if c == conversation then change (offer e) m else m
deliver next conversation channel (receive_from k) m = if k == channel then change tail m else m

unfoldable pub is_subscribed : ChatHub → (conversation channel : ℕ) → Bool
is_subscribed h conversation channel =
    exists (λ c. c == channel) (members (h.subscribers conversation))

-- The mailbox that the hub holds for a channel.
unfoldable pub mailbox : ChatHub → (conversation channel : ℕ) → Mailbox
mailbox h conversation channel =
    if is_subscribed h conversation channel then some (h.buffers channel) else none
