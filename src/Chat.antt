-- ===== src/Chat.antt =====
-- services/api/internal/httpapi/chat_hub.go: the hub that passes the events of a conversation on to
-- those who listen. Channels are numbers in the order in which they are made. Go panics where a
-- closed channel is sent to or closed again, which is `none`. The mutex makes each operation one step.
mod Mailbox
mod Publishing
mod Listening
mod Refinement
mod Examples
use xpace.Prelude.{
  ℕ, zero, suc, String, Bool, true, false, not, Option, none, some, List, [], ◌∷◌, ◌++◌, length,
  keep, ltb, ◌==◌, nat_eq, if◌then◌else◌,
}

pub record ChatEvent : Type 0 where
  pub type_name : String
  pub payload : String

-- `subscribers`, where `none` is a key that is not in the map, and the channels that were made.
pub record ChatHub : Type 0 where
  pub subscribers : ℕ → Option (List ℕ)
  pub buffers : ℕ → List ChatEvent
  pub closed : ℕ → Bool
  pub next : ℕ

abbrev pub new_chat_hub : ChatHub
new_chat_hub = record { subscribers = λ _. none; buffers = λ _. []; closed = λ _. false; next = 0 }

abbrev pub set_at {ℓ} : {A : Type ℓ} → ℕ → A → (ℕ → A) → ℕ → A
set_at k v f = λ x. if x == k then v else f x

abbrev pub members : Option (List ℕ) → List ℕ
members none = []
members (some cs) = cs

unfoldable pub subscribe : ℕ → ChatHub → ChatHub
subscribe conversation h = record {
  subscribers =
      set_at conversation (some (h.next ∷ members (h.subscribers conversation))) h.subscribers;
  buffers = set_at h.next [] h.buffers;
  closed = set_at h.next false h.closed;
  next = suc h.next;
}

abbrev pub or_none : List ℕ → Option (List ℕ)
or_none [] = none
or_none (c ∷ cs) = some (c ∷ cs)

abbrev pub without : ℕ → Option (List ℕ) → Option (List ℕ)
without channel none = none
without channel (some cs) = or_none (keep (λ c. not (c == channel)) cs)

-- The function that `subscribe` returns.
unfoldable pub cancel : (conversation channel : ℕ) → ChatHub → Option ChatHub
cancel conversation channel h =
    if h.closed channel
    then none
    else some (record h {
      subscribers =
          set_at conversation (without channel (h.subscribers conversation)) h.subscribers;
      closed = set_at channel true h.closed;
    })

abbrev pub capacity : ℕ
capacity = 8

-- A send that does not wait: where the buffer is full the event is dropped.
abbrev pub offer : ChatEvent → List ChatEvent → List ChatEvent
offer e buffer = if ltb (length buffer) capacity then buffer ++ e ∷ [] else buffer

unfoldable pub send_all :
    (ℕ → Bool) → ChatEvent → List ℕ → (ℕ → List ChatEvent) → Option (ℕ → List ChatEvent)
send_all closed e [] buffers = some buffers
send_all closed e (c ∷ cs) buffers =
    let rest = send_all closed e cs (set_at c (offer e (buffers c)) buffers) in
    if closed c then none else rest

unfoldable pub publish : ℕ → ChatEvent → ChatHub → Option ChatHub
publish conversation e h =
    elim (send_all h.closed e (members (h.subscribers conversation)) h.buffers) [
      | none ↦ none
      | some b ↦ some (record h { buffers = b })
    ]

abbrev pub tail : List ChatEvent → List ChatEvent
tail [] = []
tail (e ∷ es) = es

-- A listener reads the first event of its channel.
abbrev pub receive : ℕ → ChatHub → ChatHub
receive channel h = record h { buffers = set_at channel (tail (h.buffers channel)) h.buffers }

pub data Operation : Type 0 where
  subscribe_to : ℕ → Operation
  cancel_from : (conversation channel : ℕ) → Operation
  publish_to : ℕ → ChatEvent → Operation
  receive_from : ℕ → Operation

unfoldable pub step : ChatHub → Operation → Option ChatHub
step h (subscribe_to conversation) = some (subscribe conversation h)
step h (cancel_from conversation channel) = cancel conversation channel h
step h (publish_to conversation e) = publish conversation e h
step h (receive_from channel) = some (receive channel h)
