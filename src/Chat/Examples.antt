-- ===== src/Chat/Examples.antt =====
-- Tests of the hub: two listeners to one conversation, and one to another.
use xpace.Prelude.{ℕ, Option, none, some, List, [], ◌∷◌, exists, keep, nat_eq, ◌≡◌, refl}
use xpace.Chat.{
  ChatEvent, ChatHub, Operation, subscribe_to, publish_to, receive_from, new_chat_hub, send_all,
  subscribe, cancel, publish, step,
}
use xpace.Chat.Mailbox.{is_subscribed, mailbox, deliver}

abbrev hello : ChatEvent
hello = record { type_name = "message"; payload = "hello" }

machine : Unit {0}
unfolding step subscribe cancel publish send_all exists keep is_subscribed mailbox deliver
machine = tt

abbrev run : ChatHub → List Operation → Option ChatHub
run h [] = some h
run h (o ∷ rest) = elim (step h o) [ none ↦ none | some t ↦ run t rest ]

abbrev inbox : Option ChatHub → (conversation channel : ℕ) → Option (List ChatEvent)
inbox none conversation channel = none
inbox (some h) conversation channel = mailbox h conversation channel

abbrev heard : Option ChatHub
heard =
    run new_chat_hub
      (subscribe_to 5 ∷ subscribe_to 6 ∷ subscribe_to 5 ∷ publish_to 5 hello ∷ receive_from 2 ∷ [])

first_hears : inbox heard 5 0 ≡ some (hello ∷ [])
unfolding machine
first_hears = refl

other_does_not : inbox heard 6 1 ≡ some []
unfolding machine
other_does_not = refl

has_read : inbox heard 5 2 ≡ some []
unfolding machine
has_read = refl

abbrev listening : ChatHub
listening = subscribe 5 new_chat_hub
