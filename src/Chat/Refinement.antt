-- ===== src/Chat/Refinement.antt =====
-- The hub of chat_hub.go holds a mailbox for each listener.
use mathlib.Core.Bool.{false≢true}
use xpace.Prelude.{exists, nat_eq, refl}
use xpace.Chat.{new_chat_hub}
use xpace.Chat.Mailbox.{is_subscribed}
use xpace.Chat.Publishing.{IsSound}

pub new_chat_hub-IsSound : IsSound new_chat_hub
unfolding is_subscribed exists
new_chat_hub-IsSound = record {
  made = λ v k l. absurd (false≢true l);
  open_ = λ v k l. refl;
  one = λ v w k l g. absurd (false≢true l);
  once = λ v k. tt;
}
