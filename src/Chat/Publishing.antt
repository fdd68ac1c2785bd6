-- ===== src/Chat/Publishing.antt =====
-- Publishing to the hub of chat_hub.go and reading from it.
use mathlib.Core.Bool.{false≢true}
use xpace.Prelude.{
  ℕ, ◌<◌, Bool, true, false, some, List, [], ◌∷◌, exists, ◌==◌, nat_eq, nat_beq_iff, if◌then◌else◌,
  ◌≡◌, refl, sym, ap, ◌∙◌, inl, inr, Bool-cases, arith, AtMostOne,
}
use xpace.Chat.{
  ChatEvent, ChatHub, Operation, subscribe_to, cancel_from, publish_to, receive_from, members,
  offer, set_at, tail, send_all, publish, receive, step,
}
use xpace.Chat.Mailbox.{deliver, is_subscribed, mailbox}

abbrev pub has : ℕ → List ℕ → Bool
has k cs = exists (λ c. c == k) cs

-- Only open channels listen, each to one conversation and once.
pub record IsSound (h : ChatHub) : Type 0 where
  pub made : (v k : ℕ) → is_subscribed h v k ≡ true → k < h.next
  pub open_ : (v k : ℕ) → is_subscribed h v k ≡ true → h.closed k ≡ false
  pub one : (v w k : ℕ) → is_subscribed h v k ≡ true → is_subscribed h w k ≡ true → (v == w) ≡ true
  pub once : (v k : ℕ) → AtMostOne (λ c. c == k) (members (h.subscribers v))

pub flip : (a b : ℕ) (v : Bool) → (a == b) ≡ v → (b == a) ≡ v
flip a b v h = ground (arith, h)

pub flip_eq : (a b : ℕ) → (b == a) ≡ (a == b)
flip_eq a b = ground arith

send_all-has :
    (closed : ℕ → Bool) (e : ChatEvent) (cs : List ℕ) (b : ℕ → List ChatEvent)
    → ((k : ℕ) → has k cs ≡ true → closed k ≡ false)
    → ((k : ℕ) → AtMostOne (λ c. c == k) cs)
    → (d : ℕ → List ChatEvent) × (send_all closed e cs b ≡ some d)
      × ((k : ℕ) → d k ≡ (if has k cs then offer e (b k) else b k))
unfolding send_all exists
send_all-has closed e [] b live once = (b, refl, λ k. refl)
send_all-has closed e (c ∷ cs) b live once =
    let (d, sent, each) =
      send_all-has closed e cs (set_at c (offer e (b c)) b) (λ k f. live k (ground (arith, f)))
        (λ k. (once k).1) in
    (
      d,
      rw (live c (ground arith)) sent,
      λ k. elim (Bool-cases (c == k)) [
        | inl f ↦
            let same : c ≡ k = (nat_beq_iff c k).0 f in
            each k ∙ rw ((once k).0 f, flip c k true f, f) (ap (λ x. offer e (b x)) same)
        | inr f ↦ each k ∙ rw (flip c k false f, f) refl
      ],
    )

-- A cancellation is of a subscription that exists: a listener calls it once, when it leaves.
abbrev pub IsAllowed : ChatHub → Operation → Type 0
IsAllowed h (subscribe_to c) = Unit
IsAllowed h (cancel_from c k) = is_subscribed h c k ≡ true
IsAllowed h (publish_to c e) = Unit
IsAllowed h (receive_from k) = Unit

-- The hub does the operation without a panic, and each mailbox is changed as it should be.
abbrev pub Delivers : ChatHub → Operation → Type 0
Delivers h o =
    (t : ChatHub) × (step h o ≡ some t)
    × IsSound t
    × ((v k : ℕ) → mailbox t v k ≡ deliver h.next v k o (mailbox h v k))

received :
    (h : ChatHub) (k v x : ℕ)
    → mailbox (receive k h) v x ≡ deliver h.next v x (receive_from k) (mailbox h v x)
unfolding mailbox is_subscribed deliver
received h k v x = elim (Bool-cases (k == x)) [
  | inl f ↦
      let same : k ≡ x = (nat_beq_iff k x).0 f in
      elim (Bool-cases (has x (members (h.subscribers v)))) [
        | inl g ↦ rw (g, f, flip k x true f) (ap (λ y. some (tail (h.buffers y))) same)
        | inr g ↦ rw (g, f) refl
      ]
  | inr f ↦ rw (flip k x false f, f) refl
]

pub receive-Delivers : (h : ChatHub) (k : ℕ) → IsSound h → Delivers h (receive_from k)
unfolding step is_subscribed
receive-Delivers h k sound = (
  receive k h,
  refl,
  record { made = sound.made; open_ = sound.open_; one = sound.one; once = sound.once },
  received h k,
)

published :
    (h : ChatHub) (c : ℕ) (e : ChatEvent) (d : ℕ → List ChatEvent)
    → IsSound h
    → ((k : ℕ)
        → d k ≡ (if has k (members (h.subscribers c)) then offer e (h.buffers k) else h.buffers k))
    → (v x : ℕ)
    → mailbox (record h { buffers = d }) v x ≡ deliver h.next v x (publish_to c e) (mailbox h v x)
unfolding mailbox is_subscribed deliver
published h c e d sound each v x = elim (Bool-cases (has x (members (h.subscribers v)))) [
  | inr g ↦ elim (Bool-cases (c == v)) [ inl f ↦ rw (g, f) refl | inr f ↦ rw (g, f) refl ]
  | inl g ↦ elim (Bool-cases (c == v)) [
    | inl f ↦
        let same : c ≡ v = (nat_beq_iff c v).0 f in
        let listens : has x (members (h.subscribers c)) ≡ true =
          ap (λ y. has x (members (h.subscribers y))) same ∙ g in
        rw (g, f) (ap some (each x ∙ rw listens refl))
    | inr f ↦ elim (Bool-cases (has x (members (h.subscribers c)))) [
      | inl l ↦ absurd (false≢true (sym f ∙ sound.one c v x l g))
      | inr l ↦ rw (g, f) (ap some (each x ∙ rw l refl))
    ]
  ]
]

pub publish-Delivers :
    (h : ChatHub) (c : ℕ) (e : ChatEvent) → IsSound h → Delivers h (publish_to c e)
unfolding step is_subscribed publish
publish-Delivers h c e sound =
    let (d, sent, each) =
      send_all-has h.closed e (members (h.subscribers c)) h.buffers (sound.open_ c)
        (sound.once c) in
    (
      record h { buffers = d },
      rw (step, publish, sent) refl,
      record { made = sound.made; open_ = sound.open_; one = sound.one; once = sound.once },
      published h c e d sound each,
    )
