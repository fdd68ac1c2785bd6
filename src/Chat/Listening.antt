-- ===== src/Chat/Listening.antt =====
-- Beginning and ending to listen to the hub of chat_hub.go.
use xpace.Prelude.{
  ℕ, true, false, not, ◌&&◌, ◌||◌, Option, none, some, List, [], ◌∷◌, exists, keep, ◌==◌, nat_eq,
  nat_beq_iff, ◌≡◌, refl, sym, ap, ◌∙◌, inl, inr, Bool-cases, arith, AtMostOne,
}
use xpace.Chat.{
  ChatHub, subscribe_to, cancel_from, members, set_at, subscribe, cancel, step, without, or_none,
}
use xpace.Chat.Mailbox.{deliver, is_subscribed, mailbox}
use xpace.Chat.Publishing.{has, flip, flip_eq, IsSound, Delivers}

subscribed :
    (h : ChatHub) (c v k : ℕ)
    → is_subscribed (subscribe c h) v k ≡ ((v == c && k == h.next) || is_subscribed h v k)
unfolding is_subscribed subscribe exists
subscribed h c v k = elim (Bool-cases (v == c)) [
  | inl f ↦
      let same : v ≡ c = (nat_beq_iff v c).0 f in
      rw f (
        ap (λ y. (h.next == k) || has k (members (h.subscribers y))) (sym same)
        ∙ ap (λ y. y || has k (members (h.subscribers v))) (sym (flip_eq h.next k)))
  | inr f ↦ rw f refl
]

-- The channel that a subscription makes listened to nothing before.
unused : (h : ChatHub) (v : ℕ) → IsSound h → is_subscribed h v h.next ≡ false
unused h v sound = elim (Bool-cases (is_subscribed h v h.next)) [
  | inl f ↦ absurd (omega (arith, sound.made v h.next f))
  | inr f ↦ f
]

unused_at : (h : ChatHub) (v k : ℕ) → IsSound h → (k == h.next) ≡ true → is_subscribed h v k ≡ false
unused_at h v k sound f = ap (is_subscribed h v) ((nat_beq_iff k h.next).0 f) ∙ unused h v sound

earlier :
    (h : ChatHub) (c v k : ℕ)
    → (k == h.next) ≡ false
    → is_subscribed (subscribe c h) v k ≡ true
    → is_subscribed h v k ≡ true
earlier h c v k f l = ground (arith, f, sym (subscribed h c v k) ∙ l)

newest :
    (h : ChatHub) (c v k : ℕ)
    → IsSound h
    → (k == h.next) ≡ true
    → is_subscribed (subscribe c h) v k ≡ true
    → (v == c) ≡ true
newest h c v k sound f l = ground (arith, unused_at h v k sound f, sym (subscribed h c v k) ∙ l)

pub subscribe-IsSound : (h : ChatHub) (c : ℕ) → IsSound h → IsSound (subscribe c h)
unfolding subscribe is_subscribed
subscribe-IsSound h c sound = record {
  made = λ v k l. elim (Bool-cases (k == h.next)) [
    | inl f ↦ ground (arith, f)
    | inr f ↦ omega (arith, sound.made v k (earlier h c v k f l))
  ];
  open_ = λ v k l. elim (Bool-cases (k == h.next)) [
    | inl f ↦ rw f refl
    | inr f ↦ rw f (sound.open_ v k (earlier h c v k f l))
  ];
  one = λ v w k l g. elim (Bool-cases (k == h.next)) [
    | inl f ↦ ground (arith, newest h c v k sound f l, newest h c w k sound f g)
    | inr f ↦ sound.one v w k (earlier h c v k f l) (earlier h c w k f g)
  ];
  once = λ v k. elim (Bool-cases (v == c)) [
    | inl f ↦ rw f ((λ g. unused_at h c k sound (flip h.next k true g)), sound.once c k)
    | inr f ↦ rw f (sound.once v k)
  ];
}

subscribe-mailbox :
    (h : ChatHub) (c v x : ℕ)
    → IsSound h
    → mailbox (subscribe c h) v x ≡ deliver h.next v x (subscribe_to c) (mailbox h v x)
unfolding mailbox deliver subscribe
subscribe-mailbox h c v x sound = elim (Bool-cases (x == h.next)) [
  | inl f ↦ elim (Bool-cases (v == c)) [
    | inl e ↦ rw (subscribed h c v x, unused_at h v x sound f, f, e, flip v c true e) refl
    | inr e ↦ rw (subscribed h c v x, unused_at h v x sound f, f, e, flip v c false e) refl
  ]
  | inr f ↦ elim (Bool-cases (v == c)) [
    | inl e ↦ rw (subscribed h c v x, f, e, flip v c true e) refl
    | inr e ↦ rw (subscribed h c v x, f, e, flip v c false e) refl
  ]
]

pub subscribe-Delivers : (h : ChatHub) (c : ℕ) → IsSound h → Delivers h (subscribe_to c)
unfolding step
subscribe-Delivers h c sound =
    (subscribe c h, refl, subscribe-IsSound h c sound, λ v x. subscribe-mailbox h c v x sound)

has-keep :
    (k c : ℕ) (cs : List ℕ) → has k (keep (λ x. not (x == c)) cs) ≡ (has k cs && not (k == c))
unfolding exists keep
has-keep k c [] = refl
has-keep k c (x ∷ cs) = ground (arith, has-keep k c cs)

has-or_none : (k : ℕ) (cs : List ℕ) → has k (members (or_none cs)) ≡ has k cs
unfolding exists
has-or_none k [] = refl
has-or_none k (c ∷ cs) = refl

has-without :
    (k c : ℕ) (o : Option (List ℕ))
    → has k (members (without c o)) ≡ (has k (members o) && not (k == c))
unfolding exists
has-without k c none = refl
has-without k c (some cs) = has-or_none k (keep (λ x. not (x == c)) cs) ∙ has-keep k c cs

once-keep :
    (k c : ℕ) (cs : List ℕ)
    → AtMostOne (λ x. x == k) cs
    → AtMostOne (λ x. x == k) (keep (λ x. not (x == c)) cs)
unfolding keep
once-keep k c [] h = tt
once-keep k c (x ∷ cs) h = elim (Bool-cases (x == c)) [
  | inl e ↦ rw e (once-keep k c cs h.1)
  | inr e ↦ rw e ((λ f. has-keep k c cs ∙ rw (h.0 f) refl), once-keep k c cs h.1)
]

once-or_none :
    (k : ℕ) (cs : List ℕ)
    → AtMostOne (λ x. x == k) cs
    → AtMostOne (λ x. x == k) (members (or_none cs))
once-or_none k [] h = h
once-or_none k (c ∷ cs) h = h

once-without :
    (k c : ℕ) (o : Option (List ℕ))
    → AtMostOne (λ x. x == k) (members o)
    → AtMostOne (λ x. x == k) (members (without c o))
once-without k c none h = tt
once-without k c (some cs) h = once-or_none k (keep (λ x. not (x == c)) cs) (once-keep k c cs h)

-- A channel that is closed listens to nothing from then on.
abbrev cancelled : (conversation channel : ℕ) → ChatHub → ChatHub
cancelled c k h = record h {
  subscribers = set_at c (without k (h.subscribers c)) h.subscribers;
  closed = set_at k true h.closed;
}

listens_after :
    (h : ChatHub) (c k v x : ℕ)
    → is_subscribed (cancelled c k h) v x ≡ (is_subscribed h v x && not (v == c && x == k))
unfolding is_subscribed
listens_after h c k v x = elim (Bool-cases (v == c)) [
  | inl f ↦
      let same : v ≡ c = (nat_beq_iff v c).0 f in
      rw f (
        has-without x k (h.subscribers c)
        ∙ ap (λ y. has x (members (h.subscribers y)) && not (x == k)) (sym same))
  | inr f ↦ rw f (ground arith)
]

still :
    (h : ChatHub) (c k v x : ℕ)
    → is_subscribed (cancelled c k h) v x ≡ true
    → is_subscribed h v x ≡ true
still h c k v x l = ground (arith, sym (listens_after h c k v x) ∙ l)

cancelled-IsSound :
    (h : ChatHub) (c k : ℕ) → is_subscribed h c k ≡ true → IsSound h → IsSound (cancelled c k h)
cancelled-IsSound h c k mine sound = record {
  made = λ v x l. sound.made v x (still h c k v x l);
  open_ = λ v x l. elim (Bool-cases (x == k)) [
    | inl f ↦
        let same : x ≡ k = (nat_beq_iff x k).0 f in
        let there : is_subscribed h v k ≡ true =
          ap (is_subscribed h v) (sym same) ∙ still h c k v x l in
        absurd (ground (arith, f, sound.one v c k there mine, sym (listens_after h c k v x) ∙ l))
    | inr f ↦ rw f (sound.open_ v x (still h c k v x l))
  ];
  one = λ v w x l g. sound.one v w x (still h c k v x l) (still h c k w x g);
  once = λ v x. elim (Bool-cases (v == c)) [
    | inl f ↦ rw f (once-without x k (h.subscribers c) (sound.once c x))
    | inr f ↦ rw f (sound.once v x)
  ];
}

cancelled-mailbox :
    (h : ChatHub) (c k v x : ℕ)
    → mailbox (cancelled c k h) v x ≡ deliver h.next v x (cancel_from c k) (mailbox h v x)
unfolding mailbox deliver
cancelled-mailbox h c k v x =
    rw (listens_after h c k v x, flip_eq v c, flip_eq x k)
      (elim (Bool-cases (is_subscribed h v x)) [
        | inl f ↦ rw f (ground arith)
        | inr f ↦ rw f (ground arith)
      ])

pub cancel-Delivers :
    (h : ChatHub) (c k : ℕ) → is_subscribed h c k ≡ true → IsSound h → Delivers h (cancel_from c k)
unfolding step cancel
cancel-Delivers h c k mine sound = (
  cancelled c k h,
  rw (sound.open_ c k mine) refl,
  cancelled-IsSound h c k mine sound,
  cancelled-mailbox h c k,
)
