-- ===== src/Meetings/Duration/Closing.antt =====
-- What a round of the worker makes of a meeting whose turn it is.
use xpace.Prelude.{
  ℕ, String, Bool, true, false, not, ◌&&◌, ◌||◌, Option, none, some, eq_iff, List, [], ◌∷◌, map,
  first, exists, keep, ◌==◌, if◌then◌else◌, nat_eq, ◌≡◌, refl, sym, ap, ◌∙◌, Bool-cases,
  Option-cases, inl, inr, arith, All, All-keep, All-sort_by, All-take, AtMostOne, first-update_row,
  exists→Mem, Mem-All, exists_of_found,
}
use mathlib.Core.Path.{subst}
use mathlib.Core.Bool.{false≢true}
use xpace.Http.{Faults}
use xpace.Meetings.{Meeting, MeetingStatus}
use xpace.Meetings.Duration.{
  Store, ExpiredMeeting, is_active, is_ended, is_limit, is_unset, is_expired, is_item, still_over,
  ended_at_limit, end_at_limit, close_at, as_item, expired_meetings, end_meeting, close_room,
  stays_open, transaction_fails, enforce_meeting_duration, enforce_all, before,
  run_meeting_duration_enforcement,
}

-- The row as a round leaves it.
abbrev settled : ℕ → Meeting → Meeting
settled now m = close_at now (if is_active m.status then end_at_limit now m else m)

guarded : {x y : Meeting} (b c : Bool) → (c ≡ true → x ≡ y) → (if b && c then x else y) ≡ y
guarded false c h = refl
guarded true false h = refl
guarded true true h = h refl

own : (s : Store) (m : Meeting) → is_item (as_item s m) m ≡ true
own s m = ground arith

foreign :
    (k : ℕ) (s : Store) (y m : Meeting)
    → (m.id == k) ≡ true
    → (y.id == k) ≡ false
    → is_item (as_item s y) m ≡ false
foreign k s y m e f = ground (arith, e, f)

abbrev row : ℕ → Store → Option Meeting
row k s = first (λ m. m.id == k) s.base.meetings

module _ (k : ℕ) (down : Faults) (close : String → Option String) (now : ℕ) where
  close_room-row :
      (s : Store) (x : ExpiredMeeting) (m : Meeting)
      → row k s ≡ some m
      → row k (close_room down close s now x)
        ≡ some (
            if not (stays_open (close x.room_name) || down "close") && ended_at_limit x m
            then close_at now m
            else m)
  unfolding close_room
  close_room-row s x m h = elim (Bool-cases (stays_open (close x.room_name) || down "close")) [
    | inl e ↦ rw e h
    | inr e ↦ rw e (
        first-update_row (ended_at_limit x) (λ y. y.id == k) (close_at now) s.base.meetings m
          (λ _. refl) h)
  ]

  -- A row that is settled, or is not the item's, stays as it is.
  enforce-done :
      (s : Store) (x : ExpiredMeeting) (m : Meeting)
      → row k s ≡ some m
      → still_over now x m ≡ false
      → (ended_at_limit x m ≡ true → close_at now m ≡ m)
      → row k (enforce_meeting_duration down close s now x) ≡ some m
  unfolding enforce_meeting_duration end_meeting
  enforce-done s x m h over same =
      let closed : (t : Store) → row k t ≡ some m → row k (close_room down close t now x) ≡ some m =
        λ t g. close_room-row t x m g ∙ ap some (guarded _ (ended_at_limit x m) same) in
      elim (Bool-cases (is_active x.status)) [
        | inr e ↦ rw e (closed s h)
        | inl e ↦
            elim (Bool-cases
              (transaction_fails down || not (exists (still_over now x) s.base.meetings))) [
                | inl f ↦ rw (e, f) h
                | inr f ↦
                    rw (e, f)
                      (closed _ (
                        first-update_row (still_over now x) (λ y. y.id == k) (end_at_limit now)
                          s.base.meetings m (λ _. refl) h
                        ∙ rw over refl))
              ]
      ]

  enforce-due :
      (s z : Store) (m : Meeting)
      → row k s ≡ some m
      → is_expired z now m ≡ true
      → transaction_fails down ≡ false
      → down "close" ≡ false
      → stays_open (close m.room_name) ≡ false
      → row k (enforce_meeting_duration down close s now (as_item z m)) ≡ some (settled now m)
  unfolding enforce_meeting_duration end_meeting
  enforce-due s z m h expired works marks closes =
      let at_limit : is_active m.status ≡ false → ended_at_limit (as_item z m) m ≡ true =
        λ e. ground (arith, e, expired, own z m) in
      elim (Bool-cases (is_active m.status)) [
        | inr e ↦ rw e (close_room-row s (as_item z m) m h ∙ rw (closes, marks, at_limit e) refl)
        | inl e ↦
            let over : still_over now (as_item z m) m ≡ true =
              ground (arith, e, expired, own z m) in
            let there : exists (still_over now (as_item z m)) s.base.meetings ≡ true =
              exists_of_found (still_over now (as_item z m)) (λ y. y.id == k) s.base.meetings m h
                over in
            rw (e, works, there)
              (close_room-row _ (as_item z m) (end_at_limit now m) (
                  first-update_row (still_over now (as_item z m)) (λ y. y.id == k)
                    (end_at_limit now) s.base.meetings m (λ _. refl) h
                  ∙ rw over refl)
                ∙ rw (closes, marks, own z m) refl)
      ]

settled-idle : (now : ℕ) (m : Meeting) → is_active (settled now m).status ≡ false
settled-idle now m = elim (Bool-cases (is_active m.status)) [ inl e ↦ rw e refl | inr e ↦ rw e e ]

close_at-close_at : (now : ℕ) (m : Meeting) → close_at now (close_at now m) ≡ close_at now m
close_at-close_at now m = elim (Option-cases m.room_closed_at) [
  | inl e ↦ rw e refl
  | inr (t, e) ↦ rw e refl
]

module _ (k : ℕ) (down : ℕ → Faults) (close : String → Option String) (now : ℕ) where
  -- The items after its own leave a row that is settled as it is.
  enforce_all-settled :
      (xs : List ExpiredMeeting) (s : Store) (m : Meeting)
      → row k s ≡ some (settled now m)
      → row k (enforce_all down close s now xs) ≡ some (settled now m)
  unfolding enforce_all
  enforce_all-settled [] s m h = h
  enforce_all-settled (x ∷ xs) s m h = enforce_all-settled xs _ m (
      enforce-done k (down x.id) close now s x (settled now m) h
        (ground (arith, settled-idle now m)) (λ _. close_at-close_at now _))

  enforce_all-due :
      (ys : List Meeting) (s z : Store) (m : Meeting)
      → row k s ≡ some m
      → (m.id == k) ≡ true
      → All (λ y. (y.id == k) ≡ true → y ≡ m) ys
      → exists (λ y. y.id == k) ys ≡ true
      → is_expired z now m ≡ true
      → transaction_fails (down m.id) ≡ false
      → down m.id "close" ≡ false
      → stays_open (close m.room_name) ≡ false
      → row k (enforce_all down close s now (map (as_item z) ys)) ≡ some (settled now m)
  unfolding enforce_all exists
  enforce_all-due [] s z m h key only there expired works marks closes = absurd (false≢true there)
  enforce_all-due (y ∷ ys) s z m h key only there expired works marks closes =
      elim (Bool-cases (y.id == k)) [
        | inl e ↦ enforce_all-settled (map (as_item z) ys) _ m (
            subst
              (λ x.
                row k (enforce_meeting_duration (down x.id) close s now (as_item z x))
                ≡ some (settled now m))
              (sym (only.0 e))
              (enforce-due k (down m.id) close now s z m h expired works marks closes))
        | inr e ↦
            enforce_all-due ys _ z m
              (enforce-done k (down y.id) close now s (as_item z y) m h
                (rw (foreign k z y m key e) refl)
                (λ f. absurd (ground (arith, f, foreign k z y m key e))))
              key only.1 (rw e at there) expired works marks closes
      ]

kept {ℓ} : {A : Type ℓ} (p : A → Bool) (xs : List A) → All (λ x. p x ≡ true) (keep p xs)
unfolding keep
kept p [] = tt
kept p (x ∷ xs) = elim (Bool-cases (p x)) [ inl e ↦ rw e (e, kept p xs) | inr e ↦ rw e (kept p xs) ]

vacuous {ℓ} :
    {A : Type ℓ} (p : A → Bool) (xs : List A) (m : A)
    → exists p xs ≡ false
    → All (λ y. p y ≡ true → y ≡ m) xs
unfolding exists
vacuous p [] m h = tt
vacuous p (x ∷ xs) m h = (λ e. absurd (ground (arith, e, h)), vacuous p xs m (ground (arith, h)))

-- Under a key every row that has it is the row that is found.
only_row {ℓ} :
    {A : Type ℓ} (p : A → Bool) (xs : List A) (m : A)
    → AtMostOne p xs
    → first p xs ≡ some m
    → All (λ y. p y ≡ true → y ≡ m) xs
unfolding first
only_row p [] m one h = tt
only_row p (x ∷ xs) m one h = elim (Bool-cases (p x)) [
  | inl e ↦ let same : some x ≡ some m = rw e at h in (λ _. cc, vacuous p xs m (one.0 e))
  | inr e ↦ (λ f. absurd (false≢true (sym e ∙ f)), only_row p xs m one.1 (rw e at h))
]

-- What a round makes of a meeting that it settles, with each field written out: an active one is
-- ended at that time, and the room is marked as closed at that time unless it was already.
pub data Settled (now : ℕ) (m : Meeting) : Meeting → Type 0 where
  ended_now :
      m.status ≡ MeetingStatus.active
      → m.room_closed_at ≡ none
      → Settled now m (record m {
        status = MeetingStatus.ended;
        ended_at = some now;
        end_reason = some "PLAN_DURATION_LIMIT";
        room_closed_at = some now;
      })
  ended_in_closed_room :
      (at : ℕ)
      → m.status ≡ MeetingStatus.active
      → m.room_closed_at ≡ some at
      → Settled now m (record m {
        status = MeetingStatus.ended;
        ended_at = some now;
        end_reason = some "PLAN_DURATION_LIMIT";
      })
  closed_later :
      m.status ≡ MeetingStatus.ended
      → m.end_reason ≡ some "PLAN_DURATION_LIMIT"
      → m.room_closed_at ≡ none
      → Settled now m (record m { room_closed_at = some now })

active_of : (s : MeetingStatus) → is_active s ≡ true → s ≡ MeetingStatus.active
active_of MeetingStatus.active h = refl
active_of _ h = cc

ended_of : (s : MeetingStatus) → is_ended s ≡ true → s ≡ MeetingStatus.ended
ended_of MeetingStatus.ended h = refl
ended_of _ h = cc

limit_of : (r : Option String) → is_limit r ≡ true → r ≡ some "PLAN_DURATION_LIMIT"
limit_of none h = cc
limit_of (some r) h = ap some ((eq_iff r "PLAN_DURATION_LIMIT").0 h)

unset_of : (o : Option ℕ) → is_unset o ≡ true → o ≡ none
unset_of none h = refl
unset_of (some t) h = cc

settled-Settled :
    (s : Store) (now : ℕ) (m : Meeting) → is_expired s now m ≡ true → Settled now m (settled now m)
settled-Settled s now m h = elim (Bool-cases (is_active m.status)) [
  | inl e ↦ elim (Option-cases m.room_closed_at) [
    | inl f ↦ subst (Settled now m) (rw (e, f) refl) (ended_now (active_of m.status e) f)
    | inr (at, f) ↦
        subst (Settled now m) (rw (e, f) refl) (ended_in_closed_room at (active_of m.status e) f)
  ]
  | inr e ↦
      let open_ = unset_of m.room_closed_at (ground (arith, h, e)) in
      subst (Settled now m) (rw (e, open_) refl) (
        closed_later (ended_of m.status (ground (arith, h, e)))
          (limit_of m.end_reason (ground (arith, h, e))) open_)
]

-- Where a round reads a meeting, no other row has its identifier, nothing fails for it and its room is
-- closed, the meeting is ended after the round for the reason of its plan, at that time if it was
-- active before, and its room is marked as closed, at that time if it was not before. No other field
-- changes, whatever else the round reads and whatever fails for that.
pub run-Settled :
    (down : Faults) (row_down : ℕ → Faults) (close : String → Option String) (s : Store) (now : ℕ)
    (m : Meeting)
    → first (λ x. x.id == m.id) s.base.meetings ≡ some m
    → AtMostOne (λ x. x.id == m.id) s.base.meetings
    → exists (λ x. x.id == m.id) (expired_meetings s now) ≡ true
    → (down "connection" || down "lock" || down "select") ≡ false
    → transaction_fails (row_down m.id) ≡ false
    → row_down m.id "close" ≡ false
    → stays_open (close m.room_name) ≡ false
    → (q : Meeting) × (first
          (λ x. x.id == m.id)
          (run_meeting_duration_enforcement down row_down true close s now).base.meetings
        ≡ some q)
      × Settled now m q
unfolding run_meeting_duration_enforcement expired_meetings
run-Settled down row_down close s now m found one there works ends marks closes =
    let mine : Meeting → Bool = λ x. x.id == m.id in
    let alone : Meeting → Type 0 = λ y. mine y ≡ true → y ≡ m in
    let late : Meeting → Type 0 = λ y. is_expired s now y ≡ true in
    let due = keep (is_expired s now) s.base.meetings in
    let only = All-take alone 50 _ (
      All-sort_by alone before due (
        All-keep alone (is_expired s now) s.base.meetings
          (only_row mine s.base.meetings m one found))) in
    let expired =
      All-take late 50 _ (All-sort_by late before due (kept (is_expired s now) s.base.meetings)) in
    let (x, inside, e) = exists→Mem mine (expired_meetings s now) there in
    let is : is_expired s now m ≡ true =
      ap (is_expired s now) (sym (Mem-All alone (expired_meetings s now) inside only e))
      ∙ Mem-All late (expired_meetings s now) inside expired in
    let runs : (down "connection" || down "lock" || false || down "select") ≡ false =
      ground (arith, works) in
    (
      settled now m,
      rw runs (
          enforce_all-due m.id row_down close now (expired_meetings s now) s s m found
            (ground arith) only there is ends marks closes),
      settled-Settled s now m is,
    )
