-- ===== src/Prelude/Lists.antt =====
-- Lists measured by native numbers, predicates by recursion, and the list operations that the
-- statements of a database reduce to.
use Prim.Native.Nat.{ℕ, suc, ◌+◌}
use mathlib.Core.Path.{◌≡◌, refl, ap, sym, subst, ◌∙◌}
use mathlib.Core.Logic.{inl, inr}
use mathlib.Core.Bool.{Bool, true, false, ◌||◌, false≢true}
use mathlib.Core.Option
use mathlib.Core.Option.{Option, none, some}
use mathlib.Core.List.{List, [], ◌∷◌, ◌++◌, Memᴰ}
use native.Mathlib.Omega.{arith}
use xpace.Prelude.Tests.{if◌then◌else◌, Bool-cases}

module _ {ℓ} {A : Type ℓ} where
  abbrev pub length : List A → ℕ
  length [] = 0
  length (x ∷ xs) = suc (length xs)

  pub length-append : (xs ys : List A) → length (xs ++ ys) ≡ length xs + length ys
  length-append [] ys = omega arith
  length-append (x ∷ xs) ys = omega (arith, length-append xs ys)

  -- SELECT … LIMIT 1: the first row that satisfies the condition.
  unfoldable pub first : (A → Bool) → List A → Option A
  first p [] = none
  first p (x ∷ xs) = if p x then some x else first p xs

  -- SELECT EXISTS(…).
  unfoldable pub exists : (A → Bool) → List A → Bool
  exists p [] = false
  exists p (x ∷ xs) = p x || exists p xs

  -- DELETE … WHERE keeps the other rows.
  unfoldable pub keep : (A → Bool) → List A → List A
  keep p [] = []
  keep p (x ∷ xs) = if p x then x ∷ keep p xs else keep p xs

  -- UPDATE … SET … WHERE.
  unfoldable pub update_where : (A → Bool) → (A → A) → List A → List A
  update_where p f [] = []
  update_where p f (x ∷ xs) = (if p x then f x else x) ∷ update_where p f xs

  -- SELECT COUNT(*) … WHERE, and the rows that an UPDATE affects.
  unfoldable pub count_where : (A → Bool) → List A → ℕ
  count_where p [] = 0
  count_where p (x ∷ xs) = if p x then suc (count_where p xs) else count_where p xs

abbrev pub All {ℓ κ} : {A : Type ℓ} → (A → Type κ) → List A → Type κ
All P [] = Unit
All P (x ∷ xs) = P x × All P xs

module _ {ℓ} {A : Type ℓ} (p : A → Bool) where
  -- A row is found exactly when one stands in the table and meets the condition.
  pub exists→Mem : (xs : List A) → exists p xs ≡ true → (x : A) × Memᴰ x xs × (p x ≡ true)
  unfolding exists
  exists→Mem [] h = cc
  exists→Mem (x ∷ xs) h = elim (Bool-cases (p x)) [
    | inl e ↦ (x, Memᴰ.head refl, e)
    | inr e ↦ let (y, m, q) = exists→Mem xs (rw e at h) in (y, Memᴰ.tail m, q)
  ]

  pub Mem→exists : (xs : List A) {x : A} → Memᴰ x xs → p x ≡ true → exists p xs ≡ true
  unfolding exists
  Mem→exists [] m q = elim m [ ]
  Mem→exists (y ∷ xs) (Memᴰ.head e) q = rw (ap p (sym e) ∙ q)
  Mem→exists (y ∷ xs) (Memᴰ.tail m) q = ground (arith, Mem→exists xs m q)

module _ {ℓ κ} {A : Type ℓ} (P : A → Type κ) where
  pub Mem-All : (xs : List A) {x : A} → Memᴰ x xs → All P xs → P x
  Mem-All [] m h = elim m [ ]
  Mem-All (y ∷ xs) (Memᴰ.head e) h = subst P (sym e) h.0
  Mem-All (y ∷ xs) (Memᴰ.tail m) h = Mem-All xs m h.1

  pub All-append : (xs ys : List A) → All P xs → All P ys → All P (xs ++ ys)
  All-append [] ys h k = k
  All-append (x ∷ xs) ys h k = (h.0, All-append xs ys h.1 k)

  pub All-keep : (p : A → Bool) (xs : List A) → All P xs → All P (keep p xs)
  unfolding keep
  All-keep p [] h = tt
  All-keep p (x ∷ xs) h = elim (Bool-cases (p x)) [
    | inl e ↦ rw e (h.0, All-keep p xs h.1)
    | inr e ↦ rw e (All-keep p xs h.1)
  ]

module _ {ℓ} {A : Type ℓ} where
  pub Mem-append_left : (xs ys : List A) {x : A} → Memᴰ x xs → Memᴰ x (xs ++ ys)
  Mem-append_left [] ys m = elim m [ ]
  Mem-append_left (y ∷ xs) ys (Memᴰ.head e) = Memᴰ.head e
  Mem-append_left (y ∷ xs) ys (Memᴰ.tail m) = Memᴰ.tail (Mem-append_left xs ys m)

  pub Mem-append_right : (xs ys : List A) {x : A} → Memᴰ x ys → Memᴰ x (xs ++ ys)
  Mem-append_right [] ys m = m
  Mem-append_right (y ∷ xs) ys m = Memᴰ.tail (Mem-append_right xs ys m)

-- The rows that an UPDATE rewrites, and what a SELECT of one row finds afterwards.
module _ {ℓ} {A : Type ℓ} where
  pub first-holds : (p : A → Bool) (xs : List A) {x : A} → first p xs ≡ some x → p x ≡ true
  unfolding first
  first-holds p [] h = cc
  first-holds p (y ∷ xs) h = elim (Bool-cases (p y)) [
    | inl e ↦ ground (arith, e)
    | inr e ↦ first-holds p xs (rw e at h)
  ]

  pub first-update_self :
      (p : A → Bool) (f : A → A) (xs : List A)
      → ((x : A) → p x ≡ true → p (f x) ≡ true)
      → first p (update_where p f xs) ≡ Option.map f (first p xs)
  unfolding first update_where
  first-update_self p f [] k = refl
  first-update_self p f (x ∷ xs) k = elim (Bool-cases (p x)) [
    | inl e ↦ rw e (rw (k x e))
    | inr e ↦ rw (e, e) (first-update_self p f xs k)
  ]

  pub first-update_other :
      (p q : A → Bool) (f : A → A) (xs : List A)
      → ((x : A) → p x ≡ true → (q x ≡ false) × (q (f x) ≡ false))
      → first q (update_where p f xs) ≡ first q xs
  unfolding first update_where
  first-update_other p q f [] k = refl
  first-update_other p q f (x ∷ xs) k = elim (Bool-cases (p x)) [
    | inl e ↦ let (a, b) = k x e in rw e (rw (a, b) (first-update_other p q f xs k))
    | inr e ↦ rw e (rw (first-update_other p q f xs k))
  ]

  pub first-append :
      (p : A → Bool) (xs : List A) (y : A)
      → first p (xs ++ y ∷ [])
        ≡ (elim (first p xs) [ none ↦ if p y then some y else none | some x ↦ some x ])
  unfolding first
  first-append p [] y = refl
  first-append p (x ∷ xs) y = ground (arith, first-append p xs y)

  -- At most one row meets the condition, as of a condition on a primary key.
  abbrev pub AtMostOne : (A → Bool) → List A → Type 0
  AtMostOne p [] = Unit
  AtMostOne p (x ∷ xs) = (p x ≡ true → exists p xs ≡ false) × AtMostOne p xs

  pub update_where-none :
      (p : A → Bool) (f : A → A) (xs : List A) → exists p xs ≡ false → update_where p f xs ≡ xs
  unfolding update_where exists
  update_where-none p f [] h = refl
  update_where-none p f (x ∷ xs) h = ground (arith, update_where-none p f xs)

  pub All-update_one {κ} :
      (P : A → Type κ) (p : A → Bool) (f : A → A) (xs : List A) {c : A}
      → AtMostOne p xs
      → first p xs ≡ some c
      → P (f c)
      → All P xs
      → All P (update_where p f xs)
  unfolding first update_where
  All-update_one P p f [] one found q h = tt
  All-update_one P p f (x ∷ xs) {c = c} one found q h = elim (Bool-cases (p x)) [
    | inl e ↦
        let same : x ≡ c = ground (arith, found, e) in
        rw (e, update_where-none p f xs (one.0 e)) (subst (λ z. P (f z)) (sym same) q, h.1)
    | inr e ↦ rw e (h.0, All-update_one P p f xs one.1 (rw e at found) q h.1)
  ]

  pub All-update {κ} :
      (P : A → Type κ) (p : A → Bool) (f : A → A) (xs : List A)
      → ((x : A) → p x ≡ true → P x → P (f x))
      → All P xs
      → All P (update_where p f xs)
  unfolding update_where
  All-update P p f [] k h = tt
  All-update P p f (x ∷ xs) k h = elim (Bool-cases (p x)) [
    | inl e ↦ rw e (k x e h.0, All-update P p f xs k h.1)
    | inr e ↦ rw e (h.0, All-update P p f xs k h.1)
  ]

-- A key that an UPDATE leaves alone stays a key, and so it does under the INSERT of a fresh row.
module _ {ℓ} {A : Type ℓ} (q : A → Bool) where
  pub exists-update :
      (p : A → Bool) (f : A → A) (xs : List A)
      → ((x : A) → q (f x) ≡ q x)
      → exists q (update_where p f xs) ≡ exists q xs
  unfolding exists update_where
  exists-update p f [] k = refl
  exists-update p f (x ∷ xs) k = elim (Bool-cases (p x)) [
    | inl e ↦ rw e (rw (k x, exists-update p f xs k))
    | inr e ↦ rw e (rw (exists-update p f xs k))
  ]

  pub AtMostOne-update :
      (p : A → Bool) (f : A → A) (xs : List A)
      → ((x : A) → q (f x) ≡ q x)
      → AtMostOne q xs
      → AtMostOne q (update_where p f xs)
  unfolding update_where
  AtMostOne-update p f [] k h = tt
  AtMostOne-update p f (x ∷ xs) k h = elim (Bool-cases (p x)) [
    | inl e ↦
        rw e (λ e'. exists-update p f xs k ∙ h.0 (sym (k x) ∙ e'), AtMostOne-update p f xs k h.1)
    | inr e ↦ rw e (λ e'. exists-update p f xs k ∙ h.0 e', AtMostOne-update p f xs k h.1)
  ]

  pub exists-append : (xs : List A) (y : A) → exists q (xs ++ y ∷ []) ≡ (exists q xs || q y)
  unfolding exists
  exists-append [] y = ground arith
  exists-append (x ∷ xs) y = ground (arith, exists-append xs y)

  pub AtMostOne-append :
      (xs : List A) (y : A)
      → AtMostOne q xs
      → (q y ≡ true → exists q xs ≡ false)
      → AtMostOne q (xs ++ y ∷ [])
  unfolding exists
  AtMostOne-append [] y h k = (λ _. refl, tt)
  AtMostOne-append (x ∷ xs) y h k = (
    λ e. ground (arith, exists-append xs y, h.0 e, k),
    AtMostOne-append xs y h.1 (λ e. ground (arith, k e)),
  )

  pub first-none : (xs : List A) → exists q xs ≡ false → first q xs ≡ none
  unfolding exists first
  first-none [] h = refl
  first-none (x ∷ xs) h = ground (arith, first-none xs)

  pub exists_of_first : (xs : List A) {x : A} → first q xs ≡ some x → exists q xs ≡ true
  unfolding exists first
  exists_of_first [] h = cc
  exists_of_first (y ∷ xs) {x = x} h = ground (arith, exists_of_first xs {x = x})

pub first-All {ℓ κ} :
    {A : Type ℓ} (P : A → Type κ) (p : A → Bool) (xs : List A) {x : A}
    → first p xs ≡ some x
    → All P xs
    → P x
unfolding first
first-All P p [] h k = cc
first-All P p (y ∷ xs) h k = elim (Bool-cases (p y)) [
  | inl e ↦ let same : some y ≡ some _ = rw e at h in subst P (cc) k.0
  | inr e ↦ first-All P p xs (rw e at h) k.1
]

pub exists_of_found {ℓ} :
    {A : Type ℓ} (p q : A → Bool) (xs : List A) (x : A)
    → first q xs ≡ some x
    → p x ≡ true
    → exists p xs ≡ true
unfolding first exists
exists_of_found p q [] x h k = cc
exists_of_found p q (y ∷ xs) x h k = elim (Bool-cases (q y)) [
  | inl e ↦ let same : some y ≡ some x = rw e at h in let row : y ≡ x = cc in rw (ap p row ∙ k)
  | inr e ↦ ground (arith, exists_of_found p q xs x (rw e at h) k)
]

-- Under a key, the row that another condition found is found.
pub first-by_key {ℓ} :
    {A : Type ℓ} (p q : A → Bool) (xs : List A) (x : A)
    → AtMostOne p xs
    → first q xs ≡ some x
    → p x ≡ true
    → first p xs ≡ some x
unfolding first exists
first-by_key p q [] x one h k = cc
first-by_key p q (y ∷ xs) x one h k = elim (Bool-cases (q y)) [
  | inl e ↦ let same : some y ≡ some x = rw e at h in let row : y ≡ x = cc in rw (ap p row ∙ k) same
  | inr e ↦
      let later = rw e at h in
      elim (Bool-cases (p y)) [
        | inl f ↦ absurd (false≢true (sym (one.0 f) ∙ exists_of_found p q xs x later k))
        | inr f ↦ rw f (first-by_key p q xs x one.1 later k)
      ]
]

-- The row that has an identifier, after some rows are changed by a function that keeps identifiers.
pub first-update_row {ℓ} :
    {A : Type ℓ} (p q : A → Bool) (f : A → A) (xs : List A) (x : A)
    → ((y : A) → q (f y) ≡ q y)
    → first q xs ≡ some x
    → first q (update_where p f xs) ≡ some (if p x then f x else x)
unfolding first update_where
first-update_row p q f [] x k h = cc
first-update_row p q f (z ∷ xs) x k h = elim (Bool-cases (q z)) [
  | inl e ↦
      let same : some z ≡ some x = rw e at h in
      let row : z ≡ x = cc in
      elim (Bool-cases (p z)) [
        | inl c ↦ rw (c, k z, e) (rw (sym (ap p row) ∙ c) (ap (λ y. some (f y)) row))
        | inr c ↦ rw (c, e) (rw (sym (ap p row) ∙ c) same)
      ]
  | inr e ↦ elim (Bool-cases (p z)) [
    | inl c ↦ rw (c, k z, e) (first-update_row p q f xs x k (rw e at h))
    | inr c ↦ rw (c, e) (first-update_row p q f xs x k (rw e at h))
  ]
]

-- The first row of some is the first of fewer, if it is one of them.
pub first-narrow {ℓ} :
    {A : Type ℓ} (p q : A → Bool) (xs : List A) {x : A}
    → ((y : A) → p y ≡ false → q y ≡ false)
    → first p xs ≡ some x
    → q x ≡ true
    → first q xs ≡ some x
unfolding first
first-narrow p q [] k h e = cc
first-narrow p q (z ∷ xs) {x = x} k h e = elim (Bool-cases (p z)) [
  | inl f ↦ let same : some z ≡ some x = rw f at h in let row : z ≡ x = cc in rw (ap q row ∙ e) same
  | inr f ↦ rw (k z f) (first-narrow p q xs k (rw f at h) e)
]

pub exists-narrow {ℓ} :
    {A : Type ℓ} (p q : A → Bool) (xs : List A)
    → ((y : A) → p y ≡ false → q y ≡ false)
    → exists p xs ≡ false
    → exists q xs ≡ false
unfolding exists
exists-narrow p q [] k h = refl
exists-narrow p q (x ∷ xs) k h =
    rw (k x (ground (arith, h)), exists-narrow p q xs k (ground (arith, h))) refl

-- Under a key, a condition that its row does not meet is met by no row that has it.
pub exists-at_key {ℓ} :
    {A : Type ℓ} (p q : A → Bool) (xs : List A) {x : A}
    → AtMostOne p xs
    → first p xs ≡ some x
    → ((y : A) → p y ≡ false → q y ≡ false)
    → q x ≡ false
    → exists q xs ≡ false
unfolding first exists
exists-at_key p q [] one h k e = refl
exists-at_key p q (z ∷ xs) {x = x} one h k e = elim (Bool-cases (p z)) [
  | inl f ↦
      let same : some z ≡ some x = rw f at h in
      let row : z ≡ x = cc in rw (ap q row ∙ e, exists-narrow p q xs k (one.0 f)) refl
  | inr f ↦ rw (k z f, exists-at_key p q xs one.1 (rw f at h) k e) refl
]

-- ORDER BY, for a test that says which of two rows may come first, and LIMIT.
module _ {ℓ} {A : Type ℓ} (le : A → A → Bool) where
  unfoldable pub insert_by : A → List A → List A
  insert_by x [] = x ∷ []
  insert_by x (y ∷ rest) = if le x y then x ∷ y ∷ rest else y ∷ insert_by x rest

  unfoldable pub sort_by : List A → List A
  sort_by [] = []
  sort_by (x ∷ rest) = insert_by x (sort_by rest)

unfoldable pub take {ℓ} : {A : Type ℓ} → ℕ → List A → List A
take ℕ.zero xs = []
take (suc n) [] = []
take (suc n) (x ∷ xs) = x ∷ take n xs

module _ {ℓ κ} {A : Type ℓ} (P : A → Type κ) where
  All-insert_by :
      (le : A → A → Bool) (x : A) (xs : List A) → P x → All P xs → All P (insert_by le x xs)
  unfolding insert_by
  All-insert_by le x [] p h = (p, tt)
  All-insert_by le x (y ∷ rest) p h = elim (Bool-cases (le x y)) [
    | inl e ↦ rw e (p, h)
    | inr e ↦ rw e (h.0, All-insert_by le x rest p h.1)
  ]

  pub All-sort_by : (le : A → A → Bool) (xs : List A) → All P xs → All P (sort_by le xs)
  unfolding sort_by
  All-sort_by le [] h = tt
  All-sort_by le (x ∷ rest) h = All-insert_by le x (sort_by le rest) h.0 (All-sort_by le rest h.1)

  pub All-take : (n : ℕ) (xs : List A) → All P xs → All P (take n xs)
  unfolding take
  All-take ℕ.zero xs h = tt
  All-take (suc n) [] h = tt
  All-take (suc n) (x ∷ xs) h = (h.0, All-take n xs h.1)

pub exists-none {ℓ} :
    {A : Type ℓ} (p : A → Bool) (xs : List A) → ((x : A) → p x ≡ false) → exists p xs ≡ false
unfolding exists
exists-none p [] h = refl
exists-none p (x ∷ xs) h = rw (h x, exists-none p xs h) refl
