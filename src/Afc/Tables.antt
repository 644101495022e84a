-- ===== src/Afc/Tables.antt =====
-- The tables of src/services/ios/afc/demux.ts, and how often a number occurs in one.
use appium_ios_remotexpc.Prelude.{
  ℕ, ◌+◌, ◌≤◌, ◌≡◌, refl, sym, ap, ◌∙◌, ◌⊎◌, inl, inr, Bool, true, false, ◌&&◌, ◌||◌, some, List,
  [], ◌∷◌, ◌++◌, arith, ◌==◌, if◌then◌else◌, ==-refl, ==→eq, Bool-cases,
}
use appium_ios_remotexpc.Afc.Demux.{Table, Outcome, find, delete, set, clear_timeout, has_timer}

abbrev pub hit : Bool → ℕ
hit true = 1
hit false = 0

-- How many entries of a list have the number `n`.
abbrev pub tally : {A : Type 0} → (A → ℕ) → ℕ → List A → ℕ
tally f n [] = 0
tally f n (x ∷ xs) = hit (f x == n) + tally f n xs

abbrev pub key : ℕ × ℕ → ℕ
key entry = entry.0

abbrev pub waiter : ℕ × ℕ → ℕ
waiter entry = entry.1

abbrev pub settled_waiter : ℕ × Outcome → ℕ
settled_waiter entry = entry.0

pub tally-append :
    {A : Type 0} (f : A → ℕ) (n : ℕ) (xs ys : List A)
    → tally f n (xs ++ ys) ≡ tally f n xs + tally f n ys
tally-append f n [] ys = omega arith
tally-append f n (x ∷ xs) ys = omega (arith, tally-append f n xs ys)

pub hit_same : (n : ℕ) → hit (n == n) ≡ 1
hit_same n = ap hit (==-refl n)

-- The head of a table, by whether it has the number.
module _ (num n v : ℕ) (xs : Table) where
  pub find_here : n == num ≡ true → find num ((n, v) ∷ xs) ≡ some v
  unfolding find
  find_here e = ap (λ b. if b then some v else find num xs) e

  pub find_there : n == num ≡ false → find num ((n, v) ∷ xs) ≡ find num xs
  unfolding find
  find_there e = ap (λ b. if b then some v else find num xs) e

  pub delete_here : n == num ≡ true → delete num ((n, v) ∷ xs) ≡ xs
  unfolding delete
  delete_here e = ap (λ b. if b then xs else (n, v) ∷ delete num xs) e

  pub delete_there : n == num ≡ false → delete num ((n, v) ∷ xs) ≡ (n, v) ∷ delete num xs
  unfolding delete
  delete_there e = ap (λ b. if b then xs else (n, v) ∷ delete num xs) e

  clear_here : v == num ≡ true → clear_timeout num ((n, v) ∷ xs) ≡ xs
  unfolding clear_timeout
  clear_here e = ap (λ b. if b then xs else (n, v) ∷ clear_timeout num xs) e

  clear_there : v == num ≡ false → clear_timeout num ((n, v) ∷ xs) ≡ (n, v) ∷ clear_timeout num xs
  unfolding clear_timeout
  clear_there e = ap (λ b. if b then xs else (n, v) ∷ clear_timeout num xs) e

some_injective : {m n : ℕ} → some m ≡ some n → m ≡ n
some_injective e = cc

pub hit-true : {b : Bool} → b ≡ true → hit b ≡ 1
hit-true e = ap hit e

-- What `find` finds is there, and it is what `delete` takes out.
pub tally-delete :
    (num w x : ℕ) (xs : Table)
    → find num xs ≡ some w
    → tally waiter x xs ≡ hit (w == x) + tally waiter x (delete num xs)
unfolding find
tally-delete num w x [] h = cc
tally-delete num w x ((n, v) ∷ xs) h = elim (Bool-cases (n == num)) [
  | inl same ↦
      let e : v ≡ w = some_injective (sym (find_here num n v xs same) ∙ h) in
      ap (λ u. hit (u == x) + tally waiter x xs) e
      ∙ ap (λ t. hit (w == x) + tally waiter x t) (sym (delete_here num n v xs same))
  | inr other ↦
      let ih = tally-delete num w x xs (sym (find_there num n v xs other) ∙ h) in
      omega (arith, ih, ap (tally waiter x) (delete_there num n v xs other))
]

pub key-delete : (num n : ℕ) (xs : Table) → tally key n (delete num xs) ≤ tally key n xs
unfolding delete
key-delete num n [] = omega arith
key-delete num n ((m, v) ∷ xs) = elim (Bool-cases (m == num)) [
  | inl same ↦ rw same (omega arith)
  | inr other ↦ rw other (omega (arith, key-delete num n xs))
]

pub delete-eq-clear_timeout :
    (num w : ℕ) (xs : Table)
    → find num xs ≡ some w
    → tally waiter w xs ≤ 1
    → delete num xs ≡ clear_timeout w xs
unfolding find
delete-eq-clear_timeout num w [] h le = cc
delete-eq-clear_timeout num w ((n, v) ∷ xs) h le = elim (Bool-cases (n == num)) [
  | inl same ↦
      let e : v ≡ w = some_injective (sym (find_here num n v xs same) ∙ h) in
      delete_here num n v xs same ∙ sym (clear_here w n v xs (ap (λ u. u == w) e ∙ ==-refl w))
  | inr other ↦
      let found = sym (find_there num n v xs other) ∙ h in
      elim (Bool-cases (v == w)) [
        | inl again ↦
            absurd (omega (arith, le, hit-true again, hit_same w, tally-delete num w w xs found))
        | inr elsewhere ↦
            delete_there num n v xs other
            ∙ ap (λ t. (n, v) ∷ t) (delete-eq-clear_timeout num w xs found (omega (arith, le)))
            ∙ sym (clear_there w n v xs elsewhere)
      ]
]

pub set-append :
    (num w : ℕ) (xs : Table) → tally key num xs ≡ 0 → set num w xs ≡ xs ++ ((num, w) ∷ [])
unfolding set
set-append num w [] h = refl
set-append num w ((n, v) ∷ xs) h = elim (Bool-cases (n == num)) [
  | inl same ↦ absurd (omega (arith, h, hit-true same))
  | inr other ↦ rw other (ap (λ t. (n, v) ∷ t) (set-append num w xs (omega (arith, h))))
]

&&-true : (a b : Bool) → (a && b) ≡ true → (a ≡ true) × (b ≡ true)
&&-true true b h = (refl, h)
&&-true false b h = cc

||-true : (a b : Bool) → (a || b) ≡ true → (a ≡ true) ⊎ (b ≡ true)
||-true true b h = inl refl
||-true false b h = inr h

has_timer-tally : (num w : ℕ) (xs : Table) → has_timer num w xs ≡ true → 1 ≤ tally key num xs
unfolding has_timer
has_timer-tally num w [] h = cc
has_timer-tally num w ((n, v) ∷ xs) h =
    elim (||-true ((n == num) && (v == w)) (has_timer num w xs) h) [
      | inl here ↦ omega (arith, hit-true (&&-true (n == num) (v == w) here).0)
      | inr there ↦ omega (arith, has_timer-tally num w xs there)
    ]

pub has_timer-find :
    (num w : ℕ) (xs : Table)
    → has_timer num w xs ≡ true
    → tally key num xs ≤ 1
    → find num xs ≡ some w
unfolding has_timer
has_timer-find num w [] h le = cc
has_timer-find num w ((n, v) ∷ xs) h le =
    elim (||-true ((n == num) && (v == w)) (has_timer num w xs) h) [
      | inl here ↦
          let parts = &&-true (n == num) (v == w) here in
          find_here num n v xs parts.0 ∙ ap some (==→eq v w parts.1)
      | inr there ↦ elim (Bool-cases (n == num)) [
        | inl same ↦ absurd (omega (arith, le, hit-true same, has_timer-tally num w xs there))
        | inr other ↦
            find_there num n v xs other ∙ has_timer-find num w xs there (omega (arith, le))
      ]
    ]
