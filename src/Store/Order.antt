-- ===== src/Store/Order.antt =====
-- The order of the rows in internal/store/sqlite/sqlite.go, and lists kept by a condition.
use real_time_market_data_pi.Base.{
  ℕ, zero, suc, ◌<◌, ◌≡◌, refl, ap, inl, inr, Bool, true, false, ◌&&◌, Bool-cases, List, [], ◌∷◌,
  ◌++◌, if◌then◌else◌, length, take, All, arith,
}
use real_time_market_data_pi.Base.Bytes.{Str}
use real_time_market_data_pi.Store.Rows.{TickRow}
use real_time_market_data_pi.Store.Sqlite.{str_ltb, key_ltb, key_of, later, SortKey}

str_ltb_asym : (s t : Str) → str_ltb s t ≡ true → str_ltb t s ≡ false
unfolding str_ltb
str_ltb_asym s [] h = cc
str_ltb_asym [] (d ∷ t) h = refl
str_ltb_asym (c ∷ s) (d ∷ t) h = ground (arith, str_ltb_asym s t)

key_ltb_asym : (a b : SortKey) → key_ltb a b ≡ true → key_ltb b a ≡ false
unfolding key_ltb
key_ltb_asym (m, s) (n, t) h = ground (arith, str_ltb_asym s t)

pub later_asym : (desc : Bool) (a b : SortKey) → later desc a b ≡ true → later desc b a ≡ false
later_asym true a b h = key_ltb_asym b a h
later_asym false a b h = key_ltb_asym a b h

later_irrefl : (desc : Bool) (a : SortKey) → later desc a a ≡ false
later_irrefl desc a = elim (Bool-cases (later desc a a)) [
  | inl e ↦ later_asym desc a a e
  | inr e ↦ e
]

-- Each row comes later than the rows before it.
abbrev pub Ordered : Bool → List TickRow → Type 0
Ordered desc [] = Unit
Ordered desc (r ∷ rs) = All (λ s. later desc (key_of r) (key_of s) ≡ true) rs × Ordered desc rs

module _ {ℓ} {A : Type ℓ} where
  abbrev pub keep : (A → Bool) → List A → List A
  keep p [] = []
  keep p (x ∷ xs) = if p x then x ∷ keep p xs else keep p xs

  pub keep-All : (p : A → Bool) (xs : List A) → All (λ x. p x ≡ true) xs → keep p xs ≡ xs
  keep-All p [] h = refl
  keep-All p (x ∷ xs) h = rw (h.0) (ap (λ l. x ∷ l) (keep-All p xs h.1))

  pub keep-keep : (p q : A → Bool) (xs : List A) → keep (λ x. p x && q x) xs ≡ keep q (keep p xs)
  keep-keep p q [] = refl
  keep-keep p q (x ∷ xs) = elim (Bool-cases (p x)) [
    | inl e ↦ elim (Bool-cases (q x)) [
      | inl f ↦ rw (e, f) (ap (λ l. x ∷ l) (keep-keep p q xs))
      | inr f ↦ rw (e, f) (keep-keep p q xs)
    ]
    | inr e ↦ rw e (keep-keep p q xs)
  ]

  pub All-split {κ} : (P : A → Type κ) (xs ys : List A) → All P (xs ++ ys) → All P xs × All P ys
  All-split P [] ys h = (tt, h)
  All-split P (x ∷ xs) ys h = let (a, b) = All-split P xs ys h.1 in ((h.0, a), b)

  pub All-intro {κ} : (P : A → Type κ) (xs : List A) → ((x : A) → P x) → All P xs
  All-intro P [] h = tt
  All-intro P (x ∷ xs) h = (h x, All-intro P xs h)

  pub All-keep {κ} : (P : A → Type κ) (p : A → Bool) (xs : List A) → All P xs → All P (keep p xs)
  All-keep P p [] h = tt
  All-keep P p (x ∷ xs) h = elim (Bool-cases (p x)) [
    | inl e ↦ rw e (h.0, All-keep P p xs h.1)
    | inr e ↦ rw e (All-keep P p xs h.1)
  ]

  -- The list at the last one of the first n.
  pub cut_at :
      (n : ℕ) (xs : List A)
      → n < length xs
      → 0 < n
      → (a : List A) × (x : A) × (b : List A) × (xs ≡ a ++ (x ∷ b))
        × (take n xs ≡ a ++ (x ∷ []))
        × (length b < length xs)
  cut_at zero xs h p = elim p [ ]
  cut_at (suc n) [] h p = elim h [ ]
  cut_at (suc zero) (x ∷ xs) h p = ([], x, xs, refl, refl, omega arith)
  cut_at (suc (suc n)) (x ∷ xs) h p =
      let (a, y, b, e, f, l) = cut_at (suc n) xs (omega arith) (omega arith) in
      (x ∷ a, y, b, ap (λ l. x ∷ l) e, ap (λ l. x ∷ l) f, omega (arith, l))

-- Beyond a row of an ordered list lie exactly the rows after it.
pub keep-later :
    (desc : Bool) (a : List TickRow) (x : TickRow) (b : List TickRow)
    → Ordered desc (a ++ (x ∷ b))
    → keep (λ r. later desc (key_of x) (key_of r)) (a ++ (x ∷ b)) ≡ b
keep-later desc [] x b h =
    rw (later_irrefl desc (key_of x)) (keep-All (λ r. later desc (key_of x) (key_of r)) b h.0)
keep-later desc (r ∷ a) x b h =
    let before = (All-split _ a (x ∷ b) h.0).1.0 in
    rw (later_asym desc (key_of r) (key_of x) before) (keep-later desc a x b h.1)
