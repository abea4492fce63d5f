-- ===== src/Zwds/Validation/Sequence.antt =====
-- The palace set: the sequence indices are a permutation of 0 to 11, and the branches are different.
use fufire_api_lunar.Prelude.{
  ℕ, suc, ◌≤◌, ◌≡◌, ◌↔◌, refl, sym, ap, ◌∙◌, String, true, leb, ltb, List, [], ◌∷◌, map, ok,
  require_iff, require_then_iff, arith, All, ◌==◌, eq_ℕ, eq_String, Bool-cases, inl, inr,
  if◌then◌else◌,
}
use fufire_api_lunar.Prelude.Dict.{all_different}
use fufire_api_lunar.Prelude.Keys.{length-to_set}
use fufire_api_lunar.Zwds.Chart.{PalaceOut}
use fufire_api_lunar.Zwds.Validation.{fail, insert, sorted, same_list, range_12, check_palace_set}

-- How often a number occurs.
abbrev pub count : ℕ → List ℕ → ℕ
count i [] = 0
count i (x ∷ xs) = if x == i then suc (count i xs) else count i xs

count-insert : (i a : ℕ) (xs : List ℕ) → count i (insert a xs) ≡ count i (a ∷ xs)
count-insert i a [] = refl
count-insert i a (x ∷ xs) = elim (Bool-cases (leb a x)) [
  | inl t ↦ rw t
  | inr f ↦ rw f (ground (arith, count-insert i a xs))
]

count-sorted : (i : ℕ) (xs : List ℕ) → count i (sorted xs) ≡ count i xs
count-sorted i [] = refl
count-sorted i (x ∷ xs) = rw (count-insert i x (sorted xs), count-sorted i xs)

-- Each item is at most the next ones.
abbrev Ordered : List ℕ → Type 0
Ordered [] = Unit
Ordered (x ∷ xs) = All (λ y. x ≤ y) xs × Ordered xs

All-insert : (b a : ℕ) (xs : List ℕ) → b ≤ a → All (λ y. b ≤ y) xs → All (λ y. b ≤ y) (insert a xs)
All-insert b a [] h k = (h, tt)
All-insert b a (x ∷ xs) h (kx, ks) = elim (Bool-cases (leb a x)) [
  | inl t ↦ rw t (h, (kx, ks))
  | inr f ↦ rw f (kx, All-insert b a xs h ks)
]

All-le : (a b : ℕ) (xs : List ℕ) → a ≤ b → All (λ y. b ≤ y) xs → All (λ y. a ≤ y) xs
All-le a b [] h k = tt
All-le a b (x ∷ xs) h (kx, ks) = (omega arith, All-le a b xs h ks)

insert-Ordered : (a : ℕ) (xs : List ℕ) → Ordered xs → Ordered (insert a xs)
insert-Ordered a [] o = (tt, tt)
insert-Ordered a (x ∷ xs) (ox, os) = elim (Bool-cases (leb a x)) [
  | inl t ↦ rw t ((ground arith, All-le a x xs (ground arith) ox), (ox, os))
  | inr f ↦ rw f (All-insert x a xs (ground arith) ox, insert-Ordered a xs os)
]

sorted-Ordered : (xs : List ℕ) → Ordered (sorted xs)
sorted-Ordered [] = tt
sorted-Ordered (x ∷ xs) = insert-Ordered x (sorted xs) (sorted-Ordered xs)

count_below : (i : ℕ) (xs : List ℕ) → All (λ y. suc i ≤ y) xs → count i xs ≡ 0
count_below i [] k = refl
count_below i (x ∷ xs) (kx, ks) = ground (arith, count_below i xs ks)

-- The least item of an ordered list is no larger than an item of it.
head_le :
    (x y : ℕ) (xs ys : List ℕ) → All (λ z. y ≤ z) ys → count x (x ∷ xs) ≡ count x (y ∷ ys) → y ≤ x
head_le x y xs ys oy h = elim (Bool-cases (leb y x)) [
  | inl t ↦ ground arith
  | inr f ↦ absurd (ground (arith, count_below x ys (All-le (suc x) y ys (ground arith) oy)))
]

-- Two ordered lists with the same items, equally often, are one list.
Ordered-unique :
    (xs ys : List ℕ) → Ordered xs → Ordered ys → ((i : ℕ) → count i xs ≡ count i ys) → xs ≡ ys
Ordered-unique [] [] ox oy h = refl
Ordered-unique [] (y ∷ ys) ox oy h = absurd (ground (arith, h y))
Ordered-unique (x ∷ xs) [] ox oy h = absurd (ground (arith, h x))
Ordered-unique (x ∷ xs) (y ∷ ys) (ox, oxs) (oy, oys) h =
    let le = head_le x y xs ys oy (h x) in
    let ge = head_le y x ys xs ox (sym (h y)) in
    let same : x ≡ y = omega arith in
    rw same (ap (λ l. y ∷ l) (Ordered-unique xs ys oxs oys (λ i. ground (arith, h i))))

same_list_iff : (xs ys : List ℕ) → (same_list xs ys ≡ true) ↔ (xs ≡ ys)
same_list_iff [] [] = ground arith
same_list_iff [] (y ∷ ys) = (λ h. cc, λ h. cc)
same_list_iff (x ∷ xs) [] = (λ h. cc, λ h. cc)
same_list_iff (x ∷ xs) (y ∷ ys) = ground (arith, same_list_iff xs ys)

-- Each of 0 to 11 occurs once, and no other number.
abbrev pub Permutation : List ℕ → Type 0
Permutation xs = (i : ℕ) → count i xs ≡ (if ltb i 12 then 1 else 0)

pub count-range_12 : Permutation range_12
count-range_12 i = ground arith

sequence_iff : (xs : List ℕ) → (same_list (sorted xs) range_12 ≡ true) ↔ Permutation xs
sequence_iff xs = (sound, complete)
  where
    sound : same_list (sorted xs) range_12 ≡ true → Permutation xs
    sound h i =
        sym (count-sorted i xs)
        ∙ ap (count i) ((same_list_iff (sorted xs) range_12).0 h)
        ∙ count-range_12 i

    complete : Permutation xs → same_list (sorted xs) range_12 ≡ true
    complete h = (same_list_iff (sorted xs) range_12).1 (
        Ordered-unique (sorted xs) range_12 (sorted-Ordered xs) (omega arith)
          (λ i. count-sorted i xs ∙ h i ∙ sym (count-range_12 i)))

abbrev pub indices_of : List PalaceOut → List ℕ
indices_of palaces = map (λ (p : PalaceOut). p.sequence_index_0) palaces

abbrev pub branches_of : List PalaceOut → List String
branches_of palaces = map (λ (p : PalaceOut). p.branch_id) palaces

pub check_palace_set_iff :
    (ps : List PalaceOut)
    → (check_palace_set ps ≡ ok tt)
      ↔ (Permutation (indices_of ps) × (all_different (branches_of ps) ≡ true))
unfolding check_palace_set
check_palace_set_iff ps = (
  λ h.
      let checks = (require_then_iff _ (fail "palace_set") _).0 h in
      (
        (sequence_iff (indices_of ps)).0 checks.0,
        sym (length-to_set (branches_of ps)) ∙ (require_iff _ (fail "palace_set")).0 checks.1,
      ),
  λ h. (require_then_iff _ (fail "palace_set") _).1 (
    (sequence_iff (indices_of ps)).1 h.0,
    (require_iff _ (fail "palace_set")).1 (length-to_set (branches_of ps) ∙ h.1),
  ),
)
