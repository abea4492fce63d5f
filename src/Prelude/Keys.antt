-- ===== src/Prelude/Keys.antt =====
-- Lists without repetition as keys of dictionaries and as sets.
use mathlib.Core.List.{append-nil, append_assoc}
use fufire_api_lunar.Prelude.{
  ◌+◌, ◌≤◌, ◌≡◌, ◌↔◌, inl, inr, refl, sym, ap, ◌∙◌, Bool, true, false, not, ◌&&◌, ◌||◌, some, List,
  [], ◌∷◌, ◌++◌, map, arith, length, length-append, In, Bool-cases, Eq, ◌==◌, eq_ℕ,
}
use fufire_api_lunar.Prelude.Dict.{
  get, put, has, put_all, from_pairs, contains, add_all, to_set, fresh, all_different, is_subset,
  same_set, difference,
}

-- The keys of a dictionary, in order.
abbrev pub keys : {K : Type 0} {V : Type 0} → List (K × V) → List K
keys [] = []
keys ((k, v) ∷ d) = k ∷ keys d

pub keys-append : {K : Type 0} {V : Type 0} (d r : List (K × V)) → keys (d ++ r) ≡ keys d ++ keys r
keys-append [] r = refl
keys-append ((k, v) ∷ d) r = ap (λ l. k ∷ l) (keys-append d r)

module _ {K : Type 0} ⦃e : Eq K⦄ where
  pub contains-append :
      (xs ys : List K) (k : K) → contains (xs ++ ys) k ≡ (contains xs k || contains ys k)
  contains-append [] ys k = refl
  contains-append (x ∷ xs) ys k = ground (arith, contains-append xs ys k)

  pub contains_iff : (xs : List K) (k : K) → (contains xs k ≡ true) ↔ In k xs
  contains_iff [] k = ground arith
  contains_iff (x ∷ xs) k = ground (arith, contains_iff xs k, e.beq_iff x k)

  pub fresh-append :
      (seen xs ys : List K) → fresh seen (xs ++ ys) ≡ (fresh seen xs && fresh (seen ++ xs) ys)
  fresh-append seen [] ys = rw (append-nil seen)
  fresh-append seen (x ∷ xs) ys =
      rw (fresh-append (seen ++ x ∷ []) xs ys, append_assoc seen (x ∷ []) xs)
        (elim (Bool-cases (contains seen x)) [ inl t ↦ rw t | inr f ↦ rw f ])

  -- An item of a list that is fresh after `seen` is not in `seen`.
  pub fresh-contains :
      (seen xs : List K) (k : K)
      → fresh seen xs ≡ true
      → contains xs k ≡ true
      → contains seen k ≡ false
  fresh-contains seen [] k h m = cc
  fresh-contains seen (x ∷ xs) k h m = elim (Bool-cases (contains xs k)) [
    | inl t ↦
        let later = fresh-contains (seen ++ x ∷ []) xs k (ground arith) t in
        ground (arith, later, contains-append seen (x ∷ []) k)
    | inr f ↦ ground (arith, e.beq_iff x k)
  ]

  -- No item occurs again later.
  abbrev pub unrepeated : List K → Bool
  unrepeated [] = true
  unrepeated (x ∷ xs) = not (contains xs x) && unrepeated xs

  pub fresh-unrepeated : (seen xs : List K) → fresh seen xs ≡ true → unrepeated xs ≡ true
  fresh-unrepeated seen [] h = refl
  fresh-unrepeated seen (x ∷ xs) h =
      let rest : fresh (seen ++ x ∷ []) xs ≡ true = ground arith in
      let tail = fresh-unrepeated (seen ++ x ∷ []) xs rest in
      elim (Bool-cases (contains xs x)) [
        | inl t ↦ absurd (
            let out = fresh-contains (seen ++ x ∷ []) xs x rest t in
            ground (arith, out, contains-append seen (x ∷ []) x, e.beq_iff x x))
        | inr f ↦ rw (f, tail)
      ]

  pub unrepeated-fresh :
      (seen xs : List K)
      → unrepeated xs ≡ true
      → ((k : K) → contains xs k ≡ true → contains seen k ≡ false)
      → fresh seen xs ≡ true
  unrepeated-fresh seen [] h f = refl
  unrepeated-fresh seen (x ∷ xs) h f = rw (f x (ground (arith, e.beq_iff x x))) (
      unrepeated-fresh (seen ++ x ∷ []) xs (ground arith) (λ k m.
        let out : contains seen k ≡ false = f k (ground arith) in
        ground (arith, out, contains-append seen (x ∷ []) k, e.beq_iff x k)))

  pub unrepeated-append :
      (xs ys : List K)
      → unrepeated xs ≡ true
      → unrepeated ys ≡ true
      → ((k : K) → contains xs k ≡ true → contains ys k ≡ false)
      → unrepeated (xs ++ ys) ≡ true
  unrepeated-append [] ys h k f = k
  unrepeated-append (x ∷ xs) ys h k f =
      let out : contains ys x ≡ false = f x (ground (arith, e.beq_iff x x)) in
      let rest : unrepeated (xs ++ ys) ≡ true =
        unrepeated-append xs ys (ground arith) k (λ j m. f j (ground arith)) in
      ground (arith, out, rest, contains-append xs ys x)

  length-add_all : (s xs : List K) → length (add_all s xs) ≤ length s + length xs
  length-add_all s [] = omega arith
  length-add_all s (x ∷ xs) = elim (Bool-cases (contains s x)) [
    | inl t ↦ rw t (omega (arith, length-add_all s xs))
    | inr f ↦ rw f (omega (arith, length-add_all (s ++ x ∷ []) xs, length-append s (x ∷ [])))
  ]

  -- A set is as long as the list that it was made from just when that repeats nothing.
  length-add_all-fresh :
      (s xs : List K) → (length (add_all s xs) == length s + length xs) ≡ fresh s xs
  length-add_all-fresh s [] = ground arith
  length-add_all-fresh s (x ∷ xs) = elim (Bool-cases (contains s x)) [
    | inl t ↦ rw t (ground (arith, length-add_all s xs))
    | inr f ↦ rw f (ground (arith, length-add_all-fresh (s ++ x ∷ []) xs, length-append s (x ∷ [])))
  ]

  pub length-to_set : (xs : List K) → (length (to_set xs) == length xs) ≡ all_different xs
  length-to_set xs = ground (arith, length-add_all-fresh [] xs)

  contains-add_all :
      (s xs : List K) (k : K) → contains (add_all s xs) k ≡ (contains s k || contains xs k)
  contains-add_all s [] k = ground arith
  contains-add_all s (x ∷ xs) k = elim (Bool-cases (contains s x)) [
    | inl t ↦
        rw t (
          ground
            (arith, contains-add_all s xs k, contains_iff s x, contains_iff s k, e.beq_iff x k))
    | inr f ↦
        rw f (ground (arith, contains-add_all (s ++ x ∷ []) xs k, contains-append s (x ∷ []) k))
  ]

  pub contains-to_set : (xs : List K) (k : K) → contains (to_set xs) k ≡ contains xs k
  contains-to_set xs k = contains-add_all [] xs k

  pub contains-difference :
      (s t : List K) (k : K) → contains (difference s t) k ≡ (contains s k && not (contains t k))
  contains-difference [] t k = refl
  contains-difference (x ∷ xs) t k =
      ground (arith, contains-difference xs t k, contains_iff t x, contains_iff t k, e.beq_iff x k)

  pub is_subset_iff :
      (s t : List K)
      → (is_subset s t ≡ true) ↔ ((k : K) → contains s k ≡ true → contains t k ≡ true)
  is_subset_iff s t = (sound s, complete s)
    where
      sound :
          (s : List K) → is_subset s t ≡ true → (k : K) → contains s k ≡ true → contains t k ≡ true
      sound [] h k m = cc
      sound (x ∷ xs) h k m =
          let tail : contains xs k ≡ true → contains t k ≡ true = sound xs (ground arith) k in
          ground (arith, tail, e.beq_iff x k)

      complete :
          (s : List K)
          → ((k : K) → contains s k ≡ true → contains t k ≡ true)
          → is_subset s t ≡ true
      complete [] f = refl
      complete (x ∷ xs) f =
          rw (f x (ground (arith, e.beq_iff x x)), complete xs (λ k m. f k (ground arith)))

  -- Sets are equal just when they have the same items.
  pub same_set_iff :
      (s t : List K) → (same_set s t ≡ true) ↔ ((k : K) → contains s k ≡ contains t k)
  same_set_iff s t = (sound, complete)
    where
      sound : same_set s t ≡ true → (k : K) → contains s k ≡ contains t k
      sound h k =
          let there : contains s k ≡ true → contains t k ≡ true =
            (is_subset_iff s t).0 (ground arith) k in
          let back : contains t k ≡ true → contains s k ≡ true =
            (is_subset_iff t s).0 (ground arith) k in
          ground (arith, there, back)

      complete : ((k : K) → contains s k ≡ contains t k) → same_set s t ≡ true
      complete f =
          rw ((is_subset_iff s t).1 (λ k m. sym (f k) ∙ m), (is_subset_iff t s).1 (λ k m. f k ∙ m))

module _ {K : Type 0} {V : Type 0} ⦃e : Eq K⦄ where
  pub has-contains : (d : List (K × V)) (k : K) → has d k ≡ contains (keys d) k
  has-contains [] k = refl
  has-contains ((j, v) ∷ d) k = rw (has-contains d k)

  pub put-append :
      (d : List (K × V)) (k : K) (v : V) → has d k ≡ false → put d k v ≡ d ++ (k, v) ∷ []
  put-append [] k v h = refl
  put-append ((j, w) ∷ d) k v h = elim (Bool-cases (j == k)) [
    | inl t ↦ absurd (ground arith)
    | inr f ↦ rw f (ap (λ l. (j, w) ∷ l) (put-append d k v (ground arith)))
  ]

  put_all-append : (d r : List (K × V)) → fresh (keys d) (keys r) ≡ true → put_all d r ≡ d ++ r
  put_all-append d [] h = sym (append-nil d)
  put_all-append d ((k, v) ∷ r) h = rw (put-append d k v (has-contains d k ∙ ground arith)) (
      put_all-append (d ++ (k, v) ∷ []) r (rw (keys-append d ((k, v) ∷ [])) (ground arith))
      ∙ append_assoc d ((k, v) ∷ []) r)

  -- A dictionary made from pairs with different keys holds these pairs.
  pub from_pairs_different : (r : List (K × V)) → all_different (keys r) ≡ true → from_pairs r ≡ r
  from_pairs_different r h = put_all-append [] r h

  pub get-has : (d : List (K × V)) (k : K) (v : V) → get d k ≡ some v → has d k ≡ true
  get-has [] k v h = cc
  get-has ((j, w) ∷ d) k v h = elim (Bool-cases (j == k)) [
    | inl t ↦ rw t
    | inr f ↦ rw f (get-has d k v (ground arith))
  ]

  pub has-get : (d : List (K × V)) (k : K) → has d k ≡ true → (v : V) × (get d k ≡ some v)
  has-get [] k h = absurd (cc h)
  has-get ((j, w) ∷ d) k h = elim (Bool-cases (j == k)) [
    | inl t ↦ (w, rw t refl)
    | inr f ↦ let (v, e) = has-get d k (ground arith) in (v, rw f e)
  ]

-- Records indexed by a key of theirs, as `{key(x): x for x in xs}` does.
module _ {K : Type 0} {A : Type 0} ⦃e : Eq K⦄ (key : A → K) where
  abbrev pub indexed : List A → List (K × A)
  indexed xs = map (λ x. (key x, x)) xs

  keys-indexed : (xs : List A) → keys (indexed xs) ≡ map key xs
  keys-indexed [] = refl
  keys-indexed (x ∷ xs) = ap (λ l. key x ∷ l) (keys-indexed xs)

  pub from_pairs-indexed :
      (xs : List A) → all_different (map key xs) ≡ true → from_pairs (indexed xs) ≡ indexed xs
  from_pairs-indexed xs h = from_pairs_different (indexed xs) (rw (keys-indexed xs) h)

  pub get-indexed :
      (xs : List A) (k : K) (x : A) → get (indexed xs) k ≡ some x → In x xs × (key x ≡ k)
  get-indexed [] k x h = cc
  get-indexed (y ∷ ys) k x h = elim (Bool-cases (key y == k)) [
    | inl t ↦
        let same : y ≡ x = ground arith in
        (inl (sym same), ap key (sym same) ∙ (e.beq_iff (key y) k).0 t)
    | inr f ↦ let later = get-indexed ys k x (ground arith) in (inr later.0, later.1)
  ]

  contains-In : (xs : List A) (x : A) → In x xs → contains (map key xs) (key x) ≡ true
  contains-In [] x h = elim h [ ]
  contains-In (y ∷ ys) x (inl h) = rw h (ground (arith, e.beq_iff (key y) (key y)))
  contains-In (y ∷ ys) x (inr h) = ground (arith, contains-In ys x h)

  get-fresh :
      (seen : List K) (xs : List A) (x : A)
      → fresh seen (map key xs) ≡ true
      → In x xs
      → get (indexed xs) (key x) ≡ some x
  get-fresh seen [] x h m = elim m [ ]
  get-fresh seen (y ∷ ys) x h (inl m) = rw m (ground (arith, e.beq_iff (key y) (key y)))
  get-fresh seen (y ∷ ys) x h (inr m) =
      let rest : fresh (seen ++ key y ∷ []) (map key ys) ≡ true = ground arith in
      let out =
        fresh-contains (seen ++ key y ∷ []) (map key ys) (key x) rest (contains-In ys x m) in
      let other : (key y == key x) ≡ false =
        ground (arith, out, contains-append seen (key y ∷ []) (key x)) in
      rw other (get-fresh (seen ++ key y ∷ []) ys x rest m)

  -- Where the keys are different, a record is found under its key.
  pub get-indexed-In :
      (xs : List A) (x : A)
      → all_different (map key xs) ≡ true
      → In x xs
      → get (indexed xs) (key x) ≡ some x
  get-indexed-In xs x h m = get-fresh [] xs x h m
