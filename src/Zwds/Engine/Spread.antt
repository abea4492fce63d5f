-- ===== src/Zwds/Engine/Spread.antt =====
-- The ids of the stars, spread over branches: none stands on two branches, or twice on one.
use fufire_api_lunar.Prelude.{
  ℕ, ◌≡◌, refl, sym, ap, ◌∙◌, String, true, false, List, [], ◌∷◌, ◌++◌, map, arith, ◌==◌, eq_ℕ,
  eq_String, beq_eq, Bool-cases, inl, inr,
}
use fufire_api_lunar.Prelude.Dict.{contains}
use fufire_api_lunar.Prelude.Keys.{contains-append, unrepeated, unrepeated-append}
use fufire_api_lunar.Zwds.Stars.Placed.{StarBranch}
use fufire_api_lunar.Zwds.Engine.{placement_id_of}
use fufire_api_lunar.Zwds.Engine.Placing.{ids_at}

abbrev pub placement_ids_of : List StarBranch → List String
placement_ids_of stars = map placement_id_of stars

contains-ids_at :
    (b : ℕ) (stars : List StarBranch) (k : String)
    → contains (ids_at b stars) k ≡ true
    → contains (placement_ids_of stars) k ≡ true
contains-ids_at b [] k h = h
contains-ids_at b (s ∷ ss) k h =
    let later : contains (ids_at b ss) k ≡ true → contains (placement_ids_of ss) k ≡ true =
      contains-ids_at b ss k in
    ground (arith, later)

unrepeated-ids_at :
    (b : ℕ) (stars : List StarBranch)
    → unrepeated (placement_ids_of stars) ≡ true
    → unrepeated (ids_at b stars) ≡ true
unrepeated-ids_at b [] h = refl
unrepeated-ids_at b (s ∷ ss) h =
    let rest = unrepeated-ids_at b ss (ground arith) in
    let later : contains (ids_at b ss) (placement_id_of s) ≡ true
        → contains (placement_ids_of ss) (placement_id_of s) ≡ true =
      contains-ids_at b ss (placement_id_of s) in
    ground (arith, rest, later)

-- An id on two branches is one on one branch.
ids_at-branch :
    (b c : ℕ) (stars : List StarBranch) (k : String)
    → unrepeated (placement_ids_of stars) ≡ true
    → contains (ids_at b stars) k ≡ true
    → contains (ids_at c stars) k ≡ true
    → (b == c) ≡ true
ids_at-branch b c [] k h hb hc = cc
ids_at-branch b c (s ∷ ss) k h hb hc =
    let rest : contains (ids_at b ss) k ≡ true → contains (ids_at c ss) k ≡ true → (b == c) ≡ true =
      ids_at-branch b c ss k (ground arith) in
    let at_b : contains (ids_at b ss) k ≡ true → contains (placement_ids_of ss) k ≡ true =
      contains-ids_at b ss k in
    let at_c : contains (ids_at c ss) k ≡ true → contains (placement_ids_of ss) k ≡ true =
      contains-ids_at c ss k in
    elim (Bool-cases (placement_id_of s == k)) [
      | inl t ↦
          let same = beq_eq (placement_id_of s) k t in
          let out : contains (placement_ids_of ss) k ≡ false =
            ap (contains (placement_ids_of ss)) (sym same) ∙ ground arith in
          ground (arith, at_b, at_c, out)
      | inr f ↦ ground (arith, rest)
    ]

abbrev pub spread : List ℕ → List StarBranch → List String
spread [] stars = []
spread (b ∷ bs) stars = ids_at b stars ++ spread bs stars

spread-branch :
    (b : ℕ) (bs : List ℕ) (stars : List StarBranch) (k : String)
    → unrepeated (placement_ids_of stars) ≡ true
    → contains (ids_at b stars) k ≡ true
    → contains (spread bs stars) k ≡ true
    → contains bs b ≡ true
spread-branch b [] stars k h hb hs = cc
spread-branch b (c ∷ cs) stars k h hb hs = elim (Bool-cases (contains (ids_at c stars) k)) [
  | inl t ↦ let same = ids_at-branch c b stars k h t hb in rw same
  | inr f ↦
      let rest =
        spread-branch b cs stars k h hb
          (ground (arith, contains-append (ids_at c stars) (spread cs stars) k)) in
      ground (arith, rest)
]

pub unrepeated-spread :
    (bs : List ℕ) (stars : List StarBranch)
    → unrepeated bs ≡ true
    → unrepeated (placement_ids_of stars) ≡ true
    → unrepeated (spread bs stars) ≡ true
unrepeated-spread [] stars hb h = refl
unrepeated-spread (b ∷ bs) stars hb h =
    unrepeated-append (ids_at b stars) (spread bs stars) (unrepeated-ids_at b stars h)
      (unrepeated-spread bs stars (ground arith) h)
      (λ k m. elim (Bool-cases (contains (spread bs stars) k)) [
        | inl t ↦ let again = spread-branch b bs stars k h m t in absurd (ground (arith, again))
        | inr f ↦ f
      ])
