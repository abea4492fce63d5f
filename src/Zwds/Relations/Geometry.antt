-- ===== src/Zwds/Relations/Geometry.antt =====
-- The relations of a palace as geometry on the ring of branches.
use fufire_api_lunar.Prelude.{
  ℕ, ◌+◌, ◌%◌, ◌≡◌, refl, String, List, [], ◌∷◌, ok, map, arith, result_inj, sym, ◌∙◌,
}
use fufire_api_lunar.Prelude.Int.{ℤ, pos, ◌+ℤ◌}
use fufire_api_lunar.Zwds.Domain.Modulo.{mod12, mod12-lt}
use fufire_api_lunar.Zwds.Domain.Branch
use fufire_api_lunar.Zwds.Domain.Branch.{BranchId}
use fufire_api_lunar.Zwds.Palace.{Palace}
use fufire_api_lunar.Zwds.Relations.{Relation, relation_for_branch, relations_for_palaces}

-- The relation record that is built.
abbrev pub around : String → ℕ → Relation
around role p = record {
  focus_palace_role_id = role;
  focus_branch_id = Branch.member_at p;
  harmony_1 = Branch.member_at (mod12 (pos p +ℤ pos 4));
  harmony_2 = Branch.member_at (mod12 (pos p +ℤ pos 8));
  opposition_branch_id = Branch.member_at (mod12 (pos p +ℤ pos 6));
}

pub relation_for_branch-around :
    (role : String) (x : ℤ) → relation_for_branch role x ≡ ok (around role (mod12 x))
unfolding relation_for_branch
relation_for_branch-around role x = rw (
  Branch.of_value-member_at (mod12 x) (mod12-lt x),
  Branch.of_value-member_at (mod12 (pos (mod12 x) +ℤ pos 4)) (mod12-lt _),
  Branch.of_value-member_at (mod12 (pos (mod12 x) +ℤ pos 8)) (mod12-lt _),
  Branch.of_value-member_at (mod12 (pos (mod12 x) +ℤ pos 6)) (mod12-lt _),
)

-- For every list of palaces there is one relation for each, in the given order.
pub relations_for_palaces-around :
    (palaces : List Palace)
    → relations_for_palaces palaces
      ≡ ok (map (λ p. around p.palace_role_id (mod12 (pos (Branch.value p.branch_id)))) palaces)
unfolding relations_for_palaces
relations_for_palaces-around [] = refl
relations_for_palaces-around (p ∷ ps) = rw (
  relation_for_branch-around p.palace_role_id (pos (Branch.value p.branch_id)),
  relations_for_palaces-around ps,
)

-- What the members of a relation are to its focus.
pub record IsSquare (x : ℤ) (r : Relation) : Type 0 where
  pub focus_is : Branch.value r.focus_branch_id ≡ mod12 x
  pub trine_1 : Branch.value r.harmony_1 ≡ (mod12 x + 4) % 12
  pub trine_2 : Branch.value r.harmony_2 ≡ (mod12 x + 8) % 12
  pub across : Branch.value r.opposition_branch_id ≡ (mod12 x + 6) % 12

mod12_small : (a k : ℕ) → mod12 (pos a +ℤ pos k) ≡ (a + k) % 12
unfolding mod12 ◌+ℤ◌
mod12_small a k = ground arith

around-IsSquare : (role : String) (x : ℤ) → IsSquare x (around role (mod12 x))
around-IsSquare role x = record {
  focus_is = Branch.value-member_at (mod12 x) (mod12-lt x);
  trine_1 = Branch.value-member_at _ (mod12-lt _) ∙ mod12_small (mod12 x) 4;
  trine_2 = Branch.value-member_at _ (mod12-lt _) ∙ mod12_small (mod12 x) 8;
  across = Branch.value-member_at _ (mod12-lt _) ∙ mod12_small (mod12 x) 6;
}

pub relation_for_branch-IsSquare :
    (role : String) (x : ℤ) (r : Relation) → relation_for_branch role x ≡ ok r → IsSquare x r
relation_for_branch-IsSquare role x r h =
    rw (result_inj (sym (relation_for_branch-around role x) ∙ h)) at (around-IsSquare role x)

mod12-value : (b : BranchId) → mod12 (pos (Branch.value b)) ≡ Branch.value b
unfolding mod12
mod12-value b = omega (arith, Branch.value-lt b)

-- The relations are symmetric: the palace opposite the opposite one is the focus, and each of the
-- focus and its two harmonies has the other two for its own harmonies.
pub relation_symmetric :
    (role : String) (x : ℤ) (r o t u : Relation)
    → relation_for_branch role x ≡ ok r
    → relation_for_branch role (pos (Branch.value r.opposition_branch_id)) ≡ ok o
    → relation_for_branch role (pos (Branch.value r.harmony_1)) ≡ ok t
    → relation_for_branch role (pos (Branch.value r.harmony_2)) ≡ ok u
    → (o.opposition_branch_id ≡ r.focus_branch_id)
      × (t.harmony_1 ≡ r.harmony_2)
      × (t.harmony_2 ≡ r.focus_branch_id)
      × (u.harmony_1 ≡ r.focus_branch_id)
      × (u.harmony_2 ≡ r.harmony_1)
relation_symmetric role x r o t u hr ho ht hu =
    let sr = relation_for_branch-IsSquare role x r hr in
    let so = relation_for_branch-IsSquare role _ o ho in
    let st = relation_for_branch-IsSquare role _ t ht in
    let su = relation_for_branch-IsSquare role _ u hu in
    (
      Branch.value_inj _ _
          (omega (arith, so.across, sr.across, sr.focus_is, mod12-value, mod12-lt x)),
      Branch.value_inj _ _
          (omega (arith, st.trine_1, sr.trine_1, sr.trine_2, mod12-value, mod12-lt x)),
      Branch.value_inj _ _
          (omega (arith, st.trine_2, sr.trine_1, sr.focus_is, mod12-value, mod12-lt x)),
      Branch.value_inj _ _
          (omega (arith, su.trine_1, sr.trine_2, sr.focus_is, mod12-value, mod12-lt x)),
      Branch.value_inj _ _
          (omega (arith, su.trine_2, sr.trine_1, sr.trine_2, mod12-value, mod12-lt x)),
    )
