-- ===== src/Match/Text/Outcome.antt =====
-- The evidence ids that the text blocks refer to.
use mathlib.Core.List.{append_assoc}
use fufire_api_lunar.Prelude.{
  ◌≡◌, refl, sym, inl, inr, ℕ, suc, String, Bool, true, false, ◌||◌, List, [], ◌∷◌, ◌++◌, some,
  Result, ok, arith, ap, ◌∙◌, ◌==◌, eq_String, eq_pair, beq_eq, Bool-cases,
}
use fufire_api_lunar.Prelude.Dict.{get, contains}
use fufire_api_lunar.Match.Values.{WarningCode, code_value, PairLayer, WarningEntry, TextBlock}
use fufire_api_lunar.Match.Guard.{Python, guard_all}
use fufire_api_lunar.Match.Outcomes.{Guarded, Guarded-bind, Guarded-map, guard_all-Guarded}
use fufire_api_lunar.Match.Statements.{concat, Statement}
use fufire_api_lunar.Match.Text.{
  warning_evidence_id, eq_code, block_strings, statement_builders, make_block, statement_block,
  statement_blocks, layer_blocks, warning_block, dedupe_key, warning_blocks,
}

abbrev pub references : List TextBlock → List String
references [] = []
references (block ∷ blocks) = block.evidence_ids ++ references blocks

pub references-append :
    (xs ys : List TextBlock) → references (xs ++ ys) ≡ references xs ++ references ys
references-append [] ys = refl
references-append (x ∷ xs) ys =
    ap (λ l. x.evidence_ids ++ l) (references-append xs ys)
    ∙ sym (append_assoc x.evidence_ids (references xs) (references ys))

-- The evidence ids of a layer, once for each of its statements.
abbrev pub repeated : List String → List Statement → List String
repeated ids [] = []
repeated ids (s ∷ r) = ids ++ repeated ids r

module _ {F : Type 0} (python : Python F) where
  make_block-Guarded : (block : TextBlock) → Guarded (make_block python block) (λ b. b ≡ block)
  make_block-Guarded block =
      Guarded-bind (guard_all python (block_strings block)) _
        (guard_all-Guarded python (block_strings block)) (λ clean _. inr (block, refl, refl))

  statement_blocks-Guarded :
      (name : String) (layer : PairLayer F) (ordinal : ℕ) (statements : List Statement)
      → Guarded
          (statement_blocks python name layer ordinal statements)
          (λ blocks. references blocks ≡ repeated layer.evidence_ids statements)
  statement_blocks-Guarded name layer ordinal [] = inr ([], refl, refl)
  statement_blocks-Guarded name layer ordinal (s ∷ r) =
      Guarded-bind (make_block python (statement_block name layer ordinal s)) _
        (make_block-Guarded (statement_block name layer ordinal s))
        (λ b same.
          Guarded-bind (statement_blocks python name layer (suc ordinal) r) _
            (statement_blocks-Guarded name layer (suc ordinal) r)
            (λ bs h. inr (b ∷ bs, refl, rw (same, h) refl)))

  pub layer_blocks-Guarded :
      (name : String) (layer : PairLayer F) (rest : List (String × PairLayer F))
      (builder : PairLayer F → Result (List Statement)) (statements : List Statement)
      (ids : List String)
      → get (statement_builders python) name ≡ some builder
      → builder layer ≡ ok statements
      → Guarded (layer_blocks python rest) (λ blocks. references blocks ≡ ids)
      → Guarded
          (layer_blocks python ((name, layer) ∷ rest))
          (λ blocks. references blocks ≡ repeated layer.evidence_ids statements ++ ids)
  layer_blocks-Guarded name layer rest builder statements ids found built more =
      rw (found, built)
        (Guarded-bind (statement_blocks python name layer 1 statements) _
          (statement_blocks-Guarded name layer 1 statements)
          (λ bs h.
            Guarded-bind (layer_blocks python rest) _ more
              (λ cs k. inr (bs ++ cs, refl, references-append bs cs ∙ rw (h, k) refl))))

-- The id of a warning by its key.
abbrev pub id_of : WarningCode × String → String
id_of key = concat ("ev:warning:" ∷ key.1 ∷ ":" ∷ code_value key.0 ∷ [])

abbrev pub seen_ids : List (WarningCode × String) → List String
seen_ids [] = []
seen_ids (key ∷ seen) = id_of key ∷ seen_ids seen

abbrev pub warning_ids : List WarningEntry → List String
warning_ids [] = []
warning_ids (w ∷ ws) = warning_evidence_id w ∷ warning_ids ws

-- A key that was seen has its id among the ids of those seen.
seen_id :
    (seen : List (WarningCode × String)) (key : WarningCode × String)
    → contains seen key ≡ true
    → contains (seen_ids seen) (id_of key) ≡ true
seen_id [] key h = absurd (cc h)
seen_id (s ∷ seen) key h = elim (Bool-cases (s == key)) [
  | inl t ↦ rw (beq_eq s key t) (ground (arith, eq_String.beq_iff (id_of key) (id_of key)))
  | inr f ↦ ground (arith, seen_id seen key (ground arith))
]

-- What the blocks of warnings refer to, where some keys were seen before: ids of these warnings only, and
-- each of them that was not seen.
pub record Referred (seen : List (WarningCode × String)) (ws : List WarningEntry)
    (blocks : List TextBlock) : Type 0 where
  pub sound :
      (k : String) → contains (references blocks) k ≡ true → contains (warning_ids ws) k ≡ true
  pub complete :
      (k : String)
      → contains (warning_ids ws) k ≡ true
      → (contains (references blocks) k || contains (seen_ids seen) k) ≡ true

skipped-Referred :
    (seen : List (WarningCode × String)) (w : WarningEntry) (ws : List WarningEntry)
    (blocks : List TextBlock)
    → contains seen (dedupe_key w) ≡ true
    → Referred seen ws blocks
    → Referred seen (w ∷ ws) blocks
skipped-Referred seen w ws blocks old r = record {
  sound = λ k h. ground (arith, r.sound k h);
  complete = λ k h.
      let was = seen_id seen (dedupe_key w) old in
      elim (Bool-cases (contains (warning_ids ws) k)) [
        | inl t ↦ r.complete k t
        | inr f ↦ ground (arith, was, eq_String.beq_iff (warning_evidence_id w) k)
      ];
}

or_mono : (i a b : Bool) → (a ≡ true → b ≡ true) → (i || a) ≡ true → (i || b) ≡ true
or_mono i a b f h = ground arith

or_shuffle : (i a s : Bool) → (a || (i || s)) ≡ true → ((i || a) || s) ≡ true
or_shuffle i a s h = ground arith

or_first : (i a c s : Bool) → (i || c) ≡ true → c ≡ false → ((i || a) || s) ≡ true
or_first i a c s h f = ground arith

added-Referred :
    (seen : List (WarningCode × String)) (w : WarningEntry) (ws : List WarningEntry)
    (block : TextBlock) (blocks : List TextBlock)
    → block.evidence_ids ≡ warning_evidence_id w ∷ []
    → Referred (dedupe_key w ∷ seen) ws blocks
    → Referred seen (w ∷ ws) (block ∷ blocks)
added-Referred seen w ws block blocks e r = record {
  sound = λ k. rw e (λ h. or_mono (warning_evidence_id w == k) _ _ (r.sound k) h);
  complete = λ k. rw e (λ h. elim (Bool-cases (contains (warning_ids ws) k)) [
    | inl t ↦
        or_shuffle (warning_evidence_id w == k) (contains (references blocks) k)
          (contains (seen_ids seen) k) (r.complete k t)
    | inr f ↦ or_first (warning_evidence_id w == k) _ _ _ h f
  ]);
}

module _ {F : Type 0} (python : Python F) where
  pub warning_blocks-Guarded :
      (seen : List (WarningCode × String)) (ws : List WarningEntry)
      → Guarded (warning_blocks python seen ws) (Referred seen ws)
  warning_blocks-Guarded seen [] =
      inr ([], refl, record { sound = λ k h. h; complete = λ k h. absurd (cc h) })
  warning_blocks-Guarded seen (w ∷ ws) = elim (Bool-cases (contains seen (dedupe_key w))) [
    | inl t ↦ rw t (
        Guarded-map (warning_blocks python seen ws) (warning_blocks-Guarded seen ws)
          (λ bs r. skipped-Referred seen w ws bs t r))
    | inr f ↦ rw f (
        Guarded-bind (make_block python (warning_block w)) _
          (make_block-Guarded python (warning_block w))
          (λ b same.
            Guarded-bind (warning_blocks python (dedupe_key w ∷ seen) ws) _
              (warning_blocks-Guarded (dedupe_key w ∷ seen) ws)
              (λ bs r. inr (b ∷ bs, refl, added-Referred seen w ws b bs (rw same refl) r))))
  ]
