-- ===== src/Match/Evidence/Complete.antt =====
-- Blocks and ledger of one pair belong together.
use fufire_api_lunar.Prelude.{
  ◌≡◌, ◌⊎◌, refl, sym, inl, inr, String, true, List, [], ◌∷◌, ◌++◌, Result, ok, err,
  blocked_language, bind_ok, result_inj, arith, ap, ◌∙◌, eq_String,
}
use fufire_api_lunar.Prelude.Dict.{contains, same_set}
use fufire_api_lunar.Prelude.Keys.{unrepeated, same_set_iff}
use fufire_api_lunar.Match.Values.{EvidenceEntry, WarningEntry, TextBlock, calculated}
use fufire_api_lunar.Match.Individual.{IndividualAnalysis}
use fufire_api_lunar.Match.Pair.{
  PairAnalysis, pair_layer_evidence_id, layers, layer, day_master_facts,
  classify_day_master_relation, day_master_comparison, spouse_palace_day_branch,
  wuxing_vector_comparison, analyze_pair,
}
use fufire_api_lunar.Match.Guard.{Python}
use fufire_api_lunar.Match.Outcomes.{Guarded, Guarded-bind}
use fufire_api_lunar.Match.Statements.{
  Statement, day_master_statements, spouse_palace_statements, wuxing_vector_statements,
}
use fufire_api_lunar.Match.Text.{
  warning_evidence_id, layer_blocks, warning_blocks, build_text_blocks,
}
use fufire_api_lunar.Match.Text.Outcome.{
  references, references-append, layer_blocks-Guarded, warning_ids, warning_blocks-Guarded,
}
use fufire_api_lunar.Match.Evidence.{
  add_layers, add_entries, entries_of_warnings, build_evidence_ledger,
}
use fufire_api_lunar.Match.Evidence.Covers.{
  ids, Added, Added-append, add_entries-Guarded, add_layers-Guarded,
}

abbrev first_id : String
first_id = pair_layer_evidence_id "day_master_comparison"

abbrev second_id : String
second_id = pair_layer_evidence_id "spouse_palace_day_branch"

abbrev third_id : String
third_id = pair_layer_evidence_id "wuxing_vector_comparison"

entries_of_warnings-ids : (ws : List WarningEntry) → ids (entries_of_warnings ws) ≡ warning_ids ws
entries_of_warnings-ids [] = refl
entries_of_warnings-ids (w ∷ ws) = ap (λ l. warning_evidence_id w ∷ l) (entries_of_warnings-ids ws)

module _ {F : Type 0} (python : Python F) (a b : IndividualAnalysis F) where
  abbrev pub pair_of : String → PairAnalysis F
  pair_of relation = record {
    day_master_comparison =
        layer "day_master_comparison" (day_master_facts a b relation) calculated;
    spouse_palace_day_branch = spouse_palace_day_branch a b;
    wuxing_vector_comparison = wuxing_vector_comparison a b;
  }

  analyze_pair-pair_of :
      (pair : PairAnalysis F)
      → analyze_pair a b ≡ ok pair
      → (relation : String) × (pair ≡ pair_of relation)
  unfolding analyze_pair day_master_comparison
  analyze_pair-pair_of pair h =
      let (first, e, rest) = bind_ok (day_master_comparison a b) _ pair h in
      let (relation, r, made) =
        bind_ok (classify_day_master_relation a.day_master_element b.day_master_element) _ first
          e in
      (
        relation,
        sym (result_inj rest)
            ∙ ap
                (λ l. record {
                  day_master_comparison = l;
                  spouse_palace_day_branch = spouse_palace_day_branch a b;
                  wuxing_vector_comparison = wuxing_vector_comparison a b;
                })
                (sym (result_inj made)),
      )

  day_master_built :
      (relation : String)
      → (s : Statement) × (t : Statement) × (day_master_statements python
            (pair_of relation).day_master_comparison
          ≡ ok (s ∷ t ∷ []))
  unfolding day_master_statements
  day_master_built relation = (_, _, refl)

  spouse_palace_built :
      (s : Statement) × (t : Statement) × (spouse_palace_statements python
          (spouse_palace_day_branch a b)
        ≡ ok (s ∷ t ∷ []))
  unfolding spouse_palace_statements spouse_palace_day_branch
  spouse_palace_built = (_, _, refl)

  wuxing_vector_built :
      (s : Statement) × (wuxing_vector_statements python (wuxing_vector_comparison a b)
        ≡ ok (s ∷ []))
  unfolding wuxing_vector_statements wuxing_vector_comparison
  wuxing_vector_built = (_, refl)

  layer_blocks_pair :
      (relation : String)
      → Guarded (layer_blocks python (layers (pair_of relation))) (λ blocks.
        references blocks ≡ first_id ∷ first_id ∷ second_id ∷ second_id ∷ third_id ∷ [])
  unfolding spouse_palace_day_branch wuxing_vector_comparison
  layer_blocks_pair relation =
      let pair = pair_of relation in
      let (s₁, t₁, made₁) = day_master_built relation in
      let (s₂, t₂, made₂) = spouse_palace_built in
      let (s₃, made₃) = wuxing_vector_built in
      layer_blocks-Guarded python "day_master_comparison" pair.day_master_comparison
        (("spouse_palace_day_branch", pair.spouse_palace_day_branch)
          ∷ ("wuxing_vector_comparison", pair.wuxing_vector_comparison)
          ∷ [])
        (day_master_statements python) (s₁ ∷ t₁ ∷ []) (second_id ∷ second_id ∷ third_id ∷ []) refl
        made₁
        (layer_blocks-Guarded python "spouse_palace_day_branch" pair.spouse_palace_day_branch
          (("wuxing_vector_comparison", pair.wuxing_vector_comparison) ∷ [])
          (spouse_palace_statements python) (s₂ ∷ t₂ ∷ []) (third_id ∷ []) refl made₂
          (layer_blocks-Guarded python "wuxing_vector_comparison" pair.wuxing_vector_comparison []
            (wuxing_vector_statements python) (s₃ ∷ []) [] refl made₃ (inr ([], refl, refl))))

  add_layers_pair :
      (relation : String)
      → Guarded
          (add_layers python [] (layers (pair_of relation)))
          (Added [] (first_id ∷ second_id ∷ third_id ∷ []))
  unfolding spouse_palace_day_branch wuxing_vector_comparison
  add_layers_pair relation =
      let pair = pair_of relation in
      add_layers-Guarded python [] "day_master_comparison" pair.day_master_comparison
        (("spouse_palace_day_branch", pair.spouse_palace_day_branch)
          ∷ ("wuxing_vector_comparison", pair.wuxing_vector_comparison)
          ∷ [])
        _ (second_id ∷ third_id ∷ []) refl
        (λ now.
          add_layers-Guarded python now "spouse_palace_day_branch" pair.spouse_palace_day_branch
            (("wuxing_vector_comparison", pair.wuxing_vector_comparison) ∷ []) _ (third_id ∷ [])
            refl
            (λ later.
              add_layers-Guarded python later "wuxing_vector_comparison"
                pair.wuxing_vector_comparison [] _ [] refl
                (λ last. inr (
                  ([], last),
                  refl,
                  record { once = refl; new = λ k. refl; known = λ k. ground arith },
                ))))

  -- The evidence ids of a pair with warnings.
  abbrev expected : List WarningEntry → List String
  expected ws = (first_id ∷ second_id ∷ third_id ∷ []) ++ warning_ids ws

  blocks_references :
      (relation : String) (ws : List WarningEntry)
      → Guarded
          (build_text_blocks python (pair_of relation) ws)
          (λ blocks. (k : String) → contains (references blocks) k ≡ contains (expected ws) k)
  unfolding build_text_blocks
  blocks_references relation ws =
      Guarded-bind (layer_blocks python (layers (pair_of relation))) _ (layer_blocks_pair relation)
        (λ bs h.
          Guarded-bind (warning_blocks python [] ws) _ (warning_blocks-Guarded python [] ws)
            (λ cs r. inr (
              bs ++ cs,
              refl,
              λ k. rw (references-append bs cs, h) (ground (arith, r.sound k, r.complete k)),
            )))

  ledger_ids :
      (relation : String) (ws : List WarningEntry)
      → Guarded (build_evidence_ledger python (pair_of relation) ws) (λ ledger.
        (unrepeated (ids ledger) ≡ true)
        × ((k : String) → contains (ids ledger) k ≡ contains (expected ws) k))
  unfolding build_evidence_ledger
  ledger_ids relation ws =
      Guarded-bind (add_layers python [] (layers (pair_of relation))) _ (add_layers_pair relation)
        (λ r a.
          Guarded-bind (add_entries python r.1 (entries_of_warnings ws)) _
            (add_entries-Guarded python r.1 (entries_of_warnings ws))
            (λ s b.
              let all =
                Added-append [] (first_id ∷ second_id ∷ third_id ∷ []) (warning_ids ws) r s a
                  (rw (sym (entries_of_warnings-ids ws)) b) in
              inr (r.0 ++ s.0, refl, (all.once, λ k. ground (arith, all.new k)))))

-- For any two analyses whose pair analysis returns, and any warnings: the text blocks and the ledger are
-- both returned, unless a text holds blocked language, and then no id occurs twice in the ledger, and the
-- ids of its entries are just the evidence ids that the blocks refer to.
pub pair_evidence :
    {F : Type 0} (python : Python F) (a b : IndividualAnalysis F) (pair : PairAnalysis F)
    (ws : List WarningEntry)
    → analyze_pair a b ≡ ok pair
    → (build_text_blocks python pair ws ≡ err blocked_language)
      ⊎ (((blocks : List TextBlock) × (build_text_blocks python pair ws ≡ ok blocks)
            × (build_evidence_ledger python pair ws ≡ err blocked_language))
          ⊎ ((blocks : List TextBlock) × (ledger : List EvidenceEntry) × (build_text_blocks python
                  pair ws
                ≡ ok blocks)
              × (build_evidence_ledger python pair ws ≡ ok ledger)
              × (unrepeated (ids ledger) ≡ true)
              × (same_set (references blocks) (ids ledger) ≡ true)))
pair_evidence python a b pair ws h =
    let (relation, form) = analyze_pair-pair_of python a b pair h in
    rw form (
      together (expected python a b ws) (blocks_references python a b relation ws)
        (ledger_ids python a b relation ws))
  where
    together :
        {built : Result (List TextBlock)} {ledgered : Result (List EvidenceEntry)}
        (all : List String)
        → Guarded built (λ blocks. (k : String) → contains (references blocks) k ≡ contains all k)
        → Guarded ledgered (λ ledger.
          (unrepeated (ids ledger) ≡ true)
          × ((k : String) → contains (ids ledger) k ≡ contains all k))
        → (built ≡ err blocked_language)
          ⊎ (((blocks : List TextBlock) × (built ≡ ok blocks) × (ledgered ≡ err blocked_language))
              ⊎ ((blocks : List TextBlock) × (ledger : List EvidenceEntry) × (built ≡ ok blocks)
                  × (ledgered ≡ ok ledger)
                  × (unrepeated (ids ledger) ≡ true)
                  × (same_set (references blocks) (ids ledger) ≡ true)))
    together all (inl e) l = inl e
    together all (inr (blocks, b, refers)) (inl e) = inr (inl (blocks, b, e))
    together all (inr (blocks, e, refers)) (inr (ledger, f, (once, has_ids))) = inr (
        inr (
          blocks,
          ledger,
          e,
          f,
          once,
          (same_set_iff (references blocks) (ids ledger)).1 (λ k. refers k ∙ sym (has_ids k)),
        ))
