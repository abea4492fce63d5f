-- ===== src/Match/Evidence/Covers.antt =====
-- The ledger has one entry for each evidence id that a text block refers to, and no other.
use fufire_api_lunar.Prelude.{
  ◌≡◌, refl, sym, inl, inr, String, true, false, not, ◌&&◌, ◌||◌, List, [], ◌∷◌, ◌++◌, some, arith,
  ap, ◌==◌, eq_String, beq_eq, Bool-cases,
}
use fufire_api_lunar.Prelude.Dict.{get, contains}
use fufire_api_lunar.Prelude.Keys.{contains-append, unrepeated, unrepeated-append}
use fufire_api_lunar.Match.Values.{EvidenceEntry, PairLayer}
use fufire_api_lunar.Match.Guard.{Python, guard_all}
use fufire_api_lunar.Match.Outcomes.{Guarded, Guarded-bind, Guarded-map, guard_all-Guarded}
use fufire_api_lunar.Match.Evidence.{
  LayerEvidence, pair_layer_evidence, entries_of_ids, entry_strings, make_entry, add_entries,
  add_layers,
}

abbrev pub ids : List EvidenceEntry → List String
ids [] = []
ids (entry ∷ entries) = entry.id ∷ ids entries

ids-append : (xs ys : List EvidenceEntry) → ids (xs ++ ys) ≡ ids xs ++ ids ys
ids-append [] ys = refl
ids-append (x ∷ xs) ys = ap (λ l. x.id ∷ l) (ids-append xs ys)

-- What a loop over ids appends, where some were seen before: one entry for each id that is new, and the
-- ids seen afterwards.
pub record Added (seen : List String) (all : List String)
    (result : List EvidenceEntry × List String) : Type 0 where
  pub once : unrepeated (ids result.0) ≡ true
  pub new : (k : String) → contains (ids result.0) k ≡ (contains all k && not (contains seen k))
  pub known : (k : String) → contains result.1 k ≡ (contains seen k || contains all k)

skipped-Added :
    (seen : List String) (id : String) (all : List String)
    (result : List EvidenceEntry × List String)
    → contains seen id ≡ true
    → Added seen all result
    → Added seen (id ∷ all) result
skipped-Added seen id all result old a = record {
  once = a.once;
  new = λ k. elim (Bool-cases (id == k)) [
    | inl t ↦
        let was : contains seen k ≡ true = rw (sym (beq_eq id k t)) old in ground (arith, a.new k)
    | inr f ↦ ground (arith, a.new k)
  ];
  known = λ k. elim (Bool-cases (id == k)) [
    | inl t ↦
        let was : contains seen k ≡ true = rw (sym (beq_eq id k t)) old in ground (arith, a.known k)
    | inr f ↦ ground (arith, a.known k)
  ];
}

Added-cons :
    (seen : List String) (entry : EvidenceEntry) (all : List String)
    (result : List EvidenceEntry × List String)
    → contains seen entry.id ≡ false
    → Added (entry.id ∷ seen) all result
    → Added seen (entry.id ∷ all) (entry ∷ result.0, result.1)
Added-cons seen entry all result fresh a = record {
  once = ground (arith, a.once, a.new entry.id, eq_String.beq_iff entry.id entry.id);
  new = λ k. elim (Bool-cases (entry.id == k)) [
    | inl t ↦
        let was : contains seen k ≡ false = rw (sym (beq_eq entry.id k t)) fresh in
        ground (arith, a.new k)
    | inr f ↦ ground (arith, a.new k)
  ];
  known = λ k. ground (arith, a.known k);
}

pub Added-append :
    (seen : List String) (xs ys : List String) (first second : List EvidenceEntry × List String)
    → Added seen xs first
    → Added first.1 ys second
    → Added seen (xs ++ ys) (first.0 ++ second.0, second.1)
Added-append seen xs ys first second a b = record {
  once = rw (ids-append first.0 second.0) (
      unrepeated-append (ids first.0) (ids second.0) a.once b.once
        (λ k h. ground (arith, a.new k, a.known k, b.new k)));
  new = λ k.
      rw
        (
          ids-append first.0 second.0,
          contains-append (ids first.0) (ids second.0) k,
          contains-append xs ys k,
        )
        (ground (arith, a.new k, a.known k, b.new k));
  known = λ k. rw (contains-append xs ys k) (ground (arith, a.known k, b.known k));
}

entries_of_ids-ids : (e : LayerEvidence) (xs : List String) → ids (entries_of_ids e xs) ≡ xs
entries_of_ids-ids e [] = refl
entries_of_ids-ids e (x ∷ xs) = ap (λ l. x ∷ l) (entries_of_ids-ids e xs)

module _ {F : Type 0} (python : Python F) where
  make_entry-Guarded : (entry : EvidenceEntry) → Guarded (make_entry python entry) (λ e. e ≡ entry)
  make_entry-Guarded entry =
      Guarded-bind (guard_all python (entry_strings entry)) _
        (guard_all-Guarded python (entry_strings entry)) (λ clean _. inr (entry, refl, refl))

  pub add_entries-Guarded :
      (seen : List String) (entries : List EvidenceEntry)
      → Guarded (add_entries python seen entries) (Added seen (ids entries))
  add_entries-Guarded seen [] =
      inr (([], seen), refl, record { once = refl; new = λ k. refl; known = λ k. ground arith })
  add_entries-Guarded seen (e ∷ es) = elim (Bool-cases (contains seen e.id)) [
    | inl t ↦ rw t (
        Guarded-map (add_entries python seen es) (add_entries-Guarded seen es)
          (λ r a. skipped-Added seen e.id (ids es) r t a))
    | inr f ↦ rw f (
        Guarded-bind (make_entry python e) _ (make_entry-Guarded e) (λ made same.
          Guarded-bind (add_entries python (e.id ∷ seen) es) _
            (add_entries-Guarded (e.id ∷ seen) es)
            (λ r a. inr ((made ∷ r.0, r.1), refl, rw same (Added-cons seen e (ids es) r f a)))))
  ]

  pub add_layers-Guarded :
      (seen : List String) (name : String) (layer : PairLayer F)
      (rest : List (String × PairLayer F)) (evidence : LayerEvidence) (more : List String)
      → get pair_layer_evidence name ≡ some evidence
      → ((now : List String) → Guarded (add_layers python now rest) (Added now more))
      → Guarded
          (add_layers python seen ((name, layer) ∷ rest))
          (Added seen (layer.evidence_ids ++ more))
  add_layers-Guarded seen name layer rest evidence more found tail = rw found (
      Guarded-bind (add_entries python seen (entries_of_ids evidence layer.evidence_ids)) _
        (add_entries-Guarded seen (entries_of_ids evidence layer.evidence_ids))
        (λ r a. Guarded-bind (add_layers python r.1 rest) _ (tail r.1) (λ s b. inr (
          (r.0 ++ s.0, s.1),
          refl,
          Added-append seen layer.evidence_ids more r s
              (rw (sym (entries_of_ids-ids evidence layer.evidence_ids)) a) b,
        ))))
