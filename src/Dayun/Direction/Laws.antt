-- ===== src/Dayun/Direction/Laws.antt =====
-- When a direction is resolved, and to what.
use fufire_api_lunar.Prelude.{
  ◌≡◌, ◌↔◌, ◌⊎◌, inl, inr, String, Option, none, some, ok, arith, eq_iff,
}
use fufire_api_lunar.Dayun.Direction.{
  Payload, lookup_traditional, resolve_explicit, resolve_traditional, resolve_by_method,
  resolve_direction,
}

abbrev pub RuleBySex : Option String → Option String → String → Type 0
RuleBySex polarity sex flow =
    ((flow ≡ "forward")
      × (((polarity ≡ some "yang") × (sex ≡ some "male"))
          ⊎ ((polarity ≡ some "yin") × (sex ≡ some "female"))))
    ⊎ ((flow ≡ "backward")
        × (((polarity ≡ some "yang") × (sex ≡ some "female"))
            ⊎ ((polarity ≡ some "yin") × (sex ≡ some "male"))))

-- The rule book: an explicit flow, or the classical table of year polarity and sex.
abbrev pub Rule : Payload → String → Type 0
Rule p flow =
    ((p.direction_method ≡ some "explicit")
      × (p.flow_direction ≡ some flow)
      × ((flow ≡ "forward") ⊎ (flow ≡ "backward")))
    ⊎ ((p.direction_method ≡ some "year_stem_yinyang_and_sex")
        × RuleBySex p.year_stem_polarity p.sex_at_birth flow)

explicit_rule :
    (o : Option String) (flow : String)
    → resolve_explicit o ≡ ok flow
    → (o ≡ some flow) × ((flow ≡ "forward") ⊎ (flow ≡ "backward"))
unfolding resolve_explicit
explicit_rule none flow h = cc
explicit_rule (some s) flow h = ground (arith, eq_iff "forward" s, eq_iff "backward" s)

explicit_complete :
    (flow : String)
    → (flow ≡ "forward") ⊎ (flow ≡ "backward")
    → resolve_explicit (some flow) ≡ ok flow
unfolding resolve_explicit
explicit_complete flow h = ground (arith, eq_iff "forward" flow, eq_iff "backward" flow)

table_rule :
    (polarity sex flow : String)
    → lookup_traditional polarity sex ≡ ok flow
    → RuleBySex (some polarity) (some sex) flow
unfolding lookup_traditional
table_rule polarity sex flow h =
    ground
      (arith, eq_iff "yang" polarity, eq_iff "yin" polarity, eq_iff "male" sex, eq_iff "female" sex)

text : (a b : String) → some a ≡ some b → a ≡ b
text a b h = cc

table_complete :
    (polarity sex flow : String)
    → RuleBySex (some polarity) (some sex) flow
    → lookup_traditional polarity sex ≡ ok flow
unfolding lookup_traditional
table_complete polarity sex flow (inl (f, inl (p, s))) =
    rw (f, text polarity "yang" p, text sex "male" s)
table_complete polarity sex flow (inl (f, inr (p, s))) =
    rw (f, text polarity "yin" p, text sex "female" s)
table_complete polarity sex flow (inr (f, inl (p, s))) =
    rw (f, text polarity "yang" p, text sex "female" s)
table_complete polarity sex flow (inr (f, inr (p, s))) =
    rw (f, text polarity "yin" p, text sex "male" s)

by_sex_rule :
    (polarity sex : Option String) (flow : String)
    → resolve_traditional polarity sex ≡ ok flow
    → RuleBySex polarity sex flow
unfolding resolve_traditional
by_sex_rule (some polarity) (some sex) flow h = table_rule polarity sex flow h
by_sex_rule (some polarity) none flow h = cc
by_sex_rule none sex flow h = cc

by_sex_complete :
    (polarity sex : Option String) (flow : String)
    → RuleBySex polarity sex flow
    → resolve_traditional polarity sex ≡ ok flow
unfolding resolve_traditional
by_sex_complete (some polarity) (some sex) flow h = table_complete polarity sex flow h
by_sex_complete (some polarity) none flow h = ground arith
by_sex_complete none sex flow h = ground arith

method_sound :
    (method : Option String) (p : Payload) (flow : String)
    → resolve_by_method method p ≡ ok flow
    → ((method ≡ some "explicit") × (resolve_explicit p.flow_direction ≡ ok flow))
      ⊎ ((method ≡ some "year_stem_yinyang_and_sex")
          × (resolve_traditional p.year_stem_polarity p.sex_at_birth ≡ ok flow))
unfolding resolve_by_method
method_sound none p flow h = cc
method_sound (some m) p flow h =
    ground (arith, eq_iff "explicit" m, eq_iff m "explicit", eq_iff "year_stem_yinyang_and_sex" m)

method_complete :
    (method : Option String) (p : Payload) (flow : String)
    → ((method ≡ some "explicit") × (resolve_explicit p.flow_direction ≡ ok flow))
      ⊎ ((method ≡ some "year_stem_yinyang_and_sex")
          × (resolve_traditional p.year_stem_polarity p.sex_at_birth ≡ ok flow))
    → resolve_by_method method p ≡ ok flow
unfolding resolve_by_method
method_complete method p flow (inl (e, h)) = rw (e, h)
method_complete method p flow (inr (e, h)) = rw (e, h)

-- A direction is returned exactly when the rule book gives it.
pub resolve_direction_iff :
    (p : Payload) (flow : String) → (resolve_direction p ≡ ok flow) ↔ Rule p flow
unfolding resolve_direction
resolve_direction_iff p flow = (sound, complete)
  where
    sound : resolve_by_method p.direction_method p ≡ ok flow → Rule p flow
    sound h = elim (method_sound p.direction_method p flow h) [
      | inl e ↦ inl (
        e.0,
        (explicit_rule p.flow_direction flow e.1).0,
        (explicit_rule p.flow_direction flow e.1).1,
      )
      | inr e ↦ inr (e.0, by_sex_rule p.year_stem_polarity p.sex_at_birth flow e.1)
    ]

    complete : Rule p flow → resolve_by_method p.direction_method p ≡ ok flow
    complete (inl (m, f, v)) =
        method_complete p.direction_method p flow (inl (m, rw f (explicit_complete flow v)))
    complete (inr (m, r)) =
        method_complete p.direction_method p flow
          (inr (m, by_sex_complete p.year_stem_polarity p.sex_at_birth flow r))

-- Whatever is returned is one of the two directions.
pub resolve_direction_valid :
    (p : Payload) (flow : String)
    → resolve_direction p ≡ ok flow
    → (flow ≡ "forward") ⊎ (flow ≡ "backward")
resolve_direction_valid p flow h = elim ((resolve_direction_iff p flow).0 h) [
  | inl (m, f, v) ↦ v
  | inr (m, inl (e, r)) ↦ inl e
  | inr (m, inr (e, r)) ↦ inr e
]
