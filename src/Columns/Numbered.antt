-- ===== src/Columns/Numbered.antt =====
-- core/src/columns/join.rs, `Hashed`: the codes numbered as they are met, and the rows a code finds
-- by its number.
use vortex_rdf.Prelude.{
  ℕ, ◌≤◌, ◌<◌, ◌≡◌, sym, ap, subst, ◌∙◌, none, some, inl, inr, List, [], ◌∷◌, map, arith,
  Bool-cases, Option-cases, ◌==◌, ==_iff, length,
}
use vortex_rdf.Search.Sinks.{matches}
use vortex_rdf.Columns.Groups.{build, group_rows}
use vortex_rdf.Columns.Starts.{AllBelow}
use vortex_rdf.Columns.Grouped.{group_rows-build, group_rows-build_none}
use vortex_rdf.Columns.Join.{find_slot, hashed_slot, or_else}
use vortex_rdf.Columns.Slots.{
  Tells, Missing, matches-map, matches-Missing, IsNumbered, find_slot-bounds, find_slot-injective,
}
use vortex_rdf.Columns.Entered.{AllFound, Found}

module _ (entries : List (ℕ × ℕ)) (numbered : IsNumbered 0 entries) where
  hashed_slot-found : (c k : ℕ) → find_slot c entries ≡ some k → hashed_slot entries c ≡ k
  unfolding hashed_slot
  hashed_slot-found c k e = ap (λ o. or_else o (length entries)) e

  pub AllFound-AllBelow :
      (cs : List ℕ) → AllFound entries cs → AllBelow (length entries) (map (hashed_slot entries) cs)
  AllFound-AllBelow [] h = tt
  AllFound-AllBelow (c ∷ cs) h = (
    omega
        (arith, hashed_slot-found c h.0.0 h.0.1, find_slot-bounds 0 c h.0.0 entries numbered h.0.1),
    AllFound-AllBelow cs h.1,
  )

  AllFound-Tells :
      (code : ℕ) (cs : List ℕ)
      → Found entries code
      → AllFound entries cs
      → Tells (hashed_slot entries) code cs
  AllFound-Tells code [] f h = tt
  AllFound-Tells code (c ∷ cs) f h =
      let p = hashed_slot-found c h.0.0 h.0.1 in
      let q = hashed_slot-found code f.0 f.1 in
      (
        elim (Bool-cases (c == code)) [
          | inl same ↦
              let e : c ≡ code = (==_iff c code).0 same in
              (==_iff (hashed_slot entries c) (hashed_slot entries code)).1
                (ap (hashed_slot entries) e)
              ∙ sym same
          | inr other ↦ elim (Bool-cases (hashed_slot entries c == hashed_slot entries code)) [
            | inl same ↦
                let k : h.0.0 ≡ f.0 =
                  sym p ∙ (==_iff (hashed_slot entries c) (hashed_slot entries code)).0 same ∙ q in
                let e : c ≡ code =
                  find_slot-injective 0 c code f.0 entries numbered (h.0.1 ∙ ap some k) f.1 in
                absurd (ground (arith, e, other))
            | inr differ ↦ differ ∙ sym other
          ]
        ],
        AllFound-Tells code cs f h.1,
      )

  AllFound-Missing :
      (code : ℕ) (cs : List ℕ)
      → find_slot code entries ≡ none
      → AllFound entries cs
      → Missing code cs
  AllFound-Missing code [] e h = tt
  AllFound-Missing code (c ∷ cs) e h = (
    λ same. absurd (
        let f : find_slot code entries ≡ some h.0.0 =
          subst (λ a. find_slot a entries ≡ some h.0.0) same h.0.1 in
        cc),
    AllFound-Missing code cs e h.1,
  )

  pub group_rows-hashed :
      (right : List ℕ) (code : ℕ)
      → AllFound entries right
      → group_rows
          (build (length entries) (map (hashed_slot entries) right))
          (hashed_slot entries code)
        ≡ matches 0 right code
  group_rows-hashed right code h =
      let small = AllFound-AllBelow right h in
      elim (Option-cases (find_slot code entries)) [
        | inl e ↦
            let s : hashed_slot entries code ≡ length entries =
              unfold hashed_slot in ap (λ o. or_else o (length entries)) e in
            rw s (
              group_rows-build_none (length entries) _ small
              ∙ sym (matches-Missing code 0 right (AllFound-Missing code right e h)))
        | inr f ↦
            let s = hashed_slot-found code f.0 f.1 in
            let bound : hashed_slot entries code < length entries =
              omega (arith, s, find_slot-bounds 0 code f.0 entries numbered f.1) in
            group_rows-build (length entries) _ small (hashed_slot entries code) bound
            ∙ matches-map (hashed_slot entries) code 0 right (AllFound-Tells code right f h)
      ]

  pub hashed_slot-le : (code : ℕ) → hashed_slot entries code ≤ length entries
  unfolding hashed_slot
  hashed_slot-le code = elim (Option-cases (find_slot code entries)) [
    | inl e ↦ omega (arith, ap (λ o. or_else o (length entries)) e)
    | inr (k, e) ↦ omega (
      arith,
      ap (λ o. or_else o (length entries)) e,
      find_slot-bounds 0 code k entries numbered e,
    )
  ]
