-- ===== src/Node/Walk.antt =====
-- encoded-search/src/node.rs, `runs_in`: the walk over the runs of a window reads what the point
-- reads do.
use vortex_rdf.Prelude.{
  ℕ, zero, suc, ◌+◌, ◌-◌, ◌≤◌, ◌<◌, ◌≡◌, refl, sym, ap, ◌∙◌, inl, inr, Option, none, some, List,
  ◌∷◌, ◌++◌, map, arith, tests, Bool-cases, ltb, ltb→lt, lt→ltb, leb→le, leb→lt, min, max,
  replicate, range_from, range_from-append, map-append,
}
use vortex_rdf.Node.Values.{run_of}
use vortex_rdf.Node.Runs.{IsRunEnds, run_of-IsSplit, run_of-eq}
use vortex_rdf.Node.Packed.{◌>>=◌}
use vortex_rdf.Node.Reads.{RunWindow, walk_runs, runs_in, fill_runs}

-- The rows of the windows: the walk's result, filled.
unfoldable pub filled : Option (List RunWindow) → Option (List ℕ)
unfolding fill_runs
filled walk = walk >>= λ windows. some (fill_runs windows)

pub replicate-map :
    (f : ℕ → ℕ) (v start n : ℕ)
    → ((i : ℕ) → start ≤ i → i < start + n → f i ≡ v)
    → replicate n v ≡ map f (range_from start n)
replicate-map f v start zero same = refl
replicate-map f v start (suc n) same = λ i.
    sym (same start (omega arith) (omega arith)) i
    ∷ replicate-map f v (suc start) n (λ k p q. same k (omega arith) (omega arith)) i

filled-cons :
    (w : RunWindow) (walk : Option (List RunWindow)) (rest : List ℕ)
    → filled walk ≡ some rest
    → filled (walk >>= λ windows. some (w ∷ windows))
      ≡ some (replicate (w.to - w.from) w.value ++ rest)
unfolding filled fill_runs
filled-cons w none rest e = absurd (cc)
filled-cons w (some windows) rest e =
    ap some (
      let f : fill_runs windows ≡ rest = cc in ap (λ xs. replicate (w.to - w.from) w.value ++ xs) f)

module _ (nruns : ℕ) (end_at value_of : ℕ → ℕ) (offset n : ℕ)
    (ends : IsRunEnds nruns end_at offset n) (first last : ℕ) (within : last ≤ offset + n) where
  -- The value at a position behind the offset.
  abbrev at_position : ℕ → ℕ
  at_position pos = value_of (run_of nruns end_at pos)

  walk_runs-lem :
      (fuel run at : ℕ)
      → nruns - run ≤ fuel
      → first ≤ at
      → offset ≤ at
      → run ≤ nruns
      → (at < last → 0 < run → end_at (run - 1) ≤ at)
      → (at < last → run < nruns → at < end_at run)
      → filled (walk_runs fuel nruns end_at value_of run at first last)
        ≡ some (map at_position (range_from at (last - at)))
  unfolding walk_runs filled fill_runs
  walk_runs-lem zero run at f low o in_runs before after = elim (Bool-cases (ltb at last)) [
    | inl more ↦
        let less : at < last = ltb→lt at last more in
        let e : end_at (run - 1) ≡ end_at (nruns - 1) =
          ap end_at (let z : run - 1 ≡ nruns - 1 = omega arith in z) in
        absurd (
          omega (
            arith,
            less,
            within,
            ends.nonempty (omega (arith, less)),
            ends.reaching (omega (arith, less)),
            before less (omega (arith, ends.nonempty (omega (arith, less)))),
            e,
          ))
    | inr through ↦
        let z : 0 ≡ last - at = omega tests in
        rw through (ap (λ k. some (map at_position (range_from at k))) z)
  ]
  walk_runs-lem (suc fuel) run at f low o in_runs before after = elim (Bool-cases (ltb at last)) [
    | inl more ↦
        let less : at < last = ltb→lt at last more in
        let reach = ends.reaching (omega (arith, less)) in
        let inside : run < nruns = elim (Bool-cases (ltb run nruns)) [
          | inl yes_run ↦ ltb→lt run nruns yes_run
          | inr out ↦
              let z : run - 1 ≡ nruns - 1 = omega tests in
              absurd (
                omega (
                  tests,
                  less,
                  within,
                  reach,
                  ends.nonempty (omega (arith, less)),
                  before less (omega (tests, ends.nonempty (omega (arith, less)))),
                  ap end_at z,
                ))
        ] in
        let end = min (max (end_at run) at) last in
        let past : at < end_at run = after less inside in
        let ih =
          walk_runs-lem fuel (run + 1) end (omega arith) (omega arith) (omega arith) (omega arith)
            (λ l p. let z : run + 1 - 1 ≡ run = omega arith in omega (arith, past, ap end_at z, l))
            (λ p q.
              let z : run + 1 ≡ suc run = omega arith in
              omega (arith, past, ap end_at z, ends.rising run (omega arith))) in
        let same : (i : ℕ) → at ≤ i → i < at + (end - at) → at_position i ≡ value_of run = λ i p q.
          ap value_of (
            run_of-eq nruns end_at offset n ends i run inside (λ z. omega (arith, before less z))
              (omega (arith, past))) in
        let width : end - first - (at - first) ≡ end - at = omega arith in
        let joined : at + (end - at) ≡ end = omega (arith, past) in
        let total : end - at + (last - end) ≡ last - at = omega (arith, past) in
        rw more (
          rw (lt→ltb run nruns inside) (
            filled-cons (record { from = at - first; to = end - first; value = value_of run }) _ _
              ih
            ∙ ap some (
                ap
                  (λ k. replicate k (value_of run) ++ map at_position (range_from end (last - end)))
                  width
                ∙ ap (λ xs. xs ++ map at_position (range_from end (last - end)))
                    (replicate-map at_position (value_of run) at (end - at) same)
                ∙ sym (
                    map-append at_position (range_from at (end - at)) (range_from end (last - end)))
                ∙ ap (map at_position) (
                    ap (λ k. range_from at (end - at) ++ range_from k (last - end)) (sym joined)
                    ∙ range_from-append at (end - at) (last - end)
                    ∙ ap (range_from at) total))))
    | inr through ↦
        let z : 0 ≡ last - at = omega tests in
        rw through (ap (λ k. some (map at_position (range_from at k))) z)
  ]

-- The walk over the runs that a window reaches hands out, filled, what the point reads of the run-end
-- array read there: it meets no run that fails its assertion.
pub runs_in-eq-values :
    (nruns : ℕ) (end_at value_of : ℕ → ℕ) (offset n : ℕ)
    → IsRunEnds nruns end_at offset n
    → (start count : ℕ) → start + count ≤ n
    → filled (runs_in nruns end_at value_of offset start count)
      ≡ some (map (λ i. value_of (run_of nruns end_at (i + offset))) (range_from start count))
unfolding runs_in
runs_in-eq-values nruns end_at value_of offset n ends start count h =
    let first = start + offset in
    let last = first + count in
    let run = run_of nruns end_at first in
    let split = run_of-IsSplit nruns end_at offset n ends first in
    let at_position = λ (pos : ℕ). value_of (run_of nruns end_at pos) in
    let size : last - first ≡ count = omega arith in
    unfold run_of in
    (walk_runs-lem nruns end_at value_of offset n ends first last (omega arith) (nruns - run) run
        first (omega arith) (omega arith) (omega arith) split.within
        (λ l p. leb→le _ _ (split.passing (run - 1) (omega arith)))
        (λ l p. leb→lt _ _ (split.failing run (omega arith) p))
      ∙ ap (λ k. some (map at_position (range_from first k))) size
      ∙ ap some (shifted at_position start count offset))
  where
    shifted :
        (f : ℕ → ℕ) (s c o : ℕ)
        → map f (range_from (s + o) c) ≡ map (λ i. f (i + o)) (range_from s c)
    shifted f s zero o = refl
    shifted f s (suc c) o =
        let e : suc (s + o) ≡ suc s + o = omega arith in
        λ i. f (s + o) ∷ (ap (λ k. map f (range_from k c)) e ∙ shifted f (suc s) c o) i
