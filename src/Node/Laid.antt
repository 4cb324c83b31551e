-- ===== src/Node/Laid.antt =====
-- encoded-search/src/node.rs: the chunks of a chunked node cut its rows.
use vortex_rdf.Prelude.{ℕ, zero, suc, ◌+◌, ◌-◌, ◌<◌, ◌≡◌, refl, sym, ap, ◌∙◌, arith}
use vortex_rdf.Search.Cuts.{IsCut}
use vortex_rdf.Node.Tree.{Chunks, done, chunk, len, chunk_len, chunk_count, chunk_start, FastLanes}
use vortex_rdf.Node.Values.{value_at, chunk_value, chunk_last}
use vortex_rdf.Node.Formed.{IsFormed, IsLaid}

abbrev pub chunk_stop : Chunks → ℕ → ℕ
chunk_stop cs c = chunk_start cs c + chunk_len cs c

module _ (fl : FastLanes) where
  laid-first :
      (cs : Chunks) (from total : ℕ)
      → IsLaid fl cs from total
      → 0 < chunk_count cs
      → chunk_start cs 0 ≡ from
  unfolding IsFormed
  laid-first done from total l h = absurd (omega arith)
  laid-first (chunk start node cs) from total l h = l.0

  laid_filled :
      (cs : Chunks) (from total c : ℕ)
      → IsLaid fl cs from total
      → c < chunk_count cs
      → 0 < chunk_len cs c
  unfolding IsFormed chunk_len
  laid_filled done from total c l h = absurd (omega arith)
  laid_filled (chunk start node cs) from total zero l h = l.1
  laid_filled (chunk start node cs) from total (suc c) l h =
      laid_filled cs (from + len node) total c l.3 (omega arith)

  laid_joined :
      (cs : Chunks) (from total c : ℕ)
      → IsLaid fl cs from total
      → suc c < chunk_count cs
      → chunk_start cs (suc c) ≡ chunk_stop cs c
  unfolding IsFormed chunk_len
  laid_joined done from total c l h = absurd (omega arith)
  laid_joined (chunk start node cs) from total zero l h =
      laid-first cs (from + len node) total l.3 (omega arith) ∙ ap (λ s. s + len node) (sym l.0)
  laid_joined (chunk start node cs) from total (suc c) l h =
      laid_joined cs (from + len node) total c l.3 (omega arith)

  laid-last :
      (cs : Chunks) (from total c : ℕ)
      → IsLaid fl cs from total
      → suc c ≡ chunk_count cs
      → chunk_stop cs c ≡ total
  unfolding IsFormed chunk_len
  laid-last done from total c l h = absurd (omega arith)
  laid-last (chunk start node done) from total zero l h = omega (arith, l.0, l.3)
  laid-last (chunk start node (chunk s m cs)) from total zero l h = absurd (omega arith)
  laid-last (chunk start node cs) from total (suc c) l h =
      laid-last cs (from + len node) total c l.3 (omega arith)

  laid-empty : (cs : Chunks) (total : ℕ) → IsLaid fl cs 0 total → chunk_count cs ≡ 0 → total ≡ 0
  unfolding IsFormed
  laid-empty done total l h = sym l
  laid-empty (chunk start node cs) total l h = absurd (omega arith)

  -- Chunks that follow one another, none empty, cut the rows of the node.
  pub laid-IsCut :
      (cs : Chunks) (total : ℕ)
      → IsLaid fl cs 0 total
      → IsCut (chunk_count cs) total (chunk_start cs) (chunk_stop cs)
  laid-IsCut cs total l = record {
    first = laid-first cs 0 total l;
    filled = λ c h. omega (arith, laid_filled cs 0 total c l h);
    joined = λ c h. laid_joined cs 0 total c l h;
    last = λ c h. laid-last cs 0 total c l h;
    empty = laid-empty cs total l;
  }

  -- A chunk's last value is the value at its last row.
  pub chunk_last-chunk_value :
      (cs : Chunks) (c : ℕ) → chunk_last fl cs c ≡ chunk_value fl cs c (chunk_len cs c - 1)
  unfolding value_at chunk_len
  chunk_last-chunk_value done c = refl
  chunk_last-chunk_value (chunk start node cs) zero = refl
  chunk_last-chunk_value (chunk start node cs) (suc c) = chunk_last-chunk_value cs c
