-- ===== src/Search/Tests.antt =====
-- The searches of encoded-search/src/search.rs on concrete columns, and each theorem at an input.
use vortex_rdf.Prelude.{ℕ, ◌+◌, ◌*◌, ◌≤◌, ◌<◌, ◌≡◌, refl, [], ◌∷◌, arith}
use vortex_rdf.Search.Partition.{partition}
use vortex_rdf.Search.Ascending.{search_ascending_capped}
use vortex_rdf.Search.Sinks.{count_matching, count_words, count_matching-eq-count_words}
use vortex_rdf.Search.Agrees.{under, up_to, search_ascending_capped_correct}

abbrev even_spread : ℕ → ℕ
even_spread i = 7 + 3 * i

partition_runs : partition 100 (under even_spread 100) ≡ 31
unfolding partition
partition_runs = refl

capped_runs : search_ascending_capped 10000 even_spread 12_000 ≡ (3998, 3998)
unfolding search_ascending_capped
capped_runs = refl

search_ascending_capped_correct_example :
    let found = search_ascending_capped 10000 even_spread 12_000 in
    (found.0 ≡ partition 10000 (under even_spread 12_000))
    × (partition 10000 (up_to even_spread 12_000) ≤ found.1)
    × (found.1 ≤ 10000)
    × (found.1 < 10000 → 12_000 < even_spread found.1)
search_ascending_capped_correct_example =
    search_ascending_capped_correct 10000 even_spread 12_000 (λ i j p q. omega arith)

count_matching-eq-count_words_example :
    count_matching 1 0 (3 ∷ 7 ∷ 3 ∷ []) 3 10 ≡ 10 + count_words (3 ∷ 7 ∷ 3 ∷ []) 3
count_matching-eq-count_words_example = count_matching-eq-count_words 1 0 (3 ∷ 7 ∷ 3 ∷ []) 3 10
