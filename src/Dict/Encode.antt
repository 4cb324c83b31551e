-- ===== src/Dict/Encode.antt =====
-- core/src/store/layouts/dictionary: the dictionary of quads (ingest.rs, storage/mod.rs) and their
-- codes (codec/mod.rs, `encode_quads`). The hash set and the hash map of terms are sorted lists: the
-- set is sorted before it is used, and the map is only looked up.
use Prim.Native.Nat.{Ordering}
use vortex_rdf.Prelude.{
  ℕ, zero, suc, List, [], ◌∷◌, Option, none, some, if◌then◌else◌, ltb, leb, length, take, drop, map,
}
use vortex_rdf.Prelude.Fallible.{Result, ok, err, ◌>>=◌, collect}
use vortex_rdf.Dict.Bytes.{Text, text_cmp}
use vortex_rdf.Dict.Chunks.{of_chunks}
use vortex_rdf.Dict.Terms.{
  Error, missing, too_many, ok_or, map_option, TermDictionary, code_space, code_at,
}
use vortex_rdf.Dict.Rows.{QuadCodes, Quad}

-- A term put into its place among sorted terms, once, by how it compares with the first of them.
abbrev pub placed : Ordering → Text → Text → List Text → List Text → List Text
placed Ordering.lt t x xs rest = t ∷ x ∷ xs
placed Ordering.eq t x xs rest = x ∷ xs
placed Ordering.gt t x xs rest = x ∷ rest

unfoldable pub insert_term : Text → List Text → List Text
insert_term t [] = t ∷ []
insert_term t (x ∷ xs) = placed (text_cmp t x) t x xs (insert_term t xs)

unfoldable pub sorted_unique_terms : List (Quad Text) → List Text
unfolding insert_term
sorted_unique_terms [] = []
sorted_unique_terms (q ∷ quads) =
    insert_term q.s
      (insert_term q.p (insert_term q.o (insert_term q.g (sorted_unique_terms quads))))

-- `DICT_CHUNK_ROWS`
abbrev pub dict_chunk_rows : ℕ
dict_chunk_rows = 65_536

abbrev pub i32_max : ℕ
i32_max = 2_147_483_647

-- The loop of `compress_windowed`. A window takes a term at least, so the terms are rounds enough.
unfoldable pub windows_of : ℕ → ℕ → List Text → List (List Text)
windows_of zero window xs = []
windows_of (suc fuel) window [] = []
windows_of (suc fuel) window (x ∷ xs) =
    take window (x ∷ xs) ∷ windows_of fuel window (drop window (x ∷ xs))

unfoldable pub compress_windowed : List Text → ℕ → List (List Text)
unfolding windows_of
compress_windowed [] window = [] ∷ []
compress_windowed (x ∷ xs) window =
    if leb (length (x ∷ xs)) window
    then (x ∷ xs) ∷ []
    else windows_of (length (x ∷ xs)) window (x ∷ xs)

unfoldable pub from_sorted_column : List Text → Result Error TermDictionary
unfolding of_chunks
from_sorted_column sorted =
    if ltb i32_max (length sorted)
    then err too_many
    else ok (record { terms = of_chunks (compress_windowed sorted dict_chunk_rows); base = 0 })

-- `TermCode` of a term in the map of `freeze`: the code of its rank among the sorted terms.
abbrev pub rank_at : Ordering → Option ℕ → Option ℕ
rank_at Ordering.lt rest = map_option (λ r. suc r) rest
rank_at Ordering.eq rest = some 0
rank_at Ordering.gt rest = map_option (λ r. suc r) rest

unfoldable pub rank_in : Text → List Text → Option ℕ
rank_in t [] = none
rank_in t (x ∷ xs) = rank_at (text_cmp t x) (rank_in t xs)

abbrev pub CodeMap : Type 0
CodeMap = Text → Option ℕ

unfoldable pub freeze : List Text → Result Error (TermDictionary × CodeMap)
unfolding from_sorted_column
freeze sorted = from_sorted_column sorted >>= λ dict.
    ok (dict, λ t. map_option (code_at (code_space dict)) (rank_in t sorted))

unfoldable pub from_quads_with_map : List (Quad Text) → Result Error (TermDictionary × CodeMap)
from_quads_with_map quads = freeze (sorted_unique_terms quads)

unfoldable pub encode_column :
    CodeMap → (Quad Text → Text) → List (Quad Text) → Result Error (List ℕ)
encode_column code_map term_of quads =
    collect (map (λ q. ok_or (missing (term_of q)) (code_map (term_of q))) quads)

unfoldable pub encode_quads : List (Quad Text) → CodeMap → Result Error QuadCodes
unfolding encode_column
encode_quads quads code_map = encode_column code_map (λ q. q.s) quads >>= λ s.
    encode_column code_map (λ q. q.p) quads >>= λ p.
    encode_column code_map (λ q. q.o) quads >>= λ o.
    encode_column code_map (λ q. q.g) quads >>= λ g. ok (record { s = s; p = p; o = o; g = g })
