-- ===== src/Dict/Terms.antt =====
-- core/src/store/layouts/dictionary/term_dict.rs: the frozen dictionary, whose sorted terms have
-- their ranks as codes. `canonical` stands for `canonical_spelling` of core/src/common/terms.rs.
use vortex_rdf.Prelude.{ℕ, ◌+◌, ◌-◌, Option, none, some, if◌then◌else◌, leb, ltb, max}
use vortex_rdf.Prelude.Fallible.{Result, ok, err}
use vortex_rdf.View.Selection.{Range, span}
use vortex_rdf.Dict.Bytes.{Text, text_cmp, text_ltb, prefix_successor}
use vortex_rdf.Dict.Searches.{lower_bound_by, find_by}
use vortex_rdf.Dict.Chunks.{ResidentChunks, term_at}

-- The code of the first term, which is 0 outside the tests, and the number of terms.
pub record CodeSpace : Type 0 where
  pub base : ℕ
  pub len : ℕ

unfoldable pub code_rank : ℕ → ℕ → ℕ → Option ℕ
code_rank code base len =
    if leb base code then if ltb (code - base) len then some (code - base) else none else none

unfoldable pub rank_of : CodeSpace → ℕ → Option ℕ
unfolding code_rank
rank_of c code = code_rank code c.base c.len

abbrev pub code_at : CodeSpace → ℕ → ℕ
code_at c rank = c.base + rank

-- The errors of the dictionary and of the chunks that it decodes and encodes.
pub data Error : Type 0 where
  out_of_bounds : ℕ → Error
  not_ascending : ℕ → ℕ → Error
  outside : ℕ → Error
  missing : Text → Error
  malformed : Text → Error
  too_many : Error

abbrev pub ok_or : {A : Type 0} → Error → Option A → Result Error A
ok_or e none = err e
ok_or e (some a) = ok a

abbrev pub map_option : {A B : Type 0} → (A → B) → Option A → Option B
map_option f none = none
map_option f (some a) = some (f a)

unfoldable pub check_code : ℕ → CodeSpace → Result Error ℕ
unfolding rank_of
check_code code c = ok_or (out_of_bounds code) (rank_of c code)

pub record TermDictionary : Type 0 where
  pub terms : ResidentChunks
  pub base : ℕ

abbrev pub code_space : TermDictionary → CodeSpace
code_space d = record { base = d.base; len = d.terms.len }

unfoldable pub decode : TermDictionary → ℕ → Option Text
decode d code = map_option (term_at d.terms) (rank_of (code_space d) code)

unfoldable pub encode_exact : TermDictionary → Text → Option ℕ
encode_exact d term =
    map_option (code_at (code_space d))
      (find_by 0 d.terms.len (λ i. text_cmp (term_at d.terms i) term))

unfoldable pub lower_bound : TermDictionary → Text → ℕ
lower_bound d needle =
    code_at (code_space d) (lower_bound_by 0 d.terms.len (λ i. text_ltb (term_at d.terms i) needle))

abbrev pub unwrap_or : Option ℕ → ℕ → ℕ
unwrap_or none end = end
unwrap_or (some hi) end = hi

unfoldable pub prefix_range_from : ℕ → Option ℕ → ℕ → Range
prefix_range_from lo hi end = span lo (max (unwrap_or hi end) lo)

unfoldable pub prefix_range : TermDictionary → Text → Range
unfolding prefix_range_from
prefix_range d prefix =
    prefix_range_from (lower_bound d prefix) (map_option (lower_bound d) (prefix_successor prefix))
      (code_at (code_space d) d.terms.len)
