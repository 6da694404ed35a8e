-- ===== src/Glob/Tests.antt =====
-- Runs of `expandGlob` on concrete inputs, and its theorems at such inputs.
use curlu.Base.{
  List, [], ◌∷◌, ◌++◌, ◌≡◌, ◌≢◌, ◌↔◌, ◌+◌, ◌-◌, ◌≤◌, refl, map, some, Bytes, codes, ok, err, length,
  All, arith,
}
use curlu.Number.{parse_uint, max_u32, format_uint}
use curlu.Text.{find, strip_prefix, cut, split}
use curlu.Glob.Defs.{
  backslash, unmatched, too_many, bad_range, out_of_fuel, expand_range, expand_path, expand_glob,
  split_url, range_width,
}
use curlu.Glob.Range.{IsRange, from, expand_range_iff, expand_range_items}
use curlu.Glob.Bound.{expand_glob-ne-fuel}
use curlu.Glob.Quote.{quote, expand_path-quote, expand_path_set_comma}

abbrev two_groups : Bytes
two_groups = codes "http://h[1]/{a,b}?n=[08-09]"

abbrev four_urls : List Bytes
four_urls =
    codes "http://h[1]/a?n=08"
    ∷ codes "http://h[1]/a?n=09"
    ∷ codes "http://h[1]/b?n=08"
    ∷ codes "http://h[1]/b?n=09"
    ∷ []

two_groups_expand : expand_glob two_groups ≡ ok four_urls
unfolding expand_glob split_url find strip_prefix cut split expand_range parse_uint format_uint
two_groups_expand = refl

eight_to_ten : expand_range (codes "08-10") ≡ ok (codes "08" ∷ codes "09" ∷ codes "10" ∷ [])
unfolding cut expand_range parse_uint format_uint
eight_to_ten = refl

refusals :
    (expand_glob (codes "http://h/{a") ≡ err (unmatched b'{'))
    × (expand_glob (codes "http://h/a]") ≡ err (unmatched b']'))
    × (expand_glob (codes "http://h/[3-1]") ≡ err (bad_range (codes "3-1")))
    × (expand_glob (codes "http://h/[0-1000]") ≡ err too_many)
unfolding expand_glob split_url find strip_prefix cut split expand_range parse_uint format_uint
refusals = (refl, refl, refl, refl)

expand_glob-ne-fuel_example : expand_glob two_groups ≢ err out_of_fuel
expand_glob-ne-fuel_example = expand_glob-ne-fuel two_groups

expand_range_iff_example :
    (expand_range (codes "08-10") ≡ ok (codes "08" ∷ codes "09" ∷ codes "10" ∷ []))
    ↔ IsRange (codes "08-10") (codes "08" ∷ codes "09" ∷ codes "10" ∷ [])
expand_range_iff_example =
    expand_range_iff (codes "08-10") (codes "08" ∷ codes "09" ∷ codes "10" ∷ [])

expand_range_items_example :
    (r : IsRange (codes "08-10") (codes "08" ∷ codes "09" ∷ codes "10" ∷ [])) × (map
        (parse_uint 10 max_u32)
        (codes "08" ∷ codes "09" ∷ codes "10" ∷ [])
      ≡ map some (from r.first (r.last - r.first + 1)))
    × All (λ item. range_width r.lo ≤ length item) (codes "08" ∷ codes "09" ∷ codes "10" ∷ [])
expand_range_items_example = expand_range_items (codes "08-10") eight_to_ten

expand_path-quote_example :
    expand_path (codes "http://h") (quote (codes "/{a,b}"))
    ≡ ok ((codes "http://h" ++ codes "/{a,b}") ∷ [])
expand_path-quote_example = expand_path-quote (codes "http://h") (codes "/{a,b}")

expand_path_set_comma_example :
    expand_path
      (codes "http://h/")
      (b'{' ∷ ((codes "a" ++ backslash ∷ b',' ∷ codes "b") ++ b'}' ∷ []))
    ≡ ok (
        (codes "http://h/" ++ (codes "a" ++ backslash ∷ []))
        ∷ (codes "http://h/" ++ codes "b")
        ∷ [])
expand_path_set_comma_example =
    expand_path_set_comma (codes "http://h/") (codes "a") (codes "b") (omega arith) (omega arith)
      (omega arith)
