-- ===== src/Cli/Text.antt =====
-- The texts that the handlers of cmd/sumcli parse and print.
use sum.Prelude.{ℕ, String, ◌&&◌, none, some, List, [], ◌∷◌, map}
use sum.Prelude.Tests.{Result, ok, err, string_eq, ◌◇◌, ltb, if◌then◌else◌}
use sum.Prelude.Lists.{length, take}
use sum.Prelude.Map.{get, put}
use sum.Prelude.Decimal.{format_uint}
use sum.Proto.{Record}
use sum.Cli.Console.{Tools}

-- strings.Join
unfoldable pub join : String → List String → String
join sep [] = ""
join sep (s ∷ []) = s
join sep (s ∷ t ∷ rest) = s ◇ sep ◇ join sep (t ∷ rest)

abbrev pub one32 : ℕ
one32 = 1065353216

unfoldable pub elements : Record → List ℕ
elements rec = elim rec.elems [ none ↦ [] | some d ↦ d ]

-- `[page %d of %d (%d total ...)]`
unfoldable pub page_line : (page pages total : ℕ) → String → String
page_line page pages total what =
    "[page "
    ◇ format_uint page
    ◇ " of "
    ◇ format_uint pages
    ◇ " ("
    ◇ format_uint total
    ◇ " total "
    ◇ what
    ◇ ")]\n"

module _ {B : Type 0} (tools : Tools B) where
  -- the loop of readData
  unfoldable pub parse_values : List String → Result String (List ℕ)
  parse_values [] = ok []
  parse_values (v ∷ vs) = elim (tools.parse_float32 v) [
    | err e ↦ err e
    | ok f ↦ elim (parse_values vs) [ err e ↦ err e | ok fs ↦ ok (f ∷ fs) ]
  ]

  -- one line of readMetas, which is not blank
  unfoldable pub parse_meta :
      String → List (String × String) → Result String (List (String × String))
  unfolding put
  parse_meta raw meta = elim (tools.split_by raw ":") [
    | [] ↦ err "could not create empty metadata"
    | k ∷ [] ↦ err ("could not parse '" ◇ raw ◇ "' as 'key: value'")
    | k ∷ v ∷ [] ↦ ok (put k v meta)
    | k ∷ v ∷ x ∷ rest ↦ err ("could not parse '" ◇ raw ◇ "' as 'key: value'")
  ]

  unfoldable pub float_text : ℕ → String
  float_text f =
      if tools.is_equal32 f 0
      then "0"
      else if tools.is_equal32 f one32
      then "1"
      else tools.format_float f

  unfoldable pub data_as_string : List ℕ → ℕ → String
  unfolding join float_text
  data_as_string d limit =
      if ltb 0 limit && ltb limit (length d)
      then join "," (map float_text (take limit d)) ◇ " ..."
      else join "," (map float_text d)

  -- metaAsString
  unfoldable pub meta_as_string : List (String × String) → String
  unfolding join get
  meta_as_string meta = join " " (
      map (λ key. key ◇ "=" ◇ elim (get key meta) [ none ↦ "" | some v ↦ v ])
        (tools.sort_strings (map (λ e. e.0) meta)))
