-- ===== src/Tests/Records.antt =====
-- The theorems about the records and their meta index at concrete inputs.
use mathlib.Core.List.{Memᴰ}
use sum.Prelude.{ℕ, String, ◌≡◌, refl, none, some, List, [], ◌∷◌, arith}
use sum.Prelude.Tests.{nat_eq, nat_beq_iff, string_eq}
use sum.Prelude.Lists.{contains}
use sum.Prelude.Map.{get}
use text.Mathlib.TextEquality.{eq_iff}
use sum.Proto.{Record}
use sum.Storage.Env.{Env}
use sum.Storage.Files.{flush}
use sum.Storage.Index
use sum.Storage.Index.{Index, path_for_id}
use sum.Storage.Meta.{bucket_in, entries}
use sum.Storage.Meta.Laws.{bucket}
use sum.Storage.Records.{Records, find, find_by, update}
use sum.Storage.Records.Completeness.{IsIndexed}
use sum.Storage.Records.Serving
use sum.Storage.Records.Search.{find_by_complete, find_by-update_stale}
use sum.Tests.Memory.{memory}

abbrev env : Env Record
env = memory Record

abbrev tagged : ℕ → String → Record
tagged id val = record {
  id = id;
  elems = some (7 ∷ []);
  shape = none;
  meta = some (("tag", val) ∷ []);
}

-- one stored record, under the identifier 1, in the bucket of its tag
abbrev shelf : Records env
shelf = record {
  base = record {
    data_path = "data/";
    index = (1, tagged 1 "a") ∷ [];
    next_id = 2;
    disk = ("data/1.dat", tagged 1 "a") ∷ [];
  };
  meta_by = ("tag", ("a", 1 ∷ []) ∷ []) ∷ [];
}

shelf-IsIndexed : IsIndexed shelf
unfolding get Index.find contains bucket bucket_in
shelf-IsIndexed id m k v p q = ground (arith, eq_iff "tag" k, eq_iff "a" v, nat_beq_iff 1 id)

serve-IsIndexed_example :
    (r' : Records env) × (Serving.serve (Serving.update (tagged 1 "b")) shelf ≡ some r')
    × IsIndexed r'
unfolding Index.update get flush
serve-IsIndexed_example =
    Serving.serve-IsIndexed (Serving.update (tagged 1 "b")) shelf refl shelf-IsIndexed

find_by_complete_example :
    (rs : List Record) × (find_by "tag" "a" shelf ≡ some rs) × Memᴰ (tagged 1 "a") rs
unfolding find get Index.find
find_by_complete_example =
    find_by_complete 1 (tagged 1 "a") "tag" "a" shelf shelf-IsIndexed refl refl

find_by-update_stale_example :
    (r' : Records env) × (m : Record) × (rs : List Record) × (update (tagged 1 "b") shelf
      ≡ some (r', none))
    × (get "tag" (entries m) ≡ some "b")
    × (find_by "tag" "a" r' ≡ some rs)
    × Memᴰ m rs
unfolding Index.update find get Index.find flush
find_by-update_stale_example =
    find_by-update_stale (tagged 1 "b") (tagged 1 "a") (("tag", "b") ∷ []) "tag" "a" "b" shelf
      shelf-IsIndexed refl refl refl refl refl
