-- ===== src/Master/Merger/Merged.antt =====
-- What the default merger makes of the nodes' results (defaultMerger of master/mux_runner.go).
use mathlib.Core.List.{append-nil, append_assoc}
use sum.Prelude.{
  ◌≡◌, ◌∙◌, ap, sym, refl, ◌⊎◌, inl, inr, String, Option, none, some, List, [], ◌∷◌, ◌++◌, map,
  arith,
}
use sum.Prelude.Tests.{ok, ◌==◌, string_eq, beq_self, Bool-cases}
use sum.Prelude.Lists.{All}
use sum.Prelude.Map.{get, put, IsMap, get-put}
use sum.Node.Interpreter.{returned}
use sum.Master.Merger.{
  object, array, type_of, entries_of, items_of, merge_entries, merge_value, merge_typed, merge_from,
  default_merger,
}

unfoldable pub joined : {J : Type 0} → List (List J) → List J
joined [] = []
joined (l ∷ lists) = l ++ joined lists

-- the first value under a key
unfoldable pub first_of : {J : Type 0} → String → List (List (String × J)) → Option J
unfolding get
first_of k [] = none
first_of k (m ∷ maps) = elim (get k m) [ some v ↦ some v | none ↦ first_of k maps ]

-- no key stands in two of the maps
abbrev pub IsDisjoint : {J : Type 0} → List (String × J) → List (List (String × J)) → Type 0
IsDisjoint m [] = Unit {0}
IsDisjoint m (n ∷ maps) = ((k : String) → (get k m ≡ none) ⊎ (get k n ≡ none)) × IsDisjoint m maps

abbrev pub ArePairwiseDisjoint : {J : Type 0} → List (List (String × J)) → Type 0
ArePairwiseDisjoint [] = Unit {0}
ArePairwiseDisjoint (m ∷ maps) = IsDisjoint m maps × ArePairwiseDisjoint maps

module _ {J : Type 0} (print : J → String) where
  arrays_from :
      (l : List J) (lists : List (List J))
      → merge_from print (some "[]interface {}") (array l) (map array lists)
        ≡ returned (array (l ++ joined lists))
  unfolding merge_from merge_typed merge_value items_of joined type_of
  arrays_from l [] = ap (λ x. returned (array x)) (sym (append-nil l))
  arrays_from l (m ∷ lists) =
      arrays_from (l ++ m) lists ∙ ap (λ x. returned (array x)) (append_assoc l m (joined lists))

  -- Of lists the default merger makes the list of all their items, in the order of the results.
  pub default_merger_arrays :
      (l : List J) (lists : List (List J))
      → default_merger print (map array (l ∷ lists)) ≡ returned (array (joined (l ∷ lists)))
  unfolding default_merger merge_from merge_typed merge_value items_of joined type_of
  default_merger_arrays l lists = arrays_from l lists

  either : (k : String) → List (String × J) → List (String × J) → Option J
  either k mr m = elim (get k mr) [ some v ↦ some v | none ↦ get k m ]

  still_free :
      (j k : String) (v : J) (mr m : List (String × J))
      → get k m ≡ none
      → ((get j mr ≡ none) ⊎ (get j ((k, v) ∷ m) ≡ none))
      → (get j (put k v mr) ≡ none) ⊎ (get j m ≡ none)
  unfolding get
  still_free j k v mr m fresh d = elim (Bool-cases (k == j)) [
    | inl q ↦ inr (ap (λ x. get x m) (sym ((string_eq.means_eq k j).0 q)) ∙ fresh)
    | inr q ↦ elim d [ inl x ↦ inl (rw (get-put j k v mr, q) x) | inr x ↦ inr (rw (q, get) at x) ]
  ]

  either-put :
      (j k : String) (v : J) (mr m : List (String × J))
      → get k mr ≡ none
      → either j (put k v mr) m ≡ either j mr ((k, v) ∷ m)
  unfolding either get
  either-put j k v mr m free = elim (Bool-cases (k == j)) [
    | inl q ↦
        let same : get j mr ≡ none =
          ap (λ x. get x mr) (sym ((string_eq.means_eq k j).0 q)) ∙ free in
        ground (arith, get-put j k v mr, q, same)
    | inr q ↦ ground (arith, get-put j k v mr, q)
  ]

  merge_entries_lem :
      (mr m : List (String × J))
      → IsMap m
      → ((k : String) → (get k mr ≡ none) ⊎ (get k m ≡ none))
      → (mr' : List (String × J)) × (merge_entries print mr m ≡ ok mr')
        × ((k : String) → get k mr' ≡ either k mr m)
  unfolding merge_entries either get
  merge_entries_lem mr [] h d = (mr, refl, λ k. ground arith)
  merge_entries_lem mr ((k, v) ∷ m) (fresh, h) d =
      let free : get k mr ≡ none = ground (arith, beq_self k, d k) in
      let (mr', e, f) =
        merge_entries_lem (put k v mr) m h (λ j. still_free j k v mr m fresh (d j)) in
      (mr', rw (free, merge_entries) e, λ j. f j ∙ either-put j k v mr m free)

  apart :
      (out mr m : List (String × J)) (maps : List (List (String × J)))
      → ((k : String) → get k out ≡ either k mr m)
      → IsDisjoint mr maps
      → IsDisjoint m maps
      → IsDisjoint out maps
  unfolding either
  apart out mr m [] f d q = tt
  apart out mr m (n ∷ maps) f (d, ds) (q, qs) = (
    λ k. elim (d k) [
      | inr x ↦ inr x
      | inl x ↦ elim (q k) [ inr y ↦ inr y | inl y ↦ inl (ground (arith, f k, x, y)) ]
    ],
    apart out mr m maps f ds qs,
  )

  first_lem :
      (k : String) (out mr m : List (String × J)) (maps : List (List (String × J)))
      → get k out ≡ either k mr m
      → first_of k (out ∷ maps) ≡ first_of k (mr ∷ m ∷ maps)
  unfolding first_of either
  first_lem k out mr m maps h = ground (arith, h)

  step :
      (mr mr' m : List (String × J)) (maps : List (List (String × J)))
      → merge_entries print mr m ≡ ok mr'
      → merge_from print (some "map[string]interface {}") (object mr) (map object (m ∷ maps))
        ≡ merge_from print (some "map[string]interface {}") (object mr') (map object maps)
  unfolding merge_from merge_typed merge_value entries_of type_of
  step mr mr' m maps e = rw (e, merge_from) refl

  -- the keys of the results so far are in no later map
  maps_from :
      (mr : List (String × J)) (maps : List (List (String × J)))
      → All (λ m. IsMap m) maps
      → IsDisjoint mr maps
      → ArePairwiseDisjoint maps
      → (out : List (String × J)) × (merge_from print
            (some "map[string]interface {}")
            (object mr)
            (map object maps)
          ≡ returned (object out))
        × ((k : String) → get k out ≡ first_of k (mr ∷ maps))
  unfolding merge_from merge_typed merge_value entries_of first_of type_of
  maps_from mr [] h d p = (mr, refl, λ k. ground arith)
  maps_from mr (m ∷ maps) (h, hs) (d, ds) (q, qs) =
      let (mr', e, f) = merge_entries_lem mr m h d in
      let (out, g, at) = maps_from mr' maps hs (apart mr' mr m maps f ds q) qs in
      (out, step mr mr' m maps e ∙ g, λ k. at k ∙ first_lem k mr' mr m maps (f k))

  no_key :
      (m : List (String × J)) (k : String) → ◌⊎◌ {0, 0} (get {V = J} k [] ≡ none) (get k m ≡ none)
  unfolding get
  no_key m k = inl refl

  nowhere : (maps : List (List (String × J))) → IsDisjoint [] maps
  nowhere [] = tt
  nowhere (m ∷ maps) = (no_key m, nowhere maps)

  start :
      (mr m : List (String × J)) (maps : List (List (String × J)))
      → merge_entries print [] m ≡ ok mr
      → default_merger print (map object (m ∷ maps))
        ≡ merge_from print (some "map[string]interface {}") (object mr) (map object maps)
  unfolding default_merger merge_from merge_typed merge_value entries_of type_of
  start mr m maps e = rw (e, merge_from) refl

  -- Of maps of which no two have a key in common, the default merger makes a map that has under
  -- each key what the map with that key has.
  pub default_merger_maps :
      (m : List (String × J)) (maps : List (List (String × J)))
      → All (λ n. IsMap n) (m ∷ maps)
      → ArePairwiseDisjoint (m ∷ maps)
      → (out : List (String × J)) × (default_merger print (map object (m ∷ maps))
          ≡ returned (object out))
        × ((k : String) → get k out ≡ first_of k (m ∷ maps))
  unfolding first_of get
  default_merger_maps m maps (h, hs) (q, qs) =
      let (mr, e, f) = merge_entries_lem [] m h (no_key m) in
      let (out, g, at) = maps_from mr maps hs (apart mr [] m maps f (nowhere maps) q) qs in
      (out, start mr m maps e ∙ g, λ k. at k ∙ first_lem k mr [] m maps (f k))
