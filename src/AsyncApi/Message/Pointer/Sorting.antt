-- ===== src/AsyncApi/Message/Pointer/Sorting.antt =====
-- The order of the messages of a channel.
use agen.Prelude.{◌≡◌, refl, true, false, [], ◌∷◌, some, arith, if◌then◌else◌, if_both}
use agen.Prelude.Text.{Text, Map, lookup, eq_text, eq_text_iff}
use agen.AsyncApi.Message.Pointer.{leb_text, insert_sorted, sorted_entries}

leb_text_refl : (t : Text) → leb_text t t ≡ true
unfolding leb_text
leb_text_refl [] = refl
leb_text_refl (x ∷ t) = ground (arith, leb_text_refl t)

leb_text_total : (s t : Text) → leb_text s t ≡ false → leb_text t s ≡ true
unfolding leb_text
leb_text_total [] t h = cc
leb_text_total (x ∷ s) [] h = refl
leb_text_total (x ∷ s) (y ∷ t) h = ground (arith, leb_text_total s t)

module _ {V : Type 0} where
  -- The entries behind a first one that is not greater, in order.
  unfoldable pub IsSortedFrom : Text → Map V → Type 0
  IsSortedFrom j [] = Unit
  IsSortedFrom j ((k, v) ∷ m) = (leb_text j k ≡ true) × IsSortedFrom k m

  unfoldable pub IsSorted : Map V → Type 0
  IsSorted [] = Unit
  IsSorted ((k, v) ∷ m) = IsSortedFrom k m

  insert_sorted-IsSortedFrom :
      (j k : Text) (v : V) (m : Map V)
      → leb_text j k ≡ true
      → IsSortedFrom j m
      → IsSortedFrom j (insert_sorted k v m)
  unfolding insert_sorted IsSortedFrom
  insert_sorted-IsSortedFrom j k v [] h sorted = (h, tt)
  insert_sorted-IsSortedFrom j k v ((l, u) ∷ m) h (first, sorted) =
      if_both (IsSortedFrom j) (leb_text k l) (λ before. (h, (before, sorted)))
        (λ behind. (first, insert_sorted-IsSortedFrom l k v m (leb_text_total k l behind) sorted))

  insert_sorted-IsSorted :
      (k : Text) (v : V) (m : Map V) → IsSorted m → IsSorted (insert_sorted k v m)
  unfolding insert_sorted IsSorted IsSortedFrom
  insert_sorted-IsSorted k v [] sorted = tt
  insert_sorted-IsSorted k v ((l, u) ∷ m) sorted =
      if_both IsSorted (leb_text k l) (λ before. (before, sorted))
        (λ behind. insert_sorted-IsSortedFrom l k v m (leb_text_total k l behind) sorted)

  entries_in_order : (m : Map V) → IsSorted (sorted_entries m)
  unfolding sorted_entries IsSorted
  entries_in_order [] = tt
  entries_in_order ((k, v) ∷ m) = insert_sorted-IsSorted k v (sorted_entries m) (entries_in_order m)

  lookup-insert_sorted :
      (j k : Text) (v : V) (m : Map V)
      → lookup j (insert_sorted k v m) ≡ (if eq_text k j then some v else lookup j m)
  unfolding lookup insert_sorted
  lookup-insert_sorted j k v [] = refl
  lookup-insert_sorted j k v ((l, u) ∷ m) =
      ground
        (arith, lookup-insert_sorted j k v m, leb_text_refl k, eq_text_iff k j, eq_text_iff l j)

  lookup-sorted_entries : (j : Text) (m : Map V) → lookup j (sorted_entries m) ≡ lookup j m
  unfolding lookup sorted_entries
  lookup-sorted_entries j [] = refl
  lookup-sorted_entries j ((k, v) ∷ m) =
      ground (arith, lookup-insert_sorted j k v (sorted_entries m), lookup-sorted_entries j m)

  -- The entries that `sortedKeys` orders are in the order of their keys' bytes, and hold under every
  -- key what the map holds.
  pub sorted_entries-IsSorted :
      (m : Map V)
      → IsSorted (sorted_entries m) × ((j : Text) → lookup j (sorted_entries m) ≡ lookup j m)
  sorted_entries-IsSorted m = (entries_in_order m, λ j. lookup-sorted_entries j m)
