-- ===== src/Grid/Agreement.antt =====
-- About the conflicts of a layout (`_schema_conflicts` of server/timing/result_grid.py) in a checkpoint.
use balchug_racing.Base.{
  ℕ, ◌≡◌, refl, sym, ap, ◌∙◌, inl, inr, String, Bool, true, ◌&&◌, Option, none, some, List, [], ◌∷◌,
  ◌++◌, ltb, length, arith, Bool-cases, str_eq, str_eq_iff,
}
use mathlib.Core.List.{append_assoc, append-nil}
use balchug_racing.Base.Dict.{
  Dict, lookup, insert, nat_eq, string_eq, is_dict, insert-is_dict, beq_refl,
}
use balchug_racing.Base.Ordered.{
  sorted_items, all_items, all_items-sorted_items, lookup-sorted_items, sorted_items-is_dict,
  length-sorted_items, lookup-before, insert-end,
}
use balchug_racing.Wire.Json.{Json, object, to_list}
use balchug_racing.Grid.Text.{Texts}
use balchug_racing.Grid.Columns.{ResultColumn, result_columns}
use balchug_racing.Grid.Reducer.{add_key, or_none, indexes_by_key, duplicates, schema_conflicts_of}
use balchug_racing.Grid.Conflicts.{is_text, is_key, have_keys, result_columns-have_keys}
use balchug_racing.Grid.Checkpoint.{
  checkpoint_natural, checkpoint_naturals, conflicts_from, checkpoint_conflicts, naturals,
  conflict_fields, text_before, same_list, all_in, same_conflicts,
}

-- every key is a text that is not empty
abbrev named : Dict String (List ℕ) → Bool
named = all_items (λ k ns. is_text k)

-- and has two indexes or more
abbrev pub are_conflicts : Dict String (List ℕ) → Bool
are_conflicts = all_items (λ k ns. is_text k && ltb 1 (length ns))

insert-named :
    (k : String) (ns : List ℕ) (d : Dict String (List ℕ))
    → is_text k ≡ true
    → named d ≡ true
    → named (insert k ns d) ≡ true
insert-named k ns [] h a = rw h refl
insert-named k ns ((j, ms) ∷ d) h a = ground (arith, insert-named k ns d h)

add_key-named :
    (key : Option String) (n : ℕ) (d : Dict String (List ℕ))
    → is_key key ≡ true
    → named d ≡ true
    → named (add_key key n d) ≡ true
add_key-named none n d h a = a
add_key-named (some k) n d h a = insert-named k (or_none (lookup k d) ++ n ∷ []) d h a

add_key-is_dict :
    (key : Option String) (n : ℕ) (d : Dict String (List ℕ))
    → is_dict d ≡ true
    → is_dict (add_key key n d) ≡ true
add_key-is_dict none n d h = h
add_key-is_dict (some k) n d h = insert-is_dict k (or_none (lookup k d) ++ n ∷ []) d h

indexes_by_key-named :
    (cs : Dict ℕ ResultColumn) (d : Dict String (List ℕ))
    → have_keys cs ≡ true
    → named d ≡ true
    → named (indexes_by_key cs d) ≡ true
unfolding indexes_by_key
indexes_by_key-named [] d h a = a
indexes_by_key-named ((n, c) ∷ cs) d h a =
    indexes_by_key-named cs (add_key c.key n d) (ground arith)
      (add_key-named c.key n d (ground arith) a)

indexes_by_key-is_dict :
    (cs : Dict ℕ ResultColumn) (d : Dict String (List ℕ))
    → is_dict d ≡ true
    → is_dict (indexes_by_key cs d) ≡ true
unfolding indexes_by_key
indexes_by_key-is_dict [] d h = h
indexes_by_key-is_dict ((n, c) ∷ cs) d h =
    indexes_by_key-is_dict cs (add_key c.key n d) (add_key-is_dict c.key n d h)

duplicates-are_conflicts :
    (d : Dict String (List ℕ)) → named d ≡ true → are_conflicts (duplicates d) ≡ true
duplicates-are_conflicts [] h = refl
duplicates-are_conflicts ((k, ns) ∷ d) h = ground (arith, duplicates-are_conflicts d)

lookup-duplicates :
    (k : String) (d : Dict String (List ℕ)) → lookup k d ≡ none → lookup k (duplicates d) ≡ none
lookup-duplicates k [] h = refl
lookup-duplicates k ((j, ns) ∷ d) h = elim (Bool-cases (str_eq k j)) [
  | inl hit ↦ absurd (ground arith)
  | inr miss ↦
      let rest = lookup-duplicates k d (rw miss at h) in
      elim (Bool-cases (ltb 1 (length ns))) [
        | inl many ↦ rw (many, miss) rest
        | inr few ↦ rw few rest
      ]
]

duplicates-is_dict : (d : Dict String (List ℕ)) → is_dict d ≡ true → is_dict (duplicates d) ≡ true
duplicates-is_dict [] h = refl
duplicates-is_dict ((k, ns) ∷ d) h = elim (Bool-cases (ltb 1 (length ns))) [
  | inr few ↦ rw few (duplicates-is_dict d (ground arith))
  | inl many ↦ rw (many, lookup-duplicates k d (ground arith)) (duplicates-is_dict d (ground arith))
]

schema_conflicts_of-are_conflicts :
    (t : Texts) (layout : Json)
    → are_conflicts (schema_conflicts_of (result_columns t layout)) ≡ true
unfolding schema_conflicts_of
schema_conflicts_of-are_conflicts t layout =
    duplicates-are_conflicts (indexes_by_key (result_columns t layout) [])
      (indexes_by_key-named (result_columns t layout) [] (result_columns-have_keys t layout) refl)

schema_conflicts_of-is_dict : (cs : Dict ℕ ResultColumn) → is_dict (schema_conflicts_of cs) ≡ true
unfolding schema_conflicts_of
schema_conflicts_of-is_dict cs =
    duplicates-is_dict (indexes_by_key cs []) (indexes_by_key-is_dict cs [] refl)

checkpoint_naturals-naturals : (ns : List ℕ) → checkpoint_naturals (to_list (naturals ns)) ≡ some ns
unfolding checkpoint_naturals checkpoint_natural
checkpoint_naturals-naturals [] = refl
checkpoint_naturals-naturals (n ∷ ns) = rw (checkpoint_naturals-naturals ns) refl

-- conflicts are read back one at a time, after those that are there
conflicts_from-conflict_fields :
    (d done : Dict String (List ℕ))
    → are_conflicts d ≡ true
    → is_dict (done ++ d) ≡ true
    → conflicts_from (conflict_fields d) done ≡ some (done ++ d)
unfolding conflicts_from
conflicts_from-conflict_fields [] done a h = ap some (sym (append-nil done))
conflicts_from-conflict_fields ((k, ns) ∷ d) done a h =
    let fresh : lookup k done ≡ none = lookup-before k ns done d h in
    let text : is_text k ≡ true = ground arith in
    let many : ltb 1 (length ns) ≡ true = ground arith in
    let middle : (done ++ (k, ns) ∷ []) ++ d ≡ done ++ (k, ns) ∷ d =
      append_assoc done ((k, ns) ∷ []) d in
    rw (text, checkpoint_naturals-naturals ns, many, insert-end k ns done fresh)
      (conflicts_from-conflict_fields d (done ++ (k, ns) ∷ []) (ground arith)
          (ap is_dict middle ∙ h)
        ∙ ap some middle)

same_list_refl : (ns : List ℕ) → same_list ns ns ≡ true
same_list_refl [] = refl
same_list_refl (n ∷ ns) = rw (beq_refl n, same_list_refl ns) refl

all_in-lookup :
    (d other : Dict String (List ℕ))
    → is_dict d ≡ true
    → ((k : String) (ns : List ℕ) → lookup k d ≡ some ns → lookup k other ≡ some ns)
    → all_in d other ≡ true
all_in-lookup [] other h found = refl
all_in-lookup ((k, ns) ∷ d) other h found =
    let here : lookup k other ≡ some ns = found k ns (rw (beq_refl k) refl) in
    rw (here, same_list_refl ns)
      (all_in-lookup d other (ground arith) λ j ms e. found j ms (later j ms e))
  where
    later : (j : String) (ms : List ℕ) → lookup j d ≡ some ms → lookup j ((k, ns) ∷ d) ≡ some ms
    later j ms e = elim (Bool-cases (str_eq j k)) [
      | inr away ↦ rw away e
      | inl here ↦
          let p : j ≡ k = (str_eq_iff j k).0 here in
          let q : lookup k d ≡ some ms = rw (← p) e in absurd (ground arith)
    ]

same_conflicts-ordered :
    (d : Dict String (List ℕ))
    → is_dict d ≡ true
    → same_conflicts d (sorted_items text_before d) ≡ true
same_conflicts-ordered d h =
    rw (length-sorted_items text_before d, beq_refl (length d))
      (all_in-lookup d (sorted_items text_before d) h
        λ k ns e. lookup-sorted_items text_before k d h ∙ e)

-- The conflicts of a layout are read back from a checkpoint,
pub checkpoint_conflicts-sorted_items :
    (t : Texts) (layout : Json)
    → checkpoint_conflicts (
        some (
          object (
            conflict_fields
              (sorted_items text_before (schema_conflicts_of (result_columns t layout))))))
      ≡ some (sorted_items text_before (schema_conflicts_of (result_columns t layout)))
unfolding checkpoint_conflicts
checkpoint_conflicts-sorted_items t layout =
    let cs = schema_conflicts_of (result_columns t layout) in
    conflicts_from-conflict_fields (sorted_items text_before cs) []
      (all_items-sorted_items text_before _ cs (schema_conflicts_of-are_conflicts t layout))
      (sorted_items-is_dict text_before cs (schema_conflicts_of-is_dict (result_columns t layout)))

-- as conflicts that equal them.
pub same_conflicts-sorted_items :
    (t : Texts) (layout : Json)
    → same_conflicts
        (schema_conflicts_of (result_columns t layout))
        (sorted_items text_before (schema_conflicts_of (result_columns t layout)))
      ≡ true
same_conflicts-sorted_items t layout =
    same_conflicts-ordered (schema_conflicts_of (result_columns t layout))
      (schema_conflicts_of-is_dict (result_columns t layout))
