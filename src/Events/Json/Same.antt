-- ===== src/Events/Json/Same.antt =====
-- internal/events/compare.go: when JSONDiff observes nothing.
use mathlib.Core.Option.{some-ne-none}
use mathlib.Core.Path.{subst}
use hermes_security_skills.Base.{
  ++-empty, Bool, Bool-cases, In, In-++l, In-++r, In-keep, List, Option, Option-cases, [], ap,
  arith, eqb, eqb_iff, false, inl, inr, keep, none, not, refl, some, suc, sym, true, zero, ℕ, ◌++◌,
  ◌↔◌, ◌∙◌, ◌∷◌, ◌≡◌, ◌⊎◌,
}
use hermes_security_skills.Base.Int.{eq_of_parts, parts_eq}
use hermes_security_skills.Base.Text.{Text, codes, ◌==◌}
use hermes_security_skills.Base.Text.Laws.{==_iff, ==_refl}
use hermes_security_skills.Capability.Order.{sort_texts-In}
use hermes_security_skills.Document.{
  Fields, Items, Value, bool_value, field, get_field, int_value, item, map_value, nil_value,
  no_fields, no_items, seq_value, string_value,
}
use hermes_security_skills.Events.{EventCodec}
use hermes_security_skills.Events.Json.{
  JsonDifference, deep_equal, diff_field, diff_items, diff_json, each_key, field_keys, has_field,
  item_path, items_length, json_diff, length_diff, sorted_string_keys, value_diff,
}
use hermes_security_skills.Events.Json.Places.{
  SameJson, array_shape, at_index, at_key, item_at, places_map, places_seq, shape_in, shape_of,
}

deep_equal-eq : (a b : Value) → deep_equal a b ≡ true → a ≡ b
deep_equal-eq nil_value nil_value h = refl
deep_equal-eq (bool_value true) (bool_value true) h = refl
deep_equal-eq (bool_value false) (bool_value false) h = refl
deep_equal-eq (int_value m) (int_value n) h = ap (λ x. int_value x) (eq_of_parts m n (ground arith))
deep_equal-eq (string_value s) (string_value t) h = ap (λ x. string_value x) ((==_iff s t).0 h)
deep_equal-eq _ _ h = cc

length_diff-empty : (path : Text) (m n : ℕ) → length_diff path m n ≡ [] → m ≡ n
length_diff-empty path m n h = elim (Bool-cases (eqb m n)) [
  | inl e ↦ (eqb_iff m n).0 e
  | inr e ↦ (let impossible = rw e at h in cc)
]

value_diff-Same :
    (path : Text) (a b : Value) → value_diff path a b ≡ [] → SameJson (some a) (some b)
value_diff-Same path a b h ps = elim (Bool-cases (deep_equal a b)) [
  | inl e ↦ ap (λ x. shape_in ps (some x)) (deep_equal-eq a b e)
  | inr e ↦ (let impossible = rw e at h in cc)
]

each_key-empty :
    (f : Text → List JsonDifference) (names : List Text)
    → each_key f names ≡ []
    → (name : Text) → In name names
    → f name ≡ []
unfolding each_key
each_key-empty f [] h name i = absurd i
each_key-empty f (n ∷ names) h name i =
    let (first, rest) = ++-empty (f n) (each_key f names) h in
    elim i [
      | inl e ↦ subst (λ x. f x ≡ []) e first
      | inr later ↦ each_key-empty f names rest name later
    ]

each_key-same :
    (f : Text → List JsonDifference) (names : List Text)
    → ((name : Text) → f name ≡ [])
    → each_key f names ≡ []
unfolding each_key
each_key-same f [] h = refl
each_key-same f (n ∷ names) h = rw (h n) (each_key-same f names h)

get_field-In :
    (name : Text) (v : Value) (m : Fields) → get_field name m ≡ some v → In name (field_keys m)
unfolding get_field field_keys
get_field-In name v no_fields h = absurd (some-ne-none _ (sym h))
get_field-In name v (field n w m) h = elim (Bool-cases (n == name)) [
  | inl e ↦ inl ((==_iff n name).0 e)
  | inr e ↦ inr (get_field-In name v m (rw (e, get_field) at h))
]

-- A key of one of the two is compared.
keys-In :
    (a b : Fields) (name : Text)
    → (get_field name a ≡ none) × (get_field name b ≡ none) ⊎ In name (sorted_string_keys a b)
unfolding sorted_string_keys
keys-In a b name =
    let more = keep (λ n. not (has_field n a)) (field_keys b) in
    elim (Option-cases (get_field name a)) [
      | inr (v, e) ↦ inr (
          sort_texts-In name (field_keys a ++ more)
            (In-++l name (field_keys a) more (get_field-In name v a e)))
      | inl e ↦ elim (Option-cases (get_field name b)) [
        | inl f ↦ inl (e, f)
        | inr (w, f) ↦
            let fresh_key : not (has_field name a) ≡ true = rw (e, not, has_field) refl in
            inr (
              sort_texts-In name (field_keys a ++ more) (
                In-++r name (field_keys a) more (
                  In-keep (λ n. not (has_field n a)) name (field_keys b) (get_field-In name w b f)
                    fresh_key)))
      ]
    ]

abbrev is_scalar : Value → Bool
is_scalar (seq_value xs) = false
is_scalar (map_value m) = false
is_scalar _ = true

deep_equal_of_shape :
    (a b : Value)
    → is_scalar a ≡ true
    → some (shape_of a) ≡ some (shape_of b)
    → deep_equal a b ≡ true
deep_equal_of_shape nil_value nil_value h e = refl
deep_equal_of_shape (bool_value true) (bool_value b) h e = cc
deep_equal_of_shape (bool_value false) (bool_value true) h e = cc
deep_equal_of_shape (bool_value false) (bool_value false) h e = refl
deep_equal_of_shape (int_value m) (int_value n) h e =
    let same : m ≡ n = cc in ground (arith, parts_eq same)
deep_equal_of_shape (string_value s) (string_value t) h e =
    let same : s ≡ t = cc in ap (λ x. s == x) (sym same) ∙ ==_refl s
deep_equal_of_shape _ _ h e = cc

value_diff-none :
    (path : Text) (a b : Value)
    → is_scalar a ≡ true
    → SameJson (some a) (some b)
    → value_diff path a b ≡ []
value_diff-none path a b h same = rw (deep_equal_of_shape a b h (same [])) refl

array_shape-injective : {m n : ℕ} → some (array_shape m) ≡ some (array_shape n) → m ≡ n
array_shape-injective h = cc

length_diff-same : (path : Text) (m n : ℕ) → m ≡ n → length_diff path m n ≡ []
length_diff-same path m n h = rw ((eqb_iff m n).1 h) refl

module _ (k : EventCodec) where
  mutual
    unfolding diff_json get_field items_length item_at

    diff_json-Same :
        (path : Text) (a b : Value) → diff_json k path a b ≡ [] → SameJson (some a) (some b)
    diff_json-Same path nil_value b h = value_diff-Same path nil_value b h
    diff_json-Same path (bool_value x) b h = value_diff-Same path (bool_value x) b h
    diff_json-Same path (int_value n) b h = value_diff-Same path (int_value n) b h
    diff_json-Same path (string_value s) b h = value_diff-Same path (string_value s) b h
    diff_json-Same path (seq_value xs) (seq_value ys) h =
        let (same_length, same_items) =
          ++-empty (length_diff path (items_length xs) (items_length ys)) _ h in
        let lengths = length_diff-empty path (items_length xs) (items_length ys) same_length in
        let items = diff_items-Same path 0 xs ys lengths same_items in
        places_seq xs ys lengths items
    diff_json-Same path (map_value m) (map_value n) h = places_map m n (λ name.
        elim (keys-In m n name) [
          | inl (e, f) ↦ λ ps. ap (shape_in ps) (e ∙ sym f)
          | inr listed ↦
              diff_field-Same m name (path ++ codes "." ++ name) (get_field name n)
                (each_key-empty _ (sorted_string_keys m n) h name listed)
        ])
    diff_json-Same path a b h = value_diff-Same path a b h

    diff_items-Same :
        (path : Text) (i : ℕ) (xs ys : Items)
        → items_length xs ≡ items_length ys
        → diff_items k path i xs ys ≡ []
        → (n : ℕ) → SameJson (item_at n xs) (item_at n ys)
    diff_items-Same path i no_items no_items e h n = λ ps. refl
    diff_items-Same path i no_items (item y ys) e h n = absurd (omega (arith, e))
    diff_items-Same path i (item x xs) no_items e h n = absurd (omega (arith, e))
    diff_items-Same path i (item x xs) (item y ys) e h zero =
        diff_json-Same (item_path k path i) x y
          (++-empty (diff_json k (item_path k path i) x y) _ h).0
    diff_items-Same path i (item x xs) (item y ys) e h (suc n) =
        diff_items-Same path (suc i) xs ys (omega (arith, e))
          (++-empty (diff_json k (item_path k path i) x y) _ h).1 n

    diff_field-Same :
        (m : Fields) (name path : Text) (o : Option Value)
        → diff_field k m name path o ≡ []
        → SameJson (get_field name m) o
    diff_field-Same no_fields name path none h = λ ps. refl
    diff_field-Same no_fields name path (some w) h = cc
    diff_field-Same (field key v rest) name path none h = elim (Bool-cases (key == name)) [
      | inl e ↦ (let impossible = rw e at h in cc)
      | inr e ↦ rw e (diff_field-Same rest name path none (rw e at h))
    ]
    diff_field-Same (field key v rest) name path (some w) h = elim (Bool-cases (key == name)) [
      | inl e ↦ rw e (diff_json-Same path v w (rw e at h))
      | inr e ↦ rw e (diff_field-Same rest name path (some w) (rw e at h))
    ]

  mutual
    unfolding diff_json get_field items_length item_at each_key sorted_string_keys

    diff_json-none :
        (path : Text) (a b : Value) → SameJson (some a) (some b) → diff_json k path a b ≡ []
    diff_json-none path nil_value b h = value_diff-none path nil_value b refl h
    diff_json-none path (bool_value x) b h = value_diff-none path (bool_value x) b refl h
    diff_json-none path (int_value n) b h = value_diff-none path (int_value n) b refl h
    diff_json-none path (string_value s) b h = value_diff-none path (string_value s) b refl h
    diff_json-none path (seq_value xs) (seq_value ys) h =
        let lengths = array_shape-injective (h []) in
        rw (length_diff-same path (items_length xs) (items_length ys) lengths)
          (diff_items-none path 0 xs ys (λ n ps. h (at_index n ∷ ps)))
    diff_json-none path (map_value m) (map_value n) h =
        each_key-same _ (sorted_string_keys m n) (λ name.
          diff_field-none m name (path ++ codes "." ++ name) (get_field name n)
            (λ ps. h (at_key name ∷ ps)))
    diff_json-none path (seq_value xs) b h = let differ = h [] in cc
    diff_json-none path (map_value m) b h = let differ = h [] in cc

    diff_items-none :
        (path : Text) (i : ℕ) (xs ys : Items)
        → ((n : ℕ) → SameJson (item_at n xs) (item_at n ys))
        → diff_items k path i xs ys ≡ []
    diff_items-none path i no_items ys h = refl
    diff_items-none path i (item x xs) no_items h = refl
    diff_items-none path i (item x xs) (item y ys) h =
        rw (diff_json-none (item_path k path i) x y (h 0))
          (diff_items-none path (suc i) xs ys (λ n. h (suc n)))

    diff_field-none :
        (m : Fields) (name path : Text) (o : Option Value)
        → SameJson (get_field name m) o
        → diff_field k m name path o ≡ []
    diff_field-none no_fields name path none h = refl
    diff_field-none no_fields name path (some w) h = let differ = h [] in cc
    diff_field-none (field key v rest) name path none h = elim (Bool-cases (key == name)) [
      | inl e ↦ (let differ = (rw e at h) [] in cc)
      | inr e ↦ rw e (diff_field-none rest name path none (rw e at h))
    ]
    diff_field-none (field key v rest) name path (some w) h = elim (Bool-cases (key == name)) [
      | inl e ↦ rw e (diff_json-none path v w (rw e at h))
      | inr e ↦ rw e (diff_field-none rest name path (some w) (rw e at h))
    ]

  -- JSONDiff observes nothing exactly where the two values are the same: where the same stands at
  -- every place of both, a null, a truth value, a number, a text, a sequence of the same length, a
  -- mapping, or nothing.
  pub json_diff_iff : (a b : Value) → (json_diff k a b ≡ []) ↔ SameJson (some a) (some b)
  unfolding json_diff
  json_diff_iff a b = (diff_json-Same (codes "$") a b, diff_json-none (codes "$") a b)
