-- ===== src/Events/Json.antt =====
-- internal/events/compare.go: JSONDiff, the comparison of two JSON values. A number of JSON is a whole
-- number here, and formatVal, which prints a value, is left to the reader of a difference.
pub mod Places
pub mod Same
use hermes_security_skills.Base.{
  Bool, List, Option, [], eqb, false, if◌then◌else◌, keep, none, not, some, suc, true, ℕ, ◌&&◌,
  ◌++◌, ◌∷◌,
}
use hermes_security_skills.Base.Int.{lebℤ}
use hermes_security_skills.Base.Text.{Text, codes, ◌==◌}
use hermes_security_skills.Capability.{sort_texts}
use hermes_security_skills.Document.{
  Fields, Items, Value, bool_value, field, get_field, int_value, item, map_value, nil_value,
  no_fields, no_items, seq_value, string_value,
}
use hermes_security_skills.Events.{EventCodec}

-- The details of the observations, each with its path.
pub data JsonDifference : Type 0 where
  only_json_a only_json_b : Text → Value → JsonDifference
  length_differs : Text → ℕ → ℕ → JsonDifference
  value_differs : Text → Value → Value → JsonDifference

-- The keys of a mapping, as Go happens to visit them.
unfoldable pub field_keys : Fields → List Text
field_keys no_fields = []
field_keys (field name v rest) = name ∷ field_keys rest

unfoldable pub items_length : Items → ℕ
items_length no_items = 0
items_length (item v rest) = suc (items_length rest)

abbrev pub has_field : Text → Fields → Bool
has_field name m = elim (get_field name m) [ none ↦ false | some _ ↦ true ]

-- sortedStringKeys
unfoldable pub sorted_string_keys : Fields → Fields → List Text
unfolding sort_texts keep get_field field_keys
sorted_string_keys a b =
    sort_texts (field_keys a ++ keep (λ name. not (has_field name a)) (field_keys b))

-- reflect.DeepEqual on two values that are not both mappings and not both sequences.
abbrev pub deep_equal : Value → Value → Bool
deep_equal nil_value nil_value = true
deep_equal (bool_value true) (bool_value b) = b
deep_equal (bool_value false) (bool_value b) = not b
deep_equal (int_value m) (int_value n) = lebℤ m n && lebℤ n m
deep_equal (string_value s) (string_value t) = s == t
deep_equal _ _ = false

-- The loop over the keys.
unfoldable pub each_key : (Text → List JsonDifference) → List Text → List JsonDifference
each_key f [] = []
each_key f (name ∷ names) = f name ++ each_key f names

abbrev pub length_diff : Text → ℕ → ℕ → List JsonDifference
length_diff path m n = if not (eqb m n) then length_differs path m n ∷ [] else []

abbrev pub value_diff : Text → Value → Value → List JsonDifference
value_diff path a b = if not (deep_equal a b) then value_differs path a b ∷ [] else []

module _ (k : EventCodec) where
  abbrev pub item_path : Text → ℕ → Text
  item_path path i = path ++ codes "[" ++ k.format_int i ++ codes "]"

  -- diffJSON; diff_items is its loop over two sequences, diff_field its switch on one key.
  unfoldable mutual
    unfolding each_key sorted_string_keys items_length

    pub diff_json : Text → Value → Value → List JsonDifference
    diff_json path nil_value b = value_diff path nil_value b
    diff_json path (bool_value x) b = value_diff path (bool_value x) b
    diff_json path (int_value n) b = value_diff path (int_value n) b
    diff_json path (string_value s) b = value_diff path (string_value s) b
    diff_json path (seq_value xs) (seq_value ys) =
        length_diff path (items_length xs) (items_length ys) ++ diff_items path 0 xs ys
    diff_json path (seq_value xs) b = value_diff path (seq_value xs) b
    diff_json path (map_value m) (map_value n) =
        each_key (λ name. diff_field m name (path ++ codes "." ++ name) (get_field name n))
          (sorted_string_keys m n)
    diff_json path (map_value m) b = value_diff path (map_value m) b

    pub diff_items : Text → ℕ → Items → Items → List JsonDifference
    diff_items path i no_items ys = []
    diff_items path i (item x xs) no_items = []
    diff_items path i (item x xs) (item y ys) =
        diff_json (item_path path i) x y ++ diff_items path (suc i) xs ys

    pub diff_field : Fields → Text → Text → Option Value → List JsonDifference
    diff_field no_fields name path none = []
    diff_field no_fields name path (some w) = only_json_b path w ∷ []
    diff_field (field key v rest) name path none =
        let later = diff_field rest name path none in
        if key == name then only_json_a path v ∷ [] else later
    diff_field (field key v rest) name path (some w) =
        let later = diff_field rest name path (some w) in
        let here = diff_json path v w in if key == name then here else later

  -- JSONDiff
  unfoldable pub json_diff : Value → Value → List JsonDifference
  unfolding diff_json
  json_diff a b = diff_json (codes "$") a b
