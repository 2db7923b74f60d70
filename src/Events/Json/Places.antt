-- ===== src/Events/Json/Places.antt =====
-- internal/events/compare.go: the places in JSON values, to say when JSONDiff observes nothing.
use mathlib.Core.Path.{ap}
use hermes_security_skills.Base.{
  Bool, List, Option, [], map_some, none, refl, some, suc, zero, ℕ, ◌∷◌, ◌≡◌,
}
use hermes_security_skills.Base.Int.{ℤ}
use hermes_security_skills.Base.Text.{Text}
use hermes_security_skills.Document.{
  Fields, Items, Value, bool_value, get_field, int_value, item, map_value, nil_value, no_items,
  seq_value, string_value,
}
use hermes_security_skills.Events.Json.{items_length}

-- A place in a JSON value, step by step, and what stands there.
pub data JsonStep : Type 0 where
  at_key : Text → JsonStep
  at_index : ℕ → JsonStep

pub data JsonShape : Type 0 where
  nil_shape object_shape : JsonShape
  bool_shape : Bool → JsonShape
  int_shape : ℤ → JsonShape
  string_shape : Text → JsonShape
  array_shape : ℕ → JsonShape

abbrev pub shape_of : Value → JsonShape
shape_of nil_value = nil_shape
shape_of (bool_value b) = bool_shape b
shape_of (int_value n) = int_shape n
shape_of (string_value s) = string_shape s
shape_of (seq_value xs) = array_shape (items_length xs)
shape_of (map_value m) = object_shape

unfoldable pub item_at : ℕ → Items → Option Value
item_at i no_items = none
item_at zero (item x xs) = some x
item_at (suc i) (item x xs) = item_at i xs

abbrev pub child : JsonStep → Option Value → Option Value
child (at_key name) (some (map_value m)) = get_field name m
child (at_index i) (some (seq_value xs)) = item_at i xs
child _ _ = none

abbrev pub shape_in : List JsonStep → Option Value → Option JsonShape
shape_in [] o = map_some shape_of o
shape_in (p ∷ ps) o = shape_in ps (child p o)

-- The same stands at every place of both.
abbrev pub SameJson : Option Value → Option Value → Type 0
SameJson a b = (ps : List JsonStep) → shape_in ps a ≡ shape_in ps b

pub places_seq :
    (xs ys : Items)
    → items_length xs ≡ items_length ys
    → ((n : ℕ) → SameJson (item_at n xs) (item_at n ys))
    → SameJson (some (seq_value xs)) (some (seq_value ys))
places_seq xs ys e h [] = ap (λ n. some (array_shape n)) e
places_seq xs ys e h (at_key name ∷ ps) = refl
places_seq xs ys e h (at_index n ∷ ps) = h n ps

pub places_map :
    (m n : Fields)
    → ((name : Text) → SameJson (get_field name m) (get_field name n))
    → SameJson (some (map_value m)) (some (map_value n))
places_map m n h [] = refl
places_map m n h (at_key name ∷ ps) = h name ps
places_map m n h (at_index i ∷ ps) = refl
