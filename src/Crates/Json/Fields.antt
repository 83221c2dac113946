-- ===== src/Crates/Json/Fields.antt =====
-- Reading back what was written into a JSON object.
use mathlib.Core.List.{foldl}
use did_rust.Prelude.{
  Text, text_eq, text_eq_refl, ◌≡◌, ◌∙◌, ap, true, false, refl, List, [], ◌∷◌, Option, none, some,
  if◌then◌else◌,
}
use did_rust.Prelude.Utf8.{is_utf8}
use did_rust.Crates.Json.{
  Json, IsJson, string, object, string_value, json_object, object_variant, str_variant,
}

module _ (J : Json) (L : IsJson J) where
  pub as_object-object : (m : J.Map) → J.as_object (J.value (object m)) ≡ some m
  as_object-object m =
      L.as_object_lem (J.value (object m)) ∙ ap (object_variant J) (L.variant-value (object m) tt)

  pub as_str-string : (t : Text) → is_utf8 t ≡ true → J.as_str (string_value J t) ≡ some t
  as_str-string t h =
      L.as_str_lem (string_value J t) ∙ ap (str_variant J) (L.variant-value (string t) h)

  pub get-insert_self : (m : J.Map) (k : Text) (v : J.Value) → J.get (J.insert m k v) k ≡ some v
  get-insert_self m k v =
      L.get-insert m k k v ∙ ap (λ b. if b then some v else J.get m k) (text_eq_refl k)

  pub get-insert_ne :
      (m : J.Map) (j k : Text) (v : J.Value)
      → text_eq j k ≡ false
      → J.get (J.insert m j v) k ≡ J.get m k
  get-insert_ne m j k v h = L.get-insert m j k v ∙ ap (λ b. if b then some v else J.get m k) h

-- The last value of a key in a list of fields, or `d` if it has none.
abbrev pub field_of {ℓ} : {V : Type ℓ} → List (Text × V) → Text → Option V → Option V
field_of [] k d = d
field_of ((j, v) ∷ fields) k d = field_of fields k (if text_eq j k then some v else d)

module _ (J : Json) (L : IsJson J) where
  abbrev pub object_map : List (Text × J.Value) → J.Map
  object_map fields = foldl (λ m f. J.insert m f.0 f.1) J.new fields

  get-foldl :
      (fields : List (Text × J.Value)) (m : J.Map) (k : Text)
      → J.get (foldl (λ n f. J.insert n f.0 f.1) m fields) k ≡ field_of fields k (J.get m k)
  get-foldl [] m k = refl
  get-foldl ((j, v) ∷ fields) m k =
      get-foldl fields (J.insert m j v) k ∙ ap (field_of fields k) (L.get-insert m j k v)

  -- A field of an object that was written field by field.
  pub get-object_map :
      (fields : List (Text × J.Value)) (k : Text)
      → J.get (object_map fields) k ≡ field_of fields k none
  get-object_map fields k = get-foldl fields J.new k ∙ ap (field_of fields k) (L.get-new k)

  pub as_object-json_object :
      (fields : List (Text × J.Value))
      → J.as_object (json_object J fields) ≡ some (object_map fields)
  unfolding json_object
  as_object-json_object fields = as_object-object J L (object_map fields)
