-- ===== src/Document/RoundTrip.antt =====
-- A document that is written is read back.
use did_rust.Prelude.{
  Text, str, text_eq, true, All, List, [], ◌∷◌, map, Option, none, some, ok, ◌≡◌, refl, ◌∙◌,
}
use did_rust.Prelude.Utf8.{is_utf8}
use did_rust.Crates.Json.{Json, IsJson, null, string, array, object, json_object, string_value}
use did_rust.Crates.Json.Fields.{field_of, object_map, get-object_map, as_str-string}
use did_rust.Envelope.{optional}
use did_rust.Resolver.{VerificationMethod, DidDocument}
use did_rust.Document.{
  Read, read_all, read_str, read_array, read_optional, required, defaulted, maybe, method_of_value,
  read_struct, method_of_map, method_of_seq, document_of_map, document_of_seq, document_of_value,
  method_fields, method_value, document_fields, document_value,
}

-- The texts of a document are valid.
abbrev pub IsTextOption : Option Text → Type 0
IsTextOption none = Unit
IsTextOption (some t) = is_utf8 t ≡ true

pub record IsTextMethod (method : VerificationMethod) : Type 0 where
  pub id : is_utf8 method.id ≡ true
  pub type_ : is_utf8 method.type_ ≡ true
  pub controller : is_utf8 method.controller ≡ true
  pub public_key_base58 : IsTextOption method.public_key_base58
  pub public_key_multibase : IsTextOption method.public_key_multibase

pub record IsTextDocument (doc : DidDocument) : Type 0 where
  pub id : is_utf8 doc.id ≡ true
  pub verification_method : All IsTextMethod doc.verification_method

module _ (J : Json) (L : IsJson J) where
  pub read_str-string : (t : Text) → is_utf8 t ≡ true → read_str J (string_value J t) ≡ ok t
  unfolding read_str
  read_str-string t h = rw (as_str-string J L t h)

  pub read_struct-object :
      {A : Type 0} (of_map : J.Map → Read J A) (of_seq : List J.Value → Read J A) (v : J.Value)
      (m : J.Map)
      → J.variant v ≡ object m
      → read_struct J of_map of_seq v ≡ of_map m
  unfolding read_struct
  read_struct-object of_map of_seq v m h = rw (h, read_struct)

  pub variant-json_object :
      (fields : List (Text × J.Value))
      → J.variant (json_object J fields) ≡ object (object_map J L fields)
  unfolding json_object
  variant-json_object fields = L.variant-value (object _) tt

  -- Where a field was written, it is read.
  module _ {A : Type 0} (read : J.Value → Read J A) (fields : List (Text × J.Value)) (k : Text)
      (v : J.Value) (written : field_of fields k none ≡ some v) where
    pub required-object_map :
        (a : A) → read v ≡ ok a → required J read (object_map J L fields) k ≡ ok a
    unfolding required
    required-object_map a h = rw (get-object_map J L fields k, written, h)

    pub defaulted-object_map :
        (d a : A) → read v ≡ ok a → defaulted J d read (object_map J L fields) k ≡ ok a
    unfolding defaulted
    defaulted-object_map d a h = rw (get-object_map J L fields k, defaulted, written) h

  read_optional-optional :
      (o : Option Text) → IsTextOption o → read_optional J (read_str J) (optional J o) ≡ ok o
  unfolding read_optional
  read_optional-optional none h = rw (L.variant-value null tt, read_optional)
  read_optional-optional (some t) h =
      rw (L.variant-value (string t) h, read_optional, read_str-string t h)

  pub read_array-array :
      {A : Type 0} (read : J.Value → Read J A) (vs : List J.Value)
      → read_array J read (J.value (array vs)) ≡ read_all J read vs
  unfolding read_array
  read_array-array read vs = rw (L.variant-value (array vs) tt, read_array)

  method_of_value-method_value :
      (method : VerificationMethod)
      → IsTextMethod method
      → method_of_value J (method_value J method) ≡ ok method
  unfolding method_of_value method_of_map method_value maybe text_eq str
  method_of_value-method_value method h =
      let fields = method_fields J method in
      let field = required-object_map (read_str J) fields in
      let option = defaulted-object_map (read_optional J (read_str J)) fields in
      rw (
        read_struct-object (method_of_map J) (method_of_seq J) _ _ (variant-json_object fields),
        field (str "id") _ refl method.id (read_str-string method.id h.id),
        field (str "type") _ refl method.type_ (read_str-string method.type_ h.type_),
        field (str "controller") _ refl method.controller
            (read_str-string method.controller h.controller),
        option (str "publicKeyBase58") _ refl none method.public_key_base58
            (read_optional-optional method.public_key_base58 h.public_key_base58),
        option (str "publicKeyMultibase") _ refl none method.public_key_multibase
            (read_optional-optional method.public_key_multibase h.public_key_multibase),
      )

  read_all-map :
      (methods : List VerificationMethod)
      → All IsTextMethod methods
      → read_all J (method_of_value J) (map (method_value J) methods) ≡ ok methods
  unfolding read_all
  read_all-map [] h = refl
  read_all-map (method ∷ methods) h =
      rw (method_of_value-method_value method h.0, read_all-map methods h.1)

  -- A document of valid texts is read back from the value that is written.
  pub document_of_value-document_value :
      (doc : DidDocument) → IsTextDocument doc → document_of_value J (document_value J doc) ≡ ok doc
  unfolding document_of_value document_of_map document_value text_eq str
  document_of_value-document_value doc h =
      let fields = document_fields J doc in
      rw (
        read_struct-object (document_of_map J) (document_of_seq J) _ _ (variant-json_object fields),
        required-object_map (read_str J) fields (str "id") _ refl doc.id
            (read_str-string doc.id h.id),
        defaulted-object_map (read_array J (method_of_value J)) fields (str "verificationMethod") _
            refl [] doc.verification_method
            (read_array-array (method_of_value J) _
              ∙ read_all-map doc.verification_method h.verification_method),
      )
