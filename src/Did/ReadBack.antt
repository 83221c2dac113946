-- ===== src/Did/ReadBack.antt =====
-- `resolve_did` on every outcome, and its document read back.
use did_rust.Prelude.{
  Text, str, text_eq, List, map, some, [], ◌∷◌, ok, err, inl, inr, ◌⊎◌, ◌≡◌, true,
}
use did_rust.Prelude.Utf8.{is_utf8}
use did_rust.Crates.Json.{array, string_value, json_object}
use did_rust.Services.{Services, IsLawful, IsDocuments, resolve, network}
use did_rust.Envelope.{optional}
use did_rust.Credential.Verdict.{value_get-json_object}
use did_rust.Document.{method_value, document_value, document_of_value}
use did_rust.Document.RoundTrip.{document_of_value-document_value}
use did_rust.Resolver.{VerificationMethod, DidDocument}
use did_rust.Resolver.Safety.{HasClient}
use did_rust.Did.{resolve_did}
use did_rust.Did.Resolve.{resolve_did-cases}
use did_rust.Did.Texts.{resolve-IsText}

module _ (S : Services) where
  open S use {json}

  -- The object of a method: its three texts, and its keys, `null` where it has none.
  pub record ShowsMethod (v : json.Value) (method : VerificationMethod) : Type 0 where
    pub has_id : json.value_get v (str "id") ≡ some (string_value json method.id)
    pub has_type : json.value_get v (str "type") ≡ some (string_value json method.type_)
    pub has_controller :
        json.value_get v (str "controller") ≡ some (string_value json method.controller)
    pub has_base58 :
        json.value_get v (str "publicKeyBase58") ≡ some (optional json method.public_key_base58)
    pub has_multibase :
        json.value_get v (str "publicKeyMultibase")
        ≡ some (optional json method.public_key_multibase)

  abbrev pub ShowMethods : List json.Value → List VerificationMethod → Type 0
  ShowMethods [] [] = Unit
  ShowMethods (v ∷ vs) (method ∷ methods) = ShowsMethod v method × ShowMethods vs methods
  ShowMethods _ _ = ⊥

  -- The object of a document: its identifier, and the array of the objects of its methods.
  pub record ShowsDocument (v : json.Value) (doc : DidDocument) : Type 0 where
    pub has_id : json.value_get v (str "id") ≡ some (string_value json doc.id)
    pub methods : List json.Value
    pub has_methods :
        json.value_get v (str "verificationMethod") ≡ some (json.value (array methods))
    pub show : ShowMethods methods doc.verification_method

  module _ (L : IsLawful S) where
    method_value-ShowsMethod :
        (method : VerificationMethod) → ShowsMethod (method_value json method) method
    unfolding method_value str text_eq
    method_value-ShowsMethod method = record {
      has_id = value_get-json_object S L.json _ (str "id");
      has_type = value_get-json_object S L.json _ (str "type");
      has_controller = value_get-json_object S L.json _ (str "controller");
      has_base58 = value_get-json_object S L.json _ (str "publicKeyBase58");
      has_multibase = value_get-json_object S L.json _ (str "publicKeyMultibase");
    }

    map-ShowMethods :
        (methods : List VerificationMethod) → ShowMethods (map (method_value json) methods) methods
    map-ShowMethods [] = tt
    map-ShowMethods (method ∷ methods) = (method_value-ShowsMethod method, map-ShowMethods methods)

    document_value-ShowsDocument : (doc : DidDocument) → ShowsDocument (document_value json doc) doc
    unfolding document_value str text_eq
    document_value-ShowsDocument doc = record {
      has_id = value_get-json_object S L.json _ (str "id");
      methods = map (method_value json) doc.verification_method;
      has_methods = value_get-json_object S L.json _ (str "verificationMethod");
      show = map-ShowMethods doc.verification_method;
    }

    error_object-shows :
        (e : Text)
        → json.value_get (json_object json ((str "error", string_value json e) ∷ [])) (str "error")
          ≡ some (string_value json e)
    unfolding str text_eq
    error_object-shows e = value_get-json_object S L.json _ (str "error")

  -- If the packages are lawful, documents are serialized as their attributes say, and the HTTP
  -- client can be built where the feature `http-resolver` is on, then for a valid UTF-8 text
  -- `resolve_did` has one of two outcomes. Either the identifier resolves to a document, and
  -- `resolve_did` returns the print of an object that shows the document field by field, its
  -- identifier and its methods under their JSON names, and that is read back as the document; or
  -- it does not resolve, and `resolve_did` returns the print of an object with the error.
  pub document_of_value-resolve_did :
      IsLawful S
      → IsDocuments S
      → HasClient (network S)
      → (did : Text) → is_utf8 did ≡ true
      → ((doc : DidDocument) × (v : json.Value) × (resolve S did ≡ ok doc)
          × (resolve_did S did ≡ ok (json.to_string v))
          × ShowsDocument v doc
          × (document_of_value json v ≡ ok doc))
        ⊎ ((e : Text) × (v : json.Value) × (resolve S did ≡ err e)
            × (resolve_did S did ≡ ok (json.to_string v))
            × (json.value_get v (str "error") ≡ some (string_value json e)))
  document_of_value-resolve_did L D H did h = elim (resolve_did-cases S H did h) [
    | inl (doc, found, reply) ↦
        let text = resolve-IsText S L D did doc h found in
        inl (
          doc,
          document_value json doc,
          found,
          rw (reply, D.document_to_string_lem doc text),
          document_value-ShowsDocument L doc,
          document_of_value-document_value json L.json doc text,
        )
    | inr (e, failed, reply) ↦ inr (e, _, failed, reply, error_object-shows L e)
  ]
