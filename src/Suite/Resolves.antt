-- ===== src/Suite/Resolves.antt =====
-- What a unit test reads when it resolves what was generated.
use did_rust.Prelude.{str, [], some, ok, true, contains, text_eq, ◌≡◌, refl, ap, ◌∙◌}
use did_rust.Crates.Json.{json_object}
use did_rust.Crates.Json.Fields.{object_map, get-object_map}
use did_rust.Crates.Json.Tree.{IsReadBack}
use did_rust.Services.{Services, IsLawful, IsDocuments}
use did_rust.Document.{document_value, document_fields}
use did_rust.Resolver.{DidDocument}
use did_rust.Did.{resolve_did}
use did_rust.Did.Issues.{generated, generated-is_utf8, generated-HasKey}
use did_rust.Did.Texts.{resolve-IsText}
use did_rust.Ffi.{reply_or_null, resolve_did_ffi}
use did_rust.Ffi.EndToEnd.{to_str_or_text}
use did_rust.Ffi.Strings.{c_string-to_string}

module _ (S : Services) (L : IsLawful S) where
  open S use {json}

  pub contains-document :
      IsReadBack json
      → (doc : DidDocument)
      → contains (json.to_string (document_value json doc)) (str "verificationMethod") ≡ true
  unfolding document_value json_object str text_eq
  contains-document R doc =
      R.to_string-contains (object_map json L.json (document_fields json doc))
        (str "verificationMethod") (get-object_map json L.json (document_fields json doc) _) refl

  module _ (sk : S.primitives.ed25519.SigningKey) (D : IsDocuments S) where
    abbrev pub generated_document : DidDocument
    generated_document = (generated-HasKey S sk L).document

    resolves :
        resolve_did S (generated S sk)
        ≡ ok (json.to_string (document_value json generated_document))
    unfolding resolve_did
    resolves =
        let found = (generated-HasKey S sk L).resolved in
        rw (
          found,
          resolve_did,
          D.document_to_string_lem _ (resolve-IsText S L D _ _ (generated-is_utf8 S sk L) found),
        )

    pub resolve_did_ffi-generated :
        resolve_did_ffi S (some (generated S sk))
        ≡ ok (some (json.to_string (document_value json generated_document)))
    unfolding resolve_did_ffi
    resolve_did_ffi-generated =
        ap (λ did. reply_or_null (resolve_did S did))
          (to_str_or_text [] _ (generated-is_utf8 S sk L))
        ∙ ap reply_or_null resolves
        ∙ ap ok (c_string-to_string json L.json (document_value json generated_document))
