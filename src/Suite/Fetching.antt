-- ===== src/Suite/Fetching.antt =====
-- src/resolver.rs: the test of a fetch from a server.
use did_rust.Prelude.{
  Text, str, text_eq, text_eq_refl, [], ◌∷◌, length, true, some, inr, ok, ◌==◌, ◌≡◌, refl, ap, ◌∙◌,
  sym, subst,
}
use did_rust.Prelude.Utf8.{is_utf8}
use did_rust.Crates.Json.{json_object}
use did_rust.Crates.Json.Tree.{
  IsReadBack, Tree, build, fields, items, nil, cons, text, member, end, IsWritable,
}
use did_rust.Services.{Services, IsLawful, IsDocuments, network}
use did_rust.Document.{document_value, method_value}
use did_rust.Document.RoundTrip.{IsTextDocument, document_of_value-document_value}
use did_rust.Resolver.{DidDocument, fetch_did_document}
use did_rust.Ffi.Memory.{Memory}
use did_rust.Suite.Program.{Program, ◌>>=◌, ◌>>◌, unwrap_ok, assert, first}
use did_rust.Suite.Steps.{◌⨾◌, step, unwrap_ok_lem, first_lem, assert_lem}

-- The body that the test's server sends.
abbrev pub mock_doc : Tree
mock_doc = fields (
    member (str "id") (text (str "did:web:localhost")) (
      member (str "verificationMethod")
        (items (
          cons
            (fields (
              member (str "id") (text (str "did:web:localhost#keys-1")) (
                member (str "type") (text (str "Ed25519VerificationKey2018")) (
                  member (str "controller") (text (str "did:web:localhost")) (
                    member (str "publicKeyBase58")
                      (text (str "8J5gHnFgN7iNfs3vPVnB6Kn3Eq3KxYKTKFmQHMGzqPnH"))
                      (member (str "publicKeyMultibase")
                        (text (str "z6MkkJf3fTJFJ1yVPfBLFmK8PHKxYBvGJzQb3nD1JnKj")) end))))))
            nil))
        end))

module _ (S : Services) where
  open S use {json, http}

  -- The server of the test is part of the network.
  unfoldable pub test_fetch_did_document_mock_http : Text → Program (Unit {0})
  test_fetch_did_document_mock_http url = do
    doc ← unwrap_ok (fetch_did_document (network S) url)
    assert (text_eq doc.id (str "did:web:localhost"))
    assert (length doc.verification_method == 1)
    method ← first doc.verification_method
    assert (text_eq method.controller (str "did:web:localhost"))

  module _ (L : IsLawful S) (R : IsReadBack json) where
    abbrev mock_document : DidDocument
    mock_document = record {
      id = str "did:web:localhost";
      verification_method =
          record {
            id = str "did:web:localhost#keys-1";
            type_ = str "Ed25519VerificationKey2018";
            controller = str "did:web:localhost";
            public_key_base58 = some (str "8J5gHnFgN7iNfs3vPVnB6Kn3Eq3KxYKTKFmQHMGzqPnH");
            public_key_multibase = some (str "z6MkkJf3fTJFJ1yVPfBLFmK8PHKxYBvGJzQb3nD1JnKj");
          }
          ∷ [];
    }

    mock_shown : build json mock_doc ≡ document_value json mock_document
    unfolding document_value method_value json_object
    mock_shown = refl

    mock_IsText : IsTextDocument mock_document
    unfolding str is_utf8
    mock_IsText = record {
      id = refl;
      verification_method = (
        record {
          id = refl;
          type_ = refl;
          controller = refl;
          public_key_base58 = refl;
          public_key_multibase = refl;
        },
        tt,
      );
    }

    mock_IsWritable : IsWritable 127 mock_doc
    unfolding str is_utf8
    mock_IsWritable = (
      refl,
      refl,
      (refl, ((refl, refl, (refl, refl, (refl, refl, (refl, refl, (refl, refl, tt))))), tt), tt),
    )

    module _ (D : IsDocuments S) (url : Text) (client : http.Client) (response : http.Response)
        (built : http.client ≡ some client) (sent : http.send client url ≡ inr response)
        (success : http.is_success response ≡ true)
        (body : http.body response ≡ json.to_string (build json mock_doc)) where
      fetches : fetch_did_document (network S) url ≡ ok mock_document
      unfolding fetch_did_document
      fetches =
          let shown = ap json.to_string mock_shown in
          rw (
            built,
            sent,
            success,
            D.json_lem response (document_value json mock_document) mock_document
                (subst (λ v. json.from_str (http.body response) ≡ inr v) mock_shown
                  (ap json.from_str body ∙ R.from_str-to_string mock_doc mock_IsWritable))
                (sym (body ∙ shown))
                (document_of_value-document_value json L.json mock_document mock_IsText),
          )

      pub test_fetch_did_document_mock_http_lem :
          (m : Memory) → test_fetch_did_document_mock_http url m ≡ some (tt, m)
      unfolding test_fetch_did_document_mock_http
      test_fetch_did_document_mock_http_lem m =
          step _ _ (unwrap_ok_lem fetches)
          ⨾ step _ _ (assert_lem (text_eq_refl _))
          ⨾ step _ _ (assert_lem refl)
          ⨾ step _ _ (first_lem _ _)
          ⨾ assert_lem (text_eq_refl _)
