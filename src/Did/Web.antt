-- ===== src/Did/Web.antt =====
-- A `did:web` that was generated and whose document is published.
use did_rust.Prelude.{
  Text, str, text_eq, starts_with, Bytes, true, false, [], ◌++◌, none, some, inl, inr, ok, ◌≡◌, sym,
  subst,
}
use did_rust.Prelude.Utf8.{is_utf8, is_utf8-append}
use did_rust.Crates.Json.{object}
use did_rust.Services.{Services, IsLawful, IsDocuments, resolve}
use did_rust.Document.{document_value}
use did_rust.Document.RoundTrip.{IsTextDocument, document_of_value-document_value}
use did_rust.Resolver.{
  DidDocument, VerificationMethod, did_web, build_did_web_url, fetch_did_document, resolve_web,
}
use did_rust.Resolver
use did_rust.Signature.{pub_key_bytes, decode_or_default}
use did_rust.Signature.Signs.{HasKey}
use did_rust.Credential.{map_get_str, issue_vc, verify_vc, report}
use did_rust.Credential.Issue.{unsigned, issued_document, verify_vc-issue_vc}
use did_rust.Did.WebDocument.{
  did_web-is_utf8, web_did_document, web_document_lem, web_did_document-IsText,
}
use did_rust.Did.Replies.{IsWebMethod, IsWebMethod-web_domain}
use did_rust.Did.{web_document, web_reply, generate_did}

module _ (S : Services) where
  open S use {primitives, json, chrono, http}
  open primitives use {bs58, ed25519}

  -- A build with the feature `http-resolver` and a client that speaks https, which takes a TLS
  -- feature of reqwest that a crate that embeds this one has to ask for, gets the document `v` for
  -- the identifier.
  pub record IsPublished (did : Text) (v : json.Value) : Type 0 where
    pub has_http : S.http_resolver ≡ true
    pub url : Text
    pub built : build_did_web_url did ≡ ok url
    pub response : http.Response
    pub client : http.Client
    pub has_client : http.client ≡ some client
    pub sent : http.send client url ≡ inr response
    pub success : http.is_success response ≡ true
    pub body : json.to_string v ≡ http.body response
    pub parsed : json.from_str (http.body response) ≡ inr v

  module _ (L : IsLawful S) (D : IsDocuments S) where
    resolve-document_value :
        (domain : Text) (doc : DidDocument)
        → IsTextDocument doc
        → IsPublished (did_web ++ domain) (document_value json doc)
        → resolve S (did_web ++ domain) ≡ ok doc
    unfolding Resolver.resolve starts_with resolve_web fetch_did_document str
    resolve-document_value domain doc text p = rw (
      p.has_http,
      p.built,
      p.has_client,
      p.sent,
      p.success,
      D.json_lem p.response (document_value json doc) doc p.parsed p.body
          (document_of_value-document_value json L.json doc text),
    )

    module _ (sk : ed25519.SigningKey) (domain : Text) (domain_text : is_utf8 domain ≡ true) where
      abbrev key : Bytes
      key = ed25519.verifying_key_as_bytes (ed25519.verifying_key sk)

      web_did-resolves :
          IsPublished (did_web ++ domain) (web_document S domain key)
          → resolve S (did_web ++ domain) ≡ ok (web_did_document S domain key)
      web_did-resolves p =
          resolve-document_value domain (web_did_document S domain key)
            (web_did_document-IsText S L sk domain domain_text)
            (subst (IsPublished (did_web ++ domain)) (web_document_lem S domain key) p)

      web-HasKey :
          IsPublished (did_web ++ domain) (web_document S domain key)
          → HasKey S (did_web ++ domain) key
      unfolding pub_key_bytes decode_or_default
      web-HasKey p =
          let array =
            L.primitives.ed25519.verifying_key_as_bytes-IsArray (ed25519.verifying_key sk) in
          record {
            document = web_did_document S domain key;
            resolved = web_did-resolves p;
            listed = inl (rw (L.primitives.bs58.decode-encode key array.bytes, decode_or_default));
          }

      -- The credential that is issued with the reply, with its signature of `payload`.
      abbrev pub web_certified : json.Map → Bytes → json.Value
      web_certified credential payload =
          issued_document S credential (did_web ++ domain) (ed25519.signing_key_to_bytes sk) payload

      -- Let a method begin with `web:` or `did:web:` and go on with a domain that is valid UTF-8
      -- and not empty; let a client with the feature `http-resolver` get the document that
      -- `generate_did` wrote, from the URL of the identifier, which takes a build of the client
      -- with TLS; let a credential parse to an object with no proof, whose date of expiry, if it
      -- has one that can be read, is not before `now`; let the credential with that identifier
      -- as its issuer serialize, and the document that is issued parse back from its print. If
      -- the packages are lawful and documents are serialized as their attributes say, then
      -- `generate_did` replies with an identifier, a private key and a document, the identifier
      -- resolves to the document, which holds the public key, `issue_vc` issues the credential
      -- with the reply, and `verify_vc` at `now` reports it as valid.
      pub verify_vc-generate_did_web :
          (method credential_json : Text) (vc : json.Value) (credential : json.Map)
          (payload : Bytes) (now : chrono.Time)
          → IsWebMethod method domain
          → text_eq domain [] ≡ false
          → IsPublished (did_web ++ domain) (web_document S domain key)
          → json.from_str credential_json ≡ inr vc
          → json.as_object vc ≡ some credential
          → json.to_vec (json.value (object (unsigned S credential (did_web ++ domain))))
            ≡ inr payload
          → json.get credential (str "proof") ≡ none
          → ((exp : Text) (t : chrono.Time)
              → map_get_str S credential (str "expirationDate") ≡ some exp
              → chrono.parse_from_rfc3339 exp ≡ some t
              → chrono.is_after now t ≡ false)
          → json.from_str (json.to_string (web_certified credential payload))
            ≡ inr (web_certified credential payload)
          → (generate_did S sk method
              ≡ ok (
                  json.to_string
                    (web_reply S domain (bs58.encode (ed25519.signing_key_to_bytes sk)) key)))
            × (resolve S (did_web ++ domain) ≡ ok (web_did_document S domain key))
            × (issue_vc S credential_json
                  (did_web ++ domain)
                  (bs58.encode (ed25519.signing_key_to_bytes sk))
                ≡ ok (json.to_string (web_certified credential payload)))
            × (verify_vc S now (json.to_string (web_certified credential payload))
                ≡ report S true [])
      unfolding generate_did
      verify_vc-generate_did_web method credential_json vc credential payload now web other p parsed
            is_object serialized absent not_expired printed =
          let sk_array = L.primitives.ed25519.signing_key_to_bytes-IsArray sk in
          let has_key = web-HasKey p in
          let same = L.primitives.ed25519.signing_key-signing_key_to_bytes sk in
          let (issues, verifies) =
            verify_vc-issue_vc S L credential_json (did_web ++ domain)
              (bs58.encode (ed25519.signing_key_to_bytes sk)) vc credential
              (ed25519.signing_key_to_bytes sk) payload parsed is_object
              (L.primitives.bs58.decode-encode _ sk_array.bytes) sk_array.size serialized absent
              (is_utf8-append did_web domain did_web-is_utf8 domain_text)
              (subst
                (λ k.
                  HasKey S (did_web ++ domain)
                    (ed25519.verifying_key_as_bytes (ed25519.verifying_key k)))
                (sym same) has_key)
              now not_expired printed in
          (
            rw (IsWebMethod-web_domain method domain web, generate_did, other),
            web_did-resolves p,
            issues,
            verifies,
          )
