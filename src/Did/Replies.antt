-- ===== src/Did/Replies.antt =====
-- `generate_did` on every method.
use did_rust.Prelude.{
  Text, Bytes, str, text_eq, text_eq-eq, strip_prefix, strip_prefix-eq-some, strip_prefix-append,
  sym, List, [], ◌∷◌, ◌++◌, none, some, Option-cases, Bool-cases, inl, inr, ◌⊎◌, ok, err, ◌≡◌, true,
  false, refl, ap, ◌∙◌, arith, subst,
}
use did_rust.Prelude.Utf8.{is_utf8, is_utf8-append, is_utf8-append_ascii}
use did_rust.Crates.Json.{object, string_value, json_object}
use did_rust.Crates.Json.Fields.{object_map, get-object_map, as_str-string, field_of}
use did_rust.Services.{Services, IsLawful}
use did_rust.Document.{document_of_value}
use did_rust.Document.RoundTrip.{document_of_value-document_value}
use did_rust.Resolver.{did_web}
use did_rust.Credential.{map_get_str}
use did_rust.Did.{web_domain, web_document, web_reply, generate_did}
use did_rust.Did.Generate.{IsKeyPair, generate_did_key}
use did_rust.Did.WebDocument.{
  did_web-is_utf8, web_did_document, web_document_lem, web_did_document-IsText,
}

-- A method of a `did:web`, for a domain.
abbrev pub IsWebMethod : Text → Text → Type 0
IsWebMethod method domain = (method ≡ str "web:" ++ domain) ⊎ (method ≡ str "did:web:" ++ domain)

web_domain-IsWebMethod :
    (method domain : Text) → web_domain method ≡ some domain → IsWebMethod method domain
unfolding web_domain
web_domain-IsWebMethod method domain h = elim (Option-cases (strip_prefix method (str "web:"))) [
  | inl e ↦ inr (strip_prefix-eq-some method (str "did:web:") domain (ground arith))
  | inr (d, e) ↦ inl (strip_prefix-eq-some method (str "web:") domain (ground arith))
]

-- It is one exactly if the code says so: `did:web:` does not begin with `web:`.
pub IsWebMethod-web_domain :
    (method domain : Text) → IsWebMethod method domain → web_domain method ≡ some domain
unfolding web_domain strip_prefix str
IsWebMethod-web_domain method domain (inl e) =
    subst (λ m. web_domain m ≡ some domain) (sym e)
      (rw (strip_prefix-append (str "web:") domain, web_domain))
IsWebMethod-web_domain method domain (inr e) =
    subst (λ m. web_domain m ≡ some domain) (sym e) (strip_prefix-append (str "did:web:") domain)

IsWebMethod-is_utf8 :
    (method domain : Text)
    → is_utf8 method ≡ true
    → IsWebMethod method domain
    → is_utf8 domain ≡ true
unfolding str
IsWebMethod-is_utf8 method domain h (inl e) =
    is_utf8-append_ascii (str "web:") domain (omega arith) (rw e at h)
IsWebMethod-is_utf8 method domain h (inr e) =
    is_utf8-append_ascii (str "did:web:") domain (omega arith) (rw e at h)

module _ (S : Services) where
  open S use {primitives, json}
  open primitives use {bs58, ed25519}

  -- The reply holds the identifier of the domain, a private key that decodes to that of the pair,
  -- and a document that is read as one of the identifier and the public key.
  pub record IsWebPair (sk : ed25519.SigningKey) (domain : Text) (reply : json.Map) : Type 0 where
    pub has_did : map_get_str S reply (str "did") ≡ some (did_web ++ domain)
    pub private_key : Text
    pub has_private_key : map_get_str S reply (str "private_key_base58") ≡ some private_key
    pub decoded : bs58.decode private_key ≡ inr (ed25519.signing_key_to_bytes sk)
    pub document : json.Value
    pub has_document : json.get reply (str "did_document") ≡ some document
    pub read :
        document_of_value json document
        ≡ ok (web_did_document S domain (ed25519.verifying_key_as_bytes (ed25519.verifying_key sk)))

  module _ (L : IsLawful S) (sk : ed25519.SigningKey) where
    abbrev public_key : Bytes
    public_key = ed25519.verifying_key_as_bytes (ed25519.verifying_key sk)

    abbrev web_fields : Text → List (Text × json.Value)
    web_fields domain =
        (str "did", string_value json (did_web ++ domain))
        ∷ (
          str "private_key_base58",
          string_value json (bs58.encode (ed25519.signing_key_to_bytes sk)),
        )
        ∷ (str "did_document", web_document S domain public_key)
        ∷ []

    map_get_str-object_map :
        (fields : List (Text × json.Value)) (k t : Text)
        → field_of fields k none ≡ some (string_value json t)
        → is_utf8 t ≡ true
        → map_get_str S (object_map json L.json fields) k ≡ some t
    map_get_str-object_map fields k t written text = rw (
      get-object_map json L.json fields k,
      written,
      map_get_str,
      as_str-string json L.json t text,
    )

    web_fields-IsWebPair :
        (domain : Text)
        → is_utf8 domain ≡ true
        → IsWebPair sk domain (object_map json L.json (web_fields domain))
    unfolding text_eq str
    web_fields-IsWebPair domain text =
        let array = L.primitives.ed25519.signing_key_to_bytes-IsArray sk in
        let fields = web_fields domain in
        record {
          has_did =
              map_get_str-object_map fields (str "did") (did_web ++ domain) refl
                (is_utf8-append did_web domain did_web-is_utf8 text);
          private_key = bs58.encode (ed25519.signing_key_to_bytes sk);
          has_private_key =
              map_get_str-object_map fields (str "private_key_base58") _ refl
                (L.primitives.bs58.encode-is_utf8 _ array.bytes);
          decoded = L.primitives.bs58.decode-encode _ array.bytes;
          document = web_document S domain public_key;
          has_document = get-object_map json L.json fields (str "did_document");
          read =
              ap (document_of_value json) (web_document_lem S domain public_key)
              ∙ document_of_value-document_value json L.json (web_did_document S domain public_key)
                  (web_did_document-IsText S L sk domain text);
        }

    generate_did_web :
        (method domain : Text)
        → web_domain method ≡ some domain
        → text_eq domain [] ≡ false
        → generate_did S sk method
          ≡ ok (json.to_string (json.value (object (object_map json L.json (web_fields domain)))))
    unfolding generate_did web_reply json_object str
    generate_did_web method domain found other = rw (found, generate_did, other)

    -- With lawful packages `generate_did` has one of three outcomes for a method that is valid
    -- UTF-8. If it begins with neither `web:` nor `did:web:`, the reply is an object whose
    -- private key decodes to that of the pair, and whose identifier resolves to a document that
    -- lists its public key. If it is one of these and a domain that is not empty, the reply is
    -- an object with the identifier of the domain, a private key that decodes to that of the
    -- pair, and a document that is read as one of the identifier with the public key. If the
    -- domain is empty, the result is an error.
    pub generate_did-cases :
        (method : Text)
        → is_utf8 method ≡ true
        → ((reply : json.Map) × ((domain : Text) → ¬ IsWebMethod method domain)
            × (generate_did S sk method ≡ ok (json.to_string (json.value (object reply))))
            × IsKeyPair S sk method reply)
          ⊎ ((reply : json.Map) × (domain : Text) × IsWebMethod method domain
              × (text_eq domain [] ≡ false)
              × (generate_did S sk method ≡ ok (json.to_string (json.value (object reply))))
              × IsWebPair sk domain reply)
          ⊎ ((e : Text) × IsWebMethod method [] × (generate_did S sk method ≡ err e))
    unfolding generate_did
    generate_did-cases method text = elim (Option-cases (web_domain method)) [
      | inl key ↦
          let (reply, generated, pair) = generate_did_key S sk method L key in
          inl (
            reply,
            (λ domain web. cc (sym key ∙ IsWebMethod-web_domain method domain web)),
            generated,
            pair,
          )
      | inr (domain, found) ↦
          let web = web_domain-IsWebMethod method domain found in
          elim (Bool-cases (text_eq domain [])) [
            | inl empty ↦ inr (
                inr (
                  str "did:web requires a domain, e.g. 'web:example.com'",
                  subst (IsWebMethod method) (text_eq-eq domain [] empty) web,
                  rw (found, generate_did, empty),
                ))
            | inr other ↦ inr (
                inl (
                  _,
                  domain,
                  web,
                  other,
                  generate_did_web method domain found other,
                  web_fields-IsWebPair domain (IsWebMethod-is_utf8 method domain text web),
                ))
          ]
    ]
