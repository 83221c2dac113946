-- ===== src/Did/Texts.antt =====
-- The document of a valid text has valid texts.
use did_rust.Prelude.{
  Text, str, starts_with, Bool-cases, ◌++◌, ok, returned, or_panic, >>=-eq-ok, IsBytes, ◌≡◌, true,
  refl, ◌⊎◌, inl, inr, arith, subst, sym,
}
use did_rust.Prelude.Utf8.{is_utf8, is_utf8-append, is_utf8-append_ascii}
use did_rust.Services.{Services, IsLawful, IsDocuments, resolve, network}
use did_rust.Document.RoundTrip.{IsTextDocument}
use did_rust.Resolver.{
  DidDocument, key_document, resolve_key, resolve_web, resolve_ipfs, fetch_did_document,
  build_did_web_url, did_key,
}
use did_rust.Resolver
use did_rust.Resolver.Key.{resolve_key-eq-ok}

key_document-IsText :
    (did multibase pub_key_b58 : Text)
    → is_utf8 did ≡ true
    → is_utf8 multibase ≡ true
    → is_utf8 pub_key_b58 ≡ true
    → IsTextDocument (key_document did multibase pub_key_b58)
unfolding key_document str is_utf8
key_document-IsText did multibase pub_key_b58 d m k = record {
  id = d;
  verification_method = (
    record {
      id = is_utf8-append did (str "#keys-1") d refl;
      type_ = refl;
      controller = d;
      public_key_base58 = k;
      public_key_multibase = m;
    },
    tt,
  );
}

module _ (S : Services) (L : IsLawful S) (D : IsDocuments S) where
  open S use {primitives, http}
  open primitives use {bs58}

  resolve_key-IsText :
      (did : Text) (doc : DidDocument)
      → is_utf8 did ≡ true
      → resolve_key bs58 did ≡ ok doc
      → IsTextDocument doc
  unfolding str is_utf8
  resolve_key-IsText did doc h e =
      let (digits, key, same, decoded, size, shown) = resolve_key-eq-ok bs58 did doc h e in
      let text = is_utf8-append_ascii (str "did:key:z") digits (omega arith) (rw same at h) in
      let bytes : IsBytes key = (L.primitives.bs58.decode-IsBytes digits decoded).1.1 in
      subst IsTextDocument (sym shown) (
        key_document-IsText did (str "z" ++ digits) (bs58.encode key) h
          (is_utf8-append (str "z") digits refl text) (L.primitives.bs58.encode-is_utf8 key bytes))

  fetch_did_document-eq-ok :
      (url : Text) (doc : DidDocument)
      → fetch_did_document (network S) url ≡ ok doc
      → (response : http.Response) × (http.json response ≡ inr doc)
  unfolding fetch_did_document
  fetch_did_document-eq-ok url doc h =
      let (client, e, f) = >>=-eq-ok (or_panic http.client) _ h in
      let (response, e', f') = >>=-eq-ok (returned (http.send client url)) _ f in
      (response, ground arith)

  resolve_web-eq-ok :
      (did : Text) (doc : DidDocument)
      → resolve_web (network S) did ≡ ok doc
      → (url : Text) × (fetch_did_document (network S) url ≡ ok doc)
  unfolding resolve_web
  resolve_web-eq-ok did doc h = elim (Bool-cases S.http_resolver) [
    | inl on ↦
        let (url, e, f) =
          >>=-eq-ok (build_did_web_url did) (fetch_did_document (network S)) (ground arith) in
        (url, f)
    | inr off ↦ absurd (ground arith)
  ]

  resolve_web-IsText :
      (did : Text) (doc : DidDocument) → resolve_web (network S) did ≡ ok doc → IsTextDocument doc
  resolve_web-IsText did doc h =
      let (url, fetched) = resolve_web-eq-ok did doc h in
      let (response, found) = fetch_did_document-eq-ok url doc fetched in
      D.json-IsText response found

  -- Only the methods `key` and `web` resolve.
  resolve-eq-ok :
      (did : Text) (doc : DidDocument)
      → resolve S did ≡ ok doc
      → (resolve_key bs58 did ≡ ok doc) ⊎ (resolve_web (network S) did ≡ ok doc)
  unfolding Resolver.resolve resolve_ipfs
  resolve-eq-ok did doc h = elim (Bool-cases (starts_with did did_key)) [
    | inl key ↦ inl (ground arith)
    | inr other ↦ inr (ground arith)
  ]

  -- Whatever its method, a valid text resolves to a document of valid texts.
  pub resolve-IsText :
      (did : Text) (doc : DidDocument)
      → is_utf8 did ≡ true
      → resolve S did ≡ ok doc
      → IsTextDocument doc
  resolve-IsText did doc h e = elim (resolve-eq-ok did doc e) [
    | inl by_key ↦ resolve_key-IsText did doc h by_key
    | inr by_web ↦ resolve_web-IsText did doc by_web
  ]
