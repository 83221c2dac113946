-- ===== src/Tests/Resolution.antt =====
-- Identifiers and their documents.
use did_rust.Prelude.{
  List, All, ◌↔◌, Text, str, Bytes, length, [], ◌∷◌, ◌++◌, inl, inr, ok, err, none, some, text_eq,
  panic, true, false, ◌≡◌, ◌≢◌, refl,
}
use did_rust.Prelude.Utf8.{is_utf8, is_utf8-append}
use did_rust.Resolver.{DidDocument, key_document, resolve, build_did_web_url, did_web, join}
use did_rust.Resolver.{resolve_key}
use did_rust.Resolver.Key.{multikey, resolve_key_iff}
use did_rust.Resolver.Safety.{HasClient, resolve_panic_iff}
use did_rust.Resolver.Url.{document_url, build_did_web_url_iff, Lacks}
use did_rust.Did.WebDocument.{did_web-is_utf8}
use did_rust.Services
use did_rust.Services.{Services}
use did_rust.Credential.{get_str}
use did_rust.Credential.Verdict.{SaysVc}
use did_rust.Credential.Https.{verify_vc-web_refused}
use did_rust.Tests.Fixture.Values.{Value, text, obj, end, field, tree, tree-IsJson}
use did_rust.Tests.Fixture.Keys.{two_keys}
use did_rust.Tests.Fixture.Codecs.{hexadecimal}
use did_rust.Tests.Fixture.World.{net, world}

abbrev key : Bytes
key = two_keys.verifying_key_as_bytes true

abbrev digits : Text
digits = hexadecimal.encode (multikey key)

abbrev document : DidDocument
document = key_document (str "did:key:z" ++ digits) (str "z" ++ digits) (hexadecimal.encode key)

did_text : is_utf8 (str "did:key:z" ++ digits) ≡ true
unfolding is_utf8 str
did_text = refl

web_text : is_utf8 (did_web ++ (101 ∷ [])) ≡ true
unfolding is_utf8
web_text = is_utf8-append did_web (101 ∷ []) did_web-is_utf8 refl

resolve_key_iff_example : (resolve_key hexadecimal (str "did:key:z" ++ digits) ≡ ok document) ↔ (
    (d : Text) × (k : Bytes) × (str "did:key:z" ++ digits ≡ str "did:key:z" ++ d)
    × (hexadecimal.decode d ≡ inr (multikey k))
    × (length k ≡ 32)
    × (document ≡ key_document (str "did:key:z" ++ digits) (str "z" ++ d) (hexadecimal.encode k)))
resolve_key_iff_example = resolve_key_iff hexadecimal (str "did:key:z" ++ digits) document did_text

resolve_panic_iff_example : (resolve net (did_web ++ (101 ∷ [])) ≡ panic) ↔ (
    (rest : Text) × (did_web ++ (101 ∷ []) ≡ did_web ++ rest)
    × (net.http_resolver ≡ true)
    × (net.http.client ≡ none))
resolve_panic_iff_example = resolve_panic_iff net (did_web ++ (101 ∷ [])) web_text

-- A client without TLS.
abbrev offline : Services
offline = record {
  primitives = world.primitives;
  json = world.json;
  chrono = world.chrono;
  http_resolver = true;
  http = record {
    Client = Unit;
    client = some tt;
    Response = Unit;
    send = λ client url. inl (str "scheme is not allowed");
    is_success = λ response. true;
    status = λ response. [];
    body = λ response. [];
    json = λ response. inl [];
  };
  document_to_string = world.document_to_string;
}

offline-HasClient : HasClient (Services.network offline)
offline-HasClient on gone = cc gone

abbrev credential : Value
credential = obj (field (str "issuer") (text (did_web ++ (101 ∷ []))) end)

credential_parsed : tree.from_str (tree.to_string credential) ≡ inr credential
unfolding str
credential_parsed = refl

credential_issuer : get_str offline credential (str "issuer") ≡ some (did_web ++ (101 ∷ []))
unfolding str text_eq is_utf8
credential_issuer = refl

verify_vc-web_refused_example :
    ((e : Text) × (Services.resolve offline (did_web ++ (101 ∷ [])) ≡ err e))
    × ((e : Text) × (e ≢ []) × SaysVc offline 3 (tree.to_string credential) false e)
verify_vc-web_refused_example =
    verify_vc-web_refused offline tree-IsJson offline-HasClient
      (λ client rest. (str "scheme is not allowed", refl)) 3 (tree.to_string credential) (101 ∷ [])
      credential credential_parsed credential_issuer

abbrev url : Text
url = document_url (101 ∷ []) ((102 ∷ []) ∷ [])

build_did_web_url_iff_example :
    (build_did_web_url (did_web ++ (101 ∷ b':' ∷ 102 ∷ [])) ≡ ok url) ↔ (
      (domain : Text) × (path : List Text) × All (Lacks b':') (domain ∷ path)
      × (did_web ++ (101 ∷ b':' ∷ 102 ∷ []) ≡ did_web ++ join (b':' ∷ []) (domain ∷ path))
      × (url ≡ document_url domain path))
build_did_web_url_iff_example = build_did_web_url_iff (did_web ++ (101 ∷ b':' ∷ 102 ∷ [])) url
