-- ===== src/Credential/Https.antt =====
-- The resolution of a `did:web` by a client that does not speak https: reqwest as `Cargo.toml` asks
-- for it, without its default features and with no TLS backend.
use did_rust.Prelude.{
  Text, str, ◌++◌, [], true, false, some, Option-cases, Bool-cases, err, inl, inr, ◌≡◌, ◌≢◌, subst,
  sym, ◌∙◌, arith, starts_with-append,
}
use did_rust.Crates.Json.{IsJson}
use did_rust.Services.{Services, network, resolve}
use did_rust.Resolver
use did_rust.Resolver.{did_web, fetch_did_document, resolve_web}
use did_rust.Resolver.Url.{build_did_web_url-append}
use did_rust.Resolver.Safety.{HasClient, web-ne-key}
use did_rust.Credential.{get_str}
use did_rust.Credential.Accepts.{IsAuthentic}
use did_rust.Credential.Verdict.{SaysVc, verify_vc-cases}

module _ (S : Services) where
  open S use {json, chrono, http}

  -- The client refuses each URL of https.
  abbrev pub RefusesHttps : Type 0
  RefusesHttps =
      (client : http.Client) (rest : Text)
      → (e : Text) × (http.send client (str "https://" ++ rest) ≡ inl e)

  fetch_refused :
      RefusesHttps
      → HasClient (network S)
      → S.http_resolver ≡ true
      → (rest : Text)
      → (e : Text) × (fetch_did_document (network S) (str "https://" ++ rest) ≡ err e)
  unfolding fetch_did_document
  fetch_refused T H on rest = elim (Option-cases http.client) [
    | inl gone ↦ absurd (H on gone)
    | inr (client, built) ↦
        let (e, refused) = T client rest in (e, rw (built, fetch_did_document, refused))
  ]

  web-resolve_refused :
      RefusesHttps
      → HasClient (network S)
      → (rest : Text) → (e : Text) × (resolve S (did_web ++ rest) ≡ err e)
  unfolding Resolver.resolve resolve_web
  web-resolve_refused T H rest =
      let (path, built) = build_did_web_url-append rest in
      elim (Bool-cases S.http_resolver) [
        | inr off ↦ (
          str
              "did:web resolution requires the 'http-resolver' feature (not available in WASM target)",
          rw (web-ne-key (network S) rest, starts_with-append did_web rest, off),
        )
        | inl on ↦
            let (e, refused) = fetch_refused T H on path in
            (
              e,
              ground (
                arith,
                web-ne-key (network S) rest,
                starts_with-append did_web rest,
                built,
                refused,
              ),
            )
      ]

  -- If the JSON package is lawful, and the HTTP client can be built where the feature
  -- `http-resolver` is on but refuses every URL of https, as reqwest does in a build without
  -- TLS, then no identifier that begins with `did:web:` resolves, and every credential whose
  -- issuer begins so is reported by `verify_vc` as invalid, with an error that is not empty.
  pub verify_vc-web_refused :
      IsJson json
      → HasClient (network S)
      → RefusesHttps
      → (now : chrono.Time) (vc_json rest : Text) (vc : json.Value) → json.from_str vc_json ≡ inr vc
      → get_str S vc (str "issuer") ≡ some (did_web ++ rest)
      → ((e : Text) × (resolve S (did_web ++ rest) ≡ err e))
        × ((e : Text) × (e ≢ []) × SaysVc S now vc_json false e)
  verify_vc-web_refused L H T now vc_json rest vc parsed issued =
      let (e, refused) = web-resolve_refused T H rest in
      (
        (e, refused),
        elim (verify_vc-cases S L H now vc_json) [
          | inl (_, failed, _) ↦ absurd cc
          | inr (inl (v, parsed', a, _)) ↦
              let same : v ≡ vc = cc in
              let b = subst (λ x. IsAuthentic S now x) same a in
              let issuer = sym b.has_issuer ∙ issued in
              absurd (cc (b.signed.resolved, refused, issuer))
          | inr (inr (_, error, _, _, says, said)) ↦ (error, says, said)
        ],
      )
