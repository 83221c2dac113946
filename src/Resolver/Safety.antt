-- ===== src/Resolver/Safety.antt =====
-- `resolve` on every method: when it panics.
use did_rust.Prelude.{
  Text, str, ◌≡◌, ◌≢◌, refl, ◌↔◌, true, false, none, panic, ◌++◌, starts_with, starts_with-append,
  starts_with-eq, Option-cases, Bool-cases, inl, inr, arith,
}
use did_rust.Prelude.Utf8.{is_utf8}
use did_rust.Resolver.{
  Network, did_key, did_web, fetch_did_document, resolve_web, resolve_ipfs, resolve,
}
use did_rust.Resolver.Key.{resolve_key-ne-panic}
use did_rust.Resolver.Url.{build_did_web_url-append}

module _ (N : Network) where
  open N use {http_resolver, http}

  -- The feature `http-resolver` is off, or the client can be built.
  abbrev pub HasClient : Type 0
  HasClient = http_resolver ≡ true → http.client ≢ none

  fetch_did_document-panic : (url : Text) → fetch_did_document N url ≡ panic → http.client ≡ none
  unfolding fetch_did_document
  fetch_did_document-panic url h = elim (Option-cases http.client) [
    | inl e ↦ e
    | inr (client, e) ↦ absurd (ground arith)
  ]

  resolve_web-panic :
      (rest : Text)
      → resolve_web N (did_web ++ rest) ≡ panic
      → (http_resolver ≡ true) × (http.client ≡ none)
  unfolding resolve_web
  resolve_web-panic rest h =
      let (path, built) = build_did_web_url-append rest in
      elim (Bool-cases http_resolver) [
        | inr off ↦ absurd (ground arith)
        | inl on ↦ (on, fetch_did_document-panic (str "https://" ++ path) (ground arith))
      ]

  pub web-ne-key : (rest : Text) → starts_with (did_web ++ rest) did_key ≡ false
  unfolding starts_with did_key
  web-ne-key rest = refl

  web_panics :
      (rest : Text)
      → http_resolver ≡ true
      → http.client ≡ none
      → resolve N (did_web ++ rest) ≡ panic
  unfolding resolve resolve_web fetch_did_document
  web_panics rest on gone =
      let (path, built) = build_did_web_url-append rest in
      rw (web-ne-key rest, starts_with-append did_web rest, on, built, gone)

  panics_web :
      (did : Text)
      → is_utf8 did ≡ true
      → resolve N did ≡ panic
      → (rest : Text) × (did ≡ did_web ++ rest) × (http_resolver ≡ true) × (http.client ≡ none)
  unfolding resolve resolve_ipfs
  panics_web did u h = elim (Bool-cases (starts_with did did_key)) [
    | inl key ↦ absurd (resolve_key-ne-panic N.bs58 did u (ground arith))
    | inr other ↦ elim (Bool-cases (starts_with did did_web)) [
      | inr neither ↦ absurd (ground arith)
      | inl web ↦
          let (rest, same) = starts_with-eq did did_web web in
          let found : resolve_web N did ≡ panic = ground arith in
          let (on, gone) = resolve_web-panic rest (rw same at found) in (rest, same, on, gone)
    ]
  ]

  -- On a valid UTF-8 text `resolve` panics exactly if the text begins with `did:web:`, the
  -- feature `http-resolver` is on, and the HTTP client cannot be built; whatever its method and
  -- the answers of the network, it returns otherwise.
  pub resolve_panic_iff :
      (did : Text)
      → is_utf8 did ≡ true
      → (resolve N did ≡ panic)
        ↔ ((rest : Text) × (did ≡ did_web ++ rest) × (http_resolver ≡ true) × (http.client ≡ none))
  resolve_panic_iff did u =
      (panics_web did u, λ (rest, same, on, gone). rw same (web_panics rest on gone))

  pub resolve-ne-panic : HasClient → (did : Text) → is_utf8 did ≡ true → resolve N did ≢ panic
  resolve-ne-panic built did u h = let (rest, same, on, gone) = panics_web did u h in built on gone
