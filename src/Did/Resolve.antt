-- ===== src/Did/Resolve.antt =====
-- `resolve_did` on every outcome of the resolution.
use did_rust.Prelude.{Text, str, [], ◌∷◌, Result-cases, inl, inr, ◌⊎◌, ok, err, returned, ◌≡◌, true}
use did_rust.Prelude.Utf8.{is_utf8}
use did_rust.Crates.Json.{string_value, json_object}
use did_rust.Services.{Services, resolve, network}
use did_rust.Resolver.{DidDocument}
use did_rust.Resolver.Safety.{HasClient, resolve-ne-panic}
use did_rust.Did.{resolve_did}

module _ (S : Services) where
  open S use {json, document_to_string}

  -- What is returned is what writing the document gives, or an object with the error.
  pub resolve_did-cases :
      HasClient (network S)
      → (did : Text) → is_utf8 did ≡ true
      → ((doc : DidDocument) × (resolve S did ≡ ok doc)
          × (resolve_did S did ≡ returned (document_to_string doc)))
        ⊎ ((e : Text) × (resolve S did ≡ err e)
            × (resolve_did S did
                ≡ ok (json.to_string (json_object json ((str "error", string_value json e) ∷ [])))))
  unfolding resolve_did
  resolve_did-cases H did h = elim (Result-cases (resolve S did)) [
    | inl (doc, e) ↦ inl (doc, e, rw (e, resolve_did))
    | inr (inl (message, e)) ↦ inr (message, e, rw (e, resolve_did))
    | inr (inr e) ↦ absurd (resolve-ne-panic (network S) H did h e)
  ]
