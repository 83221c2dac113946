-- ===== src/Services.antt =====
-- All that src/lib.rs takes from outside: the packages, and the feature `http-resolver`.
use did_rust.Prelude.{Text, Bool, Result, ok, ◌⊎◌, inr, ◌≡◌}
use did_rust.Crates.Primitives
use did_rust.Crates.Primitives.{Primitives}
use did_rust.Crates.Json.{Json, IsJson}
use did_rust.Crates.Outside.{Chrono, Http}
use did_rust.Document.{document_value, document_of_value}
use did_rust.Document.RoundTrip.{IsTextDocument}
use did_rust.Resolver
use did_rust.Resolver.{DidDocument, Network}

pub record Services : Type 1 where
  pub primitives : Primitives
  pub json : Json
  pub chrono : Chrono
  pub http_resolver : Bool
  pub http : Http DidDocument
  -- `serde_json::to_string` of a document
  pub document_to_string : DidDocument → Text ⊎ Text

pub record IsLawful (S : Services) : Type 0 where
  pub primitives : Primitives.IsLawful S.primitives
  pub json : IsJson S.json

-- The derived `Serialize` and `Deserialize` of a document: what is printed is the object of its
-- fields, and a body that is the print of such an object gives the document; the texts of what a body gives
-- are valid.
pub record IsDocuments (S : Services) : Type 0 where
  pub document_to_string_lem :
      (doc : DidDocument)
      → IsTextDocument doc
      → S.document_to_string doc ≡ inr (S.json.to_string (document_value S.json doc))
  pub json_lem :
      (response : S.http.Response) (v : S.json.Value) (doc : DidDocument)
      → S.json.from_str (S.http.body response) ≡ inr v
      → S.json.to_string v ≡ S.http.body response
      → document_of_value S.json v ≡ ok doc
      → S.http.json response ≡ inr doc
  pub json-IsText :
      (response : S.http.Response) {doc : DidDocument}
      → S.http.json response ≡ inr doc
      → IsTextDocument doc

module _ (S : Services) where
  abbrev pub network : Network
  network = record { bs58 = S.primitives.bs58; http_resolver = S.http_resolver; http = S.http }

  abbrev pub resolve : Text → Result Text DidDocument
  resolve = Resolver.resolve network
