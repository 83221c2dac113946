-- ===== src/Tests/Fixture/World.antt =====
-- The packages put together, over a network that knows no document.
use did_rust.Prelude.{
  ℕ, Text, str, length, ltb, true, inl, inr, some, [], ok, refl, ◌⊎◌, ◌≡◌, ⊎-cases, arith,
}
use did_rust.Crates.Primitives
use did_rust.Crates.Primitives.{Primitives}
use did_rust.Crates.Outside.{Chrono, Http}
use did_rust.Document.{document_value, document_of_value}
use did_rust.Document.RoundTrip.{IsTextDocument}
use did_rust.Document.Valid.{document_of_value-IsText}
use did_rust.Resolver.{DidDocument, Network}
use did_rust.Resolver.Safety.{HasClient}
use did_rust.Services
use did_rust.Services.{Services}
use did_rust.Tests.Fixture.Codecs.{hexadecimal, hexadecimal-IsCodec}
use did_rust.Tests.Fixture.Keys.{
  two_keys, two_keys-IsEd25519, checksum, checksum-IsSha256, scalars, scalars-IsSecp256k1, tagged,
  tagged-IsAead,
}
use did_rust.Tests.Fixture.Values.{Value, tree, tree-IsJson}

abbrev pub small : Primitives
small = record {
  bs58 = hexadecimal;
  hex = hexadecimal;
  ed25519 = two_keys;
  sha256 = checksum;
  secp256k1 = scalars;
  aead = tagged;
}

pub small-IsLawful : Primitives.IsLawful small
small-IsLawful = record {
  bs58 = hexadecimal-IsCodec;
  hex = hexadecimal-IsCodec;
  ed25519 = two_keys-IsEd25519;
  sha256 = checksum-IsSha256;
  secp256k1 = scalars-IsSecp256k1;
  aead = tagged-IsAead;
}

-- The document in a text, if there is one.
pub parsed_document : Text → Text ⊎ DidDocument
parsed_document t = elim (tree.from_str t) [
  | inl e ↦ inl e
  | inr v ↦ elim (document_of_value tree v) [ ok doc ↦ inr doc | _ ↦ inl (str "not a document") ]
]

-- Every URL has the same page.
abbrev pub serves : Text → Http DidDocument
serves page = record {
  Response = Text;
  Client = Unit;
  client = some tt;
  send = λ client url. inr page;
  is_success = λ response. true;
  status = λ response. [];
  body = λ response. response;
  json = parsed_document;
}

-- A time is a number, and a date is written by as many characters.
abbrev pub ticks : Chrono
ticks = record { Time = ℕ; parse_from_rfc3339 = λ t. some (length t); is_after = λ a b. ltb b a }

abbrev pub world_of : Text → Services
world_of page = record {
  primitives = small;
  json = tree;
  chrono = ticks;
  http_resolver = true;
  http = serves page;
  document_to_string = λ doc. inr (tree.to_string (document_value tree doc));
}

abbrev pub world : Services
world = world_of []

pub world_of-IsLawful : (page : Text) → Services.IsLawful (world_of page)
world_of-IsLawful page = record { primitives = small-IsLawful; json = tree-IsJson }

parsed_document-eq-inr :
    (t : Text) (doc : DidDocument)
    → parsed_document t ≡ inr doc
    → (v : Value) × (document_of_value tree v ≡ ok doc)
unfolding parsed_document
parsed_document-eq-inr t doc h = elim (⊎-cases (tree.from_str t)) [
  | inl (e, failed) ↦ absurd (ground arith)
  | inr (v, parsed) ↦ (v, ground arith)
]

parsed_document-IsText :
    (t : Text) {doc : DidDocument} → parsed_document t ≡ inr doc → IsTextDocument doc
parsed_document-IsText t {doc} h =
    let (v, read) = parsed_document-eq-inr t doc h in
    document_of_value-IsText tree tree-IsJson v doc read

pub world_of-IsDocuments : (page : Text) → Services.IsDocuments (world_of page)
unfolding parsed_document
world_of-IsDocuments page = record {
  document_to_string_lem = λ doc h. refl;
  json_lem = λ response v doc parsed printed found. rw (parsed, parsed_document, found);
  json-IsText = parsed_document-IsText;
}

pub world-IsLawful : Services.IsLawful world
world-IsLawful = record { primitives = small-IsLawful; json = tree-IsJson }

pub world-HasClient : HasClient (Services.network world)
world-HasClient on gone = cc gone

abbrev pub net : Network
net = Services.network world
