-- ===== src/Resolver.antt =====
-- src/resolver.rs: the document of an identifier, by its method.
pub mod Safety
pub mod Url
pub mod Key
use did_rust.Prelude.{
  ℕ, Text, str, starts_with, strip_prefix, Bytes, length, drop, Bool, true, false, ◌&&◌, List, [],
  ◌∷◌, ◌++◌, Option, some, Result, ok, err, ok_or, or_panic, returned, ◌>>=◌, ◌>>◌, guard, ◌==◌,
  if◌then◌else◌,
}
use did_rust.Prelude.Utf8.{str_from}
use did_rust.Crates.Codec.{Codec}
use did_rust.Crates.Outside.{Http}

pub record VerificationMethod : Type 0 where
  pub id : Text
  pub type_ : Text
  pub controller : Text
  pub public_key_base58 : Option Text
  pub public_key_multibase : Option Text

pub record DidDocument : Type 0 where
  pub id : Text
  pub verification_method : List VerificationMethod

abbrev pub did_key : Text
unfolding str
did_key = str "did:key:"

abbrev pub did_web : Text
unfolding str
did_web = str "did:web:"

abbrev pub did_ipfs : Text
unfolding str
did_ipfs = str "did:ipfs:"

-- Two bytes of a multicodec prefix, and the 32 bytes of a key.
unfoldable pub is_ed25519_multikey : Bytes → Bool
is_ed25519_multikey (a ∷ b ∷ key) = (length key == 32) && ((a == 0xed) && (b == 0x01))
is_ed25519_multikey _ = false

-- The document of a `did:key`, of its identifier, its multibase part and its public key in base 58.
unfoldable pub key_document : Text → Text → Text → DidDocument
key_document did multibase pub_key_b58 = record {
  id = did;
  verification_method =
      record {
        id = did ++ str "#keys-1";
        type_ = str "Ed25519VerificationKey2018";
        controller = did;
        public_key_base58 = some pub_key_b58;
        public_key_multibase = some multibase;
      }
      ∷ [];
}

-- `impl DidResolver for KeyResolver`
module _ (bs58 : Codec) where
  unfoldable pub resolve_key : Text → Result Text DidDocument
  unfolding str
  resolve_key did = do
    guard (starts_with did (str "did:key:z")) (str "Invalid did:key format")
    multibase ← or_panic (str_from (length did_key) did)
    guard (starts_with multibase (str "z")) (str "Only base58btc (z) is supported for did:key")
    digits ← or_panic (str_from 1 multibase)
    decoded ← returned (bs58.decode digits)
    guard (is_ed25519_multikey decoded) (str "Only Ed25519 keys are supported")
    ok (key_document did multibase (bs58.encode (drop 2 decoded)))

-- The parts of a text, one character further to the left: a separator begins a new part.
abbrev pub add_char : Bool → ℕ → List Text → List Text
add_char is_sep c [] = []
add_char true c (part ∷ parts) = [] ∷ part ∷ parts
add_char false c (part ∷ parts) = (c ∷ part) ∷ parts

-- `s.split(sep)`
unfoldable pub split : ℕ → Text → List Text
split sep [] = [] ∷ []
split sep (c ∷ s) = add_char (c == sep) c (split sep s)

-- `parts.join(sep)`
unfoldable pub join : Text → List Text → Text
join sep [] = []
join sep (part ∷ []) = part
join sep (part ∷ next ∷ parts) = part ++ (sep ++ join sep (next ∷ parts))

-- The URL of the parts of a `did:web`.
unfoldable pub web_url : List Text → Result Text Text
web_url [] = err (str "Invalid did:web")
web_url (domain ∷ []) = ok (str "https://" ++ (domain ++ str "/.well-known/did.json"))
web_url (domain ∷ path ∷ parts) =
    ok (
      str "https://" ++ (domain ++ (str "/" ++ (join (str "/") (path ∷ parts) ++ str "/did.json"))))

unfoldable pub build_did_web_url : Text → Result Text Text
build_did_web_url did = do
  without_prefix ← ok_or (str "Not a did:web") (strip_prefix did did_web)
  web_url (split b':' without_prefix)

-- The same function without the feature `http-resolver`.
unfoldable pub build_did_web_url_without_http : Text → Result Text Text
build_did_web_url_without_http did =
    err (str "did:web URL construction requires 'http-resolver' feature: " ++ did)

-- What resolution uses: base 58, the feature `http-resolver`, and its client.
pub record Network : Type 1 where
  pub bs58 : Codec
  pub http_resolver : Bool
  pub http : Http DidDocument

module _ (N : Network) where
  open N use {bs58, http_resolver, http}

  -- The client is a lazy static, whose initializer expects that it can be built: if it cannot, its
  -- first use and each later one panics.
  abbrev pub http_client : Result Text http.Client
  http_client = or_panic http.client

  unfoldable pub fetch_did_document : Text → Result Text DidDocument
  fetch_did_document url = do
    client ← http_client
    response ← returned (http.send client url)
    guard (http.is_success response)
        (str "HTTP error " ++ (http.status response ++ (str " fetching " ++ url)))
    returned (http.json response)

  unfoldable pub resolve_web : Text → Result Text DidDocument
  resolve_web did =
      if http_resolver
      then (do url ← build_did_web_url did; fetch_did_document url)
      else err (
          str
            "did:web resolution requires the 'http-resolver' feature (not available in WASM target)")

  -- `impl DidResolver for IpfsResolver`
  unfoldable pub resolve_ipfs : Text → Result Text DidDocument
  resolve_ipfs did = err (str "IPFS resolution is not yet implemented for: " ++ did)

  unfoldable pub resolve : Text → Result Text DidDocument
  resolve did =
      if starts_with did did_key
      then resolve_key bs58 did
      else if starts_with did did_web
      then resolve_web did
      else if starts_with did did_ipfs
      then resolve_ipfs did
      else err (str "Unsupported DID method: " ++ did)
