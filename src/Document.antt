-- ===== src/Document.antt =====
-- src/resolver.rs and src/lib.rs: the JSON of the structs `DidDocument`, `VerificationMethod`,
-- `VerifiablePresentation` and `Proof`, as the attributes of their derived `Serialize` and
-- `Deserialize` describe it. A value that does not fit is refused, whatever the message.
pub mod RoundTrip
pub mod Valid
use did_rust.Prelude.{
  Text, str, List, [], ◌∷◌, map, Option, none, some, Result, ok, err, ok_or, ◌>>=◌,
}
use did_rust.Crates.Json.{Json, null, string, array, object, json_object, string_value}
use did_rust.Envelope.{optional}
use did_rust.Resolver.{VerificationMethod, DidDocument}

pub record Proof : Type 0 where
  pub type_ : Text
  pub verification_method : Text
  pub proof_value : Text
  pub created : Option Text
  pub challenge : Option Text
  pub domain : Option Text

module _ (J : Json) where
  pub record VerifiablePresentation : Type 0 where
    pub context : List Text
    pub type_ : List Text
    pub holder : Text
    pub verifiable_credential : List J.Value
    pub proof : Option Proof

  abbrev pub Read : Type 0 → Type 0
  Read A = Result (Unit {0}) A

  -- The elements of a list, each read.
  unfoldable pub read_all : {A : Type 0} → (J.Value → Read A) → List J.Value → Read (List A)
  read_all read [] = ok []
  read_all read (v ∷ vs) = do x ← read v; xs ← read_all read vs; ok (x ∷ xs)

  unfoldable pub read_str : J.Value → Read Text
  read_str v = ok_or tt (J.as_str v)

  unfoldable pub read_array : {A : Type 0} → (J.Value → Read A) → J.Value → Read (List A)
  read_array read v = elim (J.variant v) [ array vs ↦ read_all read vs | _ ↦ err tt ]

  -- An `Option`: `null` is `None`.
  unfoldable pub read_optional : {A : Type 0} → (J.Value → Read A) → J.Value → Read (Option A)
  read_optional read v = elim (J.variant v) [ null ↦ ok none | _ ↦ read v >>= λ x. ok (some x) ]

  -- A field that must be there, one with a default, and an `Option`, which may be left out.
  unfoldable pub required : {A : Type 0} → (J.Value → Read A) → J.Map → Text → Read A
  required read m k = ok_or tt (J.get m k) >>= read

  unfoldable pub defaulted : {A : Type 0} → A → (J.Value → Read A) → J.Map → Text → Read A
  defaulted d read m k = elim (J.get m k) [ none ↦ ok d | some v ↦ read v ]

  unfoldable pub maybe : {A : Type 0} → (J.Value → Read A) → J.Map → Text → Read (Option A)
  maybe read = defaulted none (read_optional read)

  -- A struct is read from an object, by the names of its fields, or from an array, by their order.
  unfoldable pub read_struct :
      {A : Type 0} → (J.Map → Read A) → (List J.Value → Read A) → J.Value → Read A
  read_struct of_map of_seq v = elim (J.variant v) [
    | object m ↦ of_map m
    | array vs ↦ of_seq vs
    | _ ↦ err tt
  ]

  unfoldable pub method_of_map : J.Map → Read VerificationMethod
  method_of_map m = do
    id ← required read_str m (str "id")
    type_ ← required read_str m (str "type")
    controller ← required read_str m (str "controller")
    public_key_base58 ← maybe read_str m (str "publicKeyBase58")
    public_key_multibase ← maybe read_str m (str "publicKeyMultibase")
    ok (record {
      id = id;
      type_ = type_;
      controller = controller;
      public_key_base58 = public_key_base58;
      public_key_multibase = public_key_multibase;
    })

  -- In an array no field may be left out but those with a default at its end, and none added.
  unfoldable pub method_of_seq : List J.Value → Read VerificationMethod
  method_of_seq (id ∷ type_ ∷ controller ∷ base58 ∷ multibase ∷ []) = do
    id ← read_str id
    type_ ← read_str type_
    controller ← read_str controller
    public_key_base58 ← read_optional read_str base58
    public_key_multibase ← read_optional read_str multibase
    ok (record {
      id = id;
      type_ = type_;
      controller = controller;
      public_key_base58 = public_key_base58;
      public_key_multibase = public_key_multibase;
    })
  method_of_seq _ = err tt

  unfoldable pub method_of_value : J.Value → Read VerificationMethod
  method_of_value = read_struct method_of_map method_of_seq

  unfoldable pub document_of_map : J.Map → Read DidDocument
  document_of_map m = do
    id ← required read_str m (str "id")
    methods ← defaulted [] (read_array method_of_value) m (str "verificationMethod")
    ok (record { id = id; verification_method = methods })

  unfoldable pub document_of_seq : List J.Value → Read DidDocument
  document_of_seq (id ∷ []) = do id ← read_str id; ok (record { id = id; verification_method = [] })
  document_of_seq (id ∷ methods ∷ []) = do
    id ← read_str id
    methods ← read_array method_of_value methods
    ok (record { id = id; verification_method = methods })
  document_of_seq _ = err tt

  unfoldable pub document_of_value : J.Value → Read DidDocument
  document_of_value = read_struct document_of_map document_of_seq

  abbrev pub method_fields : VerificationMethod → List (Text × J.Value)
  method_fields method =
      (str "id", string_value J method.id)
      ∷ (str "type", string_value J method.type_)
      ∷ (str "controller", string_value J method.controller)
      ∷ (str "publicKeyBase58", optional J method.public_key_base58)
      ∷ (str "publicKeyMultibase", optional J method.public_key_multibase)
      ∷ []

  unfoldable pub method_value : VerificationMethod → J.Value
  method_value method = json_object J (method_fields method)

  abbrev pub document_fields : DidDocument → List (Text × J.Value)
  document_fields doc =
      (str "id", string_value J doc.id)
      ∷ (str "verificationMethod", J.value (array (map method_value doc.verification_method)))
      ∷ []

  unfoldable pub document_value : DidDocument → J.Value
  document_value doc = json_object J (document_fields doc)

  unfoldable pub proof_of_map : J.Map → Read Proof
  proof_of_map m = do
    type_ ← defaulted [] read_str m (str "type")
    verification_method ← defaulted [] read_str m (str "verificationMethod")
    proof_value ← required read_str m (str "proofValue")
    created ← maybe read_str m (str "created")
    challenge ← maybe read_str m (str "challenge")
    domain ← maybe read_str m (str "domain")
    ok (record {
      type_ = type_;
      verification_method = verification_method;
      proof_value = proof_value;
      created = created;
      challenge = challenge;
      domain = domain;
    })

  unfoldable pub proof_of_seq : List J.Value → Read Proof
  proof_of_seq (type_ ∷ verification_method ∷ proof_value ∷ created ∷ challenge ∷ domain ∷ []) = do
    type_ ← read_str type_
    verification_method ← read_str verification_method
    proof_value ← read_str proof_value
    created ← read_optional read_str created
    challenge ← read_optional read_str challenge
    domain ← read_optional read_str domain
    ok (record {
      type_ = type_;
      verification_method = verification_method;
      proof_value = proof_value;
      created = created;
      challenge = challenge;
      domain = domain;
    })
  proof_of_seq _ = err tt

  unfoldable pub proof_of_value : J.Value → Read Proof
  proof_of_value = read_struct proof_of_map proof_of_seq

  unfoldable pub presentation_of_map : J.Map → Read VerifiablePresentation
  presentation_of_map m = do
    context ← defaulted [] (read_array read_str) m (str "@context")
    type_ ← defaulted [] (read_array read_str) m (str "type")
    holder ← defaulted [] read_str m (str "holder")
    vcs ← defaulted [] (read_array (λ vc. ok vc)) m (str "verifiableCredential")
    proof ← maybe proof_of_value m (str "proof")
    ok (record {
      context = context;
      type_ = type_;
      holder = holder;
      verifiable_credential = vcs;
      proof = proof;
    })

  unfoldable pub presentation_of_seq : List J.Value → Read VerifiablePresentation
  presentation_of_seq (context ∷ type_ ∷ holder ∷ vcs ∷ proof ∷ []) = do
    context ← read_array read_str context
    type_ ← read_array read_str type_
    holder ← read_str holder
    vcs ← read_array (λ vc. ok vc) vcs
    proof ← read_optional proof_of_value proof
    ok (record {
      context = context;
      type_ = type_;
      holder = holder;
      verifiable_credential = vcs;
      proof = proof;
    })
  presentation_of_seq _ = err tt

  unfoldable pub presentation_of_value : J.Value → Read VerifiablePresentation
  presentation_of_value = read_struct presentation_of_map presentation_of_seq
