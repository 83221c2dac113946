-- ===== src/Document/Valid.antt =====
-- The documents that are read have valid texts.
use did_rust.Prelude.{
  Text, str, List, [], ◌∷◌, Option, none, some, Result, ok, ok_or, ◌>>=◌, >>=-eq-ok, Option-cases,
  inl, inr, ◌⊎◌, refl, ◌≡◌, true, All, subst, arith,
}
use did_rust.Prelude.Utf8.{is_utf8}
use did_rust.Crates.Json.{Json, IsJson, null, bool, number, string, array, object}
use did_rust.Resolver.{VerificationMethod, DidDocument}
use did_rust.Document.{
  Read, read_struct, method_of_map, method_of_seq, document_of_map, document_of_seq, read_all,
  read_str, read_array, read_optional, required, defaulted, maybe, method_of_value,
  document_of_value,
}
use did_rust.Document.RoundTrip.{IsTextOption, IsTextMethod, IsTextDocument}

ok_injective : {E A : Type 0} {a b : A} → ◌≡◌ {A = Result E A} (ok a) (ok b) → a ≡ b
ok_injective h = cc

module _ (J : Json) (L : IsJson J) where
  read_str-is_utf8 : (v : J.Value) (t : Text) → read_str J v ≡ ok t → is_utf8 t ≡ true
  unfolding read_str
  read_str-is_utf8 v t h = L.as_str-is_utf8 v (ground arith)

  required-is_utf8 :
      (m : J.Map) (k t : Text) → required J (read_str J) m k ≡ ok t → is_utf8 t ≡ true
  unfolding required
  required-is_utf8 m k t h =
      let (v, e, f) = >>=-eq-ok (ok_or tt (J.get m k)) _ h in read_str-is_utf8 v t f

  read_some :
      (v : J.Value) (t : Text)
      → (read_str J v >>= λ x. ok (some x)) ≡ ok (some t)
      → is_utf8 t ≡ true
  read_some v t h = let (x, e, f) = >>=-eq-ok (read_str J v) _ h in read_str-is_utf8 v t (cc)

  read_optional-is_utf8 :
      (v : J.Value) (t : Text) → read_optional J (read_str J) v ≡ ok (some t) → is_utf8 t ≡ true
  unfolding read_optional
  read_optional-is_utf8 v t h = ground (arith, read_some v t)

  maybe-IsText :
      (m : J.Map) (k : Text) (o : Option Text) → maybe J (read_str J) m k ≡ ok o → IsTextOption o
  unfolding maybe defaulted
  maybe-IsText m k none h = tt
  maybe-IsText m k (some t) h = grind (arith, read_optional-is_utf8)

  read_struct-eq-ok :
      {A : Type 0} (of_map : J.Map → Read J A) (of_seq : List J.Value → Read J A) (v : J.Value)
      (a : A)
      → read_struct J of_map of_seq v ≡ ok a
      → ((m : J.Map) × (of_map m ≡ ok a)) ⊎ ((vs : List J.Value) × (of_seq vs ≡ ok a))
  unfolding read_struct
  read_struct-eq-ok {A} of_map of_seq v a h =
      elim (J.variant v)
          as (λ w.
            J.variant v ≡ w
            → ((m : J.Map) × (of_map m ≡ ok a)) ⊎ ((vs : List J.Value) × (of_seq vs ≡ ok a))) [
              | object m ↦ λ e. inl (m, rw (e, read_struct) at h)
              | array vs ↦ λ e. inr (vs, rw (e, read_struct) at h)
              | null ↦ λ e. absurd (ground arith)
              | bool b ↦ λ e. absurd (ground arith)
              | number n ↦ λ e. absurd (ground arith)
              | string t ↦ λ e. absurd (ground arith)
            ]
        refl

  read_option-IsText :
      (v : J.Value) (o : Option Text) → read_optional J (read_str J) v ≡ ok o → IsTextOption o
  read_option-IsText v none h = tt
  read_option-IsText v (some t) h = read_optional-is_utf8 v t h

  method_of_seq-IsText :
      (vs : List J.Value) (method : VerificationMethod)
      → method_of_seq J vs ≡ ok method
      → IsTextMethod method
  unfolding method_of_seq
  method_of_seq-IsText (a ∷ b ∷ c ∷ d ∷ e ∷ []) method h =
      let (id, e1, f1) = >>=-eq-ok (read_str J a) _ h in
      let (type_, e2, f2) = >>=-eq-ok (read_str J b) _ f1 in
      let (controller, e3, f3) = >>=-eq-ok (read_str J c) _ f2 in
      let (base58, e4, f4) = >>=-eq-ok (read_optional J (read_str J) d) _ f3 in
      let (multibase, e5, f5) = >>=-eq-ok (read_optional J (read_str J) e) _ f4 in
      subst IsTextMethod (ok_injective f5) (record {
        id = read_str-is_utf8 a id e1;
        type_ = read_str-is_utf8 b type_ e2;
        controller = read_str-is_utf8 c controller e3;
        public_key_base58 = read_option-IsText d base58 e4;
        public_key_multibase = read_option-IsText e multibase e5;
      })
  method_of_seq-IsText _ method h = absurd (ground arith)

  method_of_map-IsText :
      (m : J.Map) (method : VerificationMethod)
      → method_of_map J m ≡ ok method
      → IsTextMethod method
  unfolding method_of_map
  method_of_map-IsText m method f =
      let (id, e1, f1) = >>=-eq-ok (required J (read_str J) m (str "id")) _ f in
      let (type_, e2, f2) = >>=-eq-ok (required J (read_str J) m (str "type")) _ f1 in
      let (controller, e3, f3) = >>=-eq-ok (required J (read_str J) m (str "controller")) _ f2 in
      let (base58, e4, f4) = >>=-eq-ok (maybe J (read_str J) m (str "publicKeyBase58")) _ f3 in
      let (multibase, e5, f5) =
        >>=-eq-ok (maybe J (read_str J) m (str "publicKeyMultibase")) _ f4 in
      subst IsTextMethod (ok_injective f5) (record {
        id = required-is_utf8 m _ id e1;
        type_ = required-is_utf8 m _ type_ e2;
        controller = required-is_utf8 m _ controller e3;
        public_key_base58 = maybe-IsText m _ base58 e4;
        public_key_multibase = maybe-IsText m _ multibase e5;
      })

  method_of_value-IsText :
      (v : J.Value) (method : VerificationMethod)
      → method_of_value J v ≡ ok method
      → IsTextMethod method
  unfolding method_of_value
  method_of_value-IsText v method h =
      elim (read_struct-eq-ok (method_of_map J) (method_of_seq J) v method h) [
        | inl (m, e) ↦ method_of_map-IsText m method e
        | inr (vs, e) ↦ method_of_seq-IsText vs method e
      ]

  read_all-IsText :
      (vs : List J.Value) (methods : List VerificationMethod)
      → read_all J (method_of_value J) vs ≡ ok methods
      → All IsTextMethod methods
  unfolding read_all
  read_all-IsText [] methods h = subst (All IsTextMethod) (ok_injective h) tt
  read_all-IsText (v ∷ vs) methods h =
      let (x, e, f) = >>=-eq-ok (method_of_value J v) _ h in
      let (xs, e1, f1) = >>=-eq-ok (read_all J (method_of_value J) vs) _ f in
      subst (All IsTextMethod) (ok_injective f1)
        (method_of_value-IsText v x e, read_all-IsText vs xs e1)

  read_array-IsText :
      (v : J.Value) (methods : List VerificationMethod)
      → read_array J (method_of_value J) v ≡ ok methods
      → All IsTextMethod methods
  unfolding read_array
  read_array-IsText v methods h = grind (arith, read_all-IsText)

  methods-IsText :
      (m : J.Map) (k : Text) (methods : List VerificationMethod)
      → defaulted J [] (read_array J (method_of_value J)) m k ≡ ok methods
      → All IsTextMethod methods
  unfolding defaulted
  methods-IsText m k methods h = elim (Option-cases (J.get m k)) [
    | inl e ↦ subst (All IsTextMethod) (ok_injective (rw (e, defaulted) at h)) tt
    | inr (v, e) ↦ read_array-IsText v methods (rw (e, defaulted) at h)
  ]

  document_of_seq-IsText :
      (vs : List J.Value) (doc : DidDocument) → document_of_seq J vs ≡ ok doc → IsTextDocument doc
  unfolding document_of_seq
  document_of_seq-IsText (a ∷ []) doc h =
      let (id, e1, f1) = >>=-eq-ok (read_str J a) _ h in
      subst IsTextDocument (ok_injective f1)
        (record { id = read_str-is_utf8 a id e1; verification_method = tt })
  document_of_seq-IsText (a ∷ b ∷ []) doc h =
      let (id, e1, f1) = >>=-eq-ok (read_str J a) _ h in
      let (methods, e2, f2) = >>=-eq-ok (read_array J (method_of_value J) b) _ f1 in
      subst IsTextDocument (ok_injective f2) (record {
        id = read_str-is_utf8 a id e1;
        verification_method = read_array-IsText b methods e2;
      })
  document_of_seq-IsText _ doc h = absurd (ground arith)

  document_of_map-IsText :
      (m : J.Map) (doc : DidDocument) → document_of_map J m ≡ ok doc → IsTextDocument doc
  unfolding document_of_map
  document_of_map-IsText m doc f =
      let (id, e1, f1) = >>=-eq-ok (required J (read_str J) m (str "id")) _ f in
      let (methods, e2, f2) =
        >>=-eq-ok (defaulted J [] (read_array J (method_of_value J)) m (str "verificationMethod")) _
          f1 in
      subst IsTextDocument (ok_injective f2) (record {
        id = required-is_utf8 m _ id e1;
        verification_method = methods-IsText m _ methods e2;
      })

  -- A document that is read from JSON has valid texts.
  pub document_of_value-IsText :
      (v : J.Value) (doc : DidDocument) → document_of_value J v ≡ ok doc → IsTextDocument doc
  unfolding document_of_value
  document_of_value-IsText v doc h =
      elim (read_struct-eq-ok (document_of_map J) (document_of_seq J) v doc h) [
        | inl (m, e) ↦ document_of_map-IsText m doc e
        | inr (vs, e) ↦ document_of_seq-IsText vs doc e
      ]
