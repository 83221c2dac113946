-- ===== src/Suite/Expired.antt =====
-- src/lib.rs: the test of `verify_vc_ffi` on a credential that has expired.
use did_rust.Prelude.{
  Text, [], ◌∷◌, str, text_eq, true, false, none, some, inl, inr, err, ok, not, ◌≡◌, refl, ◌∙◌,
  text_eq_refl,
}
use did_rust.Prelude.Utf8.{is_utf8}
use did_rust.Crates.Json.{json_object}
use did_rust.Crates.Json.Fields.{get-insert_self}
use did_rust.Crates.Json.Tree.{
  IsReadBack, build, fields, text, Members, member, end, MembersAreWritable,
}
use did_rust.Services.{Services, IsLawful}
use did_rust.Credential.{
  get_str, get_object, map_get_str, is_expired, internal_verify_vc, verify_vc, verdict, vc_proof,
  sign_hex,
}
use did_rust.Credential.Fields.{
  get_str-object, get_object-object, map_get_str-insert_ne, map_get_str-insert_self,
}
use did_rust.Credential.Issue.{keys_differ, unsigned, vc_proof_map}
use did_rust.Did.Issues.{generated, generated-is_utf8}
use did_rust.Ffi.{generate_did_ffi, issue_vc_ffi, verify_vc_ffi}
use did_rust.Ffi.Strings.{c_string-to_string}
use did_rust.Ffi.Memory.{Memory, Allocator, IsAllocator}
use did_rust.Suite.Program.{
  Program, ◌>>=◌, ◌>>◌, assert, call, c_str, c_string_new, free, from_str, str_at, bool_at,
}
use did_rust.Suite.Steps.{◌⨾◌, step, assert_lem, c_string_new_lem, free_under, ne-fresh}
use did_rust.Suite.Generated.{generated_reply}
use did_rust.Ffi.Written.{payload, credential, certificate, certificate-reads}
use did_rust.Suite.Sessions.{call_json, call_identified, call_issued}
use did_rust.Suite.Verdicts.{verdict-reads, bool_at-verdict, str_at-verdict}

module _ (S : Services) where
  open S use {json, chrono}

  internal_verify_vc-expired :
      (now : chrono.Time) (vc : json.Value) {proof : json.Map} {issuer exp : Text} {t : chrono.Time}
      → get_object S vc (str "proof") ≡ some proof
      → get_str S vc (str "issuer") ≡ some issuer
      → get_str S vc (str "expirationDate") ≡ some exp
      → chrono.parse_from_rfc3339 exp ≡ some t
      → chrono.is_after now t ≡ true
      → internal_verify_vc S now vc ≡ err (str "VC is expired")
  unfolding internal_verify_vc is_expired
  internal_verify_vc-expired now vc p i e d a = rw (p, i, e, d, is_expired, a)

  module _ (L : IsLawful S) (R : IsReadBack json) (sk : S.primitives.ed25519.SigningKey)
      (ms : Members) (w : MembersAreWritable 126 ms) (now t : chrono.Time) (exp : Text)
      (dated : map_get_str S (credential S L R sk ms) (str "expirationDate") ≡ some exp)
      (parsed : chrono.parse_from_rfc3339 exp ≡ some t)
      (passed : chrono.is_after now t ≡ true) where
    abbrev issued_map : json.Map
    issued_map = unsigned S (credential S L R sk ms) (generated S sk)

    abbrev proof_of_key : json.Value
    proof_of_key =
        vc_proof S (generated S sk)
          (sign_hex S (S.primitives.ed25519.signing_key_to_bytes sk) (payload S L R sk ms))

    has_proof :
        get_object S (certificate S L R sk ms) (str "proof")
        ≡ some (
            vc_proof_map S
              (generated S sk)
              (sign_hex S (S.primitives.ed25519.signing_key_to_bytes sk) (payload S L R sk ms)))
    unfolding vc_proof json_object
    has_proof =
        get_object-object S L _ _ (str "proof")
          (get-insert_self json L.json issued_map (str "proof") proof_of_key)

    has_issuer : get_str S (certificate S L R sk ms) (str "issuer") ≡ some (generated S sk)
    has_issuer =
        get_str-object S L _ (str "issuer")
        ∙ map_get_str-insert_ne S L issued_map (str "proof") (str "issuer") _ keys_differ.2
        ∙ map_get_str-insert_self S L _ (str "issuer") _ (generated-is_utf8 S sk L)

    has_date : get_str S (certificate S L R sk ms) (str "expirationDate") ≡ some exp
    has_date =
        get_str-object S L _ (str "expirationDate")
        ∙ map_get_str-insert_ne S L issued_map (str "proof") (str "expirationDate") _ keys_differ.3
        ∙ map_get_str-insert_ne S L _ (str "issuer") (str "expirationDate") _ keys_differ.1
        ∙ dated

    pub verify_vc_ffi-expired :
        verify_vc_ffi S now (some (json.to_string (certificate S L R sk ms)))
        ≡ ok (some (json.to_string (verdict S false (str "VC is expired"))))
    unfolding verify_vc_ffi verify_vc
    verify_vc_ffi-expired = rw (
      R.to_string-is_utf8 (certificate S L R sk ms),
      verify_vc_ffi,
      certificate-reads S L R sk ms w,
      verify_vc,
      internal_verify_vc-expired now _ has_proof has_issuer has_date parsed passed,
      c_string-to_string json L.json (verdict S false (str "VC is expired")),
    )

-- The credential that the test writes.
abbrev expired_credential : Members
expired_credential =
    member (str "credentialSubject") (fields (member (str "id") (text (str "did:example:123")) end))
      (member (str "expirationDate") (text (str "2020-01-01T00:00:00Z")) end)

module _ (S : Services) (A : Allocator) (sk : S.primitives.ed25519.SigningKey)
    (now : S.chrono.Time) where
  open S use {json}

  unfoldable pub test_verify_expired_vc : Program (Unit {0})
  test_verify_expired_vc = do
    ptr ← call A (generate_did_ffi S sk none)
    result ← c_str ptr
    parsed ← from_str S result
    did ← str_at S parsed (str "did")
    priv_key ← str_at S parsed (str "private_key_base58")
    let cred = json.to_string (build json (fields expired_credential))
    cred_c ← c_string_new cred
    did_c ← c_string_new did
    key_c ← c_string_new priv_key
    vc_ptr ← call A (issue_vc_ffi S (some cred_c) (some did_c) (some key_c))
    vc_str ← c_str vc_ptr
    vc_c ← c_string_new vc_str
    res_ptr ← call A (verify_vc_ffi S now (some vc_c))
    res_str ← c_str res_ptr
    res ← from_str S res_str
    valid ← bool_at S res (str "valid")
    assert (not valid)
    error ← str_at S res (str "error")
    assert (text_eq error (str "VC is expired"))
    free ptr
    free vc_ptr
    free res_ptr

  module _ (L : IsLawful S) (R : IsReadBack json) (I : IsAllocator A) where
    writable : MembersAreWritable 126 expired_credential
    unfolding str is_utf8
    writable = (refl, (refl, refl, tt), (refl, refl, tt))

    date_written :
        map_get_str S (credential S L R sk expired_credential) (str "expirationDate")
        ≡ some (str "2020-01-01T00:00:00Z")
    unfolding str is_utf8
    date_written = map_get_str-insert_self S L _ (str "expirationDate") _ refl

    expired_text : is_utf8 (str "VC is expired") ≡ true
    unfolding str is_utf8
    expired_text = refl

    pub test_verify_expired_vc_lem :
        (m : Memory) (t : S.chrono.Time)
        → S.chrono.parse_from_rfc3339 (str "2020-01-01T00:00:00Z") ≡ some t
        → S.chrono.is_after now t ≡ true
        → test_verify_expired_vc m ≡ some (tt, m)
    unfolding test_verify_expired_vc
    test_verify_expired_vc_lem m t parsed passed =
        let ms = expired_credential in
        let live = I.fresh-ne-null in
        let p = A.fresh m in
        let m1 = (p, json.to_string (generated_reply S L sk)) ∷ m in
        let v = A.fresh m1 in
        let m2 = (v, json.to_string (certificate S L R sk ms)) ∷ m1 in
        let r = A.fresh m2 in
        call_identified S A L R I m sk _
        ⨾ call_issued S A L R I m1 sk _ ms writable
        ⨾ step _ _ (c_string_new_lem _ (L.json.to_string-has_nul _))
        ⨾ call_json S A L R I m2 _ _ (verdict S false (str "VC is expired"))
            (verify_vc_ffi-expired S L R sk ms writable now t _ date_written parsed passed)
            (verdict-reads S L R false _ expired_text)
        ⨾ step _ _ (bool_at-verdict S L R false _ expired_text _)
        ⨾ step _ _ (assert_lem refl)
        ⨾ step _ _ (str_at-verdict S L R false _ expired_text _)
        ⨾ step _ _ (assert_lem (text_eq_refl _))
        ⨾ step _ _ (
            free_under ((r, _) ∷ (v, _) ∷ []) m p _ (live m)
              (ne-fresh A I m2 p (inr (inl refl)), (ne-fresh A I m1 p (inl refl), tt)))
        ⨾ step _ _ (free_under ((r, _) ∷ []) m v _ (live m1) (ne-fresh A I m2 v (inl refl), tt))
        ⨾ free_under [] m r _ (live m2) tt
