-- ===== src/Suite/Lifecycle.antt =====
-- src/lib.rs: the test that generates, issues, verifies and resolves.
use did_rust.Prelude.{
  Text, str, text_eq, contains, true, [], ◌∷◌, none, some, inl, inr, ok, ◌≡◌, ◌≢◌, refl,
}
use did_rust.Prelude.Utf8.{is_utf8}
use did_rust.Crates.Json.Tree.{
  IsReadBack, build, fields, text, Members, member, end, MembersAreWritable,
}
use did_rust.Services.{Services, IsLawful, IsDocuments}
use did_rust.Document.{document_value}
use did_rust.Credential.{map_get_str, verdict}
use did_rust.Ffi.{generate_did_ffi, issue_vc_ffi, verify_vc_ffi, resolve_did_ffi}
use did_rust.Ffi.Memory.{Memory, Allocator, IsAllocator}
use did_rust.Suite.Program.{
  Program, ◌>>=◌, ◌>>◌, assert, call, is_live, c_str, c_string_new, free, from_str, str_at, bool_at,
}
use did_rust.Suite.Steps.{
  ◌⨾◌, step, assert_lem, c_string_new_lem, from_str_lem, str_at_lem, free_under, ne-fresh,
}
use did_rust.Suite.Sessions.{call_live}
use did_rust.Suite.Generated.{
  generated_reply, generated_reply-reads, replies_to_null, get_str-did, get_str-private_key,
  generated-has_nul, generated_key-has_nul,
}
use did_rust.Ffi.Written.{
  credential, certificate, issue_vc_ffi-written, verify_vc_ffi-written, get-written,
}
use did_rust.Suite.Verdicts.{verdict-reads, bool_at-verdict}
use did_rust.Suite.Resolves.{generated_document, resolve_did_ffi-generated, contains-document}

-- The credential that the test writes.
abbrev degree_credential : Members
degree_credential =
    member (str "credentialSubject")
      (fields (
        member (str "id") (text (str "did:example:123"))
          (member (str "degree") (text (str "BSc")) end)))
      end

module _ (S : Services) (A : Allocator) (sk : S.primitives.ed25519.SigningKey)
    (now : S.chrono.Time) where
  open S use {json, chrono}

  unfoldable pub test_generate_and_verify_vc : Program (Unit {0})
  test_generate_and_verify_vc = do
    ptr ← call A (generate_did_ffi S sk none)
    assert (is_live ptr)
    result ← c_str ptr
    parsed ← from_str S result
    did ← str_at S parsed (str "did")
    priv_key ← str_at S parsed (str "private_key_base58")
    let cred = json.to_string (build json (fields degree_credential))
    cred_c ← c_string_new cred
    did_c ← c_string_new did
    key_c ← c_string_new priv_key
    vc_ptr ← call A (issue_vc_ffi S (some cred_c) (some did_c) (some key_c))
    assert (is_live vc_ptr)
    vc_str ← c_str vc_ptr
    vc_c ← c_string_new vc_str
    res_ptr ← call A (verify_vc_ffi S now (some vc_c))
    assert (is_live res_ptr)
    res_str ← c_str res_ptr
    res ← from_str S res_str
    valid ← bool_at S res (str "valid")
    assert valid
    doc_ptr ← call A (resolve_did_ffi S (some did_c))
    assert (is_live doc_ptr)
    doc_str ← c_str doc_ptr
    assert (contains doc_str (str "verificationMethod"))
    free ptr
    free vc_ptr
    free res_ptr
    free doc_ptr

  module _ (L : IsLawful S) (R : IsReadBack json) (D : IsDocuments S) (I : IsAllocator A) where
    writable : MembersAreWritable 126 degree_credential
    unfolding str is_utf8
    writable = (refl, (refl, refl, (refl, refl, tt)), tt)

    no_proof : json.get (credential S L R sk degree_credential) (str "proof") ≡ none
    unfolding str text_eq
    no_proof = get-written json L.json degree_credential (str "proof")

    no_date : json.get (credential S L R sk degree_credential) (str "expirationDate") ≡ none
    unfolding str text_eq
    no_date = get-written json L.json degree_credential (str "expirationDate")

    undated :
        (exp : Text)
        → map_get_str S (credential S L R sk degree_credential) (str "expirationDate") ≢ some exp
    undated exp = rw (no_date, map_get_str) (λ e. cc)

    verifies :
        verify_vc_ffi S now (some (json.to_string (certificate S L R sk degree_credential)))
        ≡ ok (some (json.to_string (verdict S true [])))
    verifies =
        verify_vc_ffi-written S L R sk degree_credential writable now no_proof
          (λ exp t dated parsed. absurd (undated exp dated))

    empty_text : is_utf8 [] ≡ true
    unfolding is_utf8
    empty_text = refl

    -- Let the packages be lawful, serde_json read back what it printed, documents be serialized
    -- as their attributes say, and the allocator be lawful. Then whatever key `generate_did`
    -- draws, whatever the time and the memory, `test_generate_and_verify_vc` runs to its end:
    -- through the C interface an identifier is generated, the credential of the test is issued
    -- and reported as valid, the identifier resolves to a document with a `verificationMethod`,
    -- and when the four strings are freed the memory is what it was.
    pub test_generate_and_verify_vc_lem :
        (m : Memory) → test_generate_and_verify_vc m ≡ some (tt, m)
    unfolding test_generate_and_verify_vc
    test_generate_and_verify_vc_lem m =
        let live = I.fresh-ne-null in
        let apart = ne-fresh A I in
        let reply = generated_reply S L sk in
        let p = A.fresh m in
        let m1 = (p, json.to_string reply) ∷ m in
        let vc = certificate S L R sk degree_credential in
        let v = A.fresh m1 in
        let m2 = (v, json.to_string vc) ∷ m1 in
        let r = A.fresh m2 in
        let m3 = (r, json.to_string (verdict S true [])) ∷ m2 in
        let doc = generated_document S L sk D in
        let d = A.fresh m3 in
        call_live S A L R I m _ _ reply (replies_to_null S L sk)
        ⨾ step _ _ (from_str_lem S _ reply (generated_reply-reads S L sk R))
        ⨾ step _ _ (str_at_lem S reply (str "did") _ (get_str-did S L sk))
        ⨾ step _ _ (str_at_lem S reply (str "private_key_base58") _ (get_str-private_key S L sk))
        ⨾ step _ _ (c_string_new_lem _ (L.json.to_string-has_nul _))
        ⨾ step _ _ (c_string_new_lem _ (generated-has_nul S L sk))
        ⨾ step _ _ (c_string_new_lem _ (generated_key-has_nul S L sk))
        ⨾ call_live S A L R I m1 _ _ vc (issue_vc_ffi-written S L R sk degree_credential writable)
        ⨾ step _ _ (c_string_new_lem _ (L.json.to_string-has_nul vc))
        ⨾ call_live S A L R I m2 _ _ (verdict S true []) verifies
        ⨾ step _ _ (from_str_lem S _ _ (verdict-reads S L R true [] empty_text))
        ⨾ step _ _ (bool_at-verdict S L R true [] empty_text _)
        ⨾ step _ _ (assert_lem refl)
        ⨾ call_live S A L R I m3 _ _ (document_value json doc) (resolve_did_ffi-generated S L sk D)
        ⨾ step _ _ (assert_lem (contains-document S L R doc))
        ⨾ step _ _ (
            free_under ((d, _) ∷ (r, _) ∷ (v, _) ∷ []) m p _ (live m) (
              apart m3 p (inr (inr (inl refl))),
              (apart m2 p (inr (inl refl)), (apart m1 p (inl refl), tt)),
            ))
        ⨾ step _ _ (
            free_under ((d, _) ∷ (r, _) ∷ []) m v _ (live m1)
              (apart m3 v (inr (inl refl)), (apart m2 v (inl refl), tt)))
        ⨾ step _ _ (free_under ((d, _) ∷ []) m r _ (live m2) (apart m3 r (inl refl), tt))
        ⨾ free_under [] m d _ (live m3) tt
