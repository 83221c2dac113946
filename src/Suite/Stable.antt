-- ===== src/Suite/Stable.antt =====
-- src/lib.rs: the test that issues the same credential twice.
use did_rust.Prelude.{str, text_eq, text_eq_refl, [], ◌∷◌, none, some, ◌≡◌, ◌∙◌, refl}
use did_rust.Prelude.Utf8.{is_utf8}
use did_rust.Crates.Json.Fields.{get-insert_self}
use did_rust.Crates.Json.Tree.{
  IsReadBack, build, fields, text, Members, member, end, MembersAreWritable,
}
use did_rust.Services.{Services, IsLawful}
use did_rust.Credential.{get_str, vc_proof}
use did_rust.Did.Issues.{generated}
use did_rust.Ffi.{generate_did_ffi, issue_vc_ffi}
use did_rust.Credential.Verdict.{get_str-json_object}
use did_rust.Ffi.Memory.{Memory, Allocator, IsAllocator}
use did_rust.Suite.Program.{
  Program, ◌>>=◌, ◌>>◌, assert, call, c_str, c_string_new, free, from_str, str_at, index,
}
use did_rust.Suite.Steps.{◌⨾◌, step, assert_lem, from_str_lem, str_at_lem, index_lem, free_under}
use did_rust.Suite.Sessions.{call_identified, call_issued}
use did_rust.Suite.Generated.{generated_reply}
use did_rust.Ffi.Written.{certificate, certificate-reads, signature, signature-is_utf8}

-- The credential that the test writes.
abbrev stable_credential : Members
stable_credential =
    member (str "credentialSubject")
      (fields (
        member (str "id") (text (str "did:example:stable"))
          (member (str "claim") (text (str "preserve_order")) end)))
      end

module _ (S : Services) (A : Allocator) (sk : S.primitives.ed25519.SigningKey) where
  open S use {json}

  unfoldable pub test_preserve_order_stable_signature : Program (Unit {0})
  test_preserve_order_stable_signature = do
    info_ptr ← call A (generate_did_ffi S sk none)
    info ← c_str info_ptr
    did_info ← from_str S info
    did ← str_at S did_info (str "did")
    key ← str_at S did_info (str "private_key_base58")
    let cred = json.to_string (build json (fields stable_credential))
    cred_c1 ← c_string_new cred
    did_c1 ← c_string_new did
    key_c1 ← c_string_new key
    vc_ptr1 ← call A (issue_vc_ffi S (some cred_c1) (some did_c1) (some key_c1))
    vc1 ← c_str vc_ptr1
    free vc_ptr1
    cred_c2 ← c_string_new cred
    did_c2 ← c_string_new did
    key_c2 ← c_string_new key
    vc_ptr2 ← call A (issue_vc_ffi S (some cred_c2) (some did_c2) (some key_c2))
    vc2 ← c_str vc_ptr2
    free vc_ptr2
    assert (text_eq vc1 vc2)
    v1 ← from_str S vc1
    vc_proof1 ← index S v1 (str "proof")
    proof1 ← str_at S vc_proof1 (str "proofValue")
    v2 ← from_str S vc2
    vc_proof2 ← index S v2 (str "proof")
    proof2 ← str_at S vc_proof2 (str "proofValue")
    assert (text_eq proof1 proof2)

  module _ (L : IsLawful S) (R : IsReadBack json) (I : IsAllocator A) where
    writable : MembersAreWritable 126 stable_credential
    unfolding str is_utf8
    writable = (refl, (refl, refl, (refl, refl, tt)), tt)

    abbrev vc : json.Value
    vc = certificate S L R sk stable_credential

    abbrev proof : json.Value
    proof = vc_proof S (generated S sk) (signature S L R sk stable_credential)

    value_get-proof : json.value_get vc (str "proof") ≡ some proof
    value_get-proof = L.json.value_get-object _ (str "proof") ∙ get-insert_self json L.json _ _ _

    proof_value : get_str S proof (str "proofValue") ≡ some (signature S L R sk stable_credential)
    unfolding vc_proof str text_eq
    proof_value =
        get_str-json_object S L.json _ (str "proofValue") _ refl
          (signature-is_utf8 S L R sk stable_credential)

    pub test_preserve_order_stable_signature_lem :
        (m : Memory)
        → test_preserve_order_stable_signature m
          ≡ some (tt, (A.fresh m, json.to_string (generated_reply S L sk)) ∷ m)
    unfolding test_preserve_order_stable_signature
    test_preserve_order_stable_signature_lem m =
        let ms = stable_credential in
        let m1 = (A.fresh m, json.to_string (generated_reply S L sk)) ∷ m in
        let p = A.fresh m1 in
        let live = I.fresh-ne-null m1 in
        let reads = certificate-reads S L R sk ms writable in
        call_identified S A L R I m sk _
        ⨾ call_issued S A L R I m1 sk _ ms writable
        ⨾ step _ _ (free_under [] m1 p _ live tt)
        ⨾ call_issued S A L R I m1 sk _ ms writable
        ⨾ step _ _ (free_under [] m1 p _ live tt)
        ⨾ step _ _ (assert_lem (text_eq_refl _))
        ⨾ step _ _ (from_str_lem S _ vc reads)
        ⨾ step _ _ (index_lem S vc (str "proof") proof value_get-proof)
        ⨾ step _ _ (str_at_lem S proof (str "proofValue") _ proof_value)
        ⨾ step _ _ (from_str_lem S _ vc reads)
        ⨾ step _ _ (index_lem S vc (str "proof") proof value_get-proof)
        ⨾ step _ _ (str_at_lem S proof (str "proofValue") _ proof_value)
        ⨾ assert_lem (text_eq_refl _)
