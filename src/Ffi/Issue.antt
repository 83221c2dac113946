-- ===== src/Ffi/Issue.antt =====
-- When the C interface issues a document, and what.
use did_rust.Prelude.{str, Bytes, [], Option, none, some, ◌⊎◌, inl, inr, ok, ◌≡◌, refl, subst}
use did_rust.Services.{Services, IsLawful}
use did_rust.Credential.Issuable as Vc
use did_rust.Credential.Issuable.{issue_vc-cases}
use did_rust.Presentation.Issuable as Vp
use did_rust.Presentation.Issuable.{issue_vp-cases}
use did_rust.Ffi.Strings.{c_string-to_string}
use did_rust.Ffi.{to_str_or, issue_vc_ffi, issue_vp_ffi}

module _ (S : Services) where
  open S use {json}

  -- No pointer is null, and the texts, with `{}` or the empty text for one that is not valid
  -- UTF-8, can be issued.
  pub record HoldsIssuable (credential_ptr did_ptr key_ptr : Option Bytes) : Type 0 where
    pub credential : Bytes
    pub did : Bytes
    pub key : Bytes
    pub has_credential : credential_ptr ≡ some credential
    pub has_did : did_ptr ≡ some did
    pub has_key : key_ptr ≡ some key
    pub issuable :
        Vc.IsIssuable S (to_str_or (str "{}") credential) (to_str_or [] did) (to_str_or [] key)

  some_injective : {A : Type 0} {a b : A} → some a ≡ some b → b ≡ a
  some_injective h = cc

  IsIssuable-to_str_or :
      (c d k : Bytes)
      → HoldsIssuable (some c) (some d) (some k)
      → Vc.IsIssuable S (to_str_or (str "{}") c) (to_str_or [] d) (to_str_or [] k)
  IsIssuable-to_str_or c d k h =
      let same_c = some_injective h.has_credential in
      let same_d = some_injective h.has_did in
      let same_k = some_injective h.has_key in
      subst
        (λ ((x, y, z) : Bytes × Bytes × Bytes).
          Vc.IsIssuable S (to_str_or (str "{}") x) (to_str_or [] y) (to_str_or [] z))
        (λ i. (same_c i, same_d i, same_k i)) h.issuable

  pub record HoldsIssuableVp (vc_ptr holder_ptr challenge_ptr key_ptr : Option Bytes) : Type 0 where
    pub vc : Bytes
    pub holder : Bytes
    pub challenge : Bytes
    pub key : Bytes
    pub has_vc : vc_ptr ≡ some vc
    pub has_holder : holder_ptr ≡ some holder
    pub has_challenge : challenge_ptr ≡ some challenge
    pub has_key : key_ptr ≡ some key
    pub issuable :
        Vp.IsIssuable S
          (to_str_or (str "{}") vc)
          (to_str_or [] holder)
          (to_str_or [] challenge)
          (to_str_or [] key)

  IsIssuable-to_str_or_vp :
      (v w c k : Bytes)
      → HoldsIssuableVp (some v) (some w) (some c) (some k)
      → Vp.IsIssuable S (to_str_or (str "{}") v) (to_str_or [] w) (to_str_or [] c) (to_str_or [] k)
  IsIssuable-to_str_or_vp v w c k h =
      let same_v = some_injective h.has_vc in
      let same_w = some_injective h.has_holder in
      let same_c = some_injective h.has_challenge in
      let same_k = some_injective h.has_key in
      subst
        (λ ((x, y, z, t) : Bytes × Bytes × Bytes × Bytes).
          Vp.IsIssuable S (to_str_or (str "{}") x) (to_str_or [] y) (to_str_or [] z)
            (to_str_or [] t))
        (λ i. (same_v i, same_w i, same_c i, same_k i)) h.issuable

  module _ (L : IsLawful S) where
    -- With lawful packages `issue_vc_ffi` has one of two outcomes for all pointers. Either no
    -- pointer is null, and of the three texts, with `{}` or the empty text for one that is not
    -- valid UTF-8, the first is JSON of an object, the last decodes from base 58 to 32 bytes,
    -- and the credential with its issuer serializes; then it returns the print of the credential
    -- with its issuer and the proof. Or this is not so, and it returns null.
    pub issue_vc_ffi-cases :
        (credential_ptr did_ptr key_ptr : Option Bytes)
        → ((h : HoldsIssuable credential_ptr did_ptr key_ptr) × (issue_vc_ffi S credential_ptr
                did_ptr key_ptr
              ≡ ok (some (json.to_string (Vc.certificate S h.issuable)))))
          ⊎ ((¬ HoldsIssuable credential_ptr did_ptr key_ptr)
              × (issue_vc_ffi S credential_ptr did_ptr key_ptr ≡ ok none))
    unfolding issue_vc_ffi
    issue_vc_ffi-cases (some c) (some d) (some k) =
        elim (issue_vc-cases S L (to_str_or (str "{}") c) (to_str_or [] d) (to_str_or [] k)) [
          | inl (i, issued) ↦ inl (
            record {
              credential = c;
              did = d;
              key = k;
              has_credential = refl;
              has_did = refl;
              has_key = refl;
              issuable = i;
            },
            rw (issued, c_string-to_string json L.json),
          )
          | inr (e, not_issuable, failed) ↦
              inr ((λ h. not_issuable (IsIssuable-to_str_or c d k h)), rw failed)
        ]
    issue_vc_ffi-cases none d k = inr ((λ h. let e = h.has_credential in cc), refl)
    issue_vc_ffi-cases (some c) none k = inr ((λ h. let e = h.has_did in cc), refl)
    issue_vc_ffi-cases (some c) (some d) none = inr ((λ h. let e = h.has_key in cc), refl)

    -- With lawful packages `issue_vp_ffi` has one of two outcomes for all pointers. Either no
    -- pointer is null, and of the four texts, with `{}` or the empty text for one that is not
    -- valid UTF-8, the first is JSON, the last decodes from base 58 to 32 bytes, and the
    -- unsigned presentation serializes; then it returns the print of the presentation with the
    -- proof. Or this is not so, and it returns null.
    pub issue_vp_ffi-cases :
        (vc_ptr holder_ptr challenge_ptr key_ptr : Option Bytes)
        → ((h : HoldsIssuableVp vc_ptr holder_ptr challenge_ptr key_ptr) × (issue_vp_ffi S vc_ptr
                holder_ptr challenge_ptr key_ptr
              ≡ ok (some (json.to_string (Vp.certificate S h.issuable)))))
          ⊎ ((¬ HoldsIssuableVp vc_ptr holder_ptr challenge_ptr key_ptr)
              × (issue_vp_ffi S vc_ptr holder_ptr challenge_ptr key_ptr ≡ ok none))
    unfolding issue_vp_ffi
    issue_vp_ffi-cases (some v) (some w) (some c) (some k) =
        elim (issue_vp-cases S L (to_str_or (str "{}") v) (to_str_or [] w) (to_str_or [] c)
          (to_str_or [] k)) [
            | inl (i, issued) ↦ inl (
              record {
                vc = v;
                holder = w;
                challenge = c;
                key = k;
                has_vc = refl;
                has_holder = refl;
                has_challenge = refl;
                has_key = refl;
                issuable = i;
              },
              rw (issued, c_string-to_string json L.json),
            )
            | inr (e, not_issuable, failed) ↦
                inr ((λ h. not_issuable (IsIssuable-to_str_or_vp v w c k h)), rw failed)
          ]
    issue_vp_ffi-cases none w c k = inr ((λ h. let e = h.has_vc in cc), refl)
    issue_vp_ffi-cases (some v) none c k = inr ((λ h. let e = h.has_holder in cc), refl)
    issue_vp_ffi-cases (some v) (some w) none k = inr ((λ h. let e = h.has_challenge in cc), refl)
    issue_vp_ffi-cases (some v) (some w) (some c) none = inr ((λ h. let e = h.has_key in cc), refl)
