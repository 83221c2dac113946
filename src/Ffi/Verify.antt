-- ===== src/Ffi/Verify.antt =====
-- The replies of the C interface to a document that is to be verified.
use did_rust.Prelude.{
  ℕ, Text, str, Bytes, true, false, [], ◌++◌, Bool-cases, Option, none, some, ◌⊎◌, inl, inr, ok,
  ◌≡◌, ◌≢◌, subst, refl,
}
use did_rust.Prelude.Utf8.{is_utf8}
use did_rust.Crates.Json.{IsJson}
use did_rust.Services.{Services, network}
use did_rust.Resolver.Safety.{HasClient}
use did_rust.Credential.Verdict.{IsVerdict, verdict-IsVerdict, verify_vc-cases}
use did_rust.Credential.Accepts.{IsAuthentic}
use did_rust.Presentation.Accepts.{IsAuthenticVp}
use did_rust.Presentation.Verdict.{verify_vp-cases}
use did_rust.Ffi.Strings.{c_string-to_string}
use did_rust.Ffi.{verify_vc_ffi, verify_vp_ffi}

nonempty :
    (str "Null pointer" ≢ [])
    × (str "Invalid UTF-8" ≢ [])
    × (str "Invalid JSON" ≢ [])
    × ((e : Text) → str "Invalid JSON: " ++ e ≢ [])
unfolding str
nonempty = ((λ h. cc), (λ h. cc), (λ h. cc), (λ e h. cc))

module _ (S : Services) where
  open S use {json, chrono}

  -- The pointer is to a valid text, of a credential that is authentic at `now`.
  abbrev pub HoldsAuthentic : chrono.Time → Option Bytes → Type 0
  HoldsAuthentic now vc_ptr =
      (b : Bytes) × (vc : json.Value) × (vc_ptr ≡ some b)
      × (is_utf8 b ≡ true)
      × (json.from_str b ≡ inr vc)
      × IsAuthentic S now vc

  abbrev pub HoldsAuthenticVp : (ℕ → chrono.Time) → Option Bytes → Type 0
  HoldsAuthenticVp clock vp_ptr =
      (b : Bytes) × (vp : json.Value) × (vp_ptr ≡ some b)
      × (is_utf8 b ≡ true)
      × (json.from_str b ≡ inr vp)
      × IsAuthenticVp S clock vp

  module _ (L : IsJson json) (H : HasClient (network S)) where
    verify_vc_ffi-replies :
        (now : chrono.Time) (p : Option Bytes)
        → (v : json.Value) × (verify_vc_ffi S now p ≡ ok (some (json.to_string v)))
          × ((HoldsAuthentic now p × IsVerdict S v true [])
              ⊎ ((e : Text) × (¬ HoldsAuthentic now p) × (e ≢ []) × IsVerdict S v false e))
    unfolding verify_vc_ffi
    verify_vc_ffi-replies now none = (
      _,
      rw (verify_vc_ffi, c_string-to_string json L),
      inr (
        str "Null pointer",
        (λ (b, v, same, _, _, _). cc same),
        nonempty.0,
        verdict-IsVerdict S L false _,
      ),
    )
    verify_vc_ffi-replies now (some b) = elim (Bool-cases (is_utf8 b)) [
      | inr other ↦ (
        _,
        rw (other, verify_vc_ffi, c_string-to_string json L),
        inr (
          str "Invalid UTF-8",
          (λ (b', v, same, u, _, _). cc),
          nonempty.1,
          verdict-IsVerdict S L false _,
        ),
      )
      | inl u ↦ elim (verify_vc-cases S L H now b) [
        | inl (e, failed, (w, reply, shown)) ↦ (
          w,
          rw (u, verify_vc_ffi, reply, c_string-to_string json L),
          inr (str "Invalid JSON: " ++ e, (λ (b', v, same, _, parsed, _). cc), nonempty.3 e, shown),
        )
        | inr (inl (v, parsed, authentic, (w, reply, shown))) ↦ (
          w,
          rw (u, verify_vc_ffi, reply, c_string-to_string json L),
          inl ((b, v, refl, u, parsed, authentic), shown),
        )
        | inr (inr (v, e, parsed, refused, says, (w, reply, shown))) ↦ (
          w,
          rw (u, verify_vc_ffi, reply, c_string-to_string json L),
          inr (
            e,
            (λ (b', v', same, _, parsed', a).
                let e' : v' ≡ v = cc in refused (subst (λ x. IsAuthentic S now x) e' a)),
            says,
            shown,
          ),
        )
      ]
    ]

    verify_vp_ffi-replies :
        (clock : ℕ → chrono.Time) (p : Option Bytes)
        → (v : json.Value) × (verify_vp_ffi S clock p ≡ ok (some (json.to_string v)))
          × ((HoldsAuthenticVp clock p × IsVerdict S v true [])
              ⊎ ((e : Text) × (¬ HoldsAuthenticVp clock p) × (e ≢ []) × IsVerdict S v false e))
    unfolding verify_vp_ffi
    verify_vp_ffi-replies clock none = (
      _,
      rw (verify_vp_ffi, c_string-to_string json L),
      inr (
        str "Null pointer",
        (λ (b, v, same, _, _, _). cc same),
        nonempty.0,
        verdict-IsVerdict S L false _,
      ),
    )
    verify_vp_ffi-replies clock (some b) = elim (Bool-cases (is_utf8 b)) [
      | inr other ↦ (
        _,
        rw (other, verify_vp_ffi, c_string-to_string json L),
        inr (
          str "Invalid UTF-8",
          (λ (b', v, same, u, _, _). cc),
          nonempty.1,
          verdict-IsVerdict S L false _,
        ),
      )
      | inl u ↦ elim (verify_vp-cases S L H clock b) [
        | inl (e, failed, (w, reply, shown)) ↦ (
          w,
          rw (u, verify_vp_ffi, reply, c_string-to_string json L),
          inr (str "Invalid JSON", (λ (b', v, same, _, parsed, _). cc), nonempty.2, shown),
        )
        | inr (inl (v, parsed, authentic, (w, reply, shown))) ↦ (
          w,
          rw (u, verify_vp_ffi, reply, c_string-to_string json L),
          inl ((b, v, refl, u, parsed, authentic), shown),
        )
        | inr (inr (v, e, parsed, refused, says, (w, reply, shown))) ↦ (
          w,
          rw (u, verify_vp_ffi, reply, c_string-to_string json L),
          inr (
            e,
            (λ (b', v', same, _, parsed', a).
                let e' : v' ≡ v = cc in refused (subst (λ x. IsAuthenticVp S clock x) e' a)),
            says,
            shown,
          ),
        )
      ]
    ]

    -- If the JSON package is lawful, and the HTTP client can be built where the feature
    -- `http-resolver` is on, then for every pointer `verify_vc_ffi` and `verify_vp_ffi` each
    -- return the print of an object, never null, with the fields `valid`, `error` and `details`,
    -- the last an empty object. If the pointer is to a valid UTF-8 text of a credential, for the
    -- first, or of a presentation, for the second, that is authentic, `valid` is true and the
    -- error is empty; if it is not, a null pointer included, `valid` is false and the error is
    -- not empty.
    pub verification_replies :
        (now : chrono.Time) (clock : ℕ → chrono.Time) (p : Option Bytes)
        → ((v : json.Value) × (verify_vc_ffi S now p ≡ ok (some (json.to_string v)))
            × ((HoldsAuthentic now p × IsVerdict S v true [])
                ⊎ ((e : Text) × (¬ HoldsAuthentic now p) × (e ≢ []) × IsVerdict S v false e)))
          × ((v : json.Value) × (verify_vp_ffi S clock p ≡ ok (some (json.to_string v)))
              × ((HoldsAuthenticVp clock p × IsVerdict S v true [])
                  ⊎ ((e : Text) × (¬ HoldsAuthenticVp clock p) × (e ≢ []) × IsVerdict S v false e)))
    verification_replies now clock p = (verify_vc_ffi-replies now p, verify_vp_ffi-replies clock p)
