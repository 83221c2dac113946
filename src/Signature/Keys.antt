-- ===== src/Signature/Keys.antt =====
-- The key of a verification method.
use did_rust.Prelude.{
  Text, str, strip_prefix, strip_prefix-eq-some, Bytes, length, ◌∷◌, Option, none, some,
  Option-cases, ⊎-cases, Bool-cases, ◌⊎◌, inl, inr, ◌≡◌, ◌≢◌, ◌∙◌, sym, ap, refl, arith,
  strip_prefix-append, drop, ◌++◌,
}
use did_rust.Services.{Services}
use did_rust.Resolver.{is_ed25519_multikey}
use did_rust.Resolver.Key.{is_ed25519_multikey-multikey, is_ed25519_multikey-eq}
use did_rust.Signature.{decode_or_default, multibase_key, pub_key_bytes}

module _ (S : Services) where
  open S use {primitives}
  open primitives use {bs58}

  -- The key that a method publishes: in base 58; or, if it has no such field, behind a `z` in
  -- base 58, with the two bytes of the Ed25519 multicodec in front.
  abbrev pub Publishes : Option Text → Option Text → Bytes → Type 0
  Publishes base58 multibase key =
      ((b58 : Text) × (base58 ≡ some b58) × (bs58.decode b58 ≡ inr key))
      ⊎ ((digits : Text) × (base58 ≡ none)
          × (multibase ≡ some (str "z" ++ digits))
          × (bs58.decode digits ≡ inr (0xed ∷ 0x01 ∷ key)))

  decode_or_default-eq :
      (s : Text) (key : Bytes)
      → decode_or_default S s ≡ key
      → length key ≢ 0
      → bs58.decode s ≡ inr key
  unfolding decode_or_default
  decode_or_default-eq s key h size = elim (⊎-cases (bs58.decode s)) [
    | inl (_, e) ↦ absurd (ground arith)
    | inr (b, e) ↦ ground arith
  ]

  multibase_digits :
      (t digits : Text)
      → strip_prefix t (str "z") ≡ some digits
      → length (multibase_key S (some t)) ≡ 32
      → bs58.decode digits ≡ inr (0xed ∷ 0x01 ∷ multibase_key S (some t))
  unfolding multibase_key
  multibase_digits t digits e size =
      elim (Bool-cases (is_ed25519_multikey (decode_or_default S digits))) [
        | inr other ↦ absurd (ground arith)
        | inl fits ↦
            let (same, long) = is_ed25519_multikey-eq (decode_or_default S digits) fits in
            let dec = decode_or_default S digits in
            let key : multibase_key S (some t) ≡ drop 2 dec = rw (e, multibase_key, fits) refl in
            decode_or_default-eq digits dec refl (λ z. ground arith)
            ∙ ap inr (same ∙ ap (λ (k : Bytes). 0xed ∷ 0x01 ∷ k) (sym key))
      ]

  multibase_key-Publishes :
      (multibase : Option Text)
      → length (multibase_key S multibase) ≡ 32
      → Publishes none multibase (multibase_key S multibase)
  unfolding multibase_key
  multibase_key-Publishes none size = absurd (ground arith)
  multibase_key-Publishes (some t) size = elim (Option-cases (strip_prefix t (str "z"))) [
    | inl e ↦ absurd (ground arith)
    | inr (digits, e) ↦ inr (
      digits,
      refl,
      ap (λ u. some u) (strip_prefix-eq-some t (str "z") digits e),
      multibase_digits t digits e size,
    )
  ]

  pub pub_key_bytes-Publishes :
      (base58 multibase : Option Text)
      → length (pub_key_bytes S base58 multibase) ≡ 32
      → Publishes base58 multibase (pub_key_bytes S base58 multibase)
  unfolding pub_key_bytes
  pub_key_bytes-Publishes (some b58) multibase size =
      inl (b58, refl, decode_or_default-eq b58 _ refl (λ e. ground arith))
  pub_key_bytes-Publishes none multibase size = multibase_key-Publishes multibase size

  pub Publishes-pub_key_bytes :
      (base58 multibase : Option Text) (key : Bytes)
      → length key ≡ 32
      → Publishes base58 multibase key
      → pub_key_bytes S base58 multibase ≡ key
  unfolding pub_key_bytes decode_or_default multibase_key
  Publishes-pub_key_bytes base58 multibase key size (inl (b58, e, decoded)) =
      rw (e, pub_key_bytes, decode_or_default, decoded)
  Publishes-pub_key_bytes base58 multibase key size (inr (digits, e, e', decoded)) = rw (
    e,
    e',
    pub_key_bytes,
    multibase_key,
    strip_prefix-append (str "z") digits,
    decode_or_default,
    decoded,
    is_ed25519_multikey-multikey key size,
  )
