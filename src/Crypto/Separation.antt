-- ===== src/Crypto/Separation.antt =====
-- The preimages of the four derivations from one seed are all different.
use did_rust.Prelude.{
  Bool-cases, text_eq, text_eq-eq, text_eq_refl, ◌⊎◌, ℕ, zero, suc, ◌+◌, ◌<◌, ◌^◌, Bytes, length,
  [], ◌∷◌, ◌++◌, str, ◌≡◌, ◌≢◌, refl, ap, sym, ◌∙◌, inl, inr, length-append, append_inj, get_elem?,
  get_elem?-append_left, get_elem?-append_right, arith,
}
use did_rust.Prelude.Words.{to_le_bytes, length-to_le_bytes, to_le_bytes_injective}
use did_rust.Crates.Primitives.{Primitives, IsLawful}
use did_rust.Crypto.{
  sha256_concat, scalar_candidate, dependent_candidate, dependent_ed_seed, nostr_domain,
  dependent_ed25519_domain, dependent_nostr_domain,
}
use did_rust.Crypto.Attempts.{
  digest, sha256_concat-digest, update_three, scalar_candidate-digest, dependent_candidate-digest,
  attempt_suffix, nostr_preimage, dependent_nostr_preimage,
}

-- What the two Ed25519 derivations hash.
abbrev pub ed25519_preimage : Bytes → ℕ → Bytes
ed25519_preimage root_seed index = root_seed ++ (to_le_bytes index ++ [])

abbrev pub dependent_ed25519_preimage : Bytes → ℕ → Bytes
dependent_ed25519_preimage root_seed index =
    root_seed ++ (dependent_ed25519_domain ++ to_le_bytes index)

length-attempt_suffix : (k : ℕ) → length (attempt_suffix k) < 2
length-attempt_suffix zero = omega arith
length-attempt_suffix (suc k) = omega arith

attempt_suffix_injective : (j k : ℕ) → attempt_suffix j ≡ attempt_suffix k → j ≡ k
attempt_suffix_injective zero zero e = refl
attempt_suffix_injective zero (suc k) e = cc
attempt_suffix_injective (suc j) zero e = cc
attempt_suffix_injective (suc j) (suc k) e = cc

suffix_injective :
    (m n j k : ℕ)
    → m < 2 ^ 32
    → n < 2 ^ 32
    → to_le_bytes m ++ attempt_suffix j ≡ to_le_bytes n ++ attempt_suffix k
    → (j ≡ k) × (m ≡ n)
unfolding to_le_bytes
suffix_injective m n j k hm hn e =
    let (same, rest) =
      append_inj (to_le_bytes m) (to_le_bytes n) (attempt_suffix j) (attempt_suffix k) (refl) e in
    (attempt_suffix_injective j k rest, to_le_bytes_injective m n hm hn same)

-- What a seed is hashed for. The searches for a scalar hash once for each attempt.
pub data Purpose : Type 0 where
  root_ed25519 : Purpose
  root_nostr : ℕ → Purpose
  dependent_ed25519 : Purpose
  dependent_nostr : ℕ → Purpose

abbrev pub preimage : Purpose → Bytes → ℕ → Bytes
preimage root_ed25519 = ed25519_preimage
preimage (root_nostr k) = λ root_seed index. nostr_preimage root_seed index k
preimage dependent_ed25519 = dependent_ed25519_preimage
preimage (dependent_nostr k) = λ root_seed index. dependent_nostr_preimage root_seed index k

abbrev size : Purpose → ℕ
size root_ed25519 = 36
size (root_nostr k) = 51 + length (attempt_suffix k)
size dependent_ed25519 = 51
size (dependent_nostr k) = 62 + length (attempt_suffix k)

length_seed_index :
    (root_seed : Bytes) (index : ℕ) (t : Bytes)
    → length root_seed ≡ 32
    → length (root_seed ++ (to_le_bytes index ++ t)) ≡ 36 + length t
length_seed_index root_seed index t h = omega (
  arith,
  length-append root_seed (to_le_bytes index ++ t),
  length-append (to_le_bytes index) t,
  length-to_le_bytes index,
)

length-preimage :
    (p : Purpose) (root_seed : Bytes) (index : ℕ)
    → length root_seed ≡ 32
    → length (preimage p root_seed index) ≡ size p
unfolding str
length-preimage root_ed25519 s n h = omega (arith, length_seed_index s n [] h)
length-preimage (root_nostr k) s n h = omega (arith, length_seed_index s n (attempt_suffix k) h)
length-preimage dependent_ed25519 s n h = omega (
  arith,
  length-append s (dependent_ed25519_domain ++ to_le_bytes n),
  length-append dependent_ed25519_domain (to_le_bytes n),
  length-to_le_bytes n,
)
length-preimage (dependent_nostr k) s n h =
    omega (arith, length_seed_index s n (attempt_suffix k) h)

-- The two derivations whose preimages may have one length differ in their 33rd byte: by the
-- equations of the bytes 32, 17 and 2 it would be both `c` and `i`.
nostr-ne-dependent_ed25519 :
    (s : Bytes) (m n k : ℕ) → length s ≡ 32 → nostr_preimage s m k ≢ dependent_ed25519_preimage s n
unfolding str
nostr-ne-dependent_ed25519 s m n k h e =
    let tail = to_le_bytes m ++ attempt_suffix k in
    let rest = dependent_ed25519_domain ++ to_le_bytes n in
    let at = λ (i : ℕ). ap (λ (b : Bytes). get_elem? b i) e in
    let byte_32 = at 32 in
    let byte_17 = at 17 in
    let byte_2 = at 2 in
    ground (
      arith,
      get_elem?-append_left s tail 17 (omega arith),
      get_elem?-append_left s tail 2 (omega arith),
      get_elem?-append_left s rest 17 (omega arith),
      get_elem?-append_left s rest 2 (omega arith),
      get_elem?-append_right s rest 32 (omega arith),
    )

same_domain :
    (domain s : Bytes) (m n j k : ℕ)
    → m < 2 ^ 32
    → n < 2 ^ 32
    → domain ++ (s ++ (to_le_bytes m ++ attempt_suffix j))
      ≡ domain ++ (s ++ (to_le_bytes n ++ attempt_suffix k))
    → (j ≡ k) × (m ≡ n)
same_domain domain s m n j k hm hn e =
    let (_, e') = append_inj domain domain _ _ refl e in
    let (_, e'') = append_inj s s _ _ refl e' in suffix_injective m n j k hm hn e''

-- No two purposes, attempts or indices of one seed of 32 bytes share a preimage.
pub preimage_injective :
    (p q : Purpose) (s : Bytes) (m n : ℕ)
    → length s ≡ 32
    → m < 2 ^ 32
    → n < 2 ^ 32
    → preimage p s m ≡ preimage q s n
    → (p ≡ q) × (m ≡ n)
preimage_injective p q s m n h hm hn e = go p q e
  where
    sizes : (p q : Purpose) → preimage p s m ≡ preimage q s n → size p ≡ size q
    sizes p q e =
        sym (length-preimage p s m h) ∙ ap (λ (b : Bytes). length b) e ∙ length-preimage q s n h

    four : (m n : ℕ) → length (to_le_bytes m) ≡ length (to_le_bytes n)
    four m n = length-to_le_bytes m ∙ sym (length-to_le_bytes n)

    go : (p q : Purpose) → preimage p s m ≡ preimage q s n → (p ≡ q) × (m ≡ n)
    go root_ed25519 root_ed25519 e =
        let (_, e') = append_inj s s (to_le_bytes m ++ []) (to_le_bytes n ++ []) refl e in
        let (bytes, _) = append_inj (to_le_bytes m) (to_le_bytes n) [] [] (four m n) e' in
        (refl, to_le_bytes_injective m n hm hn bytes)
    go (root_nostr j) (root_nostr k) e =
        let (attempt, index) = same_domain nostr_domain s m n j k hm hn e in
        (ap root_nostr attempt, index)
    go dependent_ed25519 dependent_ed25519 e =
        let (_, e') = append_inj s s _ _ refl e in
        let domain = dependent_ed25519_domain in
        let (_, bytes) = append_inj domain domain (to_le_bytes m) (to_le_bytes n) refl e' in
        (refl, to_le_bytes_injective m n hm hn bytes)
    go (dependent_nostr j) (dependent_nostr k) e =
        let (attempt, index) = same_domain dependent_nostr_domain s m n j k hm hn e in
        (ap dependent_nostr attempt, index)
    go (root_nostr k) dependent_ed25519 e = absurd (nostr-ne-dependent_ed25519 s m n k h e)
    go dependent_ed25519 (root_nostr k) e = absurd (nostr-ne-dependent_ed25519 s n m k h (sym e))
    go root_ed25519 q e = absurd (omega (arith, sizes root_ed25519 q e, length-attempt_suffix))
    go p q e = absurd (omega (arith, sizes p q e, length-attempt_suffix))

module _ (P : Primitives) (L : IsLawful P) where
  -- The secret that the code derives for a purpose, from a seed and an index.
  abbrev pub derived : Purpose → Bytes → ℕ → Bytes
  derived root_ed25519 root_seed index = sha256_concat P (root_seed ∷ to_le_bytes index ∷ [])
  derived (root_nostr k) root_seed index = scalar_candidate P root_seed index k
  derived dependent_ed25519 root_seed index = dependent_ed_seed P root_seed index
  derived (dependent_nostr k) root_seed index = dependent_candidate P root_seed index k

  pub derived-digest :
      (p : Purpose) (root_seed : Bytes) (index : ℕ)
      → derived p root_seed index ≡ digest P (preimage p root_seed index)
  unfolding dependent_ed_seed
  derived-digest root_ed25519 s n = sha256_concat-digest P L s (to_le_bytes n ∷ [])
  derived-digest (root_nostr k) s n = scalar_candidate-digest P L s n k
  derived-digest dependent_ed25519 s n =
      ap P.sha256.finalize (update_three P L s dependent_ed25519_domain (to_le_bytes n))
  derived-digest (dependent_nostr k) s n = dependent_candidate-digest P L s n k

  -- Two different inputs of SHA-256 with one digest.
  abbrev pub Collide : Bytes → Bytes → Type 0
  Collide a b = (a ≢ b) × (digest P a ≡ digest P b)

  -- With lawful packages, if two secrets derived from one seed of 32 bytes at two indices below
  -- 2^32 are equal, then they were derived for the same purpose, attempt and index, or what the
  -- two derivations hash, domain, seed, index and attempt put together, are two different inputs
  -- of SHA-256 with one digest.
  pub derived_separate :
      (p q : Purpose) (s : Bytes) (m n : ℕ)
      → length s ≡ 32
      → m < 2 ^ 32
      → n < 2 ^ 32
      → derived p s m ≡ derived q s n
      → ((p ≡ q) × (m ≡ n)) ⊎ Collide (preimage p s m) (preimage q s n)
  derived_separate p q s m n h hm hn e =
      let a = preimage p s m in
      let b = preimage q s n in
      elim (Bool-cases (text_eq a b)) [
        | inl same ↦ inl (preimage_injective p q s m n h hm hn (text_eq-eq a b same))
        | inr other ↦ inr (
          (λ same. cc (text_eq_refl a, ap (λ (c : Bytes). text_eq a c) same)),
          sym (derived-digest p s m) ∙ e ∙ derived-digest q s n,
        )
      ]
