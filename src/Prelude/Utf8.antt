-- ===== src/Prelude/Utf8.antt =====
-- `std::str::from_utf8`, as a machine over the bytes, and the char boundaries of a `str`.
use Prim.Native.Nat.{ℕ, zero, suc, ◌<◌}
use mathlib.Core.Path.{◌≡◌, refl}
use mathlib.Core.Bool.{Bool, true, false, ◌&&◌, not}
use mathlib.Core.List.{[], ◌∷◌, ◌++◌}
use mathlib.Core.Option.{Option, none, some}
use native.Mathlib.Omega.{arith}
use mathlib.Core.Logic.{inl, inr}
use did_rust.Prelude.Tests.{Option-cases, ◌==◌, ltb, leb, if◌then◌else◌}
use did_rust.Prelude.Lists.{Bytes, IsBytes, All, length, drop, drop-append}
use did_rust.Prelude.Texts.{Text}

-- What is expected next: a first byte, or `n` more continuation bytes, the next within bounds.
pub data Expect : Type 0 where
  start : Expect
  more : ℕ → ℕ → ℕ → Expect

abbrev pub between : ℕ → ℕ → ℕ → Bool
between lo hi b = leb lo b && leb b hi

-- The first byte of a character says how many follow, and how the second is bounded.
unfoldable pub first_byte : ℕ → Option Expect
first_byte b =
    if ltb b 128
    then some start
    else if between 0xc2 0xdf b
    then some (more 1 0x80 0xbf)
    else if b == 0xe0
    then some (more 2 0xa0 0xbf)
    else if b == 0xed
    then some (more 2 0x80 0x9f)
    else if between 0xe1 0xef b
    then some (more 2 0x80 0xbf)
    else if b == 0xf0
    then some (more 3 0x90 0xbf)
    else if between 0xf1 0xf3 b
    then some (more 3 0x80 0xbf)
    else if b == 0xf4
    then some (more 3 0x80 0x8f)
    else none

abbrev pub next_byte : Expect → ℕ → Option Expect
next_byte start b = first_byte b
next_byte (more zero lo hi) b = none
next_byte (more (suc zero) lo hi) b = if between lo hi b then some start else none
next_byte (more (suc (suc n)) lo hi) b =
    if between lo hi b then some (more (suc n) 0x80 0xbf) else none

unfoldable pub scan : Bytes → Expect → Bool
scan [] start = true
scan [] (more n lo hi) = false
scan (b ∷ rest) e = elim (next_byte e b) [ none ↦ false | some e' ↦ scan rest e' ]

unfoldable pub is_utf8 : Bytes → Bool
unfolding scan first_byte
is_utf8 b = scan b start

-- `from_utf8(b).ok()`
abbrev pub from_utf8 : Bytes → Option Text
from_utf8 b = if is_utf8 b then some b else none

-- `s.is_char_boundary(n)`: not inside a character, and not past the end.
unfoldable pub is_char_boundary : Text → ℕ → Bool
is_char_boundary s zero = true
is_char_boundary [] (suc n) = false
is_char_boundary (b ∷ []) (suc zero) = true
is_char_boundary (b ∷ c ∷ s) (suc zero) = not (between 0x80 0xbf c)
is_char_boundary (b ∷ s) (suc (suc n)) = is_char_boundary s (suc n)

-- `&s[n..]`, which panics off a boundary.
abbrev pub str_from : ℕ → Text → Option Text
str_from n s = if is_char_boundary s n then some (drop n s) else none

-- The rest of a valid text behind an ASCII character is valid.
is_utf8_tail : (c : ℕ) (s : Text) → c < 128 → is_utf8 (c ∷ s) ≡ true → is_utf8 s ≡ true
unfolding is_utf8
is_utf8_tail c s lt h = ground arith

-- A valid text begins with no continuation byte.
is_utf8_head : (c : ℕ) (s : Text) → is_utf8 (c ∷ s) ≡ true → between 0x80 0xbf c ≡ false
unfolding is_utf8
is_utf8_head c s h = ground arith

abbrev pub IsAscii : Text → Type 0
IsAscii = All (λ c. c < 128)

pub is_utf8-append_ascii : (p s : Text) → IsAscii p → is_utf8 (p ++ s) ≡ true → is_utf8 s ≡ true
is_utf8-append_ascii [] s a h = h
is_utf8-append_ascii (c ∷ p) s a h = is_utf8-append_ascii p s a.1 (is_utf8_tail c (p ++ s) a.0 h)

-- A valid text has a boundary behind each ASCII prefix.
pub is_char_boundary-append :
    (p s : Text) → IsAscii p → is_utf8 (p ++ s) ≡ true → is_char_boundary (p ++ s) (length p) ≡ true
unfolding is_char_boundary
is_char_boundary-append [] s a h = refl
is_char_boundary-append (c ∷ []) [] a h = refl
is_char_boundary-append (c ∷ []) (d ∷ s) a h =
    ground (arith, is_utf8_head d s (is_utf8_tail c (d ∷ s) a.0 h))
is_char_boundary-append (c ∷ d ∷ p) s a h =
    is_char_boundary-append (d ∷ p) s a.1 (is_utf8_tail c (d ∷ p ++ s) a.0 h)

-- So that slicing behind an ASCII prefix gives the rest.
pub str_from-append :
    (p s : Text) → IsAscii p → is_utf8 (p ++ s) ≡ true → str_from (length p) (p ++ s) ≡ some s
str_from-append p s a h = rw (is_char_boundary-append p s a h, drop-append p s)

scan-append :
    (s t : Text) (e : Expect) → scan s e ≡ true → scan t start ≡ true → scan (s ++ t) e ≡ true
unfolding scan
scan-append [] t start h k = k
scan-append [] t (more n lo hi) h k = cc
scan-append (b ∷ s) t e h k = elim (Option-cases (next_byte e b)) [
  | inl refused ↦ absurd (ground arith)
  | inr (e', found) ↦ rw (found, scan) (scan-append s t e' (ground arith) k)
]

-- Two valid texts make a valid text.
pub is_utf8-append : (s t : Text) → is_utf8 s ≡ true → is_utf8 t ≡ true → is_utf8 (s ++ t) ≡ true
unfolding is_utf8
is_utf8-append s t h k = scan-append s t start h k

-- The bounds of the next byte are those of bytes.
abbrev IsBounded : Expect → Type 0
IsBounded start = Unit
IsBounded (more n lo hi) = hi < 256

first_byte-IsBounded : (b : ℕ) (e : Expect) → first_byte b ≡ some e → (b < 256) × IsBounded e
unfolding first_byte
first_byte-IsBounded b start h = ground arith
first_byte-IsBounded b (more n lo hi) h = ground arith

next_byte-IsBounded :
    (e : Expect) (b : ℕ) (e' : Expect)
    → IsBounded e
    → next_byte e b ≡ some e'
    → (b < 256) × IsBounded e'
next_byte-IsBounded start b e' bound h = first_byte-IsBounded b e' h
next_byte-IsBounded (more zero lo hi) b e' bound h = cc
next_byte-IsBounded (more (suc zero) lo hi) b start bound h = ground (arith, bound)
next_byte-IsBounded (more (suc zero) lo hi) b (more n' lo' hi') bound h = ground (arith, bound)
next_byte-IsBounded (more (suc (suc n)) lo hi) b start bound h = ground (arith, bound)
next_byte-IsBounded (more (suc (suc n)) lo hi) b (more n' lo' hi') bound h = ground (arith, bound)

scan-IsBytes : (s : Text) (e : Expect) → IsBounded e → scan s e ≡ true → IsBytes s
unfolding scan
scan-IsBytes [] e bound h = tt
scan-IsBytes (b ∷ s) e bound h = elim (Option-cases (next_byte e b)) [
  | inl refused ↦ absurd (ground arith)
  | inr (e', found) ↦
      let (fits, bound') = next_byte-IsBounded e b e' bound found in
      (fits, scan-IsBytes s e' bound' (ground arith))
]

-- A valid text is made of bytes.
pub is_utf8-IsBytes : (s : Text) → is_utf8 s ≡ true → IsBytes s
unfolding is_utf8
is_utf8-IsBytes s h = scan-IsBytes s start tt h
