-- ===== src/Tests/Fixture/Parses.antt =====
-- The tree values are read back from their prefix code.
use did_rust.Prelude.{
  ℕ, zero, suc, ◌+◌, ◌*◌, ◌/◌, ◌%◌, ◌<◌, ◌≤◌, Text, length, IsBytes, All, true, false, [], ◌∷◌,
  some, inr, ◌≡◌, refl, ap, text_eq, Bool-cases, inl, arith,
}
use did_rust.Prelude.Utf8.{is_utf8, is_utf8-IsBytes}
use did_rust.Crates.Json.Tree as Tree
use did_rust.Crates.Json.Tree.{
  Tree, Trees, Members, build, build_items, build_onto, IsWritable, AreWritable, MembersAreWritable,
  IsReadBack,
}
use did_rust.Tests.Fixture.Prints.{from_str-error_is_utf8, to_string-contains}
use did_rust.Tests.Fixture.Values.{
  Value, nothing, truth, num, text, arr, obj, Items, nil, cons, Fields, end, field, insert, of_list,
  print, print_items, print_fields, print_text, parse, parse_items, parse_fields, parse_text, raise,
  lower, tree,
}

-- The characters are bytes, and the numbers fit in one.
abbrev mutual
  IsSmall : Value → Type 0
  IsSmall nothing = Unit
  IsSmall (truth b) = Unit
  IsSmall (num n) = n < 256
  IsSmall (text t) = IsBytes t
  IsSmall (arr xs) = AreSmall xs
  IsSmall (obj m) = FieldsAreSmall m

  AreSmall : Items → Type 0
  AreSmall nil = Unit
  AreSmall (cons v xs) = IsSmall v × AreSmall xs

  FieldsAreSmall : Fields → Type 0
  FieldsAreSmall end = Unit
  FieldsAreSmall (field k v m) = IsBytes k × IsSmall v × FieldsAreSmall m

-- How often the parser is called on a value.
abbrev mutual
  size : Value → ℕ
  size nothing = 1
  size (truth b) = 1
  size (num n) = 1
  size (text t) = 1
  size (arr xs) = suc (size_items xs)
  size (obj m) = suc (size_fields m)

  size_items : Items → ℕ
  size_items nil = 1
  size_items (cons v xs) = suc (size v + size_items xs)

  size_fields : Fields → ℕ
  size_fields end = 1
  size_fields (field k v m) = suc (size v + size_fields m)

size_text : (t rest : Text) → length rest + 1 ≤ length (print_text t rest)
size_text [] rest = omega arith
size_text (c ∷ t) rest = ground (arith, size_text t rest)

mutual
  size-le : (v : Value) (rest : Text) → size v + length rest ≤ length (print v rest)
  size-le nothing rest = omega arith
  size-le (truth true) rest = omega arith
  size-le (truth false) rest = omega arith
  size-le (num n) rest = omega arith
  size-le (text t) rest = omega (arith, size_text t rest)
  size-le (arr xs) rest = omega (arith, size_items-le xs rest)
  size-le (obj m) rest = omega (arith, size_fields-le m rest)

  size_items-le :
      (xs : Items) (rest : Text) → size_items xs + length rest ≤ length (print_items xs rest)
  size_items-le nil rest = omega arith
  size_items-le (cons v xs) rest =
      omega (arith, size-le v (print_items xs rest), size_items-le xs rest)

  size_fields-le :
      (m : Fields) (rest : Text) → size_fields m + length rest ≤ length (print_fields m rest)
  size_fields-le end rest = omega arith
  size_fields-le (field k v m) rest = omega (
    arith,
    size_text k (print v (print_fields m rest)),
    size-le v (print_fields m rest),
    size_fields-le m rest,
  )

size_pos : (v : Value) → 1 ≤ size v
size_pos (arr xs) = omega arith
size_pos nothing = omega arith
size_pos (obj m) = omega arith
size_pos _ = omega arith

size_items_pos : (xs : Items) → 1 ≤ size_items xs
size_items_pos nil = omega arith
size_items_pos (cons v xs) = omega arith

size_fields_pos : (m : Fields) → 1 ≤ size_fields m
size_fields_pos end = omega arith
size_fields_pos (field k v m) = omega arith

digits_lem : (c : ℕ) → c < 256 → 16 * (c / 16 % 16) + c % 16 ≡ c
digits_lem c h = omega arith

parse_text-print_text :
    (t rest : Text) → IsBytes t → parse_text (print_text t rest) ≡ some (t, rest)
parse_text-print_text [] rest h = refl
parse_text-print_text (c ∷ t) rest h =
    ground (arith, parse_text-print_text t rest h.1, digits_lem c h.0)

mutual
  parse-print :
      (fuel : ℕ) (v : Value) (rest : Text)
      → size v ≤ fuel
      → IsSmall v
      → parse fuel (print v rest) ≡ some (v, rest)
  parse-print zero v rest f h = absurd (omega (arith, size_pos v))
  parse-print (suc fuel) nothing rest f h = refl
  parse-print (suc fuel) (truth true) rest f h = refl
  parse-print (suc fuel) (truth false) rest f h = refl
  parse-print (suc fuel) (num n) rest f h = rw (digits_lem n h)
  parse-print (suc fuel) (text t) rest f h = rw (parse_text-print_text t rest h)
  parse-print (suc fuel) (arr xs) rest f h = rw (parse_items-print fuel xs rest (omega arith) h)
  parse-print (suc fuel) (obj m) rest f h = rw (parse_fields-print fuel m rest (omega arith) h)

  parse_items-print :
      (fuel : ℕ) (xs : Items) (rest : Text)
      → size_items xs ≤ fuel
      → AreSmall xs
      → parse_items fuel (print_items xs rest) ≡ some (xs, rest)
  parse_items-print zero xs rest f h = absurd (omega (arith, size_items_pos xs))
  parse_items-print (suc fuel) nil rest f h = refl
  parse_items-print (suc fuel) (cons v xs) rest f h = rw (
    parse-print fuel v (print_items xs rest) (omega arith) h.0,
    parse_items-print fuel xs rest (omega arith) h.1,
  )

  parse_fields-print :
      (fuel : ℕ) (m : Fields) (rest : Text)
      → size_fields m ≤ fuel
      → FieldsAreSmall m
      → parse_fields fuel (print_fields m rest) ≡ some (m, rest)
  parse_fields-print zero m rest f h = absurd (omega (arith, size_fields_pos m))
  parse_fields-print (suc fuel) end rest f h = refl
  parse_fields-print (suc fuel) (field k v m) rest f h = rw (
    parse_text-print_text k (print v (print_fields m rest)) h.0,
    parse-print fuel v (print_fields m rest) (omega arith) h.1,
    parse_fields-print fuel m rest (omega arith) h.2,
  )

lower-raise : (s : Text) → lower (raise s) ≡ s
lower-raise [] = refl
lower-raise (c ∷ s) = ap (λ (t : Text). c ∷ t) (lower-raise s)

length-raise : (s : Text) → length (raise s) ≡ length s
length-raise [] = refl
length-raise (c ∷ s) = ap suc (length-raise s)

from_str-to_string : (v : Value) → IsSmall v → tree.from_str (tree.to_string v) ≡ inr v
from_str-to_string v h = rw (
  lower-raise (print v []),
  parse-print (length (raise (print v []))) v []
      (omega (arith, length-raise (print v []), size-le v [])) h,
)

-- The code has small numbers only.
abbrev IsLow : Text → Type 0
IsLow = All (λ c. c < 127)

print_text-IsLow : (t rest : Text) → IsLow rest → IsLow (print_text t rest)
print_text-IsLow [] rest h = (omega arith, h)
print_text-IsLow (c ∷ t) rest h = ground (arith, print_text-IsLow t rest h)

mutual
  print-IsLow : (v : Value) (rest : Text) → IsLow rest → IsLow (print v rest)
  print-IsLow nothing rest h = (omega arith, h)
  print-IsLow (truth true) rest h = (omega arith, h)
  print-IsLow (truth false) rest h = (omega arith, h)
  print-IsLow (num n) rest h = (omega arith, (omega arith, (omega arith, h)))
  print-IsLow (text t) rest h = (omega arith, print_text-IsLow t rest h)
  print-IsLow (arr xs) rest h = (omega arith, print_items-IsLow xs rest h)
  print-IsLow (obj m) rest h = (omega arith, print_fields-IsLow m rest h)

  print_items-IsLow : (xs : Items) (rest : Text) → IsLow rest → IsLow (print_items xs rest)
  print_items-IsLow nil rest h = (omega arith, h)
  print_items-IsLow (cons v xs) rest h =
      (omega arith, print-IsLow v (print_items xs rest) (print_items-IsLow xs rest h))

  print_fields-IsLow : (m : Fields) (rest : Text) → IsLow rest → IsLow (print_fields m rest)
  print_fields-IsLow end rest h = (omega arith, h)
  print_fields-IsLow (field k v m) rest h = (
    omega arith,
    print_text-IsLow k (print v (print_fields m rest))
        (print-IsLow v (print_fields m rest) (print_fields-IsLow m rest h)),
  )

raise-is_utf8 : (s : Text) → IsLow s → is_utf8 (raise s) ≡ true
unfolding is_utf8
raise-is_utf8 [] h = refl
raise-is_utf8 (c ∷ s) h = ground (arith, raise-is_utf8 s h.1, h.0)

-- What is built is small.
insert-FieldsAreSmall :
    (m : Fields) (k : Text) (v : Value)
    → FieldsAreSmall m
    → IsBytes k
    → IsSmall v
    → FieldsAreSmall (insert m k v)
insert-FieldsAreSmall end k v h b s = (b, s, tt)
insert-FieldsAreSmall (field j w m) k v h b s = elim (Bool-cases (text_eq j k)) [
  | inl same ↦ rw same (h.0, s, h.2)
  | inr other ↦ rw other (h.0, h.1, insert-FieldsAreSmall m k v h.2 b s)
]

mutual
  build-IsSmall : (n : ℕ) (t : Tree) → IsWritable n t → IsSmall (build tree t)
  build-IsSmall n Tree.nothing h = tt
  build-IsSmall n (Tree.truth b) h = tt
  build-IsSmall n (Tree.text t) h = is_utf8-IsBytes t h
  build-IsSmall zero (Tree.items ts) h = absurd h
  build-IsSmall (suc n) (Tree.items ts) h = build_items-AreSmall n ts h
  build-IsSmall zero (Tree.fields ms) h = absurd h
  build-IsSmall (suc n) (Tree.fields ms) h = build_onto-FieldsAreSmall n end ms tt h

  build_items-AreSmall :
      (n : ℕ) (ts : Trees) → AreWritable n ts → AreSmall (of_list (build_items tree ts))
  build_items-AreSmall n Tree.nil h = tt
  build_items-AreSmall n (Tree.cons t ts) h = (build-IsSmall n t h.0, build_items-AreSmall n ts h.1)

  build_onto-FieldsAreSmall :
      (n : ℕ) (m : Fields) (ms : Members)
      → FieldsAreSmall m
      → MembersAreWritable n ms
      → FieldsAreSmall (build_onto tree m ms)
  build_onto-FieldsAreSmall n m Tree.end s h = s
  build_onto-FieldsAreSmall n m (Tree.member k t ms) s h =
      build_onto-FieldsAreSmall n (insert m k (build tree t)) ms
        (insert-FieldsAreSmall m k (build tree t) s (is_utf8-IsBytes k h.0) (build-IsSmall n t h.1))
        h.2

pub tree-IsReadBack : IsReadBack tree
tree-IsReadBack = record {
  to_string-is_utf8 = λ v. raise-is_utf8 (print v []) (print-IsLow v [] tt);
  to_vec_lem = λ v. refl;
  from_str-to_string = λ t h. from_str-to_string (build tree t) (build-IsSmall 127 t h);
  from_str-error_is_utf8 = from_str-error_is_utf8;
  to_string-contains = to_string-contains;
}
