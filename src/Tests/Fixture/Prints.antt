-- ===== src/Tests/Fixture/Prints.antt =====
-- The keys of an object stand in its prefix code.
use did_rust.Prelude.{
  suc, ◌-◌, Text, str, [], ◌∷◌, ◌++◌, none, some, inl, Option, contains, contains_cons,
  contains-append, text_eq, text_eq-eq, Bool-cases, true, false, inr, ◌≡◌, refl, subst, sym, arith,
}
use did_rust.Prelude.Utf8.{is_utf8}
use did_rust.Crates.Json.Tree.{is_plain, all_plain}
use did_rust.Tests.Fixture.Values.{
  Value, nothing, truth, num, text, arr, obj, Items, nil, cons, Fields, end, field, get, print,
  print_items, print_fields, print_text, raise, tree, whole,
}

contains-print_text :
    (t rest k : Text)
    → contains (raise rest) k ≡ true
    → contains (raise (print_text t rest)) k ≡ true
contains-print_text [] rest k h = contains_cons 1 (raise rest) k h
contains-print_text (c ∷ t) rest k h =
    let more = contains-print_text t rest k h in
    let shown = raise (print_text t rest) in
    elim (Bool-cases (is_plain c)) [
      | inl plain ↦ rw plain (contains_cons (suc (c - 1)) shown k more)
      | inr other ↦
          rw other (contains_cons 2 _ k (contains_cons _ _ k (contains_cons _ shown k more)))
    ]

mutual
  contains-print :
      (v : Value) (rest k : Text)
      → contains (raise rest) k ≡ true
      → contains (raise (print v rest)) k ≡ true
  contains-print nothing rest k h = contains_cons _ _ k h
  contains-print (truth true) rest k h = contains_cons _ _ k h
  contains-print (truth false) rest k h = contains_cons _ _ k h
  contains-print (num n) rest k h =
      contains_cons _ _ k (contains_cons _ _ k (contains_cons _ _ k h))
  contains-print (text t) rest k h = contains_cons _ _ k (contains-print_text t rest k h)
  contains-print (arr xs) rest k h = contains_cons _ _ k (contains-print_items xs rest k h)
  contains-print (obj m) rest k h = contains_cons _ _ k (contains-print_fields m rest k h)

  contains-print_items :
      (xs : Items) (rest k : Text)
      → contains (raise rest) k ≡ true
      → contains (raise (print_items xs rest)) k ≡ true
  contains-print_items nil rest k h = contains_cons _ _ k h
  contains-print_items (cons v xs) rest k h =
      contains_cons _ _ k
        (contains-print v (print_items xs rest) k (contains-print_items xs rest k h))

  contains-print_fields :
      (m : Fields) (rest k : Text)
      → contains (raise rest) k ≡ true
      → contains (raise (print_fields m rest)) k ≡ true
  contains-print_fields end rest k h = contains_cons _ _ k h
  contains-print_fields (field j v m) rest k h = contains_cons _ _ k (
      contains-print_text j _ k
        (contains-print v (print_fields m rest) k (contains-print_fields m rest k h)))

plain_shown :
    (k rest : Text) → all_plain k ≡ true → raise (print_text k rest) ≡ k ++ (1 ∷ raise rest)
plain_shown [] rest h = refl
plain_shown (c ∷ k) rest h = ground (arith, plain_shown k rest)

key_shown : (k rest : Text) → all_plain k ≡ true → contains (raise (print_text k rest)) k ≡ true
key_shown k rest h =
    subst (λ s. contains s k ≡ true) (sym (plain_shown k rest h)) (contains-append k _)

print_fields-contains :
    (m : Fields) (k rest : Text) {v : Value}
    → get m k ≡ some v
    → all_plain k ≡ true
    → contains (raise (print_fields m rest)) k ≡ true
print_fields-contains end k rest h p = cc
print_fields-contains (field j w m) k rest h p = elim (Bool-cases (text_eq j k)) [
  | inl same ↦ contains_cons 2 _ k (
      subst (λ i. contains (raise (print_text i (print w (print_fields m rest)))) k ≡ true)
        (sym (text_eq-eq j k same)) (key_shown k _ p))
  | inr other ↦ contains_cons 2 _ k (
      contains-print_text j _ k (
        contains-print w (print_fields m rest) k
          (print_fields-contains m k rest (rw other at h) p)))
]

pub to_string-contains :
    (m : Fields) (k : Text) {v : Value}
    → get m k ≡ some v
    → all_plain k ≡ true
    → contains (tree.to_string (obj m)) k ≡ true
to_string-contains m k h p = contains_cons _ _ k (print_fields-contains m k [] h p)

whole-error_is_utf8 : (o : Option (Value × Text)) {e : Text} → whole o ≡ inl e → is_utf8 e ≡ true
unfolding is_utf8 str
whole-error_is_utf8 none h = ground arith
whole-error_is_utf8 (some (v, [])) h = cc
whole-error_is_utf8 (some (v, c ∷ s)) h = ground arith

pub from_str-error_is_utf8 : (s : Text) {e : Text} → tree.from_str s ≡ inl e → is_utf8 e ≡ true
from_str-error_is_utf8 s h = whole-error_is_utf8 _ h
