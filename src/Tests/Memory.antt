-- ===== src/Tests/Memory.antt =====
-- A call of the C interface, and the string that it returned freed.
use did_rust.Prelude.{
  ℕ, false, ◌≤◌, ◌+◌, Text, str, [], ◌∷◌, none, ◌≡◌, refl, ltb, if◌then◌else◌, arith,
}
use did_rust.Credential.{verdict}
use did_rust.Ffi.Memory.{Memory, lookup, Allocator, IsAllocator, Call, verify_vc}
use did_rust.Tests.Fixture.Values.{tree}
use did_rust.Tests.Fixture.World.{world}

-- The address above all that are live.
abbrev pub above : Memory → ℕ
above [] = 1
above ((p, s) ∷ m) = let rest = above m in if ltb p rest then rest else p + 1

abbrev pub bump : Allocator
bump = record { fresh = above }

lookup-above : (m : Memory) (q : ℕ) → above m ≤ q → lookup m q ≡ none
lookup-above [] q h = refl
lookup-above ((p, s) ∷ m) q h = ground (arith, lookup-above m q)

above_pos : (m : Memory) → 1 ≤ above m
above_pos [] = omega arith
above_pos ((p, s) ∷ m) = ground (arith, above_pos m)

pub bump-IsAllocator : IsAllocator bump
bump-IsAllocator = record {
  fresh-ne-null = λ m e. omega (arith, above_pos m);
  lookup-fresh = λ m. lookup-above m (above m) (omega arith);
}

-- The reply to a null pointer, at the address 1.
abbrev told : Text
told = tree.to_string (verdict world false (str "Null pointer"))

abbrev call : Call world
call = verify_vc 3 none
