-- ===== src/Fnv1a.antt =====
-- internal/fnv1a/fnv1a.go, and the UTF-8 bytes of a string that it walks.
use Prim.Native.Nat.{bit_xor}
use deadhorse.Common.{
  List, [], arith, if◌then◌else◌, ltb, ℕ, ◌%◌, ◌*◌, ◌++◌, ◌+◌, ◌/◌, ◌<◌, ◌^◌, ◌∷◌,
}
use deadhorse.Common.Assoc.{Str}

-- The bytes of a code point.
unfoldable pub rune_bytes : ℕ → List ℕ
rune_bytes r =
    if ltb r 0x80
    then r ∷ []
    else if ltb r 0x800
    then (0xc0 + r / 64) ∷ (0x80 + r % 64) ∷ []
    else if ltb r 0x10000
    then (0xe0 + r / 4096) ∷ (0x80 + r / 64 % 64) ∷ (0x80 + r % 64) ∷ []
    else (0xf0 + r / 262144) ∷ (0x80 + r / 4096 % 64) ∷ (0x80 + r / 64 % 64) ∷ (0x80 + r % 64) ∷ []

unfoldable pub bytes_of : Str → List ℕ
unfolding rune_bytes
bytes_of [] = []
bytes_of (r ∷ s) = rune_bytes r ++ bytes_of s

abbrev offset_64 : ℕ
offset_64 = 14695981039346656037

abbrev prime_64 : ℕ
prime_64 = 1099511628211

unfoldable pub hash_bytes : ℕ → List ℕ → ℕ
hash_bytes h [] = h
hash_bytes h (b ∷ bs) = hash_bytes (bit_xor h b * prime_64 % 2 ^ 64) bs

unfoldable pub hash : Str → ℕ
unfolding hash_bytes bytes_of
hash s = hash_bytes offset_64 (bytes_of s)

-- hash%n, the choice of one of `n` stripes or shards.
pub hash-mod-lt : (s : Str) (n : ℕ) → 0 < n → hash s % n < n
hash-mod-lt s n h = omega arith
