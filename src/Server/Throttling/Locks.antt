-- ===== src/Server/Throttling/Locks.antt =====
-- server/throttling.go: the locks of the buckets, as concurrent calls of evaluateRealGroup take them.
-- Each call takes the lock of every bucket that it touches, in the order of their keys, and gives them
-- up at the end. A bucket is its address. In Order and Progress a key is a number, its place in the
-- order of strings; Gathered has the strings that are sorted.
pub mod Order
pub mod Progress
pub mod Gathered
pub mod Sorted
pub mod Calls
pub mod Examples
use deadhorse.Common.{
  Bool, List, [], false, get_elem?, not, set, some, suc, true, ℕ, ◌&&◌, ◌++◌, ◌==◌, ◌||◌, ◌∷◌, ◌≡◌,
}

-- A call: the buckets that it has yet to lock, in order, and those that it has locked.
pub record Caller : Type 0 where
  pub wanted : List ℕ
  pub held : List ℕ

abbrev pub holds : ℕ → List ℕ → Bool
holds b [] = false
holds b (x ∷ xs) = x == b || holds b xs

-- No call has locked the bucket.
abbrev pub is_free : ℕ → List Caller → Bool
is_free b [] = true
is_free b (c ∷ cs) = not (holds b c.held) && is_free b cs

-- `Lock`, which waits while another call has the lock, and `Unlock`, when the group was evaluated.
abbrev pub lock_next : ℕ → List ℕ → Caller → Caller
lock_next b rest c = record { wanted = rest; held = c.held ++ b ∷ [] }

abbrev pub unlock_next : List ℕ → Caller → Caller
unlock_next rest c = record c { held = rest }

pub data LockStep (cs : List Caller) : List Caller → Type 0 where
  lock :
      (i b : ℕ) (rest : List ℕ) (c : Caller)
      → get_elem? cs i ≡ some c
      → c.wanted ≡ b ∷ rest
      → is_free b cs ≡ true
      → LockStep cs (set cs i (lock_next b rest c))
  unlock :
      (i b : ℕ) (rest : List ℕ) (c : Caller)
      → get_elem? cs i ≡ some c
      → c.wanted ≡ []
      → c.held ≡ b ∷ rest
      → LockStep cs (set cs i (unlock_next rest c))

pub data LockSteps (cs : List Caller) : List Caller → Type 0 where
  none_yet : LockSteps cs cs
  then : {ds es : List Caller} → LockSteps cs ds → LockStep ds es → LockSteps cs es

abbrev pub count : {cs ds : List Caller} → LockSteps cs ds → ℕ
count none_yet = 0
count (then steps st) = suc (count steps)
