-- ===== src/Frames/Buffer.antt =====
-- plugins/input.h: the memory that `buf` points to, byte by byte.
use robotica_movel.Prelude.{
  ℕ, zero, suc, ◌≤◌, ◌<◌, ◌≡◌, refl, ◌≢◌, arith, [], ◌∷◌, ◌++◌, Option, none, some, ltb, ◌==◌,
  if◌then◌else◌, Bytes,
}

-- What a pointer to a picture points to: nothing, memory that was given back, or `room` bytes.
pub data Buffer : Type 0 where
  null : Buffer
  freed : Buffer
  block : (room : ℕ) (byte : ℕ → ℕ) → Buffer

-- A read or write that is not inside allocated memory has no result.
unfoldable pub load : Buffer → ℕ → Option ℕ
load null i = none
load freed i = none
load (block r byte) i = if ltb i r then some (byte i) else none

unfoldable pub store : Buffer → ℕ → ℕ → Option Buffer
store null i b = none
store freed i b = none
store (block r byte) i b =
    if ltb i r then some (block r (λ j. if j == i then b else byte j)) else none

unfoldable pub room : Buffer → ℕ
room null = 0
room freed = 0
room (block r byte) = r

abbrev pub piece : Option ℕ → Bytes
piece none = []
piece (some b) = b ∷ []

-- The first `n` bytes.
unfoldable pub image : Buffer → ℕ → Bytes
image m zero = []
image m (suc i) = image m i ++ piece (load m i)

pub image-suc : (m : Buffer) (i b : ℕ) → load m i ≡ some b → image m (suc i) ≡ image m i ++ b ∷ []
unfolding image
image-suc m i b h = rw h

pub load-room : (m : Buffer) (i : ℕ) → i < room m → load m i ≢ none
unfolding load room
load-room null i h = absurd (omega arith)
load-room freed i h = absurd (omega arith)
load-room (block r byte) i h = ground arith

pub store-room : (m : Buffer) (i b : ℕ) → i < room m → store m i b ≢ none
unfolding store room
store-room null i b h = absurd (omega arith)
store-room freed i b h = absurd (omega arith)
store-room (block r byte) i b h = ground arith

pub room-store : (m m' : Buffer) (i b : ℕ) → store m i b ≡ some m' → room m' ≡ room m
unfolding store room
room-store null m' i b h = cc
room-store freed m' i b h = cc
room-store (block r byte) m' i b h = grind arith

pub load-store : (m m' : Buffer) (i b : ℕ) → store m i b ≡ some m' → load m' i ≡ some b
unfolding store load
load-store null m' i b h = cc
load-store freed m' i b h = cc
load-store (block r byte) m' i b h = grind arith

load-store_below :
    (m m' : Buffer) (i j b : ℕ) → j < i → store m i b ≡ some m' → load m' j ≡ load m j
unfolding store load
load-store_below null m' i j b lt h = cc
load-store_below freed m' i j b lt h = cc
load-store_below (block r byte) m' i j b lt h = grind arith

pub image-store :
    (m m' : Buffer) (i j b : ℕ) → j ≤ i → store m i b ≡ some m' → image m' j ≡ image m j
unfolding image
image-store m m' i zero b le h = refl
image-store m m' i (suc j) b le h =
    rw (image-store m m' i j b (omega arith) h, load-store_below m m' i j b (omega arith) h)
