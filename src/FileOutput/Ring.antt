-- ===== src/FileOutput/Ring.antt =====
-- The ring buffer of plugins/output_file/output_file.c: how many pictures the folder holds.
use robotica_movel.Prelude.{
  ℕ, zero, suc, ◌+◌, ◌-◌, ◌%◌, ◌^◌, ◌≤◌, ◌<◌, Bool, true, false, ◌||◌, List, [], ◌∷◌, Option, none,
  some, ◌≡◌, refl, sym, ap, ◌∙◌, ◌⊎◌, arith, Bool-cases, ltb, inl, inr, ◌==◌, if◌then◌else◌, Bytes,
  length, take, drop, length-drop,
}
use mathlib.Core.Path.{subst}
use native.Mathlib.Nat.{mod-add-mod, mod-eq_of_lt, mod-lt, mod_self, zero-mod}
use robotica_movel.Prelude.Int.{ℤ, pos, negsuc}
use robotica_movel.FileOutput.{
  FileSystem, Settings, Round, unlink_all, maintain_ringbuffer, Worker, cleans_up, linked,
  commanded, after_store, store_picture, dated, worker_round, worker_thread,
}

-- What the thread relies on: `scandir` succeeds and gives the pictures in order, `unlink` of the
-- first of them takes it away, a stored file adds at most its own name, and neither the link nor the
-- user's command adds a picture.
pub record FileSystemLaws {S : Type 0} (fs : FileSystem S) (pictures : S → List Bytes)
    : Type 0 where
  pub scandir_gives : (s : S) → fs.scandir s ≡ some (pictures s)
  pub unlink_takes :
      (s : S) (name : Bytes) (names : List Bytes)
      → pictures s ≡ name ∷ names
      → pictures (fs.unlink name s) ≡ names
  pub store_adds :
      (s : S) (name data' : Bytes)
      → length (pictures (fs.store name data' s)) ≤ length (pictures s) + 1
  pub relink_adds :
      (s : S) (old new : Bytes) → length (pictures (fs.relink old new s)) ≤ length (pictures s)
  pub system_adds :
      (s : S) (command name : Bytes)
      → length (pictures (fs.system command name s)) ≤ length (pictures s)

mod_next : (c m : ℕ) → 0 < m → ((c + 1) % m == 0) ≡ false → (c + 1) % m ≡ c % m + 1
mod_next c m h e = elim (Bool-cases (ltb (c % m + 1) m)) [
  | inl below ↦ sym (mod-add-mod c m 1) ∙ mod-eq_of_lt (ground arith)
  | inr top ↦ absurd (wraps (grind (arith, mod-lt c h)))
]
  where
    wraps : c % m + 1 ≡ m → ⊥
    wraps full =
        absurd (ground (arith, sym (mod-add-mod c m 1) ∙ (ap (λ v. v % m) full ∙ mod_self m)))

clash : false ≡ true → ⊥
clash e = cc

if_false : {A : Type 0} (b : Bool) (x y : A) → b ≡ false → (if b then x else y) ≡ y
if_false b x y e = rw e refl

or_right : (a b : Bool) → (a || b) ≡ false → b ≡ false
or_right a b h = ground arith

-- An `unsigned long long` that is counted up.
wrapped :
    (counter : ℕ)
    → counter < 2 ^ 64
    → ((counter + 1) % 2 ^ 64 ≡ 0) ⊎ ((counter + 1) % 2 ^ 64 ≡ counter + 1)
wrapped counter small = elim (Bool-cases (counter == 2 ^ 64 - 1)) [
  | inl last ↦ inl (ground arith)
  | inr inner ↦ inr (mod-eq_of_lt (ground arith))
]

-- How many pictures above the size a folder may hold, when the counter has this value.
abbrev pub excess : ℤ → ℕ → ℕ
excess (pos (suc n)) counter = counter % (suc n + 1)
excess _ counter = 0

-- The most that this can be.
abbrev pub exceed_limit : ℤ → ℕ
exceed_limit (pos n) = n
exceed_limit (negsuc n) = 0

module _ {S : Type 0} (fs : FileSystem S) (pictures : S → List Bytes)
    (laws : FileSystemLaws fs pictures) where
  unlink_all-pictures :
      (k : ℕ) (names : List Bytes) (s : S)
      → pictures s ≡ names
      → pictures (unlink_all fs (take k names) s) ≡ drop k names
  unfolding unlink_all
  unlink_all-pictures zero names s e = e
  unlink_all-pictures (suc k) [] s e = e
  unlink_all-pictures (suc k) (name ∷ names) s e =
      unlink_all-pictures k names (fs.unlink name s) (laws.unlink_takes s name names e)

  -- `maintain_ringbuffer` with a size of at least 0 deletes the oldest pictures and keeps the `size`
  -- most recent ones, in the order of `scandir`; if the file system keeps `FileSystemLaws`.
  pub maintain_ringbuffer-pictures :
      (size : ℕ) (s : S)
      → pictures (maintain_ringbuffer fs (pos size) s)
        ≡ drop (length (pictures s) - size) (pictures s)
  unfolding maintain_ringbuffer
  maintain_ringbuffer-pictures size s =
      rw (laws.scandir_gives s)
        (unlink_all-pictures (length (pictures s) - size) (pictures s) s refl)

  maintained : (size : ℕ) (s : S) → length (pictures (maintain_ringbuffer fs (pos size) s)) ≤ size
  maintained size s = omega (
    arith,
    ap length (maintain_ringbuffer-pictures size s),
    length-drop (length (pictures s) - size) (pictures s),
  )

  linked_adds :
      (new : Option Bytes) (name : Bytes) (s : S)
      → length (pictures (linked fs new name s)) ≤ length (pictures s)
  unfolding linked
  linked_adds none name s = omega arith
  linked_adds (some new) name s = laws.relink_adds s name new

  commanded_adds :
      (command : Option Bytes) (name : Bytes) (s : S)
      → length (pictures (commanded fs command name s)) ≤ length (pictures s)
  unfolding commanded
  commanded_adds none name s = omega arith
  commanded_adds (some command) name s = laws.system_adds s command name

  -- Where a round does not clean up, the excess grows by one.
  grows :
      (n counter next : ℕ)
      → (next ≡ 0) ⊎ (next ≡ counter + 1)
      → cleans_up fs (pos (suc n)) next ≡ false
      → (0 < counter) × (next % (suc n + 1) ≡ counter % (suc n + 1) + 1)
  unfolding cleans_up
  grows n counter next (inl e) h =
      absurd (ground (arith, ap (λ v. v % (suc n + 1)) e ∙ zero-mod (suc n + 1)))
  grows n counter next (inr e) h = (
    ground arith,
    ap (λ v. v % (suc n + 1)) e
        ∙ mod_next counter (suc n + 1) (omega arith)
            (ap (λ v. v % (suc n + 1) == 0) (sym e) ∙ or_right _ _ h),
  )

  excess_grows :
      (exceed : ℤ) (counter : ℕ)
      → counter < 2 ^ 64
      → cleans_up fs exceed ((counter + 1) % 2 ^ 64) ≡ false
      → (0 < counter) × (excess exceed ((counter + 1) % 2 ^ 64) ≡ excess exceed counter + 1)
  excess_grows (negsuc n) counter small h = absurd (unfold cleans_up in cc)
  excess_grows (pos zero) counter small h = absurd (unfold cleans_up in cc)
  excess_grows (pos (suc n)) counter small h = grows n counter _ (wrapped counter small) h

  excess_limited : (exceed : ℤ) (counter : ℕ) → excess exceed counter ≤ exceed_limit exceed
  excess_limited (negsuc n) counter = omega arith
  excess_limited (pos zero) counter = omega arith
  excess_limited (pos (suc n)) counter = omega (arith, mod-lt counter {m = suc n + 1} (omega arith))

  module _ (cfg : Settings) (size : ℕ) (sized : cfg.ringbuffer_size ≡ pos size) where
    -- The thread keeps within the size and what the counter allows above it.
    record Kept (w : Worker fs) : Type 0 where
      few : length (pictures w.folder) ≤ size + excess cfg.ringbuffer_exceed w.counter
      small : w.counter < 2 ^ 64

    cleaned :
        (next : ℕ) (s : S)
        → cleans_up fs cfg.ringbuffer_exceed next ≡ true
        → (name : Bytes) → length (pictures (after_store fs cfg name next s)) ≤ size
    unfolding after_store
    cleaned next s e name = rw (e, sized) (maintained size _)

    not_cleaned :
        (next : ℕ) (s : S)
        → cleans_up fs cfg.ringbuffer_exceed next ≡ false
        → (name : Bytes) → length (pictures (after_store fs cfg name next s)) ≤ length (pictures s)
    unfolding after_store
    not_cleaned next s e name = rw e (
        omega (
          arith,
          linked_adds cfg.link_file_name name s,
          commanded_adds cfg.command name (linked fs cfg.link_file_name name s),
        ))

    after_store_few :
        (name : Bytes) (w : Worker fs) (s : S)
        → Kept w ⊎ (w.counter ≡ 0)
        → w.counter < 2 ^ 64
        → length (pictures s) ≤ length (pictures w.folder) + 1
        → length (pictures (after_store fs cfg name ((w.counter + 1) % 2 ^ 64) s))
          ≤ size + excess cfg.ringbuffer_exceed ((w.counter + 1) % 2 ^ 64)
    after_store_few name w s kept small one =
        elim (Bool-cases (cleans_up fs cfg.ringbuffer_exceed ((w.counter + 1) % 2 ^ 64))) [
          | inl e ↦ omega (arith, cleaned _ s e name)
          | inr e ↦
              within kept (excess_grows cfg.ringbuffer_exceed w.counter small e)
                (not_cleaned _ s e name)
        ]
      where
        within :
            {n m : ℕ}
            → Kept w ⊎ (w.counter ≡ 0)
            → (0 < w.counter) × (m ≡ excess cfg.ringbuffer_exceed w.counter + 1)
            → n ≤ length (pictures s)
            → n ≤ size + m
        within (inl k) g le = omega (arith, k.few, g.1)
        within (inr z) g le = absurd (omega (arith, g.0))

    store_picture-Kept :
        (r : Round) (date : Bytes) (w : Worker fs)
        → Kept w ⊎ (w.counter ≡ 0)
        → w.counter < 2 ^ 64
        → (store_picture fs cfg r date w).1 ≡ true
        → Kept (store_picture fs cfg r date w).0
    unfolding store_picture
    store_picture-Kept r date w kept small on = elim (Bool-cases r.opens) [
      | inr closed ↦ absurd (clash (sym (rw closed refl) ∙ on))
      | inl opened ↦ elim (Bool-cases r.writes) [
        | inr failed ↦ absurd (clash (sym (rw (opened, failed) refl) ∙ on))
        | inl written ↦
            rw (opened, written)
              record {
                few = after_store_few _ w _ kept small (laws.store_adds w.folder _ r.frame);
                small = omega arith;
              }
      ]
    ]

    dated-Kept :
        (r : Round) (date : Option Bytes) (w : Worker fs)
        → Kept w ⊎ (w.counter ≡ 0)
        → w.counter < 2 ^ 64
        → (dated fs cfg r date w).1 ≡ true
        → Kept (dated fs cfg r date w).0
    unfolding dated
    dated-Kept r none w kept small on = absurd cc
    dated-Kept r (some date) w kept small on = store_picture-Kept r date w kept small on

    module _ (files : cfg.records ≡ false) where
      worker_round-Kept :
          (r : Round) (w : Worker fs)
          → Kept w ⊎ (w.counter ≡ 0)
          → w.counter < 2 ^ 64
          → (worker_round fs cfg r w).1 ≡ true
          → Kept (worker_round fs cfg r w).0
      unfolding worker_round
      worker_round-Kept r w kept small on =
          subst (λ o. Kept o.0) (sym stores)
            (dated-Kept r r.date w kept small (ap (λ o. o.1) (sym stores) ∙ on))
        where
          stores : worker_round fs cfg r w ≡ dated fs cfg r r.date w
          stores = if_false cfg.records _ _ files

      rounds-Kept :
          (rs : List Round) (w : Worker fs)
          → Kept w
          → (worker_thread fs cfg rs w).1 ≡ true
          → Kept (worker_thread fs cfg rs w).0
      unfolding worker_thread
      rounds-Kept [] w kept on = kept
      rounds-Kept (r ∷ rs) w kept on = elim (Bool-cases (worker_round fs cfg r w).1) [
        | inr ended ↦ absurd (clash (sym (rw ended refl) ∙ on))
        | inl goes ↦ rw goes (
            rounds-Kept rs _ (worker_round-Kept r w (inl kept) kept.small goes)
              (sym (rw goes refl) ∙ on))
      ]

      -- With single files and a ring buffer size of `size`: while `worker_thread` runs, the folder
      -- holds at most `size` pictures and `ringbuffer_exceed` more once a frame is stored, however
      -- many pictures it held at the start; the wrap of the 64-bit counter included. The file system keeps
      -- `FileSystemLaws`.
      pub ring_stays_small :
          (r : Round) (rs : List Round) (w : Worker fs)
          → w.counter ≡ 0
          → (worker_thread fs cfg (r ∷ rs) w).1 ≡ true
          → length (pictures (worker_thread fs cfg (r ∷ rs) w).0.folder)
            ≤ size + exceed_limit cfg.ringbuffer_exceed
      unfolding worker_thread
      ring_stays_small r rs w z on = elim (Bool-cases (worker_round fs cfg r w).1) [
        | inr ended ↦ absurd (clash (sym (rw ended refl) ∙ on))
        | inl goes ↦ rw goes (
            bounded (
              rounds-Kept rs _ (worker_round-Kept r w (inr z) (omega arith) goes)
                (sym (rw goes refl) ∙ on)))
      ]
        where
          bounded :
              {w' : Worker fs}
              → Kept w'
              → length (pictures w'.folder) ≤ size + exceed_limit cfg.ringbuffer_exceed
          bounded k = omega (arith, k.few, excess_limited cfg.ringbuffer_exceed _)
