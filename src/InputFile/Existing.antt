-- ===== src/InputFile/Existing.antt =====
-- plugins/input_file/input_file.c, the option existing: the JPEG files in turn, over and over.
use robotica_movel.Prelude.{
  ℕ, zero, suc, ◌≤◌, ◌<◌, ◌≡◌, ◌≢◌, ◌⊎◌, inl, inr, refl, sym, ap, ◌∙◌, Bool, true, false, not, ◌&&◌,
  ◌||◌, List, [], ◌∷◌, ◌++◌, none, some, ◌==◌, if◌then◌else◌, Bytes, length, drop, get_elem?, All,
  arith, append_assoc, append-nil, drop_all, Bool-cases, if_true, if_false,
}
use mathlib.Core.Path.{subst}
use native.Mathlib.Decide.{ℕ_discrete}
use robotica_movel.InputFile.Serving.{
  outcome, Succeeds, picture_of, behind, removes-keeps, serve_file-Succeeds,
}
use robotica_movel.InputFile.{
  Settings, existing_files, Round, Published, Worker, init_worker, stopped, path, is_jpg, next_file,
  choose_name, choose_existing, removes, act, choose, worker_round, go_on, worker_loop, started,
  worker_thread,
}

-- One round for each name; the names of JPEG files are published, the others passed over.
unfoldable pub expected : Settings → List Bytes → List Round → List Published
expected cfg [] rs = []
expected cfg (name ∷ names) [] = []
expected cfg (name ∷ names) (r ∷ rs) =
    if is_jpg name then picture_of cfg name r ∷ expected cfg names rs else expected cfg names rs

-- `m` times the folder
abbrev pub laps : ℕ → List Bytes → List Bytes
laps zero files = []
laps (suc m) files = files ++ laps m files

abbrev pub has_jpg_in : List Bytes → Bool
has_jpg_in [] = false
has_jpg_in (name ∷ names) = is_jpg name || has_jpg_in names

later_jpg : (a b c : Bool) → (a || (b || c)) ≡ true → ((b || a) || c) ≡ true
later_jpg true true c h = refl
later_jpg true false c h = refl
later_jpg false true c h = refl
later_jpg false false c h = h

no_later_jpg : (a : Bool) → (a || false) ≡ true → a ≡ true
no_later_jpg true h = refl
no_later_jpg false h = h

expected-nil : (cfg : Settings) (names : List Bytes) → expected cfg names [] ≡ []
unfolding expected
expected-nil cfg [] = refl
expected-nil cfg (name ∷ names) = refl

expected-cons :
    (cfg : Settings) (published : List Published) (name : Bytes) (names : List Bytes) (r : Round)
    (rs : List Round)
    → (published ++ (if is_jpg name then picture_of cfg name r ∷ [] else []))
        ++ expected cfg names rs
      ≡ published ++ expected cfg (name ∷ names) (r ∷ rs)
unfolding expected
expected-cons cfg published name names r rs =
    append_assoc published _ _ ∙ ap (published ++◌) (by_test (is_jpg name))
  where
    by_test :
        (t : Bool)
        → (if t then picture_of cfg name r ∷ [] else []) ++ expected cfg names rs
          ≡ (if t then picture_of cfg name r ∷ expected cfg names rs else expected cfg names rs)
    by_test true = refl
    by_test false = refl

drop-cons :
    (xs : List Bytes) (i : ℕ)
    → i < length xs
    → (x : Bytes) × (get_elem? xs i ≡ some x) × (drop i xs ≡ x ∷ drop (suc i) xs)
drop-cons [] i h = absurd (omega arith)
drop-cons (x ∷ xs) zero h = (x, refl, refl)
drop-cons (x ∷ xs) (suc i) h = drop-cons xs i (omega arith)

module _ (cfg : Settings) (files : List Bytes) (is_existing : cfg.mode ≡ existing_files) where
  -- A round that goes on, and what it has done.
  abbrev Passes : Bytes → Round → Worker → Type 0
  Passes name r w =
      (w' : Worker) × (worker_round cfg files r w ≡ (w', none))
      × (w'.current ≡ next_file (length files) w.current)
      × (w'.has_jpg ≡ (is_jpg name || w.has_jpg))
      × (w'.published ≡ w.published ++ (if is_jpg name then picture_of cfg name r ∷ [] else []))

  worker_round_lem :
      (r : Round) (w : Worker) (name : Bytes)
      → get_elem? files w.current ≡ some name
      → worker_round cfg files r w ≡ act cfg r (choose_name cfg (length files) (some name) w)
  unfolding worker_round choose choose_existing
  worker_round_lem r w name h =
      ap (λ m. act cfg r (choose cfg m files r w)) is_existing
      ∙ ap (λ o. act cfg r (choose_name cfg (length files) o w)) h

  round-Passes :
      (r : Round) (w : Worker) (name : Bytes)
      → get_elem? files w.current ≡ some name
      → Succeeds r
      → ((is_jpg name || w.has_jpg) ≡ true) ⊎ (suc w.current ≢ length files)
      → Passes name r w
  unfolding act choose_name
  round-Passes r w name at ok h = elim (Bool-cases (is_jpg name)) [
    | inl e ↦
        let file = path cfg name in
        let w1 = record w { current = next_file (length files) w.current; has_jpg = true } in
        let w2 = behind cfg name r w1 in
        let (same_current, same_jpg, same_published) = removes-keeps cfg r file w2 in
        (
          removes cfg r file w2,
          worker_round_lem r w name at
              ∙ ap (act cfg r) (if_true _ _ e)
              ∙ serve_file-Succeeds cfg r name w1 ok,
          same_current,
          same_jpg ∙ sym (ap (λ t. t || w.has_jpg) e),
          same_published ∙ sym (ap (w.published ++◌) (if_true _ _ e)),
        )
    | inr e ↦
        let w1 = record w { current = next_file (length files) w.current } in
        (
          w1,
          worker_round_lem r w name at
              ∙ ap (act cfg r) (if_false _ _ e ∙ if_false _ _ (not_last e h)),
          refl,
          sym (ap (λ t. t || w.has_jpg) e),
          sym (append-nil w.published) ∙ sym (ap (w.published ++◌) (if_false _ _ e)),
        )
  ]
    where
      not_last :
          is_jpg name ≡ false
          → ((is_jpg name || w.has_jpg) ≡ true) ⊎ (suc w.current ≢ length files)
          → (suc w.current == length files && not w.has_jpg) ≡ false
      not_last e (inl q) = ground arith
      not_last e (inr n) = ground arith

  -- The file behind `c`, in `m` further laps: in the folder, with the same names ahead, and no JPEG
  -- file is lost.
  abbrev IsNext : ℕ → ℕ → ℕ → ℕ → Type 0
  IsNext c m c' m' =
      (m ≤ suc m')
      × (c' < length files)
      × (drop c' files ++ laps m' files ≡ drop (suc c) files ++ laps m files)
      × ((b : Bool)
          → (b || has_jpg_in (drop (suc c) files)) ≡ true
          → (b || has_jpg_in (drop c' files)) ≡ true)

  none_left : (c : ℕ) → suc c ≡ length files → drop (suc c) files ≡ []
  none_left c last = ap (λ n. drop n files) last ∙ drop_all files

  wraps : (c m : ℕ) → c < length files → suc c ≡ length files → IsNext c (suc m) 0 m
  wraps c m lt last = (
    omega arith,
    omega arith,
    sym (ap (◌++ laps (suc m) files) (none_left c last)),
    λ b h. first b (sym (ap (λ xs. b || has_jpg_in xs) (none_left c last)) ∙ h),
  )
    where
      first : (b : Bool) → (b || false) ≡ true → (b || has_jpg_in files) ≡ true
      first true h = refl
      first false h = absurd cc

  next_file-IsNext :
      (c m : ℕ) → c < length files → 0 < m → (m' : ℕ) × IsNext c m (next_file (length files) c) m'
  next_file-IsNext c zero lt h = absurd (omega arith)
  next_file-IsNext c (suc m) lt h = elim (ℕ_discrete (suc c) (length files)) [
    | yes last ↦ (m, subst (λ c'. IsNext c (suc m) c' m) {x = 0} (ground arith) (wraps c m lt last))
    | no n ↦ (
      suc m,
      subst (λ c'. IsNext c (suc m) c' (suc m)) {x = suc c} (ground arith)
          (omega arith, omega arith, refl, λ b q. q),
    )
  ]

  not_lost :
      (w : Worker) (name : Bytes)
      → ((is_jpg name || w.has_jpg) || has_jpg_in (drop (suc w.current) files)) ≡ true
      → ((is_jpg name || w.has_jpg) ≡ true) ⊎ (suc w.current ≢ length files)
  not_lost w name h = elim (ℕ_discrete (suc w.current) (length files)) [
    | yes last ↦ inl (
        no_later_jpg _ (
          sym (ap (λ xs. (is_jpg name || w.has_jpg) || has_jpg_in xs) (none_left w.current last))
          ∙ h))
    | no n ↦ inr n
  ]

  worker_loop_lem :
      (rs : List Round) (m : ℕ) (w : Worker)
      → All Succeeds rs
      → length rs ≤ m
      → w.current < length files
      → (w.has_jpg || has_jpg_in (drop w.current files)) ≡ true
      → outcome (worker_loop cfg files rs w)
        ≡ (w.published ++ expected cfg (drop w.current files ++ laps m files) rs, stopped)
  unfolding worker_loop go_on
  worker_loop_lem [] m w ok le lt jpg =
      ap (λ x. (x, stopped))
        (sym (append-nil w.published) ∙ ap (w.published ++◌) (sym (expected-nil cfg _)))
  worker_loop_lem (r ∷ rs) m w (ok, oks) le lt jpg =
      let (name, at, names) = drop-cons files w.current lt in
      let (m', (le', lt', tail, kept)) = next_file-IsNext w.current m lt (omega arith) in
      let now =
        later_jpg w.has_jpg (is_jpg name) (has_jpg_in (drop (suc w.current) files))
          (sym (ap (λ xs. w.has_jpg || has_jpg_in xs) names) ∙ jpg) in
      let (w', goes, at', jpg', published') = round-Passes r w name at ok (not_lost w name now) in
      ap (λ o. outcome (go_on (worker_loop cfg files rs) o)) goes
      ∙ worker_loop_lem rs m' w' oks (omega arith) (subst (λ c. c < length files) (sym at') lt')
          (ap (λ (c, b). b || has_jpg_in (drop c files)) (λ i. (at' i, jpg' i)) ∙ kept _ now)
      ∙ ap (λ x. (x, stopped))
          ((λ i. w'.published ++ expected cfg (drop (at' i) files ++ laps m' files) rs)
            ∙ ap (λ xs. w'.published ++ expected cfg xs rs) tail
            ∙ ap (◌++ expected cfg (drop (suc w.current) files ++ laps m files) rs) published'
            ∙ expected-cons cfg w.published name _ r rs
            ∙ ap (λ xs. w.published ++ expected cfg (xs ++ laps m files) (r ∷ rs)) (sym names))

-- With the option existing, while every call of the rounds succeeds, and one of the names holds .jpg or
-- .JPG: the thread goes on until it is stopped, and publishes the files with such a name, in the order
-- of the folder, over and over, each with the content read in its round; the other names are passed
-- over.
pub existing_files_in_turn :
    (cfg : Settings) (files : List Bytes) (rs : List Round)
    → cfg.mode ≡ existing_files
    → All Succeeds rs
    → has_jpg_in files ≡ true
    → outcome (worker_thread cfg (some files) rs)
      ≡ (expected cfg (laps (suc (length rs)) files) rs, stopped)
unfolding worker_thread started
existing_files_in_turn cfg files rs mode ok jpg =
    ap (λ m. outcome (started cfg m (some files) rs)) mode
    ∙ worker_loop_lem cfg files mode rs (length rs) init_worker ok (omega arith)
        (some_file files jpg) jpg
  where
    some_file : (names : List Bytes) → has_jpg_in names ≡ true → 0 < length names
    some_file [] h = absurd cc
    some_file (name ∷ names) h = omega arith
