-- ===== src/GetOpt.antt =====
-- The loop over the options that each plugin and the main program have: `getopt_long_only` is the C
-- library's.
use robotica_movel.Prelude.{ℕ, zero, suc, ◌≡◌, refl, List, [], ◌∷◌, ◌++◌, Option, none, some, Bytes}

-- What `getopt_long_only` reports before it returns -1.
pub data Parsed : Type 0 where
  unrecognized : Parsed
  option : (option_index : ℕ) (optarg : Bytes) → Parsed

module _ {O : Type 0} where
  -- A case that prints the help and returns an error.
  abbrev pub refuses : O → Option O
  refuses o = none

  -- A switch over `option_index`, with a default that is refused.
  unfoldable pub switch : List (O → Option O) → ℕ → O → Option O
  switch [] n o = none
  switch (f ∷ fs) zero o = f o
  switch (f ∷ fs) (suc n) o = switch fs n o

  unfoldable pub parse_options : (Bytes → List (O → Option O)) → List Parsed → Option O → Option O
  unfolding switch
  parse_options cases ps none = none
  parse_options cases [] (some o) = some o
  parse_options cases (unrecognized ∷ ps) (some o) = none
  parse_options cases (option n optarg ∷ ps) (some o) =
      parse_options cases ps (switch (cases optarg) n o)

  parse_options-none :
      (cases : Bytes → List (O → Option O)) (ps : List Parsed) → none ≡ parse_options cases ps none
  unfolding parse_options
  parse_options-none cases [] = refl
  parse_options-none cases (p ∷ ps) = refl

  pub parse_options-append :
      (cases : Bytes → List (O → Option O)) (ps qs : List Parsed) (o : Option O)
      → parse_options cases (ps ++ qs) o ≡ parse_options cases qs (parse_options cases ps o)
  unfolding parse_options
  parse_options-append cases [] qs none = parse_options-none cases qs
  parse_options-append cases [] qs (some o) = refl
  parse_options-append cases (p ∷ ps) qs none = parse_options-none cases qs
  parse_options-append cases (unrecognized ∷ ps) qs (some o) = parse_options-none cases qs
  parse_options-append cases (option n optarg ∷ ps) qs (some o) =
      parse_options-append cases ps qs (switch (cases optarg) n o)

  -- A property that each case keeps holds of what the loop leaves.
  abbrev pub Holds : (O → Type 0) → Option O → Type 0
  Holds P none = Unit
  Holds P (some o) = P o

  -- Each case of a switch keeps `P`.
  infixr 30 ◌▸◌
  pub data AllKeep (P : O → Type 0) : List (O → Option O) → Type 0 where
    no_case : AllKeep P []
    ◌▸◌ :
        {f : O → Option O} {fs : List (O → Option O)}
        → ((o : O) → P o → Holds P (f o))
        → AllKeep P fs
        → AllKeep P (f ∷ fs)

  switch-Holds :
      (P : O → Type 0) (fs : List (O → Option O)) (n : ℕ) (o : O)
      → AllKeep P fs
      → P o
      → Holds P (switch fs n o)
  unfolding switch
  switch-Holds P [] n o keep h = tt
  switch-Holds P (f ∷ fs) zero o (keep ▸ keeps) h = keep o h
  switch-Holds P (f ∷ fs) (suc n) o (keep ▸ keeps) h = switch-Holds P fs n o keeps h

  pub parse_options-Holds :
      (P : O → Type 0) (cases : Bytes → List (O → Option O)) (ps : List Parsed) (o : Option O)
      → ((optarg : Bytes) → AllKeep P (cases optarg))
      → Holds P o
      → Holds P (parse_options cases ps o)
  unfolding parse_options
  parse_options-Holds P cases ps none keep h = tt
  parse_options-Holds P cases [] (some o) keep h = h
  parse_options-Holds P cases (unrecognized ∷ ps) (some o) keep h = tt
  parse_options-Holds P cases (option n optarg ∷ ps) (some o) keep h =
      parse_options-Holds P cases ps (switch (cases optarg) n o) keep
        (switch-Holds P (cases optarg) n o (keep optarg) h)
