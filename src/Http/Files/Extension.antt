-- ===== src/Http/Files/Extension.antt =====
-- The answers of `send_file` of plugins/output_http/httpd.c, by the name that is asked for.
use robotica_movel.Prelude.{
  ℕ, suc, ◌+◌, Bool, false, List, [], ◌∷◌, ◌++◌, Option, none, some, ◌≡◌, refl, ap, ◌∙◌, ◌⊎◌, arith,
  ◌==◌, if◌then◌else◌, Bytes, codes, length, drop, drop-append,
}
use robotica_movel.CString.{elem}
use robotica_movel.Http.Response.{send_error}
use robotica_movel.Http.Files.Sending.{path_of, filled, Sends, IsListed, IsMissing}
use robotica_movel.Http.Files.{
  mimetypes, dot_from, last_dot, mimetype, path, file_header, send_typed, send_file,
}

-- Without a dot in the rest, the place stays.
dot_from_stays : (last i : ℕ) (s : Bytes) → elem b'.' s ≡ false → dot_from last i s ≡ last
unfolding dot_from elem
dot_from_stays last i [] h = refl
dot_from_stays last i (c ∷ s) h =
    ap (λ b. dot_from (if b then i else last) (i + 1) s) other
    ∙ dot_from_stays last (i + 1) s (ground (arith, h))
  where
    other : (c == b'.') ≡ false
    other = ground (arith, h)

dot_from-append :
    (last i : ℕ) (stem extension : Bytes)
    → elem b'.' extension ≡ false
    → dot_from last i (stem ++ b'.' ∷ extension) ≡ i + length stem
unfolding dot_from
dot_from-append last i [] extension h = dot_from_stays i (i + 1) extension h ∙ omega arith
dot_from-append last i (c ∷ stem) extension h =
    dot_from-append (if c == b'.' then i else last) (i + 1) stem extension h ∙ omega arith

-- A text with a dot, cut at its last one.
pub record CutsAtDot (s stem extension : Bytes) : Type 0 where
  pub parts : s ≡ stem ++ b'.' ∷ extension
  pub last : elem b'.' extension ≡ false

abbrev DotCases : Bytes → Type 0
DotCases s =
    (elem b'.' s ≡ false) ⊎ ((stem : Bytes) × (extension : Bytes) × CutsAtDot s stem extension)

last_dot-append :
    (stem extension : Bytes)
    → elem b'.' extension ≡ false
    → last_dot (stem ++ b'.' ∷ extension) ≡ length stem
unfolding last_dot
last_dot-append stem extension h = dot_from-append 0 0 stem extension h ∙ omega arith

not_zero : (n : ℕ) → (suc n == 0) ≡ false
not_zero n = ground arith

module _ (open_file : Bytes → Option (List Bytes)) (writes : ℕ → Bool) (www_folder : Bytes) where
  -- A name cut at its last dot.
  pub sends_typed :
      (c : ℕ) (stem extension : Bytes)
      → elem b'.' extension ≡ false
      → send_file open_file writes www_folder (some ((c ∷ stem) ++ b'.' ∷ extension))
        ≡ send_typed open_file writes
            (path www_folder ((c ∷ stem) ++ b'.' ∷ extension))
            (mimetype mimetypes (b'.' ∷ extension))
  unfolding send_file
  sends_typed c stem extension h =
      rw (last_dot-append (c ∷ stem) extension h, not_zero (length stem))
        (ap
          (λ e.
            send_typed open_file writes (path www_folder ((c ∷ stem) ++ b'.' ∷ extension))
              (mimetype mimetypes e))
          (drop-append (c ∷ stem) (b'.' ∷ extension)))

-- The four answers to a name, each with its reason.
pub record NoExtension (name answer : Bytes) : Type 0 where
  pub no_dot : elem b'.' (drop 1 name) ≡ false
  pub refused : answer ≡ send_error 400 (codes "No file extension found")

pub record UnknownType (name answer : Bytes) : Type 0 where
  pub stem : Bytes
  pub extension : Bytes
  pub cut : CutsAtDot name stem extension
  pub unknown : IsMissing (b'.' ∷ extension) mimetypes
  pub refused : answer ≡ send_error 404 (codes "MIME-TYPE not known")

pub record NotOpened (open_file : Bytes → Option (List Bytes)) (www_folder name answer : Bytes)
    : Type 0 where
  pub stem : Bytes
  pub extension : Bytes
  pub type : Bytes
  pub cut : CutsAtDot name stem extension
  pub known : IsListed (b'.' ∷ extension) mimetypes type
  pub closed : open_file (path_of www_folder name) ≡ none
  pub refused : answer ≡ send_error 404 (codes "Could not open file")

pub record Served (open_file : Bytes → Option (List Bytes)) (writes : ℕ → Bool)
    (www_folder name answer : Bytes) : Type 0 where
  pub stem : Bytes
  pub extension : Bytes
  pub type : Bytes
  pub reads : List Bytes
  pub cut : CutsAtDot name stem extension
  pub known : IsListed (b'.' ∷ extension) mimetypes type
  pub opened : open_file (path_of www_folder name) ≡ some reads
  pub sent : Sends writes 0 (file_header type ∷ filled reads) answer

abbrev pub IsAnswered : (Bytes → Option (List Bytes)) → (ℕ → Bool) → Bytes → Bytes → Bytes → Type 0
IsAnswered open_file writes www_folder name answer =
    NoExtension name answer
    ⊎ (UnknownType name answer
        ⊎ (NotOpened open_file www_folder name answer
            ⊎ Served open_file writes www_folder name answer))
