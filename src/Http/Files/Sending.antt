-- ===== src/Http/Files/Sending.antt =====
-- What `send_file` of plugins/output_http/httpd.c writes of a file, the table of types, and the path.
use robotica_movel.Prelude.{
  concat, take, append-nil, All, ◌<◌, ◌≢◌, ◌-◌, ℕ, zero, suc, ◌+◌, Bool, true, false, List, [], ◌∷◌,
  ◌++◌, Option, none, some, ◌≡◌, refl, sym, ap, ◌∙◌, ◌⊎◌, arith, Bool-cases, inl, inr, Bytes,
  length,
}
use mathlib.Core.Path.{subst}
use mathlib.Core.List.{Memᴰ}
use robotica_movel.CString.{str_eq}
use robotica_movel.CString.Laws.{str_eq_iff}
use robotica_movel.Http.Response.{http_buffer}
use robotica_movel.Http.Files.{mimetype, path, sent_reads}

-- The path of a file: what of it fits into `buffer`.
abbrev pub path_of : Bytes → Bytes → Bytes
path_of www_folder name = take (http_buffer - 1) (www_folder ++ name)

-- The two calls of `strncat` give the text up to the end of `buffer`.
pub path_lem :
    (www_folder name : Bytes) → path www_folder name ≡ take (http_buffer - 1) (www_folder ++ name)
unfolding path
path_lem www_folder name =
    ap (λ k. take (http_buffer - 1) www_folder ++ take k name) (omega arith)
    ∙ take-split (http_buffer - 1) www_folder
  where
    take-nil : (n : ℕ) → take {A = ℕ} n [] ≡ []
    take-nil zero = refl
    take-nil (suc n) = refl

    take-split :
        (n : ℕ) (s : Bytes) → take n s ++ take (n - length (take n s)) name ≡ take n (s ++ name)
    take-split n [] =
        ap (λ (s : Bytes). s ++ take (n - length s) name) (take-nil n)
        ∙ ap (λ k. take k name) (omega arith)
    take-split zero (c ∷ s) = refl
    take-split (suc n) (c ∷ s) =
        ap (λ k. c ∷ (take n s ++ take k name)) (omega arith) ∙ ap (c ∷◌) (take-split n s)

-- The reads up to the first that gives no byte.
abbrev pub filled : List Bytes → List Bytes
filled [] = []
filled ([] ∷ reads) = []
filled ((c ∷ s) ∷ reads) = (c ∷ s) ∷ filled reads

-- The writes that succeed, from the `k`th on: all of them, or those before the first that fails.
pub record Sends (writes : ℕ → Bool) (k : ℕ) (pieces : List Bytes) (answer : Bytes) : Type 0 where
  pub count : ℕ
  pub succeed : (i : ℕ) → i < count → writes (k + i) ≡ true
  pub ends : (count ≡ length pieces) ⊎ (writes (k + count) ≡ false)
  pub sent : answer ≡ concat (take count pieces)

Sends-none :
    (writes : ℕ → Bool) (k : ℕ) (pieces : List Bytes) → writes k ≡ false → Sends writes k pieces []
Sends-none writes k pieces e = record {
  count = 0;
  succeed = λ i h. absurd (omega (arith, h));
  ends = inr (ap writes (omega arith) ∙ e);
  sent = refl;
}

Sends-more :
    (writes : ℕ → Bool) (k : ℕ) (buffer : Bytes) (pieces : List Bytes) (rest : Bytes)
    → writes k ≡ true
    → Sends writes (k + 1) pieces rest
    → Sends writes k (buffer ∷ pieces) (buffer ++ rest)
Sends-more writes k buffer pieces rest e h = record {
  count = suc h.count;
  succeed = earlier;
  ends = last h.ends;
  sent = ap (λ x. buffer ++ x) h.sent;
}
  where
    earlier : (i : ℕ) → i < suc h.count → writes (k + i) ≡ true
    earlier zero lt = ap writes (omega arith) ∙ e
    earlier (suc i) lt = ap writes (omega arith) ∙ h.succeed i (omega (arith, lt))

    last :
        (h.count ≡ length pieces) ⊎ (writes (k + 1 + h.count) ≡ false)
        → (suc h.count ≡ suc (length pieces)) ⊎ (writes (k + suc h.count) ≡ false)
    last (inl q) = inl (ap suc q)
    last (inr q) = inr (ap writes (omega arith) ∙ q)

Sends-last :
    (writes : ℕ → Bool) (k : ℕ) (buffer : Bytes)
    → writes k ≡ true
    → Sends writes k (buffer ∷ []) buffer
Sends-last writes k buffer e =
    subst (λ x. Sends writes k (buffer ∷ []) x) (append-nil buffer)
      (Sends-more writes k buffer [] [] e record {
        count = 0;
        succeed = λ i h. absurd (omega (arith, h));
        ends = inl refl;
        sent = refl;
      })

pub sent_reads-Sends :
    (writes : ℕ → Bool) (k : ℕ) (buffer : Bytes) (reads : List Bytes)
    → Sends writes k (buffer ∷ filled reads) (sent_reads writes k buffer reads)
unfolding sent_reads
sent_reads-Sends writes k buffer [] = elim (Bool-cases (writes k)) [
  | inl e ↦ rw e (Sends-last writes k buffer e)
  | inr e ↦ rw e (Sends-none writes k (buffer ∷ []) e)
]
sent_reads-Sends writes k buffer ([] ∷ reads) = elim (Bool-cases (writes k)) [
  | inl e ↦ rw e (Sends-last writes k buffer e)
  | inr e ↦ rw e (Sends-none writes k (buffer ∷ []) e)
]
sent_reads-Sends writes k buffer ((c ∷ s) ∷ reads) = elim (Bool-cases (writes k)) [
  | inl e ↦ rw e (Sends-more writes k buffer _ _ e (sent_reads-Sends writes (k + 1) (c ∷ s) reads))
  | inr e ↦ rw e (Sends-none writes k (buffer ∷ filled ((c ∷ s) ∷ reads)) e)
]

-- The table has the extension, with this type, or it does not have it.
abbrev pub IsListed : Bytes → List (Bytes × Bytes) → Bytes → Type 0
IsListed extension table type = Memᴰ (extension, type) table

abbrev pub IsMissing : Bytes → List (Bytes × Bytes) → Type 0
IsMissing extension table = All (λ entry. entry.0 ≢ extension) table

abbrev pub TypeFound : Bytes → List (Bytes × Bytes) → Option Bytes → Type 0
TypeFound extension table none = IsMissing extension table
TypeFound extension table (some type) = IsListed extension table type

TypeFound-later :
    (extension dot_extension type : Bytes) (table : List (Bytes × Bytes)) (o : Option Bytes)
    → dot_extension ≢ extension
    → TypeFound extension table o
    → TypeFound extension ((dot_extension, type) ∷ table) o
TypeFound-later extension dot_extension type table none n h = (n, h)
TypeFound-later extension dot_extension type table (some t) n h = Memᴰ.tail h

pub mimetype-TypeFound :
    (table : List (Bytes × Bytes)) (extension : Bytes)
    → TypeFound extension table (mimetype table extension)
unfolding mimetype
mimetype-TypeFound [] extension = tt
mimetype-TypeFound ((dot_extension, type) ∷ table) extension =
    elim (Bool-cases (str_eq dot_extension extension)) [
      | inl e ↦
          rw e (Memᴰ.head (ap (λ x. (x, type)) (sym ((str_eq_iff dot_extension extension).0 e))))
      | inr e ↦ rw e (
          TypeFound-later extension dot_extension type table _ (differs e)
            (mimetype-TypeFound table extension))
    ]
  where
    true_not_false : true ≢ false
    true_not_false p = cc

    differs : str_eq dot_extension extension ≡ false → dot_extension ≢ extension
    differs e q = true_not_false (sym ((str_eq_iff dot_extension extension).1 q) ∙ e)
