-- ===== src/Http/Json/Formats.antt =====
-- The formats in the JSON text of an input plugin of plugins/output_http/httpd.c are JSON.
use robotica_movel.Prelude.{
  ℕ, ◌+◌, ◌<◌, Bool, true, false, not, List, [], ◌∷◌, ◌++◌, Option, none, some, refl, arith,
  if◌then◌else◌, Bytes, codes, concat, All, length,
}
use robotica_movel.Prelude.Int.{ℤ, negsuc, eqb_ℤ}
use robotica_movel.CString.Number.{decimal, print_int}
use robotica_movel.Http.Json.{
  Resolution, resolution_item, resolution_items, resolutions_string, InputFormat, bool_text,
  flag_field, current_field, format_fields, format_entries, or_null,
}
use robotica_movel.Http.Json.Grammar.{
  Container, array, object, key, text, after, Reader, at_mode, read_json, read_byte, Reads,
  Reads-append, Reads-none, Reads-concat, IsPlainText, Reads-text, member,
}
use robotica_movel.Http.Json.WellFormed.{
  element, in_text, behind_elements, decimal-IsPlainText, id_open, name_key,
}
use robotica_movel.Http.Json.Controls.{int-Reads}
use robotica_movel.Http.Json.Menus.{member-Reads, next_member}

times-Reads : (k : List Container) → Reads (in_text k) (codes "x") (in_text k)
unfolding read_json read_byte
times-Reads k = refl

resolution_item-Reads :
    (first : Bool) (k : List Container) (j : ℕ) (r : Resolution)
    → Reads (member first k) (resolution_item j r) (at_mode after (object ∷ k))
unfolding resolution_item
resolution_item-Reads first k j r =
    member-Reads first k (decimal j)
      (concat (print_int r.width ∷ codes "x" ∷ print_int r.height ∷ [])) (decimal-IsPlainText j)
      (Reads-concat (in_text k) (print_int r.width ∷ codes "x" ∷ print_int r.height ∷ [])
        (int-Reads k r.width, (times-Reads k, (int-Reads k r.height, tt))))

resolution_items-Reads :
    (first : Bool) (k : List Container) (j : ℕ) (r : Resolution) (rs : List Resolution)
    → Reads (member first k) (resolution_items j (r ∷ rs)) (at_mode after (object ∷ k))
unfolding resolution_items
resolution_items-Reads first k j r [] = resolution_item-Reads first k j r
resolution_items-Reads first k j r (q ∷ rs) =
    Reads-append (member first k) (at_mode after (object ∷ k)) (at_mode after (object ∷ k))
      (resolution_item j r) _ (resolution_item-Reads first k j r)
      (Reads-append (at_mode after (object ∷ k)) (member false k) (at_mode after (object ∷ k))
        (codes ", ") _ (next_member k) (resolution_items-Reads false k (j + 1) q rs))

-- A format with a plain name and at least one resolution.
pub record IsPlainFormat (f : InputFormat) : Type 0 where
  pub description_plain : IsPlainText f.description
  pub has_resolution : 0 < length f.resolutions

resolutions-Reads :
    (k : List Container) (null_text : Bytes) (rs : List Resolution)
    → 0 < length rs
    → Reads (member true k) (or_null null_text (resolutions_string rs)) (at_mode after (object ∷ k))
unfolding resolutions_string
resolutions-Reads k null_text [] h = absurd (omega arith)
resolutions-Reads k null_text (r ∷ rs) h = resolution_items-Reads true k 0 r rs

next_key : (k : List Container) → Reads (in_text k) (codes "\",\n") (at_mode key (object ∷ k))
unfolding read_json read_byte
next_key k = refl

compressed-Reads :
    (k : List Container) (o : Option Bool)
    → Reads
        (at_mode key (object ∷ k))
        (flag_field (codes "compressed") o)
        (at_mode key (object ∷ k))
unfolding flag_field read_json read_byte
compressed-Reads k none = refl
compressed-Reads k (some true) = refl
compressed-Reads k (some false) = refl

emulated-Reads :
    (k : List Container) (o : Option Bool)
    → Reads (at_mode key (object ∷ k)) (flag_field (codes "emulated") o) (at_mode key (object ∷ k))
unfolding flag_field read_json read_byte
emulated-Reads k none = refl
emulated-Reads k (some true) = refl
emulated-Reads k (some false) = refl

current_open :
    (k : List Container) → Reads (at_mode key (object ∷ k)) (codes "\"current\": \"") (in_text k)
unfolding read_json read_byte
current_open k = refl

bool_text-Reads : (k : List Container) (b : Bool) → Reads (in_text k) (bool_text b) (in_text k)
unfolding read_json read_byte
bool_text-Reads k true = refl
bool_text-Reads k false = refl

resolutions_open :
    (k : List Container)
    → Reads (in_text k) (codes "\",\n\"resolutions\": {") (member true (object ∷ k))
unfolding read_json read_byte
resolutions_open k = refl

resolutions_close :
    (k : List Container)
    → Reads (at_mode after (object ∷ object ∷ k)) (codes "}\n") (at_mode after (object ∷ k))
unfolding read_json read_byte
resolutions_close k = refl

current_key :
    (k : List Container)
    → Reads (at_mode after (object ∷ k)) (codes ",\n\"currentResolution\": \"") (in_text k)
unfolding read_json read_byte
current_key k = refl

line_close : (k : List Container) → Reads (in_text k) (codes "\"\n") (at_mode after (object ∷ k))
unfolding read_json read_byte
line_close k = refl

current_field-Reads :
    (k : List Container) (n : ℤ)
    → Reads (at_mode after (object ∷ k)) (current_field n) (at_mode after (object ∷ k))
unfolding current_field
current_field-Reads k n = by_test (eqb_ℤ n (negsuc 0))
  where
    by_test :
        (b : Bool)
        → Reads
            (at_mode after (object ∷ k))
            (if b
              then []
              else codes ",\n\"currentResolution\": \"" ++ (print_int n ++ codes "\"\n"))
            (at_mode after (object ∷ k))
    by_test true = Reads-none (at_mode after (object ∷ k))
    by_test false =
        Reads-append (at_mode after (object ∷ k)) (in_text k) (at_mode after (object ∷ k))
          (codes ",\n\"currentResolution\": \"") _ (current_key k)
          (Reads-append (in_text k) (in_text k) (at_mode after (object ∷ k)) (print_int n) _
            (int-Reads k n) (line_close k))

format_fields-Reads :
    (first : Bool) (k : List Container) (null_text : Bytes) (f : InputFormat)
    → IsPlainFormat f
    → Reads (element first k) (format_fields null_text f) (at_mode after (object ∷ array ∷ k))
unfolding format_fields
format_fields-Reads first k null_text f h =
    Reads-append (element first k) t done (codes "{\n\"id\": \"") _ (id_open first k) (
      Reads-append t t done
        (concat (print_int f.index ∷ codes "\",\n\"name\": \"" ∷ f.description ∷ [])) _
        (Reads-concat t (print_int f.index ∷ codes "\",\n\"name\": \"" ∷ f.description ∷ []) (
          int-Reads l f.index,
          (name_key l, (Reads-text (object ∷ l) f.description h.description_plain, tt)),
        ))
        (Reads-append t (at_mode key (object ∷ l)) done (codes "\",\n") _ (next_key l) (
          Reads-append (at_mode key (object ∷ l)) (at_mode key (object ∷ l)) done
            (flag_field (codes "compressed") f.compressed) _ (compressed-Reads l f.compressed)
            (Reads-append (at_mode key (object ∷ l)) (at_mode key (object ∷ l)) done
              (flag_field (codes "emulated") f.emulated) _ (emulated-Reads l f.emulated)
              (Reads-append (at_mode key (object ∷ l)) t done (codes "\"current\": \"") _
                (current_open l)
                (Reads-append t t done (bool_text (not (eqb_ℤ f.current_resolution (negsuc 0)))) _
                  (bool_text-Reads l (not (eqb_ℤ f.current_resolution (negsuc 0))))
                  (Reads-append t (member true (object ∷ l)) done (codes "\",\n\"resolutions\": {")
                    _ (resolutions_open l)
                    (Reads-append (member true (object ∷ l)) (at_mode after (object ∷ object ∷ l))
                      done (or_null null_text (resolutions_string f.resolutions)) _
                      (resolutions-Reads (object ∷ l) null_text f.resolutions h.has_resolution)
                      (Reads-append (at_mode after (object ∷ object ∷ l)) done done (codes "}\n") _
                        (resolutions_close l) (current_field-Reads l f.current_resolution))))))))))
  where
    l : List Container
    l = array ∷ k

    t : Reader
    t = at_mode text (object ∷ array ∷ k)

    done : Reader
    done = at_mode after (object ∷ array ∷ k)

last_format :
    (k : List Container)
    → Reads (at_mode after (object ∷ array ∷ k)) (codes "}\n") (at_mode after (array ∷ k))
unfolding read_json read_byte
last_format k = refl

next_format :
    (k : List Container)
    → Reads (at_mode after (object ∷ array ∷ k)) (codes "},\n") (element false k)
unfolding read_json read_byte
next_format k = refl

more_formats-Reads :
    (first : Bool) (k : List Container) (null_text : Bytes) (f : InputFormat)
    (fs : List InputFormat)
    → All (λ g. IsPlainFormat g) (f ∷ fs)
    → Reads (element first k) (format_entries null_text (f ∷ fs)) (at_mode after (array ∷ k))
unfolding format_entries
more_formats-Reads first k null_text f [] h =
    Reads-append (element first k) (at_mode after (object ∷ array ∷ k)) (at_mode after (array ∷ k))
      (format_fields null_text f) _ (format_fields-Reads first k null_text f h.0) (last_format k)
more_formats-Reads first k null_text f (g ∷ fs) h =
    Reads-append (element first k) (at_mode after (object ∷ array ∷ k)) (at_mode after (array ∷ k))
      (format_fields null_text f) _ (format_fields-Reads first k null_text f h.0)
      (Reads-append (at_mode after (object ∷ array ∷ k)) (element false k)
        (at_mode after (array ∷ k)) (codes "},\n") _ (next_format k)
        (more_formats-Reads false k null_text g fs h.1))

pub formats-Reads :
    (k : List Container) (null_text : Bytes) (fs : List InputFormat)
    → All (λ g. IsPlainFormat g) fs
    → Reads (element true k) (format_entries null_text fs) (behind_elements fs k)
unfolding format_entries
formats-Reads k null_text [] h = Reads-none (element true k)
formats-Reads k null_text (f ∷ fs) h = more_formats-Reads true k null_text f fs h
