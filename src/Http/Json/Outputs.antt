-- ===== src/Http/Json/Outputs.antt =====
-- The JSON text of an output plugin of plugins/output_http/httpd.c is JSON.
use robotica_movel.Prelude.{Bool, true, false, List, [], ◌∷◌, refl, Bytes, codes, All}
use robotica_movel.Prelude.Int.{ℤ, eqb_ℤ}
use robotica_movel.Http.Json.{Control, menu_string, or_null, control_entries, output_body}
use robotica_movel.Http.Json.Grammar.{
  Container, object, value, after, at_mode, is_plain, read_json, read_byte, Reads, IsJson,
  Reads-append, Reads-none, IsPlainText, member, AreMembers,
}
use robotica_movel.Http.Json.WellFormed.{element, behind_elements}
use robotica_movel.Http.Json.Controls.{MenuReads, IsReadable, entries-Reads}
use robotica_movel.Http.Json.Menus.{IsPlainControl, menu_string-AreMembers}

pub controls_open :
    Reads (at_mode value []) (codes "{\n\"controls\": [\n") (element true (object ∷ []))
unfolding read_json read_byte
controls_open = refl

controls_close :
    (cs : List Control)
    → Reads (behind_elements cs (object ∷ [])) (codes "\n]\n}\n") (at_mode after [])
unfolding read_json read_byte
controls_close [] = refl
controls_close (c ∷ cs) = refl

dest_plain : IsPlainText (codes "1")
unfolding is_plain
dest_plain = (refl, tt)

if_menu : (b : Bool) (k : List Container) (menu : Bytes) → AreMembers k menu → MenuReads b k menu
if_menu true k menu h = h
if_menu false k menu h = tt

plain-IsReadable :
    (menu_type : ℤ) (c : Control)
    → IsPlainControl (λ s. s) c
    → IsReadable menu_type [] (codes "1") (λ s. s) dest_plain c
plain-IsReadable menu_type c h = record {
  name_plain = h.name_plain;
  menu_reads = λ k.
      if_menu (eqb_ℤ c.type menu_type) k (or_null [] (menu_string (λ s. s) c))
        (menu_string-AreMembers k [] (λ s. s) c (true, Reads-none (member true k)) h.menu_plain);
}

plain-AreReadable :
    (menu_type : ℤ) (cs : List Control)
    → All (λ c. IsPlainControl (λ s. s) c) cs
    → All (λ c. IsReadable menu_type [] (codes "1") (λ s. s) dest_plain c) cs
plain-AreReadable menu_type [] h = tt
plain-AreReadable menu_type (c ∷ cs) h =
    (plain-IsReadable menu_type c h.0, plain-AreReadable menu_type cs h.1)

-- When the names of the controls and of the entries of their menus hold no quote, no backslash and no
-- control character, what `send_output_JSON` writes behind the header is one JSON value, for any
-- number of controls, with or without menus.
pub output_body-IsJson :
    (menu_type : ℤ) (controls : List Control)
    → All (λ c. IsPlainControl (λ s. s) c) controls
    → IsJson (output_body menu_type controls)
unfolding output_body
output_body-IsJson menu_type controls h =
    Reads-append (at_mode value []) (element true (object ∷ [])) (at_mode after [])
      (codes "{\n\"controls\": [\n") _ controls_open
      (Reads-append (element true (object ∷ [])) (behind_elements controls (object ∷ []))
        (at_mode after []) (control_entries menu_type [] (codes "1") (λ s. s) controls) _
        (entries-Reads menu_type [] (codes "1") (λ s. s) dest_plain (object ∷ []) controls
          (plain-AreReadable menu_type controls h))
        (controls_close controls))
