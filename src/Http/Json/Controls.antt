-- ===== src/Http/Json/Controls.antt =====
-- The controls in the JSON texts of plugins/output_http/httpd.c are JSON.
use robotica_movel.Prelude.{
  Bool, true, false, List, [], ◌∷◌, ◌++◌, refl, if◌then◌else◌, Bytes, codes, concat, All,
}
use robotica_movel.Prelude.Int.{ℤ, eqb_ℤ}
use robotica_movel.CString.Number.{print_int}
use robotica_movel.Http.Json.{
  Control, menu_string, control_fields, or_null, control_entry, control_entries,
}
use robotica_movel.Http.Json.Grammar.{
  Container, array, object, after, at_mode, read_json, read_byte, Reads, Reads-append, Reads-none,
  Reads-concat, IsPlainText, Reads-text, member, behind_members, AreMembers,
}
use robotica_movel.Http.Json.WellFormed.{element, in_text, behind_elements, print_int-IsPlainText}
use robotica_movel.Http.Json.Clients.{next_element}
use robotica_movel.Http.Json.Menus.{text_end}

control_open :
    (first : Bool) (k : List Container)
    → Reads (element first k) (codes "{\n\"name\": \"") (in_text (array ∷ k))
unfolding read_json read_byte
control_open true k = refl
control_open false k = refl

-- The keys between the values of a control.
field_keys :
    (k : List Container)
    → All
        (λ s. Reads (in_text k) (codes "\",\n\"" ++ (s ++ codes "\": \"")) (in_text k))
        (codes "id"
          ∷ codes "type"
          ∷ codes "min"
          ∷ codes "max"
          ∷ codes "step"
          ∷ codes "default"
          ∷ codes "value"
          ∷ codes "dest"
          ∷ codes "flags"
          ∷ codes "group"
          ∷ [])
unfolding read_json read_byte
field_keys k = (refl, (refl, (refl, (refl, (refl, (refl, (refl, (refl, (refl, (refl, tt))))))))))

pub int-Reads : (k : List Container) (n : ℤ) → Reads (in_text k) (print_int n) (in_text k)
int-Reads k n = Reads-text (object ∷ k) (print_int n) (print_int-IsPlainText n)

control_fields-Reads :
    (first : Bool) (k : List Container) (dest : Bytes) (c : Control)
    → IsPlainText dest
    → IsPlainText c.name
    → Reads (element first k) (control_fields dest c) (at_mode after (object ∷ array ∷ k))
unfolding control_fields
control_fields-Reads first k dest c hd hn =
    Reads-append (element first k) (in_text (array ∷ k)) (at_mode after (object ∷ array ∷ k))
      (codes "{\n\"name\": \"") _ (control_open first k)
      (Reads-append (in_text (array ∷ k)) (in_text (array ∷ k)) (at_mode after (object ∷ array ∷ k))
        (concat (pieces)) (codes "\"") (Reads-concat (in_text (array ∷ k)) pieces all_read)
        (text_end (array ∷ k)))
  where
    pieces : List Bytes
    pieces =
        c.name
        ∷ codes "\",\n\"id\": \""
        ∷ print_int c.id
        ∷ codes "\",\n\"type\": \""
        ∷ print_int c.type
        ∷ codes "\",\n\"min\": \""
        ∷ print_int c.minimum
        ∷ codes "\",\n\"max\": \""
        ∷ print_int c.maximum
        ∷ codes "\",\n\"step\": \""
        ∷ print_int c.step
        ∷ codes "\",\n\"default\": \""
        ∷ print_int c.default_value
        ∷ codes "\",\n\"value\": \""
        ∷ print_int c.value
        ∷ codes "\",\n\"dest\": \""
        ∷ dest
        ∷ codes "\",\n\"flags\": \""
        ∷ print_int c.flags
        ∷ codes "\",\n\"group\": \""
        ∷ print_int c.group
        ∷ []

    all_read : All (λ s. Reads (in_text (array ∷ k)) s (in_text (array ∷ k))) pieces
    all_read =
        let keys = field_keys (array ∷ k) in
        (
          Reads-text (object ∷ array ∷ k) c.name hn,
          (
            keys.0,
            (
              int-Reads (array ∷ k) c.id,
              (
                keys.1.0,
                (
                  int-Reads (array ∷ k) c.type,
                  (
                    keys.1.1.0,
                    (
                      int-Reads (array ∷ k) c.minimum,
                      (
                        keys.1.1.1.0,
                        (
                          int-Reads (array ∷ k) c.maximum,
                          (
                            keys.1.1.1.1.0,
                            (
                              int-Reads (array ∷ k) c.step,
                              (
                                keys.1.1.1.1.1.0,
                                (
                                  int-Reads (array ∷ k) c.default_value,
                                  (
                                    keys.1.1.1.1.1.1.0,
                                    (
                                      int-Reads (array ∷ k) c.value,
                                      (
                                        keys.1.1.1.1.1.1.1.0,
                                        (
                                          Reads-text (object ∷ array ∷ k) dest hd,
                                          (
                                            keys.1.1.1.1.1.1.1.1.0,
                                            (
                                              int-Reads (array ∷ k) c.flags,
                                              (
                                                keys.1.1.1.1.1.1.1.1.1.0,
                                                (int-Reads (array ∷ k) c.group, tt),
                                              ),
                                            ),
                                          ),
                                        ),
                                      ),
                                    ),
                                  ),
                                ),
                              ),
                            ),
                          ),
                        ),
                      ),
                    ),
                  ),
                ),
              ),
            ),
          ),
        )

menu_open :
    (k : List Container)
    → Reads (at_mode after (object ∷ k)) (codes ",\n\"menu\": {") (member true (object ∷ k))
unfolding read_json read_byte
menu_open k = refl

menu_close :
    (none_yet : Bool) (k : List Container)
    → Reads (behind_members none_yet (object ∷ k)) (codes "}\n}") (at_mode after k)
unfolding read_json read_byte
menu_close true k = refl
menu_close false k = refl

no_menu : (k : List Container) → Reads (at_mode after (object ∷ k)) (codes "\n}") (at_mode after k)
unfolding read_json read_byte
no_menu k = refl

-- What is printed of the menu of a control.
abbrev pub MenuReads : Bool → List Container → Bytes → Type 0
MenuReads true k menu = AreMembers k menu
MenuReads false k menu = Unit

module _ (menu_type : ℤ) (null_text dest : Bytes) (clean : Bytes → Bytes)
    (dest_plain : IsPlainText dest) where
  -- A control whose name is plain, and whose menu, where it is printed, holds members.
  pub record IsReadable (c : Control) : Type 0 where
    pub name_plain : IsPlainText c.name
    pub menu_reads :
        (k : List Container)
        → MenuReads (eqb_ℤ c.type menu_type) k (or_null null_text (menu_string clean c))

  tail-Reads :
      (k : List Container) (menu : Bytes) (is_menu : Bool)
      → MenuReads is_menu (object ∷ k) menu
      → Reads
          (at_mode after (object ∷ k))
          (if is_menu then codes ",\n\"menu\": {" ++ (menu ++ codes "}\n}") else codes "\n}")
          (at_mode after k)
  tail-Reads k menu false h = no_menu k
  tail-Reads k menu true (none_yet, h) =
      Reads-append (at_mode after (object ∷ k)) (member true (object ∷ k)) (at_mode after k)
        (codes ",\n\"menu\": {") _ (menu_open k)
        (Reads-append (member true (object ∷ k)) (behind_members none_yet (object ∷ k))
          (at_mode after k) menu (codes "}\n}") h (menu_close none_yet k))

  entry-Reads :
      (first : Bool) (k : List Container) (c : Control)
      → IsReadable c
      → Reads
          (element first k)
          (control_entry menu_type null_text dest clean c)
          (at_mode after (array ∷ k))
  unfolding control_entry
  entry-Reads first k c h =
      Reads-append (element first k) (at_mode after (object ∷ array ∷ k))
        (at_mode after (array ∷ k)) (control_fields dest c) _
        (control_fields-Reads first k dest c dest_plain h.name_plain)
        (tail-Reads (array ∷ k) (or_null null_text (menu_string clean c)) (eqb_ℤ c.type menu_type)
          (h.menu_reads (object ∷ array ∷ k)))

  more_entries :
      (first : Bool) (k : List Container) (c : Control) (cs : List Control)
      → All (λ d. IsReadable d) (c ∷ cs)
      → Reads
          (element first k)
          (control_entries menu_type null_text dest clean (c ∷ cs))
          (at_mode after (array ∷ k))
  unfolding control_entries
  more_entries first k c [] h = entry-Reads first k c h.0
  more_entries first k c (d ∷ cs) h =
      Reads-append (element first k) (at_mode after (array ∷ k)) (at_mode after (array ∷ k))
        (control_entry menu_type null_text dest clean c) _ (entry-Reads first k c h.0)
        (Reads-append (at_mode after (array ∷ k)) (element false k) (at_mode after (array ∷ k))
          (codes ",\n") _ (next_element k) (more_entries false k d cs h.1))

  pub entries-Reads :
      (k : List Container) (cs : List Control)
      → All (λ d. IsReadable d) cs
      → Reads
          (element true k)
          (control_entries menu_type null_text dest clean cs)
          (behind_elements cs k)
  unfolding control_entries
  entries-Reads k [] h = Reads-none (element true k)
  entries-Reads k (c ∷ cs) h = more_entries true k c cs h
