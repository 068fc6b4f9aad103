-- ===== src/Http/Json/Menus.antt =====
-- The menus of controls in the JSON texts of plugins/output_http/httpd.c are JSON.
use robotica_movel.Prelude.{
  ℕ, zero, suc, Bool, true, false, List, ◌∷◌, ◌++◌, Option, none, some, refl, Bytes, codes,
}
use robotica_movel.Prelude.Int.{ℤ, pos, ◌+ℤ◌, ◌-ℤ◌}
use robotica_movel.CString.Number.{print_int}
use robotica_movel.Http.Json.{
  Control, rounds, menu_item, menu_items, menu_rounds, menu_table, menu_string, or_null,
}
use robotica_movel.Http.Json.Grammar.{
  Container, object, key_text, after, at_mode, read_json, read_byte, Reads, Reads-append,
  IsPlainText, Reads-text, Reads-key_text, member, AreMembers,
}
use robotica_movel.Http.Json.WellFormed.{in_text, print_int-IsPlainText}

member_open :
    (first : Bool) (k : List Container)
    → Reads (member first k) (codes "\"") (at_mode key_text (object ∷ k))
unfolding read_json read_byte
member_open true k = refl
member_open false k = refl

key_close :
    (k : List Container) → Reads (at_mode key_text (object ∷ k)) (codes "\": \"") (in_text k)
unfolding read_json read_byte
key_close k = refl

pub text_end : (k : List Container) → Reads (in_text k) (codes "\"") (at_mode after (object ∷ k))
unfolding read_json read_byte
text_end k = refl

-- A member whose key and value are texts.
pub member-Reads :
    (first : Bool) (k : List Container) (name s : Bytes)
    → IsPlainText name
    → Reads (in_text k) s (in_text k)
    → Reads
        (member first k)
        (codes "\"" ++ (name ++ (codes "\": \"" ++ (s ++ codes "\""))))
        (at_mode after (object ∷ k))
member-Reads first k name s hn hs =
    Reads-append (member first k) (at_mode key_text (object ∷ k)) (at_mode after (object ∷ k))
      (codes "\"") _ (member_open first k)
      (Reads-append (at_mode key_text (object ∷ k)) (at_mode key_text (object ∷ k))
        (at_mode after (object ∷ k)) name _ (Reads-key_text (object ∷ k) name hn)
        (Reads-append (at_mode key_text (object ∷ k)) (in_text k) (at_mode after (object ∷ k))
          (codes "\": \"") _ (key_close k)
          (Reads-append (in_text k) (in_text k) (at_mode after (object ∷ k)) s _ hs (text_end k))))

pub next_member :
    (k : List Container) → Reads (at_mode after (object ∷ k)) (codes ", ") (member false k)
unfolding read_json read_byte
next_member k = refl

pub menu_items-Reads :
    (first : Bool) (k : List Container) (n : ℕ) (j : ℤ) (item_name : ℤ → Bytes)
    → ((i : ℤ) → IsPlainText (item_name i))
    → Reads (member first k) (menu_items (suc n) j item_name) (at_mode after (object ∷ k))
unfolding menu_items menu_item
menu_items-Reads first k zero j item_name h =
    member-Reads first k (print_int j) (item_name j) (print_int-IsPlainText j)
      (Reads-text (object ∷ k) (item_name j) (h j))
menu_items-Reads first k (suc n) j item_name h =
    Reads-append (member first k) (at_mode after (object ∷ k)) (at_mode after (object ∷ k))
      (menu_item j (item_name j)) _
      (member-Reads first k (print_int j) (item_name j) (print_int-IsPlainText j)
        (Reads-text (object ∷ k) (item_name j) (h j)))
      (Reads-append (at_mode after (object ∷ k)) (member false k) (at_mode after (object ∷ k))
        (codes ", ") _ (next_member k) (menu_items-Reads false k n (j +ℤ pos 1) item_name h))

-- The names of a menu, if the control has one.
abbrev pub MenuIsPlain : (Bytes → Bytes) → Option (ℤ → Bytes) → Type 0
MenuIsPlain clean none = Unit
MenuIsPlain clean (some item_name) = (j : ℤ) → IsPlainText (clean (item_name j))

pub record IsPlainControl (clean : Bytes → Bytes) (c : Control) : Type 0 where
  pub name_plain : IsPlainText c.name
  pub menu_plain : MenuIsPlain clean c.menuitems

menu_rounds-AreMembers :
    (k : List Container) (null_text : Bytes) (n : ℕ) (minimum : ℤ) (item_name : ℤ → Bytes)
    → AreMembers k null_text
    → ((j : ℤ) → IsPlainText (item_name j))
    → AreMembers k (or_null null_text (menu_rounds n minimum item_name))
unfolding menu_rounds
menu_rounds-AreMembers k null_text zero minimum item_name hn h = hn
menu_rounds-AreMembers k null_text (suc n) minimum item_name hn h =
    (false, menu_items-Reads true k n minimum item_name h)

menu_table-AreMembers :
    (k : List Container) (null_text : Bytes) (clean : Bytes → Bytes) (c : Control)
    (o : Option (ℤ → Bytes))
    → AreMembers k null_text
    → MenuIsPlain clean o
    → AreMembers k (or_null null_text (menu_table clean c o))
unfolding menu_table
menu_table-AreMembers k null_text clean c none hn h = hn
menu_table-AreMembers k null_text clean c (some item_name) hn h =
    menu_rounds-AreMembers k null_text (rounds (c.maximum -ℤ c.minimum)) c.minimum
      (λ j. clean (item_name j)) hn h

pub menu_string-AreMembers :
    (k : List Container) (null_text : Bytes) (clean : Bytes → Bytes) (c : Control)
    → AreMembers k null_text
    → MenuIsPlain clean c.menuitems
    → AreMembers k (or_null null_text (menu_string clean c))
unfolding menu_string
menu_string-AreMembers k null_text clean c hn h =
    menu_table-AreMembers k null_text clean c c.menuitems hn h
