-- ===== src/Http/Json/Inputs.antt =====
-- The JSON text of an input plugin of plugins/output_http/httpd.c is JSON.
use robotica_movel.Prelude.{ℕ, Bool, true, false, ◌||◌, [], ◌∷◌, some, ◌≡◌, arith, ◌==◌, Bytes, All}
use robotica_movel.Prelude.Int.{ℤ, ◌≤ℤ◌, eqb_ℤ}
use robotica_movel.Http.Json.{Control, is_print, check_json_string}
use robotica_movel.Http.Json.Grammar.{is_plain, IsPlainText}

abbrev pub is_quote : ℕ → Bool
is_quote c = c == b'"' || c == b'\\'

-- Whatever a text holds besides quotes and backslashes, `check_JSON_string` makes it plain.
pub check_json_string-IsPlainText :
    (s : Bytes) → All (λ c. is_quote c ≡ false) s → IsPlainText (check_json_string s)
unfolding check_json_string is_print is_plain
check_json_string-IsPlainText [] h = tt
check_json_string-IsPlainText (c ∷ s) h = (ground (arith, h.0), check_json_string-IsPlainText s h.1)

-- A menu that is printed has entries, without quotes and backslashes.
pub record HasMenu (c : Control) : Type 0 where
  pub item_name : ℤ → Bytes
  pub there : c.menuitems ≡ some item_name
  pub in_order : c.minimum ≤ℤ c.maximum
  pub names_plain : (j : ℤ) → All (λ x. is_quote x ≡ false) (item_name j)

abbrev pub MenuPrints : Bool → Control → Type 0
MenuPrints true c = HasMenu c
MenuPrints false c = Unit

-- A control whose name is plain, and whose menu, if its type is the menu's, can be printed.
pub record IsPrintable (menu_type : ℤ) (c : Control) : Type 0 where
  pub name_plain : IsPlainText c.name
  pub menu_prints : MenuPrints (eqb_ℤ c.type menu_type) c
