-- ===== src/Http/Json.antt =====
-- The JSON texts of plugins/output_http/httpd.c: `send_program_JSON`, `send_input_JSON`,
-- `send_output_JSON`, `send_clients_JSON` and `check_JSON_string`, as the text that they put together,
-- where it fits into `buffer`. The number V4L2_CTRL_TYPE_MENU, and what `%s` prints for NULL, are
-- arguments.
pub mod Grammar
pub mod WellFormed
pub mod Clients
pub mod Menus
pub mod Controls
pub mod Outputs
pub mod Formats
pub mod Inputs
mod Tests
use robotica_movel.Prelude.{
  ℕ, zero, suc, ◌+◌, ◌*◌, ltb, length, Bool, not, ◌&&◌, List, [], ◌∷◌, ◌++◌, map, Option, none,
  some, ◌==◌, leb, if◌then◌else◌, Bytes, codes, concat,
}
use robotica_movel.Prelude.Int.{ℤ, pos, negsuc, ◌+ℤ◌, ◌-ℤ◌, eqb_ℤ}
use robotica_movel.CString.Number.{decimal, print_int}
use robotica_movel.Http.Stream.{std_header}
use robotica_movel.Http.ClientTable.{ClientInfo}

abbrev pub json_header : Bytes
json_header =
    codes "HTTP/1.0 200 OK\r\nContent-type: application/x-javascript\r\n"
    ++ (std_header ++ codes "\r\n")

-- What `send_program_JSON` prints of a plugin.
pub record PluginInfo : Type 0 where
  pub id : ℤ
  pub name : Bytes
  pub plugin : Bytes
  pub args : Bytes

unfoldable pub plugin_entry : PluginInfo → Bytes
plugin_entry p =
    codes "{\n\"id\": \""
    ++ (concat (
          print_int p.id
          ∷ codes "\",\n\"name\": \""
          ∷ p.name
          ∷ codes "\",\n\"plugin\": \""
          ∷ p.plugin
          ∷ codes "\",\n\"args\": \""
          ∷ p.args
          ∷ [])
        ++ codes "\"\n}")

-- The loop over the plugins.
unfoldable pub plugin_entries : List PluginInfo → Bytes
plugin_entries [] = []
plugin_entries (p ∷ []) = plugin_entry p ++ codes "\n"
plugin_entries (p ∷ q ∷ ps) = plugin_entry p ++ (codes ", \n" ++ plugin_entries (q ∷ ps))

-- What follows the header.
unfoldable pub program_body : List PluginInfo → List PluginInfo → Bytes
program_body inputs outputs =
    codes "{\n\"inputs\":[\n"
    ++ (plugin_entries inputs
        ++ (codes "],\n" ++ (codes "\"outputs\":[\n" ++ (plugin_entries outputs ++ codes "]}\n"))))

-- `buffer`; none where a call of `sprintf` goes over its end.
abbrev pub json_buffer : ℕ
json_buffer = 1024 * 16

abbrev pub in_buffer : Bytes → Option Bytes
in_buffer s = if ltb (length s) json_buffer then some s else none

unfoldable pub send_program_json : List PluginInfo → List PluginInfo → Option Bytes
send_program_json inputs outputs = in_buffer (json_header ++ program_body inputs outputs)

unfoldable pub client_entry : ClientInfo → Bytes
client_entry c =
    codes "{\n\"address\": \""
    ++ (c.address ++ (codes "\",\n\"timestamp\": " ++ (decimal c.tv_sec ++ codes "\n}\n")))

unfoldable pub client_entries : List ClientInfo → Bytes
client_entries [] = []
client_entries (c ∷ []) = client_entry c
client_entries (c ∷ d ∷ cs) = client_entry c ++ (codes ",\n" ++ client_entries (d ∷ cs))

unfoldable pub clients_body : List ClientInfo → Bytes
clients_body clients =
    codes "{\n\"clients\": [\n" ++ (client_entries clients ++ (codes "]" ++ codes "\n}\n"))

unfoldable pub send_clients_json : List ClientInfo → Option Bytes
send_clients_json clients = in_buffer (json_header ++ clients_body clients)

-- `isprint`, in the C locale
unfoldable pub is_print : ℕ → Bool
is_print c = leb 32 c && leb c 126

-- `check_JSON_string`
unfoldable pub check_json_string : Bytes → Bytes
check_json_string source = map (λ c. if is_print c then c else b' ') source

-- `control`, less what is not printed; `item_name j` is `menuitems[j].name`.
pub record Control : Type 0 where
  pub name : Bytes
  pub id : ℤ
  pub type : ℤ
  pub minimum : ℤ
  pub maximum : ℤ
  pub step : ℤ
  pub default_value : ℤ
  pub value : ℤ
  pub flags : ℤ
  pub group : ℤ
  pub menuitems : Option (ℤ → Bytes)

-- The number of rounds of the loop from `minimum` to `maximum`.
abbrev pub rounds : ℤ → ℕ
rounds (pos n) = suc n
rounds (negsuc n) = zero

unfoldable pub menu_item : ℤ → Bytes → Bytes
menu_item j name = codes "\"" ++ (print_int j ++ (codes "\": \"" ++ (name ++ codes "\"")))

-- The loop, with the number of rounds left; in the last one `j` is the maximum.
unfoldable pub menu_items : ℕ → ℤ → (ℤ → Bytes) → Bytes
menu_items zero j item_name = []
menu_items (suc zero) j item_name = menu_item j (item_name j)
menu_items (suc (suc n)) j item_name =
    menu_item j (item_name j) ++ (codes ", " ++ menu_items (suc n) (j +ℤ pos 1) item_name)

-- `menuString`; it is NULL before the first round.
unfoldable pub menu_rounds : ℕ → ℤ → (ℤ → Bytes) → Option Bytes
menu_rounds zero minimum item_name = none
menu_rounds (suc n) minimum item_name = some (menu_items (suc n) minimum item_name)

unfoldable pub menu_table : (Bytes → Bytes) → Control → Option (ℤ → Bytes) → Option Bytes
menu_table clean c none = none
menu_table clean c (some item_name) =
    menu_rounds (rounds (c.maximum -ℤ c.minimum)) c.minimum (λ j. clean (item_name j))

unfoldable pub menu_string : (Bytes → Bytes) → Control → Option Bytes
menu_string clean c = menu_table clean c c.menuitems

-- The fields that every control has; `dest` is 0 for an input plugin, 1 for an output plugin.
unfoldable pub control_fields : Bytes → Control → Bytes
control_fields dest c =
    codes "{\n\"name\": \""
    ++ (concat (
          c.name
          ∷ codes "\",\n\"id\": \""
          ∷ print_int c.id
          ∷ codes "\",\n\"type\": \""
          ∷ print_int c.type
          ∷ codes "\",\n\"min\": \""
          ∷ print_int c.minimum
          ∷ codes "\",\n\"max\": \""
          ∷ print_int c.maximum
          ∷ codes "\",\n\"step\": \""
          ∷ print_int c.step
          ∷ codes "\",\n\"default\": \""
          ∷ print_int c.default_value
          ∷ codes "\",\n\"value\": \""
          ∷ print_int c.value
          ∷ codes "\",\n\"dest\": \""
          ∷ dest
          ∷ codes "\",\n\"flags\": \""
          ∷ print_int c.flags
          ∷ codes "\",\n\"group\": \""
          ∷ print_int c.group
          ∷ [])
        ++ codes "\"")

abbrev pub or_null : Bytes → Option Bytes → Bytes
or_null null_text none = null_text
or_null null_text (some s) = s

unfoldable pub control_entry : ℤ → Bytes → Bytes → (Bytes → Bytes) → Control → Bytes
control_entry menu_type null_text dest clean c =
    control_fields dest c
    ++ (if eqb_ℤ c.type menu_type
        then codes ",\n\"menu\": {" ++ (or_null null_text (menu_string clean c) ++ codes "}\n}")
        else codes "\n}")

-- The loop over the controls.
unfoldable pub control_entries : ℤ → Bytes → Bytes → (Bytes → Bytes) → List Control → Bytes
control_entries menu_type null_text dest clean [] = []
control_entries menu_type null_text dest clean (c ∷ []) =
    control_entry menu_type null_text dest clean c
control_entries menu_type null_text dest clean (c ∷ d ∷ cs) =
    control_entry menu_type null_text dest clean c
    ++ (codes ",\n" ++ control_entries menu_type null_text dest clean (d ∷ cs))

-- `input_resolution`
pub record Resolution : Type 0 where
  pub width : ℤ
  pub height : ℤ

-- `input_format`. `current_resolution` is the value of the `char`; a flag is there if the macro of
-- its name is defined.
pub record InputFormat : Type 0 where
  pub index : ℤ
  pub description : Bytes
  pub compressed : Option Bool
  pub emulated : Option Bool
  pub current_resolution : ℤ
  pub resolutions : List Resolution

unfoldable pub resolution_item : ℕ → Resolution → Bytes
resolution_item j r =
    codes "\""
    ++ (decimal j
        ++ (codes "\": \""
            ++ (concat (print_int r.width ∷ codes "x" ∷ print_int r.height ∷ []) ++ codes "\"")))

-- The loop over the resolutions, from the index `j` on.
unfoldable pub resolution_items : ℕ → List Resolution → Bytes
resolution_items j [] = []
resolution_items j (r ∷ []) = resolution_item j r
resolution_items j (r ∷ q ∷ rs) =
    resolution_item j r ++ (codes ", " ++ resolution_items (j + 1) (q ∷ rs))

-- `resolutionsString`; it is NULL before the first round.
unfoldable pub resolutions_string : List Resolution → Option Bytes
resolutions_string [] = none
resolutions_string (r ∷ rs) = some (resolution_items 0 (r ∷ rs))

abbrev pub bool_text : Bool → Bytes
bool_text b = if b then codes "true" else codes "false"

unfoldable pub flag_field : Bytes → Option Bool → Bytes
flag_field name none = []
flag_field name (some b) =
    codes "\"" ++ (name ++ (codes "\": \"" ++ (bool_text b ++ codes "\",\n")))

unfoldable pub current_field : ℤ → Bytes
current_field n =
    if eqb_ℤ n (negsuc 0)
    then []
    else codes ",\n\"currentResolution\": \"" ++ (print_int n ++ codes "\"\n")

-- An element of `formats`, less its last bracket.
unfoldable pub format_fields : Bytes → InputFormat → Bytes
format_fields null_text f =
    codes "{\n\"id\": \""
    ++ (concat (print_int f.index ∷ codes "\",\n\"name\": \"" ∷ f.description ∷ [])
        ++ (codes "\",\n"
            ++ (flag_field (codes "compressed") f.compressed
                ++ (flag_field (codes "emulated") f.emulated
                    ++ (codes "\"current\": \""
                        ++ (bool_text (not (eqb_ℤ f.current_resolution (negsuc 0)))
                            ++ (codes "\",\n\"resolutions\": {"
                                ++ (or_null null_text (resolutions_string f.resolutions)
                                    ++ (codes "}\n" ++ current_field f.current_resolution)))))))))

unfoldable pub format_entries : Bytes → List InputFormat → Bytes
format_entries null_text [] = []
format_entries null_text (f ∷ []) = format_fields null_text f ++ codes "}\n"
format_entries null_text (f ∷ g ∷ fs) =
    format_fields null_text f ++ (codes "},\n" ++ format_entries null_text (g ∷ fs))

-- `send_input_JSON`; a NULL table of controls or of formats is the empty list.
unfoldable pub input_body : ℤ → Bytes → List Control → List InputFormat → Bytes
input_body menu_type null_text controls formats =
    codes "{\n\"controls\": [\n"
    ++ (control_entries menu_type null_text (codes "0") check_json_string controls
        ++ (codes "\n],\n"
            ++ (codes "\"formats\": [\n"
                ++ (format_entries null_text formats ++ codes "\n]\n}\n"))))

unfoldable pub send_input_json : ℤ → Bytes → List Control → List InputFormat → Option Bytes
send_input_json menu_type null_text controls formats =
    in_buffer (json_header ++ input_body menu_type null_text controls formats)

-- `send_output_JSON`, whose `menuString` is allocated and empty at first, and whose menu texts are
-- not cleaned.
unfoldable pub output_body : ℤ → List Control → Bytes
output_body menu_type controls =
    codes "{\n\"controls\": [\n"
    ++ (control_entries menu_type [] (codes "1") (λ s. s) controls
        ++ (codes "\n]\n" ++ codes "}\n"))

unfoldable pub send_output_json : ℤ → List Control → Option Bytes
send_output_json menu_type controls = in_buffer (json_header ++ output_body menu_type controls)
