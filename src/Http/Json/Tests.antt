-- ===== src/Http/Json/Tests.antt =====
-- Runs of the JSON texts, and their theorems at concrete inputs.
use robotica_movel.Prelude.{Bytes, ◌++◌, true, [], ◌∷◌, none, some, ◌≡◌, refl, codes}
use robotica_movel.Prelude.Int.{pos, negsuc, ◌+ℤ◌, ◌-ℤ◌}
use robotica_movel.CString.Number.{print_int}
use robotica_movel.Http.ClientTable.{ClientInfo}
use robotica_movel.Http.Json.{
  PluginInfo, program_body, clients_body, Control, output_body, InputFormat, input_body,
  json_header, resolution_items, resolution_item, menu_rounds, menu_table, menu_string, menu_items,
  menu_item,
}
use robotica_movel.Http.Json.Grammar.{
  IsJson, read_json, read_byte, at_mode, value, is_plain, IsPlainText,
}
use robotica_movel.Http.Json.WellFormed.{IsPlainPlugin, program_body-IsJson}
use robotica_movel.Http.Json.Clients.{clients_body-IsJson}
use robotica_movel.Http.Json.Menus.{IsPlainControl}
use robotica_movel.Http.Json.Outputs.{output_body-IsJson}

-- A trailing comma is no JSON, and a number has no leading 0.
trailing_comma : read_json (at_mode value []) (codes "[1,]") ≡ none
unfolding read_json read_byte
trailing_comma = refl

leading_zero : read_json (at_mode value []) (codes "[01]") ≡ none
unfolding read_json read_byte
leading_zero = refl

two_resolutions :
    resolution_items 0 (
      record { width = pos 320; height = pos 240 }
      ∷ record { width = pos 640; height = pos 480 }
      ∷ [])
    ≡ codes "\"0\": \"320x240\", \"1\": \"640x480\""
unfolding resolution_items resolution_item print_int
two_resolutions = refl

abbrev camera : PluginInfo
camera = record {
  id = pos 0;
  name = codes "UVC";
  plugin = codes "input_uvc.so";
  args = codes "-r 640x480";
}

camera-IsPlainPlugin : IsPlainPlugin camera
unfolding is_plain
camera-IsPlainPlugin = record {
  name_plain = (refl, (refl, (refl, tt)));
  plugin_plain = (
    refl,
    (refl, (refl, (refl, (refl, (refl, (refl, (refl, (refl, (refl, (refl, (refl, tt))))))))))),
  );
  args_plain = (refl, (refl, (refl, (refl, (refl, (refl, (refl, (refl, (refl, (refl, tt))))))))));
}

program_body-IsJson_example : IsJson (program_body (camera ∷ camera ∷ []) [])
program_body-IsJson_example =
    program_body-IsJson (camera ∷ camera ∷ []) [] (camera-IsPlainPlugin, (camera-IsPlainPlugin, tt))
      tt

abbrev client : ClientInfo
client = record { address = codes "::1"; tv_sec = 1700000000; tv_usec = 5 }

client-plain : IsPlainText client.address
unfolding is_plain
client-plain = (refl, (refl, (refl, tt)))

clients_body-IsJson_example : IsJson (clients_body (client ∷ client ∷ []))
clients_body-IsJson_example =
    clients_body-IsJson (client ∷ client ∷ []) (client-plain, (client-plain, tt))

-- A menu with the entries -1, 0 and 1, all called `on`.
abbrev menu : Control
menu = record {
  name = codes "LED";
  id = pos 10094851;
  type = pos 3;
  minimum = negsuc 0;
  maximum = pos 1;
  step = pos 1;
  default_value = pos 0;
  value = pos 1;
  flags = pos 0;
  group = pos 1;
  menuitems = some (λ j. codes "on");
}

menu_text : menu_string (λ s. s) menu ≡ some (codes "\"-1\": \"on\", \"0\": \"on\", \"1\": \"on\"")
unfolding menu_string menu_table menu_rounds menu_items menu_item print_int ◌+ℤ◌ ◌-ℤ◌
menu_text = refl

on_plain : IsPlainText (codes "on")
unfolding is_plain
on_plain = (refl, (refl, tt))

led_plain : IsPlainText (codes "LED")
unfolding is_plain
led_plain = (refl, (refl, (refl, tt)))

output_body-IsJson_example : IsJson (output_body (pos 3) (menu ∷ menu ∷ []))
output_body-IsJson_example =
    output_body-IsJson (pos 3) (menu ∷ menu ∷ []) (menu-IsPlainControl, (menu-IsPlainControl, tt))
  where
    menu-IsPlainControl : IsPlainControl (λ s. s) menu
    menu-IsPlainControl = record { name_plain = led_plain; menu_plain = λ j. on_plain }

abbrev mjpeg : InputFormat
mjpeg = record {
  index = pos 0;
  description = codes "LED";
  compressed = some true;
  emulated = none;
  current_resolution = pos 1;
  resolutions =
      record { width = pos 320; height = pos 240 }
      ∷ record { width = pos 640; height = pos 480 }
      ∷ [];
}

abbrev input_text : Bytes
input_text = json_header ++ input_body (pos 3) (codes "(null)") (menu ∷ []) (mjpeg ∷ mjpeg ∷ [])
