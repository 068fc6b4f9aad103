-- ===== src/Http/CommandTests.antt =====
-- Runs of `command`, `send_error` and the table of clients, and their theorems at concrete inputs.
use robotica_movel.Prelude.{
  none, List, [], ◌∷◌, true, take, ◌<◌, some, ◌≡◌, refl, arith, codes, length,
}
use robotica_movel.Prelude.Int.{pos, negsuc}
use robotica_movel.CString.{strstr, span}
use robotica_movel.CString.Number.{strtol_int}
use robotica_movel.Http.ClientTable.{
  ClientInfo, AreUnique, add_client, add_client_lem, check_client_status, index_of,
}
use robotica_movel.Http.Response.{send_error, http_buffer, send_error_fits}
use robotica_movel.Http.Command.{
  bad_parameter, command, performed, to_input, ResultFits, command_fits,
}

-- A negative plugin number reaches the table, and the text that the plugin gets is what follows
-- `plugin=`.
negative_plugin :
    command 1 1 (some (codes "&id=5&value=-7&plugin=-1"))
    ≡ performed
        (to_input record {
          plugin_no = negsuc 0;
          command_id = pos 5;
          group = pos 0;
          ivalue = negsuc 6;
          text = some (codes "-1");
        })
        (codes "5")
unfolding command strstr span strtol_int
negative_plugin = refl

command_fits_example :
    (command 1 1 none ≡ bad_parameter)
    × ResultFits 1 1
        (codes "&id=5&value=-7&plugin=-1")
        (command 1 1 (some (codes "&id=5&value=-7&plugin=-1")))
command_fits_example = command_fits 1 1 (codes "&id=5&value=-7&plugin=-1")

send_error_fits_example : length (send_error 404 (codes "Could not open file")) < http_buffer
send_error_fits_example = send_error_fits 404 (codes "Could not open file") (omega arith)

abbrev one_client : List ClientInfo
one_client = record { address = codes "10.0.0.1"; tv_sec = 7; tv_usec = 0 } ∷ []

-- 300 milliseconds after its last picture.
cheats : check_client_status 7 300000 (record { address = []; tv_sec = 7; tv_usec = 0 }) ≡ true
unfolding check_client_status
cheats = refl

add_client_lem_example :
    AreUnique (add_client (codes "10.0.0.2") one_client).0
    × (take (length one_client) (add_client (codes "10.0.0.2") one_client).0 ≡ one_client)
    × (add_client (codes "10.0.0.2") (add_client (codes "10.0.0.2") one_client).0
        ≡ add_client (codes "10.0.0.2") one_client)
add_client_lem_example =
    add_client_lem (codes "10.0.0.2") one_client (unfold index_of in (refl, tt))
