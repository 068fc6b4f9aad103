-- ===== src/Http/Json/WellFormed.antt =====
-- The JSON texts of plugins/output_http/httpd.c are JSON: the lists of plugins and of clients.
use robotica_movel.Prelude.{
  ℕ, suc, Bool, true, false, List, [], ◌∷◌, ◌++◌, ◌≡◌, refl, arith, Bytes, codes, concat, All,
}
use robotica_movel.Prelude.Int.{ℤ, pos, negsuc}
use robotica_movel.CString.Number.{decimal, print_int}
use robotica_movel.CString.Digits.{IsDigit, decimal-All}
use robotica_movel.Http.Json.{PluginInfo, plugin_entry, plugin_entries, program_body}
use robotica_movel.Http.Json.Grammar.{
  Container, array, object, value, first_value, text, after, Reader, at_mode, is_plain, read_json,
  read_byte, Reads, IsJson, Reads-append, Reads-none, Reads-concat, IsPlainText, Reads-text,
}

digit-is_plain : (c : ℕ) → IsDigit c → is_plain c ≡ true
unfolding is_plain
digit-is_plain c h = ground arith

digits-IsPlainText : (s : Bytes) → All IsDigit s → IsPlainText s
digits-IsPlainText [] h = tt
digits-IsPlainText (c ∷ s) h = (digit-is_plain c h.0, digits-IsPlainText s h.1)

pub decimal-IsPlainText : (n : ℕ) → IsPlainText (decimal n)
decimal-IsPlainText n = digits-IsPlainText (decimal n) (decimal-All n)

pub print_int-IsPlainText : (n : ℤ) → IsPlainText (print_int n)
unfolding print_int is_plain
print_int-IsPlainText (pos n) = decimal-IsPlainText n
print_int-IsPlainText (negsuc n) = (refl, decimal-IsPlainText (suc n))

-- The two states before an element of an array.
abbrev pub element : Bool → List Container → Reader
element true k = at_mode first_value (array ∷ k)
element false k = at_mode value (array ∷ k)

abbrev pub in_text : List Container → Reader
in_text k = at_mode text (object ∷ k)

pub record IsPlainPlugin (p : PluginInfo) : Type 0 where
  pub name_plain : IsPlainText p.name
  pub plugin_plain : IsPlainText p.plugin
  pub args_plain : IsPlainText p.args

abbrev plugin_fields : PluginInfo → List Bytes
plugin_fields p =
    print_int p.id
    ∷ codes "\",\n\"name\": \""
    ∷ p.name
    ∷ codes "\",\n\"plugin\": \""
    ∷ p.plugin
    ∷ codes "\",\n\"args\": \""
    ∷ p.args
    ∷ []

pub name_key : (k : List Container) → Reads (in_text k) (codes "\",\n\"name\": \"") (in_text k)
unfolding read_json read_byte
name_key k = refl

plugin_key : (k : List Container) → Reads (in_text k) (codes "\",\n\"plugin\": \"") (in_text k)
unfolding read_json read_byte
plugin_key k = refl

args_key : (k : List Container) → Reads (in_text k) (codes "\",\n\"args\": \"") (in_text k)
unfolding read_json read_byte
args_key k = refl

pub id_open :
    (first : Bool) (k : List Container)
    → Reads (element first k) (codes "{\n\"id\": \"") (in_text (array ∷ k))
unfolding read_json read_byte
id_open true k = refl
id_open false k = refl

text_close : (k : List Container) → Reads (in_text k) (codes "\"\n}") (at_mode after k)
unfolding read_json read_byte
text_close k = refl

plugin_entry-Reads :
    (first : Bool) (k : List Container) (p : PluginInfo)
    → IsPlainPlugin p
    → Reads (element first k) (plugin_entry p) (at_mode after (array ∷ k))
unfolding plugin_entry
plugin_entry-Reads first k p h =
    Reads-append (element first k) (in_text (array ∷ k)) (at_mode after (array ∷ k))
      (codes "{\n\"id\": \"") (concat (plugin_fields p) ++ codes "\"\n}") (id_open first k)
      (Reads-append (in_text (array ∷ k)) (in_text (array ∷ k)) (at_mode after (array ∷ k))
        (concat (plugin_fields p)) (codes "\"\n}")
        (Reads-concat (in_text (array ∷ k)) (plugin_fields p) (
          Reads-text (object ∷ array ∷ k) (print_int p.id) (print_int-IsPlainText p.id),
          (
            name_key (array ∷ k),
            (
              Reads-text (object ∷ array ∷ k) p.name h.name_plain,
              (
                plugin_key (array ∷ k),
                (
                  Reads-text (object ∷ array ∷ k) p.plugin h.plugin_plain,
                  (args_key (array ∷ k), (Reads-text (object ∷ array ∷ k) p.args h.args_plain, tt)),
                ),
              ),
            ),
          ),
        ))
        (text_close (array ∷ k)))

-- The state behind the elements: the first one still, if there are none.
abbrev pub behind_elements {ℓ} : {A : Type ℓ} → List A → List Container → Reader
behind_elements [] k = element true k
behind_elements (x ∷ xs) k = at_mode after (array ∷ k)

next_line :
    (k : List Container) → Reads (at_mode after (array ∷ k)) (codes ", \n") (element false k)
unfolding read_json read_byte
next_line k = refl

last_line :
    (k : List Container)
    → Reads (at_mode after (array ∷ k)) (codes "\n") (at_mode after (array ∷ k))
unfolding read_json read_byte
last_line k = refl

more_plugins-Reads :
    (first : Bool) (k : List Container) (p : PluginInfo) (ps : List PluginInfo)
    → All (λ q. IsPlainPlugin q) (p ∷ ps)
    → Reads (element first k) (plugin_entries (p ∷ ps)) (at_mode after (array ∷ k))
unfolding plugin_entries
more_plugins-Reads first k p [] h =
    Reads-append (element first k) (at_mode after (array ∷ k)) (at_mode after (array ∷ k))
      (plugin_entry p) (codes "\n") (plugin_entry-Reads first k p h.0) (last_line k)
more_plugins-Reads first k p (q ∷ ps) h =
    Reads-append (element first k) (at_mode after (array ∷ k)) (at_mode after (array ∷ k))
      (plugin_entry p) (codes ", \n" ++ plugin_entries (q ∷ ps)) (plugin_entry-Reads first k p h.0)
      (Reads-append (at_mode after (array ∷ k)) (element false k) (at_mode after (array ∷ k))
        (codes ", \n") (plugin_entries (q ∷ ps)) (next_line k)
        (more_plugins-Reads false k q ps h.1))

plugins-Reads :
    (k : List Container) (ps : List PluginInfo)
    → All (λ q. IsPlainPlugin q) ps
    → Reads (element true k) (plugin_entries ps) (behind_elements ps k)
unfolding plugin_entries
plugins-Reads k [] h = Reads-none (element true k)
plugins-Reads k (p ∷ ps) h = more_plugins-Reads true k p ps h

inputs_open : Reads (at_mode value []) (codes "{\n\"inputs\":[\n") (element true (object ∷ []))
unfolding read_json read_byte
inputs_open = refl

outputs_open :
    (ps : List PluginInfo)
    → Reads
        (behind_elements ps (object ∷ []))
        (codes "],\n\"outputs\":[\n")
        (element true (object ∷ []))
unfolding read_json read_byte
outputs_open [] = refl
outputs_open (p ∷ ps) = refl

outputs_close :
    (ps : List PluginInfo)
    → Reads (behind_elements ps (object ∷ [])) (codes "]}\n") (at_mode after [])
unfolding read_json read_byte
outputs_close [] = refl
outputs_close (p ∷ ps) = refl

-- When the names, files and arguments of the plugins hold no quote, no backslash and no control
-- character, what `send_program_JSON` writes behind the header is one JSON value, for any number of
-- input and output plugins.
pub program_body-IsJson :
    (inputs outputs : List PluginInfo)
    → All (λ q. IsPlainPlugin q) inputs
    → All (λ q. IsPlainPlugin q) outputs
    → IsJson (program_body inputs outputs)
unfolding program_body
program_body-IsJson inputs outputs hi ho =
    Reads-append (at_mode value []) (element true (object ∷ [])) (at_mode after [])
      (codes "{\n\"inputs\":[\n") _ inputs_open
      (Reads-append (element true (object ∷ [])) (behind_elements inputs (object ∷ []))
        (at_mode after []) (plugin_entries inputs) _ (plugins-Reads (object ∷ []) inputs hi)
        (Reads-append (behind_elements inputs (object ∷ [])) (element true (object ∷ []))
          (at_mode after []) (codes "],\n\"outputs\":[\n") _ (outputs_open inputs)
          (Reads-append (element true (object ∷ [])) (behind_elements outputs (object ∷ []))
            (at_mode after []) (plugin_entries outputs) _ (plugins-Reads (object ∷ []) outputs ho)
            (outputs_close outputs))))
