-- ===== src/Tests/Config.antt =====
-- Tests of the configuration.
use geata.Common.{
  ◌↔◌, ◌≡◌, ◌≢◌, ℕ, refl, true, false, Option, none, some, List, [], ◌∷◌, ok, err, length,
}
use geata.Common.Map.{Distinct}
use geata.Common.Settings.{read_fields, pairs}
use geata.Common.Settings.Exact.{AllKnown, read_fields-ok_iff}
use geata.Common.Text.{Text, text, text_Key}
use geata.Url.{Url, Parsers}
use geata.Config.Token.{out_of_fuel, Parsed}
use geata.Config.Tokenizer.{tokenize, is_whitespace, is_delimiter}
use geata.Config.Tokenizer.RoundTrip.{
  plain, bare, string, opening, closing, Lexeme, print, tokens, tokenize-print,
}
use geata.Config.Directives.{reverse_proxy, rate_limit, max_inflight, respond_with}
use geata.Config.Sites.{Config, parse}
use geata.Config.Valid.Sites.{IsConfig}
use geata.Config.Valid.Whole.{parse_total, parse-IsConfig}
use geata.Payout.Request.{PaymentRequest}

-- The text between the quotes, without escapes.
abbrev before_last : Text → Text
before_last [] = []
before_last (c ∷ []) = []
before_last (c ∷ d ∷ s) = c ∷ before_last (d ∷ s)

abbrev json_string : Text → Option Text
json_string [] = none
json_string (c ∷ s) = some (before_last s)

abbrev lexemes : List (Lexeme × ℕ)
lexemes =
    (bare b'a' (text ".b"), b' ')
    ∷ (opening, b'\n')
    ∷ (string (plain b'}' ∷ plain b'#' ∷ []) (text "}#"), b'\n')
    ∷ (closing, b' ')
    ∷ []

tokenize-print_example : tokenize json_string (print lexemes) ≡ ok (tokens 1 lexemes)
unfolding is_delimiter
tokenize-print_example =
    tokenize-print json_string lexemes
      ((((refl, refl), refl), ((tt, refl), (((refl, refl), refl), ((tt, refl), tt)))))

abbrev local_url : Url
local_url = record {
  scheme = text "http";
  host_str = some (text "localhost");
  port = some 3000;
  port_or_known_default = some 3000;
  username = [];
  has_password = false;
  path = text "/";
  has_query = false;
  has_fragment = false;
  as_str = text "http://localhost:3000/";
  ascii_origin = text "http://localhost:3000";
}

abbrev parsers : Parsers
parsers = record {
  url = λ _. some local_url;
  ip = λ _. none;
  mint_url = λ s. some s;
  json_string = json_string;
  is_public_key = λ _. true;
  is_header_name = λ _. true;
}

abbrev no_request : Text → Option PaymentRequest
no_request _ = none

abbrev file : Text
file =
    text
      "# two sites\nexample.com {\n reverse_proxy localhost:3000\n rate_limit 5/s burst 10\n max_inflight off }\nhttp://localhost { respond \"ok\" 201 }\n"

abbrev config_of : Parsed Config → Config
config_of (ok config) = config
config_of (err _) = record { sites = []; payouts = [] }

abbrev config : Config
config = config_of (parse parsers no_request 0 file)

parse_total_example : parse parsers no_request 0 file ≢ err out_of_fuel
parse_total_example = parse_total parsers no_request 0 file

parse-IsConfig_example : IsConfig parsers no_request config
unfolding parse is_whitespace is_delimiter reverse_proxy rate_limit max_inflight respond_with
parse-IsConfig_example = parse-IsConfig parsers no_request 0 file config refl

two_sites : length config.sites ≡ 2
unfolding parse is_whitespace is_delimiter reverse_proxy rate_limit max_inflight respond_with
two_sites = refl

read_fields-ok_iff_example :
    (read_fields (text "a" ∷ text "b" ∷ []) "odd" "unknown" "duplicate" (text "b" ∷ text "1" ∷ [])
      ≡ ok ((text "b", text "1") ∷ []))
    ↔ ((pairs (text "b" ∷ text "1" ∷ []) ≡ some ((text "b", text "1") ∷ []))
        × (Distinct ((text "b", text "1") ∷ [])
            × AllKnown (text "a" ∷ text "b" ∷ []) ((text "b", text "1") ∷ [])))
read_fields-ok_iff_example =
    read_fields-ok_iff (text "a" ∷ text "b" ∷ []) "odd" "unknown" "duplicate"
      (text "b" ∷ text "1" ∷ []) ((text "b", text "1") ∷ [])
