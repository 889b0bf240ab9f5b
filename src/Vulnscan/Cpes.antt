-- ===== src/Vulnscan/Cpes.antt =====
-- apps/api/internal/vulnscan/cpe.go: the CPE 2.3 names of a host's system and applications.
pub mod Printed
use Prim.Native.Char.{Char, code}
use Prim.Native.String.{◌++◌ as ◌+++◌, char_at}
use zero_agent_scan.Prelude.{
  ℕ, ◌-◌, ◌&&◌, leb, eqb, String, Bool, true, false, ◌||◌, Option, none, some, List, [], ◌∷◌,
  if◌then◌else◌, ◌==◌, not,
}
use zero_agent_scan.Prelude.Text.{trim, codes, occurs, lower_char, to_lower}
use zero_agent_scan.Vulnscan.Ranges.{Cpe23}
use zero_agent_scan.Vulnscan.Findings.{or_else}

abbrev is_kept : ℕ → Bool
is_kept n =
    leb b'a' n && leb n b'z' || leb b'0' n && leb n b'9' || eqb n b'_' || eqb n b'-' || eqb n b'.'

-- In lower case, with `_` for a blank, and without all that is not allowed.
abbrev kept_char : Char → String → String
kept_char c s =
    if eqb (code c) b' '
    then String.◌∷◌ (char_at "_" 0) s
    else if is_kept (code c)
    then String.◌∷◌ c s
    else s

abbrev kept_chars : String → String
kept_chars String.[] = String.[]
kept_chars (String.◌∷◌ c s) = kept_char (lower_char c) (kept_chars s)

-- A `_` in front of a text that starts with one is dropped.
abbrev joined : Char → String → String
joined c String.[] = String.◌∷◌ c String.[]
joined c (String.◌∷◌ d s) =
    if eqb (code c) b'_' && eqb (code d) b'_' then String.◌∷◌ d s else String.◌∷◌ c (String.◌∷◌ d s)

abbrev single_underscores : String → String
single_underscores String.[] = String.[]
single_underscores (String.◌∷◌ c s) = joined c (single_underscores s)

abbrev trim_first : String → String
trim_first String.[] = String.[]
trim_first (String.◌∷◌ c s) = if eqb (code c) b'_' then trim_first s else String.◌∷◌ c s

abbrev without_last : Char → String → String
without_last c String.[] = if eqb (code c) b'_' then String.[] else String.◌∷◌ c String.[]
without_last c (String.◌∷◌ d s) = String.◌∷◌ c (String.◌∷◌ d s)

abbrev trim_last : String → String
trim_last String.[] = String.[]
trim_last (String.◌∷◌ c s) = without_last c (trim_last s)

unfoldable pub sanitize_cpe_field : String → String
unfolding trim
sanitize_cpe_field value = trim_last (trim_first (single_underscores (kept_chars (trim value))))

unfoldable pub show_field : String → String
unfolding sanitize_cpe_field
show_field value = or_else "*" (sanitize_cpe_field value)

unfoldable pub show_cpe : Cpe23 → String
unfolding show_field
show_cpe c =
    "cpe:2.3:"
    +++ or_else "a" c.part
    +++ ":"
    +++ show_field c.vendor
    +++ ":"
    +++ show_field c.product
    +++ ":"
    +++ show_field c.version
    +++ ":"
    +++ show_field c.update
    +++ ":"
    +++ show_field c.edition
    +++ ":"
    +++ show_field c.language
    +++ ":"
    +++ show_field c.sw_edition
    +++ ":"
    +++ show_field c.target_sw
    +++ ":"
    +++ show_field c.target_hw
    +++ ":"
    +++ show_field c.other

-- Is one of the words part of the text?
unfoldable pub mentions : List String → String → Bool
mentions [] s = false
mentions (word ∷ words) s = occurs (codes word) (codes s) || mentions words s

-- Parts of a publisher, parts of a name, and the vendor that either stands for.
abbrev vendors : List (String × List String × String)
vendors =
    ("google", "google chrome" ∷ [], "google")
    ∷ ("microsoft", "microsoft edge" ∷ "visual studio" ∷ [], "microsoft")
    ∷ ("mozilla", "firefox" ∷ [], "mozilla")
    ∷ ("adobe", "acrobat" ∷ "photoshop" ∷ [], "adobe")
    ∷ ("oracle", "java" ∷ "virtualbox" ∷ [], "oracle")
    ∷ ("cisco", "anyconnect" ∷ [], "cisco")
    ∷ ("docker", "docker desktop" ∷ [], "docker")
    ∷ ("python", "python 3" ∷ [], "python")
    ∷ ("7-zip", "7-zip" ∷ [], "7-zip")
    ∷ ("wireshark", "wireshark" ∷ [], "wireshark")
    ∷ ("notepad++", "notepad++" ∷ [], "notepad-plus-plus")
    ∷ []

abbrev known_vendor : String → String → List (String × List String × String) → Option String
known_vendor publisher name [] = none
known_vendor publisher name ((word, words, vendor) ∷ rest) =
    let later = known_vendor publisher name rest in
    if mentions (word ∷ []) publisher || mentions words name then some vendor else later

abbrev is_space : ℕ → Bool
is_space c = eqb c 32 || leb 9 c && leb c 13

-- `strings.Fields(s)[0]`, empty where there is no field.
abbrev first_word : Bool → String → String
first_word begun String.[] = String.[]
first_word false (String.◌∷◌ c s) =
    let later = first_word false s in
    let word = String.◌∷◌ c (first_word true s) in if is_space (code c) then later else word
first_word true (String.◌∷◌ c s) =
    let word = String.◌∷◌ c (first_word true s) in if is_space (code c) then String.[] else word

abbrev vendor_of_name : String → String
vendor_of_name word = if word == "" then "unknown" else sanitize_cpe_field word

abbrev other_vendor : String → String → String
other_vendor publisher name =
    let cleaned = sanitize_cpe_field publisher in
    if cleaned == "" then vendor_of_name (first_word false name) else cleaned

abbrev text_of : Option String → String
text_of none = ""
text_of (some s) = s

abbrev vendor_or : Option String → String → String
vendor_or none other = other
vendor_or (some vendor) other = vendor

unfoldable pub normalize_vendor : Option String → String → String
unfolding to_lower mentions trim sanitize_cpe_field
normalize_vendor publisher name =
    let pub_low = to_lower (trim (text_of publisher)) in
    vendor_or (known_vendor pub_low (to_lower name) vendors) (other_vendor pub_low name)

-- Parts of a name, a whole name, and the product that either stands for.
abbrev products : List (List String × Option String × String)
products =
    ("google chrome" ∷ [], some "chrome", "chrome")
    ∷ ("microsoft edge" ∷ [], some "edge", "edge")
    ∷ ("mozilla firefox" ∷ [], some "firefox", "firefox")
    ∷ ("adobe acrobat reader" ∷ "acrobat reader" ∷ [], none, "acrobat_reader")
    ∷ ("7-zip" ∷ [], none, "7-zip")
    ∷ ("wireshark" ∷ [], none, "wireshark")
    ∷ ("notepad++" ∷ [], none, "notepad\\+\\+")
    ∷ ("docker desktop" ∷ [], none, "docker_desktop")
    ∷ ("python" ∷ [], none, "python")
    ∷ ("vlc media player" ∷ "vlc" ∷ [], none, "vlc_media_player")
    ∷ ("git" ∷ [], none, "git")
    ∷ []

abbrev is_whole : Option String → String → Bool
is_whole none name = false
is_whole (some whole) name = name == whole

abbrev product_in : String → List (List String × Option String × String) → String
product_in name [] = or_else "unknown" (sanitize_cpe_field name)
product_in name ((words, whole, product) ∷ rest) =
    let later = product_in name rest in
    if mentions words name || is_whole whole name then product else later

unfoldable pub normalize_product : String → String
unfolding to_lower mentions trim sanitize_cpe_field
normalize_product name = product_in (to_lower (trim name)) products

abbrev is_digit : ℕ → Bool
is_digit c = leb b'0' c && leb c b'9'

abbrev starts_digit : String → Bool
starts_digit String.[] = false
starts_digit (String.◌∷◌ c s) = is_digit (code c)

-- Digits, and dots in front of digits.
abbrev numeric : String → String
numeric String.[] = String.[]
numeric (String.◌∷◌ c s) =
    let more = String.◌∷◌ c (numeric s) in
    if is_digit (code c) || eqb (code c) b'.' && starts_digit s then more else String.[]

abbrev without_v : String → String
without_v String.[] = String.[]
without_v (String.◌∷◌ c s) = if eqb (code c) b'v' then s else String.◌∷◌ c s

-- The group of `^v?(\d+(\.\d+)*)`, empty where it does not match.
abbrev version_match : String → String
version_match s = if starts_digit (without_v s) then numeric (without_v s) else ""

abbrev normalize_text : String → String
normalize_text v = if version_match v == "" then sanitize_cpe_field v else version_match v

unfoldable pub normalize_version : Option String → String
unfolding trim sanitize_cpe_field
normalize_version none = "*"
normalize_version (some version) = if trim version == "" then "*" else normalize_text (trim version)

pub record Application : Type 0 where
  pub name : String
  pub version : Option String
  pub publisher : Option String
  pub architecture : Option String

-- What the scan reads of a snapshot.
pub record Inventory : Type 0 where
  pub hostname : String
  pub os_name : String
  pub os_version : String
  pub os_build : String
  pub applications : List Application

abbrev hardware_of : Option String → String
hardware_of none = "*"
hardware_of (some architecture) =
    let arch = to_lower architecture in
    if mentions ("64" ∷ []) arch
    then "x64"
    else if mentions ("86" ∷ "32" ∷ []) arch
    then "x86"
    else "*"

unfoldable pub build_cpe_from_app : Application → Cpe23
unfolding to_lower mentions normalize_vendor normalize_product normalize_version
build_cpe_from_app app = record {
  part = "a";
  vendor = normalize_vendor app.publisher app.name;
  product = normalize_product app.name;
  version = normalize_version app.version;
  update = "";
  edition = "";
  language = "";
  sw_edition = "";
  target_sw = "windows";
  target_hw = hardware_of app.architecture;
  other = "";
  raw_app = app.name;
  app_version = normalize_version app.version;
}

abbrev os_product : String → String
os_product low =
    if mentions ("windows 11" ∷ []) low
    then "windows_11"
    else if mentions ("windows 10" ∷ []) low
    then "windows_10"
    else if mentions ("server 2022" ∷ []) low
    then "windows_server_2022"
    else if mentions ("server 2025" ∷ []) low
    then "windows_server_2025"
    else if mentions ("server 2019" ∷ []) low
    then "windows_server_2019"
    else "windows"

abbrev os_update : String → String
os_update low =
    if mentions ("windows 11" ∷ []) low
    then (if mentions ("23h2" ∷ []) low
        then "23h2"
        else if mentions ("22h2" ∷ []) low
        then "22h2"
        else "*")
    else "*"

unfoldable pub build_cpe_from_os : String → String → String → Cpe23
unfolding to_lower mentions normalize_version
build_cpe_from_os os_name os_version os_build =
    let version = or_else os_build os_version in
    record {
      part = "o";
      vendor = "microsoft";
      product = os_product (to_lower os_name);
      version = normalize_version (some version);
      update = os_update (to_lower os_name);
      edition = "";
      language = "";
      sw_edition = "";
      target_sw = "*";
      target_hw = "x64";
      other = "";
      raw_app = os_name;
      app_version = version;
    }

unfoldable pub application_cpes : List Application → List Cpe23
unfolding build_cpe_from_app trim
application_cpes [] = []
application_cpes (app ∷ apps) =
    let rest = application_cpes apps in
    if trim app.name == "" then rest else build_cpe_from_app app ∷ rest

unfoldable pub extract_host_cpes : Option Inventory → List Cpe23
unfolding build_cpe_from_os application_cpes
extract_host_cpes none = []
extract_host_cpes (some host) =
    build_cpe_from_os host.os_name host.os_version host.os_build
    ∷ application_cpes host.applications
