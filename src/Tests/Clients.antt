-- ===== src/Tests/Clients.antt =====
-- Runs of src-tauri/src/importers.
use bifro_ssh.Common.{
  ◌≡◌, refl, none, some, [], ◌∷◌, List, Text, Bytes, show, codes, ok, text_eq, trim, parse_below,
}
use bifro_ssh.Importers.{putty, ForeignHost, ForeignScan, termius, mobaxterm}
use bifro_ssh.Importers.Csv.{rows}
use bifro_ssh.Importers.Csv.Printed.{table_text, rows-table_text}
use bifro_ssh.Importers.Termius.{parse}
use bifro_ssh.Importers.Termius.Rows.{AccountsFor, parse-AccountsFor}
use bifro_ssh.Importers.MobaXterm
use bifro_ssh.Importers.Sources
use bifro_ssh.Importers.Putty.{unescape_name}

-- Fields with a comma, quotes and a line end.
abbrev a_table : List (List Text)
a_table = (codes "a,b" ∷ codes "say \"hi\"" ∷ []) ∷ (codes "two\nlines" ∷ [] ∷ []) ∷ []

rows-table_text_example : rows (table_text a_table) ≡ a_table
unfolding trim
rows-table_text_example = rows-table_text a_table (refl, (refl, tt))

abbrev export : Text
export =
    codes
      "groups,label,address,port,protocol\r\nProd,web,10.0.0.1,2222,ssh\nProd,switch,10.0.0.9,23,telnet\n,nothing,,,\n"

abbrev web : ForeignHost
web = record {
  name = codes "web";
  host = codes "10.0.0.1";
  port = 2222;
  username = none;
  password = none;
  group = some (codes "Prod");
  tags = [];
  notes = none;
}

abbrev export_scan : ForeignScan
export_scan = record {
  source = termius;
  hosts = web ∷ [];
  skipped = codes "switch is telnet, not ssh" ∷ codes "nothing has no address" ∷ [];
}

export_is_read : parse (λ t. t) export ≡ ok export_scan
unfolding parse rows text_eq parse_below
export_is_read = refl

parse-AccountsFor_example : AccountsFor (λ t. t) (rows export) export_scan
parse-AccountsFor_example = parse-AccountsFor (λ t. t) export export_scan export_is_read

abbrev bookmarks : Text
bookmarks =
    codes
      "[Bookmarks_1]\r\nSubRep=Prod\\Databases\r\nImgNum=41\r\nprod__PIPE__db=#109#0%db.example.com%2222%deploy%%\r\ndesktop=#91#4%10.0.0.7%3389%admin\r\n"

abbrev database : ForeignHost
database = record {
  name = codes "prod|db";
  host = codes "db.example.com";
  port = 2222;
  username = some (codes "deploy");
  password = none;
  group = some (codes "Prod/Databases");
  tags = [];
  notes = none;
}

bookmarks_are_read : MobaXterm.parse bookmarks ≡ record {
  source = mobaxterm;
  hosts = database ∷ [];
  skipped = codes "desktop is not an ssh session" ∷ [];
}
unfolding MobaXterm.parse text_eq parse_below
bookmarks_are_read = refl

-- The bytes of a text of ASCII, as regedit writes them.
abbrev utf16 : Text → Bytes
utf16 [] = []
utf16 (c ∷ s) = c ∷ 0 ∷ utf16 s

abbrev registry : Text
registry =
    codes
      "[HKEY_CURRENT_USER\\Software\\SimonTatham\\PuTTY\\Sessions\\prod%20db]\r\n\"HostName\"=\"db.example.com\"\r\n\"PortNumber\"=dword:0000116f\r\n\"Protocol\"=\"ssh\"\r\n"

abbrev prod_db : ForeignHost
prod_db = record {
  name = codes "prod db";
  host = codes "db.example.com";
  port = 4463;
  username = none;
  password = none;
  group = none;
  tags = [];
  notes = none;
}

registry_is_read :
    Sources.parse (λ t. t) (0xff ∷ 0xfe ∷ utf16 registry)
    ≡ some (ok (record { source = putty; hosts = prod_db ∷ []; skipped = [] }))
unfolding Sources.parse text_eq parse_below show
registry_is_read = refl

-- A letter that is no escape comes out as the characters of its two bytes.
name_is_split : unescape_name (233 ∷ []) ≡ some (195 ∷ 169 ∷ [])
unfolding unescape_name
name_is_split = refl

slice_inside_a_character : unescape_name (b'%' ∷ b'a' ∷ 8364 ∷ []) ≡ none
unfolding unescape_name
slice_inside_a_character = refl
