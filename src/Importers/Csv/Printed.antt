-- ===== src/Importers/Csv/Printed.antt =====
-- A table that is printed with each field in quotes is read back.
use bifro_ssh.Common.{
  ℕ, ◌≡◌, refl, sym, ap, ◌∙◌, Bool, true, false, List, [], ◌∷◌, ◌++◌, append_assoc, append-nil,
  if◌then◌else◌, ◌==◌, Text, All, trim_start_by, arith, inl, inr, Bool-cases, ==_iff,
}
use bifro_ssh.Importers.Csv.{quote, comma, Reader, has_content, end_row, plain, read, rows}

-- The text, with each quote written twice, in front of `rest`.
abbrev pub doubled : Text → Text → Text
doubled [] rest = rest
doubled (c ∷ f) rest =
    let more = doubled f rest in if c == quote then quote ∷ quote ∷ more else c ∷ more

abbrev pub field_text : Text → Text → Text
field_text f rest = quote ∷ doubled f (quote ∷ rest)

abbrev pub row_text : List Text → Text → Text
row_text [] rest = 10 ∷ rest
row_text (f ∷ []) rest = field_text f (10 ∷ rest)
row_text (f ∷ g ∷ fs) rest = field_text f (comma ∷ row_text (g ∷ fs) rest)

abbrev pub table_text : List (List Text) → Text
table_text [] = []
table_text (row ∷ more) = row_text row (table_text more)

abbrev reader : Bool → List (List Text) → List Text → Text → Reader
reader q rs row field = record { quoted = q; rows = rs; row = row; field = field }

doubled-cons : (f rest : Text) → (d : ℕ) × (s : Text) × (doubled f (quote ∷ rest) ≡ d ∷ s)
doubled-cons [] rest = (quote, rest, refl)
doubled-cons (c ∷ f) rest = elim (Bool-cases (c == quote)) [
  | inl e ↦ (quote, quote ∷ doubled f (quote ∷ rest), rw e refl)
  | inr e ↦ (c, doubled f (quote ∷ rest), rw e refl)
]

module _ (rs : List (List Text)) (row : List Text) where
  -- One character inside quotes that is no quote.
  read_inside :
      (field : Text) (c d : ℕ) (s : Text)
      → (c == quote) ≡ false
      → read (reader true rs row field) (c ∷ d ∷ s)
        ≡ read (reader true rs row (field ++ c ∷ [])) (d ∷ s)
  unfolding read
  read_inside field c d s e = rw (e, read) refl

  read_closing :
      (field : Text) (d : ℕ) (s : Text)
      → (d == quote) ≡ false
      → read (reader true rs row field) (quote ∷ d ∷ s) ≡ read (reader false rs row field) (d ∷ s)
  unfolding read
  read_closing field d s e = rw (e, read) refl

  read_pair :
      (field : Text) (s : Text)
      → read (reader true rs row field) (quote ∷ quote ∷ s)
        ≡ read (reader true rs row (field ++ quote ∷ [])) s
  unfolding read
  read_pair field s = refl

  read-doubled :
      (field f : Text) (d : ℕ) (s : Text)
      → (d == quote) ≡ false
      → read (reader true rs row field) (doubled f (quote ∷ d ∷ s))
        ≡ read (reader false rs row (field ++ f)) (d ∷ s)
  read-doubled field [] d s e =
      read_closing field d s e
      ∙ ap (λ t. read (reader false rs row t) (d ∷ s)) (sym (append-nil field))
  read-doubled field (c ∷ f) d s e =
      let whole : (field ++ c ∷ []) ++ f ≡ field ++ c ∷ f = append_assoc field (c ∷ []) f in
      let rest = read-doubled (field ++ c ∷ []) f d s e in
      let (x, y, next) = doubled-cons f (d ∷ s) in
      let tail = doubled f (quote ∷ d ∷ s) in
      let split = λ (b : Bool).
        read (reader true rs row field) (if b then quote ∷ quote ∷ tail else c ∷ tail) in
      let done = rest ∙ ap (λ t. read (reader false rs row t) (d ∷ s)) whole in
      elim (Bool-cases (c == quote)) [
        | inl q ↦
            ap split q
            ∙ read_pair field tail
            ∙ ap (λ k. read (reader true rs row (field ++ k ∷ [])) tail)
                (sym ((==_iff c quote).0 q))
            ∙ done
        | inr q ↦
            ap split q
            ∙ ap (λ t. read (reader true rs row field) (c ∷ t)) next
            ∙ read_inside field c x y q
            ∙ ap (λ t. read (reader true rs row (field ++ c ∷ [])) t) (sym next)
            ∙ done
      ]

  read_opening :
      (c : ℕ) (s : Text)
      → read (reader false rs row []) (quote ∷ c ∷ s) ≡ read (reader true rs row []) (c ∷ s)
  unfolding read plain
  read_opening c s = refl

  read_field :
      (f : Text) (d : ℕ) (s : Text)
      → (d == quote) ≡ false
      → read (reader false rs row []) (field_text f (d ∷ s)) ≡ read (reader false rs row f) (d ∷ s)
  read_field f d s e =
      let (x, y, next) = doubled-cons f (d ∷ s) in
      ap (λ t. read (reader false rs row []) (quote ∷ t)) next
      ∙ read_opening x y
      ∙ ap (λ t. read (reader true rs row []) t) (sym next)
      ∙ read-doubled [] f d s e

  read-comma :
      (f s : Text)
      → read (reader false rs row f) (comma ∷ s) ≡ read (reader false rs (row ++ f ∷ []) []) s
  unfolding read plain
  read-comma f [] = refl
  read-comma f (c ∷ s) = refl

  read_feed :
      (f s : Text)
      → has_content (row ++ f ∷ []) ≡ true
      → read (reader false rs row f) (10 ∷ s)
        ≡ read (reader false (rs ++ (row ++ f ∷ []) ∷ []) [] []) s
  unfolding read plain end_row
  read_feed f [] h = rw h refl
  read_feed f (c ∷ s) h =
      ap (λ b. read (reader false (if b then rs ++ (row ++ f ∷ []) ∷ [] else rs) [] []) (c ∷ s)) h

read_row :
    (rs : List (List Text)) (row : List Text) (f : Text) (fs : List Text) (s : Text)
    → has_content (row ++ f ∷ fs) ≡ true
    → read (reader false rs row []) (row_text (f ∷ fs) s)
      ≡ read (reader false (rs ++ (row ++ f ∷ fs) ∷ []) [] []) s
read_row rs row f [] s h = read_field rs row f 10 s refl ∙ read_feed rs row f s h
read_row rs row f (g ∷ fs) s h =
    let whole : (row ++ f ∷ []) ++ g ∷ fs ≡ row ++ f ∷ g ∷ fs =
      append_assoc row (f ∷ []) (g ∷ fs) in
    read_field rs row f comma (row_text (g ∷ fs) s) refl
    ∙ read-comma rs row f (row_text (g ∷ fs) s)
    ∙ read_row rs (row ++ f ∷ []) g fs s (ap has_content whole ∙ h)
    ∙ ap (λ r. read (reader false (rs ++ r ∷ []) [] []) s) whole

abbrev pub HasContent : List Text → Type 0
HasContent row = has_content row ≡ true

read_table :
    (rs table : List (List Text))
    → All HasContent table
    → read (reader false rs [] []) (table_text table) ≡ reader false (rs ++ table) [] []
unfolding read
read_table rs [] h = ap (λ r. reader false r [] []) (sym (append-nil rs))
read_table rs ([] ∷ table) h = absurd (ground (arith, h.0))
read_table rs ((f ∷ fs) ∷ table) h =
    read_row rs [] f fs (table_text table) h.0
    ∙ read_table (rs ++ (f ∷ fs) ∷ []) table h.1
    ∙ ap (λ r. reader false r [] []) (append_assoc rs ((f ∷ fs) ∷ []) table)

bom-table_text :
    (table : List (List Text))
    → All HasContent table
    → trim_start_by (λ c. c == 0xfeff) (table_text table) ≡ table_text table
unfolding trim_start_by
bom-table_text [] h = refl
bom-table_text ([] ∷ table) h = absurd (ground (arith, h.0))
bom-table_text ((f ∷ []) ∷ table) h = refl
bom-table_text ((f ∷ g ∷ fs) ∷ table) h = refl

-- A table whose rows each have some text in them, printed with every field in quotes and each quote
-- written twice, is read back whole: commas, quotes and line ends inside the fields are kept.
pub rows-table_text :
    (table : List (List Text)) → All HasContent table → rows (table_text table) ≡ table
unfolding rows end_row
rows-table_text table h =
    ap (λ t. (end_row (read (reader false [] [] []) t)).rows) (bom-table_text table h)
    ∙ ap (λ r. (end_row r).rows) (read_table [] table h)
