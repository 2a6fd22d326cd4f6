-- ===== src/Import/Quoting.antt =====
-- Reading back an export whose fields are all quoted.
use unuvault.Prelude.{
  inr, inl, Bool-cases, Result, refl, ◌≡◌, ◌∷◌, [], ◌++◌, ◌==◌, true, false, ok, arith, Text, List,
  if◌then◌else◌, sym, ap, ◌∙◌,
}
use unuvault.Import.{Bool, ImportError, ℕ, ParsedCsvRecord}
use mathlib.Core.List.{append-nil, append_assoc}
use unuvault.Import.Csv.{
  next_is, Parser, quote, step, scan, captures_current_field, append_field_character,
}

-- A field between quotes, its own quotes doubled.
abbrev pub escaped : Text → Text
escaped [] = []
escaped (c ∷ s) = if c == quote then quote ∷ quote ∷ escaped s else c ∷ escaped s

module _ (max_data_rows max_header_columns : ℕ) where
  abbrev pub run : Text → Parser → Result ImportError (List ParsedCsvRecord)
  run s p = scan max_data_rows max_header_columns false s p

  -- Inside quotes, one character of a field is read as it stands.
  append_at :
      (c : ℕ) (p : Parser)
      → captures_current_field p ≡ true
      → append_field_character c p ≡ record p { field = p.field ++ c ∷ [] }
  unfolding append_field_character
  append_at c p h = rw h refl

  captures-field :
      (p : Parser) (f : Text)
      → captures_current_field (record p { field = f }) ≡ captures_current_field p
  unfolding captures_current_field
  captures-field p f = refl

  -- One turn of the loop.
  pub scan-step :
      (c : ℕ) (s : Text) (p q : Parser) (skip : Bool)
      → step max_data_rows max_header_columns c s p ≡ ok (skip, q)
      → run (c ∷ s) p ≡ scan max_data_rows max_header_columns skip s q
  unfolding scan
  scan-step c s p q skip e = rw (scan, e) refl

  step_inside :
      (c : ℕ) (s : Text) (p : Parser)
      → p.in_quotes ≡ true
      → c == quote ≡ false
      → captures_current_field p ≡ true
      → step max_data_rows max_header_columns c s p
        ≡ ok (false, record p { field = p.field ++ c ∷ [] })
  unfolding step append_field_character captures_current_field
  step_inside c s p q n h = rw (q, n, h) refl

  step_doubled :
      (s : Text) (p : Parser)
      → p.in_quotes ≡ true
      → captures_current_field p ≡ true
      → step max_data_rows max_header_columns quote (quote ∷ s) p
        ≡ ok (true, record p { field = p.field ++ quote ∷ [] })
  unfolding step append_field_character captures_current_field
  step_doubled s p q h = rw (q, h) refl

  step_closing :
      (s : Text) (p : Parser)
      → p.in_quotes ≡ true
      → next_is quote s ≡ false
      → step max_data_rows max_header_columns quote s p
        ≡ ok (false, record p { in_quotes = false; just_closed_quote = true })
  unfolding step
  step_closing s p q n = rw (q, n) refl

  -- A quoted field up to its closing quote.
  pub scan-escaped :
      (f rest : Text) (p : Parser)
      → p.in_quotes ≡ true
      → captures_current_field p ≡ true
      → next_is quote rest ≡ false
      → run (escaped f ++ quote ∷ rest) p
        ≡ run rest (record p { field = p.field ++ f; in_quotes = false; just_closed_quote = true })
  unfolding scan captures_current_field
  scan-escaped [] rest p q h n =
      scan-step quote rest p _ false (step_closing rest p q n)
      ∙ ap (λ f. run rest (record p { field = f; in_quotes = false; just_closed_quote = true }))
          (sym (append-nil p.field))
  scan-escaped (c ∷ f) rest p q h n = elim (Bool-cases (c == quote)) [
    | inl y ↦
        let same : c ≡ quote = ground arith in
        let p' = record p { field = p.field ++ quote ∷ [] } in
        rw y (
          scan-step quote (quote ∷ escaped f ++ quote ∷ rest) p p' true
            (step_doubled (escaped f ++ quote ∷ rest) p q h)
          ∙ scan-escaped f rest p' q h n
          ∙ ap (λ g. run rest (record p { field = g; in_quotes = false; just_closed_quote = true }))
              (append_assoc p.field (quote ∷ []) f ∙ ap (λ d. p.field ++ d ∷ f) (sym same)))
    | inr n' ↦
        let p' = record p { field = p.field ++ c ∷ [] } in
        rw n' (
          scan-step c (escaped f ++ quote ∷ rest) p p' false
            (step_inside c (escaped f ++ quote ∷ rest) p q n' h)
          ∙ scan-escaped f rest p' q h n
          ∙ ap (λ g. run rest (record p { field = g; in_quotes = false; just_closed_quote = true }))
              (append_assoc p.field (c ∷ []) f))
  ]
