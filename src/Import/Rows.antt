-- ===== src/Import/Rows.antt =====
-- What the rows of an export are sorted into.
use unuvault.Prelude.{
  Result, text_eq_iff, Bool-cases, ◌&&◌, text_eq, not, map_get, inl, Option-cases, inr, trim, ◌+◌,
  is_empty, length, ◌⊎◌, codes, Option, ◌≡◌, ◌∷◌, [], ◌≤◌, false, arith, Text, length-append, suc,
  ok, err, none, some,
}
use unuvault.Bridge.{Url}
use unuvault.Import.{
  duplicate, refused, password_bytes, username_bytes, name_bytes, url_bytes, ℕ, List, Source,
  ParsedCsvRecord, Reason,
}
use unuvault.Import.Analysis.{
  add_judged, add_candidate, entry_of, value_for, Progress, Candidate, judge_row, add_row, add_rows,
  duplicate_key, utf8_byte_length,
}

-- The values that an accepted entry may have.
abbrev pub IsAcceptable : (Text → Option Url) → Text → Text → Text → Text → Type 0
IsAcceptable new_url name origin username password =
    (text : Text) × (url : Url) × (new_url text ≡ some url)
    × ((url.protocol ≡ codes "http:") ⊎ (url.protocol ≡ codes "https:"))
    × (origin ≡ url.origin)
    × (is_empty password ≡ false)
    × (utf8_byte_length text ≤ url_bytes)
    × (utf8_byte_length name ≤ name_bytes)
    × (utf8_byte_length username ≤ username_bytes)
    × (utf8_byte_length password ≤ password_bytes)

module _ (new_url : Text → Option Url) (nfc : Text → Text) where
  length-add_row :
      (source : Source) (headers : List Text) (n : ℕ) (row : ParsedCsvRecord) (p : Progress)
      → length (add_row new_url nfc source headers n row p).accepted
          + length (add_row new_url nfc source headers n row p).issues
        ≡ suc (length p.accepted + length p.issues)
  unfolding add_row
  length-add_row source headers n row p = judged (judge_row new_url nfc headers row)
    where
      candidate :
          (c : Candidate) (found : Option ℕ)
          → length (add_candidate source n c found p).accepted
              + length (add_candidate source n c found p).issues
            ≡ suc (length p.accepted + length p.issues)
      candidate c none = omega (arith, length-append p.accepted (entry_of source n c ∷ []))
      candidate c (some first) = omega (arith, length-append p.issues (duplicate n first ∷ []))

      judged :
          (r : Result Reason Candidate)
          → length (add_judged source n r p).accepted + length (add_judged source n r p).issues
            ≡ suc (length p.accepted + length p.issues)
      judged (err reason) = omega (arith, length-append p.issues (refused n reason ∷ []))
      judged (ok c) =
          candidate c
            (map_get (duplicate_key c.website_origin c.username) p.first_row_by_duplicate_key)

  pub length-add_rows :
      (source : Source) (headers : List Text) (n : ℕ) (rows : List ParsedCsvRecord) (p : Progress)
      → length (add_rows new_url nfc source headers n rows p).accepted
          + length (add_rows new_url nfc source headers n rows p).issues
        ≡ length rows + (length p.accepted + length p.issues)
  unfolding add_rows
  length-add_rows source headers n [] p = omega arith
  length-add_rows source headers n (row ∷ rows) p =
      let q = add_row new_url nfc source headers n row p in
      omega (
        arith,
        length-add_rows source headers (suc n) rows q,
        length-add_row source headers n row p,
      )

  web_scheme :
      (protocol : Text)
      → (not (text_eq protocol (codes "http:")) && not (text_eq protocol (codes "https:"))) ≡ false
      → (protocol ≡ codes "http:") ⊎ (protocol ≡ codes "https:")
  web_scheme protocol h = elim (Bool-cases (text_eq protocol (codes "http:"))) [
    | inl y ↦ inl ((text_eq_iff protocol (codes "http:")).0 y)
    | inr n ↦ inr ((text_eq_iff protocol (codes "https:")).0 (ground arith))
  ]

  pub judge_row_sound :
      (headers : List Text) (row : ParsedCsvRecord) (c : Candidate)
      → judge_row new_url nfc headers row ≡ ok c
      → IsAcceptable new_url c.name c.website_origin c.username c.password
  unfolding judge_row
  judge_row_sound headers row c h =
      let url_text = trim (value_for headers row.values (codes "url")) in
      elim (Option-cases (new_url url_text)) [
        | inl n ↦ absurd (ground arith)
        | inr (url, e) ↦ (
          url_text,
          url,
          e,
          web_scheme url.protocol (ground arith),
          ground arith,
          ground arith,
          ground arith,
          ground arith,
          ground arith,
          ground arith,
        )
      ]
