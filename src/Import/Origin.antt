-- ===== src/Import/Origin.antt =====
-- Which row of an export an accepted entry comes from.
use unuvault.Prelude.{
  Result, inl, inr, ◌+◌, ◌++◌, length, ◌⊎◌, Option, refl, ◌≡◌, ◌∷◌, [], arith, Elem, Text,
  Elem-snoc, suc, ok, err, none, some, ap, sym,
}
use mathlib.Core.Path.{subst}
use unuvault.Bridge.{Url}
use unuvault.Import.{ℕ, List, AcceptedEntry, Source, ParsedCsvRecord, Reason}
use unuvault.Import.Analysis.{
  add_judged, add_candidate, entry_of, Progress, Candidate, judge_row, add_row, add_rows,
}

module _ (new_url : Text → Option Url) (nfc : Text → Text) (source : Source)
    (headers : List Text) where
  -- The entry has the source and what an accepted row makes of its fields.
  abbrev pub IsEntryOf : AcceptedEntry → ParsedCsvRecord → Type 0
  IsEntryOf e row =
      (c : Candidate) × (judge_row new_url nfc headers row ≡ ok c)
      × (e ≡ entry_of source e.row_index c)

  -- The entry is that of one of the rows, the first of which has the number `n`.
  abbrev pub IsFrom : ℕ → List ParsedCsvRecord → AcceptedEntry → Type 0
  IsFrom n rows e =
      (before : List ParsedCsvRecord) × (row : ParsedCsvRecord) × (after : List ParsedCsvRecord)
      × (rows ≡ before ++ row ∷ after)
      × (e.row_index ≡ n + length before)
      × IsEntryOf e row

  add_row-origin :
      (n : ℕ) (row : ParsedCsvRecord) (p : Progress) (e : AcceptedEntry)
      → Elem e (add_row new_url nfc source headers n row p).accepted
      → Elem e p.accepted ⊎ ((e.row_index ≡ n) × IsEntryOf e row)
  unfolding add_row
  add_row-origin n row p e h = judged (judge_row new_url nfc headers row) refl h
    where
      candidate :
          (c : Candidate) (found : Option ℕ)
          → judge_row new_url nfc headers row ≡ ok c
          → Elem e (add_candidate source n c found p).accepted
          → Elem e p.accepted ⊎ ((e.row_index ≡ n) × IsEntryOf e row)
      candidate c (some first) good k = inl k
      candidate c none good k = elim ((Elem-snoc p.accepted (entry_of source n c) e).0 k) [
        | inl old ↦ inl old
        | inr same ↦
            let at_n : e.row_index ≡ n = ap (λ (a : AcceptedEntry). a.row_index) same in
            inr (at_n, (c, good, subst (λ k. e ≡ entry_of source k c) (sym at_n) same))
      ]

      judged :
          (r : Result Reason Candidate)
          → judge_row new_url nfc headers row ≡ r
          → Elem e (add_judged source n r p).accepted
          → Elem e p.accepted ⊎ ((e.row_index ≡ n) × IsEntryOf e row)
      judged (err reason) q k = inl k
      judged (ok c) q k = candidate c _ q k

  pub add_rows-origin :
      (n : ℕ) (rows : List ParsedCsvRecord) (p : Progress) (e : AcceptedEntry)
      → Elem e (add_rows new_url nfc source headers n rows p).accepted
      → Elem e p.accepted ⊎ IsFrom n rows e
  unfolding add_rows
  add_rows-origin n [] p e h = inl h
  add_rows-origin n (row ∷ rows) p e h =
      elim (add_rows-origin (suc n) rows (add_row new_url nfc source headers n row p) e h) [
        | inr (before, r, after, split, at', made) ↦ inr (later before r after split at' made)
        | inl here ↦ elim (add_row-origin n row p e here) [
          | inl old ↦ inl old
          | inr (at_n, made) ↦ inr ([], row, rows, refl, omega (arith, at_n), made)
        ]
      ]
    where
      later :
          (before : List ParsedCsvRecord) (r : ParsedCsvRecord) (after : List ParsedCsvRecord)
          → rows ≡ before ++ r ∷ after
          → e.row_index ≡ suc n + length before
          → IsEntryOf e r
          → IsFrom n (row ∷ rows) e
      later before r after split at' made =
          (row ∷ before, r, after, ap (λ s. row ∷ s) split, omega (arith, at'), made)
