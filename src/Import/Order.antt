-- ===== src/Import/Order.antt =====
-- What holds of accepted entries and issues while the rows are sorted.
use unuvault.Prelude.{
  Result, text_eq_iff, Bool-cases, text_eq, map_get, inl, inr, ◌+◌, length, ◌⊎◌, Option, refl, ◌≡◌,
  ◌∷◌, [], ◌<◌, arith, Elem, Text, sym, ap, ◌∙◌, Elem-snoc, suc, ok, err, none, some, text_eq_self,
  map_get-map_set,
}
use mathlib.Core.Path.{subst}
use unuvault.Bridge.{Url}
use unuvault.Import.{duplicate, refused, ℕ, List, AcceptedEntry, Source, ParsedCsvRecord, Reason}
use unuvault.Import.Analysis.{
  add_judged, add_candidate, accept, report_issue, nothing_yet, entry_of, Progress, Candidate,
  judge_row, add_row, add_rows, duplicate_key,
}
use unuvault.Import.Rows.{IsAcceptable, judge_row_sound}

abbrev pub key_of : AcceptedEntry → Text
key_of e = duplicate_key e.website_origin e.username

-- What is known once all rows before row `n` are sorted.
pub record IsOrderly (new_url : Text → Option Url) (n : ℕ) (p : Progress) : Type 0 where
  pub known :
      (e : AcceptedEntry)
      → Elem e p.accepted
      → map_get (key_of e) p.first_row_by_duplicate_key ≡ some e.row_index
  pub tracked :
      (k : Text) (i : ℕ)
      → map_get k p.first_row_by_duplicate_key ≡ some i
      → (e : AcceptedEntry) × Elem e p.accepted × (key_of e ≡ k) × (e.row_index ≡ i)
  pub below : (e : AcceptedEntry) → Elem e p.accepted → e.row_index < n
  pub single :
      (e e' : AcceptedEntry)
      → Elem e p.accepted
      → Elem e' p.accepted
      → e.row_index ≡ e'.row_index
      → e ≡ e'
  pub repeats :
      (i j : ℕ)
      → Elem (duplicate i j) p.issues
      → (j < i) × ((e : AcceptedEntry) × Elem e p.accepted × (e.row_index ≡ j))
  pub acceptable :
      (e : AcceptedEntry)
      → Elem e p.accepted
      → IsAcceptable new_url e.name e.website_origin e.username e.password

pub start-IsOrderly : (new_url : Text → Option Url) (n : ℕ) → IsOrderly new_url n nothing_yet
unfolding map_get
start-IsOrderly new_url n = record {
  known = λ e h. absurd h;
  tracked = λ k i h. absurd (ground arith);
  below = λ e h. absurd h;
  single = λ e e' h h' q. absurd h;
  repeats = λ i j h. absurd h;
  acceptable = λ e h. absurd h;
}

module _ {new_url : Text → Option Url} (n : ℕ) (p : Progress) (i : IsOrderly new_url n p) where
  refused-IsOrderly :
      (reason : Reason) → IsOrderly new_url (suc n) (report_issue (refused n reason) p)
  refused-IsOrderly reason = record {
    known = i.known;
    tracked = i.tracked;
    below = λ e h. omega (arith, i.below e h);
    single = i.single;
    repeats = λ a b h. elim ((Elem-snoc p.issues (refused n reason) (duplicate a b)).0 h) [
      | inl old ↦ i.repeats a b old
      | inr same ↦ absurd (ground arith)
    ];
    acceptable = i.acceptable;
  }

  duplicate-IsOrderly :
      (k : Text) (first : ℕ)
      → map_get k p.first_row_by_duplicate_key ≡ some first
      → IsOrderly new_url (suc n) (report_issue (duplicate n first) p)
  duplicate-IsOrderly k first q = record {
    known = i.known;
    tracked = i.tracked;
    below = λ e h. omega (arith, i.below e h);
    single = i.single;
    repeats = λ a b h. elim ((Elem-snoc p.issues (duplicate n first) (duplicate a b)).0 h) [
      | inl old ↦ i.repeats a b old
      | inr same ↦
          let at_n : a ≡ n = ground arith in
          let to_first : b ≡ first = ground arith in
          let (e, there, _, row) = i.tracked k first q in
          (omega (arith, i.below e there, at_n, to_first, row), (e, there, rw to_first row))
    ];
    acceptable = i.acceptable;
  }

  accept-IsOrderly :
      (source : Source) (c : Candidate)
      → map_get (duplicate_key c.website_origin c.username) p.first_row_by_duplicate_key ≡ none
      → IsAcceptable new_url c.name c.website_origin c.username c.password
      → IsOrderly new_url (suc n) (accept source n c p)
  accept-IsOrderly source c new good = record {
    known = λ e h. keeps_known e ((Elem-snoc p.accepted (entry_of source n c) e).0 h);
    tracked = keeps_tracked;
    below = λ e h. elim ((Elem-snoc p.accepted (entry_of source n c) e).0 h) [
      | inl old ↦ omega (arith, i.below e old)
      | inr same ↦ rw same (omega arith)
    ];
    single = λ e e' h h' q.
        keeps_single e e' ((Elem-snoc p.accepted (entry_of source n c) e).0 h)
          ((Elem-snoc p.accepted (entry_of source n c) e').0 h') q;
    repeats = λ a b h.
        let (lt, (e, there, row)) = i.repeats a b h in
        (lt, (e, (Elem-snoc p.accepted (entry_of source n c) e).1 (inl there), row));
    acceptable = λ e h. elim ((Elem-snoc p.accepted (entry_of source n c) e).0 h) [
      | inl old ↦ i.acceptable e old
      | inr same ↦ rw same good
    ];
  }
    where
      keeps_known :
          (e : AcceptedEntry)
          → Elem e p.accepted ⊎ (e ≡ entry_of source n c)
          → map_get (key_of e) (accept source n c p).first_row_by_duplicate_key ≡ some e.row_index
      keeps_known e (inr same) =
          rw
            (
              same,
              map_get-map_set (duplicate_key c.website_origin c.username)
                  (duplicate_key c.website_origin c.username) n p.first_row_by_duplicate_key,
              text_eq_self (duplicate_key c.website_origin c.username),
            )
            refl
      keeps_known e (inl old) =
          elim (Bool-cases (text_eq (duplicate_key c.website_origin c.username) (key_of e))) [
            | inr n' ↦
                rw
                  (
                    map_get-map_set (duplicate_key c.website_origin c.username) (key_of e) n
                        p.first_row_by_duplicate_key,
                    n',
                  )
                  (i.known e old)
            | inl y ↦
                let same =
                  (text_eq_iff (duplicate_key c.website_origin c.username) (key_of e)).0 y in
                let gone = rw same at new in absurd (ground (arith, gone, i.known e old))
          ]

      keeps_tracked :
          (k : Text) (j : ℕ)
          → map_get k (accept source n c p).first_row_by_duplicate_key ≡ some j
          → (e : AcceptedEntry) × Elem e (accept source n c p).accepted
            × (key_of e ≡ k)
            × (e.row_index ≡ j)
      keeps_tracked k j h =
          let look =
            map_get-map_set (duplicate_key c.website_origin c.username) k n
              p.first_row_by_duplicate_key in
          elim (Bool-cases (text_eq (duplicate_key c.website_origin c.username) k)) [
            | inl y ↦ (
              entry_of source n c,
              (Elem-snoc p.accepted (entry_of source n c) (entry_of source n c)).1 (inr refl),
              (text_eq_iff (duplicate_key c.website_origin c.username) k).0 y,
              ground arith,
            )
            | inr n' ↦
                let (e, there, key, row) = i.tracked k j (ground arith) in
                (e, (Elem-snoc p.accepted (entry_of source n c) e).1 (inl there), key, row)
          ]

      keeps_single :
          (e e' : AcceptedEntry)
          → Elem e p.accepted ⊎ (e ≡ entry_of source n c)
          → Elem e' p.accepted ⊎ (e' ≡ entry_of source n c)
          → e.row_index ≡ e'.row_index
          → e ≡ e'
      keeps_single e e' (inl old) (inl old') q = i.single e e' old old' q
      keeps_single e e' (inr same) (inr same') q = same ∙ sym same'
      keeps_single e e' (inl old) (inr same') q =
          absurd (omega (arith, i.below e old, q, ap (λ (a : AcceptedEntry). a.row_index) same'))
      keeps_single e e' (inr same) (inl old') q =
          absurd (omega (arith, i.below e' old', q, ap (λ (a : AcceptedEntry). a.row_index) same))

module _ (new_url : Text → Option Url) (nfc : Text → Text) where
  pub add_row-IsOrderly :
      (source : Source) (headers : List Text) (n : ℕ) (row : ParsedCsvRecord) (p : Progress)
      → IsOrderly new_url n p
      → IsOrderly new_url (suc n) (add_row new_url nfc source headers n row p)
  unfolding add_row
  add_row-IsOrderly source headers n row p i = judged (judge_row new_url nfc headers row) refl
    where
      candidate :
          (c : Candidate) (found : Option ℕ)
          → IsAcceptable new_url c.name c.website_origin c.username c.password
          → map_get (duplicate_key c.website_origin c.username) p.first_row_by_duplicate_key ≡ found
          → IsOrderly new_url (suc n) (add_candidate source n c found p)
      candidate c none good new = accept-IsOrderly n p i source c new good
      candidate c (some first) good old =
          duplicate-IsOrderly n p i (duplicate_key c.website_origin c.username) first old

      judged :
          (r : Result Reason Candidate)
          → judge_row new_url nfc headers row ≡ r
          → IsOrderly new_url (suc n) (add_judged source n r p)
      judged (err reason) e = refused-IsOrderly n p i reason
      judged (ok c) e = candidate c _ (judge_row_sound new_url nfc headers row c e) refl

  pub add_rows-IsOrderly :
      (source : Source) (headers : List Text) (n : ℕ) (rows : List ParsedCsvRecord) (p : Progress)
      → IsOrderly new_url n p
      → IsOrderly new_url (n + length rows) (add_rows new_url nfc source headers n rows p)
  unfolding add_rows
  add_rows-IsOrderly source headers n [] p i = subst (λ k. IsOrderly new_url k p) (omega arith) i
  add_rows-IsOrderly source headers n (row ∷ rows) p i =
      let q = add_row new_url nfc source headers n row p in
      subst (λ k. IsOrderly new_url k (add_rows new_url nfc source headers (suc n) rows q))
        (omega arith)
        (add_rows-IsOrderly source headers (suc n) rows q
          (add_row-IsOrderly source headers n row p i))
