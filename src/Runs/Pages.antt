-- ===== src/Runs/Pages.antt =====
-- Pages of rows, of crates/bsrs/src/event_model/page.rs: packing events and datums into a page,
-- unpacking, merging and rechunking pages. `none` stands for a panic on an index, in `pack_*` for
-- the error `EmptyPack`.
pub mod RoundTrip
pub mod Chunks
pub mod Rechunk
mod RechunkDatums
use bsrs.Prelude.{
  ℕ, zero, suc, ◌+◌, ◌-◌, min, String, Option, none, some, List, [], ◌∷◌, ◌++◌, map, if◌then◌else◌,
  ltb, leb, ◌==◌, length, get_elem?, take, drop,
}
use bsrs.Prelude.Rows.{rows}
use bsrs.Runs.Columns.{push_rows, push_pages, row_of, slice_cols}
use bsrs.Runs.Documents.{Payload, Fields, Event, EventPage, Datum, DatumPage}

-- `v[start..stop]`, which panics past the end.
unfoldable pub range {ℓ} : {A : Type ℓ} → ℕ → ℕ → List A → Option (List A)
range start stop xs =
    if leb stop (length xs) then some (take (stop - start) (drop start xs)) else none

abbrev pub concat {ℓ} : {A : Type ℓ} → List (List A) → List A
concat [] = []
concat (xs ∷ xss) = xs ++ concat xss

-- The loop `while start < n` of both rechunkings; `cut` copies the rows from `start` to `stop`.
unfoldable pub chunks {ℓ} : {A : Type ℓ} → (ℕ → ℕ → Option A) → ℕ → ℕ → ℕ → ℕ → Option (List A)
chunks cut n size zero start = some []
chunks cut n size (suc fuel) start =
    let stop = min (start + size) n in
    let rest = chunks cut n size fuel stop in
    if ltb start n
    then elim (cut start stop) [
      | none ↦ none
      | some c ↦ elim rest [ none ↦ none | some cs ↦ some (c ∷ cs) ]
    ]
    else some []

module _ {P : Payload} where
  unfoldable pub pack_event_page : List (Event P) → Option (EventPage P)
  pack_event_page [] = none
  pack_event_page (e ∷ es) = some record {
    uid = map (λ x. x.uid) (e ∷ es);
    descriptor = e.descriptor;
    time = map (λ x. x.time) (e ∷ es);
    seq_num = map (λ x. x.seq_num) (e ∷ es);
    «data» = push_rows (map (λ x. x.«data») (e ∷ es)) [];
    timestamps = push_rows (map (λ x. x.timestamps) (e ∷ es)) [];
    filled = push_rows (map (λ x. x.filled) (e ∷ es)) [];
  }

  -- One row of a page, from what the reads of its columns return.
  abbrev pub event_row :
      String
      → Option String
      → Option P.Float
      → Option ℕ
      → Fields P.Value
      → Fields P.Float
      → Fields P.Value
      → Option (Event P)
  event_row d none t n a b c = none
  event_row d (some u) none n a b c = none
  event_row d (some u) (some t) none a b c = none
  event_row d (some u) (some t) (some n) a b c = some record {
    uid = u;
    descriptor = d;
    time = t;
    seq_num = n;
    «data» = a;
    timestamps = b;
    filled = c;
  }

  -- The closure of `unpack_event_page` at row i.
  unfoldable pub event_at : EventPage P → ℕ → Option (Event P)
  event_at page i =
      event_row page.descriptor (get_elem? page.uid i) (get_elem? page.time i)
        (get_elem? page.seq_num i) (row_of i page.«data») (row_of i page.timestamps)
        (row_of i page.filled)

  unfoldable pub unpack_event_page : EventPage P → Option (List (Event P))
  unpack_event_page page = rows (event_at page) 0 (length page.uid)

  unfoldable pub pack_datum_page : List (Datum P) → Option (DatumPage P)
  pack_datum_page [] = none
  pack_datum_page (d ∷ ds) = some record {
    datum_id = map (λ x. x.datum_id) (d ∷ ds);
    resource = d.resource;
    datum_kwargs = push_rows (map (λ x. x.datum_kwargs) (d ∷ ds)) [];
  }

  abbrev pub datum_row : String → Option String → Fields P.Value → Option (Datum P)
  datum_row r none a = none
  datum_row r (some u) a = some record { datum_id = u; resource = r; datum_kwargs = a }

  unfoldable pub datum_at : DatumPage P → ℕ → Option (Datum P)
  datum_at page i = datum_row page.resource (get_elem? page.datum_id i) (row_of i page.datum_kwargs)

  unfoldable pub unpack_datum_page : DatumPage P → Option (List (Datum P))
  unpack_datum_page page = rows (datum_at page) 0 (length page.datum_id)

  unfoldable pub merge_event_pages : List (EventPage P) → EventPage P
  merge_event_pages (p ∷ []) = p
  merge_event_pages [] = record {
    uid = [];
    descriptor = "";
    time = [];
    seq_num = [];
    «data» = [];
    timestamps = [];
    filled = [];
  }
  merge_event_pages (p ∷ q ∷ ps) = record {
    uid = concat (map (λ x. x.uid) (p ∷ q ∷ ps));
    descriptor = p.descriptor;
    time = concat (map (λ x. x.time) (p ∷ q ∷ ps));
    seq_num = concat (map (λ x. x.seq_num) (p ∷ q ∷ ps));
    «data» = push_pages (map (λ x. x.«data») (p ∷ q ∷ ps)) [];
    timestamps = push_pages (map (λ x. x.timestamps) (p ∷ q ∷ ps)) [];
    filled = push_pages (map (λ x. x.filled) (p ∷ q ∷ ps)) [];
  }

  -- The page that the loop of `rechunk_event_pages` pushes.
  unfoldable pub event_chunk : EventPage P → ℕ → ℕ → Option (EventPage P)
  event_chunk merged start stop = elim (range start stop merged.uid) [
    | none ↦ none
    | some us ↦ elim (range start stop merged.time) [
      | none ↦ none
      | some ts ↦ elim (range start stop merged.seq_num) [
        | none ↦ none
        | some ns ↦ some record {
          uid = us;
          descriptor = merged.descriptor;
          time = ts;
          seq_num = ns;
          «data» = slice_cols start stop merged.«data»;
          timestamps = slice_cols start stop merged.timestamps;
          filled = slice_cols start stop merged.filled;
        }
      ]
    ]
  ]

  unfoldable pub rechunk_event_pages : List (EventPage P) → ℕ → Option (List (EventPage P))
  rechunk_event_pages pages chunk_size =
      let merged = merge_event_pages pages in
      let n = length merged.uid in
      if chunk_size == 0 then some [] else chunks (event_chunk merged) n chunk_size n 0

  unfoldable pub merge_datum_pages : List (DatumPage P) → DatumPage P
  merge_datum_pages (p ∷ []) = p
  merge_datum_pages [] = record { datum_id = []; resource = ""; datum_kwargs = [] }
  merge_datum_pages (p ∷ q ∷ ps) = record {
    datum_id = concat (map (λ x. x.datum_id) (p ∷ q ∷ ps));
    resource = p.resource;
    datum_kwargs = push_pages (map (λ x. x.datum_kwargs) (p ∷ q ∷ ps)) [];
  }

  unfoldable pub datum_chunk : DatumPage P → ℕ → ℕ → Option (DatumPage P)
  datum_chunk merged start stop = elim (range start stop merged.datum_id) [
    | none ↦ none
    | some us ↦ some record {
      datum_id = us;
      resource = merged.resource;
      datum_kwargs = slice_cols start stop merged.datum_kwargs;
    }
  ]

  unfoldable pub rechunk_datum_pages : List (DatumPage P) → ℕ → Option (List (DatumPage P))
  rechunk_datum_pages pages chunk_size =
      let merged = merge_datum_pages pages in
      let n = length merged.datum_id in
      if chunk_size == 0 then some [] else chunks (datum_chunk merged) n chunk_size n 0
