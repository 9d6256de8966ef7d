-- ===== src/Runs/Pages/RoundTrip.antt =====
-- Packing events into a page and unpacking it, of crates/bsrs/src/event_model/page.rs.
use bsrs.Prelude.{
  ℕ, ◌+◌, String, ◌≡◌, refl, sym, some, List, [], ◌∷◌, map, arith, length-map, get_elem?, All,
}
use bsrs.Prelude.Maps.{lookup, HasKeysApart}
use bsrs.Prelude.Rows.{Pairwise, rows-Pairwise, get_elem?-map, get_elem?-All, All-map, All-weaken}
use bsrs.Runs.Columns.{has, push_rows, row_of, row_of-push_rows}
use bsrs.Runs.Documents.{Payload, Event, EventPage, Datum, DatumPage}
use bsrs.Runs.Pages.{
  pack_event_page, unpack_event_page, event_at, pack_datum_page, unpack_datum_page, datum_at,
}

zero_add : (i : ℕ) → 0 + i ≡ i
zero_add i = omega arith

-- Two maps with the same entries.
abbrev pub Same : {A : Type 0} → List (String × A) → List (String × A) → Type 0
Same r s = (j : String) → lookup j r ≡ lookup j s

module _ {P : Payload} where
  -- Two events that differ at most in the order of their maps' entries.
  abbrev pub AlikeEvents : Event P → Event P → Type 0
  AlikeEvents e f =
      (e.uid ≡ f.uid)
      × (e.descriptor ≡ f.descriptor)
      × (e.time ≡ f.time)
      × (e.seq_num ≡ f.seq_num)
      × Same e.«data» f.«data»
      × Same e.timestamps f.timestamps
      × Same e.filled f.filled

  abbrev pub HasMaps : Event P → Type 0
  HasMaps e = HasKeysApart e.«data» × HasKeysApart e.timestamps × HasKeysApart e.filled

  -- The event is of the same stream as the first: same descriptor, same keys.
  abbrev pub OfStream : Event P → Event P → Type 0
  OfStream d e =
      (e.descriptor ≡ d.descriptor)
      × ((j : String) → has j e.«data» ≡ has j d.«data»)
      × ((j : String) → has j e.timestamps ≡ has j d.timestamps)
      × ((j : String) → has j e.filled ≡ has j d.filled)

  abbrev pub OfResource : Datum P → Datum P → Type 0
  OfResource d e =
      (e.resource ≡ d.resource) × ((j : String) → has j e.datum_kwargs ≡ has j d.datum_kwargs)

  abbrev pub AlikeDatums : Datum P → Datum P → Type 0
  AlikeDatums d e =
      (d.datum_id ≡ e.datum_id) × (d.resource ≡ e.resource) × Same d.datum_kwargs e.datum_kwargs

-- One field of the documents, packed and read back.
module _ {D A : Type 0} where
  read_back :
      (field : D → List (String × A)) (d : D) (i : ℕ) (x : D) (xs : List D)
      → All (λ y. HasKeysApart (field y)) xs
      → All (λ y. (j : String) → has j (field y) ≡ has j (field d)) xs
      → get_elem? xs i ≡ some x
      → Same (field x) (row_of i (push_rows (map field xs) []))
  read_back field d i x xs k a h j = sym (
      row_of-push_rows j i (field x) (has j (field d)) (map field xs)
        (All-map (λ r. HasKeysApart r) field xs k)
        (All-map (λ r. has j r ≡ has j (field d)) field xs
          (All-weaken (λ y. (k : String) → has k (field y) ≡ has k (field d)) _ (λ y f. f j) xs a))
        (get_elem?-map field i x xs h))

module _ {P : Payload} where
  abbrev packed : Event P → List (Event P) → EventPage P
  packed d es = record {
    uid = map (λ x. x.uid) (d ∷ es);
    descriptor = d.descriptor;
    time = map (λ x. x.time) (d ∷ es);
    seq_num = map (λ x. x.seq_num) (d ∷ es);
    «data» = push_rows (map (λ x. x.«data») (d ∷ es)) [];
    timestamps = push_rows (map (λ x. x.timestamps) (d ∷ es)) [];
    filled = push_rows (map (λ x. x.filled) (d ∷ es)) [];
  }

  event_at-packed :
      (d : Event P) (es : List (Event P)) (i : ℕ) (x : Event P)
      → All HasMaps (d ∷ es)
      → All (OfStream d) (d ∷ es)
      → get_elem? (d ∷ es) i ≡ some x
      → (y : Event P) × (event_at (packed d es) i ≡ some y) × AlikeEvents x y
  unfolding event_at
  event_at-packed d es i x k a h = (
    record {
      uid = x.uid;
      descriptor = d.descriptor;
      time = x.time;
      seq_num = x.seq_num;
      «data» = row_of i (packed d es).«data»;
      timestamps = row_of i (packed d es).timestamps;
      filled = row_of i (packed d es).filled;
    },
    rw (get_elem?-map (λ y. y.uid) i x (d ∷ es) h) (
        rw (get_elem?-map (λ y. y.time) i x (d ∷ es) h)
          (rw (get_elem?-map (λ y. y.seq_num) i x (d ∷ es) h) refl)),
    (
      refl,
      (get_elem?-All (OfStream d) i x (d ∷ es) a h).0,
      refl,
      refl,
      read_back (λ y. y.«data») d i x (d ∷ es) (All-weaken HasMaps _ (λ y m. m.0) (d ∷ es) k)
          (All-weaken (OfStream d) _ (λ y m. m.1) (d ∷ es) a) h,
      read_back (λ y. y.timestamps) d i x (d ∷ es) (All-weaken HasMaps _ (λ y m. m.1) (d ∷ es) k)
          (All-weaken (OfStream d) _ (λ y m. m.2) (d ∷ es) a) h,
      read_back (λ y. y.filled) d i x (d ∷ es) (All-weaken HasMaps _ (λ y m. m.2) (d ∷ es) k)
          (All-weaken (OfStream d) _ (λ y m. m.3) (d ∷ es) a) h,
    ),
  )

  abbrev packed_datums : Datum P → List (Datum P) → DatumPage P
  packed_datums d ds = record {
    datum_id = map (λ x. x.datum_id) (d ∷ ds);
    resource = d.resource;
    datum_kwargs = push_rows (map (λ x. x.datum_kwargs) (d ∷ ds)) [];
  }

  datum_at-packed :
      (d : Datum P) (ds : List (Datum P)) (i : ℕ) (x : Datum P)
      → All (λ y. HasKeysApart y.datum_kwargs) (d ∷ ds)
      → All (OfResource d) (d ∷ ds)
      → get_elem? (d ∷ ds) i ≡ some x
      → (y : Datum P) × (datum_at (packed_datums d ds) i ≡ some y) × AlikeDatums x y
  unfolding datum_at
  datum_at-packed d ds i x k a h = (
    record {
      datum_id = x.datum_id;
      resource = d.resource;
      datum_kwargs = row_of i (packed_datums d ds).datum_kwargs;
    },
    rw (get_elem?-map (λ y. y.datum_id) i x (d ∷ ds) h) refl,
    (
      refl,
      (get_elem?-All (OfResource d) i x (d ∷ ds) a h).0,
      read_back (λ y. y.datum_kwargs) d i x (d ∷ ds) k
          (All-weaken (OfResource d) _ (λ y m. m.1) (d ∷ ds) a) h,
    ),
  )

  -- Packing events of one stream and unpacking the page gives the events back, in order: the page is
  -- there, no index panics, and every event has its uid, descriptor, time, number and the entries of
  -- its three maps. The events are one or more, the first of them `d`, each with the descriptor and
  -- the keys of `d`, and no map of an event has a key twice.
  pub pack_event_page-unpack :
      (d : Event P) (es : List (Event P))
      → All HasMaps (d ∷ es)
      → All (OfStream d) es
      → (page : EventPage P) × (out : List (Event P)) × (pack_event_page (d ∷ es) ≡ some page)
        × (unpack_event_page page ≡ some out)
        × Pairwise AlikeEvents (d ∷ es) out
  unfolding pack_event_page unpack_event_page event_at
  pack_event_page-unpack d es k s =
      let a : All (OfStream d) (d ∷ es) = ((refl, (λ j. refl), (λ j. refl), (λ j. refl)), s) in
      let (out, e, r) =
        rows-Pairwise AlikeEvents (event_at (packed d es)) 0 (d ∷ es)
          (λ i x h. rw (zero_add i) (event_at-packed d es i x k a h)) in
      (packed d es, out, refl, rw (length-map (λ x. x.uid) (d ∷ es)) e, r)

  -- Packing datums of one resource and unpacking the page gives the datums back, in order. The
  -- datums are one or more, the first of them `d`, each with the resource and the keys of `d`, and no
  -- datum has a key twice.
  pub pack_datum_page-unpack :
      (d : Datum P) (ds : List (Datum P))
      → All (λ x. HasKeysApart x.datum_kwargs) (d ∷ ds)
      → All (OfResource d) ds
      → (page : DatumPage P) × (out : List (Datum P)) × (pack_datum_page (d ∷ ds) ≡ some page)
        × (unpack_datum_page page ≡ some out)
        × Pairwise AlikeDatums (d ∷ ds) out
  unfolding pack_datum_page unpack_datum_page
  pack_datum_page-unpack d ds k s =
      let a : All (OfResource d) (d ∷ ds) = ((refl, (λ j. refl)), s) in
      let (out, e, r) =
        rows-Pairwise AlikeDatums (datum_at (packed_datums d ds)) 0 (d ∷ ds)
          (λ i x h. rw (zero_add i) (datum_at-packed d ds i x k a h)) in
      (packed_datums d ds, out, refl, rw (length-map (λ x. x.datum_id) (d ∷ ds)) e, r)
