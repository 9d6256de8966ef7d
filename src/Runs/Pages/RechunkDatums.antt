-- ===== src/Runs/Pages/RechunkDatums.antt =====
-- Rechunking datum pages keeps the datums, of crates/bsrs/src/event_model/page.rs.
use bsrs.Prelude.{map, ℕ, ◌+◌, ◌-◌, ◌<◌, ◌≤◌, ◌≡◌, refl, some, List, arith, length, take, drop}
use bsrs.Prelude.Rows.{rows, rows_congr}
use bsrs.Runs.Columns.{slice_cols, row_of-slice_cols}
use bsrs.Runs.Documents.{Payload, DatumPage}
use bsrs.Runs.Pages.{
  datum_at, unpack_datum_page, merge_datum_pages, datum_chunk, rechunk_datum_pages,
}
use bsrs.Runs.Pages.Chunks.{
  IsChunked, unpack_all, zero_add, sub_zero, range-length, get_elem?-range, length-range,
  chunks-rows,
}

module _ {P : Payload} where
  abbrev datum_part : DatumPage P → ℕ → ℕ → DatumPage P
  datum_part m start stop = record {
    datum_id = take (stop - start) (drop start m.datum_id);
    resource = m.resource;
    datum_kwargs = slice_cols start stop m.datum_kwargs;
  }

  datum_chunk-part :
      (m : DatumPage P) (start stop : ℕ)
      → stop ≤ length m.datum_id
      → datum_chunk m start stop ≡ some (datum_part m start stop)
  unfolding datum_chunk
  datum_chunk-part m start stop h = rw (datum_chunk, range-length start stop m.datum_id h) refl

  datum_at-part :
      (m : DatumPage P) (start stop k : ℕ)
      → start + k < stop
      → datum_at (datum_part m start stop) k ≡ datum_at m (start + k)
  unfolding datum_at
  datum_at-part m start stop k h =
      rw
        (
          datum_at,
          get_elem?-range start stop k m.datum_id h,
          row_of-slice_cols start stop k m.datum_kwargs h,
        )
        refl

  unpack-datum_part :
      (m : DatumPage P) (start stop : ℕ)
      → start < stop
      → stop ≤ length m.datum_id
      → unpack_datum_page (datum_part m start stop) ≡ rows (datum_at m) start (stop - start)
  unfolding unpack_datum_page
  unpack-datum_part m start stop l h = rw (length-range start stop m.datum_id (omega arith) h) (
      rows_congr (datum_at (datum_part m start stop)) (datum_at m) 0 start (stop - start)
        (λ k g. rw (zero_add k) (datum_at-part m start stop k (omega arith))))

  -- Rechunking datum pages does the same.
  rechunk_datum_pages-unpack :
      (ps : List (DatumPage P)) (chunk_size : ℕ)
      → 0 < chunk_size
      → (cs : List (DatumPage P)) × (rechunk_datum_pages ps chunk_size ≡ some cs)
        × (unpack_all unpack_datum_page cs ≡ unpack_datum_page (merge_datum_pages ps))
        × IsChunked chunk_size (map (λ c. length c.datum_id) cs)
  unfolding rechunk_datum_pages unpack_datum_page
  rechunk_datum_pages-unpack ps size p =
      let m = merge_datum_pages ps in
      let (cs, e1, e2, e3, _) =
        chunks-rows (datum_chunk m) unpack_datum_page (λ c. length c.datum_id) (datum_at m)
          (length m.datum_id) size
          (λ start stop l k. (
            datum_part m start stop,
            datum_chunk-part m start stop k,
            unpack-datum_part m start stop l k,
            length-range start stop m.datum_id (omega arith) k,
          ))
          p (length m.datum_id) 0 (omega arith) in
      (cs, ground (arith, e1, p), rw (sub_zero (length m.datum_id)) at e2, e3)
