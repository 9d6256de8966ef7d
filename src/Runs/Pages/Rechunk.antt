-- ===== src/Runs/Pages/Rechunk.antt =====
-- Rechunking event pages keeps the events, of crates/bsrs/src/event_model/page.rs.
use bsrs.Prelude.{ℕ, ◌-◌, ◌≡◌, String, List, map, length, take, drop, All}
use bsrs.Prelude.Maps.{lookup, HasKeysApart}
use bsrs.Runs.Columns.{slice_cols, or_nil, columns}
use bsrs.Runs.Documents.{Payload, EventPage}
use bsrs.Runs.Pages.{concat}

module _ {P : Payload} where
  -- Every row has a uid, a time and a number.
  abbrev pub IsAligned : EventPage P → Type 0
  IsAligned p = (length p.time ≡ length p.uid) × (length p.seq_num ≡ length p.uid)

  abbrev event_part : EventPage P → ℕ → ℕ → EventPage P
  event_part m start stop = record {
    uid = take (stop - start) (drop start m.uid);
    descriptor = m.descriptor;
    time = take (stop - start) (drop start m.time);
    seq_num = take (stop - start) (drop start m.seq_num);
    «data» = slice_cols start stop m.«data»;
    timestamps = slice_cols start stop m.timestamps;
    filled = slice_cols start stop m.filled;
  }

  -- All the rows of the pages, in order, under the descriptor of the first page.
  pub record Joined (ps : List (EventPage P)) (m : EventPage P) : Type 0 where
    pub uid : m.uid ≡ concat (map (λ p. p.uid) ps)
    pub time : m.time ≡ concat (map (λ p. p.time) ps)
    pub seq_num : m.seq_num ≡ concat (map (λ p. p.seq_num) ps)
    pub first : All (λ p. m.descriptor ≡ p.descriptor) (take 1 ps)
    pub values : (j : String) → or_nil (lookup j m.«data») ≡ columns j (map (λ p. p.«data») ps)
    pub timestamps :
        (j : String) → or_nil (lookup j m.timestamps) ≡ columns j (map (λ p. p.timestamps) ps)
    pub filled : (j : String) → or_nil (lookup j m.filled) ≡ columns j (map (λ p. p.filled) ps)

  -- No key has two columns.
  abbrev pub HasColumns : EventPage P → Type 0
  HasColumns p = HasKeysApart p.«data» × HasKeysApart p.timestamps × HasKeysApart p.filled
