-- ===== src/Store/Tables.antt =====
-- `INSERT OR REPLACE` with a given id, on a table whose rows SQLite keeps in the order of their ids.
pub mod Order
pub mod Import
use ribat.Base.{
  ℕ, Bool, true, false, not, ◌&&◌, List, [], ◌∷◌, ltb, leb, ◌==◌, if◌then◌else◌, keep, insert_by,
  ◌≡◌, refl,
}
use ribat.Store.Rows.{Table}

-- How the rows of a table are told apart: the key, and what a UNIQUE constraint compares.
pub record Keys (A : Type 0) : Type 0 where
  pub id : A → ℕ
  pub clash : A → A → Bool

module _ {A : Type 0} (k : Keys A) where
  -- Both rows can stand in the table.
  abbrev pub compatible : A → A → Bool
  compatible r s = not (k.id r == k.id s) && not (k.clash r s)

  unfoldable pub by_id : A → A → Bool
  by_id r s = ltb (k.id r) (k.id s)

  -- The rows that the new one conflicts with go, and it takes its place in the order.
  unfoldable pub replace_row : A → List A → List A
  unfolding by_id
  replace_row r rows = insert_by by_id r (keep (compatible r) rows)

  unfoldable pub replace_rows : List A → List A → List A
  unfolding replace_row
  replace_rows [] rows = rows
  replace_rows (r ∷ rs) rows = replace_rows rs (replace_row r rows)

  -- The table after one statement; AUTOINCREMENT goes on behind the largest id.
  unfoldable pub import_row : A → Table A → Table A
  unfolding replace_row
  import_row r t = record {
    rows = replace_row r t.rows;
    seq = if leb t.seq (k.id r) then k.id r else t.seq;
  }

  unfoldable pub import_rows : List A → Table A → Table A
  unfolding import_row
  import_rows [] t = t
  import_rows (r ∷ rs) t = import_rows rs (import_row r t)

  -- The rows do not hang on the counter.
  pub rows-import_rows :
      (rs : List A) (t : Table A) → (import_rows rs t).rows ≡ replace_rows rs t.rows
  unfolding import_rows replace_rows
  rows-import_rows [] t = refl
  rows-import_rows (r ∷ rs) t = rows-import_rows rs (import_row r t)
