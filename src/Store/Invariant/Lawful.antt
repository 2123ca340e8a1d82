-- ===== src/Store/Invariant/Lawful.antt =====
-- The relation of two worlds that what holds of the tables of the first holds of those of the second.
use ribat.Store.World.Keeps.{Preorder}
use ribat.Store.Invariant.{IsWellFormed}

-- Tables that were well-formed are.
abbrev pub lawful : Preorder
lawful = record {
  rel = λ v w. IsWellFormed v.db → IsWellFormed w.db;
  same = λ w h. h;
  after = λ g h v. h (g v);
  calls = λ w later h. h;
}
