-- ===== src/Files/Tests.antt =====
-- One file with two references.
use osassignment.Prelude.{◌≡◌, refl, some, none, [], ◌∷◌, ◌==◌, if◌then◌else◌, ok}
use osassignment.Files.{fd_none, Table, put, alloc_from, filealloc, filedup, fileclose}
use osassignment.Files.Counts.{
  Reachable, starts, allocates, dups, empty_table, refs_to, fileclose_held,
}

abbrev table1 : Table
table1 = put empty_table 0 (record { ref = 1; ftype = fd_none })

abbrev table2 : Table
table2 = put table1 0 (record { ref = 2; ftype = fd_none })

allocated : filealloc empty_table ≡ (some 0, table1)
unfolding filealloc alloc_from
allocated = refl

duplicated : filedup table1 0 ≡ ok table2
unfolding filedup
duplicated = refl

twice : Reachable (record { table = table2; refs = 0 ∷ 0 ∷ [] })
twice = dups 0 table2 duplicated (allocates 0 table1 allocated starts)

fileclose_held_example :
    (t : Table) × (fileclose table2 0
      ≡ ok (t, (if refs_to 0 (0 ∷ []) == 0 then some (table2 0).ftype else none)))
fileclose_held_example = fileclose_held [] (0 ∷ []) 0 twice refl
