-- ===== src/Fs/Dir/Tests.antt =====
-- A file is linked into an empty directory.
use osassignment.Prelude.{
  ℕ, ◌+◌, ◌<◌, ◌≡◌, ◌⊎◌, none, some, List, [], ◌∷◌, ◌==◌, flag, All, ok, panic, arith, refl,
}
use osassignment.Prelude.Int.{pos}
use osassignment.Fs.Inode.{FileState, t_dir}
use osassignment.Fs.Inode.Slots.{IsFile}
use osassignment.Fs.Cache.{Icache, iget}
use osassignment.Fs.Cache.Refs.{refs}
use osassignment.Fs.Dir.{find_entry, dirlookup, dirlink}
use osassignment.Fs.Dir.Lookup.{IsDir, first_match, entries, dirlookup-first_match}
use osassignment.Fs.Dir.Linked.{SameOthers, Refused, dirlink-dirlookup}
use osassignment.Fs.Tests.{
  super, super-IsLaidOut, fresh_disk, fresh_disk-IsReserved, empty_inode, empty_slot, no_devices,
  five_free,
}

abbrev empty_dir : FileState
empty_dir = record { disk = fresh_disk; ip = record empty_inode { itype = t_dir } }

empty_dir-IsFile : IsFile super empty_dir
empty_dir-IsFile = record {
  reserved = fresh_disk-IsReserved;
  taken = λ k h ne. absurd (ne (empty_slot k));
  distinct = λ j k hj hk ne e. absurd (ne (empty_slot j));
}

empty_dir-IsDir : IsDir empty_dir
empty_dir-IsDir = record {
  itype = refl;
  full = record { bounded = omega arith; there = λ o h. absurd (omega (arith, h)) };
  whole = refl;
}

abbrev a_name : List ℕ
a_name = b'a' ∷ b'b' ∷ []

abbrev one_slot : Icache
one_slot = record empty_inode { inum = 0; ref = 0 } ∷ []

dirlookup-first_match_example :
    ((first_match (entries empty_dir) empty_dir a_name 0 ≡ none)
      × (dirlookup super no_devices one_slot empty_dir a_name ≡ ok (none, one_slot, empty_dir)))
    ⊎ ((e : ℕ × ℕ) × (first_match (entries empty_dir) empty_dir a_name 0 ≡ some e)
        × (((dirlookup super no_devices one_slot empty_dir a_name ≡ panic)
              × (refs one_slot e.0 ≡ 0)
              × All (λ ip. 0 < ip.ref) one_slot)
            ⊎ ((c' : Icache) × (iget one_slot e.0 ≡ ok c')
                × (dirlookup super no_devices one_slot empty_dir a_name
                    ≡ ok (some e, c', empty_dir))
                × ((m : ℕ) → refs c' m ≡ refs one_slot m + flag (e.0 == m)))))
dirlookup-first_match_example =
    dirlookup-first_match super no_devices empty_dir empty_dir-IsDir one_slot a_name

dirlink-dirlookup_example :
    ((e : ℕ × ℕ) × (find_entry super no_devices empty_dir a_name ≡ ok (some e, empty_dir))
      × Refused one_slot empty_dir e.0 (dirlink super no_devices one_slot empty_dir a_name 2))
    ⊎ ((off : ℕ) × (dp' : FileState) × (find_entry super no_devices empty_dir a_name
          ≡ ok (none, empty_dir))
        × (dirlink super no_devices one_slot empty_dir a_name 2 ≡ ok (pos 0, one_slot, dp'))
        × (find_entry super no_devices dp' a_name ≡ ok (some (2, off), dp'))
        × SameOthers super no_devices a_name empty_dir dp')
dirlink-dirlookup_example =
    dirlink-dirlookup super no_devices one_slot empty_dir a_name 2 super-IsLaidOut empty_dir-IsFile
      empty_dir-IsDir (omega arith) (omega arith) (omega (arith, five_free))
      (omega arith, (omega arith, tt)) (omega arith) (omega arith)
