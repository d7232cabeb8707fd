-- ===== src/Fs/Inode/Released.antt =====
-- `iput`: the last reference to a file without a name.
use osassignment.Prelude.{
  ℕ, ◌-◌, ◌*◌, ◌%◌, ◌<◌, ◌≤◌, ◌≡◌, ◌≢◌, refl, ap, ◌∙◌, ◌⊎◌, inl, inr, Bool, true, false, ◌&&◌, ltb,
  ◌==◌, ok, Bool-cases, arith,
}
use osassignment.Fs.{SuperBlock}
use osassignment.Fs.Blocks.Bitmap.{used}
use osassignment.Fs.Blocks.Layout.{first_data, IsLaidOut}
use osassignment.Fs.Inode.{Inode, FileState, short, iblock, ipb, itrunc, iupdate, iput}
use osassignment.Fs.Inode.Slots.{places, slot, IsFile, IsForeign}
use osassignment.Fs.Inode.OnDisk.{iupdate_behind, used-iupdate, itype_at}
use osassignment.Fs.Inode.Trunc.{HasBytes}
use osassignment.Fs.Inode.Emptied.{Emptied, itrunc-Emptied}

-- The last reference, and no directory has the file.
abbrev pub is_last : Inode → Bool
is_last ip = ltb 0 ip.valid && (ip.nlink == 0 && ip.ref == 1)

-- The file is gone: its blocks and its inode are free again.
pub record Released (sb : SuperBlock) (s s' : FileState) : Type 0 where
  pub freed : (k : ℕ) → k < places → slot s k ≢ 0 → used sb s'.disk (slot s k) ≡ 0
  pub kept : (v : ℕ) → v < sb.size → IsForeign s v → used sb s'.disk v ≡ used sb s.disk v
  pub blocks : (c j : ℕ) → first_data sb ≤ c → s'.disk c j ≡ s.disk c j
  pub unallocated : short s'.disk (iblock sb s.ip.inum) (64 * (s.ip.inum % ipb)) ≡ 0
  pub ref_eq : s'.ip.ref ≡ s.ip.ref - 1
  pub valid_eq : s'.ip.valid ≡ 0

abbrev without_type : Inode → Inode
without_type ip = record ip { itype = 0 }

Emptied-Released :
    (sb : SuperBlock) (s t : FileState) (ref : ℕ)
    → IsLaidOut sb
    → IsFile sb s
    → s.ip.inum < sb.ninodes
    → Emptied sb s t
    → ref ≡ s.ip.ref - 1
    → Released sb s (record {
      disk = iupdate sb t.disk (without_type t.ip);
      ip = record t.ip { itype = 0; valid = 0; ref = ref };
    })
Emptied-Released sb s t ref l f known e r =
    let number : t.ip.inum < sb.ninodes = omega (arith, known, e.inum_eq) in
    record {
      freed = λ k h ne.
          used-iupdate sb t.disk (without_type t.ip) (slot s k) l number (f.taken k h ne).in_range
          ∙ e.freed k h ne;
      kept = λ v h out. used-iupdate sb t.disk (without_type t.ip) v l number h ∙ e.kept v h out;
      blocks = λ c j h.
          iupdate_behind sb t.disk (without_type t.ip) c j l number (omega (arith, l.bitmap, h))
          ∙ e.blocks c j h;
      unallocated = rw (← e.inum_eq) (itype_at sb t.disk (without_type t.ip) (omega arith));
      ref_eq = r;
      valid_eq = refl;
    }

-- `iput` of a file that is in use elsewhere, or that has a name, only drops the reference. For the last
-- reference to a file without a name it does not panic: the blocks of the file are free, every other bit
-- and data block is kept, and the inode on the disk and the one in the cache are free as well.
pub iput-Released :
    (sb : SuperBlock) (s : FileState)
    → IsLaidOut sb
    → IsFile sb s
    → HasBytes sb s.disk
    → s.ip.inum < sb.ninodes
    → ((is_last s.ip ≡ false)
        × (iput sb s ≡ ok (record s { ip = record s.ip { ref = s.ip.ref - 1 } })))
      ⊎ ((is_last s.ip ≡ true) × (s' : FileState) × (iput sb s ≡ ok s') × Released sb s s')
unfolding iput
iput-Released sb s l f bytes known = elim (Bool-cases (is_last s.ip)) [
  | inr held ↦ inl (held, rw held refl)
  | inl last ↦
      let (t, q, e) = itrunc-Emptied sb s l f bytes known in
      inr (
        last,
        record {
          disk = iupdate sb t.disk (without_type t.ip);
          ip = record t.ip { itype = 0; valid = 0; ref = t.ip.ref - 1 };
        },
        iput_next sb s t last q,
        Emptied-Released sb s t (t.ip.ref - 1) l f known e (ap (λ (n : ℕ). n - 1) e.ref_eq),
      )
]
  where
    iput_next :
        (sb : SuperBlock) (s t : FileState)
        → is_last s.ip ≡ true
        → itrunc sb s ≡ ok t
        → iput sb s
          ≡ ok (record {
            disk = iupdate sb t.disk (without_type t.ip);
            ip = record t.ip { itype = 0; valid = 0; ref = t.ip.ref - 1 };
          })
    iput_next sb s t last q = rw (iput, last, q) refl
