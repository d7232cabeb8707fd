-- ===== src/Fs/Dir/Names.antt =====
-- The names in directory entries.
use osassignment.Prelude.{
  ℕ, zero, suc, ◌+◌, ◌^◌, ◌<◌, ◌≡◌, ◌≢◌, refl, ap, ◌∙◌, true, false, List, [], ◌∷◌, ◌==◌,
  Bool-cases, inl, inr, length-replicate, length, take, get_or, All, arith,
}
use osassignment.Prelude.Int.{pos}
use osassignment.Text.{strncpy}
use osassignment.Text.Copy.{c_string}
use osassignment.Text.Compare.{strncmp}
use osassignment.Fs.Dir.{dirsiz, dirent_inum, dirent_name, new_dirent, namecmp, is_zero, matches}
use osassignment.Fs.Data.{bytes}
use osassignment.Fs.Data.Bytes.{bytes_same}

c_string-strncpy : (t : List ℕ) (n : ℕ) → All (λ c. c ≢ 0) t → c_string (strncpy t n) ≡ take n t
unfolding strncpy
c_string-strncpy [] zero h = refl
c_string-strncpy (c ∷ t) zero h = refl
c_string-strncpy [] (suc n) h = refl
c_string-strncpy (c ∷ t) (suc n) h =
    let nonzero : c == 0 ≡ false = ground (arith, h.0) in
    rw nonzero (ap (λ l. c ∷ l) (c_string-strncpy t n h.1))

length-strncpy : (t : List ℕ) (n : ℕ) → length (strncpy t n) ≡ n
unfolding strncpy
length-strncpy [] zero = refl
length-strncpy (c ∷ t) zero = refl
length-strncpy [] (suc n) = ap suc (length-replicate n 0)
length-strncpy (c ∷ t) (suc n) = ap suc (length-strncpy t n)

strncmp-take : (t : List ℕ) (n : ℕ) → strncmp t (take n t) n ≡ pos 0
unfolding strncmp
strncmp-take t zero = refl
strncmp-take [] (suc n) = refl
strncmp-take (c ∷ t) (suc n) = let same : c == c ≡ true = ground arith in rw same (strncmp-take t n)

pub length-new_dirent : (name : List ℕ) (inum : ℕ) → length (new_dirent name inum) ≡ 16
unfolding new_dirent
length-new_dirent name inum = omega (arith, length-strncpy name dirsiz)

pub new_dirent-inum :
    (name : List ℕ) (inum : ℕ) → inum < 2 ^ 16 → dirent_inum (new_dirent name inum) ≡ inum
unfolding new_dirent dirent_inum
new_dirent-inum name inum h = omega (arith, h)

pub new_dirent-name :
    (name : List ℕ) (inum : ℕ)
    → All (λ c. c ≢ 0) name
    → dirent_name (new_dirent name inum) ≡ take dirsiz name
unfolding new_dirent dirent_name
new_dirent-name name inum h = c_string-strncpy name dirsiz h

-- The new entry is found under its name,
pub matches-new_dirent :
    (name : List ℕ) (inum : ℕ)
    → All (λ c. c ≢ 0) name
    → 0 < inum
    → inum < 2 ^ 16
    → matches name (new_dirent name inum) ≡ true
unfolding matches namecmp
matches-new_dirent name inum h p b =
    let used : dirent_inum (new_dirent name inum) == 0 ≡ false =
      ground (arith, p, new_dirent-inum name inum b) in
    let same : namecmp name (dirent_name (new_dirent name inum)) ≡ pos 0 =
      ap (λ t. strncmp name t dirsiz) (new_dirent-name name inum h) ∙ strncmp-take name dirsiz in
    rw (used, same) refl

-- and under no name that `namecmp` tells apart from its first 14 characters.
pub matches-new_dirent_ne :
    (q name : List ℕ) (inum : ℕ)
    → All (λ c. c ≢ 0) name
    → is_zero (namecmp q (take dirsiz name)) ≡ false
    → matches q (new_dirent name inum) ≡ false
unfolding matches
matches-new_dirent_ne q name inum h ne =
    elim (Bool-cases (dirent_inum (new_dirent name inum) == 0)) [
      | inl z ↦ rw z refl
      | inr u ↦ rw u (ap (λ t. is_zero (namecmp q t)) (new_dirent-name name inum h) ∙ ne)
    ]

pub bytes-get_or : (l : List ℕ) → bytes (λ i. get_or l i 0) 0 (length l) ≡ l
bytes-get_or [] = refl
bytes-get_or (x ∷ l) =
    let shifted : bytes (λ i. get_or (x ∷ l) i 0) 1 (length l)
        ≡ bytes (λ i. get_or l i 0) 0 (length l) =
      bytes_same (λ i. get_or (x ∷ l) i 0) (λ i. get_or l i 0) (length l) 1 0
        (λ j h.
          let e : 1 + j ≡ suc j = omega arith in
          let z : 0 + j ≡ j = omega arith in rw (e, z) refl) in
    ap (λ r. x ∷ r) (shifted ∙ bytes-get_or l)
