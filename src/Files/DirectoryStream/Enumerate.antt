-- ===== src/Files/DirectoryStream/Enumerate.antt =====
-- kernel/src/fs/DirectoryStream.cpp: what an open stream of a folder gives.
use frosty_os_old.Common.{
  sym, ◌∙◌, length-append, map, ap, ℕ, suc, ◌+◌, ◌≡◌, length, true, false, List, [], ◌∷◌, ◌++◌,
  some, refl, arith,
}
use frosty_os_old.Files.FileStream.{fault, deadlock, return, ◌>>=◌, done}
use frosty_os_old.Files.FileStream.Actions.{esuccess, einval}
use frosty_os_old.Files.DirectoryStream.{
  deadlock, ℤ, next_inodes, Listing, DirectoryStream, child_at, get_next_inode,
}

child_at-append : (xs ys : List ℕ) (y : ℕ) → child_at (xs ++ y ∷ ys) (length xs) ≡ y
unfolding child_at
child_at-append [] ys y = refl
child_at-append (x ∷ xs) ys y = child_at-append xs ys y

length-more : (xs ys : List ℕ) (y : ℕ) → length (xs ++ y ∷ ys) ≡ length xs + suc (length ys)
length-more [] ys y = omega arith
length-more (x ∷ xs) ys y = omega (arith, length-more xs ys y)

-- An open stream of a folder, not locked, at an index.
abbrev pub at : DirectoryStream → Listing → ℕ → DirectoryStream
at s d i = record s { inode = some d; index = i; is_open = true; lock = false }

get_next_inode-child :
    (s : DirectoryStream) (d : Listing) (xs ys : List ℕ) (y : ℕ)
    → d.children ≡ xs ++ y ∷ ys
    → get_next_inode (at s d (length xs)) ≡ done (y, esuccess) (at s d (length xs + 1))
unfolding get_next_inode
get_next_inode-child s d xs ys y e =
    let more = length-more xs ys y in
    let child = child_at-append xs ys y in rw e (ground (arith, more, child))

get_next_inode-end :
    (s : DirectoryStream) (d : Listing) (i : ℕ)
    → i ≡ length d.children
    → get_next_inode (at s d i) ≡ done (0, einval) (at s d i)
unfolding get_next_inode
get_next_inode-end s d i e = ground (arith, e)

append_one : (xs ys : List ℕ) (y : ℕ) → xs ++ y ∷ ys ≡ (xs ++ y ∷ []) ++ ys
append_one [] ys y = refl
append_one (x ∷ xs) ys y = ap (λ zs. x ∷ zs) (append_one xs ys y)

next_inodes-step :
    (n : ℕ) (s t u : DirectoryStream) (a : ℕ × ℤ) (later : List (ℕ × ℤ))
    → get_next_inode s ≡ done a t
    → next_inodes n t ≡ done later u
    → next_inodes (suc n) s ≡ done (a ∷ later) u
unfolding next_inodes
next_inodes-step n s t u a later e e' =
    ap
      (λ o. elim o [
        | done b w ↦ (next_inodes n >>= λ more. return (b ∷ more)) w
        | deadlock ↦ deadlock
        | fault ↦ fault
      ])
      e
    ∙ ap (λ o. elim o [ done more w ↦ done (a ∷ more) w | deadlock ↦ deadlock | fault ↦ fault ]) e'

next_inodes-rest :
    (s : DirectoryStream) (d : Listing) (xs ys : List ℕ)
    → d.children ≡ xs ++ ys
    → next_inodes (length ys) (at s d (length xs))
      ≡ done (map (λ y. (y, esuccess)) ys) (at s d (length (xs ++ ys)))
unfolding next_inodes
next_inodes-rest s d xs [] e = ap (λ n. done [] (at s d n)) (ground (arith, length-append xs []))
next_inodes-rest s d xs (y ∷ ys) e =
    let before = xs ++ y ∷ [] in
    let one : length xs + 1 ≡ length before = ground (arith, length-more xs [] y) in
    let later = next_inodes-rest s d before ys (e ∙ append_one xs ys y) in
    next_inodes-step (length ys) (at s d (length xs)) (at s d (length before))
      (at s d (length (xs ++ y ∷ ys))) (y, esuccess) (map (λ y. (y, esuccess)) ys)
      (get_next_inode-child s d xs ys y e ∙ ap (λ n. done (y, esuccess) (at s d n)) one)
      (later
        ∙ ap (λ zs. done (map (λ y. (y, esuccess)) ys) (at s d (length zs)))
            (sym (append_one xs ys y)))

-- On an open stream of a folder, not locked and at its start: as many calls of `get_next_inode` as there are
-- children give these, in their order, and the next call gives null and the status -EINVAL.
pub next_inodes-children :
    (s : DirectoryStream) (d : Listing)
    → (next_inodes (length d.children) (at s d 0)
        ≡ done (map (λ y. (y, esuccess)) d.children) (at s d (length d.children)))
      × (get_next_inode (at s d (length d.children))
          ≡ done (0, einval) (at s d (length d.children)))
next_inodes-children s d =
    (next_inodes-rest s d [] d.children refl, get_next_inode-end s d (length d.children) refl)
