-- ===== src/Minix3/Lookup.antt =====
-- What looking up a name or a path finds (kernel/fs/minix3.rs, `dir_lookup` and `lookup`).
use light_os_orion_risc_v.Prelude.{
  ℕ, ◌≡◌, ◌⊎◌, inl, inr, refl, ap, true, false, Option, none, some, List, [], ◌∷◌, ◌++◌, arith,
  Bool-cases,
}
use light_os_orion_risc_v.Minix3.{Disk, FsError, Result, ok, err, Inode, MinixFs, inode}
use light_os_orion_risc_v.Minix3.Dir.{
  Entry, is_dir, readdir, same_name, last_named, dir_lookup, walk,
}

-- No entry has the name.
abbrev pub Unnamed : List ℕ → List Entry → Type 0
Unnamed name [] = Unit {0}
Unnamed name ((entry_name, ino) ∷ r) = (same_name entry_name name ≡ false) × Unnamed name r

-- The last entry with the name has inode `ino`.
pub record LastNamed (name : List ℕ) (es : List Entry) (ino : ℕ) : Type 0 where
  pub before : List Entry
  pub entry_name : List ℕ
  pub after : List Entry
  pub split : es ≡ before ++ ((entry_name, ino) ∷ after)
  pub named : same_name entry_name name ≡ true
  pub last : Unnamed name after

-- With `found` in hand, `last_named` finds the last entry of the name, or returns what it had.
last_named_lem :
    (name : List ℕ) (es : List Entry) (found : Option ℕ)
    → ((last_named name es found ≡ found) × Unnamed name es)
      ⊎ ((ino : ℕ) × (last_named name es found ≡ some ino) × LastNamed name es ino)
unfolding last_named
last_named_lem name [] found = inl (refl, ground arith)
last_named_lem name ((entry_name, ino) ∷ r) found = elim (Bool-cases (same_name entry_name name)) [
  | inl same ↦ elim (last_named_lem name r (some ino)) [
    | inl (e, none_left) ↦ inr (
      ino,
      ground arith,
      record {
        before = [];
        entry_name = entry_name;
        after = r;
        split = refl;
        named = same;
        last = none_left;
      },
    )
    | inr (k, e, l) ↦ inr (
      k,
      ground arith,
      record {
        before = (entry_name, ino) ∷ l.before;
        entry_name = l.entry_name;
        after = l.after;
        split = ap (λ t. (entry_name, ino) ∷ t) l.split;
        named = l.named;
        last = l.last;
      },
    )
  ]
  | inr other ↦ elim (last_named_lem name r found) [
    | inl (e, none_left) ↦ inl (ground arith, (other, none_left))
    | inr (k, e, l) ↦ inr (
      k,
      ground arith,
      record {
        before = (entry_name, ino) ∷ l.before;
        entry_name = l.entry_name;
        after = l.after;
        split = ap (λ t. (entry_name, ino) ∷ t) l.split;
        named = l.named;
        last = l.last;
      },
    )
  ]
]

-- Of the entries of a directory that can be read, the last one with the name is found; nothing is
-- found only if there is none.
pub dir_lookup_lem :
    (disk : Disk) (dir : Inode) (name : List ℕ) (es : List Entry)
    → readdir disk dir ≡ ok es
    → ((dir_lookup disk dir name ≡ ok none) × Unnamed name es)
      ⊎ ((ino : ℕ) × (dir_lookup disk dir name ≡ ok (some ino)) × LastNamed name es ino)
unfolding dir_lookup
dir_lookup_lem disk dir name es e = elim (last_named_lem name es none) [
  | inl (nothing, u) ↦ inl (ground arith, u)
  | inr (ino, found, l) ↦ inr (ino, ground arith, l)
]

-- What a path goes on to after its first part.
abbrev pub walk_on : Disk → MinixFs → List (List ℕ) → Result (Option Inode) → Result (Option Inode)
walk_on disk fs rest (err e) = err e
walk_on disk fs rest (ok none) = ok none
walk_on disk fs rest (ok (some i)) = walk disk fs i rest

Lookup-cases :
    (r : Result (Option ℕ))
    → ((e : FsError) × (r ≡ err e)) ⊎ (r ≡ ok none) ⊎ ((ino : ℕ) × (r ≡ ok (some ino)))
Lookup-cases (err e) = inl (e, refl)
Lookup-cases (ok none) = inr (inl refl)
Lookup-cases (ok (some ino)) = inr (inr (ino, refl))

Inode-cases : (r : Result Inode) → ((e : FsError) × (r ≡ err e)) ⊎ ((i : Inode) × (r ≡ ok i))
Inode-cases (err e) = inl (e, refl)
Inode-cases (ok i) = inr (i, refl)

-- Following a path is following its first part and going on from where that ends.
pub walk-append :
    (disk : Disk) (fs : MinixFs) (i : Inode) (xs ys : List (List ℕ))
    → walk disk fs i (xs ++ ys) ≡ walk_on disk fs ys (walk disk fs i xs)
unfolding walk
walk-append disk fs i [] ys = refl
walk-append disk fs i (x ∷ xs) ys = elim (Bool-cases (is_dir i)) [
  | inr plain ↦ ground arith
  | inl dir ↦ elim (Lookup-cases (dir_lookup disk i x)) [
    | inl (e, bad) ↦ ground arith
    | inr (inl missing) ↦ ground arith
    | inr (inr (ino, found)) ↦ elim (Inode-cases (inode disk fs ino)) [
      | inl (e, bad) ↦ ground arith
      | inr (next, there) ↦ ground (arith, walk-append disk fs next xs ys)
    ]
  ]
]

-- Names lead from an inode to another one: every step is to the last entry with the name, in the
-- entries of an inode that is a directory.
pub data Leads (disk : Disk) (fs : MinixFs) : Inode → List (List ℕ) → Inode → Type 0 where
  here : {i : Inode} → Leads disk fs i [] i
  into :
      {dir next target : Inode} {name : List ℕ} {names : List (List ℕ)} {es : List Entry} {ino : ℕ}
      → is_dir dir ≡ true
      → readdir disk dir ≡ ok es
      → LastNamed name es ino
      → inode disk fs ino ≡ ok next
      → Leads disk fs next names target
      → Leads disk fs dir (name ∷ names) target

-- Where names stop: what they lead to is no directory, or has no entry with the next name.
pub data Stops (disk : Disk) (i : Inode) (name : List ℕ) : Type 0 where
  no_directory : is_dir i ≡ false → Stops disk i name
  no_entry :
      {es : List Entry}
      → is_dir i ≡ true
      → readdir disk i ≡ ok es
      → Unnamed name es
      → Stops disk i name

-- Where names cannot be followed: a directory or an inode that cannot be read.
pub data Fails (disk : Disk) (fs : MinixFs) (i : Inode) (name : List ℕ) (e : FsError) : Type 0 where
  unreadable : is_dir i ≡ true → readdir disk i ≡ err e → Fails disk fs i name e
  bad_inode :
      {es : List Entry} {ino : ℕ}
      → is_dir i ≡ true
      → readdir disk i ≡ ok es
      → LastNamed name es ino
      → inode disk fs ino ≡ err e
      → Fails disk fs i name e

-- Names that lead some of the way, to an inode and the next name.
pub record Part (disk : Disk) (fs : MinixFs) (i : Inode) (names : List (List ℕ))
    (Why : Inode → List ℕ → Type 0) : Type 0 where
  pub before : List (List ℕ)
  pub name : List ℕ
  pub after : List (List ℕ)
  pub split : names ≡ before ++ (name ∷ after)
  pub at : Inode
  pub leads : Leads disk fs i before at
  pub why : Why at name

-- What each answer of `walk` says of the directories.
pub Walked : Disk → MinixFs → Inode → List (List ℕ) → Result (Option Inode) → Type 0
Walked disk fs i names (ok (some target)) = Leads disk fs i names target
Walked disk fs i names (ok none) = Part disk fs i names (Stops disk)
Walked disk fs i names (err e) = Part disk fs i names (λ at name. Fails disk fs at name e)

into-Part :
    (disk : Disk) (fs : MinixFs) (i next : Inode) (name : List ℕ) (names : List (List ℕ))
    (es : List Entry) (ino : ℕ) (Why : Inode → List ℕ → Type 0)
    → is_dir i ≡ true
    → readdir disk i ≡ ok es
    → LastNamed name es ino
    → inode disk fs ino ≡ ok next
    → Part disk fs next names Why
    → Part disk fs i (name ∷ names) Why
into-Part disk fs i next name names es ino Why dir read named there p = record {
  before = name ∷ p.before;
  name = p.name;
  after = p.after;
  split = ap (λ r. name ∷ r) p.split;
  at = p.at;
  leads = into dir read named there p.leads;
  why = p.why;
}

into-Walked :
    (disk : Disk) (fs : MinixFs) (i next : Inode) (name : List ℕ) (names : List (List ℕ))
    (es : List Entry) (ino : ℕ) (r : Result (Option Inode))
    → is_dir i ≡ true
    → readdir disk i ≡ ok es
    → LastNamed name es ino
    → inode disk fs ino ≡ ok next
    → Walked disk fs next names r
    → Walked disk fs i (name ∷ names) r
unfolding Walked
into-Walked disk fs i next name names es ino (ok (some t)) dir read named there w =
    into dir read named there w
into-Walked disk fs i next name names es ino (ok none) dir read named there w =
    into-Part disk fs i next name names es ino (Stops disk) dir read named there w
into-Walked disk fs i next name names es ino (err e) dir read named there w =
    into-Part disk fs i next name names es ino (λ at n. Fails disk fs at n e) dir read named there w

at_once :
    (disk : Disk) (fs : MinixFs) (i : Inode) (name : List ℕ) (names : List (List ℕ))
    (Why : Inode → List ℕ → Type 0)
    → Why i name
    → Part disk fs i (name ∷ names) Why
at_once disk fs i name names Why w = record {
  before = [];
  name = name;
  after = names;
  split = refl;
  at = i;
  leads = here;
  why = w;
}

Entries-cases :
    (r : Result (List Entry)) → ((e : FsError) × (r ≡ err e)) ⊎ ((es : List Entry) × (r ≡ ok es))
Entries-cases (err e) = inl (e, refl)
Entries-cases (ok es) = inr (es, refl)

dir_lookup-err :
    (disk : Disk) (dir : Inode) (name : List ℕ) (e : FsError)
    → readdir disk dir ≡ err e
    → dir_lookup disk dir name ≡ err e
unfolding dir_lookup
dir_lookup-err disk dir name e bad = rw (dir_lookup, bad) refl

-- `walk` answers with an inode only if the names lead to it, by the last entry of each name in the
-- directory that the names before it lead to. It answers that there is none only if some of the names
-- lead to an inode that is no directory or has no entry with the next name, and fails only with the
-- error of a directory or an inode on the way that cannot be read.
pub walk-Walked :
    (disk : Disk) (fs : MinixFs) (i : Inode) (names : List (List ℕ))
    → Walked disk fs i names (walk disk fs i names)
unfolding Walked walk
walk-Walked disk fs i [] = here
walk-Walked disk fs i (name ∷ names) = elim (Bool-cases (is_dir i)) [
  | inr plain ↦
      let answer : walk disk fs i (name ∷ names) ≡ ok none = rw (walk, plain) refl in
      rw answer (at_once disk fs i name names (Stops disk) (no_directory plain))
  | inl dir ↦ elim (Entries-cases (readdir disk i)) [
    | inl (e, bad) ↦
        let answer : walk disk fs i (name ∷ names) ≡ err e =
          rw (walk, dir, dir_lookup-err disk i name e bad) refl in
        rw answer (at_once disk fs i name names (λ at n. Fails disk fs at n e) (unreadable dir bad))
    | inr (es, read) ↦ elim (dir_lookup_lem disk i name es read) [
      | inl (missing, u) ↦
          let answer : walk disk fs i (name ∷ names) ≡ ok none = rw (walk, dir, missing) refl in
          rw answer (at_once disk fs i name names (Stops disk) (no_entry dir read u))
      | inr (ino, found, named) ↦ elim (Inode-cases (inode disk fs ino)) [
        | inl (e, bad) ↦
            let answer : walk disk fs i (name ∷ names) ≡ err e = rw (walk, dir, found, bad) refl in
            rw answer (
              at_once disk fs i name names (λ at n. Fails disk fs at n e)
                (bad_inode dir read named bad))
        | inr (next, there) ↦
            let answer : walk disk fs i (name ∷ names) ≡ walk disk fs next names =
              rw (walk, dir, found, there) refl in
            rw answer (
              into-Walked disk fs i next name names es ino (walk disk fs next names) dir read named
                there (walk-Walked disk fs next names))
      ]
    ]
  ]
]
