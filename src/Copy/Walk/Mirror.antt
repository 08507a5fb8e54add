-- ===== src/Copy/Walk/Mirror.antt =====
-- What the walk pushes: the files of the tree in the order of a listing, each with the path that mirrors
-- it under the destination.
use gtu_cse344_system_progra.Base.{
  subst, ℕ, false, Bool-cases, ◌≡◌, refl, ap, sym, ◌∙◌, ◌⊎◌, inl, inr, Option, none, some, List, [],
  ◌∷◌, ◌++◌, map, if◌then◌else◌,
}
use mathlib.Core.List.{append_assoc, append-nil}
use gtu_cse344_system_progra.Copy.Buffer.Defs.{BufferElement}
use gtu_cse344_system_progra.Copy.Walk.{
  Name, Entries, end, file, directory, Disk, Walk, Outcome, continues, exits, and_then, join,
  is_dot, element, copy_file, enter, copy_entries, copy_directory,
}

-- A file of a tree: the directories that lead to it, and its name.
abbrev pub Place : Type 0
Place = List Name × Name

abbrev pub under : Name → Place → Place
under name (dirs, n) = (name ∷ dirs, n)

unfoldable pub listing : Entries → List Place
listing end = []
listing (file name rest) = if is_dot name then listing rest else ([], name) ∷ listing rest
listing (directory name inner rest) =
    if is_dot name then listing rest else map (under name) (listing inner) ++ listing rest

abbrev pub path : Name → Place → Name
path dir ([], n) = join dir n
path dir (d ∷ dirs, n) = path (join dir d) (dirs, n)

abbrev fd_of : Option ℕ → ℕ
fd_of none = 0
fd_of (some fd) = fd

-- The elements that a listing makes: a file goes to the same place under `dest`.
abbrev pub mirrored : Disk → Name → Name → List Place → List BufferElement
mirrored disk src dest [] = []
mirrored disk src dest (place ∷ more) =
    element (fd_of (disk.open_source (path src place))) (fd_of (disk.open_dest (path dest place)))
      place.1
    ∷ mirrored disk src dest more

abbrev pub Fails : Disk → Name → Type 0
Fails disk p =
    (disk.open_dir p ≡ false)
    ⊎ (disk.make_dir p ≡ false)
    ⊎ (disk.open_source p ≡ none)
    ⊎ (disk.open_dest p ≡ none)

-- The walk from `before` pushes `all`, or a part in front of it where a call fails.
abbrev pub Pushes : Disk → List BufferElement → List BufferElement → Outcome → Type 0
Pushes disk before all (continues w) = w.pushed ≡ before ++ all
Pushes disk before all (exits w) =
    ((xs : List BufferElement) × (more : List BufferElement) × (w.pushed ≡ before ++ xs)
      × (xs ++ more ≡ all))
    × ((p : Name) × Fails disk p)

Pushes-shift :
    (disk : Disk) (before xs ys : List BufferElement) (o : Outcome)
    → Pushes disk (before ++ xs) ys o
    → Pushes disk before (xs ++ ys) o
Pushes-shift disk before xs ys (continues w) h = h ∙ append_assoc before xs ys
Pushes-shift disk before xs ys (exits w) ((zs, more, e, e'), f) = (
  (xs ++ zs, more, e ∙ append_assoc before xs zs, append_assoc xs zs more ∙ ap (λ l. xs ++ l) e'),
  f,
)

Pushes-and_then :
    (disk : Disk) (before xs ys : List BufferElement) (o : Outcome) (more : Walk → Outcome)
    → Pushes disk before xs o
    → ((w : Walk) → w.pushed ≡ before ++ xs → Pushes disk (before ++ xs) ys (more w))
    → Pushes disk before (xs ++ ys) (and_then o more)
Pushes-and_then disk before xs ys (exits w) more ((zs, rest, e, e'), f) k =
    ((zs, rest ++ ys, e, sym (append_assoc zs rest ys) ∙ ap (λ l. l ++ ys) e'), f)
Pushes-and_then disk before xs ys (continues w) more h k =
    Pushes-shift disk before xs ys (more w) (k w h)

Pushes-and_then_at :
    (disk : Disk) (before : List BufferElement) (w : Walk)
    → w.pushed ≡ before
    → (xs ys : List BufferElement) (o : Outcome) (more : Walk → Outcome) → Pushes disk w.pushed xs o
    → ((w' : Walk) → w'.pushed ≡ w.pushed ++ xs → Pushes disk (w.pushed ++ xs) ys (more w'))
    → Pushes disk before (xs ++ ys) (and_then o more)
Pushes-and_then_at disk before w h xs ys o more p k =
    subst (λ b. Pushes disk b (xs ++ ys) (and_then o more)) h
      (Pushes-and_then disk w.pushed xs ys o more p k)

mirrored-append :
    (disk : Disk) (src dest : Name) (ps qs : List Place)
    → mirrored disk src dest (ps ++ qs) ≡ mirrored disk src dest ps ++ mirrored disk src dest qs
mirrored-append disk src dest [] qs = refl
mirrored-append disk src dest (p ∷ ps) qs =
    ap
      (λ l.
        element (fd_of (disk.open_source (path src p))) (fd_of (disk.open_dest (path dest p))) p.1
        ∷ l)
      (mirrored-append disk src dest ps qs)

mirrored-under :
    (disk : Disk) (src dest name : Name) (ps : List Place)
    → mirrored disk src dest (map (under name) ps)
      ≡ mirrored disk (join src name) (join dest name) ps
mirrored-under disk src dest name [] = refl
mirrored-under disk src dest name ((dirs, n) ∷ ps) =
    ap
      (λ l.
        element (fd_of (disk.open_source (path (join src name) (dirs, n))))
          (fd_of (disk.open_dest (path (join dest name) (dirs, n)))) n
        ∷ l)
      (mirrored-under disk src dest name ps)

Pushes-copy_file :
    (disk : Disk) (src dest name : Name) (w : Walk) (o o' : Option ℕ)
    → disk.open_source (join src name) ≡ o
    → disk.open_dest (join dest name) ≡ o'
    → Pushes disk w.pushed (element (fd_of o) (fd_of o') name ∷ []) (copy_file name o o' w)
unfolding copy_file
Pushes-copy_file disk src dest name w none o' e e' = (
  ([], element 0 (fd_of o') name ∷ [], sym (append-nil w.pushed), refl),
  (join src name, inr (inr (inl e))),
)
Pushes-copy_file disk src dest name w (some fd) none e e' = (
  ([], element fd 0 name ∷ [], sym (append-nil w.pushed), refl),
  (join dest name, inr (inr (inr e'))),
)
Pushes-copy_file disk src dest name w (some fd) (some fd') e e' = refl

Pushes-enter :
    (disk : Disk) (src dest : Name) (w : Walk) → Pushes disk w.pushed [] (enter disk src dest w)
unfolding enter
Pushes-enter disk src dest w = elim (Bool-cases (disk.open_dir src)) [
  | inl e ↦ elim (Bool-cases (disk.make_dir dest)) [
    | inl e' ↦ rw (e, e') (sym (append-nil w.pushed))
    | inr e' ↦ rw (e, e') (([], [], sym (append-nil w.pushed), refl), (dest, inr (inl e')))
  ]
  | inr e ↦ rw e (([], [], sym (append-nil w.pushed), refl), (src, inl e))
]

Pushes-copy_entries :
    (disk : Disk) (src dest : Name) (entries : Entries) (before : List BufferElement) (w : Walk)
    → w.pushed ≡ before
    → Pushes disk before
        (mirrored disk src dest (listing entries))
        (copy_entries disk src dest entries w)
unfolding copy_entries listing
Pushes-copy_entries disk src dest end before w h = h ∙ sym (append-nil before)
Pushes-copy_entries disk src dest (file name rest) before w h = elim (Bool-cases (is_dot name)) [
  | inl e ↦ rw e (Pushes-copy_entries disk src dest rest before w h)
  | inr e ↦ rw e (
      Pushes-and_then_at disk before w h (x ∷ []) (mirrored disk src dest (listing rest))
        (copy_file name (disk.open_source (join src name)) (disk.open_dest (join dest name)) w)
        (copy_entries disk src dest rest)
        (Pushes-copy_file disk src dest name w (disk.open_source (join src name))
          (disk.open_dest (join dest name)) refl refl)
        (λ w' h'. Pushes-copy_entries disk src dest rest (w.pushed ++ (x ∷ [])) w' h'))
]
  where
    x : BufferElement
    x =
        element (fd_of (disk.open_source (join src name))) (fd_of (disk.open_dest (join dest name)))
          name
Pushes-copy_entries disk src dest (directory name inner rest) before w h =
    elim (Bool-cases (is_dot name)) [
      | inl e ↦ rw e (Pushes-copy_entries disk src dest rest before w h)
      | inr e ↦
          rw (e, mirrored-append, mirrored-under)
            (Pushes-and_then_at disk before w h xs (mirrored disk src dest (listing rest))
              (and_then (enter disk (join src name) (join dest name) w)
                (copy_entries disk (join src name) (join dest name) inner))
              (copy_entries disk src dest rest)
              (Pushes-and_then disk w.pushed [] xs (enter disk (join src name) (join dest name) w)
                (copy_entries disk (join src name) (join dest name) inner)
                (Pushes-enter disk (join src name) (join dest name) w)
                (λ w' h'.
                  Pushes-copy_entries disk (join src name) (join dest name) inner (w.pushed ++ [])
                    w' h'))
              (λ w' h'. Pushes-copy_entries disk src dest rest (w.pushed ++ xs) w' h'))
    ]
  where
    xs : List BufferElement
    xs = mirrored disk (join src name) (join dest name) (listing inner)

abbrev pub no_walk : Walk
no_walk = record { pushed = []; made = [] }

-- Where `copy_directory` returns, it has pushed one element for each file of the tree, in the order of
-- the listing, with the descriptors of the file's path and of the same path under the destination; it
-- ends the program only where a call fails on some path, and then it has pushed the first of these
-- elements.
pub copy_directory_mirrors :
    (disk : Disk) (src dest : Name) (entries : Entries)
    → Pushes disk []
        (mirrored disk src dest (listing entries))
        (copy_directory disk src dest entries no_walk)
unfolding copy_directory
copy_directory_mirrors disk src dest entries =
    Pushes-and_then disk [] [] (mirrored disk src dest (listing entries))
      (enter disk src dest no_walk) (copy_entries disk src dest entries)
      (Pushes-enter disk src dest no_walk) (λ w h. Pushes-copy_entries disk src dest entries [] w h)
