-- ===== src/Copy/Walk.antt =====
-- `copy_directory` of HW4/src/manager.c (HW5/src/manager.c has the same function): the walk over the
-- source directory that makes the elements which the manager pushes. A push waits for room and then
-- succeeds, so the walk does not depend on the buffer.
pub mod Mirror
use gtu_cse344_system_progra.Base.{
  not, ◌-◌, ℕ, ◌+◌, Bool, ◌||◌, Option, none, some, List, [], ◌∷◌, ◌++◌, take, if◌then◌else◌,
}
use gtu_cse344_system_progra.Base.Strings.{same_name, codes}
use gtu_cse344_system_progra.Copy.Buffer.Defs.{BufferElement}

abbrev pub Name : Type 0
Name = List ℕ

-- What `readdir` lists of a directory, in its order; what is not a directory is a file.
pub data Entries : Type 0 where
  end : Entries
  file : Name → Entries → Entries
  directory : Name → Entries → Entries → Entries

-- What the calls return for each path: an `open` a descriptor or none.
pub record Disk : Type 0 where
  pub open_dir : Name → Bool
  pub make_dir : Name → Bool  -- true as well where the directory is there
  pub open_source : Name → Option ℕ
  pub open_dest : Name → Option ℕ

-- What has been pushed, and which destination directories have been made, in that order.
pub record Walk : Type 0 where
  pub pushed : List BufferElement
  pub made : List Name

pub data Outcome : Type 0 where
  continues exits : Walk → Outcome

abbrev pub and_then : Outcome → (Walk → Outcome) → Outcome
and_then (continues w) more = more w
and_then (exits w) more = exits w

abbrev pub path_max : ℕ
path_max = 4096

-- `snprintf` of a path, cut to the array.
unfoldable pub join : Name → Name → Name
join dir name = take (path_max - 1) (dir ++ (b'/' ∷ name))

unfoldable pub is_dot : Name → Bool
unfolding same_name
is_dot name = same_name name (codes ".") || same_name name (codes "..")

abbrev pub element : ℕ → ℕ → Name → BufferElement
element src_fd dest_fd name = record {
  src_fd = src_fd;
  dest_fd = dest_fd;
  filename = take 255 name;
}

abbrev pub push : BufferElement → Walk → Walk
push x w = record w { pushed = w.pushed ++ (x ∷ []) }

unfoldable pub copy_file : Name → Option ℕ → Option ℕ → Walk → Outcome
copy_file name none dest w = exits w
copy_file name (some src) none w = exits w
copy_file name (some src) (some dest) w = continues (push (element src dest name) w)

-- The two calls in front of the loop of `copy_directory`.
unfoldable pub enter : Disk → Name → Name → Walk → Outcome
enter disk src dest w =
    if not (disk.open_dir src)
    then exits w
    else if not (disk.make_dir dest)
    then exits w
    else continues (record w { made = w.made ++ (dest ∷ []) })

-- The loop over the entries of a directory.
unfoldable pub copy_entries : Disk → Name → Name → Entries → Walk → Outcome
unfolding is_dot copy_file join enter
copy_entries disk src dest end w = continues w
copy_entries disk src dest (file name rest) w =
    and_then
      (if is_dot name
        then continues w
        else copy_file name (disk.open_source (join src name)) (disk.open_dest (join dest name)) w)
      (copy_entries disk src dest rest)
copy_entries disk src dest (directory name inner rest) w =
    and_then
      (if is_dot name
        then continues w
        else and_then (enter disk (join src name) (join dest name) w)
            (copy_entries disk (join src name) (join dest name) inner))
      (copy_entries disk src dest rest)

unfoldable pub copy_directory : Disk → Name → Name → Entries → Walk → Outcome
unfolding enter copy_entries
copy_directory disk src dest entries w =
    and_then (enter disk src dest w) (copy_entries disk src dest entries)
