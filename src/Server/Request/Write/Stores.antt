-- ===== src/Server/Request/Write/Stores.antt =====
-- What writeT leaves in the client's directory where no call fails.
use gtu_cse344_system_progra.Base.Strings.{same_name}
use gtu_cse344_system_progra.Server.Request.Write.Lines.{Text, AllText, AllShort, replace_line}
use gtu_cse344_system_progra.Server.Request.Write.{
  opened, fgets_room, read_pieces, fill_temp, copy_back, with_file, replace_placed, replace_filled,
  replace_opened, replace_locked,
}
use gtu_cse344_system_progra.Base.{
  ℕ, suc, ◌<◌, ◌≡◌, refl, ap, ◌∙◌, Bool, true, false, some, List, ◌∷◌, ◌++◌, length, set, arith,
  if◌then◌else◌,
}
use gtu_cse344_system_progra.Server.Sync.Table.{Name}
use gtu_cse344_system_progra.Server.Request.World.{
  Bytes, text, reader_enter, reader_exit, writer_enter, writer_exit, World, Os, continues, find,
  log, send, respond,
}
use gtu_cse344_system_progra.Server.Request.Read.Lines.{OneLine, AllOneLine, join_lines}
use gtu_cse344_system_progra.Server.Request.Copying.{find-put}

module _ (os : Os) (file : Name) (str : Bytes) (k : ℕ) (w : World) (fifo : os.open_fifo ≡ true)
    (answer : os.write_fifo ≡ true) where
  stored : Bytes → World → World
  stored new w0 =
      send (text "Succesfully written into the file.\n")
        (log (writer_exit k) (with_file file new (log (writer_enter k) w0)))

  replace_placed_stores :
      (r : Bytes × Bool) (new : Bytes) (w0 : World)
      → os.create_file ≡ true
      → (r.1 ≡ true) × (copy_back (read_pieces r.0) ≡ new)
      → replace_placed os file k r w0 ≡ continues (stored new w0)
  unfolding replace_placed respond stored
  replace_placed_stores (temp, true) new w0 creates h = rw (creates, fifo, answer, h.1)
  replace_placed_stores (temp, false) new w0 creates h = cc

  replace_opened_placed :
      (n : ℕ) (content : Bytes) (w0 : World)
      → os.tmpfile ≡ true
      → replace_opened os file n (some str) k (some content) w0
        ≡ replace_placed os file k
            (fill_temp n str 0 (read_pieces content))
            (log (reader_exit k) w0)
  unfolding replace_opened replace_filled
  replace_opened_placed n content w0 temporary = ground arith

  module _ (j : ℕ) (ls : List Bytes) (tail : Bytes) (opens : os.open_file ≡ true)
      (temporary : os.tmpfile ≡ true) (creates : os.create_file ≡ true) (one : AllOneLine ls)
      (short : AllShort ls) (texts : AllText ls) (last : OneLine tail)
      (small : length tail < fgets_room) (text_tail : Text tail) (text_str : Text str)
      (lt : j < length ls) (there : find file w.client_dir ≡ some (join_lines ls ++ tail)) where
    -- Where no call fails and the file has the line, all lines shorter than the buffer of `fgets` and
    -- without a byte 0, as the string is, writeT with a line number leaves the file with the string in place of that line and the rest
    -- as it was, every other file as it was, and the lock entered and left once as a reader and then
    -- once as a writer.
    pub replace_stores :
        (w' : World) × (replace_locked os file (suc j) (some str) k w ≡ continues w')
        × ((n : Name)
            → find n w'.client_dir ≡ (
                if same_name file n
                then some (join_lines (set ls j str) ++ tail)
                else find n w.client_dir))
        × (w'.locks ≡ writer_exit k ∷ writer_enter k ∷ reader_exit k ∷ reader_enter k ∷ w.locks)
    unfolding replace_locked stored
    replace_stores = (
      stored (join_lines (set ls j str) ++ tail) (log (reader_exit k) (log (reader_enter k) w)),
      ap (λ o. replace_opened os file (suc j) (some str) k (opened os.open_file o) entered) there
          ∙ ap (λ b. replace_opened os file (suc j) (some str) k (opened b (some content)) entered)
              opens
          ∙ replace_opened_placed (suc j) content entered temporary
          ∙ replace_placed_stores (fill_temp (suc j) str 0 (read_pieces content))
              (join_lines (set ls j str) ++ tail) (log (reader_exit k) entered) creates
              (replace_line j str ls tail one short texts last small text_tail text_str lt),
      λ n. find-put n file (join_lines (set ls j str) ++ tail) w.client_dir,
      refl,
    )
      where
        entered : World
        entered = log (reader_enter k) w

        content : Bytes
        content = join_lines ls ++ tail
