-- ===== src/Server/Request/Read/Locks.antt =====
-- What readF answers to a request for a line, and what it does to the file's lock.
use gtu_cse344_system_progra.Base.{
  ℕ, suc, ◌+◌, ◌<◌, ◌≡◌, ap, ◌∙◌, true, List, [], ◌∷◌, ◌++◌, length, get_or, arith,
}
use gtu_cse344_system_progra.Base.Int.{pos}
use gtu_cse344_system_progra.Server.Request.World.{
  Bytes, text, contents, World, Os, continues, reader_exit, log, send,
}
use gtu_cse344_system_progra.Server.Request.Read.{hit, end_at, find_line, after_search, send_line}
use gtu_cse344_system_progra.Server.Request.Read.Lines.{
  OneLine, AllOneLine, join_lines, find_line-hit, find_line_miss,
}

module _ (os : Os) (k : ℕ) (ls : List Bytes) (tail : Bytes) (w : World) (one : AllOneLine ls)
    (last : OneLine tail) where
  -- A request for a line that the file has, and that ends in a newline, is answered by exactly that
  -- line where its write succeeds; and the lock is left twice, once in the loop and once behind it.
  pub send_line_hit :
      (j : ℕ)
      → j < length ls
      → os.write_chunk 0 ≡ true
      → send_line os k (pos (suc j)) (join_lines ls ++ tail) w
        ≡ continues (
            log
              (reader_exit k)
              (log (reader_exit k) (send (contents (get_or ls j [] ++ (b'\n' ∷ []))) w)))
  unfolding send_line after_search
  send_line_hit j lt ok = ap (λ s. after_search os k (pos (suc j)) s w) found ∙ rw ok
    where
      found :
          find_line (pos (suc j)) 1 [] (join_lines ls ++ tail)
          ≡ hit (get_or ls j [] ++ (b'\n' ∷ []))
      found =
          ap (λ n. find_line (pos n) 1 [] (join_lines ls ++ tail)) (omega arith)
          ∙ find_line-hit ls tail 1 j one lt

  missed :
      (n : ℕ)
      → length ls < n
      → find_line (pos n) 1 [] (join_lines ls ++ tail) ≡ end_at (1 + length ls)
  missed n lt = find_line_miss ls tail (pos n) 1 one last (λ j small. ground arith)

  -- A request for the line behind the last newline gets no line and no error, whether the file has
  -- bytes there or not, and leaves the lock once.
  pub send_line_last :
      send_line os k (pos (1 + length ls)) (join_lines ls ++ tail) w
      ≡ continues (log (reader_exit k) w)
  unfolding send_line after_search
  send_line_last =
      ap (λ s. after_search os k (pos (1 + length ls)) s w) (missed (1 + length ls) (omega arith))
      ∙ ground arith

  -- A request for a line two or more behind the last newline is answered by the error where its
  -- write succeeds, and leaves the lock once.
  pub send_line_beyond :
      (n : ℕ)
      → 1 + length ls < n
      → os.write_fifo ≡ true
      → send_line os k (pos n) (join_lines ls ++ tail) w
        ≡ continues (
            log
              (reader_exit k)
              (send (text "Line number exceeds the number of lines in the file.\n") w))
  unfolding send_line after_search
  send_line_beyond n lt ok =
      ap (λ s. after_search os k (pos n) s w) (missed n (omega arith)) ∙ ground arith
