-- ===== src/Grades.antt =====
-- HW1/src/main.c: the student grade book.
pub mod Sort
pub mod Shell
pub mod Book
pub mod Paging
pub mod Tokens
pub mod Command
mod Tests
